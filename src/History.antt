-- ===== src/History.antt =====
-- internal/app/history.go: parsing, filtering and rendering of the event log.
pub mod Recent
use reptile.Prelude.{
  ℕ, zero, suc, ◌+◌, ◌-◌, Bool, true, false, not, ◌&&◌, ◌||◌, Option, none, some, List, [], ◌∷◌,
  ◌++◌, length, replicate, leb, ltb, ◌==◌, if◌then◌else◌,
}
use mathlib.Core.List.{reverse}
use reptile.Text.Defs.{Text, codes, eq}
use reptile.Text.Space.{trim_space}
use reptile.Text.Split.{split_n}
use reptile.Text.Number.{is_digit}
use reptile.Library.{Library, to_upper}

pub record Entry : Type 0 where
  pub time : Text
  pub level : Text
  pub rest : Text
  pub rank : ℕ

abbrev pub rank_info : ℕ
rank_info = 0

abbrev pub rank_warn : ℕ
rank_warn = 1

abbrev pub rank_error : ℕ
rank_error = 2

-- The map `levelRank`
unfoldable pub level_rank : Text → Option ℕ
unfolding eq
level_rank l =
    if eq l (codes "INFO")
    then some rank_info
    else if eq l (codes "WARN")
    then some rank_warn
    else if eq l (codes "ERROR")
    then some rank_error
    else none

-- The map `levelColor`
unfoldable pub level_color : Text → Option Text
unfolding eq
level_color l =
    if eq l (codes "INFO")
    then some (0x1b ∷ codes "[32m")
    else if eq l (codes "WARN")
    then some (0x1b ∷ codes "[33m")
    else if eq l (codes "ERROR")
    then some (0x1b ∷ codes "[31m")
    else none

-- `^\d{2}:\d{2}:\d{2}$`
unfoldable pub time_re : Text → Bool
time_re (a ∷ b ∷ c ∷ d ∷ e ∷ f ∷ g ∷ h ∷ []) =
    is_digit a
    && is_digit b
    && c == b':'
    && is_digit d
    && is_digit e
    && f == b':'
    && is_digit g
    && is_digit h
time_re _ = false

unfoldable pub drop_newlines : Text → Text
drop_newlines [] = []
drop_newlines (c ∷ cs) = elim (c == b'\n') [ true ↦ drop_newlines cs | false ↦ c ∷ cs ]

-- `strings.TrimRight(line, "\n")`
unfoldable pub trim_newlines : Text → Text
unfolding drop_newlines
trim_newlines s = reverse (drop_newlines (reverse s))

abbrev pub zero_entry : Entry
zero_entry = record { time = []; level = []; rest = []; rank = 0 }

-- `none` for a line that is not an event
unfoldable pub ranked : Text → Text → Text → Option ℕ → Option Entry
ranked time level rest none = none
ranked time level rest (some r) =
    some (record { time = time; level = level; rest = trim_space rest; rank = r })

unfoldable pub of_tokens : Library → List Text → Option Entry
unfolding ranked
of_tokens lib (time ∷ level ∷ rest ∷ _) =
    if not (time_re time)
    then none
    else (let lvl = to_upper lib (trim_space level) in ranked time lvl rest (level_rank lvl))
of_tokens lib _ = none

unfoldable pub parse_event : Library → Text → Option Entry
unfolding of_tokens
parse_event lib line = of_tokens lib (split_n b' ' 2 (trim_newlines line))

-- `ParseEvents`
unfoldable pub parse_events : Library → List Text → List Entry
parse_events lib [] = []
parse_events lib (l ∷ ls) = elim (parse_event lib l) [
  | none ↦ parse_events lib ls
  | some e ↦ e ∷ parse_events lib ls
]

-- `FilterMin`
unfoldable pub filter_min : List Entry → ℕ → List Entry
filter_min [] min = []
filter_min (e ∷ es) min = elim (leb min e.rank) [
  | true ↦ e ∷ filter_min es min
  | false ↦ filter_min es min
]

-- `%-5s`
pad : ℕ → Text → Text
pad n s = s ++ replicate (n - length s) b' '

coloured : Bool → Text → Text
coloured false l = l
coloured true l = elim (level_color l) [ none ↦ l | some c ↦ c ++ (l ++ (0x1b ∷ codes "[0m")) ]

-- `RenderEntries`, the text that is written
unfoldable pub render_entries : List Entry → Bool → Text
unfolding pad coloured
render_entries [] color = []
render_entries (e ∷ es) color =
    e.time
    ++ (b' '
        ∷ (pad 5 (coloured color e.level)
            ++ (b' ' ∷ (e.rest ++ (b'\n' ∷ render_entries es color)))))
