-- ===== src/Console/RoundTrip.antt =====
-- What the console handler writes to the log file, the history reads back.
use reptile.Prelude.{
  ℕ, ◌≡◌, refl, ap, ◌∙◌, true, false, some, [], ◌∷◌, ◌++◌, append_assoc, if◌then◌else◌, ℤ, ltb_ℤ,
  arith, Bool-cases, inl, inr, ◌==◌,
}
use mathlib.Core.List.{reverse, reverse-reverse}
use reptile.Text.Defs.{Text, codes, has_byte, has_byte-append, has_byte-reverse}
use reptile.Text.Space.{trim_space, trim_space-blank}
use reptile.Text.Split.{split_n, split_n-append}
use reptile.Text.Number.{is_digit}
use reptile.Library.{Library, to_upper}
use reptile.History.{time_re, parse_event, of_tokens, level_rank, trim_newlines, drop_newlines}
use reptile.Console.{Record, Handler, level_warn, level_error, level_column, body, line, enabled}

drop_newlines_none : (s : Text) → has_byte b'\n' s ≡ false → drop_newlines s ≡ s
unfolding has_byte drop_newlines
drop_newlines_none [] h = refl
drop_newlines_none (c ∷ s) h = ground arith

trim_newlines_none : (s : Text) → has_byte b'\n' s ≡ false → trim_newlines s ≡ s
unfolding trim_newlines
trim_newlines_none s h =
    ap reverse (drop_newlines_none (reverse s) (has_byte-reverse b'\n' s ∙ h)) ∙ reverse-reverse s

digit_ne : (a b : ℕ) → is_digit a ≡ true → is_digit b ≡ false → (a == b) ≡ false
unfolding is_digit
digit_ne a b h k = ground arith

colon_ne : (a b : ℕ) → (a == b':') ≡ true → (b == b':') ≡ false → (a == b) ≡ false
colon_ne a b h k = ground arith

-- Digits and colons only.
time_re-byte :
    (t : Text) (b : ℕ)
    → time_re t ≡ true
    → is_digit b ≡ false
    → (b == b':') ≡ false
    → has_byte b t ≡ false
unfolding time_re has_byte
time_re-byte (a ∷ b ∷ c ∷ d ∷ e ∷ f ∷ g ∷ h ∷ []) x m n k = ground (
  arith,
  digit_ne a x,
  digit_ne b x,
  colon_ne c x,
  digit_ne d x,
  digit_ne e x,
  colon_ne f x,
  digit_ne g x,
  digit_ne h x,
)
time_re-byte _ x m n k = cc

split_none : (sep : ℕ) (s : Text) → split_n sep 0 s ≡ s ∷ []
unfolding split_n
split_none sep [] = refl
split_none sep (c ∷ s) = refl

tokens :
    (time level rest : Text)
    → has_byte b' ' time ≡ false
    → has_byte b' ' level ≡ false
    → split_n b' ' 2 (time ++ b' ' ∷ (level ++ b' ' ∷ rest)) ≡ time ∷ level ∷ rest ∷ []
tokens time level rest a b =
    split_n-append b' ' 1 time (level ++ b' ' ∷ rest) a
    ∙ ap (λ ts. time ∷ ts)
        (split_n-append b' ' 0 level rest b ∙ ap (λ ts. level ∷ ts) (split_none b' ' rest))

has_no_newline :
    (time level rest : Text)
    → has_byte b'\n' time ≡ false
    → has_byte b'\n' level ≡ false
    → has_byte b'\n' rest ≡ false
    → has_byte b'\n' (time ++ b' ' ∷ (level ++ b' ' ∷ rest)) ≡ false
unfolding has_byte
has_no_newline time level rest a b c = ground (
  arith,
  has_byte-append b'\n' time (b' ' ∷ (level ++ b' ' ∷ rest)),
  has_byte-append b'\n' level (b' ' ∷ rest),
)

-- A line in the layout of the log, at a level name that the history knows.
parse_event-layout :
    (lib : Library) (time level rest : Text) (rank : ℕ)
    → time_re time ≡ true
    → (has_byte b' ' level ≡ false) × (has_byte b'\n' level ≡ false)
    → to_upper lib (trim_space level) ≡ level
    → level_rank level ≡ some rank
    → has_byte b'\n' rest ≡ false
    → parse_event lib (time ++ b' ' ∷ (level ++ b' ' ∷ rest))
      ≡ some (record { time = time; level = level; rest = trim_space rest; rank = rank })
unfolding parse_event of_tokens is_digit
parse_event-layout lib time level rest rank t (space, newline) upper known body = rw (
  trim_newlines_none _
      (has_no_newline time level rest (time_re-byte time b'\n' t refl refl) newline body),
  tokens time level rest (time_re-byte time b' ' t refl refl) space,
  t,
  upper,
  known,
)

-- The name and the rank of an enabled level.
abbrev pub level_name : ℤ → Text
level_name l =
    if ltb_ℤ l level_warn
    then codes "INFO"
    else if ltb_ℤ l level_error
    then codes "WARN"
    else codes "ERROR"

abbrev pub rank_of : ℤ → ℕ
rank_of l = if ltb_ℤ l level_warn then 0 else if ltb_ℤ l level_error then 1 else 2

module _ (lib : Library) (h : Handler) (r : Record) (shown : h.show_time ≡ true) where
  line-layout :
      (level gap : Text)
      → level_column r.level ≡ level ++ b' ' ∷ gap
      → line lib h r ≡ r.time ++ b' ' ∷ (level ++ b' ' ∷ (gap ++ body lib h r))
  unfolding line body
  line-layout level gap e =
      rw (shown, e)
        (append_assoc r.time (b' ' ∷ []) _
          ∙ ap (λ (s : Text). r.time ++ b' ' ∷ s) (append_assoc level (b' ' ∷ gap) (body lib h r)))

  parse_event-column :
      (level gap : Text) (rank : ℕ)
      → level_column r.level ≡ level ++ b' ' ∷ gap
      → time_re r.time ≡ true
      → (has_byte b' ' level ≡ false) × (has_byte b'\n' level ≡ false)
      → to_upper lib (trim_space level) ≡ level
      → level_rank level ≡ some rank
      → has_byte b'\n' (gap ++ body lib h r) ≡ false
      → trim_space (gap ++ body lib h r) ≡ trim_space (body lib h r)
      → parse_event lib (line lib h r)
        ≡ some
            (record { time = r.time; level = level; rest = trim_space (body lib h r); rank = rank })
  parse_event-column level gap rank e t bytes upper known clean trims =
      rw (line-layout level gap e, ← trims)
        (parse_event-layout lib r.time level (gap ++ body lib h r) rank t bytes upper known clean)

-- What the file sink writes for an enabled record whose text has no newline, the history parses
-- back: the same time, level and rank, and the message with its attributes, trimmed.
pub parse_event-line :
    (lib : Library) (h : Handler) (r : Record)
    → h.show_time ≡ true
    → time_re r.time ≡ true
    → enabled r.level ≡ true
    → has_byte b'\n' (body lib h r) ≡ false
    → parse_event lib (line lib h r)
      ≡ some (record {
        time = r.time;
        level = level_name r.level;
        rest = trim_space (body lib h r);
        rank = rank_of r.level;
      })
unfolding level_column enabled has_byte to_upper trim_space level_rank
parse_event-line lib h r shown t on clean = elim (Bool-cases (ltb_ℤ r.level level_warn)) [
  | inl info ↦ rw info (
      parse_event-column lib h r shown (codes "INFO") (codes " ") 0 (ground arith) t (refl, refl)
        refl refl clean (trim_space-blank (body lib h r)))
  | inr more ↦ elim (Bool-cases (ltb_ℤ r.level level_error)) [
    | inl warn ↦
        rw (more, warn)
          (parse_event-column lib h r shown (codes "WARN") (codes " ") 1 (ground arith) t
            (refl, refl) refl refl clean (trim_space-blank (body lib h r)))
    | inr error ↦
        rw (more, error)
          (parse_event-column lib h r shown (codes "ERROR") [] 2 (ground arith) t (refl, refl) refl
            refl clean refl)
  ]
]
