-- ===== src/Cli/Events/Shown.antt =====
-- What `reptile history` shows of a log that the daemon's handler wrote.
use reptile.Prelude.{
  ℕ, ◌≤◌, ◌≡◌, refl, sym, subst, ap, ◌∙◌, inl, inr, Bool, true, false, not, ◌&&◌, ◌||◌, none, some,
  List, [], ◌∷◌, All, ℤ, pos, ltb_ℤ, arith, Bool-cases, if◌then◌else◌,
}
use reptile.Text.Defs.{Text, has_byte, is_empty}
use reptile.Text.Space.{trim_space}
use reptile.Library.{Library}
use reptile.Result.{ok}
use reptile.Config.{Config}
use reptile.History.{Entry, time_re, parse_event, parse_events, filter_min, render_entries}
use reptile.History.Recent.{max_history_entries, Scan, read_recent_events}
use reptile.History.Recent.Last.{last, read_recent_events-last}
use reptile.Console.{Handler, Record, line, body, enabled}
use reptile.Console.RoundTrip.{level_name, rank_of, parse_event-line}
use reptile.Cli.Events.{
  HistoryFlags, level_min, Out, print_entries, print_history, read_log, at_level, run_history,
}

-- The lines that the handler writes for the records, without their newlines.
abbrev pub log_lines : Library → Handler → List Record → List Text
log_lines lib h [] = []
log_lines lib h (r ∷ rs) =
    let rest = log_lines lib h rs in if enabled r.level then line lib h r ∷ rest else rest

-- The event that a record is.
abbrev pub entry_of : Library → Handler → Record → Entry
entry_of lib h r = record {
  time = r.time;
  level = level_name r.level;
  rest = trim_space (body lib h r);
  rank = rank_of r.level;
}

abbrev pub logged : Library → Handler → List Record → List Entry
logged lib h [] = []
logged lib h (r ∷ rs) =
    let rest = logged lib h rs in if enabled r.level then entry_of lib h r ∷ rest else rest

-- A record on one line, with a time of the log's form.
pub record IsPlain (lib : Library) (h : Handler) (r : Record) : Type 0 where
  pub timed : time_re r.time ≡ true
  pub one_line : has_byte b'\n' (body lib h r) ≡ false

parse_events-some :
    (lib : Library) (l : Text) (ls : List Text) {e : Entry}
    → parse_event lib l ≡ some e
    → parse_events lib (l ∷ ls) ≡ e ∷ parse_events lib ls
unfolding parse_events
parse_events-some lib l ls h = rw (h, parse_events) refl

parse_events-log_lines :
    (lib : Library) (h : Handler) (rs : List Record)
    → h.show_time ≡ true
    → All (IsPlain lib h) rs
    → parse_events lib (log_lines lib h rs) ≡ logged lib h rs
unfolding parse_events
parse_events-log_lines lib h [] shown plain = refl
parse_events-log_lines lib h (r ∷ rs) shown (p, plain) = elim (Bool-cases (enabled r.level)) [
  | inl on ↦ rw on (
      parse_events-some lib _ _ (parse_event-line lib h r shown p.timed on p.one_line)
      ∙ ap (λ es. entry_of lib h r ∷ es) (parse_events-log_lines lib h rs shown plain))
  | inr off ↦ rw off (parse_events-log_lines lib h rs shown plain)
]

in_range :
    (n : ℕ)
    → n ≤ max_history_entries
    → (ltb_ℤ (pos n) (pos 0) || ltb_ℤ (pos max_history_entries) (pos n)) ≡ false
in_range n h = ground (arith, h)

print_entries-none :
    (out : Out) (no_color : Bool) (es : List Entry)
    → out.error ≡ none
    → print_entries out no_color es
      ≡ record { code = 0; printed = render_entries es (not no_color && out.is_tty); lines = [] }
unfolding print_entries
print_entries-none out no_color es h = rw h refl

-- With a known level, a count up to the maximum and a terminal that takes the text, `reptile
-- history` of a log that the handler wrote for records of one line each exits with 0 and prints
-- the last records at or above the level, and fewer than the count only if there are fewer.
pub run_history-logged :
    (lib : Library) (c : Config) (out : Out) (f : HistoryFlags) (h : Handler) (rs : List Record)
    (min n : ℕ)
    → is_empty c.log_file ≡ false
    → f.n ≡ pos n
    → n ≤ max_history_entries
    → level_min f.level ≡ some min
    → out.error ≡ none
    → h.show_time ≡ true
    → All (IsPlain lib h) rs
    → run_history lib c out (ok (record { lines = log_lines lib h rs; error = none })) (some f)
      ≡ record {
        code = 0;
        printed =
            render_entries
              (last n (filter_min (logged lib h rs) min))
              (not f.no_color && out.is_tty);
        lines = [];
      }
unfolding run_history at_level read_log print_history print_entries
run_history-logged lib c out f h rs min n file count small known fine shown plain =
    let scan : Scan = record { lines = log_lines lib h rs; error = none } in
    let parsed = parse_events-log_lines lib h rs shown plain in
    let read = read_recent_events-last lib (log_lines lib h rs) min n small in
    let range : (ltb_ℤ f.n (pos 0) || ltb_ℤ (pos max_history_entries) f.n) ≡ false =
      subst (λ (z : ℤ). (ltb_ℤ z (pos 0) || ltb_ℤ (pos max_history_entries) z) ≡ false) (sym count)
        (in_range n small) in
    let at_count : read_recent_events lib scan min f.n
        ≡ ok (last n (filter_min (logged lib h rs) min)) =
      ap (read_recent_events lib scan min) count
      ∙ read
      ∙ ap (λ es. ok (last n (filter_min es min))) parsed in
    rw (file, range, known, at_level, at_count, print_history)
      (print_entries-none out f.no_color _ fine)
