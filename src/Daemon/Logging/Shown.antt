-- ===== src/Daemon/Logging/Shown.antt =====
-- What `reptile history` shows of the records that the daemon logs.
use reptile.Prelude.{
  ℕ, ◌≤◌, ◌≡◌, refl, subst, ap, ◌∙◌, inl, inr, Bool, true, false, not, ◌&&◌, Option, none, some,
  List, [], ◌∷◌, All, pos, arith, Bool-cases, Option-cases,
}
use reptile.Text.Defs.{Text, is_empty}
use reptile.Library.{Library}
use reptile.Result.{Result, ok}
use reptile.Config.{Config}
use reptile.Console.{Record, enabled, line}
use reptile.Console.Fanout.{any_enabled, call, handle_all}
use reptile.History.{filter_min, render_entries}
use reptile.History.Recent.{max_history_entries}
use reptile.History.Recent.Last.{last}
use reptile.Cli.Events.{HistoryFlags, level_min, Out, run_history}
use reptile.Cli.Events.Shown.{log_lines, logged, IsPlain, run_history-logged}
use reptile.Daemon.Logging.{
  Output, stderr, log_file, Sink, new_handler, stderr_is_tty, configure_logging, LogFile,
  open_log_file, sinks_ops, file_lines, record_lines, log_records,
}

-- The handlers once the log file is open.
abbrev two_sinks : Result Text Bool → List Sink
two_sinks stat =
    record { output = stderr; handler = new_handler (stderr_is_tty stat) }
    ∷ record { output = log_file; handler = new_handler true }
    ∷ []

open_log_file-two_sinks :
    (f : LogFile) (stat : Result Text Bool) {sinks : List Sink}
    → open_log_file f (configure_logging stat) ≡ ok sinks
    → two_sinks stat ≡ sinks
unfolding open_log_file configure_logging
open_log_file-two_sinks f stat h = ground (arith, h)

module _ (lib : Library) (writes : Output → Record → Option Text) where
  -- The records that standard error took.
  abbrev pub taken : List Record → List Record
  taken [] = []
  taken (r ∷ rs) = let rest = taken rs in elim (writes stderr r) [ none ↦ r ∷ rest | some e ↦ rest ]

  record_lines-taken :
      (stat : Result Text Bool) (r : Record)
      → writes log_file r ≡ none
      → enabled r.level ≡ true
      → writes stderr r ≡ none
      → record_lines lib writes (two_sinks stat) r ≡ line lib (new_handler true) r ∷ []
  unfolding record_lines sinks_ops any_enabled handle_all call file_lines
  record_lines-taken stat r w on s = rw (on, s, w) (rw w refl)

  record_lines-refused :
      (stat : Result Text Bool) (r : Record) {e : Text}
      → enabled r.level ≡ true
      → writes stderr r ≡ some e
      → record_lines lib writes (two_sinks stat) r ≡ []
  unfolding record_lines sinks_ops any_enabled handle_all call file_lines
  record_lines-refused stat r on s = rw (on, s) refl

  record_lines-off :
      (stat : Result Text Bool) (r : Record)
      → enabled r.level ≡ false
      → record_lines lib writes (two_sinks stat) r ≡ []
  unfolding record_lines sinks_ops any_enabled handle_all call file_lines
  record_lines-off stat r off = rw off refl

  taken-took :
      (r : Record) (rs : List Record) → writes stderr r ≡ none → taken (r ∷ rs) ≡ r ∷ taken rs
  taken-took r rs h = rw (h, taken) refl

  taken-lost :
      (r : Record) (rs : List Record) {e : Text}
      → writes stderr r ≡ some e
      → taken (r ∷ rs) ≡ taken rs
  taken-lost r rs h = rw (h, taken) refl

  record_lines-lost :
      (stat : Result Text Bool) (r : Record) {e : Text}
      → writes stderr r ≡ some e
      → record_lines lib writes (two_sinks stat) r ≡ []
  record_lines-lost stat r h = elim (Bool-cases (enabled r.level)) [
    | inl on ↦ record_lines-refused stat r on h
    | inr off ↦ record_lines-off stat r off
  ]

  -- Of the records that standard error takes, each one at the level of the handlers is a line of
  -- the log file; of the others, none.
  log_records-taken :
      (stat : Result Text Bool)
      → ((r : Record) → writes log_file r ≡ none)
      → (rs : List Record)
      → log_records lib writes (two_sinks stat) rs ≡ log_lines lib (new_handler true) (taken rs)
  unfolding log_records
  log_records-taken stat w [] = refl
  log_records-taken stat w (r ∷ rs) =
      let rest = log_records-taken stat w rs in
      elim (Option-cases (writes stderr r)) [
        | inr (e, bad) ↦ rw (record_lines-lost stat r bad, taken-lost r rs bad) rest
        | inl took ↦ elim (Bool-cases (enabled r.level)) [
          | inl on ↦
              rw (record_lines-taken stat r (w r) on took, taken-took r rs took, on)
                (ap (λ ls. line lib (new_handler true) r ∷ ls) rest)
          | inr off ↦ rw (record_lines-off stat r off, taken-took r rs took, off) rest
        ]
      ]

  taken-All : (P : Record → Type 0) (rs : List Record) → All P rs → All P (taken rs)
  taken-All P [] h = tt
  taken-All P (r ∷ rs) h =
      let rest = taken-All P rs h.1 in
      elim (Option-cases (writes stderr r)) [
        | inl took ↦ rw (taken-took r rs took) (h.0, rest)
        | inr (e, bad) ↦ rw (taken-lost r rs bad) rest
      ]

  -- Once `openLogFile` has succeeded and while the file takes each line: with a known level, a
  -- count up to the maximum and a terminal that takes the text, `reptile history` after records of
  -- one line each exits with 0 and prints the last of them at or above the level, those that
  -- standard error did not take left out.
  pub run_history-log_records :
      (c : Config) (out : Out) (f : HistoryFlags) (file : LogFile) (stat : Result Text Bool)
      {sinks : List Sink} (rs : List Record) (min n : ℕ)
      → open_log_file file (configure_logging stat) ≡ ok sinks
      → ((r : Record) → writes log_file r ≡ none)
      → is_empty c.log_file ≡ false
      → f.n ≡ pos n
      → n ≤ max_history_entries
      → level_min f.level ≡ some min
      → out.error ≡ none
      → All (IsPlain lib (new_handler true)) rs
      → run_history lib c out
          (ok (record { lines = log_records lib writes sinks rs; error = none }))
          (some f)
        ≡ record {
          code = 0;
          printed =
              render_entries
                (last n (filter_min (logged lib (new_handler true) (taken rs)) min))
                (not f.no_color && out.is_tty);
          lines = [];
        }
  run_history-log_records c out f file stat {sinks} rs min n opened w named count small known fine
        plain =
      let lines : log_records lib writes sinks rs ≡ log_lines lib (new_handler true) (taken rs) =
        subst (λ ss. log_records lib writes ss rs ≡ log_lines lib (new_handler true) (taken rs))
          (open_log_file-two_sinks file stat opened) (log_records-taken stat w rs) in
      ap (λ ls. run_history lib c out (ok (record { lines = ls; error = none })) (some f)) lines
      ∙ run_history-logged lib c out f (new_handler true) (taken rs) min n named count small known
          fine refl (taken-All (IsPlain lib (new_handler true)) rs plain)
