-- ===== src/Cli/Events.antt =====
-- `runHistory` of internal/app/main.go.
pub mod Shown
use reptile.Prelude.{
  ℕ, Bool, not, ◌&&◌, ◌||◌, Option, none, some, List, [], ◌∷◌, ◌++◌, if◌then◌else◌, ℤ, pos, ltb_ℤ,
}
use reptile.Text.Defs.{Text, codes, eq, is_empty}
use reptile.Text.Number.{itoa, itoa_ℕ}
use reptile.Library.{Library}
use reptile.Result.{Result, ok, err}
use reptile.Config.{Config}
use reptile.History.{Entry, rank_info, rank_warn, rank_error, render_entries}
use reptile.History.Recent.{
  max_history_entries, Scan, HistoryError, count_range, read_history, read_recent_events,
}
use reptile.Console.{level_error}
use reptile.Daemon.{attr}
use reptile.Cli.{Exit, fails}

pub record HistoryFlags : Type 0 where
  pub n : ℤ
  pub level : Text
  pub no_color : Bool

-- The map of the names of levels.
unfoldable pub level_min : Text → Option ℕ
level_min l =
    if eq l (codes "info")
    then some rank_info
    else if eq l (codes "warn")
    then some rank_warn
    else if eq l (codes "error")
    then some rank_error
    else none

-- The terminal that is written to: whether it is one, and the error of writing.
pub record Out : Type 0 where
  pub is_tty : Bool
  pub error : Option Text

unfoldable pub history_text : HistoryError → Text
history_text count_range =
    codes "history count must be between 0 and " ++ itoa_ℕ max_history_entries
history_text (read_history e) = codes "read history: " ++ e

abbrev pub file_error : Text → Text → Text → Exit
file_error message file e = record {
  code = 1;
  printed = [];
  lines =
      record {
        level = level_error;
        message = message;
        attrs = attr (codes "file") file ∷ attr (codes "err") e ∷ [];
      }
      ∷ [];
}

unfoldable pub print_entries : Out → Bool → List Entry → Exit
print_entries out no_color es = elim out.error [
  | some e ↦ fails 1 (codes "render: " ++ e) []
  | none ↦ record { code = 0; printed = render_entries es (not no_color && out.is_tty); lines = [] }
]

unfoldable pub print_history : Config → Out → Bool → Result HistoryError (List Entry) → Exit
print_history c out no_color (err e) =
    file_error (codes "cannot parse log file") c.log_file (history_text e)
print_history c out no_color (ok es) = print_entries out no_color es

unfoldable pub read_log : Library → Config → Out → HistoryFlags → ℕ → Result Text Scan → Exit
read_log lib c out f min (err e) = file_error (codes "cannot read log file") c.log_file e
read_log lib c out f min (ok s) = print_history c out f.no_color (read_recent_events lib s min f.n)

unfoldable pub at_level : Library → Config → Out → HistoryFlags → Result Text Scan → Option ℕ → Exit
at_level lib c out f file none =
    fails 2 (codes "invalid -level " ++ (lib.quote f.level ++ codes " (want info|warn|error)")) []
at_level lib c out f file (some min) = read_log lib c out f min file

-- `runHistory`: `file` is what opening the log gives; no flags if `flag` refuses the arguments.
unfoldable pub run_history : Library → Config → Out → Result Text Scan → Option HistoryFlags → Exit
run_history lib c out file none = record { code = 2; printed = []; lines = [] }
run_history lib c out file (some f) =
    if is_empty c.log_file
    then fails 1 (codes "log file disabled (log_file is empty in config)") []
    else if ltb_ℤ f.n (pos 0) || ltb_ℤ (pos max_history_entries) f.n
    then fails 2
        (codes "invalid -n "
          ++ (itoa f.n ++ (codes " (want 0.." ++ (itoa_ℕ max_history_entries ++ codes ")"))))
        []
    else at_level lib c out f file (level_min f.level)
