-- ===== src/Daemon/Logging.antt =====
-- The loggers of internal/app/main.go: configureLogging, stderrIsTTY, openLogFile; and what their
-- handlers write to the log file.
-- The answers of the system are arguments: `Stat` of standard error, the directory and the file of
-- the log, and each write.
pub mod Shown
use reptile.Prelude.{
  ◌≡◌, Bool, true, false, not, Option, none, some, List, [], ◌∷◌, ◌++◌, ℤ, if◌then◌else◌,
}
use reptile.Text.Defs.{Text}
use reptile.Library.{Library}
use reptile.Result.{Result, ok, err, ◌>>=◌, guard}
use reptile.Console.{Handler, Record, enabled, line, with_attrs, with_group}
use reptile.Console.Fanout.{Sinks, any_enabled, handle_all}

pub data Output : Type 0 where
  stderr log_file : Output

-- A handler with its writer.
pub record Sink : Type 0 where
  pub output : Output
  pub handler : Handler

-- `NewConsoleHandler`
abbrev pub new_handler : Bool → Handler
new_handler show_time = record { show_time = show_time; attrs = [] }

-- `stderrIsTTY`, of the error of `Stat` or whether it is a character device
unfoldable pub stderr_is_tty : Result Text Bool → Bool
stderr_is_tty (err e) = false
stderr_is_tty (ok device) = device

-- `configureLogging`
unfoldable pub configure_logging : Result Text Bool → List Sink
configure_logging stat = record { output = stderr; handler = new_handler (stderr_is_tty stat) } ∷ []

-- The message of `fatal` and the error it wraps.
pub data LogError : Type 0 where
  log_dir : Text → LogError
  log_open : Text → LogError

-- The errors of `MkdirAll` and `OpenFile`.
pub record LogFile : Type 0 where
  pub make_dir : Option Text
  pub open_file : Option Text

-- `openLogFile`, over the handlers of before
unfoldable pub open_log_file : LogFile → List Sink → Result LogError (List Sink)
open_log_file f sinks = elim f.make_dir [
  | some e ↦ err (log_dir e)
  | none ↦ elim f.open_file [
    | some e ↦ err (log_open e)
    | none ↦ ok (sinks ++ record { output = log_file; handler = new_handler true } ∷ [])
  ]
]

module _ (lib : Library) (writes : Output → Record → Option Text) where
  -- The handlers of `NewFanoutHandler`, with the error of each write.
  unfoldable pub sinks_ops : Sinks Sink
  sinks_ops = record {
    enabled = λ s level. enabled level;
    handle = λ s r. if not (enabled r.level) then none else writes s.output r;
    with_attrs = λ s more. record s { handler = with_attrs s.handler more };
    with_group = λ s name. record s { handler = with_group s.handler name };
  }

  -- The lines that the handlers of a list write to the log file, if their writes succeed.
  unfoldable pub file_lines : List Sink → Record → List Text
  file_lines [] r = []
  file_lines (s ∷ ss) r =
      let rest = file_lines ss r in
      elim s.output [
        | stderr ↦ rest
        | log_file ↦ elim (writes log_file r) [ none ↦ line lib s.handler r ∷ rest | some e ↦ rest ]
      ]

  -- A logger asks `Enabled`, then calls `Handle`.
  unfoldable pub record_lines : List Sink → Record → List Text
  record_lines sinks r =
      if any_enabled sinks_ops sinks r.level
      then file_lines (handle_all sinks_ops sinks r).called r
      else []

  -- The log file after the records, line by line.
  unfoldable pub log_records : List Sink → List Record → List Text
  log_records sinks [] = []
  log_records sinks (r ∷ rs) = record_lines sinks r ++ log_records sinks rs
