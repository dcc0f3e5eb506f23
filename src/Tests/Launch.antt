-- ===== src/Tests/Launch.antt =====
-- The start of the daemon with its log file and its socket, and what `history` shows of its log.
use reptile.Prelude.{
  ◌↔◌, Option, ◌⊎◌, ltb_ℤ, ◌+◌, ℕ, if◌then◌else◌, negsuc, false, ◌≡◌, refl, true, none, some, List,
  [], ◌∷◌, All, pos, arith,
}
use reptile.Text.Defs.{Text, codes, eq, contains_any, has_byte}
use reptile.Text.Number.{is_digit}
use reptile.Result.{ok}
use reptile.History.Recent.Last.{last}
use reptile.Console.{Handler, Record, body, attrs_text}
use reptile.History.{filter_min, render_entries, time_re}
use reptile.Cli.Events.{HistoryFlags, Out, level_min, run_history}
use reptile.Cli.Events.Shown.{IsPlain, logged}
use reptile.Agent.Listening.{
  Socket, listen, after_dir, after_remove, after_bind, after_chmod, remove_error,
}
use reptile.Daemon.Logging.{
  Output, stderr, log_file, Sink, new_handler, LogFile, configure_logging, open_log_file,
  log_records, stderr_is_tty,
}
use reptile.Daemon.Logging.Shown.{taken, run_history-log_records}
use reptile.Daemon.Launch.{
  launch, log_ready, socket_ready, IsLaunched, IsUnlogged, IsUnserved, launch-cases,
}
use reptile.Tests.{demo}
use mathlib.Core.List.{Memᴰ}
use reptile.Text.Number.{parse_int, parse_digits}
use reptile.Text.Space.{trim_space}
use reptile.Config.{Config, durations, defaults}
use reptile.Cli.{build_checkers}
use reptile.Watchdog.Loop.{Loop, running, on_tick, retune}
use reptile.Watchdog.Loop.Refines.{found}
use reptile.Killer.{Process}
use reptile.Killer.Listing.{Entry, IsListed, process_of, processes_of, list_processes}
use reptile.Daemon.{World, callbacks}
use reptile.Daemon.Enforces.{checked, IsEnforced}
use reptile.Daemon.Verdicts.{IsObserved}
use reptile.Daemon.Whole.{launched_enforces}
use reptile.Tests.Lifetime.{
  eager, eager-valid, plain, wire, cut, probing, env, first, first-runs, second_each, begun, ticked,
  one_tick,
}

abbrev sink : Handler
sink = new_handler true

abbrev killed : Record
killed = record {
  time = codes "12:34:56";
  level = pos 4;
  message = codes "SIGTERM";
  attrs = record { key = codes "pid"; value = codes "42" } ∷ [];
}

-- A debug record, which the handlers drop, and a kill.
abbrev records : List Record
records = record killed { level = negsuc 3 } ∷ killed ∷ []

records-IsPlain : All (IsPlain demo sink) records
unfolding time_re body has_byte is_digit attrs_text contains_any
records-IsPlain =
    (record { timed = refl; one_line = refl }, (record { timed = refl; one_line = refl }, tt))

abbrev warnings : HistoryFlags
warnings = record { n = pos 5; level = codes "warn"; no_color = false }

abbrev pipe : Out
pipe = record { is_tty = false; error = none }

-- A log file that can be made and opened.
abbrev fresh_log : LogFile
fresh_log = record { make_dir = none; open_file = none }

-- Standard error takes nothing above a warning; the log file takes all.
abbrev writes : Output → Record → Option Text
writes stderr r = if ltb_ℤ (pos 4) r.level then some (codes "broken pipe") else none
writes log_file r = none

abbrev both : List Sink
both =
    record { output = stderr; handler = new_handler false }
    ∷ record { output = log_file; handler = new_handler true }
    ∷ []

both-open : open_log_file fresh_log (configure_logging (ok false)) ≡ ok both
unfolding open_log_file configure_logging stderr_is_tty
both-open = refl

run_history-log_records_example :
    run_history demo
      (record eager { log_file = codes "reptile.log" })
      pipe
      (ok (record { lines = log_records demo writes both records; error = none }))
      (some warnings)
    ≡ record {
      code = 0;
      printed =
          render_entries
            (last 5 (filter_min (logged demo (new_handler true) (taken demo writes records)) 1))
            false;
      lines = [];
    }
unfolding level_min eq
run_history-log_records_example =
    run_history-log_records demo writes (record eager { log_file = codes "reptile.log" }) pipe
      warnings fresh_log (ok false) records 1 5 both-open (λ _. refl) refl refl (omega arith) refl
      refl records-IsPlain

-- A directory that cannot be made.
abbrev shut : LogFile
shut = record { make_dir = some (codes "read-only file system"); open_file = none }

-- A kernel that counts its calls and refuses none.
abbrev counting : Socket ℕ
counting = record {
  make_dir = λ k. (none, k + 1);
  remove = λ k. (none, k + 1);
  bind = λ k. (none, k + 1);
  chmod = λ k. (none, k + 1);
  close = λ k. (none, k + 1);
}

launch-cases_example :
    IsLaunched counting demo shut (ok false) eager 0
    ⊎ IsUnlogged counting demo shut (ok false) eager 0
    ⊎ IsUnserved counting demo shut (ok false) eager 0
launch-cases_example = launch-cases counting demo shut (ok false) eager 0 eager-valid

launched-first :
    launch counting demo fresh_log (ok false) eager 0
    ≡ ok (record { started = first; sinks = both; server = some 4 })
unfolding launch log_ready socket_ready listen after_dir after_remove after_bind after_chmod
    remove_error open_log_file configure_logging stderr_is_tty durations build_checkers defaults
launched-first = refl

-- What /proc shows of the client.
abbrev entries : ℕ → List Entry
entries _ = record { name = codes "7"; comm = ok (codes "aria2c\n") } ∷ []

shows-client : (n : ℕ) → (cut.system n).listed ≡ list_processes (ok (entries n))
unfolding list_processes processes_of process_of parse_int parse_digits is_digit trim_space
shows-client n = refl

launched_enforces_example :
    (t : Loop World) × (m : Loop World) × (es : List Entry) × (retune demo
        (callbacks demo env second_each)
        ticked.world.shared.live
        ticked
      ≡ running t)
    × (on_tick demo (callbacks demo env second_each) ticked ≡ running m)
    × (es ≡ entries (checked demo env second_each ticked.world.shared.live t).step)
    × IsEnforced demo env second_each
        (found demo (callbacks demo env second_each) begun.world.shared.live begun.world ∷ [])
        ticked
        t
        m
        (processes_of es)
    × ((p : Process) → Memᴰ p (processes_of es) ↔ IsListed es p)
    × ((c : Config) (w : World)
        → IsObserved demo env second_each c w (found demo (callbacks demo env second_each) c w))
launched_enforces_example =
    launched_enforces demo plain wire cut probing counting fresh_log (ok false) eager 0 entries
      eager-valid launched-first first-runs one_tick shows-client
