-- ===== src/Daemon.antt =====
-- `runDaemon` of internal/app/main.go: the functions that it gives to `runWatchdog`, over the state
-- that they share with the agent's requests.
pub mod Enforces
pub mod Requests
pub mod Serving
pub mod Survives
pub mod Lifetime
pub mod Constant
pub mod Logging
pub mod Launch
pub mod Streak
pub mod Switch
pub mod Verdicts
pub mod Whole
use reptile.Prelude.{
  ℕ, ◌+◌, Bool, true, false, not, Option, none, some, List, [], ◌∷◌, ◌++◌, map, if◌then◌else◌, ℤ,
  pos,
}
use mathlib.Core.List.{reverse}
use reptile.Text.Defs.{Text, codes, is_empty}
use reptile.Text.Number.{itoa}
use reptile.Library.{Library}
use reptile.Result.{Result, ok, err}
use reptile.Config.{Config, Durations, durations}
use reptile.Tunnel as Tunnel
use reptile.Egress as Egress
use reptile.Egress.Probe.{EgressResult, Evaluated, evaluate, proof}
use reptile.Killer.{
  Signal, sigterm, sigkill, SignalError, esrch, refused, System, Sent, Killed, kill_targets,
}
use reptile.Reload.{Store}
use reptile.Reload as Reload
use reptile.Console.{Attr, level_info, level_warn, level_error}
use reptile.Watchdog.Loop.{Callbacks, Checked}

-- A call of `slog`.
pub record Line : Type 0 where
  pub level : ℤ
  pub message : Text
  pub attrs : List Attr

-- A call of `killTargets`, with its grace period.
pub record Call : Type 0 where
  pub grace : ℤ
  pub killed : Killed

-- What the callbacks change: `step` counts their actions.
pub record World : Type 0 where
  pub step : ℕ
  pub shared : Reload.Daemon
  pub calls : List Call
  pub lines : List Line

-- What the actions meet, each at its number. `others` is what the requests to the agent do to the
-- shared state until the next action.
pub record Env : Type 0 where
  pub host : ℕ → Tunnel.Host
  pub net : ℕ → Egress.Net
  pub system : ℕ → System
  pub clock : ℕ → ℕ
  pub others : ℕ → Reload.Daemon → Reload.Daemon

unfoldable pub next : Env → World → World
next env w = record w { step = w.step + 1; shared = env.others w.step w.shared }

abbrev pub attr : Text → Text → Attr
attr k v = record { key = k; value = v }

unfoldable pub log : ℤ → Text → List Attr → World → World
log level message attrs w = record w {
  lines = record { level = level; message = message; attrs = attrs } ∷ w.lines;
}

unfoldable pub signal_name : Signal → Text
signal_name sigterm = codes "SIGTERM"
signal_name sigkill = codes "SIGKILL"

-- `killLog`
unfoldable pub kill_line : Sent → Line
unfolding signal_name
kill_line s =
    let who = attr (codes "comm") s.process.comm ∷ attr (codes "pid") (itoa s.process.pid) ∷ [] in
    elim s.answer [
      | none ↦ record {
        level = level_warn;
        message = codes "sent " ++ signal_name s.signal;
        attrs = who;
      }
      | some e ↦ elim e [
        | esrch ↦ record {
          level = level_info;
          message = codes "process exited before " ++ signal_name s.signal;
          attrs = who;
        }
        | refused why ↦ record {
          level = level_error;
          message = codes "failed " ++ signal_name s.signal;
          attrs = who ++ attr (codes "err") why ∷ [];
        }
      ]
    ]

unfoldable pub kill_lines : List Sent → List Line → List Line
kill_lines [] lines = lines
kill_lines (s ∷ ss) lines = kill_lines ss (kill_line s ∷ lines)

-- The grace period of the live settings, or of those at the start if they do not parse.
unfoldable pub grace : Library → Durations → Config → ℤ
grace lib initial c = elim (durations lib c) [ err _ ↦ initial.kill_grace | ok d ↦ d.kill_grace ]

unfoldable pub incomplete : Killed → World → World
unfolding log
incomplete k w =
    if is_empty k.failures then w else log level_error (codes "target enforcement incomplete") [] w

-- `killer`; the text of the joined errors is left out.
unfoldable pub killer : Library → Env → Durations → World → World
unfolding incomplete
killer lib env initial w =
    let c = w.shared.live in
    let k = kill_targets (env.system w.step) c.targets in
    next env (
      incomplete k (record w {
        calls = record { grace = grace lib initial c; killed = k } ∷ w.calls;
        lines = kill_lines k.sent w.lines;
      }))

-- `tunnel`
unfoldable pub tunnel : Env → World → Checked World
tunnel env w =
    let t = Tunnel.check (env.host w.step) w.shared.tunnel in
    let w' = next env w in
    if t.passed then record { passed = true; reason = t.reason; world = w' } else record {
      passed = false;
      reason = t.reason;
      world =
          next env (record w' {
            shared = record w'.shared { egress = Egress.invalidate w'.shared.egress };
          });
    }

abbrev pub warnings : List Text → List Line
warnings lines = map (λ t. record { level = level_warn; message = t; attrs = [] }) lines

unfoldable pub egress_lines : EgressResult → List Line → List Line
egress_lines r lines =
    if not r.probed
    then lines
    else if r.passed
    then record {
      level = level_info;
      message = codes "egress verified";
      attrs = attr (codes "country") r.country ∷ attr (codes "ip") r.ip ∷ [];
    }
      ∷ lines
    else record {
      level = level_warn;
      message = codes "egress check failed";
      attrs =
          attr (codes "reason") r.reason
          ∷ attr (codes "observed_country") r.country
          ∷ attr (codes "observed_ip") r.ip
          ∷ [];
    }
      ∷ lines

-- `egress`; the lines of `eg.Logf` come first.
unfoldable pub egress : Library → Env → World → Checked World
unfolding egress_lines
egress lib env w =
    let v = evaluate lib (env.net w.step) false w.shared.egress in
    record {
      passed = v.result.passed;
      reason = v.result.reason;
      world = next env (record w {
        shared = record w.shared { egress = v.checker };
        lines = egress_lines v.result (reverse (warnings v.logs) ++ w.lines);
      });
    }

-- `store.Set`
unfoldable pub publish : Env → Text → ℕ → Text → Text → Text → World → World
publish env state streak reason ip country w = next env (record w {
  shared = record w.shared {
    store = Reload.set state streak reason ip country (env.clock w.step) w.shared.store;
  };
})

-- `logf`
unfoldable pub logf : Env → Text → World → World
unfolding log
logf env message w = next env (log level_info message [] w)

-- What `runDaemon` gives to `runWatchdog`.
abbrev pub callbacks : Library → Env → Durations → Callbacks World
callbacks lib env initial = record {
  live = λ w. w.shared.live;
  tunnel = tunnel env;
  egress = egress lib env;
  proof =
      λ w. record { ip = (proof w.shared.egress).ip; country = (proof w.shared.egress).country };
  killer = killer lib env initial;
  publish = publish env;
  logf = logf env;
}
