-- ===== src/Tests/Lifetime.antt =====
-- A daemon that starts, is probed by a client and ticks.
use reptile.Prelude.{ℕ, ◌≡◌, refl, ap, false, none, some, List, [], ◌∷◌, pos, if◌then◌else◌}
use reptile.Text.Defs.{codes, eq, elem, contains_any}
use reptile.Text.Space.{trim_space}
use reptile.Result.{ok, err}
use reptile.Config.{Config, Durations, defaults, durations}
use reptile.Config.Validate.{
  validate, iface_re, has_control, check_target, check_targets, check_country, country_re,
  check_expected_ip, check_probe_url, check_pattern, check_zones, check_signs,
}
use reptile.Config.File.{Codec, end_of_file, not_exist}
use reptile.Watchdog.{fresh}
use reptile.Watchdog.Loop.{
  Loop, running, started_line, start, on_tick, retune, advance, retune_heartbeat, beat_ticker,
  and_then,
}
use reptile.Watchdog.Loop.Refines.{found, Reaches, at_start, by_tick}
use reptile.Tunnel as Tunnel
use reptile.Egress as Egress
use reptile.Reload.Steady.{IsSteady}
use reptile.Agent.{Status, Wire, failure, with_status, handle, on_command, on_probe}
use reptile.Daemon.Requests.{prober}
use reptile.Reload.{probe_now}
use reptile.Cli.{checkers_of, build_checkers}
use reptile.Daemon.{World, Env, callbacks, logf, log, next}
use reptile.Daemon.Serving.{Request, with_requests, serve_all}
use reptile.Daemon.Lifetime.{Started, started, start_daemon, valid_daemon_starts, Reaches-IsSteady}
use reptile.Killer.{Process}
use reptile.Tests.{demo}

abbrev pub eager : Config
eager = record defaults {
  expected_country = codes "DE";
  targets = codes "aria2c" ∷ [];
  down_cycles_to_kill = pos 1;
}

pub eager-valid : validate demo eager ≡ ok tt
unfolding validate durations defaults iface_re check_targets check_target check_country
    check_expected_ip check_probe_url check_pattern check_zones check_signs has_control country_re
    trim_space eq elem contains_any
eager-valid = refl

abbrev client : Process
client = record { pid = pos 7; comm = codes "aria2c" }

abbrev pub second_each : Durations
second_each = record {
  poll = pos 1_000_000_000;
  max_handshake_age = pos 1_000_000_000;
  kill_grace = pos 1_000_000_000;
  heartbeat = pos 1_000_000_000;
  probe_interval = pos 1_000_000_000;
  probe_timeout = pos 1_000_000_000;
}

-- No handshake, no network, and a process that is a target.
abbrev pub cut : Env
cut = record {
  host = λ _. record { wg_dump = λ _ _. err (codes "exit status 1"); now = 9 };
  net = λ _. record {
    fetch = λ _ _. Egress.request_failed (codes "timeout");
    lookup_host = λ q. err q;
    now = 9;
  };
  system = λ _. record {
    listed = ok (client ∷ []);
    relisted = ok [];
    signal = λ _ _. none;
    cancelled = false;
  };
  clock = λ n. n;
  others = λ _ d. d;
}

abbrev pub plain : Codec
plain = record {
  decode = λ _ c. ok (record { config = c; trailing = end_of_file });
  encode = λ c. ok c.interface;
}

-- The status after the first tick.
abbrev pub noted : Status
noted = record {
  state = codes "down";
  streak = 1;
  reason = codes "wg show failed (interface missing or not a WireGuard device)";
  exit_ip = [];
  country = [];
  updated_at = [];
}

-- An encoding that is enough for that status.
abbrev pub wire : Wire
wire = record {
  encode_request = λ cmd. cmd;
  decode_request = λ bytes. ok bytes;
  encode_response = λ r. if r.success then codes "{}" else r.error;
  decode_response = λ t. ok (if eq t (codes "{}") then with_status noted else failure t);
  rfc3339 = λ _. [];
}

-- After each action a client asks for a probe.
abbrev pub probing : ℕ → List Request
probing _ =
    record {
      scene = record {
        path = codes "reptile.json";
        disk = record { file = err not_exist; tmp = none; write_error = none; rename_error = none };
        host = cut.host 0;
        net = cut.net 0;
        now = 9;
        text = λ _. codes "not loaded";
      };
      bytes = codes "probe";
    }
    ∷ []

abbrev pub env : Env
env = with_requests demo plain wire cut probing

abbrev pub first : Started
first = started eager second_each (
    checkers_of eager second_each (record { pattern = eager.country_pattern })
      (record { pattern = eager.ip_pattern }))

pub first-started : start_daemon demo eager ≡ ok first
unfolding start_daemon build_checkers durations defaults
first-started = refl

valid_daemon_starts_example :
    (s : Started) × (l : Loop World) × (start_daemon demo eager ≡ ok s)
    × (start demo (callbacks demo env s.initial) s.world ≡ running l)
    × (l.state ≡ fresh)
valid_daemon_starts_example = valid_daemon_starts demo plain wire cut probing eager eager-valid

abbrev pub begun : Loop World
begun = record {
  poll_dur = pos 1_000_000_000;
  ticker = pos 1_000_000_000;
  heartbeat_dur = pos 1_000_000_000;
  heartbeat = some (pos 1_000_000_000);
  state = fresh;
  world = logf env (started_line eager) first.world;
}

pub first-runs : start demo (callbacks demo env second_each) first.world ≡ running begun
unfolding start durations defaults
first-runs = refl

abbrev pub ticked : Loop World
ticked = advance demo (callbacks demo env second_each) begun.world.shared.live begun

begun-retuned :
    retune demo (callbacks demo env second_each) begun.world.shared.live begun ≡ running begun
unfolding retune retune_heartbeat durations defaults logf log next serve_all handle on_command
    on_probe prober probe_now eq Tunnel.check
begun-retuned = refl

begun-ticked : on_tick demo (callbacks demo env second_each) begun ≡ running ticked
unfolding on_tick
begun-ticked =
    ap
      (λ o.
        and_then demo (callbacks demo env second_each) o
          (advance demo (callbacks demo env second_each) begun.world.shared.live))
      begun-retuned

pub one_tick :
    Reaches demo
      (callbacks demo env second_each)
      begun
      (found demo (callbacks demo env second_each) begun.world.shared.live begun.world ∷ [])
      ticked
one_tick = by_tick begun at_start begun-retuned begun-ticked refl

Reaches-IsSteady_example :
    IsSteady demo ticked.world.shared
    × (d : Durations) × (n : Loop World) × (durations demo ticked.world.shared.live ≡ ok d)
    × (on_tick demo (callbacks demo env second_each) ticked ≡ running n)
    × (n.ticker ≡ d.poll)
    × (n.heartbeat ≡ beat_ticker d.heartbeat)
Reaches-IsSteady_example =
    Reaches-IsSteady demo plain wire cut probing eager eager-valid first-started first-runs one_tick
