-- ===== src/Tests/Confined.antt =====
-- What a daemon that has ticked shows and keeps, on concrete inputs.
use reptile.Prelude.{◌≡◌, refl, ◌↔◌, true, false, Option, none, some, [], if◌then◌else◌}
use reptile.Text.Defs.{Text, codes, eq}
use reptile.Result.{Result, ok, err}
use reptile.Config.{defaults, durations}
use reptile.Config.File.{not_exist}
use reptile.Watchdog.{is_safe, cycle}
use reptile.Watchdog.Loop.{advance, check}
use reptile.Egress.Dialer.{IsConfined, dialer_of}
use reptile.Egress.Probe.{evaluate, client_of}
use reptile.Tunnel as Tunnel
use reptile.Agent.{Status, Wire, with_status, snapshot, query, handle, on_command, on_probe}
use reptile.Agent.Protocol.{connected, served, Carries}
use reptile.Daemon.Requests.{Scene, prober, hooks}
use reptile.Daemon.Constant.{Reaches-IsConfined}
use reptile.Daemon.Streak.{Reaches-query}
use reptile.Cli.{run_status}
use reptile.Cli.Report.{run_status_zero_iff}
use reptile.Daemon.{logf, log, next, publish, tunnel}
use reptile.Daemon.Serving.{serve_all}
use reptile.Reload.{probe_now, set_probe, set}
use reptile.Tests.{demo}
use reptile.Tests.Machine.{shared}
use reptile.Tests.Lifetime.{
  eager, eager-valid, plain, noted, wire, cut, probing, first-started, first-runs, ticked, one_tick,
}

Reaches-IsConfined_example :
    (ticked.world.shared.live.interface ≡ codes "wg0")
    × (ticked.world.shared.live.socket_path ≡ eager.socket_path)
    × (ticked.world.shared.live.log_file ≡ eager.log_file)
    × (ticked.world.shared.tunnel.iface ≡ codes "wg0")
    × IsConfined (codes "wg0") (dialer_of (client_of ticked.world.shared.egress))
unfolding defaults
Reaches-IsConfined_example =
    Reaches-IsConfined demo plain wire cut probing eager eager-valid first-started first-runs
      one_tick

abbrev scene : Scene
scene = record {
  path = codes "reptile.json";
  disk = record { file = err not_exist; tmp = none; write_error = none; rename_error = none };
  host = cut.host 0;
  net = cut.net 0;
  now = 9;
  text = λ _. codes "not loaded";
}

status_carried :
    Carries wire
      (codes "status")
      (served demo wire (hooks demo plain wire scene) ticked.world.shared (codes "status")).response
unfolding on_command eq snapshot advance Tunnel.check logf log next serve_all handle on_probe prober
    probe_now durations defaults publish set_probe set cycle check tunnel
status_carried = record { request = refl; response = refl }

Reaches-query_example :
    (st : Status) × (query wire
        (connected demo wire (hooks demo plain wire scene) ticked.world.shared)
        (codes "status")
      ≡ ok st)
    × (st.streak ≡ ticked.state.streak)
    × ((served demo wire (hooks demo plain wire scene) ticked.world.shared (codes "status")).world
        ≡ ticked.world.shared)
Reaches-query_example =
    Reaches-query demo plain wire cut probing eager scene first-started first-runs one_tick
      status_carried

-- The two answers that a fresh daemon gives, by their state.
abbrev unknown : Status
unknown = record noted { state = codes "unknown"; streak = 0; reason = [] }

abbrev told : Text → Status
told t = if eq t (codes "unknown") then unknown else record noted { streak = 0 }

abbrev state_text : Option Status → Text
state_text none = []
state_text (some s) = s.state

abbrev states : Wire
states = record wire {
  encode_response = λ r. state_text r.status;
  decode_response = λ t. ok (with_status (told t));
}

abbrev asked : Text → Text → Result Text Text
asked _ bytes = connected demo states (hooks demo plain states scene) shared bytes

unknown_carried :
    Carries states
      (codes "status")
      (served demo states (hooks demo plain states scene) shared (codes "status")).response
unfolding on_command eq snapshot
unknown_carried = record { request = refl; response = refl }

probe_carried :
    Carries states
      (codes "probe")
      (served demo states (hooks demo plain states scene) shared (codes "probe")).response
unfolding on_command on_probe prober probe_now eq snapshot Tunnel.check set_probe set
probe_carried = record { request = refl; response = refl }

run_status_zero_iff_example :
    (((run_status states asked eager (some false)).code ≡ 0) ↔ (shared.store.state ≡ codes "up"))
    × (((run_status states asked eager (some true)).code ≡ 0) ↔ (
        is_safe
          (Tunnel.check scene.host shared.tunnel).passed
          shared.live.verify_egress
          (evaluate demo scene.net true shared.egress).result.passed
        ≡ true))
unfolding defaults
run_status_zero_iff_example =
    run_status_zero_iff demo plain states scene shared eager refl unknown_carried probe_carried
