-- ===== src/Tests/Requests.antt =====
-- The requests of clients and their connections on concrete inputs.
use reptile.Prelude.{
  ℕ, ◌+◌, ◌≤◌, ◌≡◌, refl, ◌⊎◌, none, some, [], ◌∷◌, length, ltb, arith, if◌then◌else◌,
}
use reptile.Text.Defs.{Text, codes, eq, elem, contains_any}
use reptile.Text.Space.{trim_space}
use reptile.Text.Split.{join}
use reptile.Text.Number.{itoa}
use reptile.Library.{to_upper}
use reptile.Result.{ok, err}
use reptile.Config.{Config, defaults, durations}
use reptile.Config.Validate.{
  validate, iface_re, has_control, check_target, check_targets, check_country, country_re,
  check_expected_ip, check_probe_url, check_pattern, check_zones, check_signs,
}
use reptile.Config.Keys.Rows.{diff_keys, diff_rows, config_rows}
use reptile.Config.File.{Codec, load_config, end_of_file}
use reptile.Tunnel as Tunnel
use reptile.Egress as Egress
use reptile.Reload.{
  ReloadResult, classify_reload, load_valid, reload, apply_loaded, apply_egress, apply_tunnel,
}
use reptile.Agent.{
  Status, Wire, failure, reloaded, on_command, on_reload, answer_reload, query_response, snapshot,
}
use reptile.Agent.Protocol.{connected, served, Carries}
use reptile.Agent.Slots.{
  Serving, idle, Reaches, at_start, by_step, admits, answers, max_agent_connections, handled,
}
use reptile.Agent.Slots.Bound.{at_work, endings, Reaches-IsBounded}
use reptile.Daemon.Requests.{Scene, with_text, reloader, hooks, IsConfirmed, client_reload}
use reptile.Cli.Dispatch.{override_interface, must_validate, with_config, loaded, dispatch, run}
use reptile.Cli.Dispatch.Guards.{acts_on, run_validates}
use reptile.Tests.{demo}
use reptile.Tests.Machine.{shared, cut}

-- A decoder that sets a country and a target.
abbrev setting : Codec
setting = record {
  decode = λ _ c. ok (record {
    config = record c { expected_country = codes "de"; targets = codes "aria2c" ∷ [] };
    trailing = end_of_file;
  });
  encode = λ c. ok c.interface;
}

abbrev scene : Scene
scene = record {
  path = codes "reptile.json";
  disk = record { file = ok (codes "{}"); tmp = none; write_error = none; rename_error = none };
  host = cut.host 0;
  net = cut.net 0;
  now = 9;
  text = λ _. codes "not loaded";
}

abbrev unknown : Status
unknown = record {
  state = codes "unknown";
  streak = 0;
  reason = [];
  exit_ip = [];
  country = [];
  updated_at = [];
}

abbrev changes : ReloadResult
changes = record {
  applied = codes "down_cycles_to_kill" ∷ [];
  daemon_restart_required = [];
  firewall_reload_required = [];
}

-- An encoding that is enough for the answers of this reload.
abbrev wire : Wire
wire = record {
  encode_request = λ cmd. cmd;
  decode_request = λ bytes. ok bytes;
  encode_response = λ r. if r.success then codes "{}" else r.error;
  decode_response = λ t. ok (if eq t (codes "{}") then reloaded unknown changes else failure t);
  rfc3339 = λ _. [];
}

carried :
    Carries wire
      (codes "reload")
      (served demo wire (hooks demo setting wire scene) shared (codes "reload")).response
unfolding with_text reloader snapshot on_command on_reload answer_reload reload load_valid
    load_config apply_loaded apply_egress apply_tunnel Tunnel.apply Egress.apply validate durations
    defaults iface_re check_targets check_target check_country check_expected_ip check_probe_url
    check_pattern check_zones check_signs has_control country_re trim_space eq elem contains_any
    to_upper classify_reload diff_keys diff_rows config_rows join itoa
carried = record { request = refl; response = refl }

client_reload_example :
    IsConfirmed demo setting wire scene shared
      (query_response wire
        (connected demo wire (hooks demo setting wire scene) shared)
        (codes "reload"))
      (served demo wire (hooks demo setting wire scene) shared (codes "reload")).world
    ⊎ ((e : Text) × (query_response wire
            (connected demo wire (hooks demo setting wire scene) shared)
            (codes "reload")
          ≡ err e)
        × ((served demo wire (hooks demo setting wire scene) shared (codes "reload")).world
            ≡ shared))
client_reload_example = client_reload demo setting wire scene shared carried

-- Two connections are admitted, and the first is answered.
abbrev two_admitted : Serving
two_admitted = record {
  accepted = 2;
  slots = 2;
  handlers = some 1 ∷ none ∷ [];
  ended = (0, handled) ∷ [];
}

two_admitted-reached : Reaches idle two_admitted
two_admitted-reached =
    by_step (by_step (by_step at_start (admits (omega arith) refl)) (admits (omega arith) refl))
      (answers (some 1 ∷ []) [] 0 refl refl)

Reaches-IsBounded_example :
    (length two_admitted.handlers ≤ max_agent_connections)
    × ((i : ℕ)
        → at_work i two_admitted.handlers + endings i two_admitted.ended
          ≡ (if ltb i two_admitted.accepted then 1 else 0))
Reaches-IsBounded_example = Reaches-IsBounded two_admitted-reached

-- The configuration of the file, with the interface of the flag.
abbrev flagged : Config
flagged = record defaults {
  interface = codes "wg9";
  expected_country = codes "DE";
  targets = codes "aria2c" ∷ [];
}

daemon-flagged :
    acts_on (run demo setting (codes "reptile.json") scene.disk (codes "wg9") (codes "daemon" ∷ []))
    ≡ some flagged
unfolding acts_on run dispatch loaded with_config must_validate override_interface load_config
    validate durations defaults iface_re check_targets check_target check_country check_expected_ip
    check_probe_url check_pattern check_zones check_signs has_control country_re trim_space eq elem
    contains_any to_upper
daemon-flagged = refl

run_validates_example :
    (c : Config) × (load_config demo setting (codes "reptile.json") scene.disk ≡ ok c)
    × (flagged ≡ override_interface (codes "wg9") c)
    × (validate demo flagged ≡ ok tt)
run_validates_example =
    run_validates demo setting (codes "reptile.json") scene.disk (codes "wg9") (codes "daemon" ∷ [])
      daemon-flagged
