-- ===== src/Tests/Daemon.antt =====
-- The killer and the reload on concrete inputs.
use reptile.Prelude.{◌≡◌, refl, ◌↔◌, true, false, none, List, [], ◌∷◌, All, pos}
use mathlib.Core.List.{Memᴰ}
use reptile.Text.Defs.{Text, codes, eq, elem, contains_any}
use reptile.Text.Split.{join}
use reptile.Text.Number.{itoa}
use reptile.Config.Keys.Rows.{diff_keys, diff_rows, config_rows}
use reptile.Text.Space.{trim_space}
use reptile.Result.{ok, err}
use reptile.Library.{to_upper}
use reptile.Config.{Config, defaults, durations}
use reptile.Config.Validate.{
  validate, iface_re, has_control, check_target, check_targets, check_country, country_re,
  check_expected_ip, check_probe_url, check_pattern, check_zones, check_signs,
}
use reptile.Config.File.{Codec, Disk, load_config, end_of_file, not_exist, unreadable}
use reptile.Killer.{Process, System, sigkill, answered, kill_targets}
use reptile.Killer.Targets.{IsHit, kill_targets_kills}
use reptile.Killer.Failures.{IsSettled, kill_targets_succeeds_iff}
use reptile.Reload.{
  Daemon, ReloadResult, not_loaded, new_store, classify_reload, load_valid, reload, apply_loaded,
  apply_egress, apply_tunnel,
}
use reptile.Tunnel as Tunnel
use reptile.Egress as Egress
use reptile.Tests.{demo}

abbrev client : Process
client = record { pid = pos 7; comm = codes "aria2c" }

abbrev shell : Process
shell = record { pid = pos 8; comm = codes "sh" }

abbrev targets : List Text
targets = codes "aria2c" ∷ []

-- A client that outlives SIGTERM.
abbrev stubborn : System
stubborn = record {
  listed = ok (shell ∷ client ∷ []);
  relisted = ok (client ∷ []);
  signal = λ _ _. none;
  cancelled = false;
}

client-IsHit : IsHit targets (shell ∷ client ∷ []) client
unfolding elem eq
client-IsHit = (Memᴰ.tail (Memᴰ.head refl), refl)

kill_targets_kills_example :
    Memᴰ (answered stubborn sigkill client) (kill_targets stubborn targets).sent
    ↔ IsHit targets (client ∷ []) client
kill_targets_kills_example = kill_targets_kills stubborn targets refl client-IsHit refl refl client

kill_targets_succeeds_iff_example :
    ((kill_targets stubborn targets).failures ≡ [])
    ↔ All IsSettled (kill_targets stubborn targets).sent
kill_targets_succeeds_iff_example = kill_targets_succeeds_iff stubborn targets refl refl

-- The defaults, with a country and a target; a decoder that sets them.
abbrev home : Config
home = record defaults { expected_country = codes "DE"; targets = targets }

abbrev setting : Codec
setting = record {
  decode = λ _ c. ok (record {
    config = record c { expected_country = codes "de"; targets = codes "aria2c" ∷ [] };
    trailing = end_of_file;
  });
  encode = λ c. ok c.interface;
}

abbrev present : Disk
present = record { file = ok (codes "{}"); tmp = none; write_error = none; rename_error = none }

abbrev absent : Disk
absent = record present { file = err not_exist }

abbrev egress : Egress.Checker
egress = record {
  iface = codes "wg0";
  url = codes "https://1.1.1.1/cdn-cgi/trace";
  country_re = record { pattern = codes "C" };
  ip_re = record { pattern = codes "I" };
  timeout = pos 5_000_000_000;
  ttl = pos 300_000_000_000;
  expected_country = codes "FR";
  expected_ip = [];
  zones = [];
  last_country = codes "FR";
  last_ip = [];
  probed = true;
  client = none;
  verdict = true;
  reason = [];
  ts = 5;
  set = true;
}

abbrev running : Daemon
running = record {
  live = record home { expected_country = codes "FR"; interface = codes "wg1" };
  tunnel = record { iface = codes "wg1"; max_age = pos 180_000_000_000; ping_target = [] };
  egress = egress;
  store = new_store;
}

reload-absent :
    (reload demo setting (codes "reptile.json") absent running).result
    ≡ err (not_loaded (unreadable not_exist))
unfolding reload load_valid load_config apply_loaded
reload-absent = refl

abbrev only_country : ReloadResult
only_country = record {
  applied = codes "expected_country" ∷ [];
  daemon_restart_required = codes "interface" ∷ [];
  firewall_reload_required = codes "interface" ∷ [];
}

reload-present :
    (reload demo setting (codes "reptile.json") present running).result ≡ ok only_country
unfolding reload load_valid load_config apply_loaded apply_egress apply_tunnel Tunnel.apply
    Egress.apply validate durations defaults iface_re check_targets check_target check_country
    check_expected_ip check_probe_url check_pattern check_zones check_signs has_control country_re
    trim_space eq elem contains_any to_upper classify_reload diff_keys diff_rows config_rows join
    itoa
reload-present = refl
