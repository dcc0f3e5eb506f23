-- ===== src/Tests/Machine.antt =====
-- The shared state of a daemon, and two reloads at once, on concrete inputs.
use reptile.Prelude.{◌≡◌, refl, false, true, none, [], ◌∷◌, pos}
use reptile.Text.Defs.{codes, eq, elem, contains_any}
use reptile.Text.Space.{trim_space}
use reptile.Result.{ok, err}
use reptile.Config.{Config, defaults, durations}
use reptile.Config.Validate.{
  validate, iface_re, has_control, check_target, check_targets, check_country, country_re,
  check_expected_ip, check_probe_url, check_pattern, check_zones, check_signs,
}
use reptile.Killer.{Process, System}
use reptile.Egress as Egress
use reptile.Reload.{
  ReloadResult, Store, new_store, effective, classify_reload, load_valid, reload, apply_loaded,
  apply_egress, apply_tunnel,
}
use reptile.Reload as Reload
use reptile.Reload.Atomic.{IsEgressOf, IsTunnelOf}
use reptile.Reload.Race.{Runs, loaded, finished, reloads_may_cross}
use reptile.Daemon.{Env}
use reptile.Tests.{demo}

abbrev client : Process
client = record { pid = pos 7; comm = codes "aria2c" }

abbrev stubborn : System
stubborn = record {
  listed = ok (client ∷ []);
  relisted = ok (client ∷ []);
  signal = λ _ _. none;
  cancelled = false;
}

-- Valid settings that kill at once.
abbrev pub eager : Config
eager = record defaults {
  expected_country = codes "DE";
  targets = codes "aria2c" ∷ [];
  down_cycles_to_kill = pos 1;
}

abbrev egress : Egress.Checker
egress = record {
  iface = codes "wg0";
  url = codes "https://1.1.1.1/cdn-cgi/trace";
  country_re = record { pattern = codes "C" };
  ip_re = record { pattern = codes "I" };
  timeout = pos 5_000_000_000;
  ttl = pos 300_000_000_000;
  expected_country = codes "FR";
  expected_ip = [];
  zones = [];
  last_country = codes "FR";
  last_ip = [];
  probed = true;
  client = none;
  verdict = true;
  reason = [];
  ts = 5;
  set = true;
}

abbrev pub shared : Reload.Daemon
shared = record {
  live = eager;
  tunnel = record { iface = codes "wg0"; max_age = pos 180_000_000_000; ping_target = [] };
  egress = egress;
  store = new_store;
}

-- No handshake, no network, and a client that outlives its signals.
abbrev pub cut : Env
cut = record {
  host = λ _. record { wg_dump = λ _ _. err (codes "exit status 1"); now = 9 };
  net = λ _. record {
    fetch = λ _ _. Egress.request_failed (codes "timeout");
    lookup_host = λ q. err q;
    now = 9;
  };
  system = λ _. stubborn;
  clock = λ n. n;
  others = λ _ d. d;
}

abbrev abroad : Config
abroad = record eager { expected_country = codes "SE" }

eager-valid : validate demo eager ≡ ok tt
unfolding validate durations defaults iface_re check_targets check_target check_country
    check_expected_ip check_probe_url check_pattern check_zones check_signs has_control country_re
    trim_space eq elem contains_any
eager-valid = refl

abroad-valid : validate demo abroad ≡ ok tt
unfolding validate durations defaults iface_re check_targets check_target check_country
    check_expected_ip check_probe_url check_pattern check_zones check_signs has_control country_re
    trim_space eq elem contains_any
abroad-valid = refl

reloads_may_cross_example :
    (d : Reload.Daemon) × Runs demo
      (record { daemon = shared; first = loaded eager; second = loaded abroad })
      (record {
        daemon = d;
        first = finished (effective eager eager);
        second = finished (effective eager abroad);
      })
    × (d.live ≡ effective eager eager)
    × IsEgressOf demo (effective eager abroad) d.egress
    × IsTunnelOf demo (effective eager abroad) d.tunnel
unfolding Egress.apply defaults
reloads_may_cross_example =
    reloads_may_cross demo shared eager abroad eager-valid abroad-valid refl refl
