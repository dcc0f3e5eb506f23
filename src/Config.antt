-- ===== src/Config.antt =====
-- internal/app/config.go: the configuration, its defaults and its durations.
pub mod Validate
pub mod Keys
pub mod File
pub mod Times
use reptile.Prelude.{Bool, true, List, [], ◌∷◌, ℤ, pos, Option, none, some}
use reptile.Text.Defs.{Text, codes}
use reptile.Library.{Library}
use reptile.Result.{Result, ok, err, wrap, ◌>>=◌}

pub record Config : Type 0 where
  pub interface : Text
  pub poll_interval : Text
  pub max_handshake_age : Text
  pub down_cycles_to_kill : ℤ
  pub kill_grace : Text
  pub heartbeat_interval : Text
  pub ping_target : Text
  pub verify_egress : Bool
  pub expected_country : Text
  pub expected_ip : Text
  pub probe_url : Text
  pub country_pattern : Text
  pub ip_pattern : Text
  pub probe_interval : Text
  pub probe_timeout : Text
  pub dnsbl_zones : List Text
  pub targets : List Text
  pub wg_conf : Text
  pub extra_accept : List Text
  pub socket_path : Text
  pub log_file : Text

-- `durations`, in nanoseconds
pub record Durations : Type 0 where
  pub poll : ℤ
  pub max_handshake_age : ℤ
  pub kill_grace : ℤ
  pub heartbeat : ℤ
  pub probe_interval : ℤ
  pub probe_timeout : ℤ

-- The errors of this package that name a key, with the text of the error that they wrap.
pub data KeyError : Type 0 where
  at_key : Text → Text → KeyError

unfoldable pub defaults : Config
defaults = record {
  interface = codes "wg0";
  poll_interval = codes "10s";
  max_handshake_age = codes "180s";
  down_cycles_to_kill = pos 2;
  kill_grace = codes "3s";
  heartbeat_interval = codes "10m";
  ping_target = [];
  verify_egress = true;
  expected_country = [];
  expected_ip = [];
  probe_url = codes "https://1.1.1.1/cdn-cgi/trace";
  country_pattern = codes "(?m)^loc=([A-Z]{2})";
  ip_pattern = codes "(?m)^ip=([0-9a-fA-F.:]+)";
  probe_interval = codes "300s";
  probe_timeout = codes "5s";
  dnsbl_zones =
      codes "zen.spamhaus.org" ∷ codes "b.barracudacentral.org" ∷ codes "bl.spamcop.net" ∷ [];
  targets = [];
  wg_conf = codes "/etc/wireguard/wg0.conf";
  extra_accept = [];
  socket_path = codes "/run/reptile/agent.sock";
  log_file = codes "/var/lib/reptile/events.log";
}

-- `Config.Durations`; on an error the callers do not read the durations parsed before it.
unfoldable pub durations : Library → Config → Result KeyError Durations
durations lib c = do
  poll ← wrap (at_key (codes "poll_interval")) (lib.parse_duration c.poll_interval)
  age ← wrap (at_key (codes "max_handshake_age")) (lib.parse_duration c.max_handshake_age)
  grace ← wrap (at_key (codes "kill_grace")) (lib.parse_duration c.kill_grace)
  interval ← wrap (at_key (codes "probe_interval")) (lib.parse_duration c.probe_interval)
  timeout ← wrap (at_key (codes "probe_timeout")) (lib.parse_duration c.probe_timeout)
  beat ← wrap (at_key (codes "heartbeat_interval")) (lib.parse_duration c.heartbeat_interval)
  ok (record {
    poll = poll;
    max_handshake_age = age;
    kill_grace = grace;
    heartbeat = beat;
    probe_interval = interval;
    probe_timeout = timeout;
  })
