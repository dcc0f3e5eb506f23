-- ===== src/Egress.antt =====
-- internal/app/egress.go: the checker that proves where the tunnel exits.
-- The network, the resolver and the clock are the argument `Net`; the injected `Client` of tests is
-- not modelled. `e.mu` is held through each operation, so an operation is one step.
pub mod Dnsbl
pub mod Probe
pub mod Sound
pub mod Cache
pub mod Wiring
pub mod Dialer
pub mod Binding
use reptile.Prelude.{
  ℕ, ◌-◌, Bool, true, false, not, ◌&&◌, Option, none, some, List, [], ◌∷◌, if◌then◌else◌, ℤ, sub_ℕ,
  ltb_ℤ,
}
use reptile.Text.Defs.{Text, codes}
use reptile.Text.Space.{trim_space}
use reptile.Library.{Library, Regexp, to_upper}
use reptile.Result.{Result, ok, err, wrap, check, ◌>>=◌, ◌>>◌}
use reptile.Config.{Config, KeyError, at_key}

-- The persistent client: bound to an interface, with a timeout.
pub record Client : Type 0 where
  pub iface : Text
  pub timeout : ℤ

-- `EgressChecker`, the fields that its methods change or read.
pub record Checker : Type 0 where
  pub iface : Text
  pub url : Text
  pub country_re : Regexp
  pub ip_re : Regexp
  pub timeout : ℤ
  pub ttl : ℤ
  pub expected_country : Text
  pub expected_ip : Text
  pub zones : List Text
  pub last_country : Text
  pub last_ip : Text
  pub probed : Bool
  pub client : Option Client
  pub verdict : Bool
  pub reason : Text
  pub ts : ℕ
  pub set : Bool

-- The bytes that a response delivers before its end, or before an error.
pub record Body : Type 0 where
  pub bytes : Text
  pub error : Option Text

pub data Fetch : Type 0 where
  build_failed : Text → Fetch
  request_failed : Text → Fetch
  response : ℕ → Body → Fetch

-- What the checker meets during one call; the clock is in nanoseconds.
pub record Net : Type 0 where
  pub fetch : Client → Text → Fetch
  pub lookup_host : Text → Result Text (List Text)
  pub now : ℕ

-- `invalidateLocked`
unfoldable pub invalidate : Checker → Checker
invalidate e = record e {
  last_country = [];
  last_ip = [];
  probed = false;
  verdict = false;
  reason = [];
  ts = 0;
  set = false;
}

-- `Apply`: the checks come before any assignment.
unfoldable pub apply : Library → Config → Checker → Result KeyError Checker
unfolding invalidate
apply lib c e = do
  country_re ← wrap (at_key (codes "country_pattern")) (lib.compile c.country_pattern)
  ip_re ← wrap (at_key (codes "ip_pattern")) (lib.compile c.ip_pattern)
  check (at_key (codes "probe_url")) (lib.parse_url c.probe_url)
  timeout ← wrap (at_key (codes "probe_timeout")) (lib.parse_duration c.probe_timeout)
  ttl ← wrap (at_key (codes "probe_interval")) (lib.parse_duration c.probe_interval)
  ok (
      invalidate (record e {
        iface = c.interface;
        url = c.probe_url;
        country_re = country_re;
        ip_re = ip_re;
        timeout = timeout;
        ttl = ttl;
        expected_country = to_upper lib (trim_space c.expected_country);
        expected_ip = c.expected_ip;
        zones = c.dnsbl_zones;
        client = none;
      }))

-- What a call leaves and returns; `logs` are the lines given to `Logf`.
pub record Outcome : Type 0 where
  pub checker : Checker
  pub passed : Bool
  pub reason : Text
  pub logs : List Text
