-- ===== src/Egress/Probe.antt =====
-- `probe`, `evaluate`, `Check` and `CheckFresh` of internal/app/egress.go.
use reptile.Prelude.{
  ℕ, ◌^◌, Bool, true, false, not, ◌&&◌, Option, none, some, List, [], ◌∷◌, ◌++◌, length, take, leb,
  ◌==◌, if◌then◌else◌, sub_ℕ, ltb_ℤ,
}
use reptile.Text.Defs.{Text, codes, eq, is_empty}
use reptile.Text.Space.{trim_space}
use reptile.Text.Number.{itoa_ℕ}
use reptile.Library.{Library, Regexp, to_upper}
use reptile.Result.{Result, ok, err}
use reptile.Egress.{
  Client, Checker, Body, Fetch, build_failed, request_failed, response, Net, Outcome,
}
use reptile.Egress.Dnsbl.{Listing, blacklisted}

-- `client()`: made once, for the interface and timeout of that time.
unfoldable pub with_client : Checker → Checker
with_client e = elim e.client [
  | some _ ↦ e
  | none ↦ record e { client = some (record { iface = e.iface; timeout = e.timeout }) }
]

abbrev pub client_of : Checker → Client
client_of e = elim e.client [ some c ↦ c | none ↦ record { iface = e.iface; timeout = e.timeout } ]

abbrev pub body_limit : ℕ
body_limit = 2 ^ 16

-- `io.ReadAll(io.LimitReader(resp.Body, 1<<16))`
unfoldable pub read_limited : ℕ → Body → Result Text Text
read_limited limit b =
    if leb limit (length b.bytes)
    then ok (take limit b.bytes)
    else elim b.error [ none ↦ ok b.bytes | some e ↦ err e ]

-- The first group of a match, if there is one.
unfoldable pub group : List Text → Option Text
group (_ ∷ g ∷ _) = some g
group _ = none

unfoldable pub country_in : Library → Regexp → Text → Text
unfolding group
country_in lib re text = elim (group (lib.find_submatch re text)) [
  | none ↦ []
  | some g ↦ to_upper lib (trim_space g)
]

unfoldable pub ip_in : Library → Regexp → Text → Text
unfolding group
ip_in lib re text = elim (group (lib.find_submatch re text)) [ none ↦ [] | some g ↦ trim_space g ]

abbrev pub refuse : Checker → Text → Outcome
refuse e reason = record { checker = e; passed = false; reason = reason; logs = [] }

unfoldable pub listing_outcome : Checker → Text → Listing → Outcome
listing_outcome e ip l = elim l.zone [
  | none ↦ record { checker = e; passed = true; reason = []; logs = l.logs }
  | some z ↦ record {
    checker = e;
    passed = false;
    reason = codes "egress IP " ++ (ip ++ (codes " listed in " ++ z));
    logs = l.logs;
  }
]

-- The checks on the observed country and address, after they are recorded.
unfoldable pub judge : Library → Net → Text → Text → Checker → Outcome
unfolding listing_outcome
judge lib net cc ip e =
    if is_empty cc
    then refuse e (codes "no country parsed from probe response")
    else if not (eq cc e.expected_country)
    then refuse e (codes "egress country " ++ (cc ++ (codes " != expected " ++ e.expected_country)))
    else if not (is_empty e.expected_ip) && not (eq ip e.expected_ip)
    then refuse e (codes "egress IP " ++ (ip ++ (codes " != expected " ++ e.expected_ip)))
    else if is_empty e.zones
    then record { checker = e; passed = true; reason = []; logs = [] }
    else if is_empty ip
    then refuse e (codes "no exit IP parsed but dnsbl_zones configured")
    else listing_outcome e ip (blacklisted lib net.lookup_host e.zones ip)

unfoldable pub read_body : Library → Net → Checker → Result Text Text → Outcome
read_body lib net e (err msg) = refuse e (codes "probe read failed: " ++ msg)
read_body lib net e (ok text) =
    let cc = country_in lib e.country_re text in
    let ip = ip_in lib e.ip_re text in
    judge lib net cc ip (record e { last_country = cc; last_ip = ip })

-- The request was built, so `client()` has been called.
unfoldable pub receive : Library → Net → Checker → Fetch → Outcome
receive lib net e (build_failed msg) = refuse e (codes "probe request build failed: " ++ msg)
receive lib net e (request_failed msg) =
    refuse (with_client e) (codes "probe request failed: " ++ msg)
receive lib net e (response status body) =
    if not (status == 200)
    then refuse (with_client e) (codes "probe returned HTTP " ++ itoa_ℕ status)
    else read_body lib net (with_client e) (read_limited body_limit body)

unfoldable pub probe : Library → Net → Checker → Outcome
probe lib net e = receive lib net e (net.fetch (client_of e) e.url)

-- `egressResult`
pub record EgressResult : Type 0 where
  pub passed : Bool
  pub reason : Text
  pub ip : Text
  pub country : Text
  pub probed : Bool

pub record Evaluated : Type 0 where
  pub checker : Checker
  pub result : EgressResult
  pub logs : List Text

-- The cached verdict is used: `!fresh && e.set && now.Sub(e.ts) < e.TTL`
unfoldable pub use_cache : Net → Bool → Checker → Bool
use_cache net fresh e = not fresh && (e.set && ltb_ℤ (sub_ℕ net.now e.ts) e.ttl)

unfoldable pub from_cache : Checker → Evaluated
from_cache e = record {
  checker = record e { probed = false };
  result = record {
    passed = e.verdict;
    reason = e.reason;
    ip = e.last_ip;
    country = e.last_country;
    probed = false;
  };
  logs = [];
}

-- `e.verdict, e.reason, e.ts, e.set = ok, reason, now, true; e.Probed = true`
unfoldable pub settle : Net → Outcome → Evaluated
settle net o = record {
  checker = record o.checker {
    verdict = o.passed;
    reason = o.reason;
    ts = net.now;
    set = true;
    probed = true;
  };
  result = record {
    passed = o.passed;
    reason = o.reason;
    ip = o.checker.last_ip;
    country = o.checker.last_country;
    probed = true;
  };
  logs = o.logs;
}

unfoldable pub evaluate : Library → Net → Bool → Checker → Evaluated
evaluate lib net fresh e =
    if use_cache net fresh e then from_cache e else settle net (probe lib net e)

-- `Proof`: the last observation.
pub record Observed : Type 0 where
  pub ip : Text
  pub country : Text
  pub probed : Bool

unfoldable pub proof : Checker → Observed
proof e = record { ip = e.last_ip; country = e.last_country; probed = e.probed }
