-- ===== src/Tests/Network.antt =====
-- The tunnel and egress checkers on concrete answers.
use reptile.Prelude.{
  ◌+◌, ℕ, ◌≡◌, refl, ◌↔◌, true, false, none, some, List, [], ◌∷◌, All, pos, sub_ℕ, ltb_ℤ,
}
use mathlib.Core.List.{Memᴰ}
use reptile.Text.Defs.{Text, codes, eq, is_ascii, upper_ascii}
use reptile.Text.Space.{trim_space}
use reptile.Text.Number.{itoa_ℕ}
use reptile.Library.{to_upper}
use reptile.Result.{Result, ok, err}
use reptile.Egress.{Checker, Net, response}
use reptile.Egress.Dnsbl.{reverse_ipv4, blacklisted, IsListed, blacklisted_exact, reversed}
use reptile.Egress.Probe.{
  probe, receive, read_body, read_limited, judge, with_client, country_in, ip_in, evaluate, settle,
  use_cache, group,
}
use reptile.Egress.Sound.{IsProven, probe_passes_iff}
use reptile.Egress.Cache.{IsHonest, evaluates, Step-IsHonest, evaluate_within_ttl}
use reptile.Tunnel.{Host, check, parse_latest_handshake}
use reptile.Tunnel.Liveness.{IsLive}
use reptile.Tunnel.Commands.{Runner, check_by, shown, check_by_passes_iff}
use reptile.Tunnel as Tunnel
use reptile.Tests.{demo}

-- A checker that expects "DE" and asks no zone, and a network that answers.
abbrev watcher : Checker
watcher = record {
  iface = codes "wg0";
  url = codes "https://1.1.1.1/cdn-cgi/trace";
  country_re = record { pattern = codes "C" };
  ip_re = record { pattern = codes "I" };
  timeout = pos 5_000_000_000;
  ttl = pos 300_000_000_000;
  expected_country = codes "DE";
  expected_ip = codes "1.2.3.4";
  zones = [];
  last_country = [];
  last_ip = [];
  probed = false;
  client = none;
  verdict = false;
  reason = [];
  ts = 0;
  set = false;
}

abbrev answering : ℕ → Net
answering now = record {
  fetch = λ _ _. response 200 (record { bytes = codes "DE 1.2.3.4"; error = none });
  lookup_host = λ q. err q;
  now = now;
}

seen : (probe demo (answering 7) watcher).passed ≡ true
unfolding probe receive read_limited read_body judge with_client country_in ip_in group to_upper
    is_ascii upper_ascii trim_space eq
seen = refl

seen_fresh : (evaluate demo (answering 7) true watcher).result.passed ≡ true
unfolding evaluate use_cache settle
seen_fresh = seen

probe_passes_iff_example :
    ((probe demo (answering 7) watcher).passed ≡ true) ↔ IsProven demo (answering 7) watcher
probe_passes_iff_example = probe_passes_iff demo (answering 7) watcher

watcher-IsHonest : IsHonest watcher
watcher-IsHonest = record { country = λ s. cc; ip = λ s. cc }

Step-IsHonest_example : IsHonest (evaluate demo (answering 7) true watcher).checker
Step-IsHonest_example = Step-IsHonest demo watcher-IsHonest (evaluates (answering 7) true refl)

in_time : ltb_ℤ (sub_ℕ 8 7) (evaluate demo (answering 7) true watcher).checker.ttl ≡ true
unfolding evaluate use_cache settle probe receive read_limited read_body judge with_client
    country_in ip_in group to_upper is_ascii upper_ascii trim_space eq
in_time = refl

evaluate_within_ttl_example :
    (evaluate demo (answering 8) false (evaluate demo (answering 7) true watcher).checker).result
    ≡ record (evaluate demo (answering 7) true watcher).result { probed = false }
evaluate_within_ttl_example = evaluate_within_ttl demo (answering 7) (answering 8) watcher in_time

-- A resolver that lists every address.
abbrev listing : Text → Result Text (List Text)
listing _ = ok (codes "127.0.0.2" ∷ [])

abbrev zones : List Text
zones = codes "zen.spamhaus.org" ∷ []

blacklisted_exact_example :
    ((z : Text)
      → (blacklisted demo listing zones (codes "1.2.3.4")).zone ≡ some z
      → Memᴰ z zones × IsListed demo listing (codes "4.3.2.1") z)
    × ((blacklisted demo listing zones (codes "1.2.3.4")).zone ≡ none
        → All (λ z. ¬ IsListed demo listing (codes "4.3.2.1") z) zones)
unfolding reverse_ipv4 reversed itoa_ℕ eq
blacklisted_exact_example = blacklisted_exact demo listing zones (codes "1.2.3.4") refl

abbrev dump : Text
dump = codes "key\tpsk\t-\t0.0.0.0/0\t100\t1\t2\toff\n"

-- A host that answers every command with the dump, and counts them.
abbrev counting : Runner ℕ
counting = record { run = λ _ w. (ok dump, w + 1) }

abbrev patient : Tunnel.Checker
patient = record {
  iface = codes "wg0";
  max_age = pos 180_000_000_000;
  ping_target = codes "10.0.0.1";
}

check_by_passes_iff_example :
    (((check_by counting 150 patient (record { host = 0; commands = [] })).0.passed ≡ true)
      ↔ IsLive (shown counting patient 0) 150 180)
    × All
        (λ c. Memᴰ (codes "wg0") c)
        (check_by counting 150 patient (record { host = 0; commands = [] })).1.commands
unfolding Tunnel.seconds
check_by_passes_iff_example = check_by_passes_iff counting 150 patient 0 refl
