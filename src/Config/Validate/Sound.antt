-- ===== src/Config/Validate/Sound.antt =====
-- What `Validate` guarantees of a configuration that it accepts.
use reptile.Prelude.{
  ℕ, ◌≤◌, ◌≡◌, ◌≢◌, refl, true, none, some, [], length, All, ℤ, pos, negsuc, ltb_ℤ, leb_ℤ,
  if◌then◌else◌, arith,
}
use reptile.Text.Defs.{codes, is_empty}
use reptile.Text.Space.{trim_space}
use reptile.Library.{Library}
use reptile.Result.{ok, guard, wrap, bind-eq-ok, >>-eq-ok, guard-eq-ok, wrap-eq-ok}
use reptile.Config.{Config, Durations, durations}
use reptile.Config.Validate.{
  Invalid, no_targets, duration, iface_re, check_targets, check_country, check_expected_ip,
  check_probe_url, check_pattern, check_zones, check_signs, validate,
}
use reptile.Config.Validate.Checks.{
  IsTarget, Distinct, check_targets_sound, check_zones_sound, IsPattern, check_pattern-IsPattern,
  IsHttps, check_probe_url-IsHttps, IsCountry, country_re-IsCountry,
}

-- Each check passes.
record Passes (lib : Library) (c : Config) : Type 0 where
  interface : (if iface_re c.interface then none else some (Invalid.interface c.interface)) ≡ none
  some_target : (if is_empty c.targets then some no_targets else none) ≡ none
  targets : check_targets [] c.targets ≡ ok tt
  country : check_country c ≡ none
  expected_ip : check_expected_ip lib c ≡ none
  probe_url : check_probe_url lib c ≡ none
  country_pattern : check_pattern lib (codes "country_pattern") c.country_pattern ≡ ok tt
  ip_pattern : check_pattern lib (codes "ip_pattern") c.ip_pattern ≡ ok tt
  zones : check_zones c.dnsbl_zones ≡ none
  down_cycles :
      (if ltb_ℤ c.down_cycles_to_kill (pos 1) then some Invalid.down_cycles else none) ≡ none
  d : Durations
  durations_ok : durations lib c ≡ ok d
  signs : check_signs d ≡ none

validate-Passes : (lib : Library) (c : Config) → validate lib c ≡ ok tt → Passes lib c
unfolding validate
validate-Passes lib c h0 =
    let (a1, h1) = >>-eq-ok _ _ h0 in
    let (a2, h2) = >>-eq-ok _ _ h1 in
    let (a3, h3) = >>-eq-ok _ _ h2 in
    let (a4, h4) = >>-eq-ok _ _ h3 in
    let (a5, h5) = >>-eq-ok _ _ h4 in
    let (a6, h6) = >>-eq-ok _ _ h5 in
    let (a7, h7) = >>-eq-ok _ _ h6 in
    let (a8, h8) = >>-eq-ok _ _ h7 in
    let (a9, h9) = >>-eq-ok _ _ h8 in
    let (a10, h10) = >>-eq-ok _ _ h9 in
    let (d, parsed, last) =
      bind-eq-ok (wrap duration (durations lib c)) (λ (d : Durations). guard (check_signs d)) h10 in
    record {
      interface = guard-eq-ok _ a1;
      some_target = guard-eq-ok _ a2;
      targets = a3;
      country = guard-eq-ok _ a4;
      expected_ip = guard-eq-ok _ a5;
      probe_url = guard-eq-ok _ a6;
      country_pattern = a7;
      ip_pattern = a8;
      zones = guard-eq-ok _ a9;
      down_cycles = guard-eq-ok _ a10;
      d = d;
      durations_ok = wrap-eq-ok duration (durations lib c) parsed;
      signs = guard-eq-ok _ last;
    }

pub validate-durations :
    (lib : Library) (c : Config)
    → validate lib c ≡ ok tt
    → (d : Durations) × (durations lib c ≡ ok d) × (check_signs d ≡ none)
validate-durations lib c h = let p = validate-Passes lib c h in (p.d, p.durations_ok, p.signs)

-- The conditions that the README and the messages state of a configuration.
pub record IsValid (lib : Library) (c : Config) : Type 0 where
  pub interface_length : (1 ≤ length c.interface) × (length c.interface ≤ 15)
  pub some_target : c.targets ≢ []
  pub all_targets : All IsTarget c.targets
  pub distinct : Distinct c.targets
  pub country : c.verify_egress ≡ true → IsCountry c.expected_country
  pub address : c.expected_ip ≢ [] → lib.parse_ip c.expected_ip ≢ none
  pub url : IsHttps lib c.probe_url
  pub country_pattern : IsPattern lib c.country_pattern
  pub ip_pattern : IsPattern lib c.ip_pattern
  pub zones : All (λ z. (z ≢ []) × (z ≡ trim_space z)) c.dnsbl_zones
  pub polls : ℕ
  pub polls_positive : (c.down_cycles_to_kill ≡ pos polls) × (1 ≤ polls)
  pub times : Durations
  pub times_parse : durations lib c ≡ ok times
  pub positive :
      (ltb_ℤ (pos 0) times.poll ≡ true)
      × (ltb_ℤ (pos 0) times.max_handshake_age ≡ true)
      × (ltb_ℤ (pos 0) times.probe_timeout ≡ true)
  pub not_negative :
      (leb_ℤ (pos 0) times.kill_grace ≡ true)
      × (leb_ℤ (pos 0) times.heartbeat ≡ true)
      × (leb_ℤ (pos 0) times.probe_interval ≡ true)

module _ (lib : Library) (c : Config) (p : Passes lib c) where
  interface_length : (1 ≤ length c.interface) × (length c.interface ≤ 15)
  unfolding iface_re
  interface_length = let i = p.interface in ground (arith, i)

  some_targets : c.targets ≢ []
  some_targets e = let i = p.some_target in ground (arith, i)

  IsCountry-verified : c.verify_egress ≡ true → IsCountry c.expected_country
  unfolding check_country
  IsCountry-verified on =
      let i = p.country in country_re-IsCountry c.expected_country (ground (arith, i))

  address_valid : c.expected_ip ≢ [] → lib.parse_ip c.expected_ip ≢ none
  unfolding check_expected_ip
  address_valid some_ip e = let i = p.expected_ip in ground (arith, i)

  polls_valid : (n : ℕ) × (c.down_cycles_to_kill ≡ pos n) × (1 ≤ n)
  polls_valid = cycles c.down_cycles_to_kill refl
    where
      cycles :
          (z : ℤ) → c.down_cycles_to_kill ≡ z → (n : ℕ) × (c.down_cycles_to_kill ≡ pos n) × (1 ≤ n)
      cycles (pos n) e = let i = p.down_cycles in (n, e, ground (arith, i))
      cycles (negsuc n) e = let i = p.down_cycles in absurd (ground (arith, i))

  times_positive :
      (ltb_ℤ (pos 0) p.d.poll ≡ true)
      × (ltb_ℤ (pos 0) p.d.max_handshake_age ≡ true)
      × (ltb_ℤ (pos 0) p.d.probe_timeout ≡ true)
  unfolding check_signs
  times_positive = let i = p.signs in (ground (arith, i), ground (arith, i), ground (arith, i))

  times_not_negative :
      (leb_ℤ (pos 0) p.d.kill_grace ≡ true)
      × (leb_ℤ (pos 0) p.d.heartbeat ≡ true)
      × (leb_ℤ (pos 0) p.d.probe_interval ≡ true)
  unfolding check_signs
  times_not_negative = let i = p.signs in (ground (arith, i), ground (arith, i), ground (arith, i))

-- A configuration that `Validate` accepts has a short interface name, distinct targets that fit
-- a `comm`, a country code if the egress is verified, an address to pin if any is given, an HTTPS
-- probe with a host, patterns with a group, trimmed zones, a threshold of at least one poll, and
-- durations that parse with the signs that their keys want.
pub validate-IsValid : (lib : Library) (c : Config) → validate lib c ≡ ok tt → IsValid lib c
validate-IsValid lib c h =
    let p = validate-Passes lib c h in
    let targets = check_targets_sound [] c.targets p.targets in
    let polls = polls_valid lib c p in
    record {
      interface_length = interface_length lib c p;
      some_target = some_targets lib c p;
      all_targets = targets.0;
      distinct = targets.1;
      country = IsCountry-verified lib c p;
      address = address_valid lib c p;
      url = check_probe_url-IsHttps lib c p.probe_url;
      country_pattern = check_pattern-IsPattern lib (codes "country_pattern") _ p.country_pattern;
      ip_pattern = check_pattern-IsPattern lib (codes "ip_pattern") _ p.ip_pattern;
      zones = check_zones_sound c.dnsbl_zones p.zones;
      polls = polls.0;
      polls_positive = (polls.1, polls.2);
      times = p.d;
      times_parse = p.durations_ok;
      positive = times_positive lib c p;
      not_negative = times_not_negative lib c p;
    }
