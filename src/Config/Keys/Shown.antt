-- ===== src/Config/Keys/Shown.antt =====
-- Setting a key to the value that the table shows.
use reptile.Prelude.{
  ℕ, ◌≤◌, ◌≡◌, refl, sym, ap, ◌∙◌, subst, true, false, some, List, [], ◌∷◌, All, map, arith, ℤ, pos,
  ltb_ℤ,
}
use reptile.Text.Defs.{Text, codes, eq}
use reptile.Text.Space.{trim_space}
use reptile.Text.Split.{join}
use reptile.Text.Number.{itoa}
use reptile.Text.Decimal.{FitsInt, parse_int-itoa}
use reptile.Library.{Library}
use reptile.Result.{ok}
use reptile.Config.{Config}
use reptile.Config.Validate.{validate, country_re}
use reptile.Config.Validate.Sound.{IsValid, validate-IsValid}
use reptile.Config.Validate.Checks.{country_re-IsCountry, to_upper-IsCountry, IsPattern}
use reptile.Config.Times.{durations-AreParsed}
use reptile.Config.Keys.{
  Key, interface, poll_interval, max_handshake_age, down_cycles_to_kill, kill_grace,
  heartbeat_interval, ping_target, verify_egress, expected_country, expected_ip, probe_url,
  country_pattern, ip_pattern, probe_interval, probe_timeout, dnsbl_zones, targets, wg_conf,
  extra_accept, socket_path, log_file, key_text, set_known, find_key, all_keys, duration_key,
  pattern_key, down_cycles_key, verify_key, country_key, key_of, set_key, apply_key,
}
use reptile.Config.Keys.Readback.{IsItem, split_list-join, parse_bool-bool_text}
use reptile.Config.Keys.Rows.{Row, row, bool_text, config_rows}
use reptile.Config.Keys.Frame.{config_rows-sorted}

-- The value in the row of a key.
unfoldable pub shown : Key → Config → Text
shown interface c = c.interface
shown poll_interval c = c.poll_interval
shown max_handshake_age c = c.max_handshake_age
shown down_cycles_to_kill c = itoa c.down_cycles_to_kill
shown kill_grace c = c.kill_grace
shown heartbeat_interval c = c.heartbeat_interval
shown ping_target c = c.ping_target
shown verify_egress c = bool_text c.verify_egress
shown expected_country c = c.expected_country
shown expected_ip c = c.expected_ip
shown probe_url c = c.probe_url
shown country_pattern c = c.country_pattern
shown ip_pattern c = c.ip_pattern
shown probe_interval c = c.probe_interval
shown probe_timeout c = c.probe_timeout
shown dnsbl_zones c = join (codes ",") c.dnsbl_zones
shown targets c = join (codes ",") c.targets
shown wg_conf c = c.wg_conf
shown extra_accept c = join (codes ",") c.extra_accept
shown socket_path c = c.socket_path
shown log_file c = c.log_file

-- What `Validate` leaves open and the table does not show: the elements of the lists, the number of
-- polls, and an address with spaces around it.
pub record IsShowable (c : Config) : Type 0 where
  pub zones_items : All IsItem c.dnsbl_zones
  pub targets_items : All IsItem c.targets
  pub accepts_items : All IsItem c.extra_accept
  pub country_spelled : country_re c.expected_country ≡ true
  pub ip_trimmed : c.expected_ip ≡ trim_space c.expected_ip
  pub cycles_fit : FitsInt c.down_cycles_to_kill

module _ (lib : Library) (c : Config) where
  set_duration :
      (k : Key) (v : Text) {n : ℤ} → lib.parse_duration v ≡ ok n → duration_key lib k v c ≡ ok c
  unfolding duration_key
  set_duration k v h = rw h refl

  set_pattern : (k : Key) (v : Text) → IsPattern lib v → pattern_key lib k v c ≡ ok c
  unfolding pattern_key
  set_pattern k v h = rw (h.compiled) refl

  set_cycles :
      (v : Text)
      → ltb_ℤ c.down_cycles_to_kill (pos 1) ≡ false
      → down_cycles_key (some c.down_cycles_to_kill) v c ≡ ok c
  unfolding down_cycles_key
  set_cycles v h = ground (arith, h)

  set_country :
      (v : Text) → country_re c.expected_country ≡ true → country_key c.expected_country v c ≡ ok c
  unfolding country_key
  set_country v h = rw h refl

positive : (n : ℕ) → 1 ≤ n → ltb_ℤ (pos n) (pos 1) ≡ false
positive n h = ground arith

module _ (lib : Library) (c : Config) (valid : IsValid lib c) (s : IsShowable c) where
  cycles_valid : ltb_ℤ c.down_cycles_to_kill (pos 1) ≡ false
  cycles_valid =
      subst (λ z. ltb_ℤ z (pos 1) ≡ false) (sym valid.polls_positive.0)
        (positive valid.polls valid.polls_positive.1)

  set_key-shown : (k : Key) → set_key lib k (shown k c) c ≡ ok c
  unfolding set_key shown duration_key pattern_key verify_key
  set_key-shown poll_interval =
      set_duration lib c poll_interval _ (durations-AreParsed lib c valid.times_parse).poll
  set_key-shown max_handshake_age =
      set_duration lib c max_handshake_age _
        (durations-AreParsed lib c valid.times_parse).max_handshake_age
  set_key-shown kill_grace =
      set_duration lib c kill_grace _ (durations-AreParsed lib c valid.times_parse).kill_grace
  set_key-shown heartbeat_interval =
      set_duration lib c heartbeat_interval _
        (durations-AreParsed lib c valid.times_parse).heartbeat
  set_key-shown probe_interval =
      set_duration lib c probe_interval _
        (durations-AreParsed lib c valid.times_parse).probe_interval
  set_key-shown probe_timeout =
      set_duration lib c probe_timeout _ (durations-AreParsed lib c valid.times_parse).probe_timeout
  set_key-shown country_pattern = set_pattern lib c country_pattern _ valid.country_pattern
  set_key-shown ip_pattern = set_pattern lib c ip_pattern _ valid.ip_pattern
  set_key-shown down_cycles_to_kill =
      ap (λ o. down_cycles_key o (itoa c.down_cycles_to_kill) c)
        (parse_int-itoa c.down_cycles_to_kill s.cycles_fit)
      ∙ set_cycles lib c _ cycles_valid
  set_key-shown verify_egress =
      ap (λ o. verify_key o (bool_text c.verify_egress) c) (parse_bool-bool_text c.verify_egress)
  set_key-shown expected_country =
      ap (λ u. country_key u c.expected_country c)
        (to_upper-IsCountry lib c.expected_country (country_re-IsCountry _ s.country_spelled))
      ∙ set_country lib c _ s.country_spelled
  set_key-shown expected_ip = ap (λ v. ok (record c { expected_ip = v })) (sym s.ip_trimmed)
  set_key-shown dnsbl_zones =
      ap (λ v. ok (record c { dnsbl_zones = v })) (split_list-join _ s.zones_items)
  set_key-shown targets =
      ap (λ v. ok (record c { targets = v })) (split_list-join _ s.targets_items)
  set_key-shown extra_accept =
      ap (λ v. ok (record c { extra_accept = v })) (split_list-join _ s.accepts_items)
  set_key-shown _ = refl

key_of-key_text : (k : Key) → key_of (key_text k) ≡ some k
unfolding key_of find_key all_keys key_text eq
key_of-key_text interface = refl
key_of-key_text _ = refl

apply_key-shown :
    (lib : Library) (c : Config)
    → IsValid lib c
    → IsShowable c
    → (k : Key) → apply_key lib (key_text k) (shown k c) c ≡ ok c
unfolding apply_key set_known
apply_key-shown lib c valid s k =
    ap (set_known lib (key_text k) (shown k c) c) (key_of-key_text k)
    ∙ set_key-shown lib c valid s k

-- The keys in the order of their names.
abbrev sorted_keys : List Key
sorted_keys =
    country_pattern ∷ dnsbl_zones ∷ down_cycles_to_kill ∷ expected_country ∷ expected_ip
    ∷ extra_accept ∷ heartbeat_interval ∷ interface ∷ ip_pattern ∷ kill_grace ∷ log_file
    ∷ max_handshake_age ∷ ping_target ∷ poll_interval ∷ probe_interval ∷ probe_timeout ∷ probe_url
    ∷ socket_path ∷ targets ∷ verify_egress ∷ wg_conf ∷ []

All-row_of :
    (lib : Library) (c : Config)
    → ((k : Key) → apply_key lib (key_text k) (shown k c) c ≡ ok c)
    → (ks : List Key)
    → All
        (λ (r : Row). apply_key lib r.key r.value c ≡ ok c)
        (map (λ k. row (key_text k) (shown k c)) ks)
All-row_of lib c set [] = tt
All-row_of lib c set (k ∷ ks) = (set k, All-row_of lib c set ks)

-- If a configuration passes `Validate`, its country code is two capitals, its address has no spaces
-- around it, its number of polls is a native integer, and no element of its lists is empty, has a
-- comma in it or spaces around it, then setting the key of a row of its table to the value that the
-- row shows succeeds and changes nothing.
pub set_shown :
    (lib : Library) (c : Config)
    → validate lib c ≡ ok tt
    → IsShowable c
    → All (λ (r : Row). apply_key lib r.key r.value c ≡ ok c) (config_rows c)
unfolding key_text shown
set_shown lib c ok_c s =
    subst (All (λ (r : Row). apply_key lib r.key r.value c ≡ ok c)) (sym (config_rows-sorted c))
      (All-row_of lib c (apply_key-shown lib c (validate-IsValid lib c ok_c) s) sorted_keys)
