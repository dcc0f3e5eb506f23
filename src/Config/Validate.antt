-- ===== src/Config/Validate.antt =====
-- `Config.Validate` of internal/app/config.go, check by check.
pub mod Checks
pub mod Sound
use reptile.Prelude.{
  ℕ, Bool, true, false, not, ◌&&◌, ◌||◌, Option, none, some, List, [], ◌∷◌, length, ltb, leb, ◌==◌,
  if◌then◌else◌, pos, ltb_ℤ, leb_ℤ,
}
use reptile.Text.Defs.{Text, codes, eq, elem, is_empty, contains_any}
use reptile.Text.Space.{trim_space}
use reptile.Library.{Library, Url}
use reptile.Result.{Result, ok, err, wrap, guard, ◌>>=◌, ◌>>◌}
use reptile.Config.{Config, Durations, KeyError, at_key, durations}

-- One constructor for each message.
pub data Invalid : Type 0 where
  interface : Text → Invalid
  no_targets : Invalid
  target_space target_long target_control target_twice : Text → Invalid
  no_country : Invalid
  country : Text → Invalid
  expected_ip : Text → Invalid
  probe_url : Text → Invalid
  pattern : KeyError → Invalid
  no_capture : Text → Invalid
  zone : Text → Invalid
  down_cycles : Invalid
  duration : KeyError → Invalid
  not_positive : Text → Invalid
  is_negative : Text → Invalid

within : ℕ → ℕ → ℕ → Bool
within lo hi c = leb lo c && leb c hi

-- `^[A-Z]{2}$`
unfoldable pub country_re : Text → Bool
unfolding within
country_re (a ∷ b ∷ []) = within b'A' b'Z' a && within b'A' b'Z' b
country_re _ = false

iface_byte : ℕ → Bool
unfolding within
iface_byte c =
    within b'A' b'Z' c
    || within b'a' b'z' c
    || within b'0' b'9' c
    || c == b'_'
    || c == b'.'
    || c == b'-'

unfoldable pub all_bytes : (ℕ → Bool) → Text → Bool
all_bytes p [] = true
all_bytes p (c ∷ cs) = p c && all_bytes p cs

-- `^[A-Za-z0-9_.-]{1,15}$`
unfoldable pub iface_re : Text → Bool
unfolding iface_byte all_bytes
iface_re s = leb 1 (length s) && leb (length s) 15 && all_bytes iface_byte s

-- A rune below 0x20 or 0x7f; in UTF-8 these are bytes.
unfoldable pub has_control : Text → Bool
has_control [] = false
has_control (c ∷ cs) = ltb c 0x20 || c == 0x7f || has_control cs

unfoldable pub check_target : List Text → Text → Option Invalid
check_target seen t =
    if is_empty t || not (eq t (trim_space t))
    then some (target_space t)
    else if ltb 15 (length t)
    then some (target_long t)
    else if has_control t
    then some (target_control t)
    else if elem t seen
    then some (target_twice t)
    else none

-- The loop over the targets; `seen` is the map `seenTargets`.
unfoldable pub check_targets : List Text → List Text → Result Invalid (Unit {0})
check_targets seen [] = ok tt
check_targets seen (t ∷ ts) = guard (check_target seen t) >> check_targets (t ∷ seen) ts

unfoldable pub check_country : Config → Option Invalid
check_country c =
    if c.verify_egress
    then (if is_empty (trim_space c.expected_country)
        then some no_country
        else if country_re c.expected_country
        then none
        else some (country c.expected_country))
    else none

unfoldable pub check_expected_ip : Library → Config → Option Invalid
check_expected_ip lib c =
    if is_empty c.expected_ip then none else elim (lib.parse_ip c.expected_ip) [
      | none ↦ some (expected_ip c.expected_ip)
      | some _ ↦ none
    ]

unfoldable pub absolute_https : Result Text Url → Bool
absolute_https (ok u) = eq u.scheme (codes "https") && not (is_empty u.host)
absolute_https (err _) = false

unfoldable pub check_probe_url : Library → Config → Option Invalid
unfolding absolute_https
check_probe_url lib c =
    if absolute_https (lib.parse_request_uri c.probe_url)
    then none
    else some (probe_url c.probe_url)

unfoldable pub check_pattern : Library → Text → Text → Result Invalid (Unit {0})
check_pattern lib key p = do
  re ← wrap (λ e. pattern (at_key key e)) (lib.compile p)
  if ltb (lib.num_subexp re) 1 then err (no_capture key) else ok tt

unfoldable pub check_zones : List Text → Option Invalid
check_zones [] = none
check_zones (z ∷ zs) =
    if is_empty z || not (eq z (trim_space z)) || contains_any z (codes " \t\r\n")
    then some (zone z)
    else check_zones zs

-- The `switch` on the signs.
unfoldable pub check_signs : Durations → Option Invalid
check_signs d =
    if leb_ℤ d.poll (pos 0)
    then some (not_positive (codes "poll_interval"))
    else if leb_ℤ d.max_handshake_age (pos 0)
    then some (not_positive (codes "max_handshake_age"))
    else if ltb_ℤ d.kill_grace (pos 0)
    then some (is_negative (codes "kill_grace"))
    else if ltb_ℤ d.heartbeat (pos 0)
    then some (is_negative (codes "heartbeat_interval"))
    else if ltb_ℤ d.probe_interval (pos 0)
    then some (is_negative (codes "probe_interval"))
    else if leb_ℤ d.probe_timeout (pos 0)
    then some (not_positive (codes "probe_timeout"))
    else none

unfoldable pub validate : Library → Config → Result Invalid (Unit {0})
validate lib c = do
  guard (if iface_re c.interface then none else some (interface c.interface))
  guard (if is_empty c.targets then some no_targets else none)
  check_targets [] c.targets
  guard (check_country c)
  guard (check_expected_ip lib c)
  guard (check_probe_url lib c)
  check_pattern lib (codes "country_pattern") c.country_pattern
  check_pattern lib (codes "ip_pattern") c.ip_pattern
  guard (check_zones c.dnsbl_zones)
  guard (if ltb_ℤ c.down_cycles_to_kill (pos 1) then some down_cycles else none)
  d ← wrap duration (durations lib c)
  guard (check_signs d)
