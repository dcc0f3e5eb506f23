-- ===== src/Config/Keys.antt =====
-- internal/app/config_ops.go: the rows of the effective config, their difference, and the setting
-- of one key.
pub mod Rows
pub mod Frame
pub mod Exact
pub mod Readback
pub mod Shown
use reptile.Prelude.{
  ℕ, zero, suc, Bool, true, false, not, ◌&&◌, ◌||◌, Option, none, some, List, [], ◌∷◌, map, ltb,
  ◌==◌, if◌then◌else◌, ℤ, pos, ltb_ℤ,
}
use reptile.Text.Defs.{Text, codes, eq, elem, is_empty}
use reptile.Text.Space.{trim_space}
use reptile.Text.Split.{split, join}
use reptile.Text.Number.{parse_int, itoa}
use reptile.Library.{Library, to_upper}
use reptile.Result.{Result, ok, err, wrap, check, ◌>>=◌, ◌>>◌}
use reptile.Config.{Config, KeyError, at_key}
use reptile.Config.Validate.{country_re}

-- The keys that the `switch` of `applyKey` knows.
pub data Key : Type 0 where
  interface poll_interval max_handshake_age down_cycles_to_kill kill_grace heartbeat_interval
        ping_target verify_egress expected_country expected_ip probe_url country_pattern ip_pattern
        probe_interval probe_timeout dnsbl_zones targets wg_conf extra_accept socket_path log_file :
      Key

unfoldable pub key_text : Key → Text
key_text interface = codes "interface"
key_text poll_interval = codes "poll_interval"
key_text max_handshake_age = codes "max_handshake_age"
key_text down_cycles_to_kill = codes "down_cycles_to_kill"
key_text kill_grace = codes "kill_grace"
key_text heartbeat_interval = codes "heartbeat_interval"
key_text ping_target = codes "ping_target"
key_text verify_egress = codes "verify_egress"
key_text expected_country = codes "expected_country"
key_text expected_ip = codes "expected_ip"
key_text probe_url = codes "probe_url"
key_text country_pattern = codes "country_pattern"
key_text ip_pattern = codes "ip_pattern"
key_text probe_interval = codes "probe_interval"
key_text probe_timeout = codes "probe_timeout"
key_text dnsbl_zones = codes "dnsbl_zones"
key_text targets = codes "targets"
key_text wg_conf = codes "wg_conf"
key_text extra_accept = codes "extra_accept"
key_text socket_path = codes "socket_path"
key_text log_file = codes "log_file"

-- The order of the `case`s does not matter: the keys differ.
unfoldable pub all_keys : List Key
all_keys =
    interface ∷ poll_interval ∷ max_handshake_age ∷ down_cycles_to_kill ∷ kill_grace
    ∷ heartbeat_interval ∷ ping_target ∷ verify_egress ∷ expected_country ∷ expected_ip ∷ probe_url
    ∷ country_pattern ∷ ip_pattern ∷ probe_interval ∷ probe_timeout ∷ dnsbl_zones ∷ targets
    ∷ wg_conf ∷ extra_accept ∷ socket_path ∷ log_file ∷ []

unfoldable pub find_key : Text → List Key → Option Key
find_key k [] = none
find_key k (x ∷ xs) = if eq k (key_text x) then some x else find_key k xs

unfoldable pub key_of : Text → Option Key
key_of k = find_key k all_keys

pub data ApplyError : Type 0 where
  wrapped : KeyError → ApplyError
  want_integer : Text → ApplyError
  bad_bool : Text → ApplyError
  bad_country : Text → ApplyError
  unknown_key : Text → ApplyError

-- `splitList`
unfoldable pub split_list : Text → List Text
split_list v = let t = trim_space v in if is_empty t then [] else map trim_space (split b',' t)

-- `strconv.ParseBool`
unfoldable pub parse_bool : Text → Option Bool
unfolding elem
parse_bool s =
    if elem s (codes "1" ∷ codes "t" ∷ codes "T" ∷ codes "TRUE" ∷ codes "true" ∷ codes "True" ∷ [])
    then some true
    else if elem s
        (codes "0" ∷ codes "f" ∷ codes "F" ∷ codes "FALSE" ∷ codes "false" ∷ codes "False" ∷ [])
    then some false
    else none

-- A duration is stored as it was written, once it parses.
unfoldable pub duration_key : Library → Key → Text → Config → Result ApplyError Config
duration_key lib k v c = check (λ e. wrapped (at_key (key_text k) e)) (lib.parse_duration v) >> ok c

unfoldable pub pattern_key : Library → Key → Text → Config → Result ApplyError Config
pattern_key lib k v c = check (λ e. wrapped (at_key (key_text k) e)) (lib.compile v) >> ok c

unfoldable pub down_cycles_key : Option ℤ → Text → Config → Result ApplyError Config
down_cycles_key none v c = err (want_integer v)
down_cycles_key (some n) v c =
    if ltb_ℤ n (pos 1) then err (want_integer v) else ok (record c { down_cycles_to_kill = n })

unfoldable pub verify_key : Option Bool → Text → Config → Result ApplyError Config
verify_key none v c = err (bad_bool v)
verify_key (some b) v c = ok (record c { verify_egress = b })

unfoldable pub country_key : Text → Text → Config → Result ApplyError Config
country_key upper v c =
    if not (country_re upper)
    then err (bad_country v)
    else ok (record c { expected_country = upper })

-- The cases of `applyKey`.
unfoldable pub set_key : Library → Key → Text → Config → Result ApplyError Config
unfolding duration_key pattern_key down_cycles_key verify_key country_key
set_key lib interface v c = ok (record c { interface = v })
set_key lib poll_interval v c = duration_key lib poll_interval v (record c { poll_interval = v })
set_key lib max_handshake_age v c =
    duration_key lib max_handshake_age v (record c { max_handshake_age = v })
set_key lib down_cycles_to_kill v c = down_cycles_key (parse_int v) v c
set_key lib kill_grace v c = duration_key lib kill_grace v (record c { kill_grace = v })
set_key lib heartbeat_interval v c =
    duration_key lib heartbeat_interval v (record c { heartbeat_interval = v })
set_key lib ping_target v c = ok (record c { ping_target = v })
set_key lib verify_egress v c = verify_key (parse_bool v) v c
set_key lib expected_country v c = country_key (to_upper lib (trim_space v)) v c
set_key lib expected_ip v c = ok (record c { expected_ip = trim_space v })
set_key lib probe_url v c = ok (record c { probe_url = v })
set_key lib country_pattern v c =
    pattern_key lib country_pattern v (record c { country_pattern = v })
set_key lib ip_pattern v c = pattern_key lib ip_pattern v (record c { ip_pattern = v })
set_key lib probe_interval v c = duration_key lib probe_interval v (record c { probe_interval = v })
set_key lib probe_timeout v c = duration_key lib probe_timeout v (record c { probe_timeout = v })
set_key lib dnsbl_zones v c = ok (record c { dnsbl_zones = split_list v })
set_key lib targets v c = ok (record c { targets = split_list v })
set_key lib wg_conf v c = ok (record c { wg_conf = v })
set_key lib extra_accept v c = ok (record c { extra_accept = split_list v })
set_key lib socket_path v c = ok (record c { socket_path = v })
set_key lib log_file v c = ok (record c { log_file = v })

unfoldable pub set_known : Library → Text → Text → Config → Option Key → Result ApplyError Config
set_known lib k v c none = err (unknown_key k)
set_known lib k v c (some x) = set_key lib x v c

-- `applyKey`
unfoldable pub apply_key : Library → Text → Text → Config → Result ApplyError Config
apply_key lib k v c = set_known lib k v c (key_of k)
