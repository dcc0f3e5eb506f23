-- ===== src/Config/Keys/Frame.antt =====
-- The rows are sorted, and setting a key changes no other.
use reptile.Prelude.{
  ◌≡◌, refl, ap, ◌∙◌, ◌⊎◌, inl, inr, some, List, [], ◌∷◌, All, arith, Bool-cases, Option-cases,
}
use reptile.Text.Defs.{Text, codes, eq, eq_iff}
use reptile.Text.Split.{join}
use reptile.Text.Number.{itoa}
use reptile.Library.{Library}
use reptile.Result.{ok}
use reptile.Config.{Config}
use reptile.Config.Keys.{
  Key, interface, key_text, key_of, set_key, apply_key, find_key, all_keys, set_known,
}
use reptile.Config.Keys.Rows.{Row, row, bool_text, config_rows, diff_rows, diff_keys}

-- The rows in the order of their keys.
abbrev pub sorted_rows : Config → List Row
sorted_rows c =
    row (codes "country_pattern") (c.country_pattern)
    ∷ row (codes "dnsbl_zones") (join (codes ",") c.dnsbl_zones)
    ∷ row (codes "down_cycles_to_kill") (itoa c.down_cycles_to_kill)
    ∷ row (codes "expected_country") (c.expected_country)
    ∷ row (codes "expected_ip") (c.expected_ip)
    ∷ row (codes "extra_accept") (join (codes ",") c.extra_accept)
    ∷ row (codes "heartbeat_interval") (c.heartbeat_interval)
    ∷ row (codes "interface") (c.interface)
    ∷ row (codes "ip_pattern") (c.ip_pattern)
    ∷ row (codes "kill_grace") (c.kill_grace)
    ∷ row (codes "log_file") (c.log_file)
    ∷ row (codes "max_handshake_age") (c.max_handshake_age)
    ∷ row (codes "ping_target") (c.ping_target)
    ∷ row (codes "poll_interval") (c.poll_interval)
    ∷ row (codes "probe_interval") (c.probe_interval)
    ∷ row (codes "probe_timeout") (c.probe_timeout)
    ∷ row (codes "probe_url") (c.probe_url)
    ∷ row (codes "socket_path") (c.socket_path)
    ∷ row (codes "targets") (join (codes ",") c.targets)
    ∷ row (codes "verify_egress") (bool_text c.verify_egress)
    ∷ row (codes "wg_conf") (c.wg_conf)
    ∷ []

pub config_rows-sorted : (c : Config) → config_rows c ≡ sorted_rows c
unfolding config_rows
config_rows-sorted c = refl

-- Two row lists agree, but in the value of one key.
abbrev pub AgreeBut : Text → List Row → List Row → Type 0
AgreeBut k [] _ = Unit {0}
AgreeBut k (_ ∷ _) [] = Unit {0}
AgreeBut k (o ∷ os) (n ∷ ns) = ((o.key ≡ k) ⊎ (o.value ≡ n.value)) × AgreeBut k os ns

diff_rows-AgreeBut :
    (k : Text) (os ns : List Row) → AgreeBut k os ns → All (λ x. x ≡ k) (diff_rows os ns)
unfolding diff_rows
diff_rows-AgreeBut k [] ns a = tt
diff_rows-AgreeBut k (o ∷ os) [] a = tt
diff_rows-AgreeBut k (o ∷ os) (n ∷ ns) (x, rest) = elim (Bool-cases (eq o.value n.value)) [
  | inl same ↦ rw (same, diff_rows) (diff_rows-AgreeBut k os ns rest)
  | inr changed ↦
      rw (changed, diff_rows)
        (
          elim x [ inl key ↦ key | inr value ↦ cc (changed, (eq_iff o.value n.value).1 value) ],
          diff_rows-AgreeBut k os ns rest,
        )
]

set_key-AgreeBut :
    (lib : Library) (x : Key) (v : Text) (c : Config) {d : Config}
    → set_key lib x v c ≡ ok d
    → AgreeBut (key_text x) (sorted_rows c) (sorted_rows d)
unfolding set_key key_text
set_key-AgreeBut lib interface v c h = ground arith
set_key-AgreeBut lib _ v c h = ground arith

find_key-key_text : (k : Text) (ks : List Key) {x : Key} → find_key k ks ≡ some x → k ≡ key_text x
unfolding find_key
find_key-key_text k [] h = cc
find_key-key_text k (y ∷ ys) {x} h = elim (Bool-cases (eq k (key_text y))) [
  | inl found ↦
      let same : y ≡ x = ground arith in (eq_iff k (key_text y)).0 found ∙ ap key_text same
  | inr other ↦ find_key-key_text k ys (rw (other, find_key) at h)
]

key_of-key_text : (k : Text) {x : Key} → key_of k ≡ some x → k ≡ key_text x
unfolding key_of
key_of-key_text k h = find_key-key_text k all_keys h

-- If setting a key succeeds, the row of no other key changes.
pub apply_key_frame :
    (lib : Library) (k v : Text) (c : Config) {d : Config}
    → apply_key lib k v c ≡ ok d
    → All (λ x. x ≡ k) (diff_keys c d)
unfolding apply_key set_known diff_keys
apply_key_frame lib k v c {d} h = elim (Option-cases (key_of k)) [
  | inl unknown ↦ cc (rw (unknown, apply_key) at h)
  | inr (x, known) ↦
      rw (config_rows-sorted, config_rows-sorted, key_of-key_text k known)
        (diff_rows-AgreeBut (key_text x) (sorted_rows c) (sorted_rows d)
          (set_key-AgreeBut lib x v c (rw (known, apply_key) at h)))
]
