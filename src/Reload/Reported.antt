-- ===== src/Reload/Reported.antt =====
-- What `makeReloader` of internal/app/main.go takes of a new configuration, setting by setting, and
-- what `classifyReload` reports, key by key.
use reptile.Prelude.{
  ◌≡◌, refl, ◌↔◌, ◌⊎◌, inl, inr, Bool, true, false, not, ◌&&◌, List, [], ◌∷◌, arith,
}
use mathlib.Core.List.{Memᴰ}
use reptile.Text.Defs.{Text, codes, elem, eq_iff}
use reptile.Config.{Config}
use reptile.Reload.{ReloadResult, effective, needs_restart, needs_firewall, classify_reload}
use reptile.Reload.Classes.{classify_reload_exact}

-- The interface, the socket and the log file stay; every other setting is the new one.
pub record IsTaken (old new live : Config) : Type 0 where
  pub interface : live.interface ≡ old.interface
  pub socket_path : live.socket_path ≡ old.socket_path
  pub log_file : live.log_file ≡ old.log_file
  pub poll_interval : live.poll_interval ≡ new.poll_interval
  pub max_handshake_age : live.max_handshake_age ≡ new.max_handshake_age
  pub down_cycles_to_kill : live.down_cycles_to_kill ≡ new.down_cycles_to_kill
  pub kill_grace : live.kill_grace ≡ new.kill_grace
  pub heartbeat_interval : live.heartbeat_interval ≡ new.heartbeat_interval
  pub ping_target : live.ping_target ≡ new.ping_target
  pub verify_egress : live.verify_egress ≡ new.verify_egress
  pub expected_country : live.expected_country ≡ new.expected_country
  pub expected_ip : live.expected_ip ≡ new.expected_ip
  pub probe_url : live.probe_url ≡ new.probe_url
  pub country_pattern : live.country_pattern ≡ new.country_pattern
  pub ip_pattern : live.ip_pattern ≡ new.ip_pattern
  pub probe_interval : live.probe_interval ≡ new.probe_interval
  pub probe_timeout : live.probe_timeout ≡ new.probe_timeout
  pub dnsbl_zones : live.dnsbl_zones ≡ new.dnsbl_zones
  pub targets : live.targets ≡ new.targets
  pub wg_conf : live.wg_conf ≡ new.wg_conf
  pub extra_accept : live.extra_accept ≡ new.extra_accept

pub effective-IsTaken : (old new : Config) → IsTaken old new (effective old new)
effective-IsTaken old new = record {
  interface = refl;
  socket_path = refl;
  log_file = refl;
  poll_interval = refl;
  max_handshake_age = refl;
  down_cycles_to_kill = refl;
  kill_grace = refl;
  heartbeat_interval = refl;
  ping_target = refl;
  verify_egress = refl;
  expected_country = refl;
  expected_ip = refl;
  probe_url = refl;
  country_pattern = refl;
  ip_pattern = refl;
  probe_interval = refl;
  probe_timeout = refl;
  dnsbl_zones = refl;
  targets = refl;
  wg_conf = refl;
  extra_accept = refl;
}

-- The daemon wires these at its start.
abbrev pub IsWired : Text → Type 0
IsWired k = (k ≡ codes "interface") ⊎ (k ≡ codes "socket_path") ⊎ (k ≡ codes "log_file")

-- The rules of the firewall are built from these.
abbrev pub IsRule : Text → Type 0
IsRule k = (k ≡ codes "interface") ⊎ (k ≡ codes "wg_conf") ⊎ (k ≡ codes "extra_accept")

-- Of the keys `ks`, those that are wired, those of rules and those that are neither.
pub record IsReported (ks : List Text) (r : ReloadResult) : Type 0 where
  pub restart : (k : Text) → Memᴰ k r.daemon_restart_required ↔ (Memᴰ k ks × IsWired k)
  pub firewall : (k : Text) → Memᴰ k r.firewall_reload_required ↔ (Memᴰ k ks × IsRule k)
  pub applied : (k : Text) → Memᴰ k r.applied ↔ (Memᴰ k ks × ((¬ IsWired k) × (¬ IsRule k)))

elem_three_iff : (k a b c : Text) → (elem k (a ∷ b ∷ c ∷ []) ≡ true) ↔ ((k ≡ a) ⊎ (k ≡ b) ⊎ (k ≡ c))
unfolding elem
elem_three_iff k a b c = (there, back)
  where
    there : elem k (a ∷ b ∷ c ∷ []) ≡ true → (k ≡ a) ⊎ (k ≡ b) ⊎ (k ≡ c)
    there h = ground (arith, h, eq_iff a k, eq_iff b k, eq_iff c k)

    back : (k ≡ a) ⊎ (k ≡ b) ⊎ (k ≡ c) → elem k (a ∷ b ∷ c ∷ []) ≡ true
    back (inl e) = ground (arith, eq_iff a k, e)
    back (inr (inl e)) = ground (arith, eq_iff b k, e)
    back (inr (inr e)) = ground (arith, eq_iff c k, e)

needs_restart_iff : (k : Text) → (needs_restart k ≡ true) ↔ IsWired k
needs_restart_iff k = elem_three_iff k (codes "interface") (codes "socket_path") (codes "log_file")

needs_firewall_iff : (k : Text) → (needs_firewall k ≡ true) ↔ IsRule k
needs_firewall_iff k = elem_three_iff k (codes "interface") (codes "wg_conf") (codes "extra_accept")

neither_iff :
    {P Q : Type 0} (a b : Bool)
    → (a ≡ true) ↔ P
    → (b ≡ true) ↔ Q
    → ((not a && not b) ≡ true) ↔ ((¬ P) × (¬ Q))
neither_iff true b p q = (λ h. cc h, λ (no_p, _). absurd (no_p (p.0 refl)))
neither_iff false true p q = (λ h. cc h, λ (_, no_q). absurd (no_q (q.0 refl)))
neither_iff false false p q = (λ _. (λ x. cc (p.1 x), λ y. cc (q.1 y)), λ _. refl)

under : {P Q R S : Type 0} → P ↔ (Q × R) → R ↔ S → P ↔ (Q × S)
under f g = (λ p. let (m, r) = f.0 p in (m, g.0 r), λ (m, s). f.1 (m, g.1 s))

pub classify_reload-IsReported : (ks : List Text) → IsReported ks (classify_reload ks)
classify_reload-IsReported ks = record {
  restart = λ k. under (classify_reload_exact ks k).0 (needs_restart_iff k);
  firewall = λ k. under (classify_reload_exact ks k).1 (needs_firewall_iff k);
  applied = λ k. under (classify_reload_exact ks k).2 (
      neither_iff (needs_restart k) (needs_firewall k) (needs_restart_iff k)
        (needs_firewall_iff k));
}
