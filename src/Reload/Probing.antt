-- ===== src/Reload/Probing.antt =====
-- What the agent's probe reports.
use reptile.Prelude.{ℕ, ◌≡◌, refl, Bool, true, false, not, Bool-cases, inl, inr, if◌then◌else◌}
use reptile.Text.Defs.{codes}
use reptile.Library.{Library}
use reptile.Watchdog.{is_safe}
use reptile.Tunnel as Tunnel
use reptile.Egress as Egress
use reptile.Egress.Probe.{evaluate}
use reptile.Reload.{Store, Daemon, Probed, set_probe, probe_now}

-- A probe reports "up" exactly if a poll with the same tunnel and a fresh egress verdict would be
-- safe, else "down"; what it reports is what the store then holds, and the watchdog's streak, the
-- settings and the tunnel checker are as they were.
pub probe_now_reports :
    (lib : Library) (host : Tunnel.Host) (net : Egress.Net) (now : ℕ) (d : Daemon)
    → ((probe_now lib host net now d).status.state ≡ (
        if is_safe
          (Tunnel.check host d.tunnel).passed
          d.live.verify_egress
          (evaluate lib net true d.egress).result.passed
        then codes "up"
        else codes "down"))
      × ((probe_now lib host net now d).daemon.store ≡ (probe_now lib host net now d).status)
      × ((probe_now lib host net now d).status.streak ≡ d.store.streak)
      × ((probe_now lib host net now d).daemon.live ≡ d.live)
      × ((probe_now lib host net now d).daemon.tunnel ≡ d.tunnel)
unfolding probe_now set_probe
probe_now_reports lib host net now d = elim (Bool-cases (Tunnel.check host d.tunnel).passed) [
  | inl works ↦ elim (Bool-cases d.live.verify_egress) [
    | inl on ↦ rw (works, on) (refl, refl, refl, refl, refl)
    | inr off ↦ rw (works, off) (refl, refl, refl, refl, refl)
  ]
  | inr fails ↦ rw fails (refl, refl, refl, refl, refl)
]

-- A predicate that neither the egress checker's operations nor the store's break.
pub record Checks (lib : Library) (P : Daemon → Type 0) : Type 0 where
  pub by_evaluate :
      (net : Egress.Net) (fresh : Bool) (d : Daemon)
      → P d
      → P (record d { egress = (evaluate lib net fresh d.egress).checker })
  pub by_invalidate : (d : Daemon) → P d → P (record d { egress = Egress.invalidate d.egress })
  pub by_store : (x : Store) (d : Daemon) → P d → P (record d { store = x })

module _ {lib : Library} {P : Daemon → Type 0} (checks : Checks lib P) where
  if_probed : (p q : Probed) (b : Bool) → P p.daemon → P q.daemon → P (if b then p else q).daemon
  if_probed p q true x y = x
  if_probed p q false x y = y

  pub probe_now-Checks :
      (host : Tunnel.Host) (net : Egress.Net) (now : ℕ) (d : Daemon)
      → P d
      → P (probe_now lib host net now d).daemon
  unfolding probe_now
  probe_now-Checks host net now d s =
      if_probed _ _ (not (Tunnel.check host d.tunnel).passed)
        (checks.by_store _ _ (checks.by_invalidate d s))
        (if_probed _ _ d.live.verify_egress (checks.by_store _ _ (checks.by_evaluate net true d s))
          (checks.by_store _ d s))
