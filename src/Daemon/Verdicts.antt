-- ===== src/Daemon/Verdicts.antt =====
-- The polls of the daemon: what the callbacks `tunnel` and `egress` of `runDaemon` in
-- internal/app/main.go report to `runWatchdog`.
use reptile.Prelude.{
  none, some, if◌then◌else◌, ◌≡◌, refl, ap, ◌∙◌, sym, ◌↔◌, inl, inr, Bool, true, false, ◌&&◌, sub_ℕ,
  ltb_ℤ, arith, Bool-cases,
}
use reptile.Library.{Library}
use reptile.Config.{Config, Durations}
use reptile.Tunnel as Tunnel
use reptile.Tunnel.Liveness.{IsShaken, check_passes}
use reptile.Text.Defs.{is_empty}
use reptile.Egress as Egress
use reptile.Egress.Probe.{use_cache, from_cache, settle, evaluate}
use reptile.Egress.Sound.{IsProven, probe_passes_iff}
use reptile.Watchdog.Runs.{Poll}
use reptile.Watchdog.Loop.{check}
use reptile.Watchdog.Loop.Refines.{found}
use reptile.Daemon.{World, Env, next, tunnel, egress, callbacks}

-- The verdict that is kept is younger than its time to live.
abbrev pub is_recent : Egress.Net → Egress.Checker → Bool
is_recent net e = e.set && ltb_ℤ (sub_ℕ net.now e.ts) e.ttl

-- A recent verdict is kept and is good, or none is and what is fetched now is good.
pub data IsVouched (lib : Library) (net : Egress.Net) (e : Egress.Checker) : Type 0 where
  kept : is_recent net e ≡ true → e.verdict ≡ true → IsVouched lib net e
  fetched : is_recent net e ≡ false → IsProven lib net e → IsVouched lib net e

evaluate_passes_iff :
    (lib : Library) (net : Egress.Net) (e : Egress.Checker)
    → ((evaluate lib net false e).result.passed ≡ true) ↔ IsVouched lib net e
unfolding evaluate use_cache from_cache settle
evaluate_passes_iff lib net e = elim (Bool-cases (is_recent net e)) [
  | inl young ↦ (
    λ h. kept young (rw (young) at h),
    λ v. elim v [ kept _ good ↦ rw (young) good | fetched old _ ↦ absurd (cc (young, old)) ],
  )
  | inr old ↦ (
    λ h. fetched old ((probe_passes_iff lib net e).0 (rw (old) at h)),
    λ v. elim v [
      | kept young _ ↦ absurd (cc (young, old))
      | fetched _ proven ↦ rw (old) ((probe_passes_iff lib net e).1 proven)
    ],
  )
]

module _ (lib : Library) (env : Env) (initial : Durations) where
  -- A poll with the settings `c` in the state `w`: the tunnel passes exactly if, at that step, `wg
  -- show` answers with a handshake that is recent for the tunnel checker; the exit passes exactly if
  -- it is to be verified, the tunnel passes and the egress checker vouches for it at the step after.
  pub record IsObserved (c : Config) (w : World) (p : Poll) : Type 0 where
    pub tunnel_ok :
        (p.tunnel_ok ≡ true)
        ↔ IsShaken
            ((env.host w.step).wg_dump
              (if is_empty w.shared.tunnel.ping_target
                then none
                else some w.shared.tunnel.ping_target)
              w.shared.tunnel.iface)
            (env.host w.step).now
            (Tunnel.whole_seconds w.shared.tunnel.max_age)
    pub verify : p.verify ≡ c.verify_egress
    pub egress_ok : (p.egress_ok ≡ true) ↔ (
        (c.verify_egress ≡ true)
        × (p.tunnel_ok ≡ true)
        × IsVouched lib (env.net (next env w).step) (next env w).shared.egress)
    pub down_cycles : p.down_cycles ≡ c.down_cycles_to_kill

  tunnel_passed :
      (w : World) → (tunnel env w).passed ≡ (Tunnel.check (env.host w.step) w.shared.tunnel).passed
  unfolding tunnel
  tunnel_passed w = ground arith

  tunnel_world :
      (w : World)
      → (Tunnel.check (env.host w.step) w.shared.tunnel).passed ≡ true
      → (tunnel env w).world ≡ next env w
  unfolding tunnel
  tunnel_world w h = rw h refl

  egress_passes_iff :
      (w : World)
      → ((egress lib env w).passed ≡ true) ↔ IsVouched lib (env.net w.step) w.shared.egress
  unfolding egress
  egress_passes_iff w = evaluate_passes_iff lib (env.net w.step) w.shared.egress

  found_verdict :
      (c : Config) (w : World)
      → (found lib (callbacks lib env initial) c w).egress_ok ≡ (
          (c.verify_egress && (tunnel env w).passed)
          && (egress lib env (tunnel env w).world).passed)
  unfolding check
  found_verdict c w = ground arith

  found_tunnel :
      (c : Config) (w : World)
      → (found lib (callbacks lib env initial) c w).tunnel_ok
        ≡ (Tunnel.check (env.host w.step) w.shared.tunnel).passed
  unfolding check
  found_tunnel c w = ground (arith, tunnel_passed w)

  pub found-IsObserved :
      (c : Config) (w : World) → IsObserved c w (found lib (callbacks lib env initial) c w)
  found-IsObserved c w =
      let iff = check_passes (env.host w.step) w.shared.tunnel in
      record {
        tunnel_ok = (λ h. iff.0 (sym (found_tunnel c w) ∙ h), λ l. found_tunnel c w ∙ iff.1 l);
        verify = refl;
        egress_ok = (there, back);
        down_cycles = refl;
      }
    where
      there :
          (found lib (callbacks lib env initial) c w).egress_ok ≡ true
          → (c.verify_egress ≡ true)
            × ((found lib (callbacks lib env initial) c w).tunnel_ok ≡ true)
            × IsVouched lib (env.net (next env w).step) (next env w).shared.egress
      there h =
          let all = sym (found_verdict c w) ∙ h in
          let live : (Tunnel.check (env.host w.step) w.shared.tunnel).passed ≡ true =
            ground (arith, all, tunnel_passed w) in
          let proven : (egress lib env (tunnel env w).world).passed ≡ true = ground (arith, all) in
          (
            ground (arith, all),
            found_tunnel c w ∙ live,
            (egress_passes_iff (next env w)).0 (
                ap (λ (x : World). (egress lib env x).passed) (sym (tunnel_world w live)) ∙ proven),
          )

      back :
          (c.verify_egress ≡ true)
            × ((found lib (callbacks lib env initial) c w).tunnel_ok ≡ true)
            × IsVouched lib (env.net (next env w).step) (next env w).shared.egress
          → (found lib (callbacks lib env initial) c w).egress_ok ≡ true
      back (on, passes, vouched) =
          let live = sym (found_tunnel c w) ∙ passes in
          let proven : (egress lib env (tunnel env w).world).passed ≡ true =
            ap (λ (x : World). (egress lib env x).passed) (tunnel_world w live)
            ∙ (egress_passes_iff (next env w)).1 vouched in
          found_verdict c w ∙ ground (arith, on, live, proven, tunnel_passed w)
