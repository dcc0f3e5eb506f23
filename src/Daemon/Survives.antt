-- ===== src/Daemon/Survives.antt =====
-- What requests and the checkers keep of the shared state, the daemon's callbacks keep.
use reptile.Prelude.{ℕ, ◌≡◌, sym, subst, inl, inr, List, arith, false, Bool-cases}
use reptile.Library.{Library}
use reptile.Config.{Durations}
use reptile.Config.File.{Codec, Disk}
use reptile.Text.Defs.{Text}
use reptile.Watchdog.Loop.Keeps.{Keeps}
use reptile.Tunnel as Tunnel
use reptile.Reload.{reload}
use reptile.Reload.Probing.{Checks, probe_now-Checks}
use reptile.Reload as Reload
use reptile.Agent.{Wire}
use reptile.Killer.{Killed, kill_targets}
use reptile.Daemon.{
  World, Env, next, log, incomplete, killer, tunnel, egress, publish, logf, callbacks,
}
use reptile.Daemon.Serving.{Answers, Request, with_requests, serve_all-Answers}

-- A predicate on the shared state that nothing in the daemon breaks.
pub record Survives (lib : Library) (P : Reload.Daemon → Type 0) : Type 0 where
  pub checks : Checks lib P
  pub by_reload :
      (codec : Codec) (path : Text) (disk : Disk) (d : Reload.Daemon)
      → P d
      → P (reload lib codec path disk d).daemon

pub Survives-Answers : {lib : Library} {P : Reload.Daemon → Type 0} → Survives lib P → Answers lib P
Survives-Answers s = record {
  by_probe = λ host net now d. probe_now-Checks s.checks host net now d;
  by_reload = s.by_reload;
}

module _ (lib : Library) (codec : Codec) (wire : Wire) (outer : Env) (rs : ℕ → List Request)
    {P : Reload.Daemon → Type 0} (survives : Survives lib P) where
  abbrev env : Env
  env = with_requests lib codec wire outer rs

  next-Survives : (w : World) → P w.shared → P (next env w).shared
  unfolding next
  next-Survives w s =
      serve_all-Answers lib codec wire (Survives-Answers survives) (rs w.step) w.shared s

  tunnel-Survives : (w : World) → P w.shared → P (tunnel env w).world.shared
  unfolding tunnel
  tunnel-Survives w s =
      let s1 = next-Survives w s in
      elim (Bool-cases (Tunnel.check (env.host w.step) w.shared.tunnel).passed) [
        | inl up ↦ rw up s1
        | inr down ↦
            rw down (next-Survives _ (survives.checks.by_invalidate (next env w).shared s1))
      ]

  egress-Survives : (w : World) → P w.shared → P (egress lib env w).world.shared
  unfolding egress
  egress-Survives w s =
      next-Survives _ (survives.checks.by_evaluate (env.net w.step) false w.shared s)

  incomplete-shared : (k : Killed) (w : World) → (incomplete k w).shared ≡ w.shared
  unfolding incomplete log
  incomplete-shared k w = ground arith

  killer-Survives :
      (initial : Durations) (w : World) → P w.shared → P (killer lib env initial w).shared
  unfolding killer
  killer-Survives initial w s =
      let k = kill_targets (env.system w.step) w.shared.live.targets in
      next-Survives _ (subst P (sym (incomplete-shared k _)) s)

  pub callbacks-Keeps :
      (initial : Durations) → Keeps (callbacks lib env initial) (λ (w : World). P w.shared)
  unfolding publish logf log
  callbacks-Keeps initial = record {
    by_killer = killer-Survives initial;
    by_tunnel = tunnel-Survives;
    by_egress = egress-Survives;
    by_publish = λ state n r i c w s. next-Survives _ (survives.checks.by_store _ w.shared s);
    by_logf = λ t w s. next-Survives _ s;
  }
