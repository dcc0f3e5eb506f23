-- ===== src/Daemon/Switch.antt =====
-- The kill switch of the daemon as a whole: what its ticks do, from the start on.
use reptile.Prelude.{ℕ, ◌≤◌, ◌≡◌, List, pos_part, ℤ, subst, sym}
use reptile.Library.{Library}
use reptile.Result.{ok}
use reptile.Config.{Config}
use reptile.Config.Validate.{validate}
use reptile.Config.File.{Codec}
use reptile.Watchdog.Runs.{Poll}
use reptile.Watchdog.Loop.{Loop, running, start, retune, on_tick}
use reptile.Watchdog.Loop.Refines.{Reaches}
use reptile.Watchdog.Loop.Tickers.{start-fresh, on_tick-retuned}
use reptile.Killer.{Process}
use reptile.Agent.{Wire}
use reptile.Daemon.{World, Env, callbacks}
use reptile.Daemon.Enforces.{checked, IsEnforced, tick_enforces}
use reptile.Daemon.Serving.{Request, with_requests}
use reptile.Daemon.Lifetime.{Started, start_daemon, Reaches-IsSteady}

module _ (lib : Library) (codec : Codec) (wire : Wire) (outer : Env) (rs : ℕ → List Request) where
  abbrev env : Env
  env = with_requests lib codec wire outer rs

  -- Where the processes can always be listed: from the start with a valid configuration, after
  -- ticks and heartbeats in any order, with any requests of clients one at a time between two
  -- actions, the next tick goes on, and it calls the killer exactly if the polls end in an outage
  -- as long as the live threshold; then exactly the listed processes that the live settings name
  -- are sent SIGTERM.
  pub daemon_enforces :
      (c : Config) {s : Started} {l k : Loop World} {ps : List Poll} (procs : ℕ → List Process)
      → validate lib c ≡ ok tt
      → start_daemon lib c ≡ ok s
      → start lib (callbacks lib env s.initial) s.world ≡ running l
      → Reaches lib (callbacks lib env s.initial) l ps k
      → ((n : ℕ) → (outer.system n).listed ≡ ok (procs n))
      → (t : Loop World) × (m : Loop World) × (retune lib
            (callbacks lib env s.initial)
            k.world.shared.live
            k
          ≡ running t)
        × (on_tick lib (callbacks lib env s.initial) k ≡ running m)
        × IsEnforced lib env s.initial ps k t m
            (procs (checked lib env s.initial k.world.shared.live t).step)
  daemon_enforces c {s} {l} {k} {ps} procs valid begun runs r listed =
      let cb = callbacks lib env s.initial in
      let (steady, _, m, _, ticks, _, _) =
        Reaches-IsSteady lib codec wire outer rs c valid begun runs r in
      let (t, tuned) = on_tick-retuned lib cb k ticks in
      let (same, one) = steady.valid.polls_positive in
      (
        t,
        m,
        tuned,
        ticks,
        tick_enforces lib env s.initial (start-fresh lib cb s.world runs) r tuned ticks
            (subst (λ (z : ℤ). 1 ≤ pos_part z) (sym same) one)
            (listed (checked lib env s.initial k.world.shared.live t).step),
      )
