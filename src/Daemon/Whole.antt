-- ===== src/Daemon/Whole.antt =====
-- `runDaemon` of internal/app/main.go from its first line, on a machine whose processes are those
-- of /proc.
use reptile.Prelude.{ℕ, Bool, ◌≡◌, refl, ap, ◌∙◌, ◌↔◌, inl, inr, List}
use mathlib.Core.List.{Memᴰ}
use reptile.Text.Defs.{Text}
use reptile.Library.{Library}
use reptile.Result.{Result, ok}
use reptile.Config.{Config}
use reptile.Config.Validate.{validate}
use reptile.Config.File.{Codec}
use reptile.Watchdog.Runs.{Poll}
use reptile.Watchdog.Loop.{Loop, running, start, retune, on_tick}
use reptile.Watchdog.Loop.Refines.{found, Reaches}
use reptile.Killer.{Process}
use reptile.Killer.Listing.{Entry, IsListed, processes_of, list_processes, list_processes-IsListed}
use reptile.Agent.{Wire}
use reptile.Agent.Listening.{Socket}
use reptile.Daemon.{World, Env, callbacks}
use reptile.Daemon.Logging.{LogFile}
use reptile.Daemon.Launch.{Launched, launch, launch-cases}
use reptile.Daemon.Enforces.{checked, IsEnforced}
use reptile.Daemon.Verdicts.{IsObserved, found-IsObserved}
use reptile.Daemon.Serving.{Request, with_requests}
use reptile.Daemon.Lifetime.{start_daemon}
use reptile.Daemon.Switch.{daemon_enforces}

launch-started :
    {K : Type 0} (socket : Socket K) (lib : Library) (f : LogFile) (stat : Result Text Bool)
    (c : Config) (k : K) {x : Launched K}
    → validate lib c ≡ ok tt
    → launch socket lib f stat c k ≡ ok x
    → start_daemon lib c ≡ ok x.started
launch-started {K} socket lib f stat c k {x} valid launches =
    elim (launch-cases socket lib f stat c k valid) [
      | inl l ↦
          let same : l.launched ≡ x = cc (launches, l.succeeds) in
          l.starts ∙ ap (λ (y : Launched K). ok y.started) same
      | inr (inl l) ↦ absurd (cc (launches, l.fails))
      | inr (inr l) ↦ absurd (cc (launches, l.fails))
    ]

module _ (lib : Library) (codec : Codec) (wire : Wire) (outer : Env) (rs : ℕ → List Request) where
  abbrev env : Env
  env = with_requests lib codec wire outer rs

  -- Where /proc can always be read: once `runDaemon` has come to the watchdog with a valid
  -- configuration, after ticks and heartbeats in any order, with any requests of clients one at a
  -- time between two actions, the next tick goes on, and it calls the killer exactly if the polls
  -- end in an outage as long as the live threshold; then SIGTERM is sent exactly to the processes
  -- that the live settings name of those whose number is a name in /proc and whose `comm` could be
  -- read. In each poll, whatever its settings and the state it is made in, the tunnel passes exactly
  -- if at that step `wg show` answers with some peer whose handshake time is positive and at most
  -- the maximal age of the tunnel checker ago; and the exit passes exactly if it is to be verified,
  -- the tunnel passes and, a step later, the egress checker either keeps a good verdict younger than
  -- its time to live, or keeps none so young and what it fetches then is good.
  pub launched_enforces :
      {K : Type 0} (socket : Socket K) (f : LogFile) (stat : Result Text Bool) (c : Config) (k₀ : K)
      {x : Launched K} {l k : Loop World} {ps : List Poll} (entries : ℕ → List Entry)
      → validate lib c ≡ ok tt
      → launch socket lib f stat c k₀ ≡ ok x
      → start lib (callbacks lib env x.started.initial) x.started.world ≡ running l
      → Reaches lib (callbacks lib env x.started.initial) l ps k
      → ((n : ℕ) → (outer.system n).listed ≡ list_processes (ok (entries n)))
      → (t : Loop World) × (m : Loop World) × (es : List Entry) × (retune lib
            (callbacks lib env x.started.initial)
            k.world.shared.live
            k
          ≡ running t)
        × (on_tick lib (callbacks lib env x.started.initial) k ≡ running m)
        × (es ≡ entries (checked lib env x.started.initial k.world.shared.live t).step)
        × IsEnforced lib env x.started.initial ps k t m (processes_of es)
        × ((p : Process) → Memᴰ p (processes_of es) ↔ IsListed es p)
        × ((c' : Config) (w : World)
            → IsObserved lib env x.started.initial c' w
                (found lib (callbacks lib env x.started.initial) c' w))
  unfolding list_processes
  launched_enforces socket f stat c k₀ {x} {l} {k} {ps} entries valid launches runs r listed =
      let begun = launch-started socket lib f stat c k₀ valid launches in
      let (t, m, tuned, ticks, enforced) =
        daemon_enforces lib codec wire outer rs c (λ n. processes_of (entries n)) valid begun runs r
          listed in
      let es = entries (checked lib env x.started.initial k.world.shared.live t).step in
      (
        t,
        m,
        es,
        tuned,
        ticks,
        refl,
        enforced,
        list_processes-IsListed es,
        λ c' w. found-IsObserved lib env x.started.initial c' w,
      )
