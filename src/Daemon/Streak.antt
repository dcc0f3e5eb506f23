-- ===== src/Daemon/Streak.antt =====
-- The streak that clients are told is the watchdog's, whatever they ask.
use reptile.Prelude.{arith, ℕ, ◌≡◌, refl, sym, ap, ◌∙◌, subst, List}
use reptile.Text.Defs.{Text, codes}
use reptile.Library.{Library}
use reptile.Result.{ok}
use reptile.Config.{Config, Durations}
use reptile.Config.File.{Codec, Disk}
use reptile.Watchdog.{WdState}
use reptile.Watchdog.Runs.{Poll, poll_cycle}
use reptile.Watchdog.Loop.{Loop, running, on_beat, advance, start}
use reptile.Watchdog.Loop.Refines.{
  Reaches, at_start, by_beat, by_tick, found, on_beat_logs, on_tick-eq-advance,
}
use reptile.Watchdog.Loop.Tickers.{start-fresh, start_logs}
use reptile.Reload.{reload, probe_now, apply_loaded, apply_egress, apply_tunnel}
use reptile.Reload as Reload
use reptile.Reload.Probing.{probe_now_reports}
use reptile.Agent.{Status, Wire, snapshot, query}
use reptile.Agent.Protocol.{Carries, connected, served, query-status}
use reptile.Daemon.{World, Env, next, log, publish, logf, callbacks}
use reptile.Daemon.Requests.{Scene, hooks}
use reptile.Daemon.Serving.{Answers, Request, with_requests, serve_all-Answers}
use reptile.Daemon.Lifetime.{Started, start_daemon}

-- The store holds the streak.
abbrev HasStreak : ℕ → Reload.Daemon → Type 0
HasStreak n d = d.store.streak ≡ n

module _ (lib : Library) where
  reload_store :
      (codec : Codec) (path : Text) (disk : Disk) (d : Reload.Daemon)
      → (reload lib codec path disk d).daemon.store ≡ d.store
  unfolding reload apply_loaded apply_egress apply_tunnel
  reload_store codec path disk d = ground arith

  HasStreak-Answers : (n : ℕ) → Answers lib (HasStreak n)
  HasStreak-Answers n = record {
    by_probe = λ host net now d h.
        let (_, stored, kept, _, _) = probe_now_reports lib host net now d in
        ap (λ (s : Reload.Store). s.streak) stored ∙ kept ∙ h;
    by_reload = λ codec path disk d h.
        ap (λ (s : Reload.Store). s.streak) (reload_store codec path disk d) ∙ h;
  }

module _ (lib : Library) (codec : Codec) (wire : Wire) (outer : Env) (rs : ℕ → List Request) where
  abbrev env : Env
  env = with_requests lib codec wire outer rs

  next-HasStreak : (n : ℕ) (w : World) → HasStreak n w.shared → HasStreak n (next env w).shared
  unfolding next
  next-HasStreak n w h =
      serve_all-Answers lib codec wire (HasStreak-Answers lib n) (rs w.step) w.shared h

  beat-HasStreak :
      (initial : Durations) (k : Loop World) {m : Loop World}
      → HasStreak k.state.streak k.world.shared
      → on_beat lib (callbacks lib env initial) k ≡ running m
      → HasStreak m.state.streak m.world.shared
  unfolding logf log
  beat-HasStreak initial k h e =
      subst (λ (x : Loop World). HasStreak x.state.streak x.world.shared)
        (sym (on_beat_logs lib (callbacks lib env initial) k e)) (next-HasStreak k.state.streak _ h)

  advance-HasStreak :
      (initial : Durations) (c : Config) (t : Loop World)
      → HasStreak
          (advance lib (callbacks lib env initial) c t).state.streak
          (advance lib (callbacks lib env initial) c t).world.shared
  unfolding advance publish Reload.set
  advance-HasStreak initial c t =
      let cb = callbacks lib env initial in
      next-HasStreak (poll_cycle t.state (found lib cb c t.world)).state.streak _ refl

  start-HasStreak :
      (initial : Durations) (w : World) {l : Loop World}
      → HasStreak 0 w.shared
      → start lib (callbacks lib env initial) w ≡ running l
      → HasStreak l.state.streak l.world.shared
  unfolding logf log
  start-HasStreak initial w h e =
      let cb = callbacks lib env initial in
      let kept = next-HasStreak 0 _ h in
      ap (λ (x : World). x.shared.store.streak) (start_logs lib cb w e)
      ∙ kept
      ∙ ap (λ (x : WdState). x.streak) (sym (start-fresh lib cb w e))

  Reaches-HasStreak :
      (initial : Durations) {l m : Loop World} {ps : List Poll}
      → HasStreak l.state.streak l.world.shared
      → Reaches lib (callbacks lib env initial) l ps m
      → HasStreak m.state.streak m.world.shared
  Reaches-HasStreak initial h at_start = h
  Reaches-HasStreak initial h (by_beat {k = k} r e) =
      beat-HasStreak initial k (Reaches-HasStreak initial h r) e
  Reaches-HasStreak initial h (by_tick {k = k} t r tuned e _) =
      subst (λ (x : Loop World). HasStreak x.state.streak x.world.shared)
        (sym (on_tick-eq-advance lib (callbacks lib env initial) k tuned e))
        (advance-HasStreak initial k.world.shared.live t)

  started_streak :
      (c : Config) {s : Started} → start_daemon lib c ≡ ok s → HasStreak 0 s.world.shared
  unfolding start_daemon
  started_streak c h = ground (arith, h)

  -- From the start, after ticks and heartbeats in any order, with any requests of clients one at a
  -- time between two actions: where JSON carries the messages, a client's "status" brings the
  -- streak of the watchdog, and changes nothing.
  pub Reaches-query :
      (c : Config) {s : Started} {l m : Loop World} {ps : List Poll} (scene : Scene)
      → start_daemon lib c ≡ ok s
      → start lib (callbacks lib env s.initial) s.world ≡ running l
      → Reaches lib (callbacks lib env s.initial) l ps m
      → Carries wire
          (codes "status")
          (served lib wire (hooks lib codec wire scene) m.world.shared (codes "status")).response
      → (st : Status) × (query wire
            (connected lib wire (hooks lib codec wire scene) m.world.shared)
            (codes "status")
          ≡ ok st)
        × (st.streak ≡ m.state.streak)
        × ((served lib wire (hooks lib codec wire scene) m.world.shared (codes "status")).world
            ≡ m.world.shared)
  unfolding snapshot
  Reaches-query c {s} {l} {m} scene begun runs r carries =
      let h =
        Reaches-HasStreak s.initial
          (start-HasStreak s.initial s.world (started_streak c begun) runs) r in
      let (answer, same) =
        query-status lib wire (hooks lib codec wire scene) m.world.shared carries in
      (snapshot wire m.world.shared.store, answer, h, same)
