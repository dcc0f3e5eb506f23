-- ===== src/Watchdog/Loop/Tickers.antt =====
-- The event loop implements the state machine, and its tickers follow the live settings.
use reptile.Prelude.{
  List, ◌≡◌, refl, sym, ◌∙◌, true, false, ℤ, pos, leb_ℤ, arith, subst, Bool-cases, inl, inr,
}
use reptile.Library.{Library}
use reptile.Result.{ok}
use reptile.Config.{Config, Durations, durations}
use reptile.Watchdog.{fresh}
use reptile.Watchdog.Runs.{Poll}
use reptile.Watchdog.Loop.Refines.{Reaches, at_start, by_beat, by_tick}
use reptile.Watchdog.Loop.{
  Callbacks, Loop, Outcome, started_line, running, stopped, failed, panicked, same_ℤ, beat_ticker,
  start, on_done, on_beat, retune, retune_poll, retune_heartbeat, repolled, and_then, advance,
  on_tick, Step, on_context, on_heartbeat, on_ticker,
}

same_ℤ-eq : (a b : ℤ) → same_ℤ a b ≡ true → a ≡ b
same_ℤ-eq a b h = ground arith

-- The tickers run at the periods that the loop holds, the poll ticker always, the heartbeat
-- ticker exactly if its period is positive.
pub record IsTuned {W : Type 0} (l : Loop W) : Type 0 where
  pub poll_runs : l.ticker ≡ l.poll_dur
  pub poll_positive : leb_ℤ l.poll_dur (pos 0) ≡ false
  pub heartbeat_runs : l.heartbeat ≡ beat_ticker l.heartbeat_dur

module _ {W : Type 0} (lib : Library) (cb : Callbacks W) where
  pub start-IsTuned : (w : W) {l : Loop W} → start lib cb w ≡ running l → IsTuned l
  unfolding start
  start-IsTuned w h = ground arith

  pub start-fresh : (w : W) {l : Loop W} → start lib cb w ≡ running l → l.state ≡ fresh
  unfolding start
  start-fresh w h = ground arith

  -- The start only logs a line.
  pub start_logs :
      (w : W) {l : Loop W}
      → start lib cb w ≡ running l
      → l.world ≡ cb.logf (started_line (cb.live w)) w
  unfolding start
  start_logs w h = ground arith

  pub start-running :
      (w : W) {d : Durations}
      → durations lib (cb.live w) ≡ ok d
      → leb_ℤ d.poll (pos 0) ≡ false
      → (l : Loop W) × (start lib cb w ≡ running l) × (l.state ≡ fresh)
  unfolding start
  start-running w {d} h goes = (
    record {
      poll_dur = d.poll;
      ticker = d.poll;
      heartbeat_dur = d.heartbeat;
      heartbeat = beat_ticker d.heartbeat;
      state = fresh;
      world = cb.logf (started_line (cb.live w)) w;
    },
    rw (h, start, goes) refl,
    refl,
  )

  retune-IsTuned :
      (c : Config) (l : Loop W) {m : Loop W} → IsTuned l → retune lib cb c l ≡ running m → IsTuned m
  unfolding retune retune_heartbeat repolled
  retune-IsTuned c l t h = ground arith

  advance-IsTuned : (c : Config) (l : Loop W) → IsTuned l → IsTuned (advance lib cb c l)
  unfolding advance
  advance-IsTuned c l t = record {
    poll_runs = t.poll_runs;
    poll_positive = t.poll_positive;
    heartbeat_runs = t.heartbeat_runs;
  }

  pub and_then-eq-running :
      (o : Outcome W) (f : Loop W → Loop W) {m : Loop W}
      → and_then lib cb o f ≡ running m
      → (l : Loop W) × (o ≡ running l) × (f l ≡ m)
  and_then-eq-running (running l) f h = (l, refl, cc)
  and_then-eq-running (stopped w) f h = cc
  and_then-eq-running (failed e w) f h = cc
  and_then-eq-running (panicked w) f h = cc

  on_tick-IsTuned : (l : Loop W) {m : Loop W} → IsTuned l → on_tick lib cb l ≡ running m → IsTuned m
  unfolding on_tick
  on_tick-IsTuned l t h =
      let c = cb.live l.world in
      let (k, tuned, same) = and_then-eq-running (retune lib cb c l) (advance lib cb c) h in
      subst IsTuned same (advance-IsTuned c k (retune-IsTuned c l t tuned))

  -- If the poll ticker runs at the loop's period, which is positive, and the heartbeat ticker
  -- exactly at a positive one, they do so after whatever wakes the loop, if it goes on.
  pub Step-IsTuned :
      {l m : Loop W} {o : Outcome W} → IsTuned l → Step lib cb l o → o ≡ running m → IsTuned m
  unfolding on_done on_beat
  Step-IsTuned {l} t (on_context e) h = cc
  Step-IsTuned {l} t (on_heartbeat _ e) h = ground arith
  Step-IsTuned {l} t (on_ticker e) h = on_tick-IsTuned l t (sym e ∙ h)

  beat-IsTuned : (l : Loop W) {m : Loop W} → IsTuned l → on_beat lib cb l ≡ running m → IsTuned m
  unfolding on_beat
  beat-IsTuned l t h = ground arith

  pub Reaches-IsTuned :
      {l m : Loop W} {ps : List Poll} → IsTuned l → Reaches lib cb l ps m → IsTuned m
  Reaches-IsTuned t at_start = t
  Reaches-IsTuned t (by_beat {k = k} r h) = beat-IsTuned k (Reaches-IsTuned t r) h
  Reaches-IsTuned t (by_tick {k = k} _ r _ h _) = on_tick-IsTuned k (Reaches-IsTuned t r) h

  -- A tick that goes on has retuned the tickers.
  pub on_tick-retuned :
      (k : Loop W) {m : Loop W}
      → on_tick lib cb k ≡ running m
      → (t : Loop W) × (retune lib cb (cb.live k.world) k ≡ running t)
  unfolding on_tick
  on_tick-retuned k h =
      let c = cb.live k.world in
      let (t, tuned, _) = and_then-eq-running (retune lib cb c k) (advance lib cb c) h in (t, tuned)

  retune_heartbeat_follows :
      (b : ℤ) (l : Loop W)
      → l.heartbeat ≡ beat_ticker l.heartbeat_dur
      → ((retune_heartbeat lib cb b l).ticker ≡ l.ticker)
        × ((retune_heartbeat lib cb b l).heartbeat ≡ beat_ticker b)
  unfolding retune_heartbeat
  retune_heartbeat_follows b l t = elim (Bool-cases (same_ℤ b l.heartbeat_dur)) [
    | inl same ↦ rw same (refl, rw (same_ℤ-eq b l.heartbeat_dur same) t)
    | inr new ↦ rw new (refl, refl)
  ]

  retune_poll_follows :
      (l : Loop W) (d : Durations)
      → IsTuned l
      → leb_ℤ d.poll (pos 0) ≡ false
      → (k : Loop W) × (retune_poll lib cb d l ≡ running k)
        × (k.ticker ≡ d.poll)
        × (k.heartbeat ≡ beat_ticker d.heartbeat)
  unfolding retune_poll repolled
  retune_poll_follows l d t p = elim (Bool-cases (same_ℤ d.poll l.poll_dur)) [
    | inl same ↦
        let (kept, beats) = retune_heartbeat_follows d.heartbeat l t.heartbeat_runs in
        (
          retune_heartbeat lib cb d.heartbeat l,
          rw same,
          kept ∙ t.poll_runs ∙ sym (same_ℤ-eq d.poll l.poll_dur same),
          beats,
        )
    | inr new ↦
        let k = repolled lib cb d l in
        let (kept, beats) = retune_heartbeat_follows d.heartbeat k t.heartbeat_runs in
        (retune_heartbeat lib cb d.heartbeat k, rw (new, p), kept, beats)
  ]

  retune_follows :
      (c : Config) (l : Loop W) {d : Durations}
      → IsTuned l
      → durations lib c ≡ ok d
      → leb_ℤ d.poll (pos 0) ≡ false
      → (k : Loop W) × (retune lib cb c l ≡ running k)
        × (k.ticker ≡ d.poll)
        × (k.heartbeat ≡ beat_ticker d.heartbeat)
  unfolding retune
  retune_follows c l {d} t e p = rw (e, retune) (retune_poll_follows l d t p)

  -- From a loop whose tickers are in tune, a tick at which the live durations parse, with a
  -- positive poll interval, goes on without a panic, and afterwards the tickers run at those
  -- durations.
  pub on_tick_follows :
      (l : Loop W) {d : Durations}
      → IsTuned l
      → durations lib (cb.live l.world) ≡ ok d
      → leb_ℤ d.poll (pos 0) ≡ false
      → (m : Loop W) × (on_tick lib cb l ≡ running m)
        × (m.ticker ≡ d.poll)
        × (m.heartbeat ≡ beat_ticker d.heartbeat)
  unfolding on_tick advance
  on_tick_follows l {d} t e p =
      let c = cb.live l.world in
      let (k, tuned, polls, beats) = retune_follows c l t e p in
      (advance lib cb c k, rw tuned, polls, beats)
