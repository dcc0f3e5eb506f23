-- ===== src/Watchdog/Loop/Keeps.antt =====
-- What every callback keeps of the daemon's state, the event loop keeps.
use reptile.Prelude.{
  ℕ, subst, Bool, true, false, ◌&&◌, List, [], ◌∷◌, ℤ, pos, leb_ℤ, Bool-cases, inl, inr,
  if◌then◌else◌,
}
use reptile.Text.Defs.{Text}
use reptile.Library.{Library}
use reptile.Result.{Result-cases}
use reptile.Config.{Config, Durations, durations}
use reptile.Watchdog.{Cycle}
use reptile.Watchdog.Runs.{Poll, poll_cycle}
use reptile.Watchdog.Loop.{
  Callbacks, Loop, Outcome, running, stopped, failed, panicked, same_ℤ, start, on_beat,
  retune_heartbeat, repolled, retune_poll, retune, check, log_all, act, advance, and_then, on_tick,
}
use reptile.Watchdog.Loop.Refines.{found, Reaches, at_start, by_beat, by_tick}

-- A predicate on the state of the daemon that no callback breaks.
pub record Keeps {W : Type 0} (cb : Callbacks W) (P : W → Type 0) : Type 0 where
  pub by_killer : (w : W) → P w → P (cb.killer w)
  pub by_tunnel : (w : W) → P w → P (cb.tunnel w).world
  pub by_egress : (w : W) → P w → P (cb.egress w).world
  pub by_publish : (s : Text) (n : ℕ) (r i c : Text) (w : W) → P w → P (cb.publish s n r i c w)
  pub by_logf : (t : Text) (w : W) → P w → P (cb.logf t w)

-- The predicate of the state that an outcome holds.
abbrev pub Holds : {W : Type 0} → (W → Type 0) → Outcome W → Type 0
Holds P (running l) = P l.world
Holds P (stopped w) = P w
Holds P (failed e w) = P w
Holds P (panicked w) = P w

module _ {W : Type 0} (lib : Library) (cb : Callbacks W) {P : W → Type 0} (keeps : Keeps cb P) where
  log_all-Keeps : (ts : List Text) (w : W) → P w → P (log_all lib cb ts w)
  unfolding log_all
  log_all-Keeps [] w p = p
  log_all-Keeps (t ∷ ts) w p = log_all-Keeps ts _ (keeps.by_logf t w p)

  check-Keeps : (c : Config) (w : W) → P w → P (check lib cb c w).world
  unfolding check
  check-Keeps c w p = elim (Bool-cases (c.verify_egress && (cb.tunnel w).passed)) [
    | inl on ↦ rw on (keeps.by_egress _ (keeps.by_tunnel w p))
    | inr off ↦ rw off (keeps.by_tunnel w p)
  ]

  if_killed : (b : Bool) (w : W) → P w → P (if b then cb.killer w else w)
  if_killed true w p = keeps.by_killer w p
  if_killed false w p = p

  act-Keeps : (r : Cycle) (w : W) → P w → P (act lib cb r w)
  unfolding act
  act-Keeps r w p = log_all-Keeps r.logs _ (if_killed r.kill w p)

  advance-Keeps : (c : Config) (l : Loop W) → P l.world → P (advance lib cb c l).world
  unfolding advance
  advance-Keeps c l p =
      keeps.by_publish _ _ _ _ _ _
        (act-Keeps (poll_cycle l.state (found lib cb c l.world)) _ (check-Keeps c l.world p))

  retune_heartbeat-Keeps : (b : ℤ) (l : Loop W) → P l.world → P (retune_heartbeat lib cb b l).world
  unfolding retune_heartbeat
  retune_heartbeat-Keeps b l p = elim (Bool-cases (same_ℤ b l.heartbeat_dur)) [
    | inl same ↦ rw same p
    | inr new ↦ rw new (keeps.by_logf _ _ p)
  ]

  retune_poll-Keeps : (d : Durations) (l : Loop W) → P l.world → Holds P (retune_poll lib cb d l)
  unfolding retune_poll repolled
  retune_poll-Keeps d l p = elim (Bool-cases (same_ℤ d.poll l.poll_dur)) [
    | inl same ↦ rw same (retune_heartbeat-Keeps d.heartbeat l p)
    | inr new ↦ elim (Bool-cases (leb_ℤ d.poll (pos 0))) [
      | inl bad ↦ rw (new, bad) p
      | inr good ↦
          rw (new, good)
            (retune_heartbeat-Keeps d.heartbeat (repolled lib cb d l) (keeps.by_logf _ _ p))
    ]
  ]

  retune-Keeps : (c : Config) (l : Loop W) → P l.world → Holds P (retune lib cb c l)
  unfolding retune
  retune-Keeps c l p = elim (Result-cases (durations lib c)) [
    | inl (e, bad) ↦ rw (bad, retune) (keeps.by_logf _ _ p)
    | inr (d, good) ↦ rw (good, retune) (retune_poll-Keeps d l p)
  ]

  and_then-Keeps :
      (o : Outcome W) (f : Loop W → Loop W)
      → ((l : Loop W) → P l.world → P (f l).world)
      → Holds P o
      → Holds P (and_then lib cb o f)
  and_then-Keeps (running l) f k p = k l p
  and_then-Keeps (stopped w) f k p = p
  and_then-Keeps (failed e w) f k p = p
  and_then-Keeps (panicked w) f k p = p

  pub on_tick-Keeps : (l : Loop W) → P l.world → Holds P (on_tick lib cb l)
  unfolding on_tick
  on_tick-Keeps l p =
      let c = cb.live l.world in
      and_then-Keeps (retune lib cb c l) (advance lib cb c) (advance-Keeps c) (retune-Keeps c l p)

  pub on_beat-Keeps : (l : Loop W) → P l.world → Holds P (on_beat lib cb l)
  unfolding on_beat
  on_beat-Keeps l p = keeps.by_logf _ _ p

  pub start-Keeps : (w : W) → P w → Holds P (start lib cb w)
  unfolding start
  start-Keeps w p = elim (Result-cases (durations lib (cb.live w))) [
    | inl (e, bad) ↦ rw (bad, start) p
    | inr (d, good) ↦ elim (Bool-cases (leb_ℤ d.poll (pos 0))) [
      | inl never ↦ rw (good, start, never) (keeps.by_logf _ _ p)
      | inr goes ↦ rw (good, start, goes) (keeps.by_logf _ _ p)
    ]
  ]

  -- The predicate stays, whatever wakes the loop.
  pub Reaches-Keeps :
      {l m : Loop W} {ps : List Poll} → P l.world → Reaches lib cb l ps m → P m.world
  Reaches-Keeps p at_start = p
  Reaches-Keeps p (by_beat {k = k} r h) = subst (Holds P) h (on_beat-Keeps k (Reaches-Keeps p r))
  Reaches-Keeps p (by_tick {k = k} t r tuned h e) =
      subst (Holds P) h (on_tick-Keeps k (Reaches-Keeps p r))
