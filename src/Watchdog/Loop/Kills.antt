-- ===== src/Watchdog/Loop/Kills.antt =====
-- How often the daemon calls its killer, counted from the daemon's own state.
use reptile.Prelude.{
  ℤ, ℕ, ◌+◌, ◌≡◌, refl, sym, ap, ap₂, ◌∙◌, Bool, true, false, List, [], ◌∷◌, ◌++◌, arith,
  Bool-cases, inl, inr, if◌then◌else◌, ◌&&◌,
}
use reptile.Text.Defs.{Text, codes}
use reptile.Library.{Library}
use reptile.Config.{Config, Durations, durations}
use reptile.Result.{Result-cases}
use reptile.Watchdog.{WdState, Cycle}
use reptile.Watchdog.Runs.{Poll, poll_cycle, kills, one_if, kills-snoc}
use reptile.Watchdog.Loop.{
  Callbacks, Loop, running, on_beat, retune, check, log_all, act, advance, same_ℤ, repolled,
  retune_heartbeat, retune_poll, error_text, heartbeat_line,
}
use reptile.Watchdog.Loop.Refines.{
  found, Reaches, at_start, by_beat, by_tick, Reaches-state, retune_state, on_tick-eq-advance,
}

-- A count of the killer's calls: no other callback changes it.
pub record Counts {W : Type 0} (cb : Callbacks W) (count : W → ℕ) : Type 0 where
  pub by_killer : (w : W) → count (cb.killer w) ≡ count w + 1
  pub by_tunnel : (w : W) → count (cb.tunnel w).world ≡ count w
  pub by_egress : (w : W) → count (cb.egress w).world ≡ count w
  pub by_publish :
      (s : Text) (n : ℕ) (r i c : Text) (w : W) → count (cb.publish s n r i c w) ≡ count w
  pub by_logf : (t : Text) (w : W) → count (cb.logf t w) ≡ count w

module _ {W : Type 0} (lib : Library) (cb : Callbacks W) {count : W → ℕ}
    (counts : Counts cb count) where
  log_all-count : (ts : List Text) (w : W) → count (log_all lib cb ts w) ≡ count w
  unfolding log_all
  log_all-count [] w = refl
  log_all-count (t ∷ ts) w = log_all-count ts (cb.logf t w) ∙ counts.by_logf t w

  check-count : (c : Config) (w : W) → count (check lib cb c w).world ≡ count w
  unfolding check
  check-count c w = elim (Bool-cases (c.verify_egress && (cb.tunnel w).passed)) [
    | inl on ↦ rw on (counts.by_egress (cb.tunnel w).world ∙ counts.by_tunnel w)
    | inr off ↦ rw off (counts.by_tunnel w)
  ]

  killer-count : (b : Bool) (w : W) → count (if b then cb.killer w else w) ≡ one_if b + count w
  killer-count true w = omega (arith, counts.by_killer w)
  killer-count false w = omega arith

  act-count : (r : Cycle) (w : W) → count (act lib cb r w) ≡ one_if r.kill + count w
  unfolding act
  act-count r w = log_all-count r.logs _ ∙ killer-count r.kill w

  advance-count :
      (c : Config) (l : Loop W)
      → count (advance lib cb c l).world
        ≡ one_if (poll_cycle l.state (found lib cb c l.world)).kill + count l.world
  unfolding advance
  advance-count c l =
      let r = poll_cycle l.state (found lib cb c l.world) in
      counts.by_publish _ _ _ _ _ _
      ∙ act-count r (check lib cb c l.world).world
      ∙ ap (λ (n : ℕ). one_if r.kill + n) (check-count c l.world)

  retune_heartbeat-count :
      (b : ℤ) (l : Loop W) → count (retune_heartbeat lib cb b l).world ≡ count l.world
  unfolding retune_heartbeat
  retune_heartbeat-count b l = elim (Bool-cases (same_ℤ b l.heartbeat_dur)) [
    | inl same ↦ rw same
    | inr new ↦ rw new (counts.by_logf _ _)
  ]

  repolled-count : (d : Durations) (l : Loop W) → count (repolled lib cb d l).world ≡ count l.world
  unfolding repolled
  repolled-count d l = counts.by_logf _ _

  retune_poll-count :
      (d : Durations) (l : Loop W) {k : Loop W}
      → retune_poll lib cb d l ≡ running k
      → count k.world ≡ count l.world
  unfolding retune_poll
  retune_poll-count d l h = ground (
    arith,
    retune_heartbeat-count d.heartbeat l,
    retune_heartbeat-count d.heartbeat (repolled lib cb d l),
    repolled-count d l,
  )

  retune-count :
      (c : Config) (l : Loop W) {k : Loop W}
      → retune lib cb c l ≡ running k
      → count k.world ≡ count l.world
  unfolding retune
  retune-count c l {k} h = elim (Result-cases (durations lib c)) [
    | inl (e, bad) ↦ ground (
      arith,
      bad,
      counts.by_logf
          (lib.sprintf (codes "config invalid, keeping previous settings: " ++ error_text e))
          l.world,
    )
    | inr (d, good) ↦ retune_poll-count d l (rw (good, retune) at h)
  ]

  beat-count :
      (k : Loop W) {m : Loop W} → on_beat lib cb k ≡ running m → count m.world ≡ count k.world
  unfolding on_beat
  beat-count k h =
      ground
        (arith, counts.by_logf (lib.sprintf (heartbeat_line k.state (cb.proof k.world))) k.world)

  -- For a count that the killer raises by one and no other callback changes: from `l` on, by ticks
  -- and heartbeats in any order, it grows by the number of times that `cycle` kills over the polls
  -- that the ticks made.
  pub Reaches-kills :
      {l m : Loop W} {ps : List Poll}
      → Reaches lib cb l ps m
      → count m.world ≡ kills l.state ps + count l.world
  Reaches-kills at_start = unfold kills in omega arith
  Reaches-kills (by_beat {k = k} r h) = beat-count k h ∙ Reaches-kills r
  Reaches-kills {l} (by_tick {qs = qs} {k = k} t r tuned h e) =
      let c = cb.live k.world in
      let p = found lib cb c t.world in
      ap (λ (x : Loop W). count x.world) (on_tick-eq-advance lib cb k tuned h)
      ∙ advance-count c t
      ∙ ap₂ (λ (s : WdState) (n : ℕ). one_if (poll_cycle s p).kill + n)
          (retune_state lib cb c k tuned ∙ Reaches-state lib cb r)
          (retune-count c k tuned ∙ Reaches-kills r)
      ∙ omega (arith, kills-snoc l.state qs p)
      ∙ ap (λ ps. kills l.state ps + count l.world) (sym e)
