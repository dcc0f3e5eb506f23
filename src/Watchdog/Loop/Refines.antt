-- ===== src/Watchdog/Loop/Refines.antt =====
-- The event loop implements the state machine `cycle`: its state and its kills over a history
-- are those of the polls that its ticks made.
use reptile.Prelude.{◌≡◌, refl, sym, ap, ◌∙◌, List, [], ◌∷◌, ◌++◌, arith}
use reptile.Library.{Library}
use reptile.Config.{Config}
use reptile.Watchdog.{WdState}
use reptile.Watchdog.Runs.{Poll, poll_cycle, run, run-append}
use reptile.Watchdog.Loop.{
  Callbacks, Loop, heartbeat_line, running, on_beat, retune, retune_heartbeat, repolled, check,
  advance, on_tick,
}

module _ {W : Type 0} (lib : Library) (cb : Callbacks W) where
  -- What a tick finds, at its settings, once the tickers are retuned.
  abbrev pub found : Config → W → Poll
  found c w =
      let f = check lib cb c w in
      record {
        tunnel_ok = f.tunnel_ok;
        reason = f.reason;
        verify = c.verify_egress;
        egress_ok = f.egress_ok;
        down_cycles = c.down_cycles_to_kill;
      }

  -- The loop gets from `l` to `m`, and its ticks make the polls `ps`.
  pub data Reaches (l : Loop W) : List Poll → Loop W → Type 0 where
    at_start : Reaches l [] l
    by_beat :
        {ps : List Poll} {k m : Loop W}
        → Reaches l ps k
        → on_beat lib cb k ≡ running m
        → Reaches l ps m
    by_tick :
        {ps qs : List Poll} {k m : Loop W} (t : Loop W)
        → Reaches l qs k
        → retune lib cb (cb.live k.world) k ≡ running t
        → on_tick lib cb k ≡ running m
        → ps ≡ qs ++ found (cb.live k.world) t.world ∷ []
        → Reaches l ps m

  -- A beat only logs a line.
  pub on_beat_logs :
      (k : Loop W) {m : Loop W}
      → on_beat lib cb k ≡ running m
      → m ≡ record k {
        world = cb.logf (lib.sprintf (heartbeat_line k.state (cb.proof k.world))) k.world;
      }
  unfolding on_beat
  on_beat_logs k h = ground arith

  pub retune_state :
      (c : Config) (l : Loop W) {k : Loop W} → retune lib cb c l ≡ running k → k.state ≡ l.state
  unfolding retune retune_heartbeat repolled
  retune_state c l h = ground arith

  pub advance_state :
      (c : Config) (l : Loop W)
      → (advance lib cb c l).state ≡ (poll_cycle l.state (found c l.world)).state
  unfolding advance
  advance_state c l = refl

  pub on_tick-eq-advance :
      (k : Loop W) {t m : Loop W}
      → retune lib cb (cb.live k.world) k ≡ running t
      → on_tick lib cb k ≡ running m
      → m ≡ advance lib cb (cb.live k.world) t
  unfolding on_tick
  on_tick-eq-advance k r h = ground arith

  run-snoc :
      (s : WdState) (ps : List Poll) (p : Poll)
      → run s (ps ++ p ∷ []) ≡ (poll_cycle (run s ps) p).state
  unfolding run
  run-snoc s ps p = run-append s ps (p ∷ [])

  -- Ticks and heartbeats in any order leave the state that `cycle` reaches by the polls alone.
  pub Reaches-state : {l m : Loop W} {ps : List Poll} → Reaches l ps m → m.state ≡ run l.state ps
  unfolding run on_beat
  Reaches-state at_start = refl
  Reaches-state (by_beat r h) = ground (arith, Reaches-state r)
  Reaches-state {l} (by_tick {qs = qs} {k = k} t r tuned h e) =
      let c = cb.live k.world in
      ap (λ (x : Loop W). x.state) (on_tick-eq-advance k tuned h)
      ∙ advance_state c t
      ∙ ap (λ (s : WdState). (poll_cycle s (found c t.world)).state)
          (retune_state c k tuned ∙ Reaches-state r)
      ∙ sym (run-snoc l.state qs (found c t.world))
      ∙ ap (run l.state) (sym e)
