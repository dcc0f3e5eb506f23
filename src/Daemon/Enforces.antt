-- ===== src/Daemon/Enforces.antt =====
-- A confirmed outage kills, in the daemon as it is put together.
use reptile.Prelude.{
  ℕ, ◌≤◌, ◌≡◌, refl, sym, ap, ◌∙◌, ◌↔◌, ◌⊎◌, inl, inr, Bool, true, false, List, [], ◌∷◌, ◌++◌,
  pos_part, arith, Bool-cases, if◌then◌else◌, ◌&&◌,
}
use mathlib.Core.List.{Memᴰ}
use reptile.Text.Defs.{Text}
use reptile.Library.{Library}
use reptile.Result.{ok}
use reptile.Config.{Config, Durations}
use reptile.Watchdog.{Cycle, fresh}
use reptile.Watchdog.Runs.{Poll, poll_cycle, EndsUnsafe, run}
use reptile.Watchdog.Outages.{run_kill_iff}
use reptile.Watchdog.Loop.{Loop, running, retune, check, act, log_all, advance, on_tick}
use reptile.Watchdog.Loop.Refines.{found, Reaches, Reaches-state, retune_state, on_tick-eq-advance}
use reptile.Killer.{Process, sigterm, answered, kill_targets}
use reptile.Killer.Targets.{IsHit, kill_targets_terminates}
use reptile.Daemon.{
  World, Env, Call, next, log, incomplete, killer, tunnel, egress, publish, logf, callbacks, grace,
}

module _ (lib : Library) (env : Env) (initial : Durations) where
  -- The call of `killTargets` that the killer makes.
  abbrev pub call : World → Call
  call w = record {
    grace = grace lib initial w.shared.live;
    killed = kill_targets (env.system w.step) w.shared.live.targets;
  }

  killer_calls : (w : World) → (killer lib env initial w).calls ≡ call w ∷ w.calls
  unfolding killer next incomplete log
  killer_calls w = ground arith

  tunnel_calls : (w : World) → (tunnel env w).world.calls ≡ w.calls
  unfolding tunnel next
  tunnel_calls w = ground arith

  egress_calls : (w : World) → (egress lib env w).world.calls ≡ w.calls
  unfolding egress next
  egress_calls w = refl

  check_calls :
      (c : Config) (w : World) → (check lib (callbacks lib env initial) c w).world.calls ≡ w.calls
  unfolding check
  check_calls c w = elim (Bool-cases (c.verify_egress && (tunnel env w).passed)) [
    | inl on ↦ rw on (egress_calls (tunnel env w).world ∙ tunnel_calls w)
    | inr off ↦ rw off (tunnel_calls w)
  ]

  log_all_calls :
      (ts : List Text) (w : World) → (log_all lib (callbacks lib env initial) ts w).calls ≡ w.calls
  unfolding log_all logf log next
  log_all_calls [] w = refl
  log_all_calls (t ∷ ts) w = log_all_calls ts (logf env t w)

  act_calls :
      (r : Cycle) (w : World)
      → (act lib (callbacks lib env initial) r w).calls
        ≡ (if r.kill then call w ∷ w.calls else w.calls)
  unfolding act
  act_calls r w = log_all_calls r.logs _ ∙ by_kill r.kill
    where
      by_kill :
          (b : Bool)
          → (if b then killer lib env initial w else w).calls
            ≡ (if b then call w ∷ w.calls else w.calls)
      by_kill true = killer_calls w
      by_kill false = refl

  -- The world after the checks of a tick, from the retuned loop.
  abbrev pub checked : Config → Loop World → World
  checked c t = (check lib (callbacks lib env initial) c t.world).world

  advance_calls :
      (c : Config) (t : Loop World)
      → (advance lib (callbacks lib env initial) c t).world.calls ≡ (
          if (poll_cycle t.state (found lib (callbacks lib env initial) c t.world)).kill
          then call (checked c t) ∷ t.world.calls
          else t.world.calls)
  unfolding advance publish next
  advance_calls c t =
      let r = poll_cycle t.state (found lib (callbacks lib env initial) c t.world) in
      act_calls r (checked c t)
      ∙ ap (λ cs. if r.kill then call (checked c t) ∷ cs else cs) (check_calls c t.world)

  -- What a tick does with the killer, from a loop whose ticks have made the polls `ps`.
  pub tick_calls :
      {l k t m : Loop World} {ps : List Poll}
      → l.state ≡ fresh
      → Reaches lib (callbacks lib env initial) l ps k
      → retune lib (callbacks lib env initial) k.world.shared.live k ≡ running t
      → on_tick lib (callbacks lib env initial) k ≡ running m
      → m.world.calls ≡ (
          if (poll_cycle
            (run fresh ps)
            (found lib (callbacks lib env initial) k.world.shared.live t.world)).kill
          then call (checked k.world.shared.live t) ∷ t.world.calls
          else t.world.calls)
  tick_calls {l} {k} {t} {ps = ps} begun r tuned ticked =
      let c = k.world.shared.live in
      let at_run : t.state ≡ run fresh ps =
        retune_state lib (callbacks lib env initial) c k tuned
        ∙ Reaches-state lib (callbacks lib env initial) r
        ∙ ap (λ s. run s ps) begun in
      ap (λ (x : Loop World). x.world.calls)
        (on_tick-eq-advance lib (callbacks lib env initial) k tuned ticked)
      ∙ advance_calls c t
      ∙ ap
          (λ s.
            if (poll_cycle s (found lib (callbacks lib env initial) c t.world)).kill
            then call (checked c t) ∷ t.world.calls
            else t.world.calls)
          at_run

  -- Of a tick from `k` to `m`, with the loop `t` once the tickers are retuned, after the polls `ps`:
  -- either the polls with its own end in an outage as long as the live threshold, it calls the
  -- killer once, and exactly the listed processes that the live settings name are sent SIGTERM; or
  -- they do not, and it calls the killer not at all.
  abbrev pub IsEnforced : List Poll → Loop World → Loop World → Loop World → List Process → Type 0
  IsEnforced ps k t m procs =
      let poll = found lib (callbacks lib env initial) k.world.shared.live t.world in
      let w = checked k.world.shared.live t in
      (((n : ℕ) × EndsUnsafe (ps ++ poll ∷ []) n
          × (pos_part k.world.shared.live.down_cycles_to_kill ≤ n))
        × (m.world.calls ≡ call w ∷ t.world.calls)
        × ((q : Process)
            → Memᴰ (answered (env.system w.step) sigterm q) (call w).killed.sent
              ↔ IsHit w.shared.live.targets procs q))
      ⊎ (¬ (
            (n : ℕ) × EndsUnsafe (ps ++ poll ∷ []) n
            × (pos_part k.world.shared.live.down_cycles_to_kill ≤ n))
          × (m.world.calls ≡ t.world.calls))

  -- From the fresh state, after ticks that made the polls `ps`, a tick that goes on with a threshold
  -- of at least one enforces the targets, if the processes can be listed.
  pub tick_enforces :
      {l k t m : Loop World} {ps : List Poll} {procs : List Process}
      → l.state ≡ fresh
      → Reaches lib (callbacks lib env initial) l ps k
      → retune lib (callbacks lib env initial) k.world.shared.live k ≡ running t
      → on_tick lib (callbacks lib env initial) k ≡ running m
      → 1 ≤ pos_part k.world.shared.live.down_cycles_to_kill
      → (env.system (checked k.world.shared.live t).step).listed ≡ ok procs
      → IsEnforced ps k t m procs
  tick_enforces {l} {k} {t} {m} {ps} begun r tuned ticked one listed =
      let c = k.world.shared.live in
      let poll = found lib (callbacks lib env initial) c t.world in
      let w = checked c t in
      let calls = tick_calls begun r tuned ticked in
      let iff = run_kill_iff ps poll one in
      elim (Bool-cases (poll_cycle (run fresh ps) poll).kill) [
        | inl kills ↦ inl (
          iff.0 kills,
          calls ∙ ap (λ b. if b then call w ∷ t.world.calls else t.world.calls) kills,
          λ q. kill_targets_terminates (env.system w.step) w.shared.live.targets listed q,
        )
        | inr spares ↦ inr (
          λ outage. cc (sym (iff.1 outage) ∙ spares),
          calls ∙ ap (λ b. if b then call w ∷ t.world.calls else t.world.calls) spares,
        )
      ]
