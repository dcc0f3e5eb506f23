-- ===== src/Watchdog/Outages.antt =====
-- What the kill switch promises over a history of polls.
use reptile.Prelude.{
  ℕ, suc, ◌+◌, ◌-◌, ◌≤◌, ◌≡◌, ap, ◌↔◌, true, List, [], ◌∷◌, ◌++◌, length, All, ℤ, pos_part, arith,
  Bool-cases, inl, inr,
}
use reptile.Watchdog.{WdState, fresh}
use reptile.Watchdog.Debounce.{cycle_kill_iff}
use reptile.Watchdog.Runs.{
  Poll, safe, IsUnsafe, poll_cycle, run, kills, one_if, run-append, safe-step, unsafe-step,
  EndsUnsafe, EndsUnsafe-snoc, streak-EndsUnsafe, EndsUnsafe-le-streak,
}

poll_kill_iff :
    (s : WdState) (p : Poll)
    → ((poll_cycle s p).kill ≡ true) ↔ (IsUnsafe p × (pos_part p.down_cycles ≤ s.streak + 1))
poll_kill_iff s p = cycle_kill_iff s p.tunnel_ok p.reason p.verify p.egress_ok p.down_cycles

streak-snoc :
    (ps : List Poll) (p : Poll)
    → (run fresh (ps ++ p ∷ [])).streak ≡ (poll_cycle (run fresh ps) p).state.streak
unfolding run
streak-snoc ps p = rw run-append

-- A poll after the history `ps` from the daemon's start kills exactly if the history with that
-- poll ends in at least `down_cycles` unsafe polls, for a threshold of at least one.
pub run_kill_iff :
    (ps : List Poll) (p : Poll)
    → 1 ≤ pos_part p.down_cycles
    → ((poll_cycle (run fresh ps) p).kill ≡ true)
      ↔ ((k : ℕ) × EndsUnsafe (ps ++ p ∷ []) k × (pos_part p.down_cycles ≤ k))
run_kill_iff ps p one = (
  λ killed.
      let (bad, enough) = (poll_kill_iff (run fresh ps) p).0 killed in
      ((run fresh ps).streak + 1, EndsUnsafe-snoc p (streak-EndsUnsafe ps) bad, enough),
  λ (k, ends, enough).
      let long : k ≤ (poll_cycle (run fresh ps) p).state.streak =
        rw streak-snoc at (EndsUnsafe-le-streak fresh ends) in
      elim (Bool-cases (safe p)) [
        | inl good ↦
            absurd (omega (arith, ap (λ (t : WdState). t.streak) (safe-step (run fresh ps) p good)))
        | inr bad ↦
            (poll_kill_iff (run fresh ps) p).1
              (bad, omega (arith, unsafe-step (run fresh ps) p bad))
      ],
)

kills-step :
    (s : WdState) (p : Poll)
    → IsUnsafe p
    → (n : ℕ)
    → one_if (poll_cycle s p).kill + (n - (pos_part p.down_cycles - 1 - (s.streak + 1)))
      ≡ suc n - (pos_part p.down_cycles - 1 - s.streak)
kills-step s p bad n = elim (Bool-cases (poll_cycle s p).kill) [
  | inl yes_kill ↦ rw yes_kill (omega (arith, (poll_kill_iff s p).0 yes_kill))
  | inr no_kill ↦ rw no_kill (ground (arith, (poll_kill_iff s p).1))
]

-- In an outage at a fixed threshold `d`, from a state with any streak, all polls kill but the
-- first ones, of which `d - 1` less the streak are spared.
pub outage_kills :
    (s : WdState) (ps : List Poll) (d : ℤ)
    → All (λ p. IsUnsafe p × (p.down_cycles ≡ d)) ps
    → kills s ps ≡ length ps - (pos_part d - 1 - s.streak)
unfolding kills
outage_kills s [] d h = omega arith
outage_kills s (p ∷ ps) d h = rw (
  outage_kills (poll_cycle s p).state ps d h.1,
  unsafe-step s p h.0.0,
  ← h.0.1,
  kills-step s p h.0.0 (length ps),
)
