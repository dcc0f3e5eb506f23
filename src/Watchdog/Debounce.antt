-- ===== src/Watchdog/Debounce.antt =====
-- One poll of the kill switch (`cycle`): when it kills, what it announces, what it logs.
use reptile.Prelude.{◌+◌, ◌≤◌, ◌≡◌, ◌↔◌, ◌⊎◌, Bool, true, false, ℤ, pos_part, arith}
use reptile.Text.Defs.{Text}
use reptile.Watchdog.{up, down, WdState, is_safe, cycle}

abbrev pub confirmed_up : WdState
confirmed_up = record { streak = 0; announced = up }

module _ (s : WdState) (tunnel_ok : Bool) (reason : Text) (verify egress_ok : Bool) (d : ℤ) where
  -- A poll kills exactly if it is unsafe and the streak that it ends reaches the threshold.
  pub cycle_kill_iff :
      ((cycle s tunnel_ok reason verify egress_ok d).kill ≡ true)
      ↔ ((is_safe tunnel_ok verify egress_ok ≡ false) × (pos_part d ≤ s.streak + 1))
  unfolding cycle
  cycle_kill_iff = ground arith

  -- After a safe poll the state is "up" with no streak, whatever it was, and nothing is killed.
  pub cycle_safe :
      is_safe tunnel_ok verify egress_ok ≡ true
      → ((cycle s tunnel_ok reason verify egress_ok d).state ≡ confirmed_up)
        × ((cycle s tunnel_ok reason verify egress_ok d).kill ≡ false)
  unfolding cycle
  cycle_safe h = ground arith

  -- An unsafe poll makes the streak longer by one.
  pub cycle_unsafe_streak :
      is_safe tunnel_ok verify egress_ok ≡ false
      → (cycle s tunnel_ok reason verify egress_ok d).state.streak ≡ s.streak + 1
  unfolding cycle
  cycle_unsafe_streak h = ground arith

  -- The state changes to "up" only by a safe poll, and to "down" only by one that kills.
  pub cycle_announces :
      let r = cycle s tunnel_ok reason verify egress_ok d in
      ((r.state.announced ≡ up → (is_safe tunnel_ok verify egress_ok ≡ true) ⊎ (s.announced ≡ up)))
      × (r.state.announced ≡ down → (r.kill ≡ true) ⊎ (s.announced ≡ down))
  unfolding cycle
  cycle_announces = ground arith
