-- ===== src/Watchdog.antt =====
-- internal/app/watchdog.go: the kill-switch state machine, `cycle`.
-- Its driver `runWatchdog` is in Loop; Debounce and Runs prove what the machine promises.
use reptile.Prelude.{
  ℕ, ◌+◌, Bool, true, false, not, ◌&&◌, ◌||◌, List, [], ◌∷◌, ◌++◌, ◌==◌, if◌then◌else◌, ℤ, pos,
  ltb_ℤ,
}
use reptile.Text.Defs.{Text, codes}
use reptile.Text.Number.{itoa_ℕ, itoa}
pub mod Debounce
pub mod Runs
pub mod Outages
pub mod Loop

-- `announced`: "", "up" or "down"
pub data Announced : Type 0 where
  unset up down : Announced

-- `wdState`; the streak counts the polls of one outage, so it is left unbounded.
pub record WdState : Type 0 where
  pub streak : ℕ
  pub announced : Announced

abbrev pub is_up : Announced → Bool
is_up up = true
is_up _ = false

abbrev pub is_down : Announced → Bool
is_down down = true
is_down _ = false

-- What a call of `cycle` does: the new state, the log lines, and whether `kill` was called.
pub record Cycle : Type 0 where
  pub state : WdState
  pub logs : List Text
  pub kill : Bool

abbrev pub fresh : WdState
fresh = record { streak = 0; announced = unset }

unfoldable pub possibly_down : ℕ → ℤ → Text → Text
possibly_down streak down_cycles reason =
    codes "tunnel possibly DOWN ("
    ++ (itoa_ℕ streak ++ (codes "/" ++ (itoa down_cycles ++ (codes "): " ++ reason))))

unfoldable pub confirmed_down : Text → Text
confirmed_down reason = codes "tunnel DOWN - killing targets: " ++ reason

unsafe_cycle : WdState → ℕ → Text → ℤ → Cycle
unsafe_cycle s streak reason down_cycles =
    if ltb_ℤ (pos streak) down_cycles
    then record {
      state = record { streak = streak; announced = s.announced };
      logs = possibly_down streak down_cycles reason ∷ [];
      kill = false;
    }
    else record {
      state = record { streak = streak; announced = down };
      logs = if not (is_down s.announced) then confirmed_down reason ∷ [] else [];
      kill = true;
    }

-- The tunnel counts as safe.
abbrev pub is_safe : Bool → Bool → Bool → Bool
is_safe tunnel_ok verify egress_ok = tunnel_ok && (not verify || egress_ok)

unfoldable pub cycle : WdState → Bool → Text → Bool → Bool → ℤ → Cycle
unfolding unsafe_cycle
cycle s tunnel_ok reason verify egress_ok down_cycles =
    if is_safe tunnel_ok verify egress_ok
    then (if is_up s.announced && s.streak == 0
        then record { state = s; logs = []; kill = false }
        else record {
          state = record { streak = 0; announced = up };
          logs = codes "tunnel UP" ∷ [];
          kill = false;
        })
    else unsafe_cycle s (s.streak + 1) reason down_cycles

-- `stateLabel`
unfoldable pub state_label : WdState → Text
state_label s = elim s.announced [ unset ↦ codes "unknown" | up ↦ codes "up" | down ↦ codes "down" ]
