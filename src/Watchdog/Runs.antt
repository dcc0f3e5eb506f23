-- ===== src/Watchdog/Runs.antt =====
-- The kill switch over a sequence of polls: it kills exactly in a confirmed outage.
use reptile.Prelude.{
  ℕ, ◌+◌, ◌≤◌, ◌≡◌, refl, ap, ◌⊎◌, inl, inr, Bool, true, false, List, [], ◌∷◌, ◌++◌, append_assoc,
  length, length-append, All, ℤ, arith, Bool-cases, subst,
}
use reptile.Text.Defs.{Text}
use reptile.Watchdog.{WdState, Cycle, fresh, is_safe, cycle}
use reptile.Watchdog.Debounce.{confirmed_up, cycle_safe, cycle_unsafe_streak}

-- What one poll finds: the verdicts, and the settings that are live at that time.
pub record Poll : Type 0 where
  pub tunnel_ok : Bool
  pub reason : Text
  pub verify : Bool
  pub egress_ok : Bool
  pub down_cycles : ℤ

abbrev pub safe : Poll → Bool
safe p = is_safe p.tunnel_ok p.verify p.egress_ok

abbrev pub IsUnsafe : Poll → Type 0
IsUnsafe p = safe p ≡ false

-- `cycle` at what a poll found
abbrev pub poll_cycle : WdState → Poll → Cycle
poll_cycle s p = cycle s p.tunnel_ok p.reason p.verify p.egress_ok p.down_cycles

-- The state after some polls.
unfoldable pub run : WdState → List Poll → WdState
run s [] = s
run s (p ∷ ps) = run (poll_cycle s p).state ps

abbrev pub one_if : Bool → ℕ
one_if b = elim b [ true ↦ 1 | false ↦ 0 ]

-- How often they killed.
unfoldable pub kills : WdState → List Poll → ℕ
kills s [] = 0
kills s (p ∷ ps) = one_if (poll_cycle s p).kill + kills (poll_cycle s p).state ps

pub run-append : (s : WdState) (ps qs : List Poll) → run s (ps ++ qs) ≡ run (run s ps) qs
unfolding run
run-append s [] qs = refl
run-append s (p ∷ ps) qs = run-append (poll_cycle s p).state ps qs

pub safe-step : (s : WdState) (p : Poll) → safe p ≡ true → (poll_cycle s p).state ≡ confirmed_up
safe-step s p h = (cycle_safe s p.tunnel_ok p.reason p.verify p.egress_ok p.down_cycles h).0

pub unsafe-step :
    (s : WdState) (p : Poll) → IsUnsafe p → (poll_cycle s p).state.streak ≡ s.streak + 1
unsafe-step s p h = cycle_unsafe_streak s p.tunnel_ok p.reason p.verify p.egress_ok p.down_cycles h

-- In an outage the streak counts the polls.
pub run-outage_streak :
    (s : WdState) (ps : List Poll) → All IsUnsafe ps → (run s ps).streak ≡ s.streak + length ps
unfolding run
run-outage_streak s [] h = omega arith
run-outage_streak s (p ∷ ps) h =
    omega (arith, run-outage_streak (poll_cycle s p).state ps h.1, unsafe-step s p h.0)

-- The polls end in `k` unsafe ones.
pub record EndsUnsafe (ps : List Poll) (k : ℕ) : Type 0 where
  pub before : List Poll
  pub outage : List Poll
  pub splits : ps ≡ before ++ outage
  pub all_unsafe : All IsUnsafe outage
  pub long : length outage ≡ k

EndsUnsafe-cons : (p : Poll) {ps : List Poll} {k : ℕ} → EndsUnsafe ps k → EndsUnsafe (p ∷ ps) k
EndsUnsafe-cons p e = record {
  before = p ∷ e.before;
  outage = e.outage;
  splits = ap (◌∷◌ p) e.splits;
  all_unsafe = e.all_unsafe;
  long = e.long;
}

All-snoc : (ps : List Poll) (p : Poll) → All IsUnsafe ps → IsUnsafe p → All IsUnsafe (ps ++ p ∷ [])
All-snoc [] p h x = (x, tt)
All-snoc (q ∷ ps) p h x = (h.0, All-snoc ps p h.1 x)

pub EndsUnsafe-snoc :
    (p : Poll) {ps : List Poll} {k : ℕ}
    → EndsUnsafe ps k
    → IsUnsafe p
    → EndsUnsafe (ps ++ p ∷ []) (k + 1)
EndsUnsafe-snoc p e x = record {
  before = e.before;
  outage = e.outage ++ p ∷ [];
  splits = rw e.splits (append_assoc e.before e.outage (p ∷ []));
  all_unsafe = All-snoc e.outage p e.all_unsafe x;
  long = omega (arith, length-append e.outage (p ∷ []), e.long);
}

EndsUnsafe-all : (ps : List Poll) → All IsUnsafe ps → EndsUnsafe ps (length ps)
EndsUnsafe-all ps h = record {
  before = [];
  outage = ps;
  splits = refl;
  all_unsafe = h;
  long = refl;
}

run-EndsUnsafe :
    (s : WdState) (ps : List Poll) → (All IsUnsafe ps) ⊎ (EndsUnsafe ps (run s ps).streak)
unfolding run
run-EndsUnsafe s [] = inl tt
run-EndsUnsafe s (p ∷ ps) = elim (Bool-cases (safe p)) [
  | inl good ↦ inr (
      EndsUnsafe-cons p (elim (run-EndsUnsafe (poll_cycle s p).state ps) [
        | inl all ↦
            subst (EndsUnsafe ps)
              (omega (
                arith,
                run-outage_streak (poll_cycle s p).state ps all,
                ap (λ (t : WdState). t.streak) (safe-step s p good),
              ))
              (EndsUnsafe-all ps all)
        | inr e ↦ e
      ]))
  | inr bad ↦ elim (run-EndsUnsafe (poll_cycle s p).state ps) [
    | inl all ↦ inl (bad, all)
    | inr e ↦ inr (EndsUnsafe-cons p e)
  ]
]

-- From a fresh start the streak is the length of an outage that the polls end in,
pub streak-EndsUnsafe : (ps : List Poll) → EndsUnsafe ps (run fresh ps).streak
streak-EndsUnsafe ps = elim (run-EndsUnsafe fresh ps) [
  | inl all ↦
      subst (EndsUnsafe ps) (omega (arith, run-outage_streak fresh ps all)) (EndsUnsafe-all ps all)
  | inr e ↦ e
]

-- and no longer outage ends them.
pub EndsUnsafe-le-streak :
    (s : WdState) {ps : List Poll} {k : ℕ} → EndsUnsafe ps k → k ≤ (run s ps).streak
EndsUnsafe-le-streak s e =
    rw (e.splits, run-append)
      (omega (arith, run-outage_streak (run s e.before) e.outage e.all_unsafe, e.long))

kills-append :
    (s : WdState) (ps qs : List Poll) → kills s (ps ++ qs) ≡ kills s ps + kills (run s ps) qs
unfolding kills run
kills-append s [] qs = omega arith
kills-append s (p ∷ ps) qs = omega (arith, kills-append (poll_cycle s p).state ps qs)

pub kills-snoc :
    (s : WdState) (ps : List Poll) (p : Poll)
    → kills s (ps ++ p ∷ []) ≡ one_if (poll_cycle (run s ps) p).kill + kills s ps
unfolding kills
kills-snoc s ps p = omega (arith, kills-append s ps (p ∷ []))
