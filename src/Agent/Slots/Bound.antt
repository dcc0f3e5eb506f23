-- ===== src/Agent/Slots/Bound.antt =====
-- At most sixteen connections are handled at once, and none is lost or ended twice.
use reptile.Prelude.{
  ℕ, ◌+◌, ◌≤◌, ◌≡◌, refl, sym, ap, ◌∙◌, subst, Option, none, some, List, [], ◌∷◌, ◌++◌, length,
  length-append, swap-length, arith, ◌==◌, ltb, if◌then◌else◌,
}
use reptile.Agent.Slots.{
  max_agent_connections, Ending, Serving, idle, Step, admits, refuses, answers, leaves, Reaches,
  at_start, by_step,
}

-- How often a connection is at a handler, and how often it ended.
abbrev pub at_work : ℕ → List (Option ℕ) → ℕ
at_work i [] = 0
at_work i (none ∷ hs) = at_work i hs
at_work i (some j ∷ hs) = (if j == i then 1 else 0) + at_work i hs

abbrev pub endings : ℕ → List (ℕ × Ending) → ℕ
endings i [] = 0
endings i ((j, e) ∷ es) = (if j == i then 1 else 0) + endings i es

at_work-append :
    (i : ℕ) (xs ys : List (Option ℕ)) → at_work i (xs ++ ys) ≡ at_work i xs + at_work i ys
at_work-append i [] ys = omega arith
at_work-append i (none ∷ xs) ys = at_work-append i xs ys
at_work-append i (some j ∷ xs) ys = omega (arith, at_work-append i xs ys)

-- The channel holds one value for each handler, within its capacity, and each connection is at
-- one handler or has ended once, and no other has.
pub record IsBounded (s : Serving) : Type 0 where
  pub counted : s.slots ≡ length s.handlers
  pub bounded : s.slots ≤ max_agent_connections
  pub once :
      (i : ℕ) → at_work i s.handlers + endings i s.ended ≡ (if ltb i s.accepted then 1 else 0)

idle-IsBounded : IsBounded idle
idle-IsBounded = record { counted = refl; bounded = omega arith; once = λ i. ground arith }

Step-IsBounded : {s t : Serving} → IsBounded s → Step s t → IsBounded t
Step-IsBounded {s} v (admits free e) = subst IsBounded (sym e) (record {
  counted = omega (arith, v.counted);
  bounded = omega (arith, free);
  once = λ i. ground (arith, v.once i);
})
Step-IsBounded {s} v (refuses full e) =
    subst IsBounded (sym e)
      (record { counted = v.counted; bounded = v.bounded; once = λ i. ground (arith, v.once i) })
Step-IsBounded {s} v (answers before after j h e) = subst IsBounded (sym e) (record {
  counted = v.counted ∙ ap length h ∙ swap-length before after none (some j);
  bounded = v.bounded;
  once = λ i. omega (
    arith,
    v.once i,
    ap (at_work i) h,
    at_work-append i before (some j ∷ after),
    at_work-append i before (none ∷ after),
  );
})
Step-IsBounded {s} v (leaves before after k h n e) = subst IsBounded (sym e) (record {
  counted = omega (
    arith,
    v.counted,
    n,
    ap length h,
    length-append before (none ∷ after),
    length-append before after,
  );
  bounded = omega (arith, v.bounded, n);
  once = λ i. omega (
    arith,
    v.once i,
    ap (at_work i) h,
    at_work-append i before (none ∷ after),
    at_work-append i before after,
  );
})

-- However the accepting loop and the handlers interleave: at most sixteen handlers run, one for
-- each value in the channel, and each connection that was accepted is at one handler or has ended,
-- with an answer or as busy, exactly once.
pub Reaches-IsBounded :
    {s : Serving}
    → Reaches idle s
    → (length s.handlers ≤ max_agent_connections)
      × ((i : ℕ) → at_work i s.handlers + endings i s.ended ≡ (if ltb i s.accepted then 1 else 0))
Reaches-IsBounded r = let v = whole r in (omega (arith, v.counted, v.bounded), v.once)
  where
    whole : {t : Serving} → Reaches idle t → IsBounded t
    whole at_start = idle-IsBounded
    whole (by_step q st) = Step-IsBounded (whole q) st
