-- ===== src/Killer/Workers/Schedules.antt =====
-- Whatever the schedule, every answer lands at its own index and `signalProcesses` returns.
use reptile.Prelude.{
  ℕ, ◌+◌, ◌-◌, ◌*◌, ◌<◌, ◌≤◌, ◌≡◌, refl, sym, ap, ◌∙◌, ◌⊎◌, inl, inr, Option, none, List, [], ◌∷◌,
  ◌++◌, length, get_or, ltb, ltb→lt, ltb→ge, arith, Bool-cases,
}
use mathlib.Core.List.{Memᴰ}
use reptile.Killer.{SignalError}
use reptile.Killer.Workers.{
  max_signal_workers, Worker, idle, busy, gone, Caller, sending, waiting, returned, Pool, start,
  hand_over, put_answer, close_jobs, end_worker, come_back, Step, takes, answers, closes, ends,
  waits, Reaches, IsFinished,
}
use reptile.Killer.Workers.Invariant.{start-IsSound, Reaches-IsSound}
use reptile.Killer.Workers.Live.{live, busy-live}

module _ (jobs : ℕ) (answer : ℕ → Option SignalError) where
  -- However the workers interleave, when `signalProcesses` has returned the answer to each job
  -- stands at its index, with no further entry, and the workers are at most 32.
  pub Reaches-answers :
      {s : Pool}
      → Reaches jobs answer (start jobs) s
      → IsFinished s
      → (length s.errs ≡ jobs)
        × ((i : ℕ) → i < jobs → get_or s.errs i none ≡ answer i)
        × (length s.workers ≤ max_signal_workers)
  Reaches-answers {s} r back =
      let v = Reaches-IsSound jobs answer (start-IsSound jobs answer) r in
      let (all_sent, none_left) = v.done back in
      (
        v.size,
        λ i h. elim (v.served i (omega (arith, all_sent, h))) [
          | inl here ↦ here
          | inr at ↦ absurd (omega (arith, busy-live s.workers at, v.counted, none_left))
        ],
        omega (arith, v.pool),
      )

-- How many steps of the workers and of the caller are still to come.
abbrev pub at_work : List Worker → ℕ
at_work [] = 0
at_work (gone ∷ ws) = at_work ws
at_work (idle ∷ ws) = 1 + at_work ws
at_work (busy _ ∷ ws) = 2 + at_work ws

abbrev pub caller_left : Caller → ℕ
caller_left sending = 2
caller_left waiting = 1
caller_left returned = 0

at_work-append : (xs ys : List Worker) → at_work (xs ++ ys) ≡ at_work xs + at_work ys
at_work-append [] ys = omega arith
at_work-append (gone ∷ xs) ys = at_work-append xs ys
at_work-append (idle ∷ xs) ys = omega (arith, at_work-append xs ys)
at_work-append (busy i ∷ xs) ys = omega (arith, at_work-append xs ys)

-- Where a worker is busy, or else where one is idle, or all have left.
data Standing (ws : List Worker) : Type 0 where
  some_busy : (before after : List Worker) (i : ℕ) → ws ≡ before ++ busy i ∷ after → Standing ws
  some_idle : (before after : List Worker) → ws ≡ before ++ idle ∷ after → Standing ws
  all_gone : live ws ≡ 0 → (0 < length ws → Memᴰ gone ws) → Standing ws

standing : (ws : List Worker) → Standing ws
unfolding live
standing [] = all_gone refl (λ h. absurd (omega (arith, h)))
standing (busy i ∷ ws) = some_busy [] ws i refl
standing (idle ∷ ws) = elim (standing ws) [
  | some_busy before after i e ↦ some_busy (idle ∷ before) after i (ap (λ xs. idle ∷ xs) e)
  | some_idle _ _ _ ↦ some_idle [] ws refl
  | all_gone _ _ ↦ some_idle [] ws refl
]
standing (gone ∷ ws) = elim (standing ws) [
  | some_busy before after i e ↦ some_busy (gone ∷ before) after i (ap (λ xs. gone ∷ xs) e)
  | some_idle before after e ↦ some_idle (gone ∷ before) after (ap (λ xs. gone ∷ xs) e)
  | all_gone e _ ↦ all_gone e (λ _. Memᴰ.head refl)
]

Caller-cases : (c : Caller) → (c ≡ sending) ⊎ (c ≡ waiting) ⊎ (c ≡ returned)
Caller-cases sending = inl refl
Caller-cases waiting = inr (inl refl)
Caller-cases returned = inr (inr refl)

module _ (jobs : ℕ) (answer : ℕ → Option SignalError) where
  abbrev pub to_come : Pool → ℕ
  to_come s = 2 * (jobs - s.next) + at_work s.workers + caller_left s.caller

  swapped :
      (before after : List Worker) (x y : Worker)
      → at_work (before ++ x ∷ after) + at_work (y ∷ [])
        ≡ at_work (before ++ y ∷ after) + at_work (x ∷ [])
  swapped before after x y = omega (
    arith,
    at_work-append before (x ∷ after),
    at_work-append before (y ∷ after),
    at_work-append (x ∷ []) after,
    at_work-append (y ∷ []) after,
  )

  -- Every step of the workers and of the caller lowers by one a natural number, made of the jobs
  -- not yet sent, the workers in their loops or at a job, and the caller's way to its return.
  pub Step-to_come : {s t : Pool} → Step jobs answer s t → to_come s ≡ to_come t + 1
  unfolding hand_over put_answer close_jobs end_worker come_back
  Step-to_come {s} (takes before after sends more w e) =
      omega (arith, more, ap at_work w, swapped before after idle (busy s.next))
      ∙ sym (ap (λ u. to_come u + 1) e)
  Step-to_come {s} (answers before after i w e) =
      omega (arith, ap at_work w, swapped before after idle (busy i))
      ∙ sym (ap (λ u. to_come u + 1) e)
  Step-to_come {s} (closes sends all e) =
      omega (arith, ap caller_left sends) ∙ sym (ap (λ u. to_come u + 1) e)
  Step-to_come {s} (ends before after closed w e) =
      omega (arith, ap at_work w, swapped before after idle gone) ∙ sym (ap (λ u. to_come u + 1) e)
  Step-to_come {s} (waits at no_more e) =
      omega (arith, ap caller_left at) ∙ sym (ap (λ u. to_come u + 1) e)

  -- However the workers interleave, either `signalProcesses` has returned or some step of the caller
  -- or of a worker is possible: they never wait for each other in vain.
  pub Reaches-progress :
      {s : Pool}
      → Reaches jobs answer (start jobs) s
      → IsFinished s ⊎ ((t : Pool) × Step jobs answer s t)
  Reaches-progress {s} r =
      let v = Reaches-IsSound jobs answer (start-IsSound jobs answer) r in
      elim (standing s.workers) [
        | some_busy before after i e ↦ inr (_, answers before after i e refl)
        | some_idle before after e ↦ elim (Caller-cases s.caller) [
          | inl sends ↦ elim (Bool-cases (ltb s.next jobs)) [
            | inl more ↦ inr (_, takes before after sends (ltb→lt s.next jobs more) e refl)
            | inr all ↦ inr (_, closes sends (omega (arith, v.inside, ltb→ge s.next jobs all)) refl)
          ]
          | inr (inl at) ↦ inr (_, ends before after (v.shut at) e refl)
          | inr (inr back) ↦ inl back
        ]
        | all_gone no_more left ↦ elim (Caller-cases s.caller) [
          | inl sends ↦ elim (Bool-cases (ltb s.next jobs)) [
            | inl more ↦
                let some_left = ltb→lt s.next jobs more in
                absurd (cc (v.ended (left (omega (arith, v.pool, some_left))), v.opened sends))
            | inr all ↦ inr (_, closes sends (omega (arith, v.inside, ltb→ge s.next jobs all)) refl)
          ]
          | inr (inl at) ↦ inr (_, waits at (v.counted ∙ no_more) refl)
          | inr (inr back) ↦ inl back
        ]
      ]
