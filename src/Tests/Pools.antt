-- ===== src/Tests/Pools.antt =====
-- One signal through the workers.
use reptile.Prelude.{
  ℕ, ◌+◌, ◌<◌, ◌≤◌, ◌≡◌, refl, ◌⊎◌, Option, none, some, [], length, get_or, arith,
}
use reptile.Killer.{SignalError, esrch}
use reptile.Killer.Workers.{
  Pool, start, hand_over, put_answer, close_jobs, end_worker, come_back, Step, takes, answers,
  closes, ends, waits, Reaches, at_once, by_step, IsFinished, max_signal_workers,
}
use reptile.Killer.Workers.Schedules.{to_come, Reaches-answers, Step-to_come, Reaches-progress}

-- The process is gone.
abbrev dead : ℕ → Option SignalError
dead _ = some esrch

-- The job is at the worker.
abbrev handed : Pool
handed = hand_over [] [] (start 1)

abbrev served : Pool
served = put_answer [] [] 0 (some esrch) handed

-- The caller is back, after the worker has left its loop.
abbrev back : Pool
back = come_back (end_worker [] [] (close_jobs served))

first : Step 1 dead (start 1) handed
first = takes [] [] refl (omega arith) refl refl

whole : Reaches 1 dead (start 1) back
unfolding hand_over put_answer close_jobs end_worker
whole =
    by_step
      (by_step
        (by_step (by_step (by_step at_once first) (answers [] [] 0 refl refl))
          (closes refl refl refl))
        (ends [] [] refl refl refl))
      (waits refl refl refl)

Reaches-answers_example :
    (length back.errs ≡ 1)
    × ((i : ℕ) → i < 1 → get_or back.errs i none ≡ dead i)
    × (length back.workers ≤ max_signal_workers)
unfolding come_back
Reaches-answers_example = Reaches-answers 1 dead whole refl

Step-to_come_example : to_come 1 dead (start 1) ≡ to_come 1 dead handed + 1
Step-to_come_example = Step-to_come 1 dead first

Reaches-progress_example : IsFinished handed ⊎ ((t : Pool) × Step 1 dead handed t)
Reaches-progress_example = Reaches-progress 1 dead (by_step at_once first)
