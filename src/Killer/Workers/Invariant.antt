-- ===== src/Killer/Workers/Invariant.antt =====
-- What stays true of the caller and its workers, whatever the schedule.
use reptile.Prelude.{
  ℕ, ◌<◌, ◌≤◌, ◌≡◌, refl, sym, ap, ◌∙◌, subst, ◌⊎◌, inl, inr, Option, none, true, false, List, ◌∷◌,
  ◌++◌, length, get_or, get_or-set_ne, get_or-set_self, length-set, set, length-replicate,
  swap-cases, swap-length, arith, ==_iff, ◌==◌, Bool-cases,
}
use mathlib.Core.List.{Memᴰ}
use mathlib.Core.List.Memᴰ.{append_right}
use reptile.Killer.{SignalError}
use reptile.Killer.Workers.{
  Worker, idle, busy, gone, sending, waiting, returned, Pool, worker_count, start, hand_over,
  put_answer, close_jobs, end_worker, come_back, Step, takes, answers, closes, ends, waits, Reaches,
  at_once, by_step,
}
use reptile.Killer.Workers.Live.{live, live-append, live-start, start_idle, busy_injective}

module _ (jobs : ℕ) (answer : ℕ → Option SignalError) where
  -- Every job sent is answered at its index, or a worker is at it; the counter is that of the
  -- workers in their loops, which they leave only after the last job.
  pub record IsSound (s : Pool) : Type 0 where
    pub size : length s.errs ≡ jobs
    pub pool : length s.workers ≡ worker_count jobs
    pub inside : s.next ≤ jobs
    pub taken : (i : ℕ) → Memᴰ (busy i) s.workers → i < s.next
    pub served : (i : ℕ) → i < s.next → (get_or s.errs i none ≡ answer i) ⊎ Memᴰ (busy i) s.workers
    pub opened : s.caller ≡ sending → s.closed ≡ false
    pub shut : s.caller ≡ waiting → s.closed ≡ true
    pub sent : s.closed ≡ true → s.next ≡ jobs
    pub done : s.caller ≡ returned → (s.next ≡ jobs) × (s.pending ≡ 0)
    pub ended : Memᴰ gone s.workers → s.closed ≡ true
    pub counted : s.pending ≡ live s.workers

  takes-IsSound :
      (s : Pool) (before after : List Worker)
      → s.caller ≡ sending
      → s.next < jobs
      → s.workers ≡ before ++ idle ∷ after
      → IsSound s
      → IsSound (hand_over before after s)
  unfolding hand_over live
  takes-IsSound s before after sends more w i = record {
    size = i.size;
    pool = swap-length before after idle (busy s.next) ∙ ap length (sym w) ∙ i.pool;
    inside = omega arith;
    taken = λ j m. elim (swap-cases before after idle m) [
      | inl e ↦ omega (arith, busy_injective e)
      | inr old ↦ omega (arith, i.taken j (subst (Memᴰ (busy j)) (sym w) old))
    ];
    served = λ j h. elim (Bool-cases (j == s.next)) [
      | inl e ↦ inr (append_right before (Memᴰ.head (ap busy ((==_iff j s.next).0 e))))
      | inr ne ↦ elim (i.served j (ground arith)) [
        | inl done ↦ inl done
        | inr at ↦ elim (swap-cases before after (busy s.next) (subst (Memᴰ (busy j)) w at)) [
          | inl e ↦ absurd (ground (arith, e))
          | inr old ↦ inr old
        ]
      ]
    ];
    opened = i.opened;
    shut = i.shut;
    sent = λ c. absurd (cc (c, i.opened sends));
    done = λ b. absurd (ground (arith, b, sends));
    ended = λ m. elim (swap-cases before after idle m) [
      | inl e ↦ absurd (ground (arith, e))
      | inr old ↦ i.ended (subst (Memᴰ gone) (sym w) old)
    ];
    counted =
        i.counted
        ∙ ap live w
        ∙ omega
            (arith, live-append before (idle ∷ after), live-append before (busy s.next ∷ after));
  }

  answers-IsSound :
      (s : Pool) (before after : List Worker) (i : ℕ)
      → s.workers ≡ before ++ busy i ∷ after
      → IsSound s
      → IsSound (put_answer before after i (answer i) s)
  unfolding put_answer live
  answers-IsSound s before after i w v =
      let in_range : i < jobs = omega (
        arith,
        v.inside,
        v.taken i (subst (Memᴰ (busy i)) (sym w) (append_right before (Memᴰ.head refl))),
      ) in
      record {
        size = length-set s.errs i (answer i) ∙ v.size;
        pool = swap-length before after (busy i) idle ∙ ap length (sym w) ∙ v.pool;
        inside = v.inside;
        taken = λ j m. elim (swap-cases before after (busy i) m) [
          | inl e ↦ absurd (ground (arith, e))
          | inr old ↦ v.taken j (subst (Memᴰ (busy j)) (sym w) old)
        ];
        served = λ j h. elim (Bool-cases (j == i)) [
          | inl e ↦ inl (answered in_range v.size ((==_iff j i).0 e))
          | inr ne ↦ elim (v.served j h) [
            | inl done ↦
                inl (get_or-set_ne s.errs i j (answer i) none (λ e. ground (arith, ne, e)) ∙ done)
            | inr at ↦ elim (swap-cases before after idle (subst (Memᴰ (busy j)) w at)) [
              | inl e ↦ absurd (ground (arith, ne, e))
              | inr old ↦ inr old
            ]
          ]
        ];
        opened = v.opened;
        shut = v.shut;
        sent = v.sent;
        done = v.done;
        ended = λ m. elim (swap-cases before after (busy i) m) [
          | inl e ↦ absurd (ground (arith, e))
          | inr old ↦ v.ended (subst (Memᴰ gone) (sym w) old)
        ];
        counted =
            v.counted
            ∙ ap live w
            ∙ omega (arith, live-append before (idle ∷ after), live-append before (busy i ∷ after));
      }
    where
      answered :
          {j : ℕ}
          → i < jobs
          → length s.errs ≡ jobs
          → j ≡ i
          → get_or (set s.errs i (answer i)) j none ≡ answer j
      answered inside size same =
          ap (λ k. get_or (set s.errs i (answer i)) k none) same
          ∙ get_or-set_self s.errs i (answer i) none (omega (arith, inside, size))
          ∙ ap answer (sym same)

  ends-IsSound :
      (s : Pool) (before after : List Worker)
      → s.closed ≡ true
      → s.workers ≡ before ++ idle ∷ after
      → IsSound s
      → IsSound (end_worker before after s)
  unfolding end_worker live
  ends-IsSound s before after closed w v = record {
    size = v.size;
    pool = swap-length before after idle gone ∙ ap length (sym w) ∙ v.pool;
    inside = v.inside;
    taken = λ j m. elim (swap-cases before after idle m) [
      | inl e ↦ absurd (ground (arith, e))
      | inr old ↦ v.taken j (subst (Memᴰ (busy j)) (sym w) old)
    ];
    served = λ j h. elim (v.served j h) [
      | inl done ↦ inl done
      | inr at ↦ elim (swap-cases before after gone (subst (Memᴰ (busy j)) w at)) [
        | inl e ↦ absurd (ground (arith, e))
        | inr old ↦ inr old
      ]
    ];
    opened = v.opened;
    shut = v.shut;
    sent = v.sent;
    done = λ b. ((v.done b).0, omega (arith, (v.done b).1));
    ended = λ _. closed;
    counted = omega (
      arith,
      v.counted,
      ap live w,
      live-append before (idle ∷ after),
      live-append before (gone ∷ after),
    );
  }

  closes-IsSound : (s : Pool) → s.next ≡ jobs → IsSound s → IsSound (close_jobs s)
  unfolding close_jobs
  closes-IsSound s all v = record {
    size = v.size;
    pool = v.pool;
    inside = v.inside;
    taken = v.taken;
    served = v.served;
    opened = λ e. absurd (ground (arith, e));
    shut = λ _. refl;
    sent = λ _. all;
    done = λ e. absurd (ground (arith, e));
    ended = λ _. refl;
    counted = v.counted;
  }

  waits-IsSound :
      (s : Pool) → s.caller ≡ waiting → s.pending ≡ 0 → IsSound s → IsSound (come_back s)
  unfolding come_back
  waits-IsSound s at none_left v = record {
    size = v.size;
    pool = v.pool;
    inside = v.inside;
    taken = v.taken;
    served = v.served;
    opened = λ e. absurd (ground (arith, e));
    shut = λ e. absurd (ground (arith, e));
    sent = v.sent;
    done = λ _. (v.sent (v.shut at), none_left);
    ended = v.ended;
    counted = v.counted;
  }

  pub start-IsSound : IsSound (start jobs)
  start-IsSound = record {
    size = length-replicate jobs none;
    pool = length-replicate (worker_count jobs) idle;
    inside = omega arith;
    taken = λ i m. absurd (ground (arith, start_idle (worker_count jobs) m));
    served = λ i h. absurd (omega (arith, h));
    opened = λ _. refl;
    shut = λ e. absurd (ground (arith, e));
    sent = λ e. absurd (ground (arith, e));
    done = λ e. ground (arith, e);
    ended = λ m. absurd (ground (arith, start_idle (worker_count jobs) m));
    counted = sym (live-start (worker_count jobs));
  }

  Step-IsSound : {s t : Pool} → Step jobs answer s t → IsSound s → IsSound t
  Step-IsSound {s} (takes before after sends more w e) v =
      subst IsSound (sym e) (takes-IsSound s before after sends more w v)
  Step-IsSound {s} (answers before after i w e) v =
      subst IsSound (sym e) (answers-IsSound s before after i w v)
  Step-IsSound {s} (closes sends all e) v = subst IsSound (sym e) (closes-IsSound s all v)
  Step-IsSound {s} (ends before after closed w e) v =
      subst IsSound (sym e) (ends-IsSound s before after closed w v)
  Step-IsSound {s} (waits at no_more e) v = subst IsSound (sym e) (waits-IsSound s at no_more v)

  pub Reaches-IsSound : {s t : Pool} → IsSound s → Reaches jobs answer s t → IsSound t
  Reaches-IsSound v at_once = v
  Reaches-IsSound v (by_step r st) = Step-IsSound st (Reaches-IsSound v r)
