-- ===== src/Killer/Workers.antt =====
-- `signalProcesses` of internal/app/killer.go: the caller, the workers, the channel and the wait
-- group, in every interleaving.
-- A job is the index of a process; `answer` is what the signal to it returns.
pub mod Live
pub mod Invariant
pub mod Schedules
use reptile.Prelude.{
  ℕ, ◌+◌, ◌-◌, ◌<◌, ◌≡◌, ◌==◌, Bool, true, false, Option, none, List, ◌∷◌, ◌++◌, replicate, set,
  min, if◌then◌else◌,
}
use reptile.Killer.{SignalError}

-- `maxSignalWorkers`
abbrev pub max_signal_workers : ℕ
max_signal_workers = 32

-- A worker waits at the receive of its range loop, is at the signal of a job, or has left the loop.
pub data Worker : Type 0 where
  idle : Worker
  busy : ℕ → Worker
  gone : Worker

-- The caller is in its loop of sends, at `wg.Wait()`, or back with `errs`.
pub data Caller : Type 0 where
  sending waiting returned : Caller

-- `next` jobs are sent so far; `closed` is said of the channel; `pending` is the counter of `wg`.
pub record Pool : Type 0 where
  pub next : ℕ
  pub caller : Caller
  pub closed : Bool
  pub pending : ℕ
  pub workers : List Worker
  pub errs : List (Option SignalError)

-- `workers := len(procs)`, capped
abbrev pub worker_count : ℕ → ℕ
worker_count jobs = min jobs max_signal_workers

-- After `wg.Add(workers)` and the `go` statements; with no process the caller is back at once.
abbrev pub start : ℕ → Pool
start jobs = record {
  next = 0;
  caller = if jobs == 0 then returned else sending;
  closed = false;
  pending = worker_count jobs;
  workers = replicate (worker_count jobs) idle;
  errs = replicate jobs none;
}

-- `jobs <- i` has met a worker's receive.
unfoldable pub hand_over : List Worker → List Worker → Pool → Pool
hand_over before after s = record s { next = s.next + 1; workers = before ++ busy s.next ∷ after }

-- `errs[i] = signal(procs[i].PID, sig)`
unfoldable pub put_answer : List Worker → List Worker → ℕ → Option SignalError → Pool → Pool
put_answer before after i e s = record s { workers = before ++ idle ∷ after; errs = set s.errs i e }

-- `close(jobs)`
unfoldable pub close_jobs : Pool → Pool
close_jobs s = record s { caller = waiting; closed = true }

-- The end of a worker's range loop, and `wg.Done()`.
unfoldable pub end_worker : List Worker → List Worker → Pool → Pool
end_worker before after s = record s { pending = s.pending - 1; workers = before ++ gone ∷ after }

-- `wg.Wait()` and `return errs`
unfoldable pub come_back : Pool → Pool
come_back s = record s { caller = returned }

module _ (jobs : ℕ) (answer : ℕ → Option SignalError) where
  -- A send waits for an idle worker; a range loop ends only at a closed channel; `Wait` waits for
  -- the counter.
  pub data Step (s t : Pool) : Type 0 where
    takes :
        (before after : List Worker)
        → s.caller ≡ sending
        → s.next < jobs
        → s.workers ≡ before ++ idle ∷ after
        → t ≡ hand_over before after s
        → Step s t
    answers :
        (before after : List Worker) (i : ℕ)
        → s.workers ≡ before ++ busy i ∷ after
        → t ≡ put_answer before after i (answer i) s
        → Step s t
    closes : s.caller ≡ sending → s.next ≡ jobs → t ≡ close_jobs s → Step s t
    ends :
        (before after : List Worker)
        → s.closed ≡ true
        → s.workers ≡ before ++ idle ∷ after
        → t ≡ end_worker before after s
        → Step s t
    waits : s.caller ≡ waiting → s.pending ≡ 0 → t ≡ come_back s → Step s t

  pub data Reaches (s : Pool) : Pool → Type 0 where
    at_once : Reaches s s
    by_step : {t u : Pool} → Reaches s t → Step t u → Reaches s u

-- `signalProcesses` has returned.
abbrev pub IsFinished : Pool → Type 0
IsFinished s = s.caller ≡ returned
