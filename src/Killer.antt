-- ===== src/Killer.antt =====
-- `killTargets` of internal/app/killer.go.
-- The process lists and the answers to signals are the argument `System`; `signalProcesses` keeps
-- the order of its answers, so they are a function of the signal and the process.
pub mod Targets
pub mod Names
pub mod Failures
pub mod Listing
pub mod Workers
use reptile.Prelude.{
  ℕ, ℤ, Bool, true, false, Option, none, some, List, [], ◌∷◌, ◌++◌, map, if◌then◌else◌,
}
use reptile.Text.Defs.{Text, elem, is_empty, text_ltb}
use reptile.Result.{Result, ok, err}

-- `proc`
pub record Process : Type 0 where
  pub pid : ℤ
  pub comm : Text

pub data Signal : Type 0 where
  sigterm sigkill : Signal

-- An error of `kill(2)`: the process is gone (ESRCH), or another.
pub data SignalError : Type 0 where
  esrch : SignalError
  refused : Text → SignalError

-- What a call meets.
pub record System : Type 0 where
  -- `Lister.List()`, at first and after the grace period
  pub listed : Result Text (List Process)
  pub relisted : Result Text (List Process)
  pub signal : Signal → ℤ → Option SignalError
  -- The context is done before the grace period ends.
  pub cancelled : Bool

-- A signal with its answer: what `Log` is given.
pub record Sent : Type 0 where
  pub signal : Signal
  pub process : Process
  pub answer : Option SignalError

pub data Failure : Type 0 where
  not_listed : Text → Failure
  not_relisted : Text → Failure
  not_signalled : Signal → Process → Text → Failure

-- The names and the errors that are returned, and the signals that were sent, in order.
pub record Killed : Type 0 where
  pub names : List Text
  pub failures : List Failure
  pub sent : List Sent

-- `if want[p.Comm] { ... append(...) }`
unfoldable pub wanted : List Text → List Process → List Process
wanted targets [] = []
wanted targets (p ∷ ps) = elim (elem p.comm targets) [
  | true ↦ p ∷ wanted targets ps
  | false ↦ wanted targets ps
]

-- The keys of `matched`.
unfoldable pub matched : List Process → List Text
matched [] = []
matched (p ∷ ps) = let rest = matched ps in if elem p.comm rest then rest else p.comm ∷ rest

unfoldable pub insert : Text → List Text → List Text
insert t [] = t ∷ []
insert t (s ∷ ss) = elim (text_ltb s t) [ true ↦ s ∷ insert t ss | false ↦ t ∷ s ∷ ss ]

-- `sort.Strings(names)`
unfoldable pub sort_names : List Text → List Text
unfolding insert
sort_names [] = []
sort_names (t ∷ ts) = insert t (sort_names ts)

abbrev pub answered : System → Signal → Process → Sent
answered sys sig p = record { signal = sig; process = p; answer = sys.signal sig p.pid }

-- `sendAll`: the signals, and the failures among their answers
unfoldable pub send_all : System → Signal → List Process → List Sent
send_all sys sig ps = map (answered sys sig) ps

-- A process that is gone is no failure.
unfoldable pub failures_of : List Sent → List Failure
failures_of [] = []
failures_of (s ∷ ss) = elim s.answer [
  | none ↦ failures_of ss
  | some e ↦ elim e [
    | esrch ↦ failures_of ss
    | refused why ↦ not_signalled s.signal s.process why ∷ failures_of ss
  ]
]

-- After the grace period: SIGKILL to what matches now, survivors and replacements.
unfoldable pub finish :
    System → List Text → List Text → List Sent → Result Text (List Process) → Killed
finish sys targets names terms (err e) = record {
  names = names;
  failures = failures_of terms ++ not_relisted e ∷ [];
  sent = terms;
}
finish sys targets names terms (ok qs) =
    let kills = send_all sys sigkill (wanted targets qs) in
    record {
      names = names;
      failures = failures_of terms ++ failures_of kills;
      sent = terms ++ kills;
    }

-- SIGTERM to the processes that match, and the `select`.
unfoldable pub terminate : System → List Text → List Process → Killed
terminate sys targets hit =
    let names = sort_names (matched hit) in
    let terms = send_all sys sigterm hit in
    if sys.cancelled
    then record { names = names; failures = failures_of terms; sent = terms }
    else finish sys targets names terms sys.relisted

unfoldable pub kill_listed : System → List Text → Result Text (List Process) → Killed
kill_listed sys targets (err e) = record { names = []; failures = not_listed e ∷ []; sent = [] }
kill_listed sys targets (ok ps) =
    let hit = wanted targets ps in
    if is_empty hit
    then record { names = []; failures = []; sent = [] }
    else terminate sys targets hit

-- `killTargets`
unfoldable pub kill_targets : System → List Text → Killed
kill_targets sys targets = kill_listed sys targets sys.listed
