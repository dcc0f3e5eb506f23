-- ===== src/Killer/Listing.antt =====
-- `procLister` of internal/app/killer.go.
-- What the kernel shows under /proc is the argument: the names of the directory and, for each, the
-- answer to the read of its `comm`.
use reptile.Prelude.{
  ◌≡◌, refl, sym, ap, subst, ◌↔◌, inl, inr, Option, none, some, List, [], ◌∷◌, true,
}
use reptile.Prelude.Tests.{Option-cases}
use mathlib.Core.List.{Memᴰ}
use reptile.Text.Defs.{Text, elem}
use reptile.Text.Number.{parse_int}
use reptile.Text.Space.{trim_space}
use reptile.Result.{Result, ok, err, Result-cases}
use reptile.Killer.{Process, System, sigterm, answered, kill_targets}
use reptile.Killer.Targets.{kill_targets_terminates}

-- A name in /proc, and what the read of its `comm` returns.
pub record Entry : Type 0 where
  pub name : Text
  pub comm : Result Text Text

-- The body of the loop: a name that is no number is skipped, and so is a process that is gone.
unfoldable pub process_of : Entry → Option Process
process_of e = elim (parse_int e.name) [
  | none ↦ none
  | some pid ↦ elim e.comm [
    | err _ ↦ none
    | ok read ↦ some (record { pid = pid; comm = trim_space read })
  ]
]

unfoldable pub processes_of : List Entry → List Process
processes_of [] = []
processes_of (e ∷ es) =
    let rest = processes_of es in elim (process_of e) [ none ↦ rest | some p ↦ p ∷ rest ]

-- `List`: the directory cannot be read, or its processes
unfoldable pub list_processes : Result Text (List Entry) → Result Text (List Process)
list_processes (err why) = err why
list_processes (ok es) = ok (processes_of es)

-- A name of the directory is the number of the process, and its `comm` was read.
pub record IsListed (es : List Entry) (p : Process) : Type 0 where
  pub entry : Entry
  pub present : Memᴰ entry es
  pub numbered : parse_int entry.name ≡ some p.pid
  pub read : Text
  pub read_ok : entry.comm ≡ ok read
  pub trimmed : p.comm ≡ trim_space read

-- What the entry of a process shows.
abbrev Shows : Entry → Process → Type 0
Shows e p = (parse_int e.name ≡ some p.pid) × (t : Text) × (e.comm ≡ ok t) × (p.comm ≡ trim_space t)

process_of-Shows : (e : Entry) {p : Process} → process_of e ≡ some p → Shows e p
unfolding process_of
process_of-Shows e {p} h = elim (Option-cases (parse_int e.name)) [
  | inl other ↦ cc (rw (other, process_of) at h)
  | inr (pid, number) ↦ elim (Result-cases e.comm) [
    | inl (why, gone) ↦ cc (rw (number, gone, process_of) at h)
    | inr (t, read) ↦
        let made = rw (number, read, process_of) at h in (cc (number, made), t, read, cc made)
  ]
]

Shows-process_of : (e : Entry) {p : Process} → Shows e p → process_of e ≡ some p
unfolding process_of
Shows-process_of e {p} (number, t, read, trimmed) =
    rw (number, read, process_of) (ap some (cc trimmed))

IsListed-tail : (e : Entry) (es : List Entry) {p : Process} → IsListed es p → IsListed (e ∷ es) p
IsListed-tail e es l = record {
  entry = l.entry;
  present = Memᴰ.tail l.present;
  numbered = l.numbered;
  read = l.read;
  read_ok = l.read_ok;
  trimmed = l.trimmed;
}

processes_of-IsListed : (es : List Entry) {p : Process} → Memᴰ p (processes_of es) → IsListed es p
unfolding processes_of
processes_of-IsListed [] m = elim m [ ]
processes_of-IsListed (e ∷ es) {p} m =
    let rest : Memᴰ p (processes_of es) → IsListed (e ∷ es) p =
      λ k. IsListed-tail e es (processes_of-IsListed es k) in
    elim (Option-cases (process_of e)) [
      | inl skipped ↦ rest (rw (skipped, processes_of) at m)
      | inr (q, made) ↦ kept made rest (rw (made, processes_of) at m)
    ]
  where
    kept :
        {q : Process}
        → process_of e ≡ some q
        → (Memᴰ p (processes_of es) → IsListed (e ∷ es) p)
        → Memᴰ p (q ∷ processes_of es)
        → IsListed (e ∷ es) p
    kept made rest (Memᴰ.tail k) = rest k
    kept made rest (Memᴰ.head same) =
        let (number, t, read, trimmed) =
          process_of-Shows e (subst (λ x. process_of e ≡ some x) (sym same) made) in
        record {
          entry = e;
          present = Memᴰ.head refl;
          numbered = number;
          read = t;
          read_ok = read;
          trimmed = trimmed;
        }

Shows-processes_of :
    (es : List Entry) {e : Entry} {p : Process} → Memᴰ e es → Shows e p → Memᴰ p (processes_of es)
unfolding processes_of
Shows-processes_of [] m shown = elim m [ ]
Shows-processes_of (d ∷ es) {e} {p} (Memᴰ.head same) shown =
    rw (Shows-process_of d (subst (λ x. Shows x p) same shown), processes_of) (Memᴰ.head refl)
Shows-processes_of (d ∷ es) (Memᴰ.tail k) shown =
    let later = Shows-processes_of es k shown in
    elim (Option-cases (process_of d)) [
      | inl skipped ↦ rw (skipped, processes_of) later
      | inr (q, made) ↦ rw (made, processes_of) (Memᴰ.tail later)
    ]

pub list_processes-IsListed :
    (es : List Entry) (p : Process) → Memᴰ p (processes_of es) ↔ IsListed es p
list_processes-IsListed es p = (
  λ m. processes_of-IsListed es m,
  λ l. Shows-processes_of es l.present (l.numbered, l.read, l.read_ok, l.trimmed),
)

-- If the first list is what /proc shows and /proc can be read, SIGTERM is sent exactly to the
-- processes whose number is a name in /proc, whose `comm` could be read, and whose `comm`, trimmed,
-- is one of the targets.
pub list_processes_terminates :
    (sys : System) (targets : List Text) (es : List Entry)
    → sys.listed ≡ list_processes (ok es)
    → (p : Process)
    → Memᴰ (answered sys sigterm p) (kill_targets sys targets).sent
      ↔ (IsListed es p × (elem p.comm targets ≡ true))
unfolding list_processes
list_processes_terminates sys targets es h p =
    let (hits, sent) = kill_targets_terminates sys targets h p in
    let (shown, present) = list_processes-IsListed es p in
    (λ m. (shown ((hits m).0), (hits m).1), λ l. sent (present l.0, l.1))
