-- ===== src/Killer/Targets.antt =====
-- Which processes are signalled, and when the killer reports a failure.
use reptile.Prelude.{
  ◌≡◌, ◌∙◌, refl, sym, ap, subst, ◌↔◌, inl, inr, true, false, List, [], ◌∷◌, ◌++◌, Bool-cases,
  append-nil,
}
use mathlib.Core.List.Memᴰ.{not-nil, append_left, append_right, append_cases}
use mathlib.Core.List.{Memᴰ}
use reptile.Text.Defs.{Text, elem, is_empty}
use reptile.Result.{ok, err, Result-cases}
use reptile.Killer.{
  Process, Signal, sigterm, sigkill, System, Sent, Killed, wanted, answered, send_all, finish,
  terminate, kill_listed, kill_targets,
}

-- A listed process that a target names.
abbrev pub IsHit : List Text → List Process → Process → Type 0
IsHit targets ps p = Memᴰ p ps × (elem p.comm targets ≡ true)

pub wanted-IsHit :
    (targets : List Text) (ps : List Process) {p : Process}
    → Memᴰ p (wanted targets ps)
    → IsHit targets ps p
unfolding wanted
wanted-IsHit targets [] m = elim m [ ]
wanted-IsHit targets (q ∷ qs) {p} m = elim (Bool-cases (elem q.comm targets)) [
  | inl hit ↦ kept hit (λ n. wanted-IsHit targets qs n) (rw (hit, wanted) at m)
  | inr miss ↦ later (wanted-IsHit targets qs (rw (miss, wanted) at m))
]
  where
    later : IsHit targets qs p → IsHit targets (q ∷ qs) p
    later h = (Memᴰ.tail h.0, h.1)

    kept :
        elem q.comm targets ≡ true
        → (Memᴰ p (wanted targets qs) → IsHit targets qs p)
        → Memᴰ p (q ∷ wanted targets qs)
        → IsHit targets (q ∷ qs) p
    kept hit rest (Memᴰ.head e) =
        (Memᴰ.head e, subst (λ (x : Process). elem x.comm targets ≡ true) (sym e) hit)
    kept hit rest (Memᴰ.tail n) = later (rest n)

pub IsHit-wanted :
    (targets : List Text) (ps : List Process) {p : Process}
    → IsHit targets ps p
    → Memᴰ p (wanted targets ps)
unfolding wanted
IsHit-wanted targets [] (m, _) = elim m [ ]
IsHit-wanted targets (q ∷ qs) (Memᴰ.head e, named) =
    rw (subst (λ (x : Process). elem x.comm targets ≡ true) e named, wanted) (Memᴰ.head e)
IsHit-wanted targets (q ∷ qs) (Memᴰ.tail m, named) =
    let later = IsHit-wanted targets qs (m, named) in
    elim (Bool-cases (elem q.comm targets)) [
      | inl hit ↦ rw (hit, wanted) (Memᴰ.tail later)
      | inr miss ↦ rw (miss, wanted) later
    ]

send_all-Memᴰ :
    (sys : System) (sig : Signal) (ps : List Process) {p : Process}
    → Memᴰ p ps
    → Memᴰ (answered sys sig p) (send_all sys sig ps)
unfolding send_all
send_all-Memᴰ sys sig [] m = elim m [ ]
send_all-Memᴰ sys sig (q ∷ qs) (Memᴰ.head e) = Memᴰ.head (ap (answered sys sig) e)
send_all-Memᴰ sys sig (q ∷ qs) (Memᴰ.tail m) = Memᴰ.tail (send_all-Memᴰ sys sig qs m)

Memᴰ-send_all :
    (sys : System) (sig : Signal) (ps : List Process) {s : Sent}
    → Memᴰ s (send_all sys sig ps)
    → (s.signal ≡ sig) × Memᴰ s.process ps
unfolding send_all
Memᴰ-send_all sys sig [] m = elim m [ ]
Memᴰ-send_all sys sig (q ∷ qs) (Memᴰ.head e) =
    (ap (λ (s : Sent). s.signal) e, Memᴰ.head (ap (λ (s : Sent). s.process) e))
Memᴰ-send_all sys sig (q ∷ qs) (Memᴰ.tail m) =
    let (same, later) = Memᴰ-send_all sys sig qs m in (same, Memᴰ.tail later)

-- What is sent is a SIGTERM to each hit of the first list, then a SIGKILL to each process of some list.
record IsSplit (sys : System) (targets : List Text) (ps killed : List Process) : Type 0 where
  sent :
      (kill_targets sys targets).sent
      ≡ send_all sys sigterm (wanted targets ps) ++ send_all sys sigkill killed

pub is_empty-nil : (ps : List Process) → is_empty ps ≡ true → ps ≡ []
is_empty-nil [] h = refl
is_empty-nil (p ∷ ps) h = cc

terminate-cancelled :
    (sys : System) (targets : List Text) (hit : List Process)
    → sys.cancelled ≡ true
    → (terminate sys targets hit).sent ≡ send_all sys sigterm hit ++ send_all sys sigkill []
unfolding terminate send_all
terminate-cancelled sys targets hit c = rw c (sym (append-nil _))

terminate-unlisted :
    (sys : System) (targets : List Text) (hit : List Process) {e : Text}
    → sys.cancelled ≡ false
    → sys.relisted ≡ err e
    → (terminate sys targets hit).sent ≡ send_all sys sigterm hit ++ send_all sys sigkill []
unfolding terminate finish send_all
terminate-unlisted sys targets hit c r = rw (c, r) (sym (append-nil _))

terminate-relisted :
    (sys : System) (targets : List Text) (hit : List Process) {qs : List Process}
    → sys.cancelled ≡ false
    → sys.relisted ≡ ok qs
    → (terminate sys targets hit).sent
      ≡ send_all sys sigterm hit ++ send_all sys sigkill (wanted targets qs)
unfolding terminate finish
terminate-relisted sys targets hit c r = rw (c, r)

terminate-split :
    (sys : System) (targets : List Text) (hit : List Process)
    → (killed : List Process) × ((terminate sys targets hit).sent
        ≡ send_all sys sigterm hit ++ send_all sys sigkill killed)
terminate-split sys targets hit = elim (Bool-cases sys.cancelled) [
  | inl done ↦ ([], terminate-cancelled sys targets hit done)
  | inr waited ↦ elim (Result-cases sys.relisted) [
    | inl (e, bad) ↦ ([], terminate-unlisted sys targets hit waited bad)
    | inr (qs, good) ↦ (wanted targets qs, terminate-relisted sys targets hit waited good)
  ]
]

pub kill_targets-terminate :
    (sys : System) (targets : List Text) {ps : List Process}
    → sys.listed ≡ ok ps
    → is_empty (wanted targets ps) ≡ false
    → kill_targets sys targets ≡ terminate sys targets (wanted targets ps)
unfolding kill_targets kill_listed
kill_targets-terminate sys targets l some_hit = simp (l, some_hit, kill_listed)

kill_targets-idle :
    (sys : System) (targets : List Text) {ps : List Process}
    → sys.listed ≡ ok ps
    → is_empty (wanted targets ps) ≡ true
    → (kill_targets sys targets).sent ≡ []
unfolding kill_targets kill_listed
kill_targets-idle sys targets l nothing = rw (l, kill_listed, nothing)

kill_targets-IsSplit :
    (sys : System) (targets : List Text) {ps : List Process}
    → sys.listed ≡ ok ps
    → (killed : List Process) × IsSplit sys targets ps killed
unfolding send_all
kill_targets-IsSplit sys targets {ps} l = elim (Bool-cases (is_empty (wanted targets ps))) [
  | inl nothing ↦
      ([], record { sent = rw (kill_targets-idle sys targets l nothing, is_empty-nil _ nothing) })
  | inr some_hit ↦
      let (killed, split) = terminate-split sys targets (wanted targets ps) in
      (
        killed,
        record {
          sent =
              ap (λ (k : Killed). k.sent) (kill_targets-terminate sys targets l some_hit) ∙ split;
        },
      )
]

IsHit-some :
    (targets : List Text) (ps : List Process) {q : Process}
    → IsHit targets ps q
    → is_empty (wanted targets ps) ≡ false
IsHit-some targets ps {q} h = elim (Bool-cases (is_empty (wanted targets ps))) [
  | inl nothing ↦
      absurd (not-nil (subst (Memᴰ q) (is_empty-nil _ nothing) (IsHit-wanted targets ps h)))
  | inr some_hit ↦ some_hit
]

kill_targets-relisted :
    (sys : System) (targets : List Text) {ps qs : List Process} {q : Process}
    → sys.listed ≡ ok ps
    → IsHit targets ps q
    → sys.cancelled ≡ false
    → sys.relisted ≡ ok qs
    → (kill_targets sys targets).sent
      ≡ send_all sys sigterm (wanted targets ps) ++ send_all sys sigkill (wanted targets qs)
kill_targets-relisted sys targets {ps} l running waited again =
    ap (λ (k : Killed). k.sent)
      (kill_targets-terminate sys targets l (IsHit-some targets ps running))
    ∙ terminate-relisted sys targets (wanted targets ps) waited again

-- If the first list succeeds, a process of it is sent SIGTERM exactly if a target names it, and no
-- other process is, whatever else happens in the call.
pub kill_targets_terminates :
    (sys : System) (targets : List Text) {ps : List Process}
    → sys.listed ≡ ok ps
    → (p : Process)
    → Memᴰ (answered sys sigterm p) (kill_targets sys targets).sent ↔ IsHit targets ps p
kill_targets_terminates sys targets {ps} l p =
    let (killed, split) = kill_targets-IsSplit sys targets l in
    (
      λ m.
          elim (append_cases (send_all sys sigterm (wanted targets ps))
            (subst (Memᴰ (answered sys sigterm p)) split.sent m)) [
              | inl term ↦ wanted-IsHit targets ps (Memᴰ-send_all sys sigterm _ term).1
              | inr kill ↦ cc ((Memᴰ-send_all sys sigkill killed kill).0)
            ],
      λ h.
          subst (Memᴰ (answered sys sigterm p)) (sym split.sent)
            (append_left _ (send_all-Memᴰ sys sigterm _ (IsHit-wanted targets ps h))),
    )

-- If the first list shows a process that a target names, the grace period passes and the second
-- list succeeds, a process is sent SIGKILL exactly if the second list shows it and a target names
-- it.
pub kill_targets_kills :
    (sys : System) (targets : List Text) {ps qs : List Process} {q : Process}
    → sys.listed ≡ ok ps
    → IsHit targets ps q
    → sys.cancelled ≡ false
    → sys.relisted ≡ ok qs
    → (p : Process)
    → Memᴰ (answered sys sigkill p) (kill_targets sys targets).sent ↔ IsHit targets qs p
kill_targets_kills sys targets {ps} {qs} {q} l running waited again p =
    let sent = kill_targets-relisted sys targets l running waited again in
    (
      λ m.
          elim (append_cases (send_all sys sigterm (wanted targets ps))
            (subst (Memᴰ (answered sys sigkill p)) sent m)) [
              | inl term ↦ cc ((Memᴰ-send_all sys sigterm _ term).0)
              | inr kill ↦ wanted-IsHit targets qs (Memᴰ-send_all sys sigkill _ kill).1
            ],
      λ h. subst (Memᴰ (answered sys sigkill p)) (sym sent) (
          append_right (send_all sys sigterm (wanted targets ps))
            (send_all-Memᴰ sys sigkill _ (IsHit-wanted targets qs h))),
    )
