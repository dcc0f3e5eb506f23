-- ===== src/Killer/Failures.antt =====
-- When `killTargets` returns an error.
use reptile.Prelude.{
  ◌≡◌, refl, sym, ◌∙◌, ◌↔◌, ◌⊎◌, inl, inr, Option, none, some, List, [], ◌∷◌, ◌++◌, All, Bool-cases,
  arith,
}
use reptile.Text.Defs.{Text, is_empty}
use reptile.Result.{ok}
use reptile.Killer.{
  Process, System, Sent, SignalError, esrch, refused, sigkill, sigterm, send_all, wanted,
  failures_of, finish, terminate, kill_listed, kill_targets,
}

-- The signal was delivered, or its process was already gone.
abbrev pub IsSettled : Sent → Type 0
IsSettled s = (s.answer ≡ none) ⊎ (s.answer ≡ some esrch)

failures_of-append : (ss ts : List Sent) → failures_of (ss ++ ts) ≡ failures_of ss ++ failures_of ts
unfolding failures_of
failures_of-append [] ts = refl
failures_of-append (s ∷ ss) ts = ground (arith, failures_of-append ss ts)

failures_of-IsSettled : (ss : List Sent) → failures_of ss ≡ [] → All IsSettled ss
unfolding failures_of
failures_of-IsSettled [] h = tt
failures_of-IsSettled (s ∷ ss) h = one s.answer refl (λ k. failures_of-IsSettled ss k)
  where
    one :
        (a : Option SignalError)
        → s.answer ≡ a
        → (failures_of ss ≡ [] → All IsSettled ss)
        → IsSettled s × All IsSettled ss
    one none e rest = (inl e, rest (rw (e, failures_of) at h))
    one (some esrch) e rest = (inr e, rest (rw (e, failures_of) at h))
    one (some (refused why)) e rest = absurd (ground (arith, e, h))

IsSettled-failures_of : (ss : List Sent) → All IsSettled ss → failures_of ss ≡ []
unfolding failures_of
IsSettled-failures_of [] h = refl
IsSettled-failures_of (s ∷ ss) (inl e, h) = rw (e, failures_of) (IsSettled-failures_of ss h)
IsSettled-failures_of (s ∷ ss) (inr e, h) = rw (e, failures_of) (IsSettled-failures_of ss h)

terminate_failures :
    (sys : System) (targets : List Text) (hit : List Process) {qs : List Process}
    → sys.relisted ≡ ok qs
    → (terminate sys targets hit).failures ≡ failures_of (terminate sys targets hit).sent
unfolding terminate finish send_all
terminate_failures sys targets hit {qs} r = elim (Bool-cases sys.cancelled) [
  | inl done ↦ rw done
  | inr waited ↦
      rw (waited, r)
        (sym (
          failures_of-append (send_all sys sigterm hit) (send_all sys sigkill (wanted targets qs))))
]

kill_targets_failures :
    (sys : System) (targets : List Text) {ps qs : List Process}
    → sys.listed ≡ ok ps
    → sys.relisted ≡ ok qs
    → (kill_targets sys targets).failures ≡ failures_of (kill_targets sys targets).sent
unfolding kill_targets kill_listed failures_of
kill_targets_failures sys targets {ps} l r = elim (Bool-cases (is_empty (wanted targets ps))) [
  | inl nothing ↦ rw (l, kill_listed, nothing)
  | inr some_hit ↦
      simp (l, some_hit, kill_listed, terminate_failures sys targets (wanted targets ps) r)
]

-- If the processes can be listed, no failure is returned exactly if every signal that was sent
-- was delivered or came too late.
pub kill_targets_succeeds_iff :
    (sys : System) (targets : List Text) {ps qs : List Process}
    → sys.listed ≡ ok ps
    → sys.relisted ≡ ok qs
    → ((kill_targets sys targets).failures ≡ []) ↔ All IsSettled (kill_targets sys targets).sent
kill_targets_succeeds_iff sys targets l r =
    let same = kill_targets_failures sys targets l r in
    (
      λ h. failures_of-IsSettled (kill_targets sys targets).sent (sym same ∙ h),
      λ h. same ∙ IsSettled-failures_of (kill_targets sys targets).sent h,
    )
