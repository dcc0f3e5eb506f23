-- ===== src/Console/Fanout/Delivery.antt =====
-- Which handlers get a record.
use reptile.Prelude.{
  ◌≡◌, refl, ap, ◌↔◌, inl, inr, true, false, none, List, [], ◌∷◌, All, Bool-cases, Option-cases,
  if◌then◌else◌,
}
use reptile.Console.{Record}
use reptile.Console.Fanout.{Sinks, any_enabled, call, handle_all}

module _ {H : Type 0} (sinks : Sinks H) where
  -- A handler that accepts the record took it without an error.
  abbrev pub IsServed : Record → H → Type 0
  IsServed r h = sinks.enabled h r.level ≡ true → sinks.handle h r ≡ none

  -- The handlers that accept a record.
  abbrev pub accepting : Record → List H → List H
  accepting r [] = []
  accepting r (h ∷ hs) = if sinks.enabled h r.level then h ∷ accepting r hs else accepting r hs

  -- No error is returned exactly if every handler that accepts the level takes the record without
  -- an error, and then these are the handlers that were called, in their order; if no handler
  -- accepts the level, none is called.
  pub handle_all_exact :
      (hs : List H) (r : Record)
      → (((handle_all sinks hs r).error ≡ none) ↔ All (λ h. IsServed r h) hs)
        × ((handle_all sinks hs r).error ≡ none → (handle_all sinks hs r).called ≡ accepting r hs)
        × (any_enabled sinks hs r.level ≡ false → (handle_all sinks hs r).called ≡ [])
  unfolding handle_all any_enabled call
  handle_all_exact [] r = ((λ h. tt, λ h. refl), λ h. refl, λ h. refl)
  handle_all_exact (h ∷ hs) r =
      let (served, order, quiet) = handle_all_exact hs r in
      elim (Bool-cases (sinks.enabled h r.level)) [
        | inl on ↦ elim (Option-cases (sinks.handle h r)) [
          | inl good ↦
              rw (on, good)
                (
                  (λ e. (λ _. refl, served.0 e), λ a. served.1 a.1),
                  λ e. ap (λ xs. h ∷ xs) (order e),
                  λ e. cc,
                )
          | inr (why, bad) ↦ rw (on, bad) ((λ e. cc, λ a. cc (a.0 refl)), λ e. cc, λ e. cc)
        ]
        | inr off ↦ rw off ((λ e. (λ on. cc, served.0 e), λ a. served.1 a.1), order, quiet)
      ]
