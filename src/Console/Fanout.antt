-- ===== src/Console/Fanout.antt =====
-- internal/app/fanout.go: one record for several log handlers.
pub mod Delivery
use reptile.Prelude.{
  Bool, true, false, not, ◌||◌, Option, none, some, List, [], ◌∷◌, map, if◌then◌else◌, ℤ,
}
use reptile.Text.Defs.{Text}
use reptile.Console.{Attr, Record}

-- `slog.Handler`, of some type of handlers: the error of `Handle` is `none` if it is nil.
pub record Sinks (H : Type 0) : Type 0 where
  pub enabled : H → ℤ → Bool
  pub handle : H → Record → Option Text
  pub with_attrs : H → List Attr → H
  pub with_group : H → Text → H

-- The handlers whose `Handle` was called, in order, and the error that is returned.
pub record Fanned (H : Type 0) : Type 0 where
  pub called : List H
  pub error : Option Text

module _ {H : Type 0} (sinks : Sinks H) where
  -- `fanoutHandler.Enabled`
  unfoldable pub any_enabled : List H → ℤ → Bool
  any_enabled [] level = false
  any_enabled (h ∷ hs) level = if sinks.enabled h level then true else any_enabled hs level

  -- The call of one handler, then the rest unless it failed.
  unfoldable pub call : H → Option Text → Fanned H → Fanned H
  call h (some e) rest = record { called = h ∷ []; error = some e }
  call h none rest = record { called = h ∷ rest.called; error = rest.error }

  -- `fanoutHandler.Handle`
  unfoldable pub handle_all : List H → Record → Fanned H
  handle_all [] r = record { called = []; error = none }
  handle_all (h ∷ hs) r =
      let rest = handle_all hs r in
      if not (sinks.enabled h r.level) then rest else call h (sinks.handle h r) rest

  -- `fanoutHandler.WithAttrs` and `WithGroup`
  unfoldable pub with_attrs_all : List H → List Attr → List H
  with_attrs_all hs attrs = map (λ h. sinks.with_attrs h attrs) hs

  unfoldable pub with_group_all : List H → Text → List H
  with_group_all hs name = map (λ h. sinks.with_group h name) hs
