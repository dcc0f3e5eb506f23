-- ===== src/Text/Split.antt =====
-- `strings.Split` at one byte, `strings.SplitN` and `strings.Join`.
use reptile.Prelude.{
  ℕ, zero, suc, ◌≡◌, refl, true, false, List, [], ◌∷◌, ◌++◌, ◌==◌, ==_iff, if◌then◌else◌, arith,
}
use mathlib.Core.List.{reverse}
use reptile.Text.Space.{leading_space}
use reptile.Text.Defs.{Text, has_byte}

-- The first piece gets one more byte in front.
abbrev pub cons_head : ℕ → List Text → List Text
cons_head c [] = (c ∷ []) ∷ []
cons_head c (p ∷ ps) = (c ∷ p) ∷ ps

-- `strings.Split(s, sep)`
unfoldable pub split : ℕ → Text → List Text
split sep [] = [] ∷ []
split sep (c ∷ cs) = let rest = split sep cs in if c == sep then [] ∷ rest else cons_head c rest

-- `strings.SplitN(s, sep, suc n)`: at most `n` cuts
unfoldable pub split_n : ℕ → ℕ → Text → List Text
split_n sep n [] = [] ∷ []
split_n sep zero (c ∷ cs) = (c ∷ cs) ∷ []
split_n sep (suc n) (c ∷ cs) = elim (c == sep) [
  | true ↦ [] ∷ split_n sep n cs
  | false ↦ cons_head c (split_n sep (suc n) cs)
]

-- `strings.Join(ps, sep)`
unfoldable pub join : Text → List Text → Text
join sep [] = []
join sep (p ∷ []) = p
join sep (p ∷ q ∷ ps) = p ++ (sep ++ join sep (q ∷ ps))

-- A piece with no separator in it is cut off whole.
pub split_n-append :
    (sep n : ℕ) (p s : Text)
    → has_byte sep p ≡ false
    → split_n sep (suc n) (p ++ sep ∷ s) ≡ p ∷ split_n sep n s
unfolding split_n has_byte
split_n-append sep n [] s h = ground (arith, ==_iff sep sep)
split_n-append sep n (c ∷ p) s h = ground (arith, split_n-append sep n p s)

pub split-append :
    (sep : ℕ) (p s : Text) → has_byte sep p ≡ false → split sep (p ++ sep ∷ s) ≡ p ∷ split sep s
unfolding split has_byte
split-append sep [] s h = ground (arith, ==_iff sep sep)
split-append sep (c ∷ p) s h = ground (arith, split-append sep p s)

pub split_whole : (sep : ℕ) (p : Text) → has_byte sep p ≡ false → split sep p ≡ p ∷ []
unfolding split has_byte
split_whole sep [] h = refl
split_whole sep (c ∷ p) h = ground (arith, split_whole sep p)

flush : Text → List Text → List Text
flush [] rest = rest
flush (c ∷ cs) rest = reverse (c ∷ cs) ∷ rest

-- The field being read, in reverse, after `skip` bytes of a white space rune.
fields_from : ℕ → Text → Text → List Text
fields_from skip field [] = flush field []
fields_from (suc skip) field (c ∷ cs) = fields_from skip field cs
fields_from zero field (c ∷ cs) = elim (leading_space (c ∷ cs)) [
  | zero ↦ fields_from zero (c ∷ field) cs
  | suc skip ↦ flush field (fields_from skip [] cs)
]

-- `strings.Fields`
unfoldable pub fields : Text → List Text
unfolding fields_from flush leading_space
fields s = fields_from 0 [] s
