-- ===== src/Text/Space.antt =====
-- `strings.TrimSpace`: the white space of Unicode, in UTF-8.
use mathlib.Core.List.{reverse}
use reptile.Prelude.{◌≡◌, refl, ℕ, zero, suc, Bool, ◌&&◌, ◌||◌, [], ◌∷◌, leb, ◌==◌, if◌then◌else◌}
use reptile.Text.Defs.{Text}

-- '\t', '\n', '\v', '\f', '\r', ' '
unfoldable pub ascii_space : ℕ → Bool
ascii_space c = (leb 9 c && leb c 13) || c == 32

-- U+0085, U+00A0
unfoldable pub wide_space2 : ℕ → ℕ → Bool
wide_space2 a b = a == 0xC2 && (b == 0x85 || b == 0xA0)

-- U+1680, U+2000 to U+200A, U+2028, U+2029, U+202F, U+205F, U+3000
unfoldable pub wide_space3 : ℕ → ℕ → ℕ → Bool
wide_space3 a b c =
    (a == 0xE1 && b == 0x9A && c == 0x80)
    || (a == 0xE2
        && b == 0x80
        && ((leb 0x80 c && leb c 0x8A) || c == 0xA8 || c == 0xA9 || c == 0xAF))
    || (a == 0xE2 && b == 0x81 && c == 0x9F)
    || (a == 0xE3 && b == 0x80 && c == 0x80)

-- How many bytes the white space rune at the head takes; 0 if there is none.
unfoldable pub leading_space : Text → ℕ
unfolding ascii_space wide_space2 wide_space3
leading_space [] = 0
leading_space (a ∷ []) = if ascii_space a then 1 else 0
leading_space (a ∷ b ∷ []) = if ascii_space a then 1 else if wide_space2 a b then 2 else 0
leading_space (a ∷ b ∷ c ∷ _) =
    if ascii_space a then 1 else if wide_space2 a b then 2 else if wide_space3 a b c then 3 else 0

-- The same of a reversed text: the rune at the end.
unfoldable pub trailing_space : Text → ℕ
unfolding ascii_space wide_space2 wide_space3
trailing_space [] = 0
trailing_space (a ∷ []) = if ascii_space a then 1 else 0
trailing_space (b ∷ a ∷ []) = if ascii_space b then 1 else if wide_space2 a b then 2 else 0
trailing_space (c ∷ b ∷ a ∷ _) =
    if ascii_space c then 1 else if wide_space2 b c then 2 else if wide_space3 a b c then 3 else 0

-- Drops runes that `space` measures, after `skip` bytes of the rune being dropped.
unfoldable pub strip : (Text → ℕ) → ℕ → Text → Text
strip space skip [] = []
strip space (suc skip) (c ∷ cs) = strip space skip cs
strip space zero (c ∷ cs) = elim (space (c ∷ cs)) [ zero ↦ c ∷ cs | suc skip ↦ strip space skip cs ]

unfoldable pub trim_space : Text → Text
unfolding strip leading_space trailing_space
trim_space s = reverse (strip trailing_space 0 (reverse (strip leading_space 0 s)))

-- A blank in front is trimmed.
pub trim_space-blank : (s : Text) → trim_space (b' ' ∷ s) ≡ trim_space s
unfolding trim_space
trim_space-blank [] = refl
trim_space-blank (a ∷ []) = refl
trim_space-blank (a ∷ b ∷ s) = refl
