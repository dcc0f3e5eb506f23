-- ===== src/Text/Defs.antt =====
-- Byte strings: literals, equality, case, membership.
use Prim.Native.Char.{code}
use Prim.Native.String.{String}
use mathlib.Core.List.{reverse, reverse-append}
use reptile.Prelude.{
  ◌≢◌, All, ℕ, ◌-◌, ◌≡◌, refl, ◌↔◌, Bool, true, false, ◌&&◌, ◌||◌, List, [], ◌∷◌, ◌++◌, map, ltb,
  leb, ◌==◌, if◌then◌else◌, arith,
}

abbrev pub Text : Type 0
Text = List ℕ

-- The bytes of a literal; every literal below is ASCII.
abbrev pub codes : String → Text
codes String.[] = []
codes (String.◌∷◌ c s) = code c ∷ codes s

-- `s == t`
unfoldable pub eq : Text → Text → Bool
eq [] [] = true
eq (x ∷ xs) (y ∷ ys) = x == y && eq xs ys
eq _ _ = false

pub eq_iff : (s t : Text) → (eq s t ≡ true) ↔ (s ≡ t)
unfolding eq
eq_iff (x ∷ s) (y ∷ t) = ground (arith, eq_iff s t)
eq_iff _ _ = ground arith

pub eq_self : (s : Text) → eq s s ≡ true
eq_self s = (eq_iff s s).1 refl

-- `len(s) == 0`
abbrev pub is_empty {ℓ} : {A : Type ℓ} → List A → Bool
is_empty [] = true
is_empty (_ ∷ _) = false

-- Does a byte stand in a text?
unfoldable pub has_byte : ℕ → Text → Bool
has_byte b [] = false
has_byte b (c ∷ cs) = c == b || has_byte b cs

-- `strings.ContainsAny(s, chars)` for ASCII `chars`
unfoldable pub contains_any : Text → Text → Bool
unfolding has_byte
contains_any [] chars = false
contains_any (c ∷ cs) chars = has_byte c chars || contains_any cs chars

-- Does some text of a list equal this one?
unfoldable pub elem : Text → List Text → Bool
elem t [] = false
elem t (s ∷ ss) = eq s t || elem t ss

unfoldable pub is_ascii : Text → Bool
is_ascii [] = true
is_ascii (c ∷ cs) = ltb c 128 && is_ascii cs

upper_byte : ℕ → ℕ
upper_byte c = if leb b'a' c && leb c b'z' then c - 32 else c

-- `strings.ToUpper` of an ASCII text
unfoldable pub upper_ascii : Text → Text
unfolding upper_byte
upper_ascii = map upper_byte

pub has_byte-append : (b : ℕ) (s t : Text) → has_byte b (s ++ t) ≡ has_byte b s || has_byte b t
unfolding has_byte
has_byte-append b [] t = refl
has_byte-append b (c ∷ s) t = ground (arith, has_byte-append b s t)

pub has_byte-reverse : (b : ℕ) (s : Text) → has_byte b (reverse s) ≡ has_byte b s
unfolding has_byte
has_byte-reverse b [] = refl
has_byte-reverse b (c ∷ s) =
    rw (reverse-append (c ∷ []) s, has_byte-append) (ground (arith, has_byte-reverse b s))

-- No text of the list is the text.
pub elem-ne : (t : Text) (ss : List Text) → elem t ss ≡ false → All (λ s. s ≢ t) ss
unfolding elem
elem-ne t [] h = tt
elem-ne t (s ∷ ss) h =
    (λ e. cc ((eq_iff s t).1 e, or_left (eq s t) (elem t ss) h), elem-ne t ss (ground arith))
  where
    or_left : (a b : Bool) → a || b ≡ false → a ≡ false
    or_left a b h = ground arith

-- `s < t` on strings
unfoldable pub text_ltb : Text → Text → Bool
text_ltb [] [] = false
text_ltb [] (_ ∷ _) = true
text_ltb (_ ∷ _) [] = false
text_ltb (a ∷ s) (b ∷ t) = ltb a b || (a == b && text_ltb s t)
