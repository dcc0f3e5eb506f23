-- ===== src/Text/Number.antt =====
-- `strconv`: decimal printing, `ParseInt(s, 10, 64)` (`Atoi` on a 64-bit host).
use reptile.Prelude.{
  ℕ, zero, suc, ◌+◌, ◌-◌, ◌*◌, ◌/◌, ◌%◌, ◌^◌, ◌≤◌, ◌≡◌, Bool, true, false, ◌&&◌, Option, none, some,
  [], ◌∷◌, ltb, leb, ◌==◌, if◌then◌else◌, arith, ℤ, pos, negsuc,
}
use reptile.Text.Defs.{Text}

-- The digits of `n` in front of `acc`; `n + 1` rounds are enough.
unfoldable pub digits_onto : ℕ → ℕ → Text → Text
digits_onto zero n acc = acc
digits_onto (suc f) n acc = elim (ltb n 10) [
  | true ↦ (b'0' + n) ∷ acc
  | false ↦ digits_onto f (n / 10) ((b'0' + n % 10) ∷ acc)
]

-- `%d` of a number that is not negative
unfoldable pub itoa_ℕ : ℕ → Text
unfolding digits_onto
itoa_ℕ n = digits_onto (suc n) n []

-- `strconv.Itoa`, `%d`
unfoldable pub itoa : ℤ → Text
unfolding itoa_ℕ
itoa (pos n) = itoa_ℕ n
itoa (negsuc n) = b'-' ∷ itoa_ℕ (suc n)

unfoldable pub is_digit : ℕ → Bool
is_digit c = leb b'0' c && leb c b'9'

unfoldable pub parse_digits : ℕ → Text → Option ℕ
unfolding is_digit
parse_digits n [] = some n
parse_digits n (c ∷ cs) = elim (is_digit c) [
  | true ↦ parse_digits (n * 10 + (c - b'0')) cs
  | false ↦ none
]

abbrev pub int_max : ℕ
int_max = 2 ^ 63 - 1

-- An overflow is an error, as a malformed number is.
unfoldable pub positive : Option ℕ → Option ℤ
positive none = none
positive (some n) = if leb n int_max then some (pos n) else none

unfoldable pub negative : Option ℕ → Option ℤ
negative none = none
negative (some zero) = some (pos 0)
negative (some (suc n)) = if leb n int_max then some (negsuc n) else none

unfoldable pub unsigned : Text → Option ℕ
unfolding parse_digits
unsigned [] = none
unsigned s = parse_digits 0 s

unfoldable pub parse_int : Text → Option ℤ
unfolding positive negative unsigned
parse_int [] = none
parse_int (c ∷ cs) =
    if c == b'-'
    then negative (unsigned cs)
    else if c == b'+'
    then positive (unsigned cs)
    else positive (unsigned (c ∷ cs))

positive-le : (o : Option ℕ) (n : ℕ) → positive o ≡ some (pos n) → n ≤ int_max
unfolding positive
positive-le o n h = ground arith

negative-le : (o : Option ℕ) (n : ℕ) → negative o ≡ some (pos n) → n ≤ int_max
unfolding negative
negative-le none n h = cc
negative-le (some zero) n h = ground arith
negative-le (some (suc m)) n h = ground arith

-- A parsed number fits 64 bits.
pub parse_int-le : (s : Text) (n : ℕ) → parse_int s ≡ some (pos n) → n ≤ int_max
unfolding parse_int
parse_int-le [] n h = cc
parse_int-le (c ∷ cs) n h = ground (
  arith,
  positive-le (unsigned cs) n,
  negative-le (unsigned cs) n,
  positive-le (unsigned (c ∷ cs)) n,
)
