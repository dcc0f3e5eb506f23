-- ===== src/Text/Decimal.antt =====
-- `strconv.Itoa` and `strconv.Atoi` undo each other.
use reptile.Prelude.{
  ℕ, zero, suc, ◌+◌, ◌*◌, ◌/◌, ◌%◌, ◌≤◌, ◌<◌, ◌≡◌, ◌≢◌, refl, sym, ap, ◌∙◌, inl, inr, true, some,
  [], ◌∷◌, ltb, arith, ℤ, pos, negsuc, Bool-cases,
}
use reptile.Text.Defs.{Text}
use reptile.Text.Number.{
  digits_onto, itoa_ℕ, itoa, is_digit, parse_digits, int_max, positive, negative, unsigned,
  parse_int,
}

parse_digits-digit :
    (m d : ℕ) (acc : Text)
    → d < 10
    → parse_digits m ((b'0' + d) ∷ acc) ≡ parse_digits (m * 10 + d) acc
unfolding parse_digits is_digit
parse_digits-digit m d acc h = ground arith

parse_digits-digits_onto :
    (f n : ℕ) (acc : Text) → n < f → parse_digits 0 (digits_onto f n acc) ≡ parse_digits n acc
unfolding digits_onto
parse_digits-digits_onto zero n acc h = elim h [ ]
parse_digits-digits_onto (suc f) n acc h = elim (Bool-cases (ltb n 10)) [
  | inl small ↦
      rw (small, digits_onto)
        (parse_digits-digit 0 n acc (ground arith) ∙ ap (λ k. parse_digits k acc) (omega arith))
  | inr large ↦
      rw (large, digits_onto, parse_digits-digits_onto f (n / 10) _ (ground arith))
        (parse_digits-digit (n / 10) (n % 10) acc (ground arith)
          ∙ ap (λ k. parse_digits k acc) (omega arith))
]

-- The first byte is a digit.
abbrev Digital : Text → Type 0
Digital [] = ◌≡◌ {A = ℕ} 0 1
Digital (c ∷ _) = is_digit c ≡ true

digits_onto-Digital : (f n : ℕ) (acc : Text) → n < f → Digital (digits_onto f n acc)
unfolding digits_onto is_digit
digits_onto-Digital zero n acc h = elim h [ ]
digits_onto-Digital (suc f) n acc h = elim (Bool-cases (ltb n 10)) [
  | inl small ↦ rw (small, digits_onto) (ground arith)
  | inr large ↦ rw (large, digits_onto) (digits_onto-Digital f (n / 10) _ (ground arith))
]

unsigned-Digital : (s : Text) → Digital s → unsigned s ≡ parse_digits 0 s
unfolding unsigned
unsigned-Digital [] h = absurd (zero_one h)
  where
    zero_one : ◌≢◌ {A = ℕ} 0 1
    zero_one = omega arith
unsigned-Digital (c ∷ cs) h = refl

unsigned-itoa_ℕ : (n : ℕ) → unsigned (itoa_ℕ n) ≡ some n
unfolding itoa_ℕ parse_digits
unsigned-itoa_ℕ n =
    unsigned-Digital (itoa_ℕ n) (digits_onto-Digital (suc n) n [] (omega arith))
    ∙ parse_digits-digits_onto (suc n) n [] (omega arith)

itoa_ℕ-Digital : (n : ℕ) → Digital (itoa_ℕ n)
unfolding itoa_ℕ
itoa_ℕ-Digital n = digits_onto-Digital (suc n) n [] (omega arith)

-- A number without a sign is read as it stands.
parse_int-Digital : (s : Text) → Digital s → parse_int s ≡ positive (unsigned s)
unfolding parse_int unsigned positive is_digit
parse_int-Digital [] h = refl
parse_int-Digital (c ∷ cs) h = ground arith

-- A native integer of 64 bits.
abbrev pub FitsInt : ℤ → Type 0
FitsInt (pos n) = n ≤ int_max
FitsInt (negsuc n) = n ≤ int_max

parse_int-minus : (s : Text) → parse_int (b'-' ∷ s) ≡ negative (unsigned s)
unfolding parse_int
parse_int-minus s = refl

positive-le : (n : ℕ) → n ≤ int_max → positive (some n) ≡ some (pos n)
unfolding positive
positive-le n h = ground arith

negative-le : (n : ℕ) → n ≤ int_max → negative (some (suc n)) ≡ some (negsuc n)
unfolding negative
negative-le n h = ground arith

-- What `Itoa` prints, `Atoi` reads.
pub parse_int-itoa : (z : ℤ) → FitsInt z → parse_int (itoa z) ≡ some z
unfolding itoa
parse_int-itoa (pos n) h =
    parse_int-Digital (itoa_ℕ n) (itoa_ℕ-Digital n)
    ∙ ap positive (unsigned-itoa_ℕ n)
    ∙ positive-le n h
parse_int-itoa (negsuc n) h =
    parse_int-minus (itoa_ℕ (suc n)) ∙ ap negative (unsigned-itoa_ℕ (suc n)) ∙ negative-le n h

itoa_ℕ_inj : (m n : ℕ) → itoa_ℕ m ≡ itoa_ℕ n → m ≡ n
itoa_ℕ_inj m n h = cc (unsigned-itoa_ℕ m, unsigned-itoa_ℕ n, ap unsigned h)

Digital-unsigned : (s t : Text) → Digital s → s ≢ b'-' ∷ t
unfolding is_digit
Digital-unsigned [] t d h = cc
Digital-unsigned (c ∷ cs) t d h = ground arith

pub itoa_inj : (y z : ℤ) → itoa y ≡ itoa z → y ≡ z
unfolding itoa
itoa_inj (pos m) (pos n) h = ap pos (itoa_ℕ_inj m n h)
itoa_inj (pos m) (negsuc n) h =
    absurd (Digital-unsigned (itoa_ℕ m) (itoa_ℕ (suc n)) (itoa_ℕ-Digital m) h)
itoa_inj (negsuc m) (pos n) h =
    absurd (Digital-unsigned (itoa_ℕ n) (itoa_ℕ (suc m)) (itoa_ℕ-Digital n) (sym h))
itoa_inj (negsuc m) (negsuc n) h =
    let same = itoa_ℕ_inj (suc m) (suc n) (cc h) in ap negsuc (cc same)
