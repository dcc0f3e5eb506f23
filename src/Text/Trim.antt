-- ===== src/Text/Trim.antt =====
-- Texts that `strings.TrimSpace` leaves as they are.
use mathlib.Core.List.{reverse, reverse-append, reverse-reverse}
use reptile.Prelude.{
  ℕ, zero, suc, ◌<◌, ◌≤◌, ◌≡◌, refl, ap, ◌∙◌, ◌⊎◌, inl, inr, false, List, [], ◌∷◌, ◌++◌, length,
  length-append, arith, append_assoc, All,
}
use reptile.Text.Defs.{Text, codes, is_empty}
use reptile.Text.Split.{join}
use reptile.Text.Space.{wide_space2, wide_space3, leading_space, trailing_space, strip, trim_space}

length-reverse : (s : Text) → length (reverse s) ≡ length s
length-reverse [] = refl
length-reverse (c ∷ s) =
    rw (reverse-append (c ∷ []) s, length-append) (omega (arith, length-reverse s))

ℕ-cases : (n : ℕ) → (n ≡ 0) ⊎ ((k : ℕ) × (n ≡ suc k))
ℕ-cases zero = inl refl
ℕ-cases (suc k) = inr (k, refl)

length-strip : (space : Text → ℕ) (skip : ℕ) (s : Text) → length (strip space skip s) ≤ length s
unfolding strip
length-strip space skip [] = omega arith
length-strip space (suc skip) (c ∷ cs) = omega (arith, length-strip space skip cs)
length-strip space zero (c ∷ cs) = elim (ℕ-cases (space (c ∷ cs))) [
  | inl still ↦ rw (still, strip) (omega arith)
  | inr (k, moved) ↦ rw (moved, strip) (omega (arith, length-strip space k cs))
]

strip-still :
    (space : Text → ℕ) (c : ℕ) (cs : Text) → space (c ∷ cs) ≡ 0 → strip space 0 (c ∷ cs) ≡ c ∷ cs
unfolding strip
strip-still space c cs h = rw (h, strip) refl

-- If the text loses nothing, no rune at its head is a space.
strip-shortens :
    (space : Text → ℕ) (c : ℕ) (cs : Text) (k : ℕ)
    → space (c ∷ cs) ≡ suc k
    → length (strip space 0 (c ∷ cs)) < length (c ∷ cs)
unfolding strip
strip-shortens space c cs k h = rw (h, strip) (omega (arith, length-strip space k cs))

strip_full :
    (space : Text → ℕ) (s : Text)
    → is_empty s ≡ false
    → length (strip space 0 s) ≡ length s
    → space s ≡ 0
strip_full space [] e h = cc e
strip_full space (c ∷ cs) e h = elim (ℕ-cases (space (c ∷ cs))) [
  | inl still ↦ still
  | inr (k, moved) ↦ omega (arith, strip-shortens space c cs k moved)
]

strip_keeps : (space : Text → ℕ) (s : Text) → space s ≡ 0 → strip space 0 s ≡ s
unfolding strip
strip_keeps space [] h = refl
strip_keeps space (c ∷ cs) h = strip-still space c cs h

-- Not empty, and no space at either end.
pub record IsTight (t : Text) : Type 0 where
  pub filled : is_empty t ≡ false
  pub lead : leading_space t ≡ 0
  pub trail : trailing_space (reverse t) ≡ 0

pub IsTight-trimmed : (t : Text) → IsTight t → trim_space t ≡ t
unfolding trim_space
IsTight-trimmed t h =
    rw (strip_keeps leading_space t h.lead, strip_keeps trailing_space (reverse t) h.trail)
      (reverse-reverse t)

length-trimmed : (t : Text) → length (trim_space t) ≤ length (strip leading_space 0 t)
unfolding trim_space
length-trimmed t =
    let inner = strip leading_space 0 t in
    omega (
      arith,
      length-reverse (strip trailing_space 0 (reverse inner)),
      length-reverse inner,
      length-strip trailing_space 0 (reverse inner),
    )

is_empty-reverse : (t : Text) → is_empty t ≡ false → is_empty (reverse t) ≡ false
is_empty-reverse [] h = h
is_empty-reverse (c ∷ t) h = long (reverse (c ∷ t)) (omega (arith, length-reverse (c ∷ t)))
  where
    long : (s : Text) → 1 ≤ length s → is_empty s ≡ false
    long [] l = ground arith
    long (x ∷ s) l = refl

pub trimmed-IsTight : (t : Text) → is_empty t ≡ false → t ≡ trim_space t → IsTight t
unfolding trim_space
trimmed-IsTight t filled h =
    let whole : length (strip leading_space 0 t) ≡ length t =
      omega (arith, ap length h, length-trimmed t, length-strip leading_space 0 t) in
    let lead = strip_full leading_space t filled whole in
    let kept =
      h
      ∙ ap (λ u. reverse (strip trailing_space 0 (reverse u))) (strip_keeps leading_space t lead) in
    let cut = strip trailing_space 0 (reverse t) in
    record {
      filled = filled;
      lead = lead;
      trail =
          strip_full trailing_space (reverse t) (is_empty-reverse t filled)
            (omega (arith, length-reverse cut, length-reverse t, ap length kept));
    }

leading_space-append :
    (t s : Text) → is_empty t ≡ false → leading_space t ≡ 0 → leading_space (t ++ b',' ∷ s) ≡ 0
unfolding leading_space wide_space2 wide_space3
leading_space-append [] s e h = cc e
leading_space-append (a ∷ []) [] e h = ground arith
leading_space-append (a ∷ []) (x ∷ s) e h = ground arith
leading_space-append (a ∷ b ∷ []) s e h = ground arith
leading_space-append (a ∷ b ∷ c ∷ t) s e h = h

trailing_space-append :
    (t s : Text) → is_empty t ≡ false → trailing_space t ≡ 0 → trailing_space (t ++ b',' ∷ s) ≡ 0
unfolding trailing_space wide_space2 wide_space3
trailing_space-append [] s e h = cc e
trailing_space-append (a ∷ []) [] e h = ground arith
trailing_space-append (a ∷ []) (x ∷ s) e h = ground arith
trailing_space-append (a ∷ b ∷ []) s e h = ground arith
trailing_space-append (a ∷ b ∷ c ∷ t) s e h = h

is_empty-append : (t s : Text) → is_empty t ≡ false → is_empty (t ++ s) ≡ false
is_empty-append [] s h = cc h
is_empty-append (c ∷ t) s h = refl

reverse-comma : (t s : Text) → reverse (t ++ b',' ∷ s) ≡ reverse s ++ b',' ∷ reverse t
reverse-comma t s =
    rw (reverse-append t (b',' ∷ s), reverse-append (b',' ∷ []) s)
      (append_assoc (reverse s) (b',' ∷ []) (reverse t))

-- Two such texts with a comma between them.
pub IsTight-comma : (t s : Text) → IsTight t → IsTight s → IsTight (t ++ b',' ∷ s)
IsTight-comma t s ht hs = record {
  filled = is_empty-append t (b',' ∷ s) ht.filled;
  lead = leading_space-append t s ht.filled ht.lead;
  trail =
      rw (reverse-comma t s)
        (trailing_space-append (reverse s) (reverse t) (is_empty-reverse s hs.filled) hs.trail);
}

pub join-IsTight :
    (x : Text) (xs : List Text) → All IsTight (x ∷ xs) → IsTight (join (codes ",") (x ∷ xs))
unfolding join
join-IsTight x [] h = h.0
join-IsTight x (y ∷ ys) h = IsTight-comma x (join (codes ",") (y ∷ ys)) h.0 (join-IsTight y ys h.1)
