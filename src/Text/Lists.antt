-- ===== src/Text/Lists.antt =====
-- Lists printed by `strings.Join(xs, ",")` and read back by `strings.Split(s, ",")`.
use reptile.Prelude.{◌≡◌, refl, sym, ap, ◌∙◌, false, List, [], ◌∷◌, All}
use reptile.Text.Defs.{Text, codes, has_byte, is_empty}
use reptile.Text.Split.{split, join, split-append, split_whole}

-- An element that can be told apart in a comma-separated list.
pub record IsPiece (t : Text) : Type 0 where
  pub filled : is_empty t ≡ false
  pub unsplit : has_byte b',' t ≡ false

pub split-join :
    (x : Text) (xs : List Text)
    → All IsPiece (x ∷ xs)
    → split b',' (join (codes ",") (x ∷ xs)) ≡ x ∷ xs
unfolding join
split-join x [] h = split_whole b',' x h.0.unsplit
split-join x (y ∷ ys) h =
    split-append b',' x (join (codes ",") (y ∷ ys)) h.0.unsplit
    ∙ ap (λ ps. x ∷ ps) (split-join y ys h.1)

pub join-filled :
    (x : Text) (xs : List Text) → IsPiece x → is_empty (join (codes ",") (x ∷ xs)) ≡ false
unfolding join
join-filled x [] h = h.filled
join-filled (c ∷ x) (y ∷ ys) h = refl
join-filled [] (y ∷ ys) h = cc (h.filled)

-- Lists of such elements that are printed alike are equal.
pub join_inj :
    (xs ys : List Text)
    → All IsPiece xs
    → All IsPiece ys
    → join (codes ",") xs ≡ join (codes ",") ys
    → xs ≡ ys
unfolding join
join_inj [] [] hx hy h = refl
join_inj [] (y ∷ ys) hx hy h = cc (ap is_empty h, join-filled y ys hy.0)
join_inj (x ∷ xs) [] hx hy h = cc (ap is_empty h, join-filled x xs hx.0)
join_inj (x ∷ xs) (y ∷ ys) hx hy h =
    sym (split-join x xs hx) ∙ ap (split b',') h ∙ split-join y ys hy
