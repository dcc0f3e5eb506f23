-- ===== src/Config/Keys/Readback.antt =====
-- The values that the table shows are read back: `splitList`, `ParseBool` and the country code of
-- internal/app/config_ops.go.
use reptile.Prelude.{◌≡◌, refl, sym, Bool, true, false, some, List, [], ◌∷◌, All, map}
use reptile.Text.Defs.{Text, codes, eq, elem}
use reptile.Text.Space.{trim_space}
use reptile.Text.Split.{join}
use reptile.Text.Lists.{IsPiece, split-join, join-filled}
use reptile.Text.Trim.{IsTight, IsTight-trimmed, join-IsTight, trimmed-IsTight}
use reptile.Config.Keys.{split_list, parse_bool}
use reptile.Config.Keys.Rows.{bool_text}

-- A piece of a comma-separated list, with no space at either end.
abbrev pub IsItem : Text → Type 0
IsItem t = IsPiece t × (t ≡ trim_space t)

items-IsTight : (xs : List Text) → All IsItem xs → All IsTight xs
items-IsTight [] h = tt
items-IsTight (x ∷ xs) h = (trimmed-IsTight x h.0.0.filled h.0.1, items-IsTight xs h.1)

items-IsPiece : (xs : List Text) → All IsItem xs → All IsPiece xs
items-IsPiece [] h = tt
items-IsPiece (x ∷ xs) h = (h.0.0, items-IsPiece xs h.1)

map-trim_space : (xs : List Text) → All IsItem xs → map trim_space xs ≡ xs
map-trim_space [] h = refl
map-trim_space (x ∷ xs) h = rw (sym h.0.1, map-trim_space xs h.1) refl

-- A list that is printed is read back.
pub split_list-join : (xs : List Text) → All IsItem xs → split_list (join (codes ",") xs) ≡ xs
unfolding split_list join trim_space
split_list-join [] h = refl
split_list-join (x ∷ xs) h =
    let tight = join-IsTight x xs (items-IsTight (x ∷ xs) h) in
    let pieces = items-IsPiece (x ∷ xs) h in
    rw (IsTight-trimmed _ tight, join-filled x xs pieces.0, split-join x xs pieces)
      (map-trim_space (x ∷ xs) h)

pub parse_bool-bool_text : (b : Bool) → parse_bool (bool_text b) ≡ some b
unfolding parse_bool bool_text elem eq
parse_bool-bool_text true = refl
parse_bool-bool_text false = refl
