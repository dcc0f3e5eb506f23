-- ===== src/Firewall/Nft/Listed.antt =====
-- The listing that `nftTablePresent` of internal/app/firewall.go reads, as lines of words.
use reptile.Prelude.{
  ◌≡◌, refl, sym, ap, ◌∙◌, ◌↔◌, inl, inr, Bool, true, false, List, [], ◌∷◌, Bool-cases, arith,
}
use mathlib.Core.List.{Memᴰ}
use reptile.Text.Defs.{Text, codes, eq_iff}
use reptile.Text.Split.{split, fields}
use reptile.Result.{Result, ok}
use reptile.Firewall.Nft.{is_table, any_table, Nft, listing_shows, table_present}

-- A line of the listing is that of the table.
abbrev pub table_words : List Text
table_words = codes "table" ∷ codes "inet" ∷ codes "reptile" ∷ []

is_table_iff : (ws : List Text) → (is_table ws ≡ true) ↔ (ws ≡ table_words)
unfolding is_table
is_table_iff [] = ground arith
is_table_iff (a ∷ []) = ground arith
is_table_iff (a ∷ b ∷ []) = ground arith
is_table_iff (a ∷ b ∷ c ∷ []) =
    ground (arith, eq_iff a (codes "table"), eq_iff b (codes "inet"), eq_iff c (codes "reptile"))
is_table_iff (a ∷ b ∷ c ∷ d ∷ ws) = ground arith

-- `nft list tables` prints a line of the three words.
abbrev pub HasTable : List Text → Type 0
HasTable lines = (line : Text) × Memᴰ line lines × (fields line ≡ table_words)

any_table_iff : (lines : List Text) → (any_table lines ≡ true) ↔ HasTable lines
unfolding any_table
any_table_iff lines = (there lines, λ (l, m, e). back lines m e)
  where
    there : (lines : List Text) → any_table lines ≡ true → HasTable lines
    there [] h = cc h
    there (l ∷ ls) h = elim (Bool-cases (is_table (fields l))) [
      | inl here ↦ (l, Memᴰ.head refl, (is_table_iff (fields l)).0 here)
      | inr other ↦ let (k, m, e) = there ls (ground arith) in (k, Memᴰ.tail m, e)
    ]

    back :
        (lines : List Text) {l : Text}
        → Memᴰ l lines
        → fields l ≡ table_words
        → any_table lines ≡ true
    back [] m e = elim m [ ]
    back (l ∷ ls) (Memᴰ.head s) e =
        let here = (is_table_iff (fields l)).1 (ap fields (sym s) ∙ e) in ground arith
    back (l ∷ ls) (Memᴰ.tail m) e = let rest = back ls m e in ground arith

module _ {K : Type 0} (nft : Nft K) where
  -- `nft list tables` succeeds, and what it prints has the table, or has it not.
  pub record IsPresent (k : K) : Type 0 where
    pub out : Text
    pub answered : nft.list_tables k ≡ ok out
    pub shown : HasTable (split b'\n' out)

  pub record IsAbsent (k : K) : Type 0 where
    pub out : Text
    pub answered : nft.list_tables k ≡ ok out
    pub missing : ¬ HasTable (split b'\n' out)

  listing_shows-ok :
      (r : Result Text Text) {b : Bool}
      → listing_shows nft r ≡ ok b
      → (out : Text) × (r ≡ ok out) × (any_table (split b'\n' out) ≡ b)
  unfolding listing_shows
  listing_shows-ok (Result.err e) h = absurd (ground (arith, h))
  listing_shows-ok (ok out) h = (out, refl, ground (arith, h))

  pub table_present-IsPresent : (k : K) → table_present nft k ≡ ok true → IsPresent k
  unfolding table_present
  table_present-IsPresent k h =
      let (out, answered, seen) = listing_shows-ok (nft.list_tables k) h in
      record { out = out; answered = answered; shown = (any_table_iff (split b'\n' out)).0 seen }

  pub table_present-IsAbsent : (k : K) → table_present nft k ≡ ok false → IsAbsent k
  unfolding table_present
  table_present-IsAbsent k h =
      let (out, answered, seen) = listing_shows-ok (nft.list_tables k) h in
      record {
        out = out;
        answered = answered;
        missing = λ has. cc (sym seen ∙ (any_table_iff (split b'\n' out)).1 has);
      }
