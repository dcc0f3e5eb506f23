-- ===== src/Tunnel/Handshake.antt =====
-- `parseLatestHandshake` finds the greatest handshake time of the dump.
use reptile.Prelude.{
  ℕ, ◌≤◌, ◌≡◌, refl, sym, ap, ◌∙◌, ◌⊎◌, inl, inr, Option, none, some, List, [], ◌∷◌, ltb, ℤ, pos,
  negsuc, arith, Bool-cases,
}
use mathlib.Core.List.{Memᴰ}
use reptile.Text.Defs.{Text}
use reptile.Text.Split.{split}
use reptile.Tunnel.{peer_handshake, newer, scan_peers, parse_latest_handshake}

-- A line of the dump has the handshake time `t`.
abbrev pub HasHandshake : List Text → ℕ → Type 0
HasHandshake lines t = (line : Text) × Memᴰ line lines × (peer_handshake line ≡ some (pos t))

newer_bounds :
    (n : ℕ) (o : Option ℤ) → (n ≤ newer n o) × ((t : ℕ) → o ≡ some (pos t) → t ≤ newer n o)
unfolding newer
newer_bounds n none = (omega arith, λ t h. cc)
newer_bounds n (some (negsuc k)) = (omega arith, λ t h. cc)
newer_bounds n (some (pos k)) = (ground arith, λ t h. ground arith)

newer_cases : (n : ℕ) (o : Option ℤ) → (newer n o ≡ n) ⊎ (o ≡ some (pos (newer n o)))
unfolding newer
newer_cases n none = inl refl
newer_cases n (some (negsuc k)) = inl refl
newer_cases n (some (pos k)) = elim (Bool-cases (ltb n k)) [
  | inl lt ↦ inr (rw lt)
  | inr ge ↦ inl (rw ge)
]

scan_peers-le : (n : ℕ) (lines : List Text) → n ≤ scan_peers n lines
unfolding scan_peers
scan_peers-le n [] = omega arith
scan_peers-le n (l ∷ ls) =
    omega
      (arith, (newer_bounds n (peer_handshake l)).0, scan_peers-le (newer n (peer_handshake l)) ls)

scan_peers-max :
    {l : Text} (n : ℕ) {lines : List Text} (t : ℕ)
    → Memᴰ l lines
    → peer_handshake l ≡ some (pos t)
    → t ≤ scan_peers n lines
unfolding scan_peers
scan_peers-max n {lines = []} t m h = elim m [ ]
scan_peers-max n {lines = x ∷ ls} t (Memᴰ.head e) h = omega (
  arith,
  (newer_bounds n (peer_handshake x)).1 t (ap peer_handshake (sym e) ∙ h),
  scan_peers-le (newer n (peer_handshake x)) ls,
)
scan_peers-max n {lines = x ∷ ls} t (Memᴰ.tail m) h =
    scan_peers-max (newer n (peer_handshake x)) t m h

scan_peers-found :
    (n : ℕ) (lines : List Text) → (scan_peers n lines ≡ n) ⊎ HasHandshake lines (scan_peers n lines)
unfolding scan_peers
scan_peers-found n [] = inl refl
scan_peers-found n (l ∷ ls) = elim (scan_peers-found (newer n (peer_handshake l)) ls) [
  | inl same ↦ elim (newer_cases n (peer_handshake l)) [
    | inl kept ↦ inl (same ∙ kept)
    | inr found ↦ inr (l, Memᴰ.head refl, found ∙ ap (λ (t : ℕ). some (pos t)) (sym same))
  ]
  | inr (x, m, found) ↦ inr (x, Memᴰ.tail m, found)
]

-- No line of the dump has a later handshake, and the result is the time of some line, or 0.
pub parse_latest_handshake_max :
    (dump : Text)
    → ((t : ℕ) → HasHandshake (split b'\n' dump) t → t ≤ parse_latest_handshake dump)
      × ((parse_latest_handshake dump ≡ 0)
          ⊎ HasHandshake (split b'\n' dump) (parse_latest_handshake dump))
unfolding parse_latest_handshake
parse_latest_handshake_max dump =
    (λ t (l, m, h). scan_peers-max 0 t m h, scan_peers-found 0 (split b'\n' dump))
