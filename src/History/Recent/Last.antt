-- ===== src/History/Recent/Last.antt =====
-- The ring gives the last entries: `ReadRecentEvents` is `FilterMin` after `ParseEvents`, cut to
-- the last `n`.
use native.Mathlib.Nat.{mod-lt, div-add-mod, mod-add-mod, add-mod_right}
use Prim.Native.Nat.{min}
use reptile.Prelude.{
  ℕ, zero, suc, ◌+◌, ◌-◌, ◌%◌, ◌≤◌, ◌<◌, ◌≡◌, ◌≢◌, refl, sym, ap, ◌∙◌, true, false, none, List, [],
  ◌∷◌, ◌++◌, length, set, get_or, replicate, drop, leb, ltb, pos, arith, append-nil, append_assoc,
  length-append, length-set, get_or-set_self, get_or-set_ne, get_or-append, get_or-append_end,
  drop-length, drop-get_or, length-replicate, ltb→lt, ltb→ge, Option-cases, Bool-cases, inl, inr,
}
use reptile.Text.Defs.{Text}
use reptile.Library.{Library}
use reptile.Result.{ok}
use reptile.History.{Entry, zero_entry, parse_event, parse_events, filter_min}
use reptile.History.Recent.{
  Ring, push, offer, scan_lines, copy_out, unroll, read_scan, read_recent_events,
  max_history_entries,
}

-- Two places less than `n` apart do not meet in the ring.
mod_ne : (n j k : ℕ) → j < k → k < j + n → j % n ≢ k % n
mod_ne n j k a b = grind (arith, div-add-mod)

mod_suc : (n a b : ℕ) → a % n ≡ b % n → (a + 1) % n ≡ (b + 1) % n
mod_suc n a b h = sym (mod-add-mod a n 1) ∙ ap (λ (t : ℕ). (t + 1) % n) h ∙ mod-add-mod b n 1

shifted : (n start p i : ℕ) → (start + i) % n ≡ p % n → (start + (i + 1)) % n ≡ suc p % n
shifted n start p i h =
    let left : start + (i + 1) ≡ start + i + 1 = omega arith in
    let right : suc p ≡ p + 1 = omega arith in rw (left, right) (mod_suc n (start + i) p h)

not_below : (min rank : ℕ) → leb min rank ≡ true → ltb rank min ≡ false
not_below min rank h = ground arith

below : (min rank : ℕ) → leb min rank ≡ false → ltb rank min ≡ true
below min rank h = ground arith

append-cons :
    (es : List Entry) (e : Entry) (fs : List Entry) → es ++ (e ∷ fs) ≡ (es ++ e ∷ []) ++ fs
append-cons es e fs = sym (append_assoc es (e ∷ []) fs)

-- The ring of size `n` holds the last entries of `es`.
record Holds (n : ℕ) (es : List Entry) (r : Ring) : Type 0 where
  size : length r.cells ≡ n
  counted : r.seen ≡ length es
  kept :
      (j : ℕ)
      → j < length es
      → length es ≤ j + n
      → get_or r.cells (j % n) zero_entry ≡ get_or es j zero_entry

module _ (n : ℕ) (positive : 0 < n) where
  kept-push :
      (e : Entry) {es : List Entry} {r : Ring}
      → Holds n es r
      → (j : ℕ) → j < length es + 1
      → length es + 1 ≤ j + n
      → get_or (set r.cells (length es % n) e) (j % n) zero_entry
        ≡ get_or (es ++ e ∷ []) j zero_entry
  kept-push e {es} {r} h j below near = elim (Bool-cases (ltb j (length es))) [
    | inl old ↦
        let lt = ltb→lt j (length es) old in
        get_or-set_ne r.cells (length es % n) (j % n) e zero_entry
          (mod_ne n j (length es) lt (omega arith))
        ∙ h.kept j lt (omega arith)
        ∙ sym (get_or-append es (e ∷ []) j zero_entry lt)
    | inr new ↦
        let here : j ≡ length es = omega (arith, ltb→ge j (length es) new) in
        rw here (
          get_or-set_self r.cells (length es % n) e zero_entry
            (omega (arith, mod-lt (length es) positive, h.size))
          ∙ sym (get_or-append_end es e zero_entry))
  ]

  push-Holds :
      (e : Entry) {es : List Entry} {r : Ring} → Holds n es r → Holds n (es ++ e ∷ []) (push n e r)
  unfolding push
  push-Holds e {es} {r} h = record {
    size = length-set r.cells (r.seen % n) e ∙ h.size;
    counted = omega (arith, length-append es (e ∷ []), h.counted);
    kept = λ j below near. rw h.counted (
        kept-push e h j (omega (arith, length-append es (e ∷ [])))
          (omega (arith, length-append es (e ∷ []))));
  }

  scan_lines-Holds :
      (lib : Library) (min : ℕ) (ls : List Text) (es : List Entry) (r : Ring)
      → Holds n es r
      → Holds n (es ++ filter_min (parse_events lib ls) min) (scan_lines lib min n ls r)
  unfolding scan_lines offer filter_min parse_events
  scan_lines-Holds lib min [] es r h = rw append-nil h
  scan_lines-Holds lib min (l ∷ ls) es r h = elim (Option-cases (parse_event lib l)) [
    | inl skip ↦ rw (skip, parse_events) (scan_lines-Holds lib min ls es r h)
    | inr (e, got) ↦ elim (Bool-cases (leb min e.rank)) [
      | inl keep ↦
          rw (got, parse_events)
            (rw (keep, filter_min, not_below min e.rank keep)
              (rw append-cons
                (scan_lines-Holds lib min ls (es ++ e ∷ []) (push n e r) (push-Holds e h))))
      | inr low ↦
          rw (got, parse_events)
            (rw (low, filter_min, below min e.rank low) (scan_lines-Holds lib min ls es r h))
    ]
  ]

  copy_out-drop :
      {es : List Entry} {r : Ring} (start k p i : ℕ)
      → Holds n es r
      → p + k ≡ length es
      → length es ≤ p + n
      → (start + i) % n ≡ p % n
      → copy_out n r start k i ≡ drop p es
  unfolding copy_out
  copy_out-drop {es} start zero p i h all near same =
      let end : p ≡ length es = omega arith in rw end (sym (drop-length es))
  copy_out-drop {es} start (suc k) p i h all near same =
      let rest =
        copy_out-drop start k (suc p) (i + 1) h (omega arith) (omega arith)
          (shifted n start p i same) in
      rw (drop-get_or p es zero_entry (omega arith), same, h.kept p (omega arith) near, rest)

  oldest : (seen m : ℕ) → seen ≡ m → n < seen → (seen % n + 0) % n ≡ (m - n) % n
  oldest seen m e h =
      let regroup : seen + 0 ≡ m - n + n = omega arith in
      mod-add-mod seen n 0 ∙ ap (λ (t : ℕ). t % n) regroup ∙ add-mod_right (m - n) n

  first : (m : ℕ) → m ≤ n → ◌%◌ 0 n ≡ (m - n) % n
  first m h = let none_lost : m - n ≡ 0 = omega arith in rw none_lost

  unroll-last : {es : List Entry} {r : Ring} → Holds n es r → unroll n r ≡ drop (length es - n) es
  unfolding unroll
  unroll-last {es} {r} h = elim (Bool-cases (ltb n r.seen)) [
    | inl wrapped ↦ rw wrapped (
        copy_out-drop (r.seen % n) (min r.seen n) (length es - n) 0 h
          (omega (arith, ltb→lt n r.seen wrapped, h.counted)) (omega (arith, h.counted))
          (oldest r.seen (length es) h.counted (ltb→lt n r.seen wrapped)))
    | inr whole ↦ rw whole (
        copy_out-drop 0 (min r.seen n) (length es - n) 0 h
          (omega (arith, ltb→ge n r.seen whole, h.counted)) (omega (arith, h.counted))
          (first (length es) (omega (arith, ltb→ge n r.seen whole, h.counted))))
  ]

-- The last `n` of a list.
abbrev pub last : ℕ → List Entry → List Entry
last n es = drop (length es - n) es

last-zero : (es : List Entry) → last 0 es ≡ []
last-zero es = let all : length es - 0 ≡ length es = omega arith in rw all (drop-length es)

empty-Holds : (n : ℕ) → Holds n [] (record { cells = replicate n zero_entry; seen = 0 })
empty-Holds n = record {
  size = length-replicate n zero_entry;
  counted = refl;
  kept = λ j h _. elim h [ ];
}

read_scan-last :
    (lib : Library) (lines : List Text) (min n : ℕ)
    → 0 < n
    → read_scan lib (record { lines = lines; error = none }) min n
      ≡ ok (last n (filter_min (parse_events lib lines) min))
unfolding read_scan
read_scan-last lib lines min n h =
    ap ok (unroll-last n h (scan_lines-Holds n h lib min lines [] _ (empty-Holds n)))

-- For a count up to the maximum, a log that is read to its end gives the last `n` of its events
-- at or above the level, and fewer only if there are fewer.
pub read_recent_events-last :
    (lib : Library) (lines : List Text) (min n : ℕ)
    → n ≤ max_history_entries
    → read_recent_events lib (record { lines = lines; error = none }) min (pos n)
      ≡ ok (last n (filter_min (parse_events lib lines) min))
unfolding read_recent_events
read_recent_events-last lib lines min zero h =
    ap ok (sym (last-zero (filter_min (parse_events lib lines) min)))
read_recent_events-last lib lines min (suc n) h =
    ground (arith, read_scan-last lib lines min (suc n))
