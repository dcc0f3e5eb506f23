-- ===== src/Killer/Names.antt =====
-- The names that `killTargets` returns: sorted, without repetition, and exactly those matched.
use reptile.Prelude.{
  ◌≡◌, ◌≢◌, refl, sym, ap, ap₂, ◌∙◌, subst, ◌↔◌, ◌⊎◌, inl, inr, true, false, List, [], ◌∷◌, All,
  ◌==◌, Bool-cases, arith,
}
use mathlib.Core.List.{Memᴰ}
use reptile.Text.Defs.{Text, eq, eq_iff, elem, elem-ne, is_empty, text_ltb}
use reptile.Result.{ok}
use reptile.Killer.{
  Process, System, Killed, wanted, matched, insert, sort_names, finish, terminate, kill_listed,
  kill_targets,
}
use reptile.Killer.Targets.{IsHit, wanted-IsHit, IsHit-wanted, is_empty-nil, kill_targets-terminate}

-- Strictly ascending.
abbrev pub Ascending : List Text → Type 0
Ascending [] = Unit {0}
Ascending (t ∷ []) = Unit {0}
Ascending (t ∷ s ∷ ss) = (text_ltb t s ≡ true) × Ascending (s ∷ ss)

text_ltb_total : (s t : Text) → s ≢ t → text_ltb s t ≡ false → text_ltb t s ≡ true
unfolding text_ltb
text_ltb_total [] [] ne h = absurd (ne refl)
text_ltb_total [] (b ∷ t) ne h = cc
text_ltb_total (a ∷ s) [] ne h = refl
text_ltb_total (a ∷ s) (b ∷ t) ne h = elim (Bool-cases (a == b)) [
  | inl same ↦
      let heads : a ≡ b = ground arith in
      let rest = text_ltb_total s t (λ e. ne (ap₂ (λ x xs. x ∷ xs) heads e)) (ground arith) in
      ground (arith, rest)
  | inr other ↦ ground arith
]

insert-All : (P : Text → Type 0) (t : Text) (ss : List Text) → P t → All P ss → All P (insert t ss)
unfolding insert
insert-All P t [] p h = (p, tt)
insert-All P t (s ∷ ss) p h = elim (Bool-cases (text_ltb s t)) [
  | inl less ↦ rw (less, insert) (h.0, insert-All P t ss p h.1)
  | inr more ↦ rw (more, insert) (p, h)
]

sort_names-All : (P : Text → Type 0) (ts : List Text) → All P ts → All P (sort_names ts)
unfolding sort_names
sort_names-All P [] h = tt
sort_names-All P (t ∷ ts) h = insert-All P t (sort_names ts) h.0 (sort_names-All P ts h.1)

insert_above :
    (s t : Text) (ss : List Text)
    → Ascending (s ∷ ss)
    → text_ltb s t ≡ true
    → All (λ u. u ≢ t) ss
    → Ascending (s ∷ insert t ss)
unfolding insert
insert_above s t [] a h ne = (h, tt)
insert_above s t (u ∷ us) a h ne = elim (Bool-cases (text_ltb u t)) [
  | inl less ↦ rw (less, insert) (a.0, insert_above u t us a.1 less ne.1)
  | inr more ↦ rw (more, insert) (h, (text_ltb_total u t ne.0 more, a.1))
]

insert-Ascending :
    (t : Text) (ss : List Text) → Ascending ss → All (λ u. u ≢ t) ss → Ascending (insert t ss)
unfolding insert
insert-Ascending t [] a ne = tt
insert-Ascending t (u ∷ us) a ne = elim (Bool-cases (text_ltb u t)) [
  | inl less ↦ rw (less, insert) (insert_above u t us a less ne.1)
  | inr more ↦ rw (more, insert) (text_ltb_total u t ne.0 more, a)
]

sort_matched-Ascending : (ps : List Process) → Ascending (sort_names (matched ps))
unfolding matched sort_names
sort_matched-Ascending [] = tt
sort_matched-Ascending (p ∷ ps) = elim (Bool-cases (elem p.comm (matched ps))) [
  | inl seen ↦ rw (seen, matched) (sort_matched-Ascending ps)
  | inr new ↦
      rw (new, matched, sort_names)
        (insert-Ascending p.comm (sort_names (matched ps)) (sort_matched-Ascending ps)
          (sort_names-All (λ s. s ≢ p.comm) (matched ps) (elem-ne p.comm (matched ps) new)))
]

Memᴰ-insert : (t : Text) (ss : List Text) {n : Text} → Memᴰ n (insert t ss) → (n ≡ t) ⊎ Memᴰ n ss
unfolding insert
Memᴰ-insert t [] (Memᴰ.head e) = inl e
Memᴰ-insert t [] (Memᴰ.tail m) = elim m [ ]
Memᴰ-insert t (s ∷ ss) {n} m = elim (Bool-cases (text_ltb s t)) [
  | inl less ↦ deeper (λ k. Memᴰ-insert t ss k) (rw (less, insert) at m)
  | inr more ↦ here (rw (more, insert) at m)
]
  where
    deeper :
        (Memᴰ n (insert t ss) → (n ≡ t) ⊎ Memᴰ n ss)
        → Memᴰ n (s ∷ insert t ss)
        → (n ≡ t) ⊎ Memᴰ n (s ∷ ss)
    deeper rest (Memᴰ.head e) = inr (Memᴰ.head e)
    deeper rest (Memᴰ.tail k) = elim (rest k) [ inl e ↦ inl e | inr j ↦ inr (Memᴰ.tail j) ]

    here : Memᴰ n (t ∷ s ∷ ss) → (n ≡ t) ⊎ Memᴰ n (s ∷ ss)
    here (Memᴰ.head e) = inl e
    here (Memᴰ.tail k) = inr k

insert_self : (t : Text) (ss : List Text) → Memᴰ t (insert t ss)
unfolding insert
insert_self t [] = Memᴰ.head refl
insert_self t (s ∷ ss) = elim (Bool-cases (text_ltb s t)) [
  | inl less ↦ rw (less, insert) (Memᴰ.tail (insert_self t ss))
  | inr more ↦ rw (more, insert) (Memᴰ.head refl)
]

insert_keeps : (t : Text) (ss : List Text) {n : Text} → Memᴰ n ss → Memᴰ n (insert t ss)
unfolding insert
insert_keeps t [] m = elim m [ ]
insert_keeps t (s ∷ ss) (Memᴰ.head e) = elim (Bool-cases (text_ltb s t)) [
  | inl less ↦ rw (less, insert) (Memᴰ.head e)
  | inr more ↦ rw (more, insert) (Memᴰ.tail (Memᴰ.head e))
]
insert_keeps t (s ∷ ss) (Memᴰ.tail m) =
    let deeper = insert_keeps t ss m in
    elim (Bool-cases (text_ltb s t)) [
      | inl less ↦ rw (less, insert) (Memᴰ.tail deeper)
      | inr more ↦ rw (more, insert) (Memᴰ.tail (Memᴰ.tail m))
    ]

Memᴰ-sort_names : (ts : List Text) {n : Text} → Memᴰ n (sort_names ts) → Memᴰ n ts
unfolding sort_names
Memᴰ-sort_names [] m = m
Memᴰ-sort_names (t ∷ ts) m = elim (Memᴰ-insert t (sort_names ts) m) [
  | inl e ↦ Memᴰ.head e
  | inr k ↦ Memᴰ.tail (Memᴰ-sort_names ts k)
]

sort_names-Memᴰ : (ts : List Text) {n : Text} → Memᴰ n ts → Memᴰ n (sort_names ts)
unfolding sort_names
sort_names-Memᴰ [] m = m
sort_names-Memᴰ (t ∷ ts) (Memᴰ.head e) =
    subst (λ x. Memᴰ x (insert t (sort_names ts))) (sym e) (insert_self t (sort_names ts))
sort_names-Memᴰ (t ∷ ts) (Memᴰ.tail m) = insert_keeps t (sort_names ts) (sort_names-Memᴰ ts m)

elem-Memᴰ : (t : Text) (ss : List Text) → elem t ss ≡ true → Memᴰ t ss
unfolding elem
elem-Memᴰ t [] h = cc
elem-Memᴰ t (s ∷ ss) h = elim (Bool-cases (eq s t)) [
  | inl same ↦ Memᴰ.head (sym ((eq_iff s t).0 same))
  | inr other ↦ Memᴰ.tail (elem-Memᴰ t ss (ground arith))
]

-- A process of the list has the name.
abbrev Named : List Process → Text → Type 0
Named ps n = (p : Process) × Memᴰ p ps × (p.comm ≡ n)

matched-Named : (ps : List Process) {n : Text} → Memᴰ n (matched ps) → Named ps n
unfolding matched
matched-Named [] m = elim m [ ]
matched-Named (p ∷ ps) {n} m = elim (Bool-cases (elem p.comm (matched ps))) [
  | inl seen ↦ later (matched-Named ps (rw (seen, matched) at m))
  | inr new ↦ either (λ k. matched-Named ps k) (rw (new, matched) at m)
]
  where
    later : Named ps n → Named (p ∷ ps) n
    later (q, k, e) = (q, Memᴰ.tail k, e)

    either : (Memᴰ n (matched ps) → Named ps n) → Memᴰ n (p.comm ∷ matched ps) → Named (p ∷ ps) n
    either rest (Memᴰ.head e) = (p, Memᴰ.head refl, sym e)
    either rest (Memᴰ.tail k) = later (rest k)

Named-matched : (ps : List Process) {n : Text} → Named ps n → Memᴰ n (matched ps)
unfolding matched
Named-matched [] (q, m, e) = elim m [ ]
Named-matched (p ∷ ps) {n} (q, Memᴰ.head h, e) =
    let named : n ≡ p.comm = sym e ∙ ap (λ (x : Process). x.comm) h in
    elim (Bool-cases (elem p.comm (matched ps))) [
      | inl seen ↦
          rw (seen, matched)
            (subst (λ x. Memᴰ x (matched ps)) (sym named) (elem-Memᴰ p.comm (matched ps) seen))
      | inr new ↦ rw (new, matched) (Memᴰ.head named)
    ]
Named-matched (p ∷ ps) (q, Memᴰ.tail m, e) =
    let deeper = Named-matched ps (q, m, e) in
    elim (Bool-cases (elem p.comm (matched ps))) [
      | inl seen ↦ rw (seen, matched) deeper
      | inr new ↦ rw (new, matched) (Memᴰ.tail deeper)
    ]

terminate_names :
    (sys : System) (targets : List Text) (hit : List Process)
    → (terminate sys targets hit).names ≡ sort_names (matched hit)
unfolding terminate finish
terminate_names sys targets hit = ground arith

kill_targets-sort_names :
    (sys : System) (targets : List Text) {ps : List Process}
    → sys.listed ≡ ok ps
    → (kill_targets sys targets).names ≡ sort_names (matched (wanted targets ps))
unfolding kill_targets kill_listed matched sort_names
kill_targets-sort_names sys targets {ps} l = elim (Bool-cases (is_empty (wanted targets ps))) [
  | inl nothing ↦ rw (l, kill_listed, nothing, is_empty-nil _ nothing)
  | inr some_hit ↦
      ap (λ (k : Killed). k.names) (kill_targets-terminate sys targets l some_hit)
      ∙ terminate_names sys targets (wanted targets ps)
]

-- If the first list succeeds, the names that are returned are strictly ascending, and they are the
-- names of its processes that a target names.
pub kill_targets_names :
    (sys : System) (targets : List Text) {ps : List Process}
    → sys.listed ≡ ok ps
    → Ascending (kill_targets sys targets).names
      × ((n : Text)
          → Memᴰ n (kill_targets sys targets).names
            ↔ ((p : Process) × IsHit targets ps p × (p.comm ≡ n)))
kill_targets_names sys targets {ps} l =
    let hits = wanted targets ps in
    rw (kill_targets-sort_names sys targets l) (
      sort_matched-Ascending hits,
      λ n. (
        λ m.
            let (p, k, e) = matched-Named hits (Memᴰ-sort_names (matched hits) m) in
            (p, wanted-IsHit targets ps k, e),
        λ (p, h, e).
            sort_names-Memᴰ (matched hits) (Named-matched hits (p, IsHit-wanted targets ps h, e)),
      ),
    )
