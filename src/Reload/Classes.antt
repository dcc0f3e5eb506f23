-- ===== src/Reload/Classes.antt =====
-- How a reload reports the keys that changed.
use reptile.Prelude.{
  ◌≡◌, ◌≢◌, ◌++◌, refl, sym, ap, ◌∙◌, ◌↔◌, Bool, true, false, not, ◌&&◌, List, [], ◌∷◌,
}
use mathlib.Core.List.{Memᴰ}
use reptile.Text.Defs.{Text}
use reptile.Config.{Config}
use reptile.Config.Keys.Rows.{diff_keys}
use reptile.Config.Keys.Exact.{diff_keys-split}
use reptile.Reload.{needs_restart, needs_firewall, add_if, classify_reload}

-- The members that pass a test.
sieve : (Text → Bool) → List Text → List Text
sieve p [] = []
sieve p (k ∷ ks) = add_if (p k) k (sieve p ks)

sieve-Memᴰ :
    (p : Text → Bool) (ks : List Text) (k : Text) → Memᴰ k (sieve p ks) ↔ (Memᴰ k ks × (p k ≡ true))
unfolding sieve
sieve-Memᴰ p ks k = (there p ks k, back p ks k)
  where
    step :
        (p : Text → Bool) (j : Text) (ks : List Text) (k : Text) (b : Bool)
        → p j ≡ b
        → (Memᴰ k (sieve p ks) → Memᴰ k ks × (p k ≡ true))
        → Memᴰ k (add_if b j (sieve p ks))
        → Memᴰ k (j ∷ ks) × (p k ≡ true)
    step p j ks k true e rest (Memᴰ.head s) = (Memᴰ.head s, ap p s ∙ e)
    step p j ks k true e rest (Memᴰ.tail m) = let (n, h) = rest m in (Memᴰ.tail n, h)
    step p j ks k false e rest m = let (n, h) = rest m in (Memᴰ.tail n, h)

    there :
        (p : Text → Bool) (ks : List Text) (k : Text)
        → Memᴰ k (sieve p ks)
        → Memᴰ k ks × (p k ≡ true)
    there p [] k m = elim m [ ]
    there p (j ∷ ks) k m = step p j ks k (p j) refl (λ n. there p ks k n) m

    keep :
        (p : Text → Bool) (j : Text) (ks : List Text) (k : Text) (b : Bool)
        → Memᴰ k ks
        → Memᴰ k (add_if b j ks)
    keep p j ks k true m = Memᴰ.tail m
    keep p j ks k false m = m

    back :
        (p : Text → Bool) (ks : List Text) (k : Text)
        → Memᴰ k ks × (p k ≡ true)
        → Memᴰ k (sieve p ks)
    back p [] k (m, h) = elim m [ ]
    back p (j ∷ ks) k (Memᴰ.head e, h) = rw (ap p (sym e) ∙ h) (Memᴰ.head e)
    back p (j ∷ ks) k (Memᴰ.tail m, h) = keep p j (sieve p ks) k (p j) (back p ks k (m, h))

classify_reload-sieve :
    (ks : List Text)
    → classify_reload ks ≡ record {
      applied = sieve (λ k. not (needs_restart k) && not (needs_firewall k)) ks;
      daemon_restart_required = sieve (λ k. needs_restart k) ks;
      firewall_reload_required = sieve (λ k. needs_firewall k) ks;
    }
unfolding classify_reload sieve
classify_reload-sieve [] = refl
classify_reload-sieve (k ∷ ks) = rw (classify_reload-sieve ks)

-- A changed key is reported for a restart of the daemon exactly if it is wired at its start, for a
-- reload of the firewall exactly if the rules are built from it, and as applied exactly if it is
-- neither; no other key is reported.
pub classify_reload_exact :
    (ks : List Text) (k : Text)
    → (Memᴰ k (classify_reload ks).daemon_restart_required ↔ (Memᴰ k ks × (needs_restart k ≡ true)))
      × (Memᴰ k (classify_reload ks).firewall_reload_required
          ↔ (Memᴰ k ks × (needs_firewall k ≡ true)))
      × (Memᴰ k (classify_reload ks).applied
          ↔ (Memᴰ k ks × ((not (needs_restart k) && not (needs_firewall k)) ≡ true)))
classify_reload_exact ks k = rw (classify_reload-sieve ks) (
  sieve-Memᴰ (λ k. needs_restart k) ks k,
  sieve-Memᴰ (λ k. needs_firewall k) ks k,
  sieve-Memᴰ (λ k. not (needs_restart k) && not (needs_firewall k)) ks k,
)

-- The settings with a rule that has a comma in it, and with its two halves as rules.
abbrev pub one_rule : Config → Text → Text → Config
one_rule c a b = record c { extra_accept = (a ++ b',' ∷ b) ∷ [] }

abbrev pub two_rules : Config → Text → Text → Config
two_rules c a b = record c { extra_accept = a ∷ b ∷ [] }

-- Whatever the settings, cutting a rule of `extra_accept` at a comma changes them, but no key is
-- reported as changed, and no reload of the firewall is asked for.
pub rules_confused :
    (c : Config) (a b : Text)
    → (one_rule c a b ≢ two_rules c a b)
      × (diff_keys (one_rule c a b) (two_rules c a b) ≡ [])
      × ((classify_reload (diff_keys (one_rule c a b) (two_rules c a b))).firewall_reload_required
          ≡ [])
unfolding classify_reload
rules_confused c a b =
    let silent = diff_keys-split c a b in
    (
      λ e. cc (ap (λ (d : Config). d.extra_accept) e),
      silent,
      ap (λ ks. (classify_reload ks).firewall_reload_required) silent,
    )
