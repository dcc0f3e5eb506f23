-- ===== src/Egress/Cache.antt =====
-- The verdict cache of the egress checker, over its operations.
use reptile.Prelude.{
  ◌≡◌, ◌≢◌, refl, inl, inr, Bool, true, false, [], sub_ℕ, ltb_ℤ, ◌==◌, arith, Bool-cases,
}
use reptile.Text.Defs.{Text, eq_iff}
use reptile.Library.{Library}
use reptile.Result.{Result, ok, err}
use reptile.Config.{Config}
use reptile.Egress.{
  Checker, Net, Outcome, Fetch, build_failed, request_failed, response, invalidate, apply,
}
use reptile.Egress.Probe.{
  body_limit, read_limited, client_of, with_client, probe, receive, read_body, judge,
  listing_outcome, use_cache, from_cache, settle, evaluate,
}

-- A cached verdict that passes speaks of the settings and the observation that are held.
pub record IsHonest (e : Checker) : Type 0 where
  pub country : e.set ≡ true → e.verdict ≡ true → e.last_country ≡ e.expected_country
  pub ip : e.set ≡ true → e.verdict ≡ true → e.expected_ip ≢ [] → e.last_ip ≡ e.expected_ip

-- What the daemon does with its checker.
pub data Step (lib : Library) (e f : Checker) : Type 0 where
  evaluates : (net : Net) (fresh : Bool) → f ≡ (evaluate lib net fresh e).checker → Step lib e f
  invalidates : f ≡ invalidate e → Step lib e f
  applies : (c : Config) → apply lib c e ≡ ok f → Step lib e f

invalidate-IsHonest : (e : Checker) → IsHonest (invalidate e)
unfolding invalidate
invalidate-IsHonest e = record { country = λ h. cc; ip = λ h. cc }

-- What an outcome that passes has recorded.
abbrev Records : Outcome → Type 0
Records o =
    o.passed ≡ true
    → (o.checker.last_country ≡ o.checker.expected_country)
      × (o.checker.expected_ip ≢ [] → o.checker.last_ip ≡ o.checker.expected_ip)

judge-Records :
    (lib : Library) (net : Net) (cc ip : Text) (e : Checker)
    → e.last_country ≡ cc
    → e.last_ip ≡ ip
    → Records (judge lib net cc ip e)
unfolding judge listing_outcome
judge-Records lib net cc ip e a b h =
    ground (arith, eq_iff cc e.expected_country, eq_iff ip e.expected_ip)

read_body-Records :
    (lib : Library) (net : Net) (e : Checker) (r : Result Text Text)
    → Records (read_body lib net e r)
unfolding read_body
read_body-Records lib net e (err m) h = cc
read_body-Records lib net e (ok text) h = judge-Records lib net _ _ _ refl refl h

receive-Records :
    (lib : Library) (net : Net) (e : Checker) (f : Fetch) → Records (receive lib net e f)
unfolding receive
receive-Records lib net e (build_failed m) h = cc
receive-Records lib net e (request_failed m) h = cc
receive-Records lib net e (response status body) h = elim (Bool-cases (status == 200)) [
  | inl good ↦
      rw (good, receive)
        (read_body-Records lib net (with_client e) (read_limited body_limit body)
          (rw (good, receive) at h))
  | inr bad ↦ ground arith
]

probe-Records : (lib : Library) (net : Net) (e : Checker) → Records (probe lib net e)
unfolding probe
probe-Records lib net e = receive-Records lib net e (net.fetch (client_of e) e.url)

evaluate-IsHonest :
    (lib : Library) (net : Net) (fresh : Bool) (e : Checker)
    → IsHonest e
    → IsHonest (evaluate lib net fresh e).checker
unfolding evaluate settle from_cache
evaluate-IsHonest lib net fresh e h = elim (Bool-cases (use_cache net fresh e)) [
  | inl hit ↦ rw hit (record { country = h.country; ip = h.ip })
  | inr miss ↦ rw miss (record {
    country = λ _ v. (probe-Records lib net e v).0;
    ip = λ _ v. (probe-Records lib net e v).1;
  })
]

-- New settings come with an empty cache.
pub apply-unset :
    (lib : Library) (c : Config) (e : Checker) {f : Checker} → apply lib c e ≡ ok f → f.set ≡ false
unfolding apply
apply-unset lib c e h = ground arith

apply-IsHonest :
    (lib : Library) (c : Config) (e : Checker) {f : Checker} → apply lib c e ≡ ok f → IsHonest f
apply-IsHonest lib c e h =
    let unset = apply-unset lib c e h in record { country = λ s. cc (unset); ip = λ s. cc (unset) }

-- If a cached verdict that passes speaks of the expected country, and of the pinned address if one
-- is pinned, it does so after any evaluation, invalidation or change of the settings.
pub Step-IsHonest : (lib : Library) {e f : Checker} → IsHonest e → Step lib e f → IsHonest f
Step-IsHonest lib h (evaluates net fresh s) = rw s (evaluate-IsHonest lib net fresh _ h)
Step-IsHonest lib h (invalidates s) = rw s (invalidate-IsHonest _)
Step-IsHonest lib {e} h (applies c s) = apply-IsHonest lib c e s

-- If an evaluation, cached or fresh, of a checker whose cached verdict is honest passes, it
-- reports the expected country, and the pinned address if one is pinned.
pub evaluate_passes :
    (lib : Library) (net : Net) (fresh : Bool) (e : Checker)
    → IsHonest e
    → (evaluate lib net fresh e).result.passed ≡ true
    → let v = evaluate lib net fresh e in
      (v.result.country ≡ v.checker.expected_country)
      × (v.checker.expected_ip ≢ [] → v.result.ip ≡ v.checker.expected_ip)
unfolding evaluate settle from_cache use_cache
evaluate_passes lib net fresh e h passed = elim (Bool-cases (use_cache net fresh e)) [
  | inl hit ↦
      rw (hit, evaluate)
        (
          h.country (ground arith) (rw (hit, evaluate) at passed),
          h.ip (ground arith) (rw (hit, evaluate) at passed),
        )
  | inr miss ↦ rw (miss, evaluate) (probe-Records lib net e (rw (miss, evaluate) at passed))
]

-- After an invalidation the next evaluation probes, whatever the cache held.
pub evaluate-invalidate :
    (lib : Library) (net : Net) (fresh : Bool) (e : Checker)
    → (evaluate lib net fresh (invalidate e)).result.probed ≡ true
unfolding evaluate settle use_cache invalidate
evaluate-invalidate lib net fresh e = ground arith

-- An evaluation within the TTL of a fresh one repeats its verdict, reason, address and country,
-- whatever the network would answer, and is not marked as probed.
pub evaluate_within_ttl :
    (lib : Library) (first later : Net) (e : Checker)
    → ltb_ℤ (sub_ℕ later.now first.now) (evaluate lib first true e).checker.ttl ≡ true
    → (evaluate lib later false (evaluate lib first true e).checker).result
      ≡ record (evaluate lib first true e).result { probed = false }
unfolding evaluate settle from_cache use_cache
evaluate_within_ttl lib first later e h = rw h
