-- ===== src/Egress/Wiring.antt =====
-- The settings that an egress checker works by, and that its operations keep.
use reptile.Prelude.{◌≡◌, refl, ◌∙◌, inl, inr, Bool, false, none, [], ◌==◌, arith, Bool-cases}
use reptile.Text.Defs.{Text}
use reptile.Library.{Library}
use reptile.Result.{Result, ok, err}
use reptile.Egress.{Checker, Net, Fetch, build_failed, request_failed, response, invalidate}
use reptile.Egress.Probe.{
  body_limit, read_limited, client_of, with_client, probe, receive, read_body, judge,
  listing_outcome, use_cache, from_cache, settle, evaluate,
}

-- The checker without what it has observed.
abbrev pub wiring : Checker → Checker
wiring e = record e {
  last_country = [];
  last_ip = [];
  probed = false;
  client = none;
  verdict = false;
  reason = [];
  ts = 0;
  set = false;
}

judge-wiring :
    (lib : Library) (net : Net) (cc ip : Text) (e : Checker)
    → wiring (judge lib net cc ip e).checker ≡ wiring e
unfolding judge listing_outcome
judge-wiring lib net cc ip e = ground arith

with_client-wiring : (e : Checker) → wiring (with_client e) ≡ wiring e
unfolding with_client
with_client-wiring e = ground arith

read_body-wiring :
    (lib : Library) (net : Net) (e : Checker) (r : Result Text Text)
    → wiring (read_body lib net e r).checker ≡ wiring e
unfolding read_body
read_body-wiring lib net e (err m) = refl
read_body-wiring lib net e (ok text) = judge-wiring lib net _ _ _

receive-wiring :
    (lib : Library) (net : Net) (e : Checker) (f : Fetch)
    → wiring (receive lib net e f).checker ≡ wiring e
unfolding receive
receive-wiring lib net e (build_failed m) = refl
receive-wiring lib net e (request_failed m) = with_client-wiring e
receive-wiring lib net e (response status body) = elim (Bool-cases (status == 200)) [
  | inl good ↦
      rw (good, receive)
        (read_body-wiring lib net (with_client e) (read_limited body_limit body)
          ∙ with_client-wiring e)
  | inr bad ↦ rw (bad, receive) (with_client-wiring e)
]

pub evaluate-wiring :
    (lib : Library) (net : Net) (fresh : Bool) (e : Checker)
    → wiring (evaluate lib net fresh e).checker ≡ wiring e
unfolding evaluate settle from_cache probe
evaluate-wiring lib net fresh e = elim (Bool-cases (use_cache net fresh e)) [
  | inl hit ↦ rw hit refl
  | inr miss ↦ rw miss (receive-wiring lib net e (net.fetch (client_of e) e.url))
]

pub invalidate-wiring : (e : Checker) → wiring (invalidate e) ≡ wiring e
unfolding invalidate
invalidate-wiring e = refl
