-- ===== src/Egress/Sound.antt =====
-- What a probe must have seen to pass: `probe` is fail-closed, and passes on a full proof.
use reptile.Prelude.{
  ℕ, ◌≡◌, ◌≢◌, refl, sym, ap, ◌↔◌, inl, inr, true, none, [], ◌==◌, ==_iff, arith, Bool-cases, subst,
}
use reptile.Text.Defs.{Text, eq_iff}
use reptile.Library.{Library, Regexp}
use reptile.Result.{Result, ok, err}
use reptile.Egress.{Checker, Body, Fetch, build_failed, request_failed, response, Net}
use reptile.Egress.Dnsbl.{blacklisted}
use reptile.Egress.Probe.{
  client_of, with_client, body_limit, read_limited, country_in, ip_in, listing_outcome, judge,
  read_body, receive, probe,
}

-- The checks on an observed country and address hold.
pub record IsAccepted (lib : Library) (net : Net) (e : Checker) (cc ip : Text) : Type 0 where
  pub country_seen : cc ≢ []
  pub country_right : cc ≡ e.expected_country
  pub ip_right : e.expected_ip ≢ [] → ip ≡ e.expected_ip
  pub ip_seen : e.zones ≢ [] → ip ≢ []
  pub unlisted : e.zones ≢ [] → (blacklisted lib net.lookup_host e.zones ip).zone ≡ none

judge-IsAccepted :
    (lib : Library) (net : Net) (cc ip : Text) (e : Checker)
    → (judge lib net cc ip e).passed ≡ true
    → IsAccepted lib net e cc ip
unfolding judge listing_outcome
judge-IsAccepted lib net cc ip e h =
    ground (arith, eq_iff cc e.expected_country, eq_iff ip e.expected_ip)

IsAccepted-judge :
    (lib : Library) (net : Net) (cc ip : Text) (e : Checker)
    → IsAccepted lib net e cc ip
    → (judge lib net cc ip e).passed ≡ true
unfolding judge listing_outcome
IsAccepted-judge lib net cc ip e a =
    ground (arith, eq_iff cc e.expected_country, eq_iff ip e.expected_ip)

-- A fetch that arrived with status 200 and was read, and what it says is accepted.
pub record IsGood (lib : Library) (net : Net) (e : Checker) (f : Fetch) : Type 0 where
  pub body : Body
  pub text : Text
  pub fetched : f ≡ response 200 body
  pub read : read_limited body_limit body ≡ ok text
  pub accepted : IsAccepted lib net e (country_in lib e.country_re text) (ip_in lib e.ip_re text)

-- What a probe has fetched is good.
abbrev pub IsProven : Library → Net → Checker → Type 0
IsProven lib net e = IsGood lib net e (net.fetch (client_of e) e.url)

-- The settings that the client leaves alone.
pub record SameSettings (e f : Checker) : Type 0 where
  pub country_re : e.country_re ≡ f.country_re
  pub ip_re : e.ip_re ≡ f.ip_re
  pub expected_country : e.expected_country ≡ f.expected_country
  pub expected_ip : e.expected_ip ≡ f.expected_ip
  pub zones : e.zones ≡ f.zones

with_client-SameSettings : (e : Checker) → SameSettings (with_client e) e
unfolding with_client
with_client-SameSettings e = ground arith

IsAccepted-SameSettings :
    (lib : Library) (net : Net) {e f : Checker} (cc ip : Text)
    → SameSettings e f
    → IsAccepted lib net e cc ip ↔ IsAccepted lib net f cc ip
IsAccepted-SameSettings lib net {e} {f} cc ip s =
    (λ a. ground (arith, a.unlisted), λ a. ground (arith, a.unlisted))

module _ (lib : Library) (net : Net) (e : Checker) where
  -- The checker that `judge` gets.
  abbrev recorded : Text → Text → Checker
  recorded cc ip = record (with_client e) { last_country = cc; last_ip = ip }

  recorded-IsAccepted :
      (cc ip x y : Text) → IsAccepted lib net (recorded x y) cc ip ↔ IsAccepted lib net e cc ip
  recorded-IsAccepted cc ip x y =
      let s = with_client-SameSettings e in
      IsAccepted-SameSettings lib net cc ip (record {
        country_re = s.country_re;
        ip_re = s.ip_re;
        expected_country = s.expected_country;
        expected_ip = s.expected_ip;
        zones = s.zones;
      })

  read_body-IsGood :
      (body : Body) (r : Result Text Text)
      → read_limited body_limit body ≡ r
      → (read_body lib net (with_client e) r).passed ≡ true
      → IsGood lib net e (response 200 body)
  unfolding read_body
  read_body-IsGood body (err m) q h = cc
  read_body-IsGood body (ok text) q h =
      let s = with_client-SameSettings e in
      let cc' = country_in lib (with_client e).country_re text in
      let ip' = ip_in lib (with_client e).ip_re text in
      record {
        body = body;
        text = text;
        fetched = refl;
        read = q;
        accepted =
            subst
              (λ (re : Regexp).
                IsAccepted lib net e (country_in lib re text) (ip_in lib e.ip_re text))
              s.country_re
              (subst (λ (re : Regexp). IsAccepted lib net e cc' (ip_in lib re text)) s.ip_re
                ((recorded-IsAccepted cc' ip' cc' ip').0
                  (judge-IsAccepted lib net cc' ip' (recorded cc' ip') h)));
      }

  receive-IsGood : (f : Fetch) → (receive lib net e f).passed ≡ true → IsGood lib net e f
  unfolding receive
  receive-IsGood (build_failed m) h = cc
  receive-IsGood (request_failed m) h = cc
  receive-IsGood (response status body) h = elim (Bool-cases (status == 200)) [
    | inl good ↦
        let same : status ≡ 200 = (==_iff status 200).0 good in
        subst (λ (n : ℕ). IsGood lib net e (response n body)) (sym same)
          (read_body-IsGood body (read_limited body_limit body) refl (rw (good, receive) at h))
    | inr bad ↦ ground arith
  ]

  IsGood-receive : (f : Fetch) → IsGood lib net e f → (receive lib net e f).passed ≡ true
  unfolding receive read_body
  IsGood-receive f g =
      let s = with_client-SameSettings e in
      let p = ap (λ (re : Regexp). country_in lib re g.text) s.country_re in
      let q = ap (λ (re : Regexp). ip_in lib re g.text) s.ip_re in
      let a =
        subst (λ (x : Text). IsAccepted lib net e x (ip_in lib (with_client e).ip_re g.text))
          (sym p)
          (subst (IsAccepted lib net e (country_in lib e.country_re g.text)) (sym q) g.accepted) in
      rw (g.fetched, receive, g.read)
        (IsAccepted-judge lib net _ _ _ ((recorded-IsAccepted _ _ _ _).1 a))

-- A probe passes exactly if the response arrived with status 200 and was read, and the country in
-- it is the expected one, the address in it is the pinned one if one is pinned, and no configured
-- zone is reported for that address if zones are configured.
pub probe_passes_iff :
    (lib : Library) (net : Net) (e : Checker)
    → ((probe lib net e).passed ≡ true) ↔ IsProven lib net e
unfolding probe
probe_passes_iff lib net e = (
  receive-IsGood lib net e (net.fetch (client_of e) e.url),
  IsGood-receive lib net e (net.fetch (client_of e) e.url),
)
