-- ===== src/Config/Validate/Checks.antt =====
-- What the checks on a single setting guarantee: targets, zones, patterns, the URL, the country.
use reptile.Prelude.{
  ℕ, ◌≤◌, ◌≡◌, ◌≢◌, refl, sym, subst, inl, inr, true, false, none, List, [], ◌∷◌, length, All,
  All-map, arith,
}
use reptile.Text.Defs.{Text, codes, eq_iff, elem, elem-ne, is_ascii, upper_ascii}
use reptile.Text.Space.{trim_space}
use reptile.Library.{Library, Regexp, Url, to_upper}
use reptile.Result.{ok, >>-eq-ok, guard-eq-ok, Result-cases}
use reptile.Config.{Config}
use reptile.Config.Validate.{
  country_re, has_control, check_target, check_targets, check_probe_url, check_pattern, check_zones,
  absolute_https, within,
}

-- A target is a name that the kernel's `comm` can hold.
pub record IsTarget (t : Text) : Type 0 where
  pub non_empty : t ≢ []
  pub trimmed : t ≡ trim_space t
  pub short : length t ≤ 15
  pub printable : All (λ b. (32 ≤ b) × (b ≢ 127)) t

abbrev pub Distinct : List Text → Type 0
Distinct [] = Unit {0}
Distinct (t ∷ ts) = All (λ s. s ≢ t) ts × Distinct ts

has_control-printable : (t : Text) → has_control t ≡ false → All (λ b. (32 ≤ b) × (b ≢ 127)) t
unfolding has_control
has_control-printable [] h = tt
has_control-printable (c ∷ cs) h =
    ((ground arith, ground arith), has_control-printable cs (ground arith))

check_target-IsTarget :
    (seen : List Text) (t : Text) → check_target seen t ≡ none → IsTarget t × (elem t seen ≡ false)
unfolding check_target
check_target-IsTarget seen t h = (
  record {
    non_empty = ground arith;
    trimmed = ground (arith, eq_iff t (trim_space t));
    short = ground arith;
    printable = has_control-printable t (ground arith);
  },
  ground arith,
)

pub check_targets_sound :
    (seen ts : List Text)
    → check_targets seen ts ≡ ok tt
    → All IsTarget ts × Distinct ts × All (λ t. All (λ s. s ≢ t) seen) ts
unfolding check_targets
check_targets_sound seen [] h = (tt, tt, tt)
check_targets_sound seen (t ∷ ts) h =
    let (now, later) = >>-eq-ok _ _ h in
    let (good, unseen) = check_target-IsTarget seen t (guard-eq-ok _ now) in
    let (goods, distinct, apart) = check_targets_sound (t ∷ seen) ts later in
    (
      (good, goods),
      (All-map (λ u a e. a.0 (sym e)) ts apart, distinct),
      (elem-ne t seen unseen, All-map (λ u a. a.1) ts apart),
    )

pub check_zones_sound :
    (zs : List Text) → check_zones zs ≡ none → All (λ z. (z ≢ []) × (z ≡ trim_space z)) zs
unfolding check_zones
check_zones_sound [] h = tt
check_zones_sound (z ∷ zs) h =
    ((ground arith, ground (arith, eq_iff z (trim_space z))), check_zones_sound zs (ground arith))

-- A pattern that compiles, with a group to capture.
pub record IsPattern (lib : Library) (p : Text) : Type 0 where
  pub re : Regexp
  pub compiled : lib.compile p ≡ ok re
  pub captures : 1 ≤ lib.num_subexp re

pub check_pattern-IsPattern :
    (lib : Library) (key p : Text) → check_pattern lib key p ≡ ok tt → IsPattern lib p
unfolding check_pattern
check_pattern-IsPattern lib key p h = elim (Result-cases (lib.compile p)) [
  | inl (e, bad) ↦ ground arith
  | inr (re, good) ↦ record { re = re; compiled = good; captures = ground arith }
]

pub record IsHttps (lib : Library) (u : Text) : Type 0 where
  pub url : Url
  pub parsed : lib.parse_request_uri u ≡ ok url
  pub https : url.scheme ≡ codes "https"
  pub with_host : url.host ≢ []

pub check_probe_url-IsHttps :
    (lib : Library) (c : Config) → check_probe_url lib c ≡ none → IsHttps lib c.probe_url
unfolding check_probe_url absolute_https
check_probe_url-IsHttps lib c h = elim (Result-cases (lib.parse_request_uri c.probe_url)) [
  | inl (e, bad) ↦ ground arith
  | inr (u, good) ↦ record {
    url = u;
    parsed = good;
    https = ground (arith, eq_iff u.scheme (codes "https"));
    with_host = ground arith;
  }
]

-- Two capital letters.
pub record IsCountry (t : Text) : Type 0 where
  pub first : ℕ
  pub second : ℕ
  pub spelled : t ≡ first ∷ second ∷ []
  pub first_capital : (b'A' ≤ first) × (first ≤ b'Z')
  pub second_capital : (b'A' ≤ second) × (second ≤ b'Z')

pub country_re-IsCountry : (t : Text) → country_re t ≡ true → IsCountry t
unfolding country_re within
country_re-IsCountry (a ∷ b ∷ []) h = record {
  first = a;
  second = b;
  spelled = refl;
  first_capital = ground arith;
  second_capital = ground arith;
}
country_re-IsCountry _ h = cc

-- A country code is already trimmed and in upper case.
to_upper-capitals :
    (lib : Library) (a b : ℕ)
    → (b'A' ≤ a) × (a ≤ b'Z')
    → (b'A' ≤ b) × (b ≤ b'Z')
    → to_upper lib (trim_space (a ∷ b ∷ [])) ≡ a ∷ b ∷ []
unfolding to_upper trim_space is_ascii upper_ascii
to_upper-capitals lib a b (l, h) (m, k) = ground (arith, l, h, m, k)

pub to_upper-IsCountry : (lib : Library) (t : Text) → IsCountry t → to_upper lib (trim_space t) ≡ t
to_upper-IsCountry lib t h =
    subst (λ (s : Text). to_upper lib (trim_space s) ≡ s) (sym h.spelled)
      (to_upper-capitals lib h.first h.second h.first_capital h.second_capital)
