-- ===== src/Egress/Dnsbl.antt =====
-- The DNSBL check of internal/app/egress.go: `blacklisted`, `reverseIPv4`, `listedAnswer`.
use reptile.Prelude.{
  ℕ, ◌≡◌, refl, sym, ap, ◌∙◌, subst, ◌↔◌, inl, inr, Bool, true, false, not, ◌&&◌, ◌||◌, Option,
  none, some, List, [], ◌∷◌, ◌++◌, ◌==◌, if◌then◌else◌, All, arith, Bool-cases,
}
use mathlib.Core.List.{Memᴰ}
use reptile.Text.Defs.{Text, codes}
use reptile.Text.Space.{trim_space}
use reptile.Text.Number.{itoa_ℕ}
use reptile.Library.{Library, Ip, v4, v6}
use reptile.Result.{Result, ok, err, Result-cases}

-- `net.ParseIP(s).To4()`
abbrev pub to4 : Option Ip → Option Ip
to4 (some (v4 a b c d)) = some (v4 a b c d)
to4 _ = none

-- "d.c.b.a"
unfoldable pub reversed : ℕ → ℕ → ℕ → ℕ → Text
reversed a b c d = itoa_ℕ d ++ (b'.' ∷ (itoa_ℕ c ++ (b'.' ∷ (itoa_ℕ b ++ (b'.' ∷ itoa_ℕ a)))))

reverse_addr : Option Ip → Option Text
unfolding reversed
reverse_addr (some (v4 a b c d)) = some (reversed a b c d)
reverse_addr _ = none

-- `reverseIPv4`
unfoldable pub reverse_ipv4 : Library → Text → Option Text
unfolding reverse_addr
reverse_ipv4 lib ip = reverse_addr (lib.parse_ip ip)

listed_addr : Option Ip → Bool
listed_addr (some (v4 a b c d)) = if not (a == 127) then false else not (b == 255 && c == 255)
listed_addr _ = false

-- `listedAnswer`
unfoldable pub listed_answer : Library → Text → Bool
unfolding listed_addr
listed_answer lib ans = listed_addr (lib.parse_ip (trim_space ans))

pub any_listed : Library → List Text → Bool
any_listed lib [] = false
any_listed lib (a ∷ rest) = listed_answer lib a || any_listed lib rest

query_failed : Text → Text → Text
query_failed q e = codes "dnsbl query " ++ (q ++ (codes " failed: " ++ e))

pub record Listing : Type 0 where
  pub zone : Option Text
  pub logs : List Text

-- The loop over the zones; a query that fails is logged and counts as no listing.
pub scan_zones : Library → (Text → Result Text (List Text)) → Text → List Text → Listing
unfolding query_failed
scan_zones lib lookup rev [] = record { zone = none; logs = [] }
scan_zones lib lookup rev (z ∷ zs) =
    let q = rev ++ (b'.' ∷ z) in
    let rest = scan_zones lib lookup rev zs in
    elim (lookup q) [
      | err e ↦ record rest { logs = query_failed q e ∷ rest.logs }
      | ok answers ↦ if any_listed lib answers then record { zone = some z; logs = [] } else rest
    ]

not_ipv4 : Text → Text
not_ipv4 ip = codes "egress IP " ++ (ip ++ codes " is not IPv4; skipping DNSBL check")

-- `blacklisted`: the first zone that lists the address.
unfoldable pub blacklisted : Library → (Text → Result Text (List Text)) → List Text → Text → Listing
unfolding not_ipv4
blacklisted lib lookup zones ip = elim (reverse_ipv4 lib ip) [
  | none ↦ record { zone = none; logs = not_ipv4 ip ∷ [] }
  | some rev ↦ scan_zones lib lookup rev zones
]

-- An answer that is in 127.0.0.0/8 and not in 127.255.255.0/24.
pub record IsHit (lib : Library) (answer : Text) : Type 0 where
  pub b : ℕ
  pub c : ℕ
  pub d : ℕ
  pub in_loopback : lib.parse_ip (trim_space answer) ≡ some (v4 127 b c d)
  pub no_refusal : ((b ≡ 255) × (c ≡ 255)) → ⊥

-- The zone lists the reversed address: the query is answered, with a hit among the answers.
pub record IsListed (lib : Library) (lookup : Text → Result Text (List Text)) (rev zone : Text)
    : Type 0 where
  pub answers : List Text
  pub answered : lookup (rev ++ (b'.' ∷ zone)) ≡ ok answers
  pub answer : Text
  pub among : Memᴰ answer answers
  pub hit : IsHit lib answer

listed_answer_iff : (lib : Library) (a : Text) → (listed_answer lib a ≡ true) ↔ IsHit lib a
unfolding listed_answer
listed_answer_iff lib a = (
  λ h. hit_of (lib.parse_ip (trim_space a)) refl h,
  λ hit. rw hit.in_loopback (ground (arith, hit.no_refusal)),
)
  where
    hit_of : (o : Option Ip) → lib.parse_ip (trim_space a) ≡ o → listed_addr o ≡ true → IsHit lib a
    hit_of none e h = cc
    hit_of (some (v6 t)) e h = cc
    hit_of (some (v4 x b c d)) e h = record {
      b = b;
      c = c;
      d = d;
      in_loopback = let loop : x ≡ 127 = ground arith in e ∙ ap (λ (t : ℕ). some (v4 t b c d)) loop;
      no_refusal = λ (p, q). ground arith;
    }

any_listed-IsHit :
    (lib : Library) (as' : List Text)
    → any_listed lib as' ≡ true
    → (a : Text) × Memᴰ a as' × IsHit lib a
unfolding any_listed
any_listed-IsHit lib [] h = cc
any_listed-IsHit lib (a ∷ as') h = elim (Bool-cases (listed_answer lib a)) [
  | inl yes_hit ↦ (a, Memᴰ.head refl, (listed_answer_iff lib a).0 yes_hit)
  | inr no_hit ↦ let (b, m, hit) = any_listed-IsHit lib as' (ground arith) in (b, Memᴰ.tail m, hit)
]

IsHit-any_listed :
    (lib : Library) {a : Text} {as' : List Text}
    → Memᴰ a as'
    → IsHit lib a
    → any_listed lib as' ≡ true
unfolding any_listed
IsHit-any_listed lib (Memᴰ.head e) hit = rw (← e, (listed_answer_iff lib _).1 hit)
IsHit-any_listed lib (Memᴰ.tail m) hit = ground (arith, IsHit-any_listed lib m hit)

module _ (lib : Library) (lookup : Text → Result Text (List Text)) (rev : Text) where
  IsListed-any :
      {z : Text} {answers : List Text}
      → lookup (rev ++ (b'.' ∷ z)) ≡ ok answers
      → IsListed lib lookup rev z
      → any_listed lib answers ≡ true
  IsListed-any e l =
      let same : l.answers ≡ _ = cc (sym l.answered ∙ e) in
      subst (λ as'. any_listed lib as' ≡ true) same (IsHit-any_listed lib l.among l.hit)

  scan_zones-none :
      (zs : List Text)
      → (scan_zones lib lookup rev zs).zone ≡ none
      → All (λ z. ¬ IsListed lib lookup rev z) zs
  unfolding scan_zones
  scan_zones-none [] h = tt
  scan_zones-none (z ∷ zs) h = elim (Result-cases (lookup (rev ++ (b'.' ∷ z)))) [
    | inl (e, bad) ↦ (λ l. cc (l.answered), scan_zones-none zs (rw (bad, scan_zones) at h))
    | inr (answers, good) ↦ elim (Bool-cases (any_listed lib answers)) [
      | inl hit ↦ absurd (ground arith)
      | inr clean ↦ (λ l. cc (IsListed-any good l), scan_zones-none zs (ground arith))
    ]
  ]

  scan_zones-some :
      (zs : List Text) {z : Text}
      → (scan_zones lib lookup rev zs).zone ≡ some z
      → Memᴰ z zs × IsListed lib lookup rev z
  unfolding scan_zones
  scan_zones-some [] h = cc
  scan_zones-some (y ∷ zs) {z} h = elim (Result-cases (lookup (rev ++ (b'.' ∷ y)))) [
    | inl (e, bad) ↦ let (m, l) = scan_zones-some zs (rw (bad, scan_zones) at h) in (Memᴰ.tail m, l)
    | inr (answers, good) ↦ elim (Bool-cases (any_listed lib answers)) [
      | inl found ↦
          let (a, m, hit) = any_listed-IsHit lib answers found in
          let same : y ≡ z = ground arith in
          let listed : IsListed lib lookup rev y = record {
            answers = answers;
            answered = good;
            answer = a;
            among = m;
            hit = hit;
          } in
          (Memᴰ.head (sym same), subst (IsListed lib lookup rev) same listed)
      | inr clean ↦ let (m, l) = scan_zones-some zs {z = z} (ground arith) in (Memᴰ.tail m, l)
    ]
  ]

-- For an IPv4 exit address a zone that is reported is configured and lists the address, and if
-- none is reported then no configured zone lists it; a query that fails is no listing.
pub blacklisted_exact :
    (lib : Library) (lookup : Text → Result Text (List Text)) (zones : List Text) (ip : Text)
    {rev : Text}
    → reverse_ipv4 lib ip ≡ some rev
    → ((z : Text)
        → (blacklisted lib lookup zones ip).zone ≡ some z
        → Memᴰ z zones × IsListed lib lookup rev z)
      × ((blacklisted lib lookup zones ip).zone ≡ none
          → All (λ z. ¬ IsListed lib lookup rev z) zones)
unfolding blacklisted
blacklisted_exact lib lookup zones ip {rev} e = (
  λ z h. scan_zones-some lib lookup rev zones (rw (e, blacklisted) at h),
  λ h. scan_zones-none lib lookup rev zones (rw (e, blacklisted) at h),
)
