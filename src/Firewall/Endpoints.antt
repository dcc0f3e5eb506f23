-- ===== src/Firewall/Endpoints.antt =====
-- Which endpoints `parseEndpoints` lets through the firewall.
use reptile.Prelude.{
  ℕ, ◌+◌, ◌≡◌, ◌≢◌, refl, sym, ap, ◌∙◌, subst, ◌⊎◌, inl, inr, true, Option, none, some, List, [],
  ◌∷◌, Bool-cases, Option-cases, arith,
}
use mathlib.Core.List.{Memᴰ}
use reptile.Text.Defs.{Text, eq, eq_iff}
use reptile.Library.{Library, Ip}
use reptile.Result.{Result, ok, err, bind-eq-ok}
use reptile.Firewall.{
  Endpoint, Lines, endpoint_value, is_port, literal, with_port, endpoint_of, key_of, add_new,
  scan_lines, read_end, parse_endpoints,
}

-- The text names the endpoint: a literal address and a port.
pub record IsNamed (lib : Library) (raw : Text) (ep : Endpoint) : Type 0 where
  pub host : Text
  pub parted : lib.split_host_port raw ≡ ok (host, ep.port)
  pub port : is_port ep.port ≡ true
  pub address : lib.parse_ip host ≡ some ep.ip

-- A line of the file is an `Endpoint` line with the value.
abbrev pub HasValue : List Text → Text → Type 0
HasValue lines raw = (line : Text) × Memᴰ line lines × (endpoint_value line ≡ some raw)

literal-ok :
    (n : ℕ) (raw port : Text) (o : Option Ip) {ep : Endpoint}
    → literal n raw port o ≡ ok ep
    → (o ≡ some ep.ip) × (port ≡ ep.port)
unfolding literal
literal-ok n raw port none h = absurd (ground (arith, h))
literal-ok n raw port (some ip) h = ground (arith, h)

with_port-ok :
    (lib : Library) (n : ℕ) (raw : Text) (r : Result Text (Text × Text)) {ep : Endpoint}
    → with_port lib n raw r ≡ ok ep
    → (host : Text) × (r ≡ ok (host, ep.port))
      × (is_port ep.port ≡ true)
      × (lib.parse_ip host ≡ some ep.ip)
unfolding with_port
with_port-ok lib n raw (err e) h = absurd (ground (arith, h))
with_port-ok lib n raw (ok (host, port)) h = elim (Bool-cases (is_port port)) [
  | inl good ↦
      let (address, same) = literal-ok n raw port (lib.parse_ip host) (rw (good, with_port) at h) in
      (host, ap (λ p. ok (host, p)) same, ap is_port (sym same) ∙ good, address)
  | inr bad ↦ absurd (ground (arith, h, bad))
]

endpoint_of-IsNamed :
    (lib : Library) (n : ℕ) (raw : Text) {ep : Endpoint}
    → endpoint_of lib n raw ≡ ok ep
    → IsNamed lib raw ep
unfolding endpoint_of
endpoint_of-IsNamed lib n raw h =
    let (host, parted, port, address) = with_port-ok lib n raw (lib.split_host_port raw) h in
    record { host = host; parted = parted; port = port; address = address }

-- An endpoint of the list has the key.
abbrev pub Covers : Library → List Endpoint → Endpoint → Type 0
Covers lib eps ep = (e : Endpoint) × Memᴰ e eps × (key_of lib e ≡ key_of lib ep)

add_new-cases :
    (lib : Library) (ep : Endpoint) (es : List Endpoint) {e : Endpoint}
    → Memᴰ e (add_new lib ep es)
    → Memᴰ e es ⊎ (e ≡ ep)
unfolding add_new
add_new-cases lib ep [] (Memᴰ.head s) = inr s
add_new-cases lib ep [] (Memᴰ.tail m) = elim m [ ]
add_new-cases lib ep (x ∷ xs) {e} m = elim (Bool-cases (eq (key_of lib x) (key_of lib ep))) [
  | inl seen ↦ inl (rw (seen, add_new) at m)
  | inr new ↦ step (λ k. add_new-cases lib ep xs k) (rw (new, add_new) at m)
]
  where
    step :
        (Memᴰ e (add_new lib ep xs) → Memᴰ e xs ⊎ (e ≡ ep))
        → Memᴰ e (x ∷ add_new lib ep xs)
        → Memᴰ e (x ∷ xs) ⊎ (e ≡ ep)
    step rest (Memᴰ.head s) = inl (Memᴰ.head s)
    step rest (Memᴰ.tail k) = elim (rest k) [ inl j ↦ inl (Memᴰ.tail j) | inr s ↦ inr s ]

add_new_keeps :
    (lib : Library) (ep : Endpoint) (es : List Endpoint) {e : Endpoint}
    → Memᴰ e es
    → Memᴰ e (add_new lib ep es)
unfolding add_new
add_new_keeps lib ep [] m = elim m [ ]
add_new_keeps lib ep (x ∷ xs) (Memᴰ.head s) =
    elim (Bool-cases (eq (key_of lib x) (key_of lib ep))) [
      | inl seen ↦ rw (seen, add_new) (Memᴰ.head s)
      | inr new ↦ rw (new, add_new) (Memᴰ.head s)
    ]
add_new_keeps lib ep (x ∷ xs) (Memᴰ.tail m) =
    let deeper = add_new_keeps lib ep xs m in
    elim (Bool-cases (eq (key_of lib x) (key_of lib ep))) [
      | inl seen ↦ rw (seen, add_new) (Memᴰ.tail m)
      | inr new ↦ rw (new, add_new) (Memᴰ.tail deeper)
    ]

add_new-Covers :
    (lib : Library) (ep : Endpoint) (es : List Endpoint) → Covers lib (add_new lib ep es) ep
unfolding add_new
add_new-Covers lib ep [] = (ep, Memᴰ.head refl, refl)
add_new-Covers lib ep (x ∷ xs) =
    let (e, m, same) = add_new-Covers lib ep xs in
    elim (Bool-cases (eq (key_of lib x) (key_of lib ep))) [
      | inl seen ↦
          rw (seen, add_new) (x, Memᴰ.head refl, (eq_iff (key_of lib x) (key_of lib ep)).0 seen)
      | inr new ↦ rw (new, add_new) (e, Memᴰ.tail m, same)
    ]

-- What the loop makes of the endpoints found and the lines to come.
record IsScanned (lib : Library) (found : List Endpoint) (lines : List Text) (eps : List Endpoint)
    : Type 0 where
  keeps : (e : Endpoint) → Memᴰ e found → Memᴰ e eps
  sound :
      (e : Endpoint)
      → Memᴰ e eps
      → Memᴰ e found ⊎ ((raw : Text) × HasValue lines raw × IsNamed lib raw e)
  complete :
      (raw : Text) → HasValue lines raw → (e : Endpoint) × IsNamed lib raw e × Covers lib eps e

later :
    {line : Text} {lines : List Text} {raw : Text}
    → HasValue lines raw
    → HasValue (line ∷ lines) raw
later (l, m, v) = (l, Memᴰ.tail m, v)

IsScanned-skip :
    (lib : Library) (found : List Endpoint) (l : Text) (ls : List Text) {eps : List Endpoint}
    → endpoint_value l ≡ none
    → IsScanned lib found ls eps
    → IsScanned lib found (l ∷ ls) eps
IsScanned-skip lib found l ls {eps} plain s = record {
  keeps = s.keeps;
  sound = λ e m. elim (s.sound e m) [
    | inl old ↦ inl old
    | inr (raw, v, named) ↦ inr (raw, later v, named)
  ];
  complete = λ raw v. whole raw v;
}
  where
    whole :
        (raw : Text) → HasValue (l ∷ ls) raw → (e : Endpoint) × IsNamed lib raw e × Covers lib eps e
    whole raw (k, Memᴰ.head same, v) = absurd (cc (sym plain ∙ ap endpoint_value (sym same) ∙ v))
    whole raw (k, Memᴰ.tail m, v) = s.complete raw (k, m, v)

IsScanned-add :
    (lib : Library) (found : List Endpoint) (l : Text) (ls : List Text) {eps : List Endpoint}
    {raw : Text} {ep : Endpoint}
    → endpoint_value l ≡ some raw
    → IsNamed lib raw ep
    → IsScanned lib (add_new lib ep found) ls eps
    → IsScanned lib found (l ∷ ls) eps
IsScanned-add lib found l ls {eps} {raw} {ep} value named s = record {
  keeps = λ e m. s.keeps e (add_new_keeps lib ep found m);
  sound = λ e m. elim (s.sound e m) [
    | inl old ↦ elim (add_new-cases lib ep found old) [
      | inl older ↦ inl older
      | inr same ↦ inr (raw, (l, Memᴰ.head refl, value), subst (IsNamed lib raw) (sym same) named)
    ]
    | inr (r, v, n) ↦ inr (r, later v, n)
  ];
  complete = λ r v. whole r v;
}
  where
    here : Covers lib eps ep
    here = let (e, m, same) = add_new-Covers lib ep found in (e, s.keeps e m, same)

    whole : (r : Text) → HasValue (l ∷ ls) r → (e : Endpoint) × IsNamed lib r e × Covers lib eps e
    whole r (k, Memᴰ.head same, v) =
        let raws : raw ≡ r = ground (arith, value, sym (ap endpoint_value same), v) in
        (ep, subst (λ x. IsNamed lib x ep) raws named, here)
    whole r (k, Memᴰ.tail m, v) = s.complete r (k, m, v)

scan_lines-IsScanned :
    (lib : Library) (n : ℕ) (found : List Endpoint) (ls : List Text) {eps : List Endpoint}
    → scan_lines lib n found ls ≡ ok eps
    → IsScanned lib found ls eps
unfolding scan_lines
scan_lines-IsScanned lib n found [] {eps} h =
    let same : found ≡ eps = ground (arith, h) in
    record {
      keeps = λ e m. subst (Memᴰ e) same m;
      sound = λ e m. inl (subst (Memᴰ e) (sym same) m);
      complete = λ raw (l, m, v). elim m [ ];
    }
scan_lines-IsScanned lib n found (l ∷ ls) h = elim (Option-cases (endpoint_value l)) [
  | inl plain ↦
      IsScanned-skip lib found l ls plain
        (scan_lines-IsScanned lib (n + 1) found ls (rw (plain, scan_lines) at h))
  | inr (raw, value) ↦
      let (ep, made, rest) = bind-eq-ok (endpoint_of lib n raw) _ (rw (value, scan_lines) at h) in
      IsScanned-add lib found l ls value (endpoint_of-IsNamed lib n raw made)
        (scan_lines-IsScanned lib (n + 1) (add_new lib ep found) ls rest)
]

-- What the firewall lets through: some endpoint, each endpoint a literal address and a port that an
-- `Endpoint` line names, and for each such line an endpoint with its address and port as printed.
pub record IsLetThrough (lib : Library) (lines : List Text) (eps : List Endpoint) : Type 0 where
  pub some_endpoint : eps ≢ []
  pub sound : (e : Endpoint) → Memᴰ e eps → (raw : Text) × HasValue lines raw × IsNamed lib raw e
  pub complete :
      (raw : Text) → HasValue lines raw → (e : Endpoint) × IsNamed lib raw e × Covers lib eps e

read_end-ok :
    (o : Option Text) (found : List Endpoint) {eps : List Endpoint}
    → read_end o found ≡ ok eps
    → (found ≡ eps) × (eps ≢ [])
unfolding read_end
read_end-ok (some e) found h = absurd (ground (arith, h))
read_end-ok none [] h = absurd (ground (arith, h))
read_end-ok none (f ∷ fs) {eps} h = ground (arith, h)

pub parse_endpoints-IsLetThrough :
    (lib : Library) (f : Lines) {eps : List Endpoint}
    → parse_endpoints lib (ok f) ≡ ok eps
    → IsLetThrough lib f.lines eps
unfolding parse_endpoints
parse_endpoints-IsLetThrough lib f {eps} h =
    let (found, scanned, ended) = bind-eq-ok (scan_lines lib 1 [] f.lines) _ h in
    let (same, some_found) = read_end-ok f.error found ended in
    let s = scan_lines-IsScanned lib 1 [] f.lines (scanned ∙ ap ok same) in
    record {
      some_endpoint = some_found;
      sound = λ e m. elim (s.sound e m) [ inl old ↦ elim old [ ] | inr v ↦ v ];
      complete = s.complete;
    }
