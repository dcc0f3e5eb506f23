-- ===== src/Firewall/Nft/Rules.antt =====
-- The table that `buildRuleset` of internal/app/firewall.go writes, as a list of rules.
use reptile.Prelude.{◌≡◌, refl, sym, ap, ◌∙◌, ◌↔◌, inl, inr, List, [], ◌∷◌, ◌++◌, map, append_assoc}
use mathlib.Core.List.{Memᴰ}
use mathlib.Core.List.Memᴰ.{append_left, append_right, append_cases}
use reptile.Text.Defs.{Text, codes}
use reptile.Text.Space.{trim_space}
use reptile.Library.{Library, Ip, v4, v6}
use reptile.Firewall.{Endpoint}
use reptile.Firewall.Nft.{address_rule, endpoint_rule, endpoint_rules, extra_rules, build_ruleset}

-- What a rule of the chain lets out.
pub data Rule : Type 0 where
  loopback : Rule
  tunnel : Text → Rule
  endpoint : Endpoint → Rule
  dhcp dhcp6 discovery : Rule
  extra : Text → Rule

-- The keyword of an address.
abbrev pub family : Ip → Text
family (v4 _ _ _ _) = codes "ip"
family (v6 _) = codes "ip6"

abbrev pub rule_text : Library → Rule → Text
rule_text lib loopback = codes "oifname \"lo\" accept"
rule_text lib (tunnel iface) = codes "oifname " ++ (lib.quote iface ++ codes " accept")
rule_text lib (endpoint e) =
    family e.ip
    ++ (codes " daddr "
        ++ (lib.ip_string e.ip ++ (codes " udp dport " ++ (e.port ++ codes " accept"))))
rule_text lib dhcp = codes "udp sport 68 udp dport 67 accept"
rule_text lib dhcp6 = codes "udp sport 546 udp dport 547 accept"
rule_text lib discovery = codes "icmpv6 type { nd-router-solicit, nd-neighbor-solicit } accept"
rule_text lib (extra t) = trim_space t

-- Each rule on a line of its own, then the end of the table.
abbrev pub rule_lines : Library → List Rule → Text
rule_lines lib [] = codes "  }\n}\n"
rule_lines lib (r ∷ rs) = codes "    " ++ (rule_text lib r ++ (b'\n' ∷ rule_lines lib rs))

-- A table whose one chain drops what no rule lets out.
abbrev pub table_text : Library → List Rule → Text
table_text lib rs =
    codes
      "table inet reptile {\n  chain out {\n    type filter hook output priority filter; policy drop;\n"
    ++ rule_lines lib rs

-- The rules that there should be.
pub data IsAllowed (iface : Text) (eps : List Endpoint) (more : List Text) (r : Rule) : Type 0 where
  of_loopback : r ≡ loopback → IsAllowed iface eps more r
  of_tunnel : r ≡ tunnel iface → IsAllowed iface eps more r
  of_endpoint : (e : Endpoint) → Memᴰ e eps → r ≡ endpoint e → IsAllowed iface eps more r
  of_dhcp : r ≡ dhcp → IsAllowed iface eps more r
  of_dhcp6 : r ≡ dhcp6 → IsAllowed iface eps more r
  of_discovery : r ≡ discovery → IsAllowed iface eps more r
  of_extra : (t : Text) → Memᴰ t more → r ≡ extra t → IsAllowed iface eps more r

abbrev pub allowed : Text → List Endpoint → List Text → List Rule
allowed iface eps more =
    loopback ∷ tunnel iface ∷ (map endpoint eps ++ (dhcp ∷ dhcp6 ∷ discovery ∷ map extra more))

map-cases :
    {A B : Type 0} (f : A → B) (xs : List A) {y : B}
    → Memᴰ y (map f xs)
    → (x : A) × Memᴰ x xs × (y ≡ f x)
map-cases f [] m = elim m [ ]
map-cases f (x ∷ xs) (Memᴰ.head e) = (x, Memᴰ.head refl, e)
map-cases f (x ∷ xs) (Memᴰ.tail m) = let (z, there, e) = map-cases f xs m in (z, Memᴰ.tail there, e)

Memᴰ-map :
    {A B : Type 0} (f : A → B) (xs : List A) {x : A} {y : B}
    → Memᴰ x xs
    → y ≡ f x
    → Memᴰ y (map f xs)
Memᴰ-map f [] m e = elim m [ ]
Memᴰ-map f (z ∷ xs) (Memᴰ.head h) e = Memᴰ.head (e ∙ ap f h)
Memᴰ-map f (z ∷ xs) (Memᴰ.tail m) e = Memᴰ.tail (Memᴰ-map f xs m e)

pub allowed-IsAllowed :
    (iface : Text) (eps : List Endpoint) (more : List Text) (r : Rule)
    → Memᴰ r (allowed iface eps more) ↔ IsAllowed iface eps more r
allowed-IsAllowed iface eps more r = (there, back)
  where
    rest : Memᴰ r (dhcp ∷ dhcp6 ∷ discovery ∷ map extra more) → IsAllowed iface eps more r
    rest (Memᴰ.head e) = of_dhcp e
    rest (Memᴰ.tail (Memᴰ.head e)) = of_dhcp6 e
    rest (Memᴰ.tail (Memᴰ.tail (Memᴰ.head e))) = of_discovery e
    rest (Memᴰ.tail (Memᴰ.tail (Memᴰ.tail m))) =
        let (t, given, e) = map-cases extra more m in of_extra t given e

    there : Memᴰ r (allowed iface eps more) → IsAllowed iface eps more r
    there (Memᴰ.head e) = of_loopback e
    there (Memᴰ.tail (Memᴰ.head e)) = of_tunnel e
    there (Memᴰ.tail (Memᴰ.tail m)) = elim (append_cases (map endpoint eps) m) [
      | inl named ↦ let (e, given, same) = map-cases endpoint eps named in of_endpoint e given same
      | inr other ↦ rest other
    ]

    fixed : Memᴰ r (dhcp ∷ dhcp6 ∷ discovery ∷ map extra more) → Memᴰ r (allowed iface eps more)
    fixed m = Memᴰ.tail (Memᴰ.tail (append_right (map endpoint eps) m))

    back : IsAllowed iface eps more r → Memᴰ r (allowed iface eps more)
    back (of_loopback e) = Memᴰ.head e
    back (of_tunnel e) = Memᴰ.tail (Memᴰ.head e)
    back (of_endpoint p given e) =
        Memᴰ.tail (Memᴰ.tail (append_left _ (Memᴰ-map endpoint eps given e)))
    back (of_dhcp e) = fixed (Memᴰ.head e)
    back (of_dhcp6 e) = fixed (Memᴰ.tail (Memᴰ.head e))
    back (of_discovery e) = fixed (Memᴰ.tail (Memᴰ.tail (Memᴰ.head e)))
    back (of_extra t given e) =
        fixed (Memᴰ.tail (Memᴰ.tail (Memᴰ.tail (Memᴰ-map extra more given e))))

endpoint_rule-eq-rule_lines :
    (lib : Library) (e : Endpoint) (rest : Text)
    → codes "    " ++ (rule_text lib (endpoint e) ++ (b'\n' ∷ rest))
      ≡ endpoint_rule lib e.ip e.port ++ rest
unfolding endpoint_rule address_rule
endpoint_rule-eq-rule_lines lib e rest = by_family e.ip
  where
    by_family :
        (ip : Ip)
        → codes "    "
            ++ (rule_text lib (endpoint (record { ip = ip; port = e.port })) ++ (b'\n' ∷ rest))
          ≡ endpoint_rule lib ip e.port ++ rest
    by_family (v4 a b c d) = simp (append_assoc)
    by_family (v6 s) = simp (append_assoc)

endpoint_rules-eq-rule_lines :
    (lib : Library) (eps : List Endpoint) (rs : List Rule)
    → rule_lines lib (map endpoint eps ++ rs) ≡ endpoint_rules lib eps ++ rule_lines lib rs
unfolding endpoint_rules
endpoint_rules-eq-rule_lines lib [] rs = refl
endpoint_rules-eq-rule_lines lib (e ∷ eps) rs =
    ap (λ t. codes "    " ++ (rule_text lib (endpoint e) ++ (b'\n' ∷ t)))
      (endpoint_rules-eq-rule_lines lib eps rs)
    ∙ endpoint_rule-eq-rule_lines lib e (endpoint_rules lib eps ++ rule_lines lib rs)
    ∙ sym
        (append_assoc (endpoint_rule lib e.ip e.port) (endpoint_rules lib eps) (rule_lines lib rs))

extra_rules-eq-rule_lines :
    (lib : Library) (more : List Text)
    → rule_lines lib (map extra more) ≡ extra_rules more ++ codes "  }\n}\n"
unfolding extra_rules
extra_rules-eq-rule_lines lib [] = refl
extra_rules-eq-rule_lines lib (t ∷ more) =
    ap (λ s. codes "    " ++ (trim_space t ++ (b'\n' ∷ s))) (extra_rules-eq-rule_lines lib more)
    ∙ ap (λ s. codes "    " ++ s)
        (sym (append_assoc (trim_space t) (b'\n' ∷ extra_rules more) (codes "  }\n}\n")))

pub build_ruleset-eq-table_text :
    (lib : Library) (iface : Text) (eps : List Endpoint) (more : List Text)
    → build_ruleset lib iface eps more ≡ table_text lib (allowed iface eps more)
unfolding build_ruleset
build_ruleset-eq-table_text lib iface eps more = sym (
    rw
      (
        endpoint_rules-eq-rule_lines lib eps (dhcp ∷ dhcp6 ∷ discovery ∷ map extra more),
        extra_rules-eq-rule_lines lib more,
        append_assoc (lib.quote iface) (codes " accept"),
      )
      refl)
