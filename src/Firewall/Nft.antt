-- ===== src/Firewall/Nft.antt =====
-- `buildRuleset`, `nftTablePresent`, `ApplyRuleset` and `ApplyDown` of internal/app/firewall.go, and
-- `runFirewall` of internal/app/main.go. `nft` acts on a state of any type.
pub mod Engaged
pub mod Rules
pub mod Listed
use reptile.Prelude.{
  Bool, true, false, not, ◌&&◌, ◌||◌, Option, none, some, List, [], ◌∷◌, ◌++◌, if◌then◌else◌,
}
use reptile.Text.Defs.{Text, codes, eq}
use reptile.Text.Space.{trim_space}
use reptile.Text.Split.{split, fields}
use reptile.Library.{Library, Ip, v4, v6}
use reptile.Result.{Result, ok, err, wrap, ◌>>=◌}
use reptile.Config.{Config}
use reptile.Firewall.{Endpoint, EndpointError, Lines, parse_endpoints}

unfoldable pub address_rule : Library → Text → Ip → Text → Text
address_rule lib family ip port =
    codes "    "
    ++ (family
        ++ (codes " daddr "
            ++ (lib.ip_string ip ++ (codes " udp dport " ++ (port ++ codes " accept\n")))))

-- "ip" for an address whose `To4` is not nil, else "ip6"
unfoldable pub endpoint_rule : Library → Ip → Text → Text
unfolding address_rule
endpoint_rule lib (v4 a b c d) port = address_rule lib (codes "ip") (v4 a b c d) port
endpoint_rule lib (v6 s) port = address_rule lib (codes "ip6") (v6 s) port

unfoldable pub endpoint_rules : Library → List Endpoint → Text
unfolding endpoint_rule
endpoint_rules lib [] = []
endpoint_rules lib (e ∷ es) = endpoint_rule lib e.ip e.port ++ endpoint_rules lib es

unfoldable pub extra_rules : List Text → Text
extra_rules [] = []
extra_rules (e ∷ es) = codes "    " ++ (trim_space e ++ (b'\n' ∷ extra_rules es))

abbrev pub nft_table : Text
nft_table = codes "inet reptile"

-- `buildRuleset`
unfoldable pub build_ruleset : Library → Text → List Endpoint → List Text → Text
unfolding endpoint_rules extra_rules
build_ruleset lib iface endpoints extra =
    codes "table "
    ++ (nft_table
        ++ (codes " {\n  chain out {\n    type filter hook output priority filter; policy drop;\n"
            ++ (codes "    oifname \"lo\" accept\n    oifname "
                ++ (lib.quote iface
                    ++ (codes " accept\n"
                        ++ (endpoint_rules lib endpoints
                            ++ (codes "    udp sport 68 udp dport 67 accept\n"
                                ++ (codes "    udp sport 546 udp dport 547 accept\n"
                                    ++ (codes
                                          "    icmpv6 type { nd-router-solicit, nd-neighbor-solicit } accept\n"
                                        ++ (extra_rules extra ++ codes "  }\n}\n"))))))))))

unfoldable pub is_table : List Text → Bool
is_table (a ∷ b ∷ c ∷ []) = eq a (codes "table") && eq b (codes "inet") && eq c (codes "reptile")
is_table _ = false

unfoldable pub any_table : List Text → Bool
unfolding is_table
any_table [] = false
any_table (l ∷ ls) = is_table (fields l) || any_table ls

-- The commands of `nft` on a state: an error, or what is printed.
pub record Nft (K : Type 0) : Type 0 where
  -- `nft list tables`
  pub list_tables : K → Result Text Text
  -- `nft -f -`
  pub load : Text → K → Option Text × K
  -- `nft delete table inet reptile`
  pub delete_table : K → Option Text × K

pub data NftError : Type 0 where
  not_listed : Text → NftError
  not_loaded : Text → NftError
  not_deleted : Text → NftError
  not_verified : NftError → NftError
  absent : NftError

pub record Done (K : Type 0) : Type 0 where
  pub error : Option NftError
  pub kernel : K

module _ {K : Type 0} (nft : Nft K) where
  unfoldable pub listing_shows : Result Text Text → Result NftError Bool
  listing_shows (err e) = err (not_listed e)
  listing_shows (ok out) = ok (any_table (split b'\n' out))

  -- `nftTablePresent`
  unfoldable pub table_present : K → Result NftError Bool
  unfolding listing_shows
  table_present k = listing_shows (nft.list_tables k)

  unfoldable pub verify : Result NftError Bool → Option NftError
  verify (err e) = some (not_verified e)
  verify (ok present) = if not present then some absent else none

  -- What is given to `nft -f -`.
  abbrev pub transaction : Bool → Text → Text
  transaction present rs =
      if present then codes "delete table " ++ (nft_table ++ (b'\n' ∷ rs)) else rs

  unfoldable pub after_load : Option Text × K → Done K
  after_load (some e, k) = record { error = some (not_loaded e); kernel = k }
  after_load (none, k) = record { error = verify (table_present k); kernel = k }

  unfoldable pub load_over : Text → K → Result NftError Bool → Done K
  load_over rs k (err e) = record { error = some e; kernel = k }
  load_over rs k (ok present) = after_load (nft.load (transaction present rs) k)

  -- `ApplyRuleset`
  unfoldable pub apply_ruleset : Text → K → Done K
  apply_ruleset rs k = load_over rs k (table_present k)

  unfoldable pub after_delete : Option Text × K → Done K
  after_delete (some e, k) = record { error = some (not_deleted e); kernel = k }
  after_delete (none, k) = record { error = none; kernel = k }

  unfoldable pub delete_over : K → Result NftError Bool → Done K
  delete_over k (err e) = record { error = some e; kernel = k }
  delete_over k (ok present) =
      if not present then record { error = none; kernel = k } else after_delete (nft.delete_table k)

  -- `ApplyDown`
  unfoldable pub apply_down : K → Done K
  apply_down k = delete_over k (table_present k)

-- Why `reptile firewall` ends with an error.
pub data FirewallError : Type 0 where
  endpoints : EndpointError → FirewallError
  nft_failed : NftError → FirewallError
  usage : FirewallError

pub record Ran (K : Type 0) : Type 0 where
  pub result : Result FirewallError (Unit {0})
  pub kernel : K

module _ {K : Type 0} (lib : Library) (nft : Nft K) where
  abbrev pub ran : Done K → Ran K
  ran d = record {
    result = elim d.error [ none ↦ ok tt | some e ↦ err (nft_failed e) ];
    kernel = d.kernel;
  }

  unfoldable pub engage : Config → K → Result EndpointError (List Endpoint) → Ran K
  engage c k (err e) = record { result = err (endpoints e); kernel = k }
  engage c k (ok eps) = ran (apply_ruleset nft (build_ruleset lib c.interface eps c.extra_accept) k)

  -- `runFirewall`, of the file at `c.wg_conf`
  unfoldable pub run_firewall : Config → Result Text Lines → Text → K → Ran K
  run_firewall c file action k =
      if eq action (codes "up")
      then engage c k (parse_endpoints lib file)
      else if eq action (codes "down")
      then ran (apply_down nft k)
      else record { result = err usage; kernel = k }
