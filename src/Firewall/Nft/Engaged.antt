-- ===== src/Firewall/Nft/Engaged.antt =====
-- What holds once the firewall is said to be engaged.
use reptile.Prelude.{
  ◌≡◌, refl, subst, ◌⊎◌, ◌↔◌, ◌++◌, inl, inr, Bool, true, false, Option, none, some, List, arith,
  Option-cases,
}
use reptile.Text.Defs.{Text, codes, eq}
use reptile.Library.{Library}
use reptile.Result.{Result, ok, err, Result-cases}
use reptile.Config.{Config}
use reptile.Firewall.{Endpoint, EndpointError, Lines, parse_endpoints}
use reptile.Firewall.Endpoints.{IsLetThrough, parse_endpoints-IsLetThrough}
use reptile.Firewall.Nft.{
  build_ruleset, Nft, NftError, table_present, verify, transaction, after_load, load_over,
  apply_ruleset, engage, run_firewall,
}
use mathlib.Core.List.{Memᴰ}
use reptile.Firewall.Nft.Rules.{
  Rule, table_text, IsAllowed, allowed, allowed-IsAllowed, build_ruleset-eq-table_text,
}
use reptile.Firewall.Nft.Listed.{
  IsPresent, IsAbsent, table_present-IsPresent, table_present-IsAbsent,
}

module _ {K : Type 0} (nft : Nft K) where
  -- One load of `rs` ended without an error, after the command that deletes the table if it was
  -- listed before, and then the table is listed.
  pub record IsReplaced (rs : Text) (k k' : K) : Type 0 where
    pub loaded :
        (IsPresent nft k × (nft.load (codes "delete table inet reptile\n" ++ rs) k ≡ (none, k')))
        ⊎ (IsAbsent nft k × (nft.load rs k ≡ (none, k')))
    pub seen : IsPresent nft k'

  verify-seen : (r : Result NftError Bool) → verify nft r ≡ none → r ≡ ok true
  unfolding verify
  verify-seen (err e) h = absurd (ground (arith, h))
  verify-seen (ok true) h = refl
  verify-seen (ok false) h = absurd (ground (arith, h))

  after_load-none :
      (p : Option Text × K)
      → (after_load nft p).error ≡ none
      → (p ≡ (none, (after_load nft p).kernel))
        × (table_present nft (after_load nft p).kernel ≡ ok true)
  unfolding after_load
  after_load-none (some e, k) h = absurd (ground (arith, h))
  after_load-none (none, k) h = (refl, verify-seen (table_present nft k) h)

  pub apply_ruleset-IsReplaced :
      (rs : Text) (k : K)
      → (apply_ruleset nft rs k).error ≡ none
      → IsReplaced rs k (apply_ruleset nft rs k).kernel
  unfolding apply_ruleset load_over
  apply_ruleset-IsReplaced rs k h = elim (Result-cases (table_present nft k)) [
    | inl (e, bad) ↦ absurd (ground (arith, h, bad))
    | inr (true, there) ↦
        let d =
          after_load-none (nft.load (transaction nft true rs) k) (rw (there, load_over) at h) in
        rw (there, load_over)
          (record {
            loaded = inl (table_present-IsPresent nft k there, d.0);
            seen = table_present-IsPresent nft _ d.1;
          })
    | inr (false, gone) ↦
        let d =
          after_load-none (nft.load (transaction nft false rs) k) (rw (gone, load_over) at h) in
        rw (gone, load_over)
          (record {
            loaded = inr (table_present-IsAbsent nft k gone, d.0);
            seen = table_present-IsPresent nft _ d.1;
          })
  ]

module _ {K : Type 0} (lib : Library) (nft : Nft K) where
  engage_engaged :
      (c : Config) (k : K) (r : Result EndpointError (List Endpoint))
      → (engage lib nft c k r).result ≡ ok tt
      → (eps : List Endpoint) × (r ≡ ok eps)
        × IsReplaced nft
            (build_ruleset lib c.interface eps c.extra_accept)
            k
            (engage lib nft c k r).kernel
  unfolding engage
  engage_engaged c k (err e) h = absurd (ground (arith, h))
  engage_engaged c k (ok eps) h =
      let d = apply_ruleset nft (build_ruleset lib c.interface eps c.extra_accept) k in
      elim (Option-cases d.error) [
        | inl fine ↦ (
          eps,
          refl,
          apply_ruleset-IsReplaced nft (build_ruleset lib c.interface eps c.extra_accept) k fine,
        )
        | inr (e, bad) ↦ absurd (ground (arith, h, bad))
      ]

  -- If `reptile firewall up` succeeds, the configuration file names exactly the endpoints that the
  -- rules let through; one load succeeded, of a table that drops what no rule lets out and whose
  -- rules are exactly those for the loopback, the interface, these endpoints, DHCP, DHCPv6, router
  -- and neighbour solicitations and the extra entries; before it in the same load the old table was
  -- deleted, exactly if `nft list tables` had shown it; and afterwards the table was listed.
  pub run_firewall_engaged :
      (c : Config) (f : Lines) (k : K)
      → (run_firewall lib nft c (ok f) (codes "up") k).result ≡ ok tt
      → (eps : List Endpoint) × IsLetThrough lib f.lines eps
        × (rules : List Rule) × ((r : Rule)
            → Memᴰ r rules ↔ IsAllowed c.interface eps c.extra_accept r)
        × IsReplaced nft
            (table_text lib rules)
            k
            (run_firewall lib nft c (ok f) (codes "up") k).kernel
  unfolding run_firewall eq
  run_firewall_engaged c f k h =
      let (eps, parsed, replaced) = engage_engaged c k (parse_endpoints lib (ok f)) h in
      (
        eps,
        parse_endpoints-IsLetThrough lib f parsed,
        allowed c.interface eps c.extra_accept,
        allowed-IsAllowed c.interface eps c.extra_accept,
        subst (λ rs. IsReplaced nft rs k (engage lib nft c k (parse_endpoints lib (ok f))).kernel)
            (build_ruleset-eq-table_text lib c.interface eps c.extra_accept) replaced,
      )
