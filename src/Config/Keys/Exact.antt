-- ===== src/Config/Keys/Exact.antt =====
-- The rows of a configuration determine it.
use reptile.Prelude.{
  ◌++◌, ◌≡◌, refl, subst, ◌↔◌, inl, inr, Bool, true, false, List, [], ◌∷◌, All, arith, Bool-cases,
}
use reptile.Text.Defs.{Text, eq, eq_iff, eq_self}
use reptile.Text.Split.{join}
use reptile.Text.Lists.{IsPiece, join_inj}
use reptile.Text.Decimal.{itoa_inj}
use reptile.Config.{Config}
use reptile.Config.Keys.Rows.{Row, bool_text, config_rows, diff_rows, diff_keys}
use reptile.Config.Keys.Frame.{sorted_rows, config_rows-sorted}

-- No list of the configuration has an element that is empty or has a comma in it.
pub record IsPlain (c : Config) : Type 0 where
  pub zones_plain : All IsPiece c.dnsbl_zones
  pub targets_plain : All IsPiece c.targets
  pub accepts_plain : All IsPiece c.extra_accept

bool_text_inj : (a b : Bool) → bool_text a ≡ bool_text b → a ≡ b
unfolding bool_text
bool_text_inj true true h = refl
bool_text_inj false false h = refl
bool_text_inj true false h = cc h
bool_text_inj false true h = cc h

-- The values of two row lists agree.
abbrev Agree : List Row → List Row → Type 0
Agree (o ∷ os) (n ∷ ns) = (o.value ≡ n.value) × Agree os ns
Agree _ _ = Unit {0}

diff_rows-Agree : (os ns : List Row) → diff_rows os ns ≡ [] → Agree os ns
unfolding diff_rows
diff_rows-Agree [] [] h = tt
diff_rows-Agree [] (n ∷ ns) h = tt
diff_rows-Agree (o ∷ os) [] h = tt
diff_rows-Agree (o ∷ os) (n ∷ ns) h = elim (Bool-cases (eq o.value n.value)) [
  | inl same ↦ ((eq_iff o.value n.value).0 same, diff_rows-Agree os ns (rw (same, diff_rows) at h))
  | inr changed ↦ cc (rw (changed, diff_rows) at h)
]

diff_rows_self : (rs : List Row) → diff_rows rs rs ≡ []
unfolding diff_rows
diff_rows_self [] = refl
diff_rows_self (r ∷ rs) = ground (arith, eq_self r.value, diff_rows_self rs)

Agree-eq :
    (old new : Config)
    → IsPlain old
    → IsPlain new
    → Agree (sorted_rows old) (sorted_rows new)
    → old ≡ new
Agree-eq old new o n
      (
        country_pattern,
        (
          zones,
          (
            cycles,
            (
              country,
              (
                ip,
                (
                  accepts,
                  (
                    heartbeat,
                    (
                      interface,
                      (
                        ip_pattern,
                        (
                          grace,
                          (
                            log,
                            (
                              handshake,
                              (
                                ping,
                                (
                                  poll,
                                  (
                                    interval,
                                    (timeout, (url, (socket, (targets, (verify, (wg, _)))))),
                                  ),
                                ),
                              ),
                            ),
                          ),
                        ),
                      ),
                    ),
                  ),
                ),
              ),
            ),
          ),
        ),
      ) =
    let zones_eq = join_inj _ _ o.zones_plain n.zones_plain zones in
    let accepts_eq = join_inj _ _ o.accepts_plain n.accepts_plain accepts in
    let targets_eq = join_inj _ _ o.targets_plain n.targets_plain targets in
    let cycles_eq = itoa_inj _ _ cycles in
    let verify_eq = bool_text_inj _ _ verify in
    λ i. record {
      interface = interface i;
      poll_interval = poll i;
      max_handshake_age = handshake i;
      down_cycles_to_kill = cycles_eq i;
      kill_grace = grace i;
      heartbeat_interval = heartbeat i;
      ping_target = ping i;
      verify_egress = verify_eq i;
      expected_country = country i;
      expected_ip = ip i;
      probe_url = url i;
      country_pattern = country_pattern i;
      ip_pattern = ip_pattern i;
      probe_interval = interval i;
      probe_timeout = timeout i;
      dnsbl_zones = zones_eq i;
      targets = targets_eq i;
      wg_conf = wg i;
      extra_accept = accepts_eq i;
      socket_path = socket i;
      log_file = log i;
    }

-- If no list of two configurations has an element that is empty or has a comma in it, no key is
-- reported as changed exactly if the configurations are equal.
pub diff_keys_exact :
    (old new : Config) → IsPlain old → IsPlain new → diff_keys old new ≡ [] ↔ old ≡ new
unfolding diff_keys
diff_keys_exact old new o n = (
  λ h. Agree-eq old new o n (
      diff_rows-Agree (sorted_rows old) (sorted_rows new)
        (rw (config_rows-sorted, config_rows-sorted) at h)),
  λ e. subst (λ d. diff_keys old d ≡ []) e (diff_rows_self (config_rows old)),
)

-- The rows of a list do not tell a comma in an element from a comma between two.
pub diff_keys-split :
    (c : Config) (a b : Text)
    → diff_keys
        (record c { extra_accept = (a ++ b',' ∷ b) ∷ [] })
        (record c { extra_accept = a ∷ b ∷ [] })
      ≡ []
unfolding diff_keys config_rows join
diff_keys-split c a b = diff_rows_self (config_rows (record c { extra_accept = a ∷ b ∷ [] }))
