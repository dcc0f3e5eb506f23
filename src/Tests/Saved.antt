-- ===== src/Tests/Saved.antt =====
-- A setting that is saved and then reloaded by the daemon.
use reptile.Prelude.{◌≡◌, refl, subst, inl, inr, true, none, [], ◌∷◌, ◌++◌, Bool-cases}
use reptile.Text.Defs.{Text, codes, eq, eq_iff, elem, contains_any}
use reptile.Text.Space.{trim_space}
use reptile.Library.{to_upper}
use reptile.Result.{ok}
use reptile.Config.{Config, defaults, durations}
use reptile.Config.Validate.{
  validate, iface_re, has_control, check_target, check_targets, check_country, country_re,
  check_expected_ip, check_probe_url, check_pattern, check_zones, check_signs,
}
use reptile.Config.Keys.{
  apply_key, set_known, set_key, key_of, find_key, all_keys, key_text, duration_key,
}
use reptile.Config.Keys.Rows.{diff_keys}
use reptile.Config.File.{Codec, Disk, end_of_file, load_config, prepare, set_config_file_keys}
use reptile.Reload.{reload, classify_reload}
use reptile.Reload.Atomic.{IsReloaded}
use reptile.Reload.Saved.{RefusesSpaces, set_config_file_keys-reload}
use reptile.Tests.{demo}
use reptile.Tests.Machine.{shared}

-- A file that holds the grace period only; country and target are fixed.
abbrev graces : Codec
graces = record {
  decode = λ t c. ok (record {
    config = record c {
      expected_country = codes "DE";
      targets = codes "aria2c" ∷ [];
      kill_grace = trim_space t;
    };
    trailing = end_of_file;
  });
  encode = λ c. ok c.kill_grace;
}

abbrev stored : Disk
stored = record { file = ok (codes "3s\n"); tmp = none; write_error = none; rename_error = none }

abbrev five : Config
five = record defaults {
  expected_country = codes "DE";
  targets = codes "aria2c" ∷ [];
  kill_grace = codes "5s";
}

five-saved :
    (set_config_file_keys demo graces
      (codes "reptile.json")
      stored
      (codes "kill_grace" ∷ codes "5s" ∷ [])).result
    ≡ ok five
unfolding set_config_file_keys prepare load_config apply_key set_known set_key key_of find_key
    all_keys key_text duration_key validate durations defaults iface_re check_targets check_target
    check_country check_expected_ip check_probe_url check_pattern check_zones check_signs
    has_control country_re trim_space eq elem contains_any to_upper
five-saved = refl

decodes :
    (t : Text)
    → graces.encode five ≡ ok t
    → graces.decode (t ++ b'\n' ∷ []) defaults
      ≡ ok (record { config = five; trailing = end_of_file })
unfolding defaults trim_space
decodes t e =
    let same : codes "5s" ≡ t = cc e in
    subst
      (λ (x : Text).
        graces.decode (x ++ b'\n' ∷ []) defaults
        ≡ ok (record { config = five; trailing = end_of_file }))
      same refl

refuses : RefusesSpaces demo
unfolding trim_space
refuses s takes = elim (Bool-cases (eq s (codes "1.2.3.4"))) [
  | inl first ↦ rw ((eq_iff s (codes "1.2.3.4")).0 first) refl
  | inr other ↦ elim (Bool-cases (eq s (codes "127.0.0.2"))) [
    | inl second ↦ rw ((eq_iff s (codes "127.0.0.2")).0 second) refl
    | inr none_of ↦ absurd (takes (rw (other, none_of) refl))
  ]
]

verified : five.verify_egress ≡ true
unfolding defaults
verified = refl

set_config_file_keys-reload_example :
    ((reload demo graces
        (codes "reptile.json")
        (set_config_file_keys demo graces
          (codes "reptile.json")
          stored
          (codes "kill_grace" ∷ codes "5s" ∷ [])).disk
        shared).result
      ≡ ok (classify_reload (diff_keys shared.live five)))
    × IsReloaded demo shared.live five
        (classify_reload (diff_keys shared.live five))
        (reload demo graces
          (codes "reptile.json")
          (set_config_file_keys demo graces
            (codes "reptile.json")
            stored
            (codes "kill_grace" ∷ codes "5s" ∷ [])).disk
          shared).daemon
set_config_file_keys-reload_example =
    set_config_file_keys-reload demo graces (codes "reptile.json") stored
      (codes "kill_grace" ∷ codes "5s" ∷ []) shared five-saved refl verified decodes refuses refl
