-- ===== src/Reload/Saved.antt =====
-- What `config set` saved, the next reload of the daemon brings into force: `SetConfigFileKeys` of
-- internal/app/config_ops.go, and the reloader of internal/app/main.go.
use reptile.Prelude.{◌≡◌, ◌≢◌, refl, subst, inl, inr, true, false, none, List, [], ◌∷◌, ◌++◌}
use reptile.Text.Defs.{Text, is_empty}
use reptile.Text.Space.{trim_space}
use reptile.Library.{Library, Url}
use reptile.Result.{ok, Result-cases}
use reptile.Config.{Config, defaults}
use reptile.Config.Keys.Rows.{diff_keys}
use reptile.Config.Times.{durations-AreParsed}
use reptile.Config.Validate.{validate}
use reptile.Config.Validate.Sound.{IsValid, validate-IsValid}
use reptile.Config.File.{
  Codec, Disk, end_of_file, normalise, check_trailing, load_file, load_config, set_config_file_keys,
}
use reptile.Config.File.Atomic.{IsSaved, set_config_file_keys_atomic}
use reptile.Egress as Egress
use reptile.Config.Validate.Checks.{to_upper-IsCountry}
use reptile.Reload.{
  Daemon, effective, load_valid, apply_tunnel, apply_egress, apply_loaded, reload, classify_reload,
}
use reptile.Reload.Atomic.{IsReloaded, apply_tunnel-ok, load_valid-valid, reload_takes_force}

module _ (lib : Library) where
  -- `net.ParseIP` takes no address with spaces around it.
  abbrev pub RefusesSpaces : Type 0
  RefusesSpaces = (s : Text) → lib.parse_ip s ≢ none → trim_space s ≡ s

  address_trimmed :
      RefusesSpaces → (c : Config) → IsValid lib c → trim_space c.expected_ip ≡ c.expected_ip
  unfolding trim_space
  address_trimmed refuses c v = by_address c.expected_ip refl
    where
      by_address : (s : Text) → c.expected_ip ≡ s → trim_space c.expected_ip ≡ c.expected_ip
      by_address [] e = rw e refl
      by_address (b ∷ s) e = refuses c.expected_ip (v.address (λ empty. cc (e, empty)))

  normal :
      RefusesSpaces → (c : Config) → IsValid lib c → c.verify_egress ≡ true → normalise lib c ≡ c
  unfolding normalise
  normal refuses c v on i = record c {
    expected_country = to_upper-IsCountry lib c.expected_country (v.country on) i;
    expected_ip = address_trimmed refuses c v i;
  }

  -- The egress checker takes the settings that a reload makes of a valid configuration.
  apply-ok :
      (old c : Config) (e : Egress.Checker) {u : Url}
      → IsValid lib c
      → lib.parse_url c.probe_url ≡ ok u
      → (f : Egress.Checker) × (Egress.apply lib (effective old c) e ≡ ok f)
  unfolding Egress.apply
  apply-ok old c e v url =
      let times = durations-AreParsed lib c v.times_parse in
      elim (Result-cases (Egress.apply lib (effective old c) e)) [
        | inl (why, bad) ↦ absurd (
            cc (
              rw
                (
                  v.country_pattern.compiled, v.ip_pattern.compiled, url, times.probe_timeout,
                  times.probe_interval, Egress.apply,
                )
                at bad))
        | inr (f, good) ↦ (f, good)
      ]

  module _ (codec : Codec) (path : Text) (disk : Disk) where
    -- A file that holds the encoding of a valid configuration that checks the exit is loaded.
    IsSaved-load_valid :
        (c : Config)
        → RefusesSpaces
        → is_empty path ≡ false
        → c.verify_egress ≡ true
        → (s : IsSaved lib codec c disk)
        → codec.decode (s.text ++ b'\n' ∷ []) defaults
          ≡ ok (record { config = c; trailing = end_of_file })
        → load_valid lib codec path disk ≡ ok c
    unfolding load_valid load_config load_file check_trailing
    IsSaved-load_valid c refuses named on s decoded =
        let same = normal refuses c (validate-IsValid lib c s.valid) on in
        rw (named, s.written, decoded, same, s.valid) refl

    -- A reload of a valid configuration whose URL parses succeeds.
    load_valid-reload :
        (c : Config) (d : Daemon) {u : Url}
        → IsValid lib c
        → validate lib c ≡ ok tt
        → lib.parse_url c.probe_url ≡ ok u
        → load_valid lib codec path disk ≡ ok c
        → (reload lib codec path disk d).result ≡ ok (classify_reload (diff_keys d.live c))
    unfolding reload apply_loaded apply_egress apply_tunnel
    load_valid-reload c d v valid url loaded =
        let c' = effective d.live c in
        let (e, taken) = apply-ok d.live c d.egress v url in
        let (t, checked, _) = apply_tunnel-ok lib c c' d.tunnel refl valid in
        rw (loaded, taken, checked, apply_tunnel) refl

  -- If `config set` saved a configuration that checks the exit, the decoder reads what the encoder
  -- wrote, `net.ParseIP` takes no address with spaces around it and `url.Parse` takes the URL, then
  -- the next reload of the daemon succeeds: each setting of that configuration is live and both
  -- checkers work by them, but for the interface, the socket and the log file, which stay as they
  -- were; and the changed keys are reported, those of these three as wanting a restart, those of
  -- the interface, the WireGuard file and the extra rules as wanting new rules of the firewall, and
  -- the others as applied.
  pub set_config_file_keys-reload :
      (codec : Codec) (path : Text) (disk : Disk) (pairs : List Text) (d : Daemon) {c : Config}
      {u : Url}
      → (set_config_file_keys lib codec path disk pairs).result ≡ ok c
      → is_empty path ≡ false
      → c.verify_egress ≡ true
      → ((t : Text)
          → codec.encode c ≡ ok t
          → codec.decode (t ++ b'\n' ∷ []) defaults
            ≡ ok (record { config = c; trailing = end_of_file }))
      → RefusesSpaces
      → lib.parse_url c.probe_url ≡ ok u
      → let r = reload lib codec path (set_config_file_keys lib codec path disk pairs).disk d in
        (r.result ≡ ok (classify_reload (diff_keys d.live c)))
        × IsReloaded lib d.live c (classify_reload (diff_keys d.live c)) r.daemon
  set_config_file_keys-reload codec path disk pairs d {c} set named on decodes refuses url =
      let after = (set_config_file_keys lib codec path disk pairs).disk in
      let s = (set_config_file_keys_atomic lib codec path disk pairs).0 c set in
      let loaded =
        IsSaved-load_valid codec path after c refuses named on s (decodes s.text s.encoded) in
      let done =
        load_valid-reload codec path after c d (validate-IsValid lib c s.valid) s.valid url
          loaded in
      let (new, found, _, force) = reload_takes_force lib codec path after d done in
      let same : new ≡ c = cc (found, (load_valid-valid lib codec path after loaded).0) in
      (
        done,
        subst
            (λ x.
              IsReloaded lib d.live x (classify_reload (diff_keys d.live c))
                (reload lib codec path after d).daemon)
            same force,
      )
