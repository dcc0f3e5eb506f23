-- ===== src/Reload/Atomic.antt =====
-- A reload applies a valid configuration to both checkers, or changes nothing.
use reptile.Prelude.{◌≡◌, refl, ap, ◌∙◌, subst, false, inl, inr, none, arith}
use reptile.Text.Defs.{Text}
use reptile.Text.Space.{trim_space}
use reptile.Library.{Library, to_upper}
use reptile.Result.{ok, err, wrap, bind-eq-ok, wrap-eq-ok, Result-cases}
use reptile.Config.{Config}
use reptile.Config.Times.{durations-AreParsed}
use reptile.Config.Validate.{validate}
use reptile.Config.Validate.Sound.{validate-durations}
use reptile.Config.File.{Codec, Disk, load_config}
use reptile.Config.Keys.Rows.{diff_keys}
use reptile.Tunnel as Tunnel
use reptile.Egress as Egress
use reptile.Reload.{
  Daemon, ReloadError, ReloadResult, Reloaded, effective, load_valid, apply_tunnel, apply_egress,
  apply_loaded, reload, not_loaded, not_valid, not_applied, classify_reload,
}
use reptile.Reload.Reported.{IsTaken, effective-IsTaken, IsReported, classify_reload-IsReported}

-- The tunnel checker has taken the settings.
pub record IsTunnelOf (lib : Library) (c : Config) (u : Tunnel.Checker) : Type 0 where
  pub max_age : lib.parse_duration c.max_handshake_age ≡ ok u.max_age
  pub ping_target : u.ping_target ≡ c.ping_target

-- The age of a valid configuration parses, so the tunnel checker takes it.
pub apply_tunnel-ok :
    (lib : Library) (new c : Config) (t : Tunnel.Checker)
    → c.max_handshake_age ≡ new.max_handshake_age
    → validate lib new ≡ ok tt
    → (u : Tunnel.Checker) × (Tunnel.apply lib c t ≡ ok u) × IsTunnelOf lib c u
unfolding Tunnel.apply
apply_tunnel-ok lib new c t same v =
    let (d, parsed, _) = validate-durations lib new v in
    let age = (durations-AreParsed lib new parsed).max_handshake_age in
    let here : lib.parse_duration c.max_handshake_age ≡ ok d.max_handshake_age =
      ap lib.parse_duration same ∙ age in
    (
      record t { max_age = d.max_handshake_age; ping_target = c.ping_target },
      rw here refl,
      record { max_age = here; ping_target = refl },
    )

-- The egress checker has taken the settings, and holds no verdict of other ones.
pub record IsEgressOf (lib : Library) (c : Config) (e : Egress.Checker) : Type 0 where
  pub iface : e.iface ≡ c.interface
  pub url : e.url ≡ c.probe_url
  pub country_re : lib.compile c.country_pattern ≡ ok e.country_re
  pub ip_re : lib.compile c.ip_pattern ≡ ok e.ip_re
  pub timeout : lib.parse_duration c.probe_timeout ≡ ok e.timeout
  pub ttl : lib.parse_duration c.probe_interval ≡ ok e.ttl
  pub country : e.expected_country ≡ to_upper lib (trim_space c.expected_country)
  pub address : e.expected_ip ≡ c.expected_ip
  pub zones : e.zones ≡ c.dnsbl_zones
  pub unset : e.set ≡ false
  pub no_client : e.client ≡ none

pub apply-IsEgressOf :
    (lib : Library) (c : Config) (e : Egress.Checker) {f : Egress.Checker}
    → Egress.apply lib c e ≡ ok f
    → IsEgressOf lib c f
unfolding Egress.apply Egress.invalidate
apply-IsEgressOf lib c e h = ground arith

pub load_valid-valid :
    (lib : Library) (codec : Codec) (path : Text) (disk : Disk) {new : Config}
    → load_valid lib codec path disk ≡ ok new
    → (load_config lib codec path disk ≡ ok new) × (validate lib new ≡ ok tt)
unfolding load_valid
load_valid-valid lib codec path disk {new} h =
    let (c, loaded, h1) = bind-eq-ok (wrap not_loaded (load_config lib codec path disk)) _ h in
    let (u, valid, h2) = bind-eq-ok (wrap not_valid (validate lib c)) _ h1 in
    let same : c ≡ new = ground (arith, h2) in
    subst (λ (x : Config). (load_config lib codec path disk ≡ ok x) × (validate lib x ≡ ok tt)) same
      (
        wrap-eq-ok not_loaded (load_config lib codec path disk) loaded,
        wrap-eq-ok not_valid (validate lib c) valid,
      )

-- Both checkers work by the live settings.
pub record IsInForce (lib : Library) (d : Daemon) : Type 0 where
  pub egress : IsEgressOf lib d.live d.egress
  pub tunnel_age : lib.parse_duration d.live.max_handshake_age ≡ ok d.tunnel.max_age
  pub tunnel_ping : d.tunnel.ping_target ≡ d.live.ping_target

-- A configuration `new` came into force in `d`, from `old`.
pub record IsReloaded (lib : Library) (old : Config) (new : Config) (r : ReloadResult) (d : Daemon)
    : Type 0 where
  pub live : d.live ≡ effective old new
  pub taken : IsTaken old new d.live
  pub reported : r ≡ classify_reload (diff_keys old new)
  pub classes : IsReported (diff_keys old new) r
  pub in_force : IsInForce lib d

-- What a reload of a valid configuration does.
data Effect (lib : Library) (d : Daemon) (new : Config) (o : Reloaded) : Type 0 where
  kept : (e : ReloadError) → o.result ≡ err e → o.daemon ≡ d → Effect lib d new o
  changed :
      (r : ReloadResult)
      → o.result ≡ ok r
      → IsReloaded lib d.live new r o.daemon
      → Effect lib d new o

apply_loaded-cases :
    (lib : Library) (d : Daemon) (new : Config)
    → validate lib new ≡ ok tt
    → Effect lib d new (apply_loaded lib d (ok new))
unfolding apply_loaded apply_egress apply_tunnel
apply_loaded-cases lib d new v =
    let c = effective d.live new in
    let (u, taken, tunnel) = apply_tunnel-ok lib new c d.tunnel refl v in
    elim (Result-cases (Egress.apply lib c d.egress)) [
      | inl (e, bad) ↦ rw bad (kept (not_applied e) refl refl)
      | inr (f, good) ↦
          rw (good, taken, apply_tunnel)
            (changed _ refl (record {
              live = refl;
              taken = effective-IsTaken d.live new;
              reported = refl;
              classes = classify_reload-IsReported (diff_keys d.live new);
              in_force = record {
                egress = apply-IsEgressOf lib c d.egress good;
                tunnel_age = tunnel.max_age;
                tunnel_ping = tunnel.ping_target;
              };
            }))
    ]

-- A reload that fails leaves the live settings, both checkers and the store as they were.
pub reload_fails_atomically :
    (lib : Library) (codec : Codec) (path : Text) (disk : Disk) (d : Daemon) {e : ReloadError}
    → (reload lib codec path disk d).result ≡ err e
    → (reload lib codec path disk d).daemon ≡ d
unfolding reload apply_loaded
reload_fails_atomically lib codec path disk d h =
    elim (Result-cases (load_valid lib codec path disk)) [
      | inl (e, bad) ↦ rw (bad, apply_loaded)
      | inr (new, good) ↦
          elim (apply_loaded-cases lib d new (load_valid-valid lib codec path disk good).1) [
            | kept e _ same ↦ rw good same
            | changed r is_ok _ ↦ absurd (ground (arith, h, good, is_ok))
          ]
    ]

-- A reload that succeeds has loaded a valid configuration. It is live, but for the settings that
-- are wired at start-up; both checkers work by the live settings and hold no verdict of the old
-- ones; and the changes are reported by what they need.
pub reload_takes_force :
    (lib : Library) (codec : Codec) (path : Text) (disk : Disk) (d : Daemon) {r : ReloadResult}
    → (reload lib codec path disk d).result ≡ ok r
    → (new : Config) × (load_config lib codec path disk ≡ ok new)
      × (validate lib new ≡ ok tt)
      × IsReloaded lib d.live new r (reload lib codec path disk d).daemon
unfolding reload apply_loaded
reload_takes_force lib codec path disk d {r} h =
    elim (Result-cases (load_valid lib codec path disk)) [
      | inl (e, bad) ↦ absurd (ground (arith, h, bad))
      | inr (new, good) ↦
          let (loaded, valid) = load_valid-valid lib codec path disk good in
          elim (apply_loaded-cases lib d new valid) [
            | kept e is_err _ ↦ absurd (ground (arith, h, good, is_err))
            | changed q is_ok done ↦
                let same : q ≡ r = ground (arith, h, good, is_ok) in
                (
                  new,
                  loaded,
                  valid,
                  rw good (
                      subst (λ x. IsReloaded lib d.live new x (apply_loaded lib d (ok new)).daemon)
                        same done),
                )
          ]
    ]
