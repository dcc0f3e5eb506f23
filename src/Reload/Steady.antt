-- ===== src/Reload/Steady.antt =====
-- The live settings stay valid, and both checkers work by them.
use reptile.Prelude.{◌≡◌, sym, ap, ◌∙◌, subst, inl, inr, true, arith}
use reptile.Text.Defs.{Text}
use reptile.Library.{Library}
use reptile.Result.{ok, Result-cases}
use reptile.Config.{Config, durations}
use reptile.Config.Validate.Sound.{IsValid, validate-IsValid}
use reptile.Config.File.{Codec, Disk}
use reptile.Tunnel as Tunnel
use reptile.Egress as Egress
use reptile.Egress.Probe.{evaluate}
use reptile.Config.Validate.Checks.{to_upper-IsCountry}
use reptile.Egress.Wiring.{wiring, evaluate-wiring, invalidate-wiring}
use reptile.Reload.{Store, Daemon, effective, apply_tunnel, apply_egress, apply_loaded, reload}
use reptile.Reload.Probing.{Checks}
use reptile.Reload.Atomic.{IsTunnelOf, IsEgressOf, reload_fails_atomically, reload_takes_force}

-- The egress checker works by the settings.
pub record IsWired (lib : Library) (c : Config) (e : Egress.Checker) : Type 0 where
  pub iface : e.iface ≡ c.interface
  pub url : e.url ≡ c.probe_url
  pub country_re : lib.compile c.country_pattern ≡ ok e.country_re
  pub ip_re : lib.compile c.ip_pattern ≡ ok e.ip_re
  pub timeout : lib.parse_duration c.probe_timeout ≡ ok e.timeout
  pub ttl : lib.parse_duration c.probe_interval ≡ ok e.ttl
  pub country : c.verify_egress ≡ true → e.expected_country ≡ c.expected_country
  pub address : e.expected_ip ≡ c.expected_ip
  pub zones : e.zones ≡ c.dnsbl_zones

-- The live settings are valid, and both checkers work by them.
pub record IsSteady (lib : Library) (d : Daemon) : Type 0 where
  pub valid : IsValid lib d.live
  pub tunnel_iface : d.tunnel.iface ≡ d.live.interface
  pub tunnel : IsTunnelOf lib d.live d.tunnel
  pub egress : IsWired lib d.live d.egress

module _ (lib : Library) where
  IsWired-wiring :
      (c : Config) (e : Egress.Checker) {f : Egress.Checker}
      → wiring f ≡ wiring e
      → IsWired lib c e
      → IsWired lib c f
  IsWired-wiring c e {f} same w =
      let at_f : IsWired lib c (wiring f) = subst (IsWired lib c) (sym same) (record {
        iface = w.iface;
        url = w.url;
        country_re = w.country_re;
        ip_re = w.ip_re;
        timeout = w.timeout;
        ttl = w.ttl;
        country = w.country;
        address = w.address;
        zones = w.zones;
      }) in
      record {
        iface = at_f.iface;
        url = at_f.url;
        country_re = at_f.country_re;
        ip_re = at_f.ip_re;
        timeout = at_f.timeout;
        ttl = at_f.ttl;
        country = at_f.country;
        address = at_f.address;
        zones = at_f.zones;
      }

  IsEgressOf-IsWired :
      (c : Config) (e : Egress.Checker) → IsValid lib c → IsEgressOf lib c e → IsWired lib c e
  IsEgressOf-IsWired c e v h = record {
    iface = h.iface;
    url = h.url;
    country_re = h.country_re;
    ip_re = h.ip_re;
    timeout = h.timeout;
    ttl = h.ttl;
    country = λ on. h.country ∙ to_upper-IsCountry lib c.expected_country (v.country on);
    address = h.address;
    zones = h.zones;
  }

  effective-IsValid :
      (old new : Config) → IsValid lib old → IsValid lib new → IsValid lib (effective old new)
  unfolding durations
  effective-IsValid old new v w = record {
    interface_length = v.interface_length;
    some_target = w.some_target;
    all_targets = w.all_targets;
    distinct = w.distinct;
    country = w.country;
    address = w.address;
    url = w.url;
    country_pattern = w.country_pattern;
    ip_pattern = w.ip_pattern;
    zones = w.zones;
    polls = w.polls;
    polls_positive = w.polls_positive;
    times = w.times;
    times_parse = w.times_parse;
    positive = w.positive;
    not_negative = w.not_negative;
  }

  -- The daemon with another state of its egress checker.
  pub egress-IsSteady :
      (d : Daemon) (e : Egress.Checker)
      → wiring e ≡ wiring d.egress
      → IsSteady lib d
      → IsSteady lib (record d { egress = e })
  egress-IsSteady d e same s = record {
    valid = s.valid;
    tunnel_iface = s.tunnel_iface;
    tunnel = record { max_age = s.tunnel.max_age; ping_target = s.tunnel.ping_target };
    egress = IsWired-wiring d.live d.egress same s.egress;
  }

  pub store-IsSteady :
      (d : Daemon) (x : Store) → IsSteady lib d → IsSteady lib (record d { store = x })
  store-IsSteady d x s = record {
    valid = s.valid;
    tunnel_iface = s.tunnel_iface;
    tunnel = record { max_age = s.tunnel.max_age; ping_target = s.tunnel.ping_target };
    egress = record {
      iface = s.egress.iface;
      url = s.egress.url;
      country_re = s.egress.country_re;
      ip_re = s.egress.ip_re;
      timeout = s.egress.timeout;
      ttl = s.egress.ttl;
      country = s.egress.country;
      address = s.egress.address;
      zones = s.egress.zones;
    };
  }

  reload_iface :
      (codec : Codec) (path : Text) (disk : Disk) (d : Daemon)
      → (reload lib codec path disk d).daemon.tunnel.iface ≡ d.tunnel.iface
  unfolding reload apply_loaded apply_egress apply_tunnel Tunnel.apply
  reload_iface codec path disk d = ground arith

  pub reload-IsSteady :
      (codec : Codec) (path : Text) (disk : Disk) (d : Daemon)
      → IsSteady lib d
      → IsSteady lib (reload lib codec path disk d).daemon
  reload-IsSteady codec path disk d s = elim (Result-cases (reload lib codec path disk d).result) [
    | inl (e, bad) ↦
        subst (IsSteady lib) (sym (reload_fails_atomically lib codec path disk d bad)) s
    | inr (r, good) ↦
        let (new, _, valid, done) = reload_takes_force lib codec path disk d good in
        let v = effective-IsValid d.live new s.valid (validate-IsValid lib new valid) in
        let here = subst (IsValid lib) (sym done.live) v in
        record {
          valid = here;
          tunnel_iface =
              reload_iface codec path disk d
              ∙ s.tunnel_iface
              ∙ ap (λ (c : Config). c.interface) (sym done.live);
          tunnel = record {
            max_age = done.in_force.tunnel_age;
            ping_target = done.in_force.tunnel_ping;
          };
          egress = IsEgressOf-IsWired _ _ here done.in_force.egress;
        }
  ]

  pub IsSteady-Checks : Checks lib (IsSteady lib)
  IsSteady-Checks = record {
    by_evaluate = λ net fresh d s.
        egress-IsSteady d (evaluate lib net fresh d.egress).checker
          (evaluate-wiring lib net fresh d.egress) s;
    by_invalidate =
        λ d s. egress-IsSteady d (Egress.invalidate d.egress) (invalidate-wiring d.egress) s;
    by_store = λ x d s. store-IsSteady d x s;
  }
