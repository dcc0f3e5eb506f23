-- ===== src/Daemon/Constant.antt =====
-- What stays as it was at the start of the daemon, whatever is reloaded.
use reptile.Prelude.{ℕ, ◌≤◌, ◌≡◌, refl, sym, ap, ◌∙◌, subst, inl, inr, false, List, length, arith}
use reptile.Text.Defs.{Text, is_empty}
use reptile.Library.{Library}
use reptile.Result.{ok, Result-cases}
use reptile.Config.{Config}
use reptile.Config.Validate.{validate}
use reptile.Config.Validate.Sound.{validate-IsValid}
use reptile.Config.File.{Codec, Disk}
use reptile.Watchdog.Runs.{Poll}
use reptile.Watchdog.Loop.{Loop, running, start}
use reptile.Watchdog.Loop.Refines.{Reaches}
use reptile.Watchdog.Loop.Keeps.{Holds, start-Keeps, Reaches-Keeps}
use reptile.Egress.Probe.{client_of}
use reptile.Egress.Dialer.{dialer_of, IsConfined}
use reptile.Egress.Binding.{IsBound, evaluate-IsBound, invalidate-IsBound, client_of-IsConfined}
use reptile.Reload.{Store, reload, probe_now, apply_loaded, apply_egress, apply_tunnel}
use reptile.Reload as Reload
use reptile.Reload.Atomic.{reload_fails_atomically, reload_takes_force}
use reptile.Agent.{Wire}
use reptile.Cli.{checkers_of}
use reptile.Daemon.{World, Env, callbacks}
use reptile.Daemon.Serving.{Request, with_requests}
use reptile.Daemon.Survives.{Survives, callbacks-Keeps}
use reptile.Daemon.Lifetime.{Started, started, start_daemon, start_daemon-ok, Reaches-IsSteady}

some_bytes : (t : Text) → 1 ≤ length t → is_empty t ≡ false
some_bytes t h = ground (arith, h)

-- The settings that are wired at start-up, and a client of the egress checker's own settings.
record IsFixed (c : Config) (d : Reload.Daemon) : Type 0 where
  interface : d.live.interface ≡ c.interface
  socket_path : d.live.socket_path ≡ c.socket_path
  log_file : d.live.log_file ≡ c.log_file
  client : IsBound d.egress

module _ (lib : Library) (c : Config) where
  reload-IsFixed :
      (codec : Codec) (path : Text) (disk : Disk) (d : Reload.Daemon)
      → IsFixed c d
      → IsFixed c (reload lib codec path disk d).daemon
  reload-IsFixed codec path disk d f = elim (Result-cases (reload lib codec path disk d).result) [
    | inl (e, bad) ↦ subst (IsFixed c) (sym (reload_fails_atomically lib codec path disk d bad)) f
    | inr (r, good) ↦
        let (new, _, _, done) = reload_takes_force lib codec path disk d good in
        record {
          interface = ap (λ (x : Config). x.interface) done.live ∙ f.interface;
          socket_path = ap (λ (x : Config). x.socket_path) done.live ∙ f.socket_path;
          log_file = ap (λ (x : Config). x.log_file) done.live ∙ f.log_file;
          client = λ k made. absurd (cc (made, done.in_force.egress.no_client));
        }
  ]

  IsFixed-Survives : Survives lib (IsFixed c)
  IsFixed-Survives = record {
    checks = record {
      by_evaluate = λ net fresh d f. record {
        interface = f.interface;
        socket_path = f.socket_path;
        log_file = f.log_file;
        client = evaluate-IsBound lib net fresh d.egress f.client;
      };
      by_invalidate = λ d f. record {
        interface = f.interface;
        socket_path = f.socket_path;
        log_file = f.log_file;
        client = invalidate-IsBound d.egress f.client;
      };
      by_store = λ x d f. record {
        interface = f.interface;
        socket_path = f.socket_path;
        log_file = f.log_file;
        client = f.client;
      };
    };
    by_reload = reload-IsFixed;
  }

module _ (lib : Library) (codec : Codec) (wire : Wire) (outer : Env) (rs : ℕ → List Request) where
  abbrev env : Env
  env = with_requests lib codec wire outer rs

  started-IsFixed :
      (c : Config) {s : Started}
      → validate lib c ≡ ok tt
      → start_daemon lib c ≡ ok s
      → IsFixed c s.world.shared
  started-IsFixed c {s} valid begun =
      let (d, country_re, ip_re, begun', _) = start_daemon-ok lib codec wire outer rs c valid in
      let first = started c d (checkers_of c d country_re ip_re) in
      let same : first ≡ s = ground (arith, begun, begun') in
      let fixed : IsFixed c first.world.shared = record {
        interface = refl;
        socket_path = refl;
        log_file = refl;
        client = λ k made. absurd (cc (made));
      } in
      subst (λ (x : Started). IsFixed c x.world.shared) same fixed

  -- From the start with a valid configuration, after ticks and heartbeats in any order, with any
  -- requests of clients one at a time between two actions: the live interface, socket and log file
  -- are those of the start, whatever was reloaded; the tunnel checker asks that interface; and the
  -- dialer of the HTTP client of the next probe binds its sockets to it, those that resolve the
  -- name of the host too.
  pub Reaches-IsConfined :
      (c : Config) {s : Started} {l m : Loop World} {ps : List Poll}
      → validate lib c ≡ ok tt
      → start_daemon lib c ≡ ok s
      → start lib (callbacks lib env s.initial) s.world ≡ running l
      → Reaches lib (callbacks lib env s.initial) l ps m
      → (m.world.shared.live.interface ≡ c.interface)
        × (m.world.shared.live.socket_path ≡ c.socket_path)
        × (m.world.shared.live.log_file ≡ c.log_file)
        × (m.world.shared.tunnel.iface ≡ c.interface)
        × IsConfined c.interface (dialer_of (client_of m.world.shared.egress))
  Reaches-IsConfined c {s} {l} {m} valid begun runs r =
      let cb = callbacks lib env s.initial in
      let kept = callbacks-Keeps lib codec wire outer rs (IsFixed-Survives lib c) s.initial in
      let at_loop : IsFixed c l.world.shared =
        subst (Holds (λ (w : World). IsFixed c w.shared)) runs
          (start-Keeps lib cb kept s.world (started-IsFixed c valid begun)) in
      let f = Reaches-Keeps lib cb kept at_loop r in
      let (steady, _, _, _, _, _, _) =
        Reaches-IsSteady lib codec wire outer rs c valid begun runs r in
      (
        f.interface,
        f.socket_path,
        f.log_file,
        steady.tunnel_iface ∙ f.interface,
        client_of-IsConfined m.world.shared.egress c.interface f.client
            (steady.egress.iface ∙ f.interface)
            (some_bytes c.interface ((validate-IsValid lib c valid).interface_length.0)),
      )
