-- ===== src/Daemon/Lifetime.antt =====
-- The daemon from the start of `runDaemon` of internal/app/main.go on: ticks and heartbeats in any
-- order, with requests of clients between any two of its actions.
use reptile.Prelude.{ℕ, ◌≡◌, refl, subst, true, false, List, [], ℤ, pos, leb_ℤ, ltb_ℤ, arith}
use reptile.Library.{Library, Regexp}
use reptile.Result.{Result, ok, wrap, ◌>>=◌}
use reptile.Config.{Config, Durations, durations}
use reptile.Config.Times.{durations-AreParsed}
use reptile.Config.Validate.{validate}
use reptile.Config.Validate.Sound.{validate-IsValid}
use reptile.Config.File.{Codec}
use reptile.Watchdog.{fresh}
use reptile.Watchdog.Runs.{Poll}
use reptile.Watchdog.Loop.{Loop, running, on_tick, beat_ticker, start}
use reptile.Watchdog.Loop.Refines.{Reaches}
use reptile.Watchdog.Loop.Tickers.{start-IsTuned, start-running, Reaches-IsTuned, on_tick_follows}
use reptile.Watchdog.Loop.Keeps.{Holds, start-Keeps, Reaches-Keeps}
use reptile.Reload.{new_store}
use reptile.Reload.Steady.{IsSteady, reload-IsSteady, IsSteady-Checks}
use reptile.Agent.{Wire}
use reptile.Cli.{BuildError, config, Checkers, checkers_of, build_checkers}
use reptile.Cli.Verdict.{build_checkers-ok}
use reptile.Daemon.{World, Env, callbacks}
use reptile.Daemon.Serving.{Request, with_requests}
use reptile.Daemon.Survives.{Survives, callbacks-Keeps}

-- What `runDaemon` has when it calls `runWatchdog`.
pub record Started : Type 0 where
  pub initial : Durations
  pub world : World

abbrev pub started : Config → Durations → Checkers → Started
started c d k = record {
  initial = d;
  world = record {
    step = 0;
    shared = record { live = c; tunnel = k.tunnel; egress = k.egress; store = new_store };
    calls = [];
    lines = [];
  };
}

-- Up to the agent's server, without the log file.
unfoldable pub start_daemon : Library → Config → Result BuildError Started
start_daemon lib c = do
  d ← wrap config (durations lib c)
  k ← build_checkers lib c
  ok (started c d k)

module _ (lib : Library) (codec : Codec) (wire : Wire) (outer : Env) (rs : ℕ → List Request) where
  abbrev env : Env
  env = with_requests lib codec wire outer rs

  IsSteady-Survives : Survives lib (IsSteady lib)
  IsSteady-Survives = record { checks = IsSteady-Checks lib; by_reload = reload-IsSteady lib }

  pub start_daemon-ok :
      (c : Config)
      → validate lib c ≡ ok tt
      → (d : Durations) × (country_re : Regexp) × (ip_re : Regexp) × (start_daemon lib c
          ≡ ok (started c d (checkers_of c d country_re ip_re)))
        × IsSteady lib (started c d (checkers_of c d country_re ip_re)).world.shared
  unfolding start_daemon
  start_daemon-ok c valid =
      let v = validate-IsValid lib c valid in
      let times = durations-AreParsed lib c v.times_parse in
      let built =
        build_checkers-ok lib c v.times_parse v.country_pattern.compiled v.ip_pattern.compiled in
      (
        v.times,
        v.country_pattern.re,
        v.ip_pattern.re,
        rw (v.times_parse, built) refl,
        record {
          valid = v;
          tunnel_iface = refl;
          tunnel = record { max_age = times.max_handshake_age; ping_target = refl };
          egress = record {
            iface = refl;
            url = refl;
            country_re = v.country_pattern.compiled;
            ip_re = v.ip_pattern.compiled;
            timeout = times.probe_timeout;
            ttl = times.probe_interval;
            country = λ _. refl;
            address = refl;
            zones = refl;
          };
        },
      )

  positive : (z : ℤ) → ltb_ℤ (pos 0) z ≡ true → leb_ℤ z (pos 0) ≡ false
  positive z h = ground (arith, h)

  -- The daemon of a valid configuration starts: its checkers are built, and the watchdog's loop
  -- begins at the fresh state.
  pub valid_daemon_starts :
      (c : Config)
      → validate lib c ≡ ok tt
      → (s : Started) × (l : Loop World) × (start_daemon lib c ≡ ok s)
        × (start lib (callbacks lib env s.initial) s.world ≡ running l)
        × (l.state ≡ fresh)
  valid_daemon_starts c valid =
      let (d, country_re, ip_re, begun, steady) = start_daemon-ok c valid in
      let s = started c d (checkers_of c d country_re ip_re) in
      let v = steady.valid in
      let (l, runs, at_fresh) =
        start-running lib (callbacks lib env s.initial) s.world v.times_parse
          (positive v.times.poll (v.positive.0)) in
      (s, l, begun, runs, at_fresh)

  -- From the start with a valid configuration, after ticks and heartbeats in any order, with any
  -- requests of clients one at a time between two actions: the live settings are valid, both
  -- checkers work by them, and the next tick neither stops nor panics but leaves the tickers at the
  -- live durations.
  pub Reaches-IsSteady :
      (c : Config) {s : Started} {l m : Loop World} {ps : List Poll}
      → validate lib c ≡ ok tt
      → start_daemon lib c ≡ ok s
      → start lib (callbacks lib env s.initial) s.world ≡ running l
      → Reaches lib (callbacks lib env s.initial) l ps m
      → IsSteady lib m.world.shared
        × (d : Durations) × (n : Loop World) × (durations lib m.world.shared.live ≡ ok d)
        × (on_tick lib (callbacks lib env s.initial) m ≡ running n)
        × (n.ticker ≡ d.poll)
        × (n.heartbeat ≡ beat_ticker d.heartbeat)
  Reaches-IsSteady c {s} {l} {m} valid begun runs r =
      let cb = callbacks lib env s.initial in
      let (d, country_re, ip_re, begun', steady) = start_daemon-ok c valid in
      let same : started c d (checkers_of c d country_re ip_re) ≡ s =
        ground (arith, begun, begun') in
      let at_start : IsSteady lib s.world.shared =
        subst (λ (x : Started). IsSteady lib x.world.shared) same steady in
      let kept = callbacks-Keeps lib codec wire outer rs IsSteady-Survives s.initial in
      let at_loop : IsSteady lib l.world.shared =
        subst (Holds (λ (w : World). IsSteady lib w.shared)) runs
          (start-Keeps lib cb kept s.world at_start) in
      let here = Reaches-Keeps lib cb kept at_loop r in
      let tuned = Reaches-IsTuned lib cb (start-IsTuned lib cb s.world runs) r in
      let v = here.valid in
      let (n, ticks, polls, beats) =
        on_tick_follows lib cb m tuned v.times_parse (positive v.times.poll (v.positive.0)) in
      (here, v.times, n, v.times_parse, ticks, polls, beats)
