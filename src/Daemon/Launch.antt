-- ===== src/Daemon/Launch.antt =====
-- `runDaemon` of internal/app/main.go up to its functions: the log file, the checkers and the
-- agent's socket. Each error ends the process by `fatal`.
use reptile.Prelude.{
  ◌≡◌, refl, ◌↔◌, ◌⊎◌, inl, inr, Bool, true, false, Option, none, some, List, [], ◌∷◌,
  if◌then◌else◌, Bool-cases, Option-cases, arith,
}
use reptile.Text.Defs.{Text, is_empty}
use reptile.Library.{Library}
use reptile.Result.{Result, ok, err, wrap, ◌>>=◌}
use reptile.Config.{Config, durations}
use reptile.Config.Validate.{validate}
use reptile.Config.Validate.Sound.{validate-IsValid}
use reptile.Cli.{BuildError, config, checkers_of, build_checkers}
use reptile.Cli.Verdict.{build_checkers-ok}
use reptile.Agent.Listening.{State, Socket, listen, IsSecured, listen-IsSecured}
use reptile.Daemon.Logging.{
  stderr, log_file, Sink, new_handler, stderr_is_tty, LogFile, LogError, log_dir, log_open,
  configure_logging, open_log_file,
}
use reptile.Daemon.Lifetime.{Started, started, start_daemon}

pub data LaunchError : Type 0 where
  not_built : BuildError → LaunchError
  no_log : LogError → LaunchError
  no_socket : Text → LaunchError

-- What `runDaemon` has when it calls `runWatchdog`: the handlers of the logger, and the state of
-- the system after `Listen`, if there is a server.
pub record Launched (K : Type 0) : Type 0 where
  pub started : Started
  pub sinks : List Sink
  pub server : Option K

unfoldable pub log_ready : LogFile → Config → List Sink → Result LaunchError (List Sink)
log_ready f c sinks = if is_empty c.log_file then ok sinks else wrap no_log (open_log_file f sinks)

-- The handlers of the logger: standard error, with times exactly if `Stat` shows a terminal; and, if
-- a log file is configured, whose directory was made and which was opened, the file with times.
abbrev pub IsLogged : LogFile → Result Text Bool → Config → List Sink → Type 0
IsLogged f stat c sinks =
    (tty : Bool) × ((tty ≡ true) ↔ (stat ≡ ok true))
    × (((is_empty c.log_file ≡ true)
          × (sinks ≡ record { output = stderr; handler = new_handler tty } ∷ []))
        ⊎ ((is_empty c.log_file ≡ false)
            × (f.make_dir ≡ none)
            × (f.open_file ≡ none)
            × (sinks
                ≡ record { output = stderr; handler = new_handler tty }
                  ∷ record { output = log_file; handler = new_handler true }
                  ∷ [])))

-- The directory could not be made; or it was, and the file could not be opened.
abbrev pub IsLogFailure : LogFile → LogError → Type 0
IsLogFailure f why =
    ((e : Text) × (f.make_dir ≡ some e) × (why ≡ log_dir e))
    ⊎ ((e : Text) × (f.make_dir ≡ none) × (f.open_file ≡ some e) × (why ≡ log_open e))

tty_iff : (stat : Result Text Bool) → (stderr_is_tty stat ≡ true) ↔ (stat ≡ ok true)
unfolding stderr_is_tty
tty_iff (err e) = ground arith
tty_iff (ok b) = ground arith

-- `NewServer`
abbrev pub new_server : State
new_server = record { closed = false; listening = false }

module _ {K : Type 0} (socket : Socket K) where
  unfoldable pub socket_ready : Config → K → Result LaunchError (Option K)
  socket_ready c k =
      let l = listen socket new_server k in
      if is_empty c.socket_path
      then ok none
      else elim l.error [ some e ↦ err (no_socket e) | none ↦ ok (some l.kernel) ]

  unfoldable pub launch :
      Library → LogFile → Result Text Bool → Config → K → Result LaunchError (Launched K)
  launch lib f stat c k = do
    d ← wrap (λ e. not_built (config e)) (durations lib c)
    sinks ← log_ready f c (configure_logging stat)
    ks ← wrap not_built (build_checkers lib c)
    server ← socket_ready c k
    ok (record { started = started c d ks; sinks = sinks; server = server })

  -- No socket is configured; or one is, and from `k` on it was bound and then its mode was set.
  abbrev pub IsServed : Config → K → Option K → Type 0
  IsServed c k none = is_empty c.socket_path ≡ true
  IsServed c k (some k') = (is_empty c.socket_path ≡ false) × IsSecured socket k k'

  module _ (lib : Library) (f : LogFile) (stat : Result Text Bool) (c : Config) (k : K) where
    -- The process comes to the watchdog, with the state of `start_daemon`.
    pub record IsLaunched : Type 0 where
      pub launched : Launched K
      pub succeeds : launch lib f stat c k ≡ ok launched
      pub starts : start_daemon lib c ≡ ok launched.started
      pub logs : IsLogged f stat c launched.sinks
      pub serves : IsServed c k launched.server

    -- Or it ends, for the log file or for the socket.
    pub record IsUnlogged : Type 0 where
      pub why : LogError
      pub fails : launch lib f stat c k ≡ err (no_log why)
      pub configured : is_empty c.log_file ≡ false
      pub cause : IsLogFailure f why

    pub record IsUnserved : Type 0 where
      pub why : Text
      pub fails : launch lib f stat c k ≡ err (no_socket why)
      pub configured : is_empty c.socket_path ≡ false
      pub cause : (listen socket new_server k).error ≡ some why

    socket_cases :
        ((e : Text) × (socket_ready c k ≡ err (no_socket e))
          × (is_empty c.socket_path ≡ false)
          × ((listen socket new_server k).error ≡ some e))
        ⊎ ((s : Option K) × (socket_ready c k ≡ ok s) × IsServed c k s)
    unfolding socket_ready
    socket_cases = elim (Bool-cases (is_empty c.socket_path)) [
      | inl unset ↦ inr (none, rw unset refl, unset)
      | inr set ↦ elim (Option-cases (listen socket new_server k).error) [
        | inl fine ↦ inr (
          some (listen socket new_server k).kernel,
          rw (set, fine) refl,
          (set, listen-IsSecured socket new_server k fine),
        )
        | inr (e, bad) ↦ inl (e, rw (set, bad) refl, set, bad)
      ]
    ]

    log_cases :
        ((e : LogError) × (log_ready f c (configure_logging stat) ≡ err (no_log e))
          × (is_empty c.log_file ≡ false)
          × IsLogFailure f e)
        ⊎ ((ss : List Sink) × (log_ready f c (configure_logging stat) ≡ ok ss)
            × IsLogged f stat c ss)
    unfolding log_ready open_log_file configure_logging
    log_cases = elim (Bool-cases (is_empty c.log_file)) [
      | inl unset ↦ inr (
        configure_logging stat,
        rw unset refl,
        (stderr_is_tty stat, tty_iff stat, inl (unset, refl)),
      )
      | inr set ↦ elim (Option-cases f.make_dir) [
        | inr (e, bad) ↦ inl (log_dir e, rw (set, bad) refl, set, inl (e, bad, refl))
        | inl made ↦ elim (Option-cases f.open_file) [
          | inr (e, bad) ↦ inl (log_open e, rw (set, made, bad) refl, set, inr (e, made, bad, refl))
          | inl opened ↦ inr (
            _,
            rw (set, made, opened) refl,
            (stderr_is_tty stat, tty_iff stat, inr (set, made, opened, refl)),
          )
        ]
      ]
    ]

    -- With a valid configuration, `runDaemon` comes to the watchdog in the state of a started
    -- daemon, logging to standard error, with times exactly if that is a terminal, and, where a log
    -- file is configured, to that file, whose directory was made and which was opened; where a socket is configured, its directory was made,
    -- what stood at its path is removed, and it was bound and then its mode set. Or it ends with the
    -- error of making that directory or of opening the log file, or with that of listening on the
    -- socket.
    pub launch-cases : validate lib c ≡ ok tt → IsLaunched ⊎ IsUnlogged ⊎ IsUnserved
    unfolding launch start_daemon
    launch-cases valid =
        let v = validate-IsValid lib c valid in
        let built =
          build_checkers-ok lib c v.times_parse v.country_pattern.compiled v.ip_pattern.compiled in
        elim log_cases [
          | inl (e, bad, set, cause) ↦ inr (
              inl (record {
                why = e;
                fails = rw (v.times_parse, bad) refl;
                configured = set;
                cause = cause;
              }))
          | inr (ss, opened, logged) ↦ elim socket_cases [
            | inl (e, bad, set, cause) ↦ inr (
                inr (record {
                  why = e;
                  fails = rw (v.times_parse, opened, built, bad) refl;
                  configured = set;
                  cause = cause;
                }))
            | inr (server, ready, served) ↦ inl (record {
              launched = record {
                started =
                    started c v.times (checkers_of c v.times v.country_pattern.re v.ip_pattern.re);
                sinks = ss;
                server = server;
              };
              succeeds = rw (v.times_parse, opened, built, ready) refl;
              starts = rw (v.times_parse, built) refl;
              logs = logged;
              serves = served;
            })
          ]
        ]
