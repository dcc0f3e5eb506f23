-- ===== src/Lib.antt =====
-- Verification of reptile, a kill switch for WireGuard tunnels (internal/app).
--
-- The daemon polls a tunnel. A poll asks the tunnel checker for a recent handshake and, through a
-- tunnel that works, the egress checker for a proof of the exit country, the exit address and its
-- reputation. The state machine `cycle` debounces the verdicts; a confirmed outage kills the
-- configured processes. A configuration file, which `config set` edits, drives all of it; a client
-- asks the daemon over a socket to reload it. An event log that the handlers write is what `history`
-- reads.
--
--   Config, Config.Validate       config.go: Config, Defaults, Durations, Validate
--   Config.File                   config.go: LoadConfig; config_ops.go: SetConfigFileKeys
--   Config.Keys, Config.Keys.Rows config_ops.go: applyKey, splitList, configRows, diffKeys,
--                                 RenderConfigTable
--   Watchdog                      watchdog.go: wdState, cycle, stateLabel
--   Watchdog.Loop                 watchdog.go: runWatchdog, as steps of the `select`
--   Tunnel, Tunnel.Commands       tunnel.go: parseLatestHandshake, Apply, Check; its commands
--   Killer, Killer.Listing        killer.go: killTargets; procLister
--   Killer.Workers                killer.go: signalProcesses, its channel, its wait group and its
--                                 workers, in every interleaving
--   Reload                        live.go; main.go: makeReloader, classifyReload, probeNow;
--                                 agent.go: Store
--   Reload.Race                   main.go: makeReloader, two reloads at once
--   Agent                         agent.go: Status, Snapshot, handle, Query, QueryResponse
--   Agent.Slots, Agent.Listening  agent.go: Serve, its handlers in every interleaving; Listen, Close
--   Daemon, Daemon.Requests       main.go: runDaemon, the functions that it passes on
--   Daemon.Serving, Daemon.Lifetime  main.go: runDaemon, its start and the requests during its run
--   Daemon.Launch, Daemon.Logging main.go: runDaemon up to its functions; configureLogging,
--                                 stderrIsTTY, openLogFile
--   Cli, Cli.Dispatch             main.go: Run, buildCheckers, runCheck, runStatus
--   Cli.Events, Cli.Settings      main.go: runHistory, runConfig
--   Firewall                      firewall.go: parseEndpoints, isPort
--   Firewall.Nft                  firewall.go: buildRuleset, ApplyRuleset, ApplyDown; main.go:
--                                 runFirewall
--   Install, Version              install.go; version.go
--   Egress, Egress.Dnsbl, Egress.Probe  egress.go
--   Egress.Dialer                 dial_linux.go, dial_other.go; egress.go: client
--   History, History.Recent       history.go: parseEvent, FilterMin, RenderEntries, ReadRecentEvents
--   Console                       handler.go: the handler of the console and of the log file
--   Console.Fanout                fanout.go
--   Prelude, Text, Result         numbers, byte strings with strings.* and strconv.*, errors
--   Library                       what the program calls in Go's standard library
--   Tests                         runs on concrete inputs
--
-- The other modules below a component hold its proofs.
--
-- A Go string is a list of bytes, a duration is an integer of nanoseconds, and an operation that
-- returns an error is a function into `Result`. Regular expressions, URLs, durations, IP addresses,
-- JSON, `strconv.Quote`, `fmt.Sprintf` of a format with no arguments and the Unicode case tables are
-- parameters (`Library`, `Config.File.Codec`, `Agent.Wire`); the four fixed patterns of the source are written out as functions. The network, the
-- resolver, the clock, `wg show`, `nft`, what the package `flag` finds and the disk's errors are
-- arguments of the operations that meet them. The operations of a checker hold its mutex throughout,
-- so each is one step. The daemon's state is explicit: what the requests to the agent do to it between two
-- of its actions is an argument of `Daemon`, and in `Daemon.Serving` it is what the server does with
-- the bytes of any requests, one at a time. All loops of these parts run over a list that they are given, so
-- the model has no fuel; the event loop of the watchdog, the workers of the killer, the handlers of
-- the agent and two reloads at once are step relations. The installer is the sequence of actions that
-- it asks of the system, which answers each by those before it.
--
-- The streak of the watchdog is not bounded: it counts the polls of one outage. The seconds of the
-- maximal handshake age are those of the floating-point sum that Go makes of them. A dialer is the interface that its sockets are
-- bound to; what /proc shows, and what the system answers to the calls for the log file and for the
-- socket, are arguments. Not modelled: the registration of the signals, which is a call of the system;
-- and the deadlines of the agent's connections and of `check`.
pub mod Prelude
pub mod Text
pub mod Result
pub mod Library
pub mod Config
pub mod Watchdog
pub mod Tunnel
pub mod Egress
pub mod Killer
pub mod Reload
pub mod History
pub mod Console
pub mod Agent
pub mod Daemon
pub mod Cli
pub mod Firewall
pub mod Install
pub mod Version
pub mod Tests
