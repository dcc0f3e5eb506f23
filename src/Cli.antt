-- ===== src/Cli.antt =====
-- The subcommands of internal/app/main.go: this module has `buildCheckers`, `runCheck` and
-- `runStatus`. A subcommand gives its exit code, what it prints and what it logs; the package
-- `flag` is an argument, by the flags that it finds.
pub mod Verdict
pub mod Report
pub mod Events
pub mod Settings
pub mod Dispatch
use reptile.Prelude.{
  ℕ, Bool, true, false, not, Option, none, some, List, [], ◌∷◌, ◌++◌, if◌then◌else◌,
}
use reptile.Text.Defs.{Text, codes, eq, is_empty}
use reptile.Text.Number.{itoa_ℕ}
use reptile.Library.{Library, Regexp}
use reptile.Result.{Result, ok, err, wrap, ◌>>=◌}
use reptile.Config.{Config, Durations, KeyError, durations}
use reptile.Tunnel as Tunnel
use reptile.Egress as Egress
use reptile.Egress.Probe.{evaluate}
use reptile.Agent.{Status, Wire, query}
use reptile.Console.{level_info, level_error}
use reptile.Watchdog.Loop.{error_text}
use reptile.Daemon.{Line, attr}

-- Why the process ends by `fatal` while the checkers are built.
pub data BuildError : Type 0 where
  config : KeyError → BuildError
  bad_regex : Text → Text → BuildError

pub record Checkers : Type 0 where
  pub tunnel : Tunnel.Checker
  pub egress : Egress.Checker

abbrev pub checkers_of : Config → Durations → Regexp → Regexp → Checkers
checkers_of c d country_re ip_re = record {
  tunnel = record {
    iface = c.interface;
    max_age = d.max_handshake_age;
    ping_target = c.ping_target;
  };
  egress = record {
    iface = c.interface;
    url = c.probe_url;
    country_re = country_re;
    ip_re = ip_re;
    timeout = d.probe_timeout;
    ttl = d.probe_interval;
    expected_country = c.expected_country;
    expected_ip = c.expected_ip;
    zones = c.dnsbl_zones;
    last_country = [];
    last_ip = [];
    probed = false;
    client = none;
    verdict = false;
    reason = [];
    ts = 0;
    set = false;
  };
}

-- `buildCheckers`, with `mustRe`
unfoldable pub build_checkers : Library → Config → Result BuildError Checkers
build_checkers lib c = do
  d ← wrap config (durations lib c)
  country_re ← wrap (bad_regex c.country_pattern) (lib.compile c.country_pattern)
  ip_re ← wrap (bad_regex c.ip_pattern) (lib.compile c.ip_pattern)
  ok (checkers_of c d country_re ip_re)

pub record Exit : Type 0 where
  pub code : ℕ
  pub printed : Text
  pub lines : List Line

abbrev pub fails : ℕ → Text → List Line → Exit
fails code message more = record {
  code = code;
  printed = [];
  lines = record { level = level_error; message = message; attrs = [] } ∷ more;
}

abbrev pub tunnel_up : Config → Line
tunnel_up c = record {
  level = level_info;
  message = codes "tunnel: UP";
  attrs = attr (codes "interface") c.interface ∷ [];
}

-- The egress part of `runCheck`, after the tunnel was found up.
unfoldable pub check_egress : Library → Egress.Net → Config → Egress.Checker → Exit
check_egress lib net c e =
    let v = evaluate lib net false e in
    if not v.result.passed
    then record {
      code = 1;
      printed = [];
      lines =
          tunnel_up c
          ∷ record {
            level = level_error;
            message = codes "egress: FAILED";
            attrs = attr (codes "reason") v.result.reason ∷ [];
          }
          ∷ [];
    }
    else record {
      code = 0;
      printed = [];
      lines =
          tunnel_up c
          ∷ record {
            level = level_info;
            message = codes "egress: OK";
            attrs =
                attr (codes "expected_country") c.expected_country
                ∷ attr (codes "ip") v.result.ip
                ∷ attr (codes "country") v.result.country
                ∷ [];
          }
          ∷ [];
    }

unfoldable pub check_with : Library → Tunnel.Host → Egress.Net → Config → Checkers → Exit
check_with lib host net c k =
    let t = Tunnel.check host k.tunnel in
    if not t.passed
    then record {
      code = 1;
      printed = [];
      lines =
          record {
            level = level_error;
            message = codes "tunnel: DOWN";
            attrs = attr (codes "interface") c.interface ∷ attr (codes "reason") t.reason ∷ [];
          }
          ∷ [];
    }
    else if not c.verify_egress
    then record { code = 0; printed = []; lines = tunnel_up c ∷ [] }
    else check_egress lib net c k.egress

unfoldable pub build_error_text : Library → BuildError → Text
build_error_text lib (config e) = codes "config: " ++ error_text e
build_error_text lib (bad_regex p e) = codes "bad regex " ++ (lib.quote p ++ (codes ": " ++ e))

-- `runCheck`; `fatal` ends the process with 1.
unfoldable pub run_check : Library → Tunnel.Host → Egress.Net → Config → Exit
run_check lib host net c = elim (build_checkers lib c) [
  | err e ↦ fails 1 (build_error_text lib e) []
  | ok k ↦ check_with lib host net c k
]

-- The two prints of `runStatus`.
unfoldable pub reason_text : Text → Text
reason_text r = if is_empty r then [] else codes "reason=" ++ (r ++ b'\n' ∷ [])

unfoldable pub status_text : Status → Text
unfolding reason_text
status_text st =
    codes "state="
    ++ (st.state
        ++ (codes " streak="
            ++ (itoa_ℕ st.streak
                ++ (codes " exit_ip="
                    ++ (st.exit_ip
                        ++ (codes " country="
                            ++ (st.country
                                ++ (codes " updated="
                                    ++ (st.updated_at ++ (b'\n' ∷ reason_text st.reason))))))))))

unfoldable pub status_exit : Text → Result Text Status → Exit
unfolding status_text
status_exit socket (err e) = record {
  code = 1;
  printed = [];
  lines =
      record {
        level = level_error;
        message = codes "agent unavailable";
        attrs = attr (codes "socket") socket ∷ attr (codes "err") e ∷ [];
      }
      ∷ [];
}
status_exit socket (ok st) = record {
  code = if not (eq st.state (codes "up")) then 1 else 0;
  printed = status_text st;
  lines = [];
}

-- `runStatus`: `flags` is none if `flag` refuses the arguments, else the value of -probe.
unfoldable pub run_status : Wire → (Text → Text → Result Text Text) → Config → Option Bool → Exit
run_status wire exchange c none = record { code = 2; printed = []; lines = [] }
run_status wire exchange c (some probe) =
    if is_empty c.socket_path
    then fails 1 (codes "agent socket disabled (socket_path is empty in config)") []
    else status_exit c.socket_path
        (query wire (exchange c.socket_path) (if probe then codes "probe" else codes "status"))
