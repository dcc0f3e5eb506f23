-- ===== src/Agent.antt =====
-- internal/app/agent.go: the protocol of the agent socket, its server and its client.
-- JSON, the RFC 3339 print of a time and what a connection carries are arguments.
pub mod Protocol
pub mod Slots
pub mod Listening
use reptile.Prelude.{
  ℕ, Bool, true, false, not, Option, none, some, List, [], ◌∷◌, ◌++◌, if◌then◌else◌,
}
use reptile.Text.Defs.{Text, codes, eq}
use reptile.Library.{Library}
use reptile.Result.{Result, ok, err, ◌>>=◌}
use reptile.Reload.{Store, ReloadResult}

-- `Status`
pub record Status : Type 0 where
  pub state : Text
  pub streak : ℕ
  pub reason : Text
  pub exit_ip : Text
  pub country : Text
  pub updated_at : Text

-- `agentResponse`
pub record Response : Type 0 where
  pub success : Bool
  pub error : Text
  pub status : Option Status
  pub applied : List Text
  pub daemon_restart_required : List Text
  pub firewall_reload_required : List Text

-- `encoding/json` on the two messages, and `Time.Format(time.RFC3339)`.
pub record Wire : Type 0 where
  pub encode_request : Text → Text
  pub decode_request : Text → Result Text Text
  pub encode_response : Response → Text
  pub decode_response : Text → Result Text Response
  pub rfc3339 : ℕ → Text

-- `Store.Snapshot`
unfoldable pub snapshot : Wire → Store → Status
snapshot wire s = record {
  state = s.state;
  streak = s.streak;
  reason = s.reason;
  exit_ip = s.exit_ip;
  country = s.country;
  updated_at = elim s.updated_at [ none ↦ [] | some t ↦ wire.rfc3339 t ];
}

-- What the server is given, over the state of the daemon: the store, and the functions that may
-- be nil.
pub record Hooks (W : Type 0) : Type 0 where
  pub store : W → Store
  pub prober : Option (W → Status × W)
  pub reloader : Option (W → Result Text ReloadResult × W)

abbrev pub failure : Text → Response
failure e = record {
  success = false;
  error = e;
  status = none;
  applied = [];
  daemon_restart_required = [];
  firewall_reload_required = [];
}

abbrev pub with_status : Status → Response
with_status s = record (failure []) { success = true; status = some s }

abbrev pub reloaded : Status → ReloadResult → Response
reloaded s r = record {
  success = true;
  error = [];
  status = some s;
  applied = r.applied;
  daemon_restart_required = r.daemon_restart_required;
  firewall_reload_required = r.firewall_reload_required;
}

-- A response, and the daemon after the request.
pub record Handled (W : Type 0) : Type 0 where
  pub response : Response
  pub world : W

module _ {W : Type 0} (lib : Library) (wire : Wire) (hooks : Hooks W) where
  -- `case "probe"`: the snapshot if there is no prober
  unfoldable pub on_probe : Option (W → Status × W) → W → Handled W
  on_probe none w = record { response = with_status (snapshot wire (hooks.store w)); world = w }
  on_probe (some probe) w = let (s, w') = probe w in record { response = with_status s; world = w' }

  unfoldable pub answer_reload : Result Text ReloadResult → W → Handled W
  answer_reload (err e) w = record { response = failure e; world = w }
  answer_reload (ok r) w = record {
    response = reloaded (snapshot wire (hooks.store w)) r;
    world = w;
  }

  -- `case "reload"`
  unfoldable pub on_reload : Option (W → Result Text ReloadResult × W) → W → Handled W
  on_reload none w = record { response = failure (codes "reload unsupported"); world = w }
  on_reload (some reload) w = let (r, w') = reload w in answer_reload r w'

  -- The `switch` on the command.
  unfoldable pub on_command : Text → W → Handled W
  on_command cmd w =
      if eq cmd (codes "status")
      then record { response = with_status (snapshot wire (hooks.store w)); world = w }
      else if eq cmd (codes "probe")
      then on_probe hooks.prober w
      else if eq cmd (codes "reload")
      then on_reload hooks.reloader w
      else record { response = failure (codes "unknown command " ++ lib.quote cmd); world = w }

  -- `Server.handle`, of what the connection delivers
  unfoldable pub handle : Text → W → Handled W
  handle bytes w = elim (wire.decode_request bytes) [
    | err e ↦ record { response = failure (codes "bad request: " ++ e); world = w }
    | ok cmd ↦ on_command cmd w
  ]

-- `QueryResponse`: `exchange` sends bytes over a new connection and delivers the answer, or an error
-- of the dialling, the deadline, the writing or the reading.
unfoldable pub query_response : Wire → (Text → Result Text Text) → Text → Result Text Response
query_response wire exchange cmd = do
  b ← exchange (wire.encode_request cmd)
  r ← wire.decode_response b
  if not r.success then err r.error else ok r

unfoldable pub status_of : Option Status → Result Text Status
status_of none = err (codes "empty response")
status_of (some s) = ok s

-- `Query`
unfoldable pub query : Wire → (Text → Result Text Text) → Text → Result Text Status
query wire exchange cmd = do r ← query_response wire exchange cmd; status_of r.status
