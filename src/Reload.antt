-- ===== src/Reload.antt =====
-- internal/app/live.go, `makeReloader`, `classifyReload` and `probeNow` of internal/app/main.go, and
-- the `Store` of internal/app/agent.go: the live settings and what is done with them.
pub mod Atomic
pub mod Classes
pub mod Reported
pub mod Probing
pub mod Race
pub mod Steady
pub mod Saved
use reptile.Prelude.{
  ℕ, Bool, true, false, not, ◌&&◌, ◌||◌, Option, none, some, List, [], ◌∷◌, if◌then◌else◌,
}
use reptile.Text.Defs.{Text, codes, elem}
use reptile.Library.{Library}
use reptile.Result.{Result, ok, err, wrap, ◌>>=◌}
use reptile.Config.{Config, KeyError}
use reptile.Config.Validate.{Invalid, validate}
use reptile.Config.Keys.Rows.{diff_keys}
use reptile.Config.File.{Codec, Disk, LoadError, load_config}
use reptile.Tunnel as Tunnel
use reptile.Egress as Egress
use reptile.Egress.Probe.{EgressResult, evaluate}

-- `Store`; the time is the clock of the last change.
pub record Store : Type 0 where
  pub state : Text
  pub streak : ℕ
  pub reason : Text
  pub exit_ip : Text
  pub country : Text
  pub updated_at : Option ℕ

abbrev pub new_store : Store
new_store = record {
  state = codes "unknown";
  streak = 0;
  reason = [];
  exit_ip = [];
  country = [];
  updated_at = none;
}

-- `Store.Set`
unfoldable pub set : Text → ℕ → Text → Text → Text → ℕ → Store → Store
set state streak reason exit_ip country now s = record {
  state = state;
  streak = streak;
  reason = reason;
  exit_ip = exit_ip;
  country = country;
  updated_at = some now;
}

-- `Store.SetProbe`: the streak belongs to the watchdog.
unfoldable pub set_probe : Text → Text → Text → Text → ℕ → Store → Store
set_probe state reason exit_ip country now s = record s {
  state = state;
  reason = reason;
  exit_ip = exit_ip;
  country = country;
  updated_at = some now;
}

-- What the reloader and the agent share with the watchdog.
pub record Daemon : Type 0 where
  pub live : Config
  pub tunnel : Tunnel.Checker
  pub egress : Egress.Checker
  pub store : Store

-- `reloadResult`
pub record ReloadResult : Type 0 where
  pub applied : List Text
  pub daemon_restart_required : List Text
  pub firewall_reload_required : List Text

abbrev pub daemon_restart_keys : List Text
daemon_restart_keys = codes "interface" ∷ codes "socket_path" ∷ codes "log_file" ∷ []

abbrev pub firewall_reload_keys : List Text
firewall_reload_keys = codes "interface" ∷ codes "wg_conf" ∷ codes "extra_accept" ∷ []

abbrev pub needs_restart : Text → Bool
needs_restart k = elem k daemon_restart_keys

abbrev pub needs_firewall : Text → Bool
needs_firewall k = elem k firewall_reload_keys

abbrev pub add_if : Bool → Text → List Text → List Text
add_if b k ks = if b then k ∷ ks else ks

-- `classifyReload`
unfoldable pub classify_reload : List Text → ReloadResult
classify_reload [] = record {
  applied = [];
  daemon_restart_required = [];
  firewall_reload_required = [];
}
classify_reload (k ∷ ks) =
    let rest = classify_reload ks in
    record {
      applied = add_if (not (needs_restart k) && not (needs_firewall k)) k rest.applied;
      daemon_restart_required = add_if (needs_restart k) k rest.daemon_restart_required;
      firewall_reload_required = add_if (needs_firewall k) k rest.firewall_reload_required;
    }

pub data ReloadError : Type 0 where
  not_loaded : LoadError → ReloadError
  not_valid : Invalid → ReloadError
  not_applied : KeyError → ReloadError

pub record Reloaded : Type 0 where
  pub result : Result ReloadError ReloadResult
  pub daemon : Daemon

-- The new settings, but for those that are wired at start-up.
abbrev pub effective : Config → Config → Config
effective old new = record new {
  interface = old.interface;
  socket_path = old.socket_path;
  log_file = old.log_file;
}

-- `LoadConfig` and `Validate`
unfoldable pub load_valid : Library → Codec → Text → Disk → Result ReloadError Config
load_valid lib codec path disk = do
  c ← wrap not_loaded (load_config lib codec path disk)
  wrap not_valid (validate lib c) >>= λ _. ok c

-- `tc.Apply(effective)` and `live.Set(effective)`
unfoldable pub apply_tunnel :
    ReloadResult → Config → Daemon → Result KeyError Tunnel.Checker → Reloaded
apply_tunnel r c d (err e) = record { result = err (not_applied e); daemon = d }
apply_tunnel r c d (ok t) = record { result = ok r; daemon = record d { live = c; tunnel = t } }

-- `eg.Apply(effective)`, and what follows it
unfoldable pub apply_egress :
    Library → ReloadResult → Config → Daemon → Result KeyError Egress.Checker → Reloaded
apply_egress lib r c d (err e) = record { result = err (not_applied e); daemon = d }
apply_egress lib r c d (ok e) =
    apply_tunnel r c (record d { egress = e }) (Tunnel.apply lib c d.tunnel)

unfoldable pub apply_loaded : Library → Daemon → Result ReloadError Config → Reloaded
apply_loaded lib d (err e) = record { result = err e; daemon = d }
apply_loaded lib d (ok new) =
    let c = effective d.live new in
    apply_egress lib (classify_reload (diff_keys d.live new)) c d (Egress.apply lib c d.egress)

-- The function that `makeReloader` returns.
unfoldable pub reload : Library → Codec → Text → Disk → Daemon → Reloaded
reload lib codec path disk d = apply_loaded lib d (load_valid lib codec path disk)

pub record Probed : Type 0 where
  pub status : Store
  pub daemon : Daemon
  pub logs : List Text

publish_probe : Bool → Text → Text → Text → ℕ → Daemon → List Text → Probed
publish_probe up reason ip country now d logs =
    let s = set_probe (if up then codes "up" else codes "down") reason ip country now d.store in
    record { status = s; daemon = record d { store = s }; logs = logs }

-- `probeNow`; `now` is the clock of its last step.
unfoldable pub probe_now : Library → Tunnel.Host → Egress.Net → ℕ → Daemon → Probed
unfolding publish_probe
probe_now lib host net now d =
    let t = Tunnel.check host d.tunnel in
    let v = evaluate lib net true d.egress in
    if not t.passed
    then publish_probe false t.reason [] [] now (record d { egress = Egress.invalidate d.egress })
        []
    else if d.live.verify_egress
    then publish_probe v.result.passed v.result.reason v.result.ip v.result.country now
        (record d { egress = v.checker }) v.logs
    else publish_probe true t.reason [] [] now d []
