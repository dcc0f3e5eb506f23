-- ===== src/Cli/Report.antt =====
-- What the exit code of `reptile status` says of the daemon that it asks.
use reptile.Prelude.{
  ℕ, ◌≡◌, refl, sym, ap, ◌∙◌, ◌↔◌, Bool, true, false, not, some, arith, if◌then◌else◌,
}
use reptile.Text.Defs.{Text, codes, eq, eq_iff, is_empty}
use reptile.Library.{Library}
use reptile.Result.{Result, ok}
use reptile.Config.{Config}
use reptile.Config.File.{Codec}
use reptile.Watchdog.{is_safe}
use reptile.Tunnel as Tunnel
use reptile.Egress.Probe.{evaluate}
use reptile.Reload.{Daemon}
use reptile.Reload.Probing.{probe_now_reports}
use reptile.Agent.{Status, Wire, snapshot, query}
use reptile.Agent.Protocol.{Carries, connected, served, query-status, query-probe}
use reptile.Daemon.Requests.{Scene, prober, hooks}
use reptile.Cli.{Exit, status_exit, run_status}

up_code : (t : Text) → (◌≡◌ {A = ℕ} (if not (eq t (codes "up")) then 1 else 0) 0) ↔ (t ≡ codes "up")
up_code t =
    (λ z. ground (arith, z, eq_iff t (codes "up")), λ z. ground (arith, z, eq_iff t (codes "up")))

status_exit_code :
    (socket : Text) (r : Result Text Status) (s : Status)
    → r ≡ ok s
    → ((status_exit socket r).code ≡ 0) ↔ (s.state ≡ codes "up")
unfolding status_exit
status_exit_code socket r s h = rw (h, status_exit) (up_code s.state)

label_iff : (b : Bool) → ((if b then codes "up" else codes "down") ≡ codes "up") ↔ (b ≡ true)
label_iff true = (λ _. refl, λ _. refl)
label_iff false = (λ h. absurd (cc (h)), λ h. absurd (cc (h)))

run_status_asks :
    (wire : Wire) (exchange : Text → Text → Result Text Text) (c : Config) (probe : Bool)
    → is_empty c.socket_path ≡ false
    → run_status wire exchange c (some probe)
      ≡ status_exit c.socket_path
          (query wire (exchange c.socket_path) (if probe then codes "probe" else codes "status"))
unfolding run_status
run_status_asks wire exchange c probe named = rw (named, run_status) refl

run_status_code :
    (wire : Wire) (exchange : Text → Text → Result Text Text) (c : Config) (probe : Bool)
    {s : Status}
    → is_empty c.socket_path ≡ false
    → query wire (exchange c.socket_path) (if probe then codes "probe" else codes "status") ≡ ok s
    → ((run_status wire exchange c (some probe)).code ≡ 0) ↔ (s.state ≡ codes "up")
run_status_code wire exchange c probe {s} named answer =
    let same = ap (λ (e : Exit). e.code) (run_status_asks wire exchange c probe named) in
    let (zero, up) = status_exit_code c.socket_path _ s answer in
    (λ z. zero (sym same ∙ z), λ u. same ∙ up u)

module _ (lib : Library) (codec : Codec) (wire : Wire) (scene : Scene) (d : Daemon)
    (c : Config) where
  -- The exchange with the daemon's server, at whatever path.
  abbrev asks : Text → Text → Result Text Text
  asks _ bytes = connected lib wire (hooks lib codec wire scene) d bytes

  -- Where JSON carries the messages and a socket is configured: `reptile status` exits with 0
  -- exactly if the store's state is "up", and `reptile status -probe` exactly if a poll with the
  -- same tunnel and a fresh egress verdict would be safe.
  pub run_status_zero_iff :
      is_empty c.socket_path ≡ false
      → Carries wire
          (codes "status")
          (served lib wire (hooks lib codec wire scene) d (codes "status")).response
      → Carries wire
          (codes "probe")
          (served lib wire (hooks lib codec wire scene) d (codes "probe")).response
      → (((run_status wire asks c (some false)).code ≡ 0) ↔ (d.store.state ≡ codes "up"))
        × (((run_status wire asks c (some true)).code ≡ 0) ↔ (
            is_safe
              (Tunnel.check scene.host d.tunnel).passed
              d.live.verify_egress
              (evaluate lib scene.net true d.egress).result.passed
            ≡ true))
  unfolding snapshot prober
  run_status_zero_iff named st pr =
      let server = hooks lib codec wire scene in
      let (brings, _) = query-status lib wire server d st in
      let (fresh, _) = query-probe lib wire server d (prober lib codec wire scene) refl pr in
      let (reports, _, _, _, _) = probe_now_reports lib scene.host scene.net scene.now d in
      let (zero, up) = run_status_code wire asks c true named fresh in
      let safe =
        is_safe (Tunnel.check scene.host d.tunnel).passed d.live.verify_egress
          (evaluate lib scene.net true d.egress).result.passed in
      let (labelled, labels) = label_iff safe in
      (
        run_status_code wire asks c false named brings,
        (λ z. labelled (sym reports ∙ zero z), λ s. up (reports ∙ labels s)),
      )
