-- ===== src/Daemon/Requests.antt =====
-- What `runDaemon` gives to the server of the agent socket, and what a client's "reload" does.
use reptile.Prelude.{ℕ, ◌≡◌, refl, sym, ap, ◌∙◌, subst, ◌⊎◌, inl, inr, some}
use reptile.Text.Defs.{Text, codes, eq}
use reptile.Library.{Library}
use reptile.Result.{Result, ok, err, Result-cases}
use reptile.Config.{Config}
use reptile.Config.Validate.{validate}
use reptile.Config.File.{Codec, Disk, load_config}
use reptile.Tunnel as Tunnel
use reptile.Egress as Egress
use reptile.Reload.{Daemon, ReloadError, ReloadResult, reload, probe_now}
use reptile.Reload.Atomic.{IsReloaded, reload_fails_atomically, reload_takes_force}
use reptile.Agent.{
  Status, Response, Wire, snapshot, Hooks, reloaded, on_command, on_reload, answer_reload,
  query_response,
}
use reptile.Agent.Protocol.{Carries, connected, served, query_response-reload}

-- What a request meets: the configuration file, the checkers' commands, the clock, and the texts
-- of a reload's errors.
pub record Scene : Type 0 where
  pub path : Text
  pub disk : Disk
  pub host : Tunnel.Host
  pub net : Egress.Net
  pub now : ℕ
  pub text : ReloadError → Text

unfoldable pub with_text :
    (ReloadError → Text) → Result ReloadError ReloadResult → Result Text ReloadResult
with_text text (err e) = err (text e)
with_text text (ok r) = ok r

module _ (lib : Library) (codec : Codec) (wire : Wire) (scene : Scene) where
  unfoldable pub prober : Daemon → Status × Daemon
  prober d =
      let p = probe_now lib scene.host scene.net scene.now d in (snapshot wire p.status, p.daemon)

  unfoldable pub reloader : Daemon → Result Text ReloadResult × Daemon
  reloader d =
      let r = reload lib codec scene.path scene.disk d in (with_text scene.text r.result, r.daemon)

  -- `NewServer(...)` and `srv.Reloader`
  abbrev pub hooks : Hooks Daemon
  hooks = record { store = λ d. d.store; prober = some prober; reloader = some reloader }

  served_world :
      (d : Daemon)
      → (served lib wire hooks d (codes "reload")).world
        ≡ (reload lib codec scene.path scene.disk d).daemon
  unfolding reloader with_text on_command on_reload answer_reload eq
  served_world d = elim (Result-cases (reload lib codec scene.path scene.disk d).result) [
    | inl (e, bad) ↦ rw (bad, with_text, answer_reload) refl
    | inr (r, good) ↦ rw (good, with_text, answer_reload) refl
  ]

  -- The client's answer is of a reload that took a valid configuration but for what is wired.
  pub record IsConfirmed (d : Daemon) (answer : Result Text Response) (after : Daemon)
      : Type 0 where
    pub new : Config
    pub result : ReloadResult
    pub loaded : load_config lib codec scene.path scene.disk ≡ ok new
    pub valid : validate lib new ≡ ok tt
    pub in_force : IsReloaded lib d.live new result after
    pub answered : answer ≡ ok (reloaded (snapshot wire after.store) result)

  -- Where JSON carries the messages, "reload" ends in one of two ways. The file held a valid
  -- configuration: each of its settings is now live and both checkers work by them, but for the
  -- interface, the socket and the log file, which stay as they were; and the client has the
  -- snapshot of the store and the changed keys, those of these three as wanting a restart, those
  -- of the interface, the WireGuard file and the extra rules as wanting new rules of the firewall,
  -- and the others as applied. Or the client has an error, and the daemon is as it was.
  pub client_reload :
      (d : Daemon)
      → Carries wire (codes "reload") (served lib wire hooks d (codes "reload")).response
      → IsConfirmed d
          (query_response wire (connected lib wire hooks d) (codes "reload"))
          (served lib wire hooks d (codes "reload")).world
        ⊎ ((e : Text) × (query_response wire (connected lib wire hooks d) (codes "reload") ≡ err e)
            × ((served lib wire hooks d (codes "reload")).world ≡ d))
  unfolding reloader with_text
  client_reload d c =
      let r = reload lib codec scene.path scene.disk d in
      let answer = query_response-reload lib wire hooks d reloader refl c in
      let world = served_world d in
      elim (Result-cases r.result) [
        | inl (e, bad) ↦ inr (
          scene.text e,
          rw (bad, with_text) at answer,
          world ∙ reload_fails_atomically lib codec scene.path scene.disk d bad,
        )
        | inr (q, good) ↦
            let (new, loaded, valid, done) =
              reload_takes_force lib codec scene.path scene.disk d good in
            inl (record {
              new = new;
              result = q;
              loaded = loaded;
              valid = valid;
              in_force = subst (IsReloaded lib d.live new q) (sym world) done;
              answered =
                  rw (good, with_text) at answer
                  ∙ ap (λ (w : Daemon). ok (reloaded (snapshot wire w.store) q)) (sym world);
            })
      ]
