-- ===== src/Daemon/Serving.antt =====
-- The requests that clients make between two actions of the daemon, and what they keep.
use reptile.Prelude.{
  ℕ, ◌≡◌, refl, sym, subst, inl, inr, Bool, true, false, List, [], ◌∷◌, if◌then◌else◌,
}
use reptile.Text.Defs.{Text, codes, eq}
use reptile.Library.{Library}
use reptile.Result.{Result, ok, err, Result-cases}
use reptile.Config.File.{Codec, Disk}
use reptile.Tunnel as Tunnel
use reptile.Egress as Egress
use reptile.Reload.{reload, probe_now}
use reptile.Reload as Reload
use reptile.Agent.{Wire, Handled, handle, on_command, on_probe, on_reload, answer_reload}
use reptile.Daemon.{Env}
use reptile.Daemon.Requests.{Scene, with_text, prober, reloader, hooks}

-- What a client sends, with what its request meets.
pub record Request : Type 0 where
  pub scene : Scene
  pub bytes : Text

-- A predicate that neither a probe nor a reload breaks.
pub record Answers (lib : Library) (P : Reload.Daemon → Type 0) : Type 0 where
  pub by_probe :
      (host : Tunnel.Host) (net : Egress.Net) (now : ℕ) (d : Reload.Daemon)
      → P d
      → P (probe_now lib host net now d).daemon
  pub by_reload :
      (codec : Codec) (path : Text) (disk : Disk) (d : Reload.Daemon)
      → P d
      → P (reload lib codec path disk d).daemon

module _ (lib : Library) (codec : Codec) (wire : Wire) where
  unfoldable pub serve_all : List Request → Reload.Daemon → Reload.Daemon
  serve_all [] d = d
  serve_all (r ∷ rs) d =
      serve_all rs (handle lib wire (hooks lib codec wire r.scene) r.bytes d).world

  -- The environment in which these requests come, by the number of the action they follow.
  abbrev pub with_requests : Env → (ℕ → List Request) → Env
  with_requests env rs = record env { others = λ n d. serve_all (rs n) d }

  answer_reload-world :
      (scene : Scene) (r : Result Text Reload.ReloadResult) (d : Reload.Daemon)
      → (answer_reload lib wire (hooks lib codec wire scene) r d).world ≡ d
  unfolding answer_reload
  answer_reload-world scene (err e) d = refl
  answer_reload-world scene (ok r) d = refl

module _ (lib : Library) (codec : Codec) (wire : Wire) {P : Reload.Daemon → Type 0}
    (answers : Answers lib P) where
  if_handled :
      (p q : Handled Reload.Daemon) (b : Bool)
      → P p.world
      → P q.world
      → P (if b then p else q).world
  if_handled p q true x y = x
  if_handled p q false x y = y

  on_command-Answers :
      (scene : Scene) (cmd : Text) (d : Reload.Daemon)
      → P d
      → P (on_command lib wire (hooks lib codec wire scene) cmd d).world
  unfolding on_command on_probe on_reload prober reloader
  on_command-Answers scene cmd d s =
      let r = reload lib codec scene.path scene.disk d in
      if_handled _ _ (eq cmd (codes "status")) s (
        if_handled _ _ (eq cmd (codes "probe"))
          (answers.by_probe scene.host scene.net scene.now d s)
          (if_handled _ _ (eq cmd (codes "reload"))
            (subst P
              (sym
                (answer_reload-world lib codec wire scene (with_text scene.text r.result) r.daemon))
              (answers.by_reload codec scene.path scene.disk d s))
            s))

  pub handle-Answers :
      (scene : Scene) (bytes : Text) (d : Reload.Daemon)
      → P d
      → P (handle lib wire (hooks lib codec wire scene) bytes d).world
  unfolding handle
  handle-Answers scene bytes d s = elim (Result-cases (wire.decode_request bytes)) [
    | inl (e, bad) ↦ rw (bad, handle) s
    | inr (cmd, good) ↦ rw (good, handle) (on_command-Answers scene cmd d s)
  ]

  pub serve_all-Answers :
      (rs : List Request) (d : Reload.Daemon) → P d → P (serve_all lib codec wire rs d)
  unfolding serve_all
  serve_all-Answers [] d s = s
  serve_all-Answers (r ∷ rs) d s = serve_all-Answers rs _ (handle-Answers r.scene r.bytes d s)
