-- ===== src/Install/Order.antt =====
-- What an installation may ask of the system, and that its first error ends it.
use reptile.Prelude.{
  ◌==◌, ◌≡◌, refl, sym, subst, inl, inr, true, false, not, ◌&&◌, ◌||◌, none, some, List, [], ◌∷◌,
  All, arith, Bool-cases, Option-cases,
}
use reptile.Text.Defs.{Text, codes, eq}
use reptile.Result.{Result, ok, err}
use reptile.Daemon.{Line}
use reptile.Install.{
  binary, config_file, service, Action, opens, creates, copies, syncs, makes_dir, writes, systemctl,
  Asked, Env, Flags, saying, Outcome, continue, ask, with_asset, copy_file, put_config, put_units,
  activate, finish, install_files, run_install,
}

-- Every action of the list ended without an error.
abbrev pub HasSucceeded : List Asked → Type 0
HasSucceeded past = All (λ (x : Asked). x.error ≡ none) past

-- All but the last action, which is the first of the list, ended without an error.
abbrev pub HasStopped : List Asked → Type 0
HasStopped [] = Unit
HasStopped (x ∷ past) = HasSucceeded past

module _ (env : Env) (f : Flags) where
  -- A configuration is written only where none was found; `systemctl` is called only for the
  -- root "/" without -no-activate; and only the binary is overwritten by a copy.
  abbrev pub IsAllowed : Action → Type 0
  IsAllowed (opens _) = Unit
  IsAllowed (creates p) = p ≡ binary
  IsAllowed (copies p) = p ≡ binary
  IsAllowed (syncs _) = Unit
  IsAllowed (makes_dir _) = Unit
  IsAllowed (writes binary _ _) = ⊥
  IsAllowed (writes config_file _ _) =
      (before : List Asked) × (env.exists before config_file ≡ false)
  IsAllowed (writes (service _) _ _) = Unit
  IsAllowed (systemctl _) = (eq f.root (codes "/") ≡ true) × (f.no_activate ≡ false)

  pub record IsOrderly (o : Outcome) : Type 0 where
    pub allowed : All (λ (x : Asked). IsAllowed x.action) o.asked
    pub stopped : HasStopped o.asked
    pub succeeded : o.code ≡ 0 → HasSucceeded o.asked

  -- The actions so far.
  record IsSound (past : List Asked) : Type 0 where
    allowed : All (λ (x : Asked). IsAllowed x.action) past
    succeeded : HasSucceeded past

  stopped_of : (past : List Asked) → HasSucceeded past → HasStopped past
  stopped_of [] h = tt
  stopped_of (x ∷ past) h = h.1

  -- An outcome that asks nothing more.
  at_end : (o : Outcome) (past : List Asked) → o.asked ≡ past → IsSound past → IsOrderly o
  at_end o past e s = record {
    allowed = subst (All (λ (x : Asked). IsAllowed x.action)) (sym e) s.allowed;
    stopped = subst HasStopped (sym e) (stopped_of past s.succeeded);
    succeeded = λ _. subst HasSucceeded (sym e) s.succeeded;
  }

  ask-IsOrderly :
      (m : Text) (a : Action) (past : List Asked) (k : List Asked → Outcome)
      → IsSound past
      → IsAllowed a
      → ((bs : List Asked) → IsSound bs → IsOrderly (k bs))
      → IsOrderly (ask env m a past k)
  unfolding ask continue
  ask-IsOrderly m a past k s may go = elim (Option-cases (env.answer past a)) [
    | inl fine ↦
        rw (fine, continue)
          (go _ (record { allowed = (may, s.allowed); succeeded = (refl, s.succeeded) }))
    | inr (e, bad) ↦
        rw (bad, continue)
          (record {
            allowed = (may, s.allowed);
            stopped = s.succeeded;
            succeeded = λ z. absurd (ground (arith, z));
          })
  ]

  saying-IsOrderly : (l : Line) (o : Outcome) → IsOrderly o → IsOrderly (saying l o)
  saying-IsOrderly l o h = record {
    allowed = h.allowed;
    stopped = h.stopped;
    succeeded = h.succeeded;
  }

  with_asset-IsOrderly :
      (m : Text) (r : Result Text Text) (past : List Asked) (k : Text → Outcome)
      → IsSound past
      → ((body : Text) → IsOrderly (k body))
      → IsOrderly (with_asset env m r past k)
  unfolding with_asset
  with_asset-IsOrderly m (err e) past k s go = at_end _ past refl s
  with_asset-IsOrderly m (ok body) past k s go = go body

  copy_file-IsOrderly :
      (m src : Text) (past : List Asked) (k : List Asked → Outcome)
      → IsSound past
      → ((now : List Asked) → IsSound now → IsOrderly (k now))
      → IsOrderly (copy_file env m src binary past k)
  unfolding copy_file
  copy_file-IsOrderly m src past k s go = ask-IsOrderly m (opens src) past _ s tt λ a1 s1.
      ask-IsOrderly m (makes_dir binary) a1 _ s1 tt λ a2 s2.
        ask-IsOrderly m (creates binary) a2 _ s2 refl λ a3 s3.
          ask-IsOrderly m (copies binary) a3 _ s3 refl
            λ a4 s4. ask-IsOrderly m (syncs binary) a4 k s4 tt go

  put_config-IsOrderly :
      (root : Text) (past : List Asked) (k : List Asked → Outcome)
      → IsSound past
      → ((now : List Asked) → IsSound now → IsOrderly (k now))
      → IsOrderly (put_config env root past k)
  unfolding put_config
  put_config-IsOrderly root past k s go = elim (Bool-cases (env.exists past config_file)) [
    | inl found ↦ rw found (saying-IsOrderly _ _ (go past s))
    | inr missing ↦ rw missing (
        with_asset-IsOrderly _ _ past _ s λ example.
          ask-IsOrderly _ (makes_dir config_file) past _ s tt λ a1 s1.
            ask-IsOrderly _ (writes config_file example 384) a1 _ s1 (past, missing)
              λ a2 s2. saying-IsOrderly _ _ (go a2 s2))
  ]

  put_units-IsOrderly :
      (ns : List Text) (past : List Asked) (k : List Asked → Outcome)
      → IsSound past
      → ((now : List Asked) → IsSound now → IsOrderly (k now))
      → IsOrderly (put_units env ns past k)
  unfolding put_units
  put_units-IsOrderly [] past k s go = go past s
  put_units-IsOrderly (n ∷ ns) past k s go = with_asset-IsOrderly _ _ past _ s λ body.
      ask-IsOrderly _ (makes_dir (service n)) past _ s tt λ a1 s1.
        ask-IsOrderly _ (writes (service n) body 420) a1 _ s1 tt
          λ a2 s2. put_units-IsOrderly ns a2 k s2 go

  activate-IsOrderly :
      (calls : List (List Text)) (past : List Asked)
      → (eq f.root (codes "/") ≡ true) × (f.no_activate ≡ false)
      → IsSound past
      → IsOrderly (activate env calls past)
  unfolding activate
  activate-IsOrderly [] past may s = at_end _ past refl s
  activate-IsOrderly (c ∷ cs) past may s =
      ask-IsOrderly _ (systemctl c) past _ s may λ now s1. activate-IsOrderly cs now may s1

  finish-IsOrderly : (past : List Asked) → IsSound past → IsOrderly (finish env f past)
  unfolding finish
  finish-IsOrderly past s = elim (Bool-cases (not (eq f.root (codes "/")) || f.no_activate)) [
    | inl manual ↦ rw manual (at_end _ past refl s)
    | inr at_root ↦
        rw at_root (activate-IsOrderly _ past (ground (arith, at_root), ground (arith, at_root)) s)
  ]

  install_files-IsOrderly : (exe : Result Text Text) → IsOrderly (install_files env f exe)
  unfolding install_files
  install_files-IsOrderly (err e) = at_end _ [] refl (record { allowed = tt; succeeded = tt })
  install_files-IsOrderly (ok exe) =
      copy_file-IsOrderly _ exe [] _ (record { allowed = tt; succeeded = tt })
        λ a1 s1.
          put_config-IsOrderly f.root a1 _ s1
            λ a2 s2. put_units-IsOrderly _ a2 _ s2 finish-IsOrderly

  -- Whatever the system answers: the first action that fails is the last; the exit code is 0 only
  -- if every action succeeded; a configuration is written only after none was found; and
  -- `systemctl` is called only for the root "/" without -no-activate.
  pub run_install-IsOrderly : IsOrderly (run_install env (some f))
  unfolding run_install
  run_install-IsOrderly = elim (Bool-cases (eq f.root (codes "/") && not (env.geteuid == 0))) [
    | inl refused ↦ rw refused (at_end _ [] refl (record { allowed = tt; succeeded = tt }))
    | inr go ↦ rw go (install_files-IsOrderly env.executable)
  ]
