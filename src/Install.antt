-- ===== src/Install.antt =====
-- internal/app/install.go: `runInstall` and `copyFile`, as the actions that they ask of the system.
pub mod Order
use reptile.Prelude.{
  ℕ, ◌==◌, Bool, true, false, not, ◌&&◌, ◌||◌, Option, none, some, List, [], ◌∷◌, ◌++◌,
  if◌then◌else◌,
}
use reptile.Text.Defs.{Text, codes, eq}
use reptile.Text.Split.{join}
use reptile.Result.{Result, ok, err}
use reptile.Console.{level_info, level_error}
use reptile.Daemon.{Line, attr}

-- What is installed under the root.
pub data Place : Type 0 where
  binary config_file : Place
  service : Text → Place

pub data Action : Type 0 where
  -- The steps of `copyFile`.
  opens : Text → Action
  creates : Place → Action
  copies : Place → Action
  syncs : Place → Action
  -- `os.MkdirAll` of the directory of a place, and `os.WriteFile` with its mode.
  makes_dir : Place → Action
  writes : Place → Text → ℕ → Action
  -- `systemctl`
  systemctl : List Text → Action

-- An action, and the error that it gave.
pub record Asked : Type 0 where
  pub action : Action
  pub error : Option Text

-- The system answers by what was asked of it before; `asset` reads the embedded files.
pub record Env : Type 0 where
  pub geteuid : ℕ
  pub executable : Result Text Text
  pub asset : Text → Result Text Text
  pub exists : List Asked → Place → Bool
  pub answer : List Asked → Action → Option Text
  -- `filepath.Join` of the root and what stands at the place.
  pub path : Text → Place → Text

pub record Flags : Type 0 where
  pub root : Text
  pub no_activate : Bool

-- The exit code, the lines of the log and the actions, the last first.
pub record Outcome : Type 0 where
  pub code : ℕ
  pub lines : List Line
  pub asked : List Asked

abbrev pub stop : Text → List Asked → Outcome
stop message asked = record {
  code = 1;
  lines = record { level = level_error; message = message; attrs = [] } ∷ [];
  asked = asked;
}

abbrev pub saying : Line → Outcome → Outcome
saying line o = record o { lines = line ∷ o.lines }

abbrev pub at_path : Text → Text → Line
at_path message path = record {
  level = level_info;
  message = message;
  attrs = attr (codes "path") path ∷ [];
}

abbrev pub end_with : Text → List Asked → Outcome
end_with message asked = record {
  code = 0;
  lines = record { level = level_info; message = message; attrs = [] } ∷ [];
  asked = asked;
}

-- An error ends the installation with the message before it.
unfoldable pub continue :
    Text → Action → List Asked → Option Text → (List Asked → Outcome) → Outcome
continue message a asked (some e) k =
    stop (message ++ (codes ": " ++ e)) (record { action = a; error = some e } ∷ asked)
continue message a asked none k = k (record { action = a; error = none } ∷ asked)

module _ (env : Env) where
  unfoldable pub ask : Text → Action → List Asked → (List Asked → Outcome) → Outcome
  ask message a asked k = continue message a asked (env.answer asked a) k

  -- An embedded file.
  unfoldable pub with_asset : Text → Result Text Text → List Asked → (Text → Outcome) → Outcome
  with_asset message (err e) asked k = stop (message ++ (codes ": " ++ e)) asked
  with_asset message (ok body) asked k = k body

  -- `copyFile`, to the binary
  unfoldable pub copy_file : Text → Text → Place → List Asked → (List Asked → Outcome) → Outcome
  copy_file message src dst asked k = ask message (opens src) asked λ a1.
      ask message (makes_dir dst) a1 λ a2.
        ask message (creates dst) a2
          λ a3. ask message (copies dst) a3 λ a4. ask message (syncs dst) a4 k

  -- The configuration is written only where there is none.
  unfoldable pub put_config : Text → List Asked → (List Asked → Outcome) → Outcome
  put_config root asked k =
      let path = env.path root config_file in
      if env.exists asked config_file
      then saying (at_path (codes "keeping existing config") path) (k asked)
      else with_asset (codes "embedded example config")
          (env.asset (codes "assets/config.example.json")) asked
          λ example. ask (codes "config dir") (makes_dir config_file) asked λ a1.
            ask (codes "write config") (writes config_file example 384) a1
              λ a2. saying (at_path (codes "installed example config") path) (k a2)

  unfoldable pub put_units : List Text → List Asked → (List Asked → Outcome) → Outcome
  put_units [] asked k = k asked
  put_units (n ∷ ns) asked k =
      with_asset (codes "embedded unit " ++ n) (env.asset (codes "assets/" ++ n)) asked λ body.
        ask (codes "unit dir") (makes_dir (service n)) asked
          λ a1. ask (codes "write unit") (writes (service n) body 420) a1 λ a2. put_units ns a2 k

  -- The calls of `systemctl`.
  unfoldable pub activate : List (List Text) → List Asked → Outcome
  activate [] asked =
      end_with
        (codes
          "installed - edit /etc/reptile/config.json (targets, expected_country), then: systemctl start reptile && reptile status")
        asked
  activate (args ∷ rest) asked =
      ask (codes "systemctl [" ++ (join (codes " ") args ++ codes "]")) (systemctl args) asked
        λ a. activate rest a

  unfoldable pub finish : Flags → List Asked → Outcome
  finish f asked =
      if not (eq f.root (codes "/")) || f.no_activate
      then end_with
          (codes "files written under "
            ++ (f.root
                ++ codes
                    " - activate manually: systemctl daemon-reload && systemctl enable --now reptile-firewall reptile"))
          asked
      else activate
          ((codes "daemon-reload" ∷ [])
            ∷ (codes "enable" ∷ codes "--now" ∷ codes "reptile-firewall.service" ∷ [])
            ∷ (codes "enable" ∷ codes "reptile.service" ∷ [])
            ∷ [])
          asked

  unfoldable pub install_files : Flags → Result Text Text → Outcome
  install_files f (err e) = stop (codes "cannot locate running binary: " ++ e) []
  install_files f (ok exe) = copy_file (codes "install binary") exe binary [] λ a1.
      put_config f.root a1 λ a2.
        put_units (codes "reptile.service" ∷ codes "reptile-firewall.service" ∷ []) a2 (finish f)

  -- `runInstall`; no flags if `flag` refuses the arguments.
  unfoldable pub run_install : Option Flags → Outcome
  run_install none = record { code = 2; lines = []; asked = [] }
  run_install (some f) =
      if eq f.root (codes "/") && not (env.geteuid == 0)
      then stop (codes "install to / requires root (use --root for testing)") []
      else install_files f env.executable
