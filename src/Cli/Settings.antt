-- ===== src/Cli/Settings.antt =====
-- `runConfig` of internal/app/main.go: `reptile config` and `reptile config set`.
pub mod Saves
use reptile.Prelude.{
  ℕ, Bool, true, false, not, ◌&&◌, Option, none, some, List, [], ◌∷◌, ◌++◌, if◌then◌else◌, ℤ,
}
use reptile.Text.Defs.{Text, codes, eq, is_empty}
use reptile.Text.Split.{join}
use reptile.Library.{Library}
use reptile.Result.{Result, ok, err}
use reptile.Config.{Config}
use reptile.Config.Keys.Rows.{diff_keys, render_config_table}
use reptile.Config.File.{Codec, Disk, LoadError, SetError, Saved, load_config, set_config_file_keys}
use reptile.Reload.{ReloadResult, classify_reload}
use reptile.Agent.{Response, Wire, query_response}
use reptile.Console.{level_info, level_warn}
use reptile.Daemon.{Line, attr}
use reptile.Cli.{Exit, fails}

-- The exit, and the configuration file after it.
pub record Ran : Type 0 where
  pub exit : Exit
  pub disk : Disk

-- The texts of the errors.
pub record Words : Type 0 where
  pub load_text : LoadError → Text
  pub set_text : SetError → Text

abbrev pub keys_line : ℤ → Text → List Text → Option Text → Line
keys_line level message keys command = record {
  level = level;
  message = message;
  attrs =
      attr (codes "keys") (join (codes ",") keys)
      ∷ (elim command [ none ↦ [] | some c ↦ attr (codes "command") c ∷ [] ]);
}

abbrev pub line_if : List Text → Line → List Line → List Line
line_if keys line rest = if not (is_empty keys) then line ∷ rest else rest

abbrev pub firewall_line : List Text → List Line → List Line
firewall_line keys rest =
    line_if keys
      (keys_line level_warn (codes "firewall reload required") keys
        (some (codes "systemctl reload reptile-firewall")))
      rest

abbrev pub info : Text → Line
info message = record { level = level_info; message = message; attrs = [] }

abbrev pub done : List Line → Exit
done lines = record { code = 0; printed = []; lines = lines }

-- What the daemon answered to "reload", or why it did not.
unfoldable pub reload_lines : ReloadResult → Result Text Response → List Line
reload_lines required (err e) =
    record {
      level = level_warn;
      message = codes "daemon not reloaded live";
      attrs = attr (codes "err") e ∷ [];
    }
    ∷ record {
      level = level_info;
      message = codes "daemon changes apply on next start";
      attrs = attr (codes "command") (codes "systemctl restart reptile") ∷ [];
    }
    ∷ firewall_line required.firewall_reload_required []
reload_lines required (ok r) =
    line_if r.applied (keys_line level_info (codes "applied live") r.applied none) (
      line_if r.daemon_restart_required
        (keys_line level_warn (codes "daemon restart required") r.daemon_restart_required
          (some (codes "systemctl restart reptile")))
        (firewall_line r.firewall_reload_required (
          if is_empty r.applied
            && is_empty r.daemon_restart_required
            && is_empty r.firewall_reload_required
          then info (codes "daemon reports no effective changes") ∷ []
          else [])))

module _ (lib : Library) (codec : Codec) (wire : Wire) (words : Words)
    (exchange : Text → Text → Result Text Text) where
  -- After the file was saved.
  unfoldable pub announce : Config → Config → List Line
  announce current fresh =
      let required = classify_reload (diff_keys current fresh) in
      if is_empty current.socket_path
      then info (codes "saved; agent socket disabled, daemon changes apply on next start")
        ∷ firewall_line required.firewall_reload_required []
      else reload_lines required
          (query_response wire (exchange current.socket_path) (codes "reload"))

  unfoldable pub after_set : Config → Disk → Result SetError Config → Ran
  after_set current disk (err e) = record {
    exit = fails 1 (codes "config set: " ++ words.set_text e) [];
    disk = disk;
  }
  after_set current disk (ok fresh) = record { exit = done (announce current fresh); disk = disk }

  unfoldable pub set_loaded : Text → Disk → List Text → Result LoadError Config → Ran
  set_loaded path disk pairs (err e) = record {
    exit = fails 1 (codes "load current config: " ++ words.load_text e) [];
    disk = disk;
  }
  set_loaded path disk pairs (ok current) =
      let s = set_config_file_keys lib codec path disk pairs in after_set current s.disk s.result

  -- `reptile config set`
  unfoldable pub config_set : Text → Disk → List Text → Ran
  config_set path disk pairs =
      if is_empty pairs
      then record {
        exit = fails 2 (codes "usage: reptile config set key value [key value ...]") [];
        disk = disk;
      }
      else set_loaded path disk pairs (load_config lib codec path disk)

  unfoldable pub show : Option Text → Result LoadError Config → Exit
  show write_error (err e) = fails 1 (codes "load config: " ++ words.load_text e) []
  show write_error (ok c) = elim write_error [
    | some e ↦ fails 1 (codes "render: " ++ e) []
    | none ↦ record { code = 0; printed = render_config_table c; lines = [] }
  ]

  -- `runConfig`; `write_error` is that of the standard output.
  unfoldable pub run_config : Text → Disk → Option Text → List Text → Ran
  run_config path disk write_error [] = record {
    exit = show write_error (load_config lib codec path disk);
    disk = disk;
  }
  run_config path disk write_error (a ∷ pairs) =
      if not (eq a (codes "set"))
      then record {
        exit =
            fails 2 (codes "unknown config command " ++ (lib.quote a ++ codes " (want: set)")) [];
        disk = disk;
      }
      else config_set path disk pairs
