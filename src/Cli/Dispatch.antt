-- ===== src/Cli/Dispatch.antt =====
-- `Run` of internal/app/main.go: which subcommand is run, and with what. The logging that it sets
-- up is in `Daemon.Logging`.
pub mod Guards
use reptile.Prelude.{Bool, true, false, ◌||◌, List, [], ◌∷◌, if◌then◌else◌}
use reptile.Text.Defs.{Text, codes, eq, is_empty}
use reptile.Library.{Library}
use reptile.Result.{Result, ok, err}
use reptile.Config.{Config}
use reptile.Config.Validate.{Invalid, validate}
use reptile.Config.File.{Codec, Disk, LoadError, load_config}

-- Why the process ends by `fatal`.
pub data RunError : Type 0 where
  not_loaded : LoadError → RunError
  not_valid : Invalid → RunError
  usage : RunError

pub data Command : Type 0 where
  install : List Text → Command
  version : Command
  daemon : Config → Command
  check : Config → Command
  status : Config → List Text → Command
  history : Config → List Text → Command
  config : List Text → Command
  firewall : Config → Text → Command
  fatal : RunError → Command

-- `cfg.Interface = *ifaceFlag`
unfoldable pub override_interface : Text → Config → Config
override_interface flag c = if is_empty flag then c else record c { interface = flag }

-- `mustValidate`
unfoldable pub must_validate : Library → (Config → Command) → Config → Command
must_validate lib then_run c = elim (validate lib c) [
  | err e ↦ fatal (not_valid e)
  | ok _ ↦ then_run c
]

-- `flag.Arg(1)`, of the arguments after the subcommand
abbrev pub first_arg : List Text → Text
first_arg [] = []
first_arg (a ∷ _) = a

-- The second `switch`.
unfoldable pub with_config : Library → Text → List Text → Config → Command
with_config lib sub args c =
    if eq sub (codes "standby") || eq sub (codes "daemon")
    then must_validate lib daemon c
    else if eq sub (codes "check")
    then must_validate lib check c
    else if eq sub (codes "status")
    then status c args
    else if eq sub (codes "history")
    then history c args
    else if eq sub (codes "config")
    then config args
    else if eq sub (codes "firewall")
    then firewall c (first_arg args)
    else fatal usage

unfoldable pub loaded : Library → Text → Text → List Text → Result LoadError Config → Command
loaded lib flag sub args (err e) = fatal (not_loaded e)
loaded lib flag sub args (ok c) = with_config lib sub args (override_interface flag c)

abbrev pub sub_command : List Text → Text × List Text
sub_command [] = ([], [])
sub_command (s ∷ args) = (s, args)

module _ (lib : Library) (codec : Codec) (path : Text) (disk : Disk) (flag : Text) where
  unfoldable pub dispatch : Text → List Text → Command
  dispatch sub args =
      if eq sub (codes "install")
      then install args
      else if eq sub (codes "version")
      then version
      else loaded lib flag sub args (load_config lib codec path disk)

  -- `Run`: `flag` is that of -interface.
  unfoldable pub run : List Text → Command
  run args = let (sub, rest) = sub_command args in dispatch sub rest
