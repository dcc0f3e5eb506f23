-- ===== src/Config/File.antt =====
-- `LoadConfig` of internal/app/config.go and `SetConfigFileKeys` of internal/app/config_ops.go.
pub mod Atomic
use reptile.Prelude.{Bool, Option, none, some, List, [], ◌∷◌, ◌++◌, if◌then◌else◌}
use reptile.Text.Defs.{Text, is_empty}
use reptile.Text.Space.{trim_space}
use reptile.Library.{Library, to_upper}
use reptile.Result.{Result, ok, err, wrap, ◌>>=◌, ◌>>◌}
use reptile.Config.{Config, defaults}
use reptile.Config.Validate.{Invalid, validate}
use reptile.Config.Keys.{ApplyError, apply_key}

-- What the decoder finds behind the first JSON value.
pub data Trailing : Type 0 where
  end_of_file : Trailing
  another_value : Trailing
  malformed : Text → Trailing

pub record Decoded : Type 0 where
  pub config : Config
  pub trailing : Trailing

-- `encoding/json`: a strict decoder that overlays a configuration, and `MarshalIndent`.
pub record Codec : Type 0 where
  pub decode : Text → Config → Result Text Decoded
  pub encode : Config → Result Text Text

pub data FileError : Type 0 where
  not_exist : FileError
  other : Text → FileError

-- The configuration file and the file beside it, and what the next operations on them meet.
pub record Disk : Type 0 where
  pub file : Result FileError Text
  pub tmp : Option Text
  pub write_error : Option Text
  pub rename_error : Option Text

pub data LoadError : Type 0 where
  unreadable : FileError → LoadError
  unparsable : Text → LoadError
  multiple_values : LoadError
  trailing_data : Text → LoadError

unfoldable pub normalise : Library → Config → Config
normalise lib c = record c {
  expected_country = to_upper lib (trim_space c.expected_country);
  expected_ip = trim_space c.expected_ip;
}

unfoldable pub check_trailing : Library → Decoded → Result LoadError Config
unfolding normalise
check_trailing lib d = elim d.trailing [
  | end_of_file ↦ ok (normalise lib d.config)
  | another_value ↦ err multiple_values
  | malformed e ↦ err (trailing_data e)
]

unfoldable pub load_file : Library → Codec → Disk → Result LoadError Config
unfolding check_trailing
load_file lib codec disk = do
  b ← wrap unreadable disk.file
  d ← wrap unparsable (codec.decode b defaults)
  check_trailing lib d

-- `LoadConfig`; no caller reads the configuration that comes with an error.
unfoldable pub load_config : Library → Codec → Text → Disk → Result LoadError Config
unfolding load_file
load_config lib codec path disk = if is_empty path then ok defaults else load_file lib codec disk

pub data SetError : Type 0 where
  odd_arguments : SetError
  not_loaded : LoadError → SetError
  not_applied : ApplyError → SetError
  not_valid : Invalid → SetError
  not_encoded : Text → SetError
  not_written : Text → SetError
  not_renamed : Text → SetError

-- `len(pairs)%2 != 0`, or the pairs
pair_up : List Text → Result SetError (List (Text × Text))
pair_up [] = ok []
pair_up (_ ∷ []) = err odd_arguments
pair_up (k ∷ v ∷ rest) = do ps ← pair_up rest; ok ((k, v) ∷ ps)

apply_keys : Library → List (Text × Text) → Config → Result SetError Config
apply_keys lib [] c = ok c
apply_keys lib ((k, v) ∷ ps) c = do d ← wrap not_applied (apply_key lib k v c); apply_keys lib ps d

-- A file that does not exist gives the defaults.
or_defaults : Result LoadError Config → Result SetError Config
or_defaults (err (unreadable not_exist)) = ok defaults
or_defaults (err e) = err (not_loaded e)
or_defaults (ok c) = ok c

-- The validation of the result, and its text.
finish : Library → Codec → Config → Result SetError (Config × Text)
finish lib codec c = wrap not_valid (validate lib c) >>= λ _. do
  out ← wrap not_encoded (codec.encode c)
  ok (c, out ++ b'\n' ∷ [])

-- Up to the write: the new configuration and its text.
unfoldable pub prepare : Library → Codec → Text → Disk → List Text → Result SetError (Config × Text)
unfolding pair_up or_defaults apply_keys finish
prepare lib codec path disk pairs = do
  ps ← pair_up pairs
  old ← or_defaults (load_config lib codec path disk)
  c ← apply_keys lib ps old
  finish lib codec c

pub record Saved : Type 0 where
  pub result : Result SetError Config
  pub disk : Disk

-- What a failed write leaves in the temporary file is not modelled.
-- `os.WriteFile(tmp, out)`, then `os.Rename(tmp, path)`
replace_file : Disk → Config → Text → Saved
replace_file disk c out = elim disk.write_error [
  | some e ↦ record { result = err (not_written e); disk = disk }
  | none ↦ elim disk.rename_error [
    | some e ↦ record { result = err (not_renamed e); disk = record disk { tmp = some out } }
    | none ↦ record { result = ok c; disk = record disk { file = ok out; tmp = none } }
  ]
]

save : Disk → Result SetError (Config × Text) → Saved
save disk (err e) = record { result = err e; disk = disk }
save disk (ok (c, out)) = replace_file disk c out

-- `SetConfigFileKeys`
unfoldable pub set_config_file_keys : Library → Codec → Text → Disk → List Text → Saved
unfolding save replace_file
set_config_file_keys lib codec path disk pairs = save disk (prepare lib codec path disk pairs)
