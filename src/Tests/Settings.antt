-- ===== src/Tests/Settings.antt =====
-- The configuration and the event log on concrete inputs.
use reptile.Prelude.{
  if◌then◌else◌, ◌↔◌, Bool, false, ◌≡◌, refl, true, none, some, List, [], ◌∷◌, All, pos, arith,
}
use reptile.Text.Defs.{Text, codes, eq, elem, contains_any}
use reptile.Text.Space.{trim_space}
use reptile.Text.Split.{split}
use reptile.Result.{ok, err}
use reptile.Config.{Config, defaults, durations}
use reptile.Config.Validate.{
  validate, iface_re, has_control, check_target, check_targets, check_country, country_re,
  check_expected_ip, check_probe_url, check_pattern, check_zones, check_signs,
}
use reptile.Config.Validate.Sound.{IsValid, validate-IsValid}
use reptile.Config.Keys.{
  apply_key, set_known, set_key, key_of, split_list, find_key, all_keys, key_text,
}
use reptile.Config.Keys.Rows.{diff_keys}
use reptile.Config.Keys.Frame.{apply_key_frame}
use reptile.Config.File.{Codec, Disk, SetError, set_config_file_keys, end_of_file}
use reptile.Config.File.Atomic.{IsSaved, set_config_file_keys_atomic}
use reptile.History.{parse_events, filter_min}
use reptile.History.Recent.{read_recent_events}
use reptile.History.Recent.Last.{last, read_recent_events-last}
use reptile.Console.{Handler, Record, enabled}
use reptile.Console.Fanout.{Sinks, any_enabled, handle_all}
use reptile.Console.Fanout.Delivery.{IsServed, accepting, handle_all_exact}
use reptile.History.{filter_min}
use reptile.Tests.{demo}

-- The defaults, with a country and two targets.
abbrev home : Config
home = record defaults {
  expected_country = codes "DE";
  targets = codes "transmission" ∷ codes "qbittorrent-nox" ∷ [];
}

home-valid : validate demo home ≡ ok tt
unfolding validate durations defaults iface_re check_targets check_target check_country
    check_expected_ip check_probe_url check_pattern check_zones check_signs has_control country_re
    trim_space eq elem contains_any
home-valid = refl

validate-IsValid_example : IsValid demo home
validate-IsValid_example = validate-IsValid demo home home-valid

-- A target that stands twice is refused.
twice-invalid : validate demo (record home { targets = codes "a" ∷ codes "a" ∷ [] }) ≡ ok tt → ⊥
unfolding validate durations defaults iface_re check_targets check_target has_control trim_space eq
    elem
twice-invalid h = cc

home-keyed :
    apply_key demo (codes "targets") (codes "rtorrent, aria2c") home
    ≡ ok (record home { targets = codes "rtorrent" ∷ codes "aria2c" ∷ [] })
unfolding apply_key set_known set_key key_of split_list split trim_space eq find_key all_keys
    key_text
home-keyed = refl

apply_key_frame_example :
    All
      (λ x. x ≡ codes "targets")
      (diff_keys home (record home { targets = codes "rtorrent" ∷ codes "aria2c" ∷ [] }))
apply_key_frame_example =
    apply_key_frame demo (codes "targets") (codes "rtorrent, aria2c") home home-keyed

-- A decoder that reads no keys, and an encoder that writes the interface.
abbrev plain : Codec
plain = record {
  decode = λ _ c. ok (record { config = c; trailing = end_of_file });
  encode = λ c. ok c.interface;
}

abbrev stored : Disk
stored = record { file = ok (codes "{}"); tmp = none; write_error = none; rename_error = none }

abbrev pairs : List Text
pairs = codes "expected_country" ∷ codes "de" ∷ codes "targets" ∷ codes "rtorrent" ∷ []

set_config_file_keys_atomic_example :
    ((c : Config)
      → (set_config_file_keys demo plain (codes "reptile.json") stored pairs).result ≡ ok c
      → IsSaved demo plain c
          (set_config_file_keys demo plain (codes "reptile.json") stored pairs).disk)
    × ((e : SetError)
        → (set_config_file_keys demo plain (codes "reptile.json") stored pairs).result ≡ err e
        → (set_config_file_keys demo plain (codes "reptile.json") stored pairs).disk.file
          ≡ stored.file)
set_config_file_keys_atomic_example =
    set_config_file_keys_atomic demo plain (codes "reptile.json") stored pairs

abbrev sink : Handler
sink = record { show_time = true; attrs = [] }

abbrev killed : Record
killed = record {
  time = codes "12:34:56";
  level = pos 4;
  message = codes "SIGTERM";
  attrs = record { key = codes "pid"; value = codes "42" } ∷ [];
}

abbrev log : List Text
log = codes "12:00:00 INFO tunnel UP" ∷ codes "12:00:10 WARN tunnel possibly DOWN" ∷ []

read_recent_events-last_example :
    read_recent_events demo (record { lines = log; error = none }) 0 (pos 1)
    ≡ ok (last 1 (filter_min (parse_events demo log) 0))
read_recent_events-last_example = read_recent_events-last demo log 0 1 (omega arith)

-- A console that takes every enabled record and a log file that is full.
abbrev two_sinks : Sinks Bool
two_sinks = record {
  enabled = λ _ level. enabled level;
  handle = λ console _. if console then none else some (codes "no space left on device");
  with_attrs = λ h _. h;
  with_group = λ h _. h;
}

handle_all_exact_example :
    (((handle_all two_sinks (true ∷ false ∷ []) killed).error ≡ none)
      ↔ All (λ h. IsServed two_sinks killed h) (true ∷ false ∷ []))
    × ((handle_all two_sinks (true ∷ false ∷ []) killed).error ≡ none
        → (handle_all two_sinks (true ∷ false ∷ []) killed).called
          ≡ accepting two_sinks killed (true ∷ false ∷ []))
    × (any_enabled two_sinks (true ∷ false ∷ []) (pos 4) ≡ false
        → (handle_all two_sinks (true ∷ false ∷ []) killed).called ≡ [])
handle_all_exact_example = handle_all_exact two_sinks (true ∷ false ∷ []) killed
