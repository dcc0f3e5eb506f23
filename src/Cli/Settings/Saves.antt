-- ===== src/Cli/Settings/Saves.antt =====
-- The exit code of `reptile config set` and the file.
use reptile.Prelude.{◌≡◌, ◌≢◌, refl, ◌⊎◌, inl, inr, List, arith, Bool-cases}
use reptile.Text.Defs.{Text, is_empty}
use reptile.Library.{Library}
use reptile.Result.{Result, ok, err, Result-cases}
use reptile.Config.{Config}
use reptile.Config.File.{Codec, Disk, LoadError, load_config, set_config_file_keys}
use reptile.Config.File.Atomic.{IsSaved, set_config_file_keys_atomic}
use reptile.Agent.{Wire}
use reptile.Cli.Settings.{Ran, Words, after_set, set_loaded, config_set}

module _ (lib : Library) (codec : Codec) (wire : Wire) (words : Words)
    (exchange : Text → Text → Result Text Text) where
  -- The exit code tells whether the file holds a new valid configuration or what it held before.
  abbrev pub Tells : Disk → Ran → Type 0
  Tells disk r =
      ((r.exit.code ≡ 0) × ((fresh : Config) × IsSaved lib codec fresh r.disk))
      ⊎ ((r.exit.code ≢ 0) × (r.disk.file ≡ disk.file))

  set_loaded-Tells :
      (path : Text) (disk : Disk) (pairs : List Text) (r : Result LoadError Config)
      → Tells disk (set_loaded lib codec wire words exchange path disk pairs r)
  unfolding set_loaded after_set
  set_loaded-Tells path disk pairs (err e) = inr (λ z. ground (arith, z), refl)
  set_loaded-Tells path disk pairs (ok current) =
      let s = set_config_file_keys lib codec path disk pairs in
      let (saved, kept) = set_config_file_keys_atomic lib codec path disk pairs in
      elim (Result-cases s.result) [
        | inl (e, bad) ↦ rw (bad, after_set) (inr (λ z. ground (arith, z), kept e bad))
        | inr (fresh, good) ↦ rw (good, after_set) (inl (refl, (fresh, saved fresh good)))
      ]

  -- `reptile config set` exits with 0 exactly if the file then holds a valid configuration that it
  -- saved, whatever the agent answers; with another code the file is as it was.
  pub config_set-Tells :
      (path : Text) (disk : Disk) (pairs : List Text)
      → Tells disk (config_set lib codec wire words exchange path disk pairs)
  unfolding config_set
  config_set-Tells path disk pairs = elim (Bool-cases (is_empty pairs)) [
    | inl nothing ↦ rw nothing (inr (λ z. ground (arith, z), refl))
    | inr some_pair ↦
        rw some_pair (set_loaded-Tells path disk pairs (load_config lib codec path disk))
  ]
