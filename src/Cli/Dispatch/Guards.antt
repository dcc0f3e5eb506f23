-- ===== src/Cli/Dispatch/Guards.antt =====
-- The daemon and the check run with a configuration that was loaded and validated.
use reptile.Prelude.{
  ◌≡◌, refl, ap, ◌∙◌, inl, inr, ◌||◌, Option, none, some, List, arith, Bool-cases,
}
use reptile.Text.Defs.{Text, codes, eq}
use reptile.Library.{Library}
use reptile.Result.{ok, Result-cases}
use reptile.Config.{Config}
use reptile.Config.Validate.{validate}
use reptile.Config.File.{Codec, Disk, load_config}
use reptile.Cli.Dispatch.{
  Command, daemon, check, override_interface, must_validate, with_config, loaded, sub_command,
  dispatch, run,
}

-- The configuration that the daemon or the check is run with.
unfoldable pub acts_on : Command → Option Config
acts_on (daemon c) = some c
acts_on (check c) = some c
acts_on _ = none

must_validate-valid :
    (lib : Library) (f : Config → Command) (c : Config) {d : Config}
    → acts_on (f c) ≡ some c
    → acts_on (must_validate lib f c) ≡ some d
    → (d ≡ c) × (validate lib c ≡ ok tt)
unfolding must_validate acts_on
must_validate-valid lib f c acts h = elim (Result-cases (validate lib c)) [
  | inl (e, bad) ↦ absurd (ground (arith, h, bad))
  | inr (u, good) ↦ let same = rw (good, must_validate) at h in (ground (arith, same, acts), good)
]

with_config-valid :
    (lib : Library) (sub : Text) (args : List Text) (c : Config) {d : Config}
    → acts_on (with_config lib sub args c) ≡ some d
    → (d ≡ c) × (validate lib c ≡ ok tt)
unfolding with_config acts_on
with_config-valid lib sub args c h =
    elim (Bool-cases (eq sub (codes "standby") || eq sub (codes "daemon"))) [
      | inl on ↦ must_validate-valid lib daemon c refl (rw on at h)
      | inr off ↦ elim (Bool-cases (eq sub (codes "check"))) [
        | inl on ↦ must_validate-valid lib check c refl (rw (off, on) at h)
        | inr not_check ↦ absurd (ground (arith, h, off, not_check))
      ]
    ]

-- The daemon and the check are run only with the configuration of the file, with the interface
-- that the flag names, and only if it is valid.
pub run_validates :
    (lib : Library) (codec : Codec) (path : Text) (disk : Disk) (flag : Text) (args : List Text)
    {d : Config}
    → acts_on (run lib codec path disk flag args) ≡ some d
    → (c : Config) × (load_config lib codec path disk ≡ ok c)
      × (d ≡ override_interface flag c)
      × (validate lib d ≡ ok tt)
unfolding run dispatch loaded acts_on
run_validates lib codec path disk flag args h =
    let (sub, rest) = sub_command args in
    elim (Bool-cases (eq sub (codes "install"))) [
      | inl on ↦ absurd (ground (arith, h, on))
      | inr off ↦ elim (Bool-cases (eq sub (codes "version"))) [
        | inl on ↦ absurd (ground (arith, h, off, on))
        | inr late ↦ elim (Result-cases (load_config lib codec path disk)) [
          | inl (e, bad) ↦ absurd (ground (arith, h, off, late, bad))
          | inr (c, good) ↦
              let (same, valid) =
                with_config-valid lib sub rest (override_interface flag c)
                  (rw (off, late, good, loaded) at h) in
              (c, good, same, ap (validate lib) same ∙ valid)
        ]
      ]
    ]
