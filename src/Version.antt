-- ===== src/Version.antt =====
-- internal/app/version.go. What the linker stamped, the platform and what the toolchain embedded are
-- arguments.
use reptile.Prelude.{
  ◌≡◌, refl, false, not, ◌&&◌, Option, none, some, List, [], ◌∷◌, ◌++◌, take, arith, if◌then◌else◌,
}
use reptile.Text.Defs.{Text, codes, eq, is_empty}
use reptile.Cli.{Exit, fails}

pub record BuildInfo : Type 0 where
  pub version : Text
  pub commit : Text
  pub date : Text
  pub goos : Text
  pub goarch : Text
  pub go_version : Text

-- `debug.BuildSetting`
pub record Setting : Type 0 where
  pub key : Text
  pub value : Text

-- `debug.BuildInfo`
pub record Embedded : Type 0 where
  pub main_version : Text
  pub settings : List Setting

abbrev pub module_version : Text → BuildInfo → BuildInfo
module_version v bi =
    if eq bi.version (codes "dev") && not (is_empty v) && not (eq v (codes "(devel)"))
    then record bi { version = v }
    else bi

-- The `switch` on a setting's key; a revision is cut to twelve bytes.
unfoldable pub apply_setting : Setting → BuildInfo → BuildInfo
apply_setting s bi =
    if eq s.key (codes "vcs.revision")
    then (if is_empty s.value then bi else record bi { commit = take 12 s.value })
    else if eq s.key (codes "vcs.time")
    then record bi { date = s.value }
    else if eq s.key (codes "vcs.modified")
    then (if eq s.value (codes "true")
        then record bi { commit = bi.commit ++ codes "-dirty" }
        else bi)
    else bi

unfoldable pub apply_settings : List Setting → BuildInfo → BuildInfo
apply_settings [] bi = bi
apply_settings (s ∷ ss) bi = apply_settings ss (apply_setting s bi)

-- `GetBuildInfo`; `stamped` holds the variables of the linker and of package `runtime`.
unfoldable pub get_build_info : BuildInfo → Option Embedded → BuildInfo
get_build_info stamped none = stamped
get_build_info stamped (some info) =
    let bi = module_version info.main_version stamped in
    if eq bi.commit (codes "unknown") then apply_settings info.settings bi else bi

abbrev pub key_line : Text → Text → Text
key_line k v = k ++ (b'=' ∷ (v ++ b'\n' ∷ []))

-- What `RenderVersion` writes.
unfoldable pub render_version : BuildInfo → Text
render_version bi =
    key_line (codes "version") bi.version
    ++ (key_line (codes "commit") bi.commit
        ++ (key_line (codes "date") bi.date
            ++ (key_line (codes "goos") bi.goos
                ++ (key_line (codes "goarch") bi.goarch ++ key_line (codes "go") bi.go_version))))

-- `runVersion`, of an error that the standard output gives.
unfoldable pub run_version : BuildInfo → Option Embedded → Option Text → Exit
run_version stamped embedded (some e) = fails 1 (codes "render: " ++ e) []
run_version stamped embedded none = record {
  code = 0;
  printed = render_version (get_build_info stamped embedded);
  lines = [];
}

-- A build whose commit was stamped keeps its commit and date, and its version unless that is "dev".
get_build_info_stamped :
    (stamped : BuildInfo) (embedded : Option Embedded)
    → eq stamped.commit (codes "unknown") ≡ false
    → ((get_build_info stamped embedded).commit ≡ stamped.commit)
      × ((get_build_info stamped embedded).date ≡ stamped.date)
      × (eq stamped.version (codes "dev") ≡ false
          → (get_build_info stamped embedded).version ≡ stamped.version)
unfolding get_build_info
get_build_info_stamped s none h = (refl, refl, λ _. refl)
get_build_info_stamped s (some info) h =
    (ground (arith, h), ground (arith, h), λ v. ground (arith, h, v))
