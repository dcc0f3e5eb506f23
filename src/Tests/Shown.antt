-- ===== src/Tests/Shown.antt =====
-- The table of the configuration, and the processes under /proc, on concrete inputs.
use reptile.Prelude.{◌≢◌, ◌≡◌, refl, ◌↔◌, none, true, false, List, [], ◌∷◌, All, arith, pos}
use mathlib.Core.List.{Memᴰ}
use reptile.Text.Defs.{codes, elem, has_byte}
use reptile.Config.Validate.{country_re}
use reptile.Text.Space.{trim_space}
use reptile.Text.Lists.{IsPiece}
use reptile.Result.{ok, err}
use reptile.Config.{Config, defaults}
use reptile.Config.Keys.{apply_key}
use reptile.Config.Keys.Rows.{Row, config_rows, diff_keys}
use reptile.Config.Keys.Exact.{IsPlain, diff_keys_exact}
use reptile.Config.Keys.Shown.{IsShowable, set_shown}
use reptile.Killer.{Process, System, sigterm, answered, kill_targets}
use reptile.Killer.Listing.{Entry, IsListed, list_processes, list_processes_terminates}
use reptile.Reload.{classify_reload}
use reptile.Reload.Classes.{one_rule, two_rules, rules_confused}
use reptile.Tests.{demo}
use reptile.Tests.Lifetime.{eager, eager-valid}

abbrev graced : Config
graced = record eager { kill_grace = codes "5s" }

zones_pieces : All IsPiece eager.dnsbl_zones
unfolding defaults has_byte
zones_pieces = (
  record { filled = refl; unsplit = refl },
  (record { filled = refl; unsplit = refl }, (record { filled = refl; unsplit = refl }, tt)),
)

targets_pieces : All IsPiece eager.targets
unfolding has_byte
targets_pieces = (record { filled = refl; unsplit = refl }, tt)

eager-IsPlain : IsPlain eager
unfolding defaults
eager-IsPlain = record {
  zones_plain = zones_pieces;
  targets_plain = targets_pieces;
  accepts_plain = tt;
}

graced-IsPlain : IsPlain graced
unfolding defaults
graced-IsPlain = record {
  zones_plain = zones_pieces;
  targets_plain = targets_pieces;
  accepts_plain = tt;
}

diff_keys_exact_example : diff_keys eager graced ≡ [] ↔ eager ≡ graced
diff_keys_exact_example = diff_keys_exact eager graced eager-IsPlain graced-IsPlain

-- The rule and its halves.
rules_confused_example :
    (one_rule eager (codes "tcp dport { 80") (codes " 443 } accept")
      ≢ two_rules eager (codes "tcp dport { 80") (codes " 443 } accept"))
    × (diff_keys
          (one_rule eager (codes "tcp dport { 80") (codes " 443 } accept"))
          (two_rules eager (codes "tcp dport { 80") (codes " 443 } accept"))
        ≡ [])
    × ((classify_reload (
          diff_keys (one_rule eager (codes "tcp dport { 80") (codes " 443 } accept")) (
            two_rules eager
              (codes "tcp dport { 80")
              (codes " 443 } accept")))).firewall_reload_required
        ≡ [])
rules_confused_example = rules_confused eager (codes "tcp dport { 80") (codes " 443 } accept")

eager-IsShowable : IsShowable eager
unfolding defaults trim_space country_re
eager-IsShowable = record {
  zones_items =
      ((zones_pieces.0, refl), ((zones_pieces.1.0, refl), ((zones_pieces.1.1.0, refl), tt)));
  targets_items = ((targets_pieces.0, refl), tt);
  accepts_items = tt;
  country_spelled = refl;
  ip_trimmed = refl;
  cycles_fit = omega arith;
}

set_shown_example :
    All (λ (r : Row). apply_key demo r.key r.value eager ≡ ok eager) (config_rows eager)
set_shown_example = set_shown demo eager eager-valid eager-IsShowable

-- A process, one that is gone, and a name that is no number.
abbrev entries : List Entry
entries =
    record { name = codes "42"; comm = ok (codes "aria2c\n") }
    ∷ record { name = codes "43"; comm = err (codes "no such process") }
    ∷ record { name = codes "self"; comm = ok (codes "reptile\n") }
    ∷ []

abbrev machine : System
machine = record {
  listed = list_processes (ok entries);
  relisted = ok [];
  signal = λ _ _. none;
  cancelled = false;
}

abbrev client : Process
client = record { pid = pos 42; comm = codes "aria2c" }

list_processes_terminates_example :
    Memᴰ (answered machine sigterm client) (kill_targets machine (codes "aria2c" ∷ [])).sent
    ↔ (IsListed entries client × (elem client.comm (codes "aria2c" ∷ []) ≡ true))
list_processes_terminates_example =
    list_processes_terminates machine (codes "aria2c" ∷ []) entries refl client
