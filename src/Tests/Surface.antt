-- ===== src/Tests/Surface.antt =====
-- The command line and the firewall on concrete inputs.
use reptile.Prelude.{
  ℕ, ◌≡◌, refl, ◌↔◌, ◌⊎◌, Bool, false, true, none, some, List, [], ◌∷◌, pos, if◌then◌else◌,
}
use reptile.Text.Defs.{Text, codes, eq, elem, contains_any, is_empty, upper_ascii}
use reptile.Text.Space.{trim_space, leading_space}
use reptile.Text.Split.{split, fields}
use reptile.Text.Number.{is_digit}
use reptile.Library.{Library}
use reptile.Result.{ok, err}
use reptile.Config.{Config, defaults, durations}
use reptile.Config.Validate.{
  validate, iface_re, has_control, check_target, check_targets, check_country, country_re,
  check_expected_ip, check_probe_url, check_pattern, check_zones, check_signs,
}
use reptile.Config.File.{Codec, Disk, end_of_file}
use reptile.Tunnel.{Host, seconds}
use reptile.Tunnel.Liveness.{IsLive}
use reptile.Egress.{Net, response}
use reptile.Egress.Sound.{IsProven}
use reptile.Agent.{Wire, failure}
use reptile.Firewall.{
  Endpoint, Lines, endpoint_value, is_port, port_number, literal, with_port, endpoint_of, add_new,
  scan_lines, read_end, parse_endpoints,
}
use reptile.Firewall.Endpoints.{IsLetThrough}
use reptile.Firewall.Nft.{
  Nft, any_table, listing_shows, table_present, verify, after_load, load_over, apply_ruleset,
  engage, run_firewall,
}
use mathlib.Core.List.{Memᴰ}
use reptile.Firewall.Nft.Rules.{Rule, table_text, IsAllowed}
use reptile.Firewall.Nft.Engaged.{IsReplaced, run_firewall_engaged}
use reptile.Cli.{Checkers, build_checkers, run_check}
use reptile.Cli.Verdict.{run_check_zero_iff}
use reptile.Cli.Settings.{Words, config_set}
use reptile.Cli.Settings.Saves.{Tells, config_set-Tells}
use reptile.Install.{Env, Flags, run_install}
use reptile.Install.Order.{IsOrderly, run_install-IsOrderly}
use reptile.Tests.{demo}

abbrev one_host : Library
one_host = record demo { split_host_port = λ _. ok (codes "1.2.3.4", codes "51820") }

abbrev peer : Lines
peer = record { lines = codes "Endpoint = 1.2.3.4:51820" ∷ []; error = none }

-- A kernel that knows only whether the table is there.
abbrev plain_nft : Nft Bool
plain_nft = record {
  list_tables = λ on. ok (if on then codes "table inet reptile\n" else []);
  load = λ _ _. (none, true);
  delete_table = λ _. (none, false);
}

engaged : (run_firewall one_host plain_nft defaults (ok peer) (codes "up") false).result ≡ ok tt
unfolding run_firewall engage parse_endpoints scan_lines endpoint_value endpoint_of with_port
    literal add_new read_end is_port port_number is_digit eq upper_ascii trim_space apply_ruleset
    load_over after_load verify table_present listing_shows any_table split fields leading_space
engaged = refl

run_firewall_engaged_example :
    (eps : List Endpoint) × IsLetThrough one_host peer.lines eps
    × (rules : List Rule) × ((r : Rule)
        → Memᴰ r rules ↔ IsAllowed defaults.interface eps defaults.extra_accept r)
    × IsReplaced plain_nft
        (table_text one_host rules)
        false
        (run_firewall one_host plain_nft defaults (ok peer) (codes "up") false).kernel
run_firewall_engaged_example = run_firewall_engaged one_host plain_nft defaults peer false engaged

abbrev home : Config
home = record defaults { expected_country = codes "DE"; targets = codes "transmission" ∷ [] }

home-valid : validate demo home ≡ ok tt
unfolding validate durations defaults iface_re check_targets check_target check_country
    check_expected_ip check_probe_url check_pattern check_zones check_signs has_control country_re
    trim_space eq elem contains_any
home-valid = refl

abbrev host : Host
host = record { wg_dump = λ _ _. ok (codes "k\tp\t-\t0.0.0.0/0\t100\t1\t2\toff\n"); now = 100 }

abbrev answering : Net
answering = record {
  fetch = λ _ _. response 200 (record { bytes = codes "DE 1.2.3.4"; error = none });
  lookup_host = λ q. err q;
  now = 7;
}

run_check_zero_iff_example :
    (k : Checkers) × (ns : ℕ) × (build_checkers demo home ≡ ok k)
    × (demo.parse_duration home.max_handshake_age ≡ ok (pos ns))
    × (((run_check demo host answering home).code ≡ 0) ↔ (
        IsLive
          (host.wg_dump
            (if is_empty home.ping_target then none else some home.ping_target)
            home.interface)
          host.now
          (seconds ns)
        × ((home.verify_egress ≡ false) ⊎ IsProven demo answering k.egress)))
run_check_zero_iff_example = run_check_zero_iff demo host answering home home-valid

-- A decoder that reads no keys, and an agent that does not answer.
abbrev plain : Codec
plain = record {
  decode = λ _ c. ok (record { config = c; trailing = end_of_file });
  encode = λ c. ok c.interface;
}

abbrev mute : Wire
mute = record {
  encode_request = λ cmd. cmd;
  decode_request = λ bytes. ok bytes;
  encode_response = λ _. [];
  decode_response = λ t. ok (failure t);
  rfc3339 = λ _. [];
}

abbrev words : Words
words = record { load_text = λ _. codes "unreadable"; set_text = λ _. codes "not set" }

abbrev stored : Disk
stored = record { file = ok (codes "{}"); tmp = none; write_error = none; rename_error = none }

abbrev pairs : List Text
pairs = codes "expected_country" ∷ codes "de" ∷ codes "targets" ∷ codes "rtorrent" ∷ []

config_set-Tells_example :
    Tells demo plain mute words
      (λ _ b. err b)
      stored
      (config_set demo plain mute words (λ _ b. err b) (codes "reptile.json") stored pairs)
config_set-Tells_example =
    config_set-Tells demo plain mute words (λ _ b. err b) (codes "reptile.json") stored pairs

-- A system that grants everything, on which nothing is installed.
abbrev blank : Env
blank = record {
  geteuid = 0;
  executable = ok (codes "/tmp/reptile");
  asset = λ name. ok name;
  exists = λ _ _. false;
  answer = λ _ _. none;
  path = λ root _. root;
}

abbrev at_root : Flags
at_root = record { root = codes "/"; no_activate = false }

run_install-IsOrderly_example : IsOrderly blank at_root (run_install blank (some at_root))
run_install-IsOrderly_example = run_install-IsOrderly blank at_root
