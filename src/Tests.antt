-- ===== src/Tests.antt =====
-- Runs of the model on concrete inputs.
mod Watch
mod Settings
mod Network
mod Daemon
mod Wall
mod Pools
mod Machine
mod Requests
mod Lifetime
mod Confined
mod Shown
mod Launch
mod Saved
mod Surface
use reptile.Prelude.{
  ℕ, zero, suc, Bool, Option, none, some, List, [], ◌∷◌, ◌++◌, take, pos, if◌then◌else◌,
}
use reptile.Text.Defs.{Text, codes, eq, is_empty}
use reptile.Library.{Library, Regexp, Ip, v4, v6, Url}
use reptile.Result.{Result, ok, err}

abbrev skip : ℕ → Text → Text
skip zero t = t
skip (suc n) [] = []
skip (suc n) (c ∷ t) = skip n t

abbrev demo_submatch : Regexp → Text → List Text
demo_submatch re t = t ∷ (if eq re.pattern (codes "C") then take 2 t else skip 3 t) ∷ []

abbrev demo_ip : Text → Option Ip
demo_ip s =
    if eq s (codes "1.2.3.4")
    then some (v4 1 2 3 4)
    else if eq s (codes "127.0.0.2")
    then some (v4 127 0 0 2)
    else none

abbrev demo_address : Ip → Text
demo_address (v4 _ _ _ _) = codes "1.2.3.4"
demo_address (v6 s) = s

-- A pattern "C" matches the first two bytes of a text, any other what follows the third; every
-- duration that is not empty is a second.
abbrev pub demo : Library
demo = record {
  compile = λ p. ok (record { pattern = p });
  num_subexp = λ _. 1;
  find_submatch = demo_submatch;
  parse_url = λ u. ok (record { scheme = codes "https"; host = u });
  parse_request_uri = λ u. ok (record { scheme = codes "https"; host = u });
  parse_duration = λ s. if is_empty s then err s else ok (pos 1_000_000_000);
  duration_string = λ _. codes "1s";
  sprintf = λ t. t;
  parse_ip = demo_ip;
  ip_string = demo_address;
  split_host_port = λ s. ok (s, []);
  quote = λ s. b'"' ∷ (s ++ b'"' ∷ []);
  upper_wide = λ s. s;
}
