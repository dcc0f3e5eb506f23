-- ===== src/Tests/Wall.antt =====
-- The endpoints of a WireGuard configuration on concrete lines.
use reptile.Prelude.{none, [], ◌∷◌}
use reptile.Text.Defs.{codes}
use reptile.Library.{Library, v4}
use reptile.Result.{ok}
use reptile.Firewall.{Endpoint, Lines}
use reptile.Tests.{demo}

-- A library whose only host and port are these.
abbrev one_host : Library
one_host = record demo { split_host_port = λ _. ok (codes "1.2.3.4", codes "51820") }

abbrev peer : Lines
peer = record {
  lines =
      codes "[Peer]" ∷ codes "  endpoint = 1.2.3.4:51820 " ∷ codes "Endpoint=1.2.3.4:51820" ∷ [];
  error = none;
}

abbrev server : Endpoint
server = record { ip = v4 1 2 3 4; port = codes "51820" }
