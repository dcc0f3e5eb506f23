-- ===== src/Firewall.antt =====
-- `parseEndpoints` and `isPort` of internal/app/firewall.go, over the lines of a file.
pub mod Endpoints
pub mod Nft
use reptile.Prelude.{
  ℕ, ◌+◌, ◌*◌, ◌-◌, Bool, true, false, not, ◌&&◌, ◌||◌, Option, none, some, List, [], ◌∷◌, ◌++◌,
  length, leb, ltb, ◌==◌, if◌then◌else◌,
}
use reptile.Text.Defs.{Text, codes, eq, elem, is_empty, upper_ascii}
use reptile.Text.Space.{trim_space}
use reptile.Text.Number.{is_digit}
use reptile.Library.{Library, Ip}
use reptile.Result.{Result, ok, err, wrap, ◌>>=◌}

-- `endpoint`
pub record Endpoint : Type 0 where
  pub ip : Ip
  pub port : Text

-- `\s` of a regular expression
pattern_space : ℕ → Bool
pattern_space c = c == b' ' || c == b'\t' || c == b'\n' || c == 0x0c || c == b'\r'

skip_space : Text → Text
unfolding pattern_space
skip_space [] = []
skip_space (c ∷ cs) = elim (pattern_space c) [ true ↦ skip_space cs | false ↦ c ∷ cs ]

-- What follows a word, in any case; the word is written in capitals.
after_word : Text → Text → Option Text
after_word [] s = some s
after_word (_ ∷ _) [] = none
after_word (w ∷ ws) (c ∷ cs) = if eq (upper_ascii (c ∷ [])) (w ∷ []) then after_word ws cs else none

-- What follows "=", if anything does.
after_equals : Text → Option Text
after_equals (c ∷ d ∷ cs) = if c == b'=' then some (d ∷ cs) else none
after_equals _ = none

value_after : Option Text → Option Text
value_after none = none
value_after (some s) = after_equals (skip_space s)

-- The match of `(?i)^\s*Endpoint\s*=\s*(.+)$` on a line, trimmed: trimming removes all that the
-- third `\s*` can.
unfoldable pub endpoint_value : Text → Option Text
unfolding skip_space after_word after_equals value_after
endpoint_value line = elim (value_after (after_word (codes "ENDPOINT") (skip_space line))) [
  | none ↦ none
  | some rest ↦ some (trim_space rest)
]

-- The loop of `isPort`: the number, unless there is another byte than a digit.
unfoldable pub port_number : ℕ → Text → Option ℕ
port_number n [] = some n
port_number n (c ∷ cs) = elim (is_digit c) [
  | true ↦ port_number (n * 10 + (c - b'0')) cs
  | false ↦ none
]

port_range : Option ℕ → Bool
port_range none = false
port_range (some n) = leb 1 n && leb n 65535

-- `isPort`
unfoldable pub is_port : Text → Bool
unfolding port_range
is_port s = if is_empty s || ltb 5 (length s) then false else port_range (port_number 0 s)

pub data EndpointError : Type 0 where
  not_opened : Text → EndpointError
  invalid : ℕ → Text → EndpointError
  hostname : ℕ → Text → EndpointError
  not_read : Text → EndpointError
  none_found : EndpointError

-- The address of a host that is a literal.
unfoldable pub literal : ℕ → Text → Text → Option Ip → Result EndpointError Endpoint
literal n raw port none = err (hostname n raw)
literal n raw port (some ip) = ok (record { ip = ip; port = port })

unfoldable pub with_port :
    Library → ℕ → Text → Result Text (Text × Text) → Result EndpointError Endpoint
with_port lib n raw (err _) = err (invalid n raw)
with_port lib n raw (ok (host, port)) =
    if not (is_port port) then err (invalid n raw) else literal n raw port (lib.parse_ip host)

-- The endpoint of a matching line.
unfoldable pub endpoint_of : Library → ℕ → Text → Result EndpointError Endpoint
endpoint_of lib n raw = with_port lib n raw (lib.split_host_port raw)

-- `ip.String() + ":" + port`
abbrev pub key_of : Library → Endpoint → Text
key_of lib ep = lib.ip_string ep.ip ++ (b':' ∷ ep.port)

-- `endpoints = append(endpoints, ...)`, unless the key was seen
unfoldable pub add_new : Library → Endpoint → List Endpoint → List Endpoint
add_new lib ep [] = ep ∷ []
add_new lib ep (e ∷ es) =
    if eq (key_of lib e) (key_of lib ep) then e ∷ es else e ∷ add_new lib ep es

-- The loop over the lines; the keys that were seen are those of the endpoints found.
unfoldable pub scan_lines :
    Library → ℕ → List Endpoint → List Text → Result EndpointError (List Endpoint)
scan_lines lib n found [] = ok found
scan_lines lib n found (l ∷ ls) = elim (endpoint_value l) [
  | none ↦ scan_lines lib (n + 1) found ls
  | some raw ↦ endpoint_of lib n raw >>= λ ep. scan_lines lib (n + 1) (add_new lib ep found) ls
]

-- A file: an error of its opening, or the lines that the scanner delivers and its error.
pub record Lines : Type 0 where
  pub lines : List Text
  pub error : Option Text

unfoldable pub read_end : Option Text → List Endpoint → Result EndpointError (List Endpoint)
read_end (some e) found = err (not_read e)
read_end none found = if is_empty found then err none_found else ok found

-- `parseEndpoints`
unfoldable pub parse_endpoints : Library → Result Text Lines → Result EndpointError (List Endpoint)
parse_endpoints lib file = do
  f ← wrap not_opened file
  found ← scan_lines lib 1 [] f.lines
  read_end f.error found
