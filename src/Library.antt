-- ===== src/Library.antt =====
-- What the program calls in Go's standard library and does not implement: regular expressions,
-- URLs, durations, IP addresses, formats, JSON and the case tables of Unicode. They are parameters.
use reptile.Prelude.{ℕ, Option, List, ℤ, if◌then◌else◌}
use reptile.Text.Defs.{Text, is_ascii, upper_ascii}
use reptile.Result.{Result}

-- `*regexp.Regexp`: a compiled pattern.
pub record Regexp : Type 0 where
  pub pattern : Text

-- `net.IP`, by whether `To4` is nil.
pub data Ip : Type 0 where
  v4 : ℕ → ℕ → ℕ → ℕ → Ip
  v6 : Text → Ip

-- The fields of `*url.URL` that are read.
pub record Url : Type 0 where
  pub scheme : Text
  pub host : Text

pub record Library : Type 0 where
  -- `regexp.Compile`, `Regexp.NumSubexp`, `Regexp.FindStringSubmatch` (nil is the empty list)
  pub compile : Text → Result Text Regexp
  pub num_subexp : Regexp → ℕ
  pub find_submatch : Regexp → Text → List Text
  -- `url.Parse`, `url.ParseRequestURI`
  pub parse_url : Text → Result Text Url
  pub parse_request_uri : Text → Result Text Url
  -- `time.ParseDuration`, in nanoseconds
  pub parse_duration : Text → Result Text ℤ
  -- `Duration.String`
  pub duration_string : ℤ → Text
  -- `net.ParseIP` (nil is `none`), `IP.String`, `net.SplitHostPort`
  pub parse_ip : Text → Option Ip
  pub ip_string : Ip → Text
  pub split_host_port : Text → Result Text (Text × Text)
  -- `fmt.Sprintf` of a format and no arguments
  pub sprintf : Text → Text
  -- `strconv.Quote`
  pub quote : Text → Text
  -- `strings.ToUpper` of a text that is not ASCII
  pub upper_wide : Text → Text

-- `strings.ToUpper`
unfoldable pub to_upper : Library → Text → Text
unfolding is_ascii upper_ascii
to_upper lib s = if is_ascii s then upper_ascii s else lib.upper_wide s
