-- ===== src/Console.antt =====
-- internal/app/handler.go: the log handler of the console and of the log file.
pub mod RoundTrip
pub mod Fanout
use reptile.Prelude.{
  ℕ, Bool, true, false, not, Option, none, some, List, [], ◌∷◌, ◌++◌, if◌then◌else◌, ℤ, pos, negsuc,
  ltb_ℤ, leb_ℤ,
}
use reptile.Text.Defs.{Text, codes, contains_any}
use reptile.Library.{Library}

-- `slog.Attr`, its value resolved and printed
pub record Attr : Type 0 where
  pub key : Text
  pub value : Text

-- `slog.Record`; the time is printed by `Format("15:04:05")`.
pub record Record : Type 0 where
  pub time : Text
  pub level : ℤ
  pub message : Text
  pub attrs : List Attr

-- `slog.LevelInfo`, `LevelWarn`, `LevelError`
abbrev pub level_info : ℤ
level_info = pos 0

abbrev pub level_warn : ℤ
level_warn = pos 4

abbrev pub level_error : ℤ
level_error = pos 8

-- `consoleHandler`, without its writer and its mutex
pub record Handler : Type 0 where
  pub show_time : Bool
  pub attrs : List Attr

unfoldable pub enabled : ℤ → Bool
enabled level = leb_ℤ level_info level

-- The level, in six columns.
unfoldable pub level_column : ℤ → Text
level_column level =
    if ltb_ℤ level level_info
    then codes "DEBUG "
    else if ltb_ℤ level level_warn
    then codes "INFO  "
    else if ltb_ℤ level level_error
    then codes "WARN  "
    else codes "ERROR "

-- `appendAttr`
unfoldable pub attr_text : Library → Attr → Text
attr_text lib a =
    b' '
    ∷ (a.key
        ++ (b'=' ∷ (if contains_any a.value (codes " \t\"") then lib.quote a.value else a.value)))

unfoldable pub attrs_text : Library → List Attr → Text
unfolding attr_text
attrs_text lib [] = []
attrs_text lib (a ∷ as') = attr_text lib a ++ attrs_text lib as'

-- The message and the attributes, the handler's before the record's.
unfoldable pub body : Library → Handler → Record → Text
body lib h r = r.message ++ (attrs_text lib h.attrs ++ attrs_text lib r.attrs)

-- The line that `Handle` writes, without its newline.
unfoldable pub line : Library → Handler → Record → Text
line lib h r =
    (if h.show_time then r.time ++ b' ' ∷ [] else []) ++ (level_column r.level ++ body lib h r)

-- `Handle`: what is written, if anything.
unfoldable pub handle : Library → Handler → Record → Text
unfolding line body enabled
handle lib h r = if not (enabled r.level) then [] else line lib h r ++ b'\n' ∷ []

-- `WithAttrs` and `WithGroup`
unfoldable pub with_attrs : Handler → List Attr → Handler
with_attrs h more = record h { attrs = h.attrs ++ more }

unfoldable pub with_group : Handler → Text → Handler
with_group h name = h
