-- ===== src/Egress/Dialer.antt =====
-- `ifaceDialer` of internal/app/dial_linux.go and of internal/app/dial_other.go, and the transport
-- of `client` in internal/app/egress.go.
use reptile.Prelude.{◌≡◌, Bool, true, Option, none, some, ℤ, if◌then◌else◌}
use reptile.Text.Defs.{Text, is_empty}
use reptile.Egress.{Client}

-- `net.Resolver` with a `Dial` of its own: the dialer of its connections.
pub record Resolver : Type 0 where
  pub prefer_go : Bool
  pub timeout : ℤ
  pub control : Option Text

-- `net.Dialer`: `control` is the interface that its sockets are bound to.
pub record Dialer : Type 0 where
  pub timeout : ℤ
  pub control : Option Text
  pub resolver : Option Resolver

abbrev pub plain_dialer : ℤ → Dialer
plain_dialer timeout = record { timeout = timeout; control = none; resolver = none }

-- `ifaceDialer` on Linux
unfoldable pub iface_dialer : Text → ℤ → Dialer
iface_dialer iface timeout = if is_empty iface then plain_dialer timeout else record {
  timeout = timeout;
  control = some iface;
  resolver = some (record { prefer_go = true; timeout = timeout; control = some iface });
}

-- `ifaceDialer` elsewhere
unfoldable pub other_dialer : Text → ℤ → Dialer
other_dialer iface timeout = plain_dialer timeout

-- The function `bind`: the error of `Control`, else that of `SetsockoptString`.
unfoldable pub bind : Option Text → Option Text → Option Text
bind (some e) socket = some e
bind none socket = socket

-- The dialer of a client's transport.
abbrev pub dialer_of : Client → Dialer
dialer_of c = iface_dialer c.iface c.timeout

-- Each socket is bound to the interface, those that resolve a name too.
pub record IsConfined (iface : Text) (d : Dialer) : Type 0 where
  pub dials : d.control ≡ some iface
  pub names : Resolver
  pub resolves : d.resolver ≡ some names
  pub asks : names.control ≡ some iface
