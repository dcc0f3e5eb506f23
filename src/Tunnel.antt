-- ===== src/Tunnel.antt =====
-- internal/app/tunnel.go: is the tunnel alive at the transport level?
pub mod Handshake
pub mod Liveness
pub mod Commands
use reptile.Prelude.{
  ℕ, zero, suc, ◌+◌, ◌-◌, ◌/◌, ◌%◌, ◌*◌, ◌^◌, leb, Bool, true, false, not, Option, none, some, List,
  [], ◌∷◌, ◌++◌, length, ltb, ◌==◌, if◌then◌else◌, ℤ, pos, negsuc, sub_ℕ, ltb_ℤ,
}
use reptile.Text.Defs.{Text, codes, is_empty}
use reptile.Text.Space.{trim_space}
use reptile.Text.Split.{split}
use reptile.Text.Number.{parse_int, itoa}
use reptile.Library.{Library}
use reptile.Result.{Result, ok, err, wrap, ◌>>=◌}
use reptile.Config.{Config, KeyError, at_key}

-- `f[4]`, for a line of at least five fields
fifth : List Text → Option Text
fifth (_ ∷ _ ∷ _ ∷ _ ∷ f ∷ _) = some f
fifth _ = none

seconds_of : Option Text → Option ℤ
seconds_of none = none
seconds_of (some f) = parse_int (trim_space f)

-- The handshake of a line; `none` for a line that is skipped.
unfoldable pub peer_handshake : Text → Option ℤ
unfolding fifth seconds_of
peer_handshake line = seconds_of (fifth (split b'\t' line))

-- `if ts > latest { latest = ts }`, where `latest` is never negative
newer : ℕ → Option ℤ → ℕ
newer latest (some (pos ts)) = if ltb latest ts then ts else latest
newer latest _ = latest

scan_peers : ℕ → List Text → ℕ
scan_peers latest [] = latest
scan_peers latest (line ∷ lines) = scan_peers (newer latest (peer_handshake line)) lines

-- `parseLatestHandshake`
unfoldable pub parse_latest_handshake : Text → ℕ
unfolding scan_peers newer
parse_latest_handshake dump = scan_peers 0 (split b'\n' dump)

-- `TunnelChecker`
pub record Checker : Type 0 where
  pub iface : Text
  pub max_age : ℤ
  pub ping_target : Text

-- `Apply`
unfoldable pub apply : Library → Config → Checker → Result KeyError Checker
apply lib c t = do
  age ← wrap (at_key (codes "max_handshake_age")) (lib.parse_duration c.max_handshake_age)
  ok (record t { max_age = age; ping_target = c.ping_target })

-- What a check meets: the host after an optional `ping`, the answer of `wg show`, the clock in
-- Unix seconds.
pub record Host : Type 0 where
  -- `wg show <iface> dump`, after a ping of the target if there is one
  pub wg_dump : Option Text → Text → Result Text Text
  pub now : ℕ

pub record Verdict : Type 0 where
  pub passed : Bool
  pub reason : Text

-- The largest power of two that is at most `sec`, for `0 < sec < 2 ^ suc k`.
unfoldable pub binade : ℕ → ℕ → ℕ
binade zero sec = 1
binade (suc k) sec = let below = binade k sec in if leb (2 ^ suc k) sec then 2 ^ suc k else below

-- Does `float64(sec) + float64(nsec)/1e9` come to `sec + 1`? A float64 has 53 bits, so the sum does
-- if it is nearer to it than 2^-53 of the largest power of two in `sec`. A duration is below 2^63
-- nanoseconds, so `sec` is below 2^34.
unfoldable pub rounds_up : ℕ → ℕ → Bool
unfolding binade
rounds_up sec nsec =
    leb ((1_000_000_000 - nsec) * 9_007_199_254_740_992) (1_000_000_000 * binade 33 sec)

-- `int64(d.Seconds())` of a duration that is not negative
unfoldable pub seconds : ℕ → ℕ
unfolding rounds_up
seconds ns =
    let sec = ns / 1_000_000_000 in if rounds_up sec (ns % 1_000_000_000) then sec + 1 else sec

-- `int64(d.Seconds())`, towards zero
unfoldable pub whole_seconds : ℤ → ℤ
whole_seconds (pos ns) = pos (seconds ns)
whole_seconds (negsuc ns) = sub_ℕ 0 (seconds (suc ns))

too_old : ℤ → ℤ → Text
too_old age limit =
    codes "handshake " ++ (itoa age ++ (codes "s old (max " ++ (itoa limit ++ codes "s)")))

-- Both numbers are below 2^63, so their difference does not wrap.
judge_age : ℤ → ℤ → Verdict
unfolding too_old
judge_age age limit =
    if ltb_ℤ limit age
    then record { passed = false; reason = too_old age limit }
    else record { passed = true; reason = [] }

unfoldable pub judge_dump : ℕ → ℤ → Result Text Text → Verdict
unfolding judge_age
judge_dump now max_age (err e) = record {
  passed = false;
  reason = codes "wg show failed (interface missing or not a WireGuard device)";
}
judge_dump now max_age (ok dump) =
    let latest = parse_latest_handshake dump in
    if latest == 0
    then record { passed = false; reason = codes "no handshake recorded" }
    else judge_age (sub_ℕ now latest) (whole_seconds max_age)

-- `Check`
unfoldable pub check : Host → Checker → Verdict
unfolding judge_dump
check h t =
    judge_dump h.now t.max_age
      (h.wg_dump (if is_empty t.ping_target then none else some t.ping_target) t.iface)
