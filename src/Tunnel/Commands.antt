-- ===== src/Tunnel/Commands.antt =====
-- The commands of `Check` in internal/app/tunnel.go, as `ExecRunner` is given them. What a command
-- prints, and what it does to the host, is the argument `Runner`.
use reptile.Prelude.{
  ℕ, ◌≡◌, refl, sym, ap, ◌∙◌, subst, ◌↔◌, pos, inl, inr, true, none, some, List, [], ◌∷◌, ◌++◌,
  Bool-cases, All, if◌then◌else◌,
}
use mathlib.Core.List.Memᴰ.{append_right}
use mathlib.Core.List.{Memᴰ}
use reptile.Text.Defs.{Text, codes, is_empty}
use reptile.Result.{Result}
use reptile.Tunnel.Liveness.{IsLive, check_passes_iff}
use reptile.Tunnel.{Checker, Host, Verdict, seconds, check, judge_dump}

-- `Runner`: a command with its arguments, over a host of any type.
pub record Runner (W : Type 0) : Type 0 where
  pub run : List Text → W → Result Text Text × W

unfoldable pub ping_command : Text → Text → List Text
ping_command iface target =
    codes "ping"
    ∷ codes "-n"
    ∷ codes "-q"
    ∷ codes "-c"
    ∷ codes "1"
    ∷ codes "-W"
    ∷ codes "2"
    ∷ codes "-I"
    ∷ iface
    ∷ target
    ∷ []

unfoldable pub show_command : Text → List Text
show_command iface = codes "wg" ∷ codes "show" ∷ iface ∷ codes "dump" ∷ []

-- A host, and the commands that it was given, in order.
pub record Traced (W : Type 0) : Type 0 where
  pub host : W
  pub commands : List (List Text)

module _ {W : Type 0} (runner : Runner W) where
  -- `Run`
  unfoldable pub exec : List Text → Traced W → Result Text Text × Traced W
  exec c s =
      let r = runner.run c s.host in (r.0, record { host = r.1; commands = s.commands ++ c ∷ [] })

  -- The ping, whose answer is not looked at.
  unfoldable pub ping : Checker → Traced W → Traced W
  ping t s = if is_empty t.ping_target then s else (exec (ping_command t.iface t.ping_target) s).1

  -- `Check`, by its commands
  unfoldable pub check_by : ℕ → Checker → Traced W → Verdict × Traced W
  check_by now t s =
      let shown = exec (show_command t.iface) (ping t s) in
      (judge_dump now t.max_age shown.0, shown.1)

  -- What a check meets on this host.
  unfoldable pub host_of : ℕ → W → Host
  host_of now w = record {
    wg_dump = λ target iface. elim target [
      | none ↦ (runner.run (show_command iface) w).0
      | some t ↦ (runner.run (show_command iface) (runner.run (ping_command iface t) w).1).0
    ];
    now = now;
  }

  -- A check by its commands gives the verdict of `check` on the host's answers, and each of its
  -- commands names the interface of the tunnel.
  check_by-check :
      (now : ℕ) (t : Checker) (w : W)
      → let r = check_by now t (record { host = w; commands = [] }) in
        (r.0 ≡ check (host_of now w) t) × All (λ c. Memᴰ t.iface c) r.1.commands
  unfolding check_by exec ping check host_of ping_command show_command
  check_by-check now t w = elim (Bool-cases (is_empty t.ping_target)) [
    | inl unset ↦ rw unset (refl, (Memᴰ.tail (Memᴰ.tail (Memᴰ.head refl)), tt))
    | inr set ↦ rw set (
      refl,
      (
        append_right
            (codes "ping"
              ∷ codes "-n"
              ∷ codes "-q"
              ∷ codes "-c"
              ∷ codes "1"
              ∷ codes "-W"
              ∷ codes "2"
              ∷ codes "-I"
              ∷ [])
            (Memᴰ.head refl),
        (Memᴰ.tail (Memᴰ.tail (Memᴰ.head refl)), tt),
      ),
    )
  ]

  -- What `wg show` answers after the ping.
  abbrev pub shown : Checker → W → Result Text Text
  shown t w =
      (runner.run (show_command t.iface) (ping t (record { host = w; commands = [] })).host).0

  shown-wg_dump :
      (now : ℕ) (t : Checker) (w : W)
      → (host_of now w).wg_dump
          (if is_empty t.ping_target then none else some t.ping_target)
          t.iface
        ≡ shown t w
  unfolding host_of ping exec
  shown-wg_dump now t w = elim (Bool-cases (is_empty t.ping_target)) [
    | inl unset ↦ rw (unset, shown) refl
    | inr set ↦ rw (set, shown) refl
  ]

  -- For a maximal age that is not negative, a check passes exactly if `wg show` for the tunnel's
  -- interface, after the ping if there is a target, answers with some peer's positive handshake
  -- time whose age is at most the maximal age in seconds, as `int64(d.Seconds())` counts them; and
  -- each command of the check names that interface.
  pub check_by_passes_iff :
      (now : ℕ) (t : Checker) (w : W) {ns : ℕ}
      → t.max_age ≡ pos ns
      → let r = check_by now t (record { host = w; commands = [] }) in
        ((r.0.passed ≡ true) ↔ IsLive (shown t w) now (seconds ns))
        × All (λ c. Memᴰ t.iface c) r.1.commands
  unfolding host_of
  check_by_passes_iff now t w {ns} age =
      let (same, names) = check_by-check now t w in
      let passed = ap (λ (v : Verdict). v.passed) same in
      let answer = shown-wg_dump now t w in
      let (live, passes) = check_passes_iff (host_of now w) t age in
      (
        (
          λ p. subst (λ a. IsLive a now (seconds ns)) answer (live (sym passed ∙ p)),
          λ l. passed ∙ passes (subst (λ a. IsLive a now (seconds ns)) (sym answer) l),
        ),
        names,
      )
