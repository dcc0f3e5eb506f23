-- ===== src/Cli/Verdict.antt =====
-- `reptile check` exits with 0 exactly if every configured condition holds.
use reptile.Prelude.{
  ℕ, ◌≡◌, refl, sym, ap, ◌∙◌, ◌↔◌, ◌⊎◌, inl, inr, true, false, none, some, arith, Bool-cases, ℤ,
  pos, negsuc, ltb_ℤ, if◌then◌else◌,
}
use reptile.Text.Defs.{is_empty}
use reptile.Library.{Library, Regexp}
use reptile.Result.{ok}
use reptile.Config.{Config, Durations, durations}
use reptile.Config.Times.{durations-AreParsed}
use reptile.Config.Validate.{validate}
use reptile.Config.Validate.Sound.{validate-IsValid}
use reptile.Tunnel as Tunnel
use reptile.Tunnel.{seconds}
use reptile.Tunnel.Liveness.{IsLive, check_passes_iff}
use reptile.Egress as Egress
use reptile.Egress.Probe.{probe, evaluate, settle, use_cache}
use reptile.Egress.Sound.{IsProven, probe_passes_iff}
use reptile.Cli.{Checkers, checkers_of, build_checkers, check_egress, check_with, run_check}

positive_pos : (z : ℤ) → ltb_ℤ (pos 0) z ≡ true → (n : ℕ) × (z ≡ pos n)
positive_pos (pos n) h = (n, refl)
positive_pos (negsuc n) h = absurd (ground (arith, h))

pub build_checkers-ok :
    (lib : Library) (c : Config) {d : Durations} {r s : Regexp}
    → durations lib c ≡ ok d
    → lib.compile c.country_pattern ≡ ok r
    → lib.compile c.ip_pattern ≡ ok s
    → build_checkers lib c ≡ ok (checkers_of c d r s)
unfolding build_checkers
build_checkers-ok lib c h k l = rw (h, k, l) refl

-- A checker without a cached verdict probes.
evaluate-probe :
    (lib : Library) (net : Egress.Net) (e : Egress.Checker)
    → e.set ≡ false
    → (evaluate lib net false e).result.passed ≡ (probe lib net e).passed
unfolding evaluate use_cache settle
evaluate-probe lib net e h = ground (arith, h)

check_egress_code :
    (lib : Library) (net : Egress.Net) (c : Config) (e : Egress.Checker)
    → e.set ≡ false
    → ((check_egress lib net c e).code ≡ 0) ↔ IsProven lib net e
unfolding check_egress
check_egress_code lib net c e h = elim (Bool-cases (evaluate lib net false e).result.passed) [
  | inl good ↦
      (λ _. (probe_passes_iff lib net e).0 (sym (evaluate-probe lib net e h) ∙ good), λ _. rw good)
  | inr bad ↦ (
    λ z. absurd (ground (arith, bad, z)),
    λ p. absurd (cc (bad, evaluate-probe lib net e h, (probe_passes_iff lib net e).1 p)),
  )
]

check_with_code :
    (lib : Library) (host : Tunnel.Host) (net : Egress.Net) (c : Config) (k : Checkers)
    → k.egress.set ≡ false
    → ((check_with lib host net c k).code ≡ 0) ↔ (
        ((Tunnel.check host k.tunnel).passed ≡ true)
        × ((c.verify_egress ≡ false) ⊎ IsProven lib net k.egress))
unfolding check_with
check_with_code lib host net c k unset = elim (Bool-cases (Tunnel.check host k.tunnel).passed) [
  | inr down ↦ (λ z. absurd (ground (arith, down, z)), λ p. absurd (cc (down, p.0)))
  | inl up ↦ elim (Bool-cases c.verify_egress) [
    | inr off ↦ (λ _. (up, inl off), λ _. simp (up, off))
    | inl on ↦
        let iff = check_egress_code lib net c k.egress unset in
        let same : (check_with lib host net c k).code ≡ (check_egress lib net c k.egress).code =
          unfold check_with in ground (arith, up, on) in
        (
          λ z. (up, inr (iff.0 (sym same ∙ z))),
          λ p. same ∙ iff.1 (elim (p.1) [ inl off ↦ absurd (cc (on, off)) | inr proven ↦ proven ]),
        )
  ]
]

-- For a valid configuration `reptile check` builds the checkers of its settings, and exits with 0
-- exactly if `wg show` answers with a handshake that is recent enough and, if the egress is to be
-- verified, a probe proves it.
pub run_check_zero_iff :
    (lib : Library) (host : Tunnel.Host) (net : Egress.Net) (c : Config)
    → validate lib c ≡ ok tt
    → (k : Checkers) × (ns : ℕ) × (build_checkers lib c ≡ ok k)
      × (lib.parse_duration c.max_handshake_age ≡ ok (pos ns))
      × (((run_check lib host net c).code ≡ 0) ↔ (
          IsLive
            (host.wg_dump (if is_empty c.ping_target then none else some c.ping_target) c.interface)
            host.now
            (seconds ns)
          × ((c.verify_egress ≡ false) ⊎ IsProven lib net k.egress)))
unfolding run_check
run_check_zero_iff lib host net c h =
    let v = validate-IsValid lib c h in
    let (n, age) = positive_pos v.times.max_handshake_age v.positive.1 in
    let k = checkers_of c v.times v.country_pattern.re v.ip_pattern.re in
    let built =
      build_checkers-ok lib c v.times_parse v.country_pattern.compiled v.ip_pattern.compiled in
    let live = check_passes_iff host k.tunnel age in
    let code = check_with_code lib host net c k refl in
    let same : (run_check lib host net c).code ≡ (check_with lib host net c k).code =
      rw (built, run_check) refl in
    (
      k,
      n,
      built,
      (durations-AreParsed lib c v.times_parse).max_handshake_age ∙ ap ok age,
      (
        λ z. let p = code.0 (sym same ∙ z) in (live.0 (p.0), p.1),
        λ p. same ∙ code.1 (live.1 (p.0), p.1),
      ),
    )
