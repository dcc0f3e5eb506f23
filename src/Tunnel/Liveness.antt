-- ===== src/Tunnel/Liveness.antt =====
-- When the tunnel passes the check.
use reptile.Prelude.{
  ℕ, zero, suc, ◌+◌, ◌/◌, ◌≤◌, ◌<◌, ◌≡◌, refl, sym, ap, ◌∙◌, ◌↔◌, inl, inr, true, none, some,
  if◌then◌else◌, ℤ, false, pos, negsuc, sub_ℕ, ltb_ℤ, arith,
}
use reptile.Text.Defs.{Text, is_empty}
use reptile.Text.Split.{split}
use reptile.Result.{Result, ok, err}
use reptile.Tunnel.{
  Checker, Host, parse_latest_handshake, binade, rounds_up, seconds, whole_seconds, judge_dump,
  check,
}
use reptile.Tunnel.Handshake.{HasHandshake, parse_latest_handshake_max}

binade-bound : (k sec : ℕ) → binade k sec ≤ sec + 1
unfolding binade
binade-bound zero sec = omega arith
binade-bound (suc k) sec = ground (arith, binade-bound k sec)

-- Below 2^23 seconds no fraction is lost in the floating-point sum.
pub seconds_lem : (ns : ℕ) → ns < 8_388_608_000_000_000 → seconds ns ≡ ns / 1_000_000_000
unfolding seconds rounds_up
seconds_lem ns small = ground (arith, binade-bound 33 (ns / 1_000_000_000))

-- `wg show` answers, and some peer has a handshake that is at most `limit` seconds old.
pub record IsLive (answer : Result Text Text) (now limit : ℕ) : Type 0 where
  pub dump : Text
  pub answered : answer ≡ ok dump
  pub time : ℕ
  pub shaken : HasHandshake (split b'\n' dump) time
  pub positive : 0 < time
  pub recent : now ≤ time + limit

judge_dump-IsLive :
    (now ns : ℕ) (answer : Result Text Text)
    → (judge_dump now (pos ns) answer).passed ≡ true
    → IsLive answer now (seconds ns)
unfolding judge_dump whole_seconds
judge_dump-IsLive now ns (err e) h = cc
judge_dump-IsLive now ns (ok dump) h = elim ((parse_latest_handshake_max dump).1) [
  | inl nothing ↦ ground arith
  | inr shaken ↦ record {
    dump = dump;
    answered = refl;
    time = parse_latest_handshake dump;
    shaken = shaken;
    positive = ground arith;
    recent = ground arith;
  }
]

IsLive-judge_dump :
    (now ns : ℕ) (answer : Result Text Text)
    → IsLive answer now (seconds ns)
    → (judge_dump now (pos ns) answer).passed ≡ true
unfolding judge_dump whole_seconds
IsLive-judge_dump now ns answer l =
    let newest : l.time ≤ parse_latest_handshake l.dump =
      (parse_latest_handshake_max l.dump).0 l.time l.shaken in
    rw (l.answered, judge_dump) (ground arith)

-- For a maximal age that is not negative the tunnel passes exactly if `wg show` answers and some
-- peer has a positive handshake time whose age is at most the maximal age in
-- seconds, as `int64(d.Seconds())` counts them.
pub check_passes_iff :
    (h : Host) (t : Checker) {ns : ℕ}
    → t.max_age ≡ pos ns
    → ((check h t).passed ≡ true)
      ↔ IsLive
          (h.wg_dump (if is_empty t.ping_target then none else some t.ping_target) t.iface)
          h.now
          (seconds ns)
unfolding check
check_passes_iff h t {ns} e =
    let answer = h.wg_dump (if is_empty t.ping_target then none else some t.ping_target) t.iface in
    (
      λ p.
          judge_dump-IsLive h.now ns answer
            (ap (λ (a : ℤ). (judge_dump h.now a answer).passed) (sym e) ∙ p),
      λ l.
          ap (λ (a : ℤ). (judge_dump h.now a answer).passed) e
          ∙ IsLive-judge_dump h.now ns answer l,
    )

-- `wg show` answers, and some peer has a handshake whose age in seconds is at most the limit.
pub record IsShaken (answer : Result Text Text) (now : ℕ) (limit : ℤ) : Type 0 where
  pub dump : Text
  pub answered : answer ≡ ok dump
  pub time : ℕ
  pub shaken : HasHandshake (split b'\n' dump) time
  pub positive : 0 < time
  pub recent : ltb_ℤ limit (sub_ℕ now time) ≡ false

younger :
    (limit : ℤ) (now old new : ℕ)
    → old ≤ new
    → ltb_ℤ limit (sub_ℕ now old) ≡ false
    → ltb_ℤ limit (sub_ℕ now new) ≡ false
younger (pos n) now old new h recent = ground arith
younger (negsuc n) now old new h recent = ground arith

judge_dump-IsShaken :
    (now : ℕ) (age : ℤ) (answer : Result Text Text)
    → (judge_dump now age answer).passed ≡ true
    → IsShaken answer now (whole_seconds age)
unfolding judge_dump
judge_dump-IsShaken now age (err e) h = cc
judge_dump-IsShaken now age (ok dump) h = elim ((parse_latest_handshake_max dump).1) [
  | inl nothing ↦ ground arith
  | inr shaken ↦ record {
    dump = dump;
    answered = refl;
    time = parse_latest_handshake dump;
    shaken = shaken;
    positive = ground arith;
    recent = ground arith;
  }
]

IsShaken-judge_dump :
    (now : ℕ) (age : ℤ) (answer : Result Text Text)
    → IsShaken answer now (whole_seconds age)
    → (judge_dump now age answer).passed ≡ true
unfolding judge_dump
IsShaken-judge_dump now age answer l =
    let newest : l.time ≤ parse_latest_handshake l.dump =
      (parse_latest_handshake_max l.dump).0 l.time l.shaken in
    let recent = younger (whole_seconds age) now l.time _ newest l.recent in
    rw (l.answered, judge_dump) (ground (arith, l.positive, newest, recent))

-- The tunnel passes exactly if `wg show` answers and some peer has a positive handshake time whose
-- age, in whole seconds, is at most the maximal age.
pub check_passes :
    (h : Host) (t : Checker)
    → ((check h t).passed ≡ true)
      ↔ IsShaken
          (h.wg_dump (if is_empty t.ping_target then none else some t.ping_target) t.iface)
          h.now
          (whole_seconds t.max_age)
unfolding check
check_passes h t =
    let answer = h.wg_dump (if is_empty t.ping_target then none else some t.ping_target) t.iface in
    (judge_dump-IsShaken h.now t.max_age answer, IsShaken-judge_dump h.now t.max_age answer)
