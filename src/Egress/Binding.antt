-- ===== src/Egress/Binding.antt =====
-- The client of an egress checker is never older than the checker's settings.
use reptile.Prelude.{
  ◌≡◌, refl, sym, ap, ◌∙◌, subst, inl, inr, Bool, true, false, some, ◌==◌, arith, Bool-cases,
  Option-cases,
}
use reptile.Text.Defs.{Text, is_empty}
use reptile.Library.{Library}
use reptile.Result.{Result, ok, err}
use reptile.Config.{Config}
use reptile.Egress.{
  Client, Checker, Net, Fetch, build_failed, request_failed, response, invalidate, apply,
}
use reptile.Egress.Probe.{
  body_limit, read_limited, client_of, with_client, probe, receive, read_body, judge,
  listing_outcome, use_cache, from_cache, settle, evaluate,
}
use reptile.Egress.Cache.{Step, evaluates, invalidates, applies}
use reptile.Egress.Dialer.{iface_dialer, dialer_of, IsConfined}

-- The client, if there is one, was made for the checker's interface and timeout.
abbrev pub IsBound : Checker → Type 0
IsBound e = (k : Client) → e.client ≡ some k → (k.iface ≡ e.iface) × (k.timeout ≡ e.timeout)

judge-checker :
    (lib : Library) (net : Net) (cc ip : Text) (e : Checker) → (judge lib net cc ip e).checker ≡ e
unfolding judge listing_outcome
judge-checker lib net cc ip e = ground arith

with_client-IsBound : (e : Checker) → IsBound e → IsBound (with_client e)
unfolding with_client
with_client-IsBound e b k made = elim (Option-cases e.client) [
  | inl new ↦ ground (arith, new, made)
  | inr (c, old) ↦ ground (arith, old, made, b k)
]

read_body-IsBound :
    (lib : Library) (net : Net) (e : Checker) (r : Result Text Text)
    → IsBound e
    → IsBound (read_body lib net e r).checker
unfolding read_body
read_body-IsBound lib net e (err m) b = b
read_body-IsBound lib net e (ok text) b = subst IsBound (sym (judge-checker lib net _ _ _)) b

receive-IsBound :
    (lib : Library) (net : Net) (e : Checker) (f : Fetch)
    → IsBound e
    → IsBound (receive lib net e f).checker
unfolding receive
receive-IsBound lib net e (build_failed m) b = b
receive-IsBound lib net e (request_failed m) b = with_client-IsBound e b
receive-IsBound lib net e (response status body) b = elim (Bool-cases (status == 200)) [
  | inl good ↦
      rw (good, receive)
        (read_body-IsBound lib net (with_client e) (read_limited body_limit body)
          (with_client-IsBound e b))
  | inr bad ↦ rw (bad, receive) (with_client-IsBound e b)
]

pub evaluate-IsBound :
    (lib : Library) (net : Net) (fresh : Bool) (e : Checker)
    → IsBound e
    → IsBound (evaluate lib net fresh e).checker
unfolding evaluate settle from_cache probe
evaluate-IsBound lib net fresh e b = elim (Bool-cases (use_cache net fresh e)) [
  | inl hit ↦ rw hit b
  | inr miss ↦ rw miss (receive-IsBound lib net e (net.fetch (client_of e) e.url) b)
]

pub invalidate-IsBound : (e : Checker) → IsBound e → IsBound (invalidate e)
unfolding invalidate
invalidate-IsBound e b = b

pub apply-IsBound :
    (lib : Library) (c : Config) (e : Checker) {f : Checker} → apply lib c e ≡ ok f → IsBound f
unfolding apply invalidate
apply-IsBound lib c e h k made = absurd (ground (arith, h, made))

-- Whatever the checker does, the next probe dials through a client of its own interface.
pub Step-IsBound : {lib : Library} {e f : Checker} → IsBound e → Step lib e f → IsBound f
Step-IsBound {lib} {e} b (evaluates net fresh same) =
    subst IsBound (sym same) (evaluate-IsBound lib net fresh e b)
Step-IsBound {e = e} b (invalidates same) = subst IsBound (sym same) (invalidate-IsBound e b)
Step-IsBound {lib} {e} b (applies c h) = apply-IsBound lib c e h

client_of-iface : (e : Checker) → IsBound e → (client_of e).iface ≡ e.iface
client_of-iface e b = elim (Option-cases e.client) [
  | inl new ↦ ground (arith, new)
  | inr (c, old) ↦ ground (arith, old, b c old)
]

-- The dialer of the next probe.
pub client_of-IsConfined :
    (e : Checker) (iface : Text)
    → IsBound e
    → e.iface ≡ iface
    → is_empty iface ≡ false
    → IsConfined iface (dialer_of (client_of e))
unfolding iface_dialer
client_of-IsConfined e iface b at_iface named =
    let same : (client_of e).iface ≡ iface = client_of-iface e b ∙ at_iface in
    let named' : is_empty (client_of e).iface ≡ false = ap is_empty same ∙ named in
    rw (named', iface_dialer)
      (record {
        dials = ap some same;
        names = record {
          prefer_go = true;
          timeout = (client_of e).timeout;
          control = some (client_of e).iface;
        };
        resolves = refl;
        asks = ap some same;
      })
