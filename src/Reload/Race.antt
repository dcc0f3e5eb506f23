-- ===== src/Reload/Race.antt =====
-- Reloads at once: the agent's server runs its handlers side by side, and nothing in `makeReloader`
-- of internal/app/main.go keeps two reloads apart. Only the accesses to the live settings and the
-- two checkers are atomic.
use reptile.Prelude.{◌≡◌, refl}
use reptile.Library.{Library}
use reptile.Result.{ok}
use reptile.Config.{Config}
use reptile.Config.Validate.{validate}
use reptile.Tunnel as Tunnel
use reptile.Egress as Egress
use reptile.Reload.{Daemon, effective}
use reptile.Reload.Atomic.{IsEgressOf, apply-IsEgressOf, IsTunnelOf, apply_tunnel-ok}

-- How far a reload has come, with its configuration: loaded and validated, combined with the live
-- settings, given to the egress checker, to the tunnel checker too, and live.
pub data Stage : Type 0 where
  loaded planned egress_applied tunnel_applied finished : Config → Stage

-- One atomic access of a reload that does not fail.
pub data Move (lib : Library) (d : Daemon) (s : Stage) (d' : Daemon) (s' : Stage) : Type 0 where
  -- `old := live.Get()`
  reads :
      (new : Config)
      → s ≡ loaded new
      → d' ≡ d
      → s' ≡ planned (effective d.live new)
      → Move lib d s d' s'
  -- `eg.Apply(effective)`
  applies_egress :
      (c : Config) (e : Egress.Checker)
      → s ≡ planned c
      → Egress.apply lib c d.egress ≡ ok e
      → d' ≡ record d { egress = e }
      → s' ≡ egress_applied c
      → Move lib d s d' s'
  -- `tc.Apply(effective)`
  applies_tunnel :
      (c : Config) (t : Tunnel.Checker)
      → s ≡ egress_applied c
      → Tunnel.apply lib c d.tunnel ≡ ok t
      → d' ≡ record d { tunnel = t }
      → s' ≡ tunnel_applied c
      → Move lib d s d' s'
  -- `live.Set(effective)`
  sets :
      (c : Config)
      → s ≡ tunnel_applied c
      → d' ≡ record d { live = c }
      → s' ≡ finished c
      → Move lib d s d' s'

-- Two reloads over one daemon.
pub record Pair : Type 0 where
  pub daemon : Daemon
  pub first : Stage
  pub second : Stage

pub data Runs (lib : Library) (p : Pair) : Pair → Type 0 where
  still : Runs lib p p
  by_first :
      {q : Pair} {d : Daemon} {s : Stage}
      → Runs lib p q
      → Move lib q.daemon q.first d s
      → Runs lib p (record { daemon = d; first = s; second = q.second })
  by_second :
      {q : Pair} {d : Daemon} {s : Stage}
      → Runs lib p q
      → Move lib q.daemon q.second d s
      → Runs lib p (record { daemon = d; first = q.first; second = s })

-- Two reloads of valid configurations whose probe settings the egress checker takes can both
-- finish with the settings of the first live, and both checkers at work by those of the second.
pub reloads_may_cross :
    (lib : Library) (d : Daemon) (a b : Config) {e f : Egress.Checker}
    → validate lib a ≡ ok tt
    → validate lib b ≡ ok tt
    → Egress.apply lib (effective d.live a) d.egress ≡ ok e
    → Egress.apply lib (effective d.live b) e ≡ ok f
    → (d' : Daemon) × Runs lib
        (record { daemon = d; first = loaded a; second = loaded b })
        (record {
          daemon = d';
          first = finished (effective d.live a);
          second = finished (effective d.live b);
        })
      × (d'.live ≡ effective d.live a)
      × IsEgressOf lib (effective d.live b) d'.egress
      × IsTunnelOf lib (effective d.live b) d'.tunnel
reloads_may_cross lib d a b {e} {f} va vb ea eb =
    let ca = effective d.live a in
    let cb = effective d.live b in
    let (t, ta, _) = apply_tunnel-ok lib a ca d.tunnel refl va in
    let (u, tb, at_work) = apply_tunnel-ok lib b cb t refl vb in
    let a1 = by_first still (reads a refl refl refl) in
    let a2 = by_first a1 (applies_egress ca e refl ea refl refl) in
    let a3 = by_first a2 (applies_tunnel ca t refl ta refl refl) in
    let b1 = by_second a3 (reads b refl refl refl) in
    let b2 = by_second b1 (applies_egress cb f refl eb refl refl) in
    let b3 = by_second b2 (applies_tunnel cb u refl tb refl refl) in
    let b4 = by_second b3 (sets cb refl refl refl) in
    (
      record d { live = ca; tunnel = u; egress = f },
      by_first b4 (sets ca refl refl refl),
      refl,
      apply-IsEgressOf lib cb e eb,
      at_work,
    )
