-- ===== src/Watchdog/Loop.antt =====
-- `runWatchdog` of internal/app/watchdog.go: the event loop that drives `cycle`.
-- What it is given (`live`, `tunnel`, `egress`, `proof`, `killer`, `store`, `logf`) acts on the rest
-- of the daemon, a state of any type.
pub mod Tickers
pub mod Refines
pub mod Kills
pub mod Keeps
use reptile.Prelude.{
  ℕ, ◌≡◌, ◌≢◌, Bool, false, ◌&&◌, Option, none, some, List, [], ◌∷◌, ◌++◌, if◌then◌else◌, ℤ, pos,
  negsuc, ◌==◌, leb_ℤ, ltb_ℤ,
}
use reptile.Text.Defs.{Text, codes}
use reptile.Text.Split.{join}
use reptile.Text.Number.{itoa_ℕ}
use reptile.Library.{Library}
use reptile.Result.{ok, err}
use reptile.Config.{Config, Durations, KeyError, at_key, durations}
use reptile.Watchdog.{WdState, Cycle, fresh, cycle, state_label}

-- A verdict with its reason, and the daemon after the check.
pub record Checked (W : Type 0) : Type 0 where
  pub passed : Bool
  pub reason : Text
  pub world : W

pub record Proof : Type 0 where
  pub ip : Text
  pub country : Text

pub record Callbacks (W : Type 0) : Type 0 where
  pub live : W → Config
  pub tunnel : W → Checked W
  pub egress : W → Checked W
  pub proof : W → Proof
  pub killer : W → W
  -- `store.Set(state, streak, reason, exitIP, country)`
  pub publish : Text → ℕ → Text → Text → Text → W → W
  -- `logf`, given what it makes of its format and arguments. Where the source calls it with one text
  -- that `fmt.Sprintf` has made, that text is the format.
  pub logf : Text → W → W

-- The variables of the loop; `ticker` and `heartbeat` are the periods of the running tickers.
pub record Loop (W : Type 0) : Type 0 where
  pub poll_dur : ℤ
  pub ticker : ℤ
  pub heartbeat_dur : ℤ
  pub heartbeat : Option ℤ
  pub state : WdState
  pub world : W

pub data Outcome (W : Type 0) : Type 0 where
  running : Loop W → Outcome W
  -- `return ctx.Err()`
  stopped : W → Outcome W
  -- `return err`
  failed : KeyError → W → Outcome W
  -- `NewTicker` and `Reset` panic at a period that is not positive.
  panicked : W → Outcome W

abbrev pub same_ℤ : ℤ → ℤ → Bool
same_ℤ (pos a) (pos b) = a == b
same_ℤ (negsuc a) (negsuc b) = a == b
same_ℤ _ _ = false

-- `if heartbeatDur > 0 { heartbeat = time.NewTicker(heartbeatDur) }`
abbrev pub beat_ticker : ℤ → Option ℤ
beat_ticker d = if ltb_ℤ (pos 0) d then some d else none

unfoldable pub error_text : KeyError → Text
error_text (at_key k e) = k ++ (codes ": " ++ e)

bool_text : Bool → Text
bool_text b = if b then codes "true" else codes "false"

-- The line that `runWatchdog` logs first.
unfoldable pub started_line : Config → Text
unfolding bool_text
started_line c =
    codes "watchdog started: iface="
    ++ (c.interface
        ++ (codes " poll="
            ++ (c.poll_interval
                ++ (codes " max_handshake_age="
                    ++ (c.max_handshake_age
                        ++ (codes " verify_egress="
                            ++ (bool_text c.verify_egress
                                ++ (codes " heartbeat="
                                    ++ (c.heartbeat_interval
                                        ++ (codes " targets=["
                                            ++ (join (codes " ") c.targets ++ codes "]")))))))))))

unfoldable pub heartbeat_line : WdState → Proof → Text
heartbeat_line s p =
    codes "heartbeat: state="
    ++ (state_label s
        ++ (codes " streak="
            ++ (itoa_ℕ s.streak
                ++ (codes " exit_ip=" ++ (p.ip ++ (codes " country=" ++ p.country))))))

-- The verdicts of a tick: the egress is consulted only through a tunnel that works.
pub record Findings (W : Type 0) : Type 0 where
  pub tunnel_ok : Bool
  pub egress_ok : Bool
  pub reason : Text
  pub world : W

module _ {W : Type 0} (lib : Library) (cb : Callbacks W) where
  -- Up to the loop.
  unfoldable pub start : W → Outcome W
  start w = elim (durations lib (cb.live w)) [
    | err e ↦ failed e w
    | ok d ↦
        let w' = cb.logf (started_line (cb.live w)) w in
        if leb_ℤ d.poll (pos 0)
        then panicked w'
        else running (record {
          poll_dur = d.poll;
          ticker = d.poll;
          heartbeat_dur = d.heartbeat;
          heartbeat = beat_ticker d.heartbeat;
          state = fresh;
          world = w';
        })
  ]

  -- `case <-ctx.Done()`
  pub on_done : Loop W → Outcome W
  on_done l = stopped (cb.logf (codes "watchdog stopping") l.world)

  -- `case <-heartbeatC`
  pub on_beat : Loop W → Outcome W
  on_beat l = running (record l {
    world = cb.logf (lib.sprintf (heartbeat_line l.state (cb.proof l.world))) l.world;
  })

  -- `if nextDurations.heartbeat != heartbeatDur { ... }`
  unfoldable pub retune_heartbeat : ℤ → Loop W → Loop W
  retune_heartbeat beat l = if same_ℤ beat l.heartbeat_dur then l else record l {
    heartbeat_dur = beat;
    heartbeat = beat_ticker beat;
    world =
        cb.logf (lib.sprintf (codes "heartbeat_interval applied: " ++ lib.duration_string beat))
          l.world;
  }

  -- The loop at another poll interval.
  unfoldable pub repolled : Durations → Loop W → Loop W
  repolled d l = record l {
    poll_dur = d.poll;
    ticker = d.poll;
    world =
        cb.logf (lib.sprintf (codes "poll_interval applied: " ++ lib.duration_string d.poll))
          l.world;
  }

  -- `if nextDurations.poll != pollDur { ... }`, with what follows it.
  retune_poll : Durations → Loop W → Outcome W
  retune_poll d l =
      if same_ℤ d.poll l.poll_dur
      then running (retune_heartbeat d.heartbeat l)
      else if leb_ℤ d.poll (pos 0)
      then panicked l.world
      else running (retune_heartbeat d.heartbeat (repolled d l))

  -- The part of a tick that follows the live durations.
  unfoldable pub retune : Config → Loop W → Outcome W
  unfolding retune_poll
  retune c l = elim (durations lib c) [
    | err e ↦ running (record l {
      world =
          cb.logf
            (lib.sprintf (codes "config invalid, keeping previous settings: " ++ error_text e))
            l.world;
    })
    | ok d ↦ retune_poll d l
  ]

  unfoldable pub check : Config → W → Findings W
  check c w =
      let t = cb.tunnel w in
      if c.verify_egress && t.passed
      then (let e = cb.egress t.world in
          record { tunnel_ok = t.passed; egress_ok = e.passed; reason = e.reason; world = e.world })
      else record { tunnel_ok = t.passed; egress_ok = false; reason = t.reason; world = t.world }

  unfoldable pub log_all : List Text → W → W
  log_all [] w = w
  log_all (line ∷ lines) w = log_all lines (cb.logf line w)

  -- `cycle` with its effects: the kill comes before the lines are logged.
  unfoldable pub act : Cycle → W → W
  unfolding log_all
  act r w = log_all r.logs (if r.kill then cb.killer w else w)

  unfoldable pub advance : Config → Loop W → Loop W
  unfolding act
  advance c l =
      let f = check c l.world in
      let r =
        cycle l.state f.tunnel_ok f.reason c.verify_egress f.egress_ok c.down_cycles_to_kill in
      let w = act r f.world in
      let p = cb.proof w in
      record l {
        state = r.state;
        world = cb.publish (state_label r.state) r.state.streak f.reason p.ip p.country w;
      }

  abbrev pub and_then : Outcome W → (Loop W → Loop W) → Outcome W
  and_then (running l) f = running (f l)
  and_then (stopped w) f = stopped w
  and_then (failed e w) f = failed e w
  and_then (panicked w) f = panicked w

  -- `case <-ticker.C` and the rest of the loop's body
  unfoldable pub on_tick : Loop W → Outcome W
  on_tick l = let c = cb.live l.world in and_then (retune c l) (advance c)

  -- The `select`: a nil channel is never ready, so a beat needs a running heartbeat ticker.
  pub data Step (l : Loop W) (o : Outcome W) : Type 0 where
    on_context : o ≡ on_done l → Step l o
    on_heartbeat : l.heartbeat ≢ none → o ≡ on_beat l → Step l o
    on_ticker : o ≡ on_tick l → Step l o
