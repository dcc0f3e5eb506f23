-- ===== src/Tests/Watch.antt =====
-- The kill switch and its event loop on concrete polls.
use reptile.Prelude.{
  ℕ, ◌+◌, ◌≤◌, ◌≡◌, refl, ◌↔◌, true, false, some, [], ◌∷◌, ◌++◌, pos, pos_part, arith,
}
use reptile.Text.Defs.{codes}
use reptile.Config.{Config, defaults, durations}
use reptile.Watchdog.{fresh, down, cycle}
use reptile.Watchdog.Runs.{Poll, poll_cycle, run, kills, EndsUnsafe}
use reptile.Watchdog.Outages.{run_kill_iff}
use reptile.Watchdog.Loop.{
  Callbacks, Loop, running, on_tick, retune, advance, act, check, retune_heartbeat,
}
use reptile.Watchdog.Loop.Refines.{Reaches, at_start, by_tick, found, Reaches-state}
use reptile.Watchdog.Loop.Kills.{Counts, Reaches-kills}
use reptile.Tests.{demo}

-- A poll that finds no tunnel, at the default threshold.
abbrev bad : Poll
bad = record {
  tunnel_ok = false;
  reason = codes "no handshake recorded";
  verify = true;
  egress_ok = false;
  down_cycles = pos 2;
}

abbrev good : Poll
good = record bad { tunnel_ok = true; egress_ok = true }

-- A blip is not killed, an outage is at its second poll and at every later one.
blip : kills fresh (good ∷ bad ∷ good ∷ bad ∷ []) ≡ 0
unfolding kills cycle
blip = refl

outage : kills fresh (good ∷ bad ∷ bad ∷ bad ∷ []) ≡ 2
unfolding kills cycle
outage = refl

run_kill_iff_example :
    ((poll_cycle (run fresh (good ∷ bad ∷ [])) bad).kill ≡ true)
    ↔ ((k : ℕ) × EndsUnsafe ((good ∷ bad ∷ []) ++ bad ∷ []) k × (pos_part (pos 2) ≤ k))
run_kill_iff_example = run_kill_iff (good ∷ bad ∷ []) bad (omega arith)

-- The settings of a daemon that kills at once.
abbrev eager : Config
eager = record defaults { down_cycles_to_kill = pos 1 }

-- A daemon whose tunnel is down; its state is the number of kills.
abbrev doomed : Callbacks ℕ
doomed = record {
  live = λ _. eager;
  tunnel = λ n. record { passed = false; reason = codes "no handshake recorded"; world = n };
  egress = λ n. record { passed = true; reason = []; world = n };
  proof = λ _. record { ip = []; country = [] };
  killer = λ n. n + 1;
  publish = λ _ _ _ _ _ n. n;
  logf = λ _ n. n;
}

abbrev idle : Loop ℕ
idle = record {
  poll_dur = pos 1_000_000_000;
  ticker = pos 1_000_000_000;
  heartbeat_dur = pos 1_000_000_000;
  heartbeat = some (pos 1_000_000_000);
  state = fresh;
  world = 0;
}

abbrev ticked : Loop ℕ
ticked = record idle { state = record { streak = 1; announced = down }; world = 1 }

retuned : retune demo doomed eager idle ≡ running idle
unfolding retune retune_heartbeat durations defaults
retuned = refl

idle-ticked : on_tick demo doomed idle ≡ running ticked
unfolding on_tick retune retune_heartbeat advance act check cycle durations defaults
idle-ticked = refl

counted : Counts doomed (λ n. n)
counted = record {
  by_killer = λ w. refl;
  by_tunnel = λ w. refl;
  by_egress = λ w. refl;
  by_publish = λ s n r i c w. refl;
  by_logf = λ t w. refl;
}

one_tick : Reaches demo doomed idle (found demo doomed eager idle.world ∷ []) ticked
one_tick = by_tick idle at_start retuned idle-ticked refl

Reaches-state_example : ticked.state ≡ run fresh (found demo doomed eager 0 ∷ [])
Reaches-state_example = Reaches-state demo doomed one_tick

Reaches-kills_example : 1 ≡ kills fresh (found demo doomed eager 0 ∷ []) + 0
Reaches-kills_example = Reaches-kills demo doomed counted one_tick
