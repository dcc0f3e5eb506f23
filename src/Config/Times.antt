-- ===== src/Config/Times.antt =====
-- What the durations of a configuration were parsed from.
use reptile.Prelude.{◌≡◌, arith}
use reptile.Library.{Library}
use reptile.Result.{ok}
use reptile.Config.{Config, Durations, durations}

pub record AreParsed (lib : Library) (c : Config) (d : Durations) : Type 0 where
  pub poll : lib.parse_duration c.poll_interval ≡ ok d.poll
  pub kill_grace : lib.parse_duration c.kill_grace ≡ ok d.kill_grace
  pub heartbeat : lib.parse_duration c.heartbeat_interval ≡ ok d.heartbeat
  pub max_handshake_age : lib.parse_duration c.max_handshake_age ≡ ok d.max_handshake_age
  pub probe_interval : lib.parse_duration c.probe_interval ≡ ok d.probe_interval
  pub probe_timeout : lib.parse_duration c.probe_timeout ≡ ok d.probe_timeout

pub durations-AreParsed :
    (lib : Library) (c : Config) {d : Durations} → durations lib c ≡ ok d → AreParsed lib c d
unfolding durations
durations-AreParsed lib c h = record {
  poll = ground (arith, h);
  kill_grace = ground (arith, h);
  heartbeat = ground (arith, h);
  max_handshake_age = ground (arith, h);
  probe_interval = ground (arith, h);
  probe_timeout = ground (arith, h);
}
