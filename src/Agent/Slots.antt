-- ===== src/Agent/Slots.antt =====
-- `Server.Serve` of internal/app/agent.go: the connections, in every interleaving of the accepting
-- loop with the handlers. A connection is known by its number.
pub mod Bound
use reptile.Prelude.{ℕ, ◌+◌, ◌≤◌, ◌<◌, ◌≡◌, Option, none, some, List, [], ◌∷◌, ◌++◌, length}

-- `maxAgentConnections`
abbrev pub max_agent_connections : ℕ
max_agent_connections = 16

-- How a connection ended: `handle` answered it, or it was told "agent busy".
pub data Ending : Type 0 where
  handled busy : Ending

-- `slots` counts the values in the channel. A handler is at a connection, or has closed it and
-- not yet taken its value out of the channel.
pub record Serving : Type 0 where
  pub accepted : ℕ
  pub slots : ℕ
  pub handlers : List (Option ℕ)
  pub ended : List (ℕ × Ending)

abbrev pub idle : Serving
idle = record { accepted = 0; slots = 0; handlers = []; ended = [] }

pub data Step (s t : Serving) : Type 0 where
  -- `case s.slots <- struct{}{}`
  admits :
      s.slots < max_agent_connections
      → t ≡ record s {
        accepted = s.accepted + 1;
        slots = s.slots + 1;
        handlers = some s.accepted ∷ s.handlers;
      }
      → Step s t
  -- `default`: the channel is full.
  refuses :
      max_agent_connections ≤ s.slots
      → t ≡ record s { accepted = s.accepted + 1; ended = (s.accepted, busy) ∷ s.ended }
      → Step s t
  -- `s.handle(conn)` returns.
  answers :
      (before after : List (Option ℕ)) (i : ℕ)
      → s.handlers ≡ before ++ some i ∷ after
      → t ≡ record s { handlers = before ++ none ∷ after; ended = (i, handled) ∷ s.ended }
      → Step s t
  -- `<-s.slots`
  leaves :
      (before after : List (Option ℕ)) (k : ℕ)
      → s.handlers ≡ before ++ none ∷ after
      → s.slots ≡ k + 1
      → t ≡ record s { slots = k; handlers = before ++ after }
      → Step s t

pub data Reaches (s : Serving) : Serving → Type 0 where
  at_start : Reaches s s
  by_step : {t u : Serving} → Reaches s t → Step t u → Reaches s u
