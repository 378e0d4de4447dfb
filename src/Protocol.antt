-- ===== src/Protocol.antt =====
-- The typed side of the wire protocol, frontend/src/lib/protocol.ts.
pub mod Ask
pub mod Parse
pub mod Zod
pub mod Schema
use council.Prelude.{ℕ, ◌+◌, Option, Text}
use council.Persona.{PersonaId}

abbrev pub max_rounds : ℕ
max_rounds = 8

abbrev pub max_wire_round : ℕ
max_wire_round = max_rounds + 1

-- `ErrorEvent`.
pub record ErrorEvent : Type 0 where
  pub error : Text
  pub persona : Option PersonaId

pub data DebateEvent : Type 0 where
  token : PersonaId → ℕ → Text → DebateEvent
  persona_done : PersonaId → ℕ → DebateEvent
  round_complete : ℕ → DebateEvent
  verdict : Text → DebateEvent
  error : ErrorEvent → DebateEvent
