-- ===== src/Protocol/Parse.antt =====
-- The inbound frames, `parseEvent` of frontend/src/lib/protocol.ts. `JSON.parse` and the schema's
-- `safeParse`, which is zod's, are parameters.
use council.Prelude.{Option, none, some, List, [], ◌∷◌, Text, text}
use council.Protocol.{DebateEvent}

-- What `safeParse` returns: the data, or the messages of the issues.
pub data SafeParseResult {ℓ} (A : Type ℓ) : Type ℓ where
  success : A → SafeParseResult A
  failure : List Text → SafeParseResult A

pub data ParseResult : Type 0 where
  parsed : DebateEvent → ParseResult
  rejected : Text → ParseResult

-- `issues[0]?.message ?? "invalid event"`.
abbrev pub first_issue : List Text → Text
first_issue [] = text "invalid event"
first_issue (message ∷ messages) = message

module _ {Json : Type 0} (json_parse : Text → Option Json)
    (safe_parse : Json → SafeParseResult DebateEvent) where
  unfoldable pub parse_event : Text → ParseResult
  parse_event raw = elim (json_parse raw) [
    | none ↦ rejected (text "frame is not valid JSON")
    | some json ↦ elim (safe_parse json) [
      | failure issues ↦ rejected (first_issue issues)
      | success e ↦ parsed e
    ]
  ]
