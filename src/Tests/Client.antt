-- ===== src/Tests/Client.antt =====
-- The client's theorems at a client that asked once, with every frame read as a token.
use council.Prelude.{ℕ, ◌≡◌, none, some, List, [], ◌∷◌, Text, text}
use council.Persona.{skeptic}
use council.Protocol.{DebateEvent, token}
use council.Protocol.Ask.{AskMessage}
use council.Protocol.Parse.{ParseResult, SafeParseResult, success, parse_event}
use council.Client.{
  Client, Delivery, opens, closes, brings, text_frame, new_client, ask, dispose, deliver,
  deliver_all, Reachable, starts, asks, delivers,
}
use council.Client.Laws.{IsSolo, Reachable-IsSolo, dispose-is_silent}

abbrev pub token_of : Text → SafeParseResult DebateEvent
token_of raw = success (token skeptic 1 raw)

abbrev pub parse : Text → ParseResult
parse raw = parse_event (λ s. some s) token_of raw

abbrev pub stringify : AskMessage → Text
stringify message = message.question

abbrev asked : Client
asked = deliver parse stringify 0 opens (ask (text "Is it so?") none new_client)

asked-Reachable : Reachable parse stringify asked
asked-Reachable = delivers 0 opens (asks (text "Is it so?") none starts)

abbrev late : List (ℕ × Delivery)
late = (0, brings (text_frame (text "Not "))) ∷ (0, closes) ∷ []

Reachable-IsSolo_example : IsSolo asked
Reachable-IsSolo_example = Reachable-IsSolo parse stringify asked-Reachable

dispose-is_silent_example : deliver_all parse stringify late (dispose asked) ≡ dispose asked
dispose-is_silent_example = dispose-is_silent parse stringify late asked-Reachable
