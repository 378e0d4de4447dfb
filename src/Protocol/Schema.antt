-- ===== src/Protocol/Schema.antt =====
-- The schemas of frontend/src/lib/protocol.ts, made of zod's combinators.
pub mod Rounds
use council.Prelude.{ℕ, [], ◌∷◌, text}
use council.Persona.{PersonaId, persona_ids, id_text}
use council.Protocol.{
  DebateEvent, ErrorEvent, token, persona_done, round_complete, verdict, max_wire_round,
}
use council.Protocol.Zod.{Zod, closed, field}

module _ {Json : Type 0} (z : Zod Json) where
  abbrev pub persona_id_schema : z.Schema PersonaId
  persona_id_schema = z.enum id_text persona_ids

  abbrev pub round_schema : z.Schema ℕ
  round_schema = z.max max_wire_round z.whole

  abbrev pub token_schema : z.Schema DebateEvent
  token_schema =
      z.object
        (field (text "type") (z.literal (text "token")) (
          field (text "persona") persona_id_schema (
            field (text "round") round_schema
              (field (text "delta") (z.default [] z.string) closed))))
        (λ (kind, (persona, (round, (delta, end)))). token persona round delta)

  abbrev pub persona_done_schema : z.Schema DebateEvent
  persona_done_schema =
      z.object
        (field (text "type") (z.literal (text "persona_done"))
          (field (text "persona") persona_id_schema (field (text "round") round_schema closed)))
        (λ (kind, (persona, (round, end))). persona_done persona round)

  abbrev pub round_complete_schema : z.Schema DebateEvent
  round_complete_schema =
      z.object
        (field (text "type") (z.literal (text "round_complete"))
          (field (text "round") round_schema closed))
        (λ (kind, (round, end)). round_complete round)

  abbrev pub verdict_schema : z.Schema DebateEvent
  verdict_schema =
      z.object
        (field (text "type") (z.literal (text "verdict"))
          (field (text "verdict") (z.default [] z.string) closed))
        (λ (kind, (v, end)). verdict v)

  abbrev pub error_schema : z.Schema DebateEvent
  error_schema =
      z.object
        (field (text "type") (z.literal (text "error")) (
          field (text "error") (z.default [] z.string)
            (field (text "persona") (z.optional persona_id_schema) closed)))
        (λ (kind, (message, (persona, end))).
          DebateEvent.error (record { error = message; persona = persona }))

  unfoldable pub debate_event_schema : z.Schema DebateEvent
  debate_event_schema = z.discriminated_union (text "type") (
      token_schema ∷ persona_done_schema ∷ round_complete_schema ∷ verdict_schema ∷ error_schema
      ∷ [])
