-- ===== src/Protocol/Schema/Rounds.antt =====
-- The rounds of the events that the schema passes.
use council.Prelude.{ℕ, ◌≡◌, ◌≤◌, inl, inr, Option, none, some, subst, refl, ap, Text, text}
use council.Protocol.{DebateEvent, max_wire_round}
use council.Protocol.Parse.{
  SafeParseResult, success, failure, ParseResult, parsed, rejected, first_issue, parse_event,
}
use council.Protocol.Zod.{Zod, IsZod}
use council.Protocol.Schema.{round_schema, debate_event_schema}
use council.Player.Informed.{IsTold}

-- A round that the schema lets through.
abbrev pub IsWireRound : ℕ → Type 0
IsWireRound r = (1 ≤ r) × (r ≤ max_wire_round)

rejected-IsTold : (m : Text) (e : DebateEvent) → rejected m ≡ parsed e → IsTold IsWireRound e
rejected-IsTold m e h = cc

result-IsTold :
    (o : SafeParseResult DebateEvent) (e : DebateEvent)
    → ((d : DebateEvent) → o ≡ success d → IsTold IsWireRound d)
    → (elim o as (λ _. ParseResult) [
      | failure issues ↦ rejected (first_issue issues)
      | success d ↦ parsed d
    ])
      ≡ parsed e
    → IsTold IsWireRound e
result-IsTold (failure issues) e k h = rejected-IsTold (first_issue issues) e h
result-IsTold (success d) e k h =
    subst (IsTold IsWireRound)
      (ap (λ p. elim p as (λ _. DebateEvent) [ parsed c ↦ c | rejected m ↦ d ]) h) (k d refl)

module _ {Json : Type 0} (z : Zod Json) (law : IsZod z) where
  round_schema-IsWireRound :
      (v : Json) (r : ℕ) → z.safe_parse (round_schema z) v ≡ success r → IsWireRound r
  round_schema-IsWireRound v r h =
      let (le, k) = law.bounded max_wire_round z.whole v r h in (law.positive v r k, le)

  debate_event_schema-IsTold :
      (v : Json) (e : DebateEvent)
      → z.safe_parse (debate_event_schema z) v ≡ success e
      → IsTold IsWireRound e
  unfolding debate_event_schema
  debate_event_schema-IsTold v e h = elim (law.options _ _ v e h) [
    | inl k ↦
        let ((kind, (persona, (round, (delta, end)))), ((t, (p, ((w, s), rest))), eq)) =
          law.rows _ _ v e k in
        subst (IsTold IsWireRound) eq (round_schema-IsWireRound w round s)
    | inr (inl k) ↦
        let ((kind, (persona, (round, end))), ((t, (p, ((w, s), rest))), eq)) =
          law.rows _ _ v e k in
        subst (IsTold IsWireRound) eq (round_schema-IsWireRound w round s)
    | inr (inr (inl k)) ↦
        let ((kind, (round, end)), ((t, ((w, s), rest)), eq)) = law.rows _ _ v e k in
        subst (IsTold IsWireRound) eq (round_schema-IsWireRound w round s)
    | inr (inr (inr (inl k))) ↦
        let (row, (rest, eq)) = law.rows _ _ v e k in subst (IsTold IsWireRound) eq tt
    | inr (inr (inr (inr (inl k)))) ↦
        let (row, (rest, eq)) = law.rows _ _ v e k in subst (IsTold IsWireRound) eq tt
    | inr (inr (inr (inr (inr k)))) ↦ elim k [ ]
  ]

  pub parse_event-IsTold :
      (json_parse : Text → Option Json) (raw : Text) (e : DebateEvent)
      → parse_event json_parse (z.safe_parse (debate_event_schema z)) raw ≡ parsed e
      → IsTold IsWireRound e
  unfolding parse_event
  parse_event-IsTold json_parse raw e = of_json (json_parse raw)
    where
      of_json :
          (o : Option Json)
          → (elim o as (λ _. ParseResult) [
            | none ↦ rejected (text "frame is not valid JSON")
            | some json ↦ elim (z.safe_parse (debate_event_schema z) json) [
              | failure issues ↦ rejected (first_issue issues)
              | success d ↦ parsed d
            ]
          ])
            ≡ parsed e
          → IsTold IsWireRound e
      of_json none h = rejected-IsTold _ e h
      of_json (some json) h =
          result-IsTold (z.safe_parse (debate_event_schema z) json) e
            (debate_event_schema-IsTold json) h
