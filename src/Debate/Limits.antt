-- ===== src/Debate/Limits.antt =====
-- What the hook shows stays within bounds, whatever a server sends that the schema accepts.
use council.Prelude.{
  ℕ, ◌≡◌, refl, sym, ap, subst, ◌∙◌, ◌⊎◌, inl, inr, Bool, Option, List, [], ◌∷◌, ◌++◌, ◌≤◌, arith,
  if◌then◌else◌, Text, length, Bool-cases, capped, length-capped-le, capped-of_length_le,
}
use council.Persona.{PersonaId}
use council.Protocol.{DebateEvent, token, persona_done, round_complete, verdict, max_wire_round}
use council.Protocol.Ask.{AskMessage}
use council.Protocol.Parse.{parse_event}
use council.Reducer.{
  WsStatus, DebateState, DebateInput, event, control, cancel, status, transport, initial_state,
  debate_reducer, reduce_control, reduce_status, run, max_errors, max_cell_chars,
}
use council.Reducer.Transcript.{cell, same_turn, same_turn_eq, say, said_after, cell-run}
use council.Reducer.Invariant.{run-IsWellFormed}
use council.Player.State.{new_player, reset}
use council.Player.Shown.{shown}
use council.Player.Informed.{IsToldInput, AllTold, IsInformed}
use council.Player.Told.{reset-IsInformed}
use council.Debate.{DebateStep, new_debate, reached, state_of}
use council.Debate.Link.{Council}
use council.Debate.Seen.{seen}
use council.Debate.Bounded.{run-IsInformed}
use council.Debate.Refines.{new-IsWired}
use council.Protocol.Zod.{Zod, IsZod}
use council.Protocol.Schema.{debate_event_schema}
use council.Protocol.Schema.Rounds.{IsWireRound, parse_event-IsTold}

module _ (W : ℕ → Type 0) where
  -- What is said under a round that was never told of is nothing.
  said_after-told :
      (x : PersonaId) (r : ℕ) (said : Text) (is : List DebateInput)
      → (said ≡ []) ⊎ W r
      → AllTold W is
      → (said_after x r said is ≡ []) ⊎ W r
  unfolding said_after say
  said_after-told x r said [] h t = h
  said_after-told x r said (i ∷ is) h (t, ts) =
      said_after-told x r (say x r said i) is (say-told i t) ts
    where
      say-told : (i : DebateInput) → IsToldInput W i → (say x r said i ≡ []) ⊎ W r
      say-told (event (token y s delta)) t = elim (Bool-cases (same_turn y s x r)) [
        | inl e ↦ inr (subst W (sym (same_turn_eq y x s r e).1) t)
        | inr e ↦ subst (λ b. ((if b then said ++ delta else said) ≡ []) ⊎ W r) (sym e) h
      ]
      say-told (event (persona_done y s)) t = h
      say-told (event (round_complete s)) t = h
      say-told (event (verdict v)) t = h
      say-told (event (DebateEvent.error e)) t = h
      say-told (control (status WsStatus.connecting)) t = inl refl
      say-told (control (status WsStatus.idle)) t = h
      say-told (control (status WsStatus.opened)) t = h
      say-told (control (status WsStatus.closed)) t = h
      say-told (control (status WsStatus.error)) t = h
      say-told (control (transport m)) t = h
      say-told (control cancel) t = h

  round-told :
      (s : DebateState) (i : DebateInput)
      → (s.current_round ≡ 0) ⊎ W s.current_round
      → IsToldInput W i
      → ((debate_reducer s i).current_round ≡ 0) ⊎ W (debate_reducer s i).current_round
  unfolding debate_reducer reduce_control reduce_status
  round-told s (event (token y r delta)) h t = inr t
  round-told s (event (persona_done y r)) h t = h
  round-told s (event (round_complete r)) h t = inr t
  round-told s (event (verdict v)) h t = h
  round-told s (event (DebateEvent.error e)) h t = h
  round-told s (control (status WsStatus.connecting)) h t = inl refl
  round-told s (control (status WsStatus.idle)) h t = h
  round-told s (control (status WsStatus.opened)) h t = h
  round-told s (control (status WsStatus.closed)) h t = ground arith
  round-told s (control (status WsStatus.error)) h t = h
  round-told s (control (transport m)) h t = h
  round-told s (control cancel) h t = ground arith

  run-told :
      (s : DebateState) (is : List DebateInput)
      → (s.current_round ≡ 0) ⊎ W s.current_round
      → AllTold W is
      → ((run s is).current_round ≡ 0) ⊎ W (run s is).current_round
  unfolding run
  run-told s [] h t = h
  run-told s (i ∷ is) h (t, ts) = run-told (debate_reducer s i) is (round-told s i h t) ts

current-bounded : {r : ℕ} → (r ≡ 0) ⊎ IsWireRound r → r ≤ max_wire_round
current-bounded (inl e) = omega arith
current-bounded (inr w) = w.1

cell-bounded :
    (x : PersonaId) (r : ℕ) (is : List DebateInput)
    → length (cell (run initial_state is) x r) ≤ max_cell_chars
cell-bounded x r is =
    subst (λ t. length t ≤ max_cell_chars) (sym (cell-run x r is))
      (length-capped-le max_cell_chars (said_after x r [] is))

cell-told :
    (x : PersonaId) (r : ℕ) (is : List DebateInput)
    → AllTold IsWireRound is
    → (cell (run initial_state is) x r ≡ []) ⊎ IsWireRound r
cell-told x r is t = elim (said_after-told IsWireRound x r [] is (inl refl) t) [
  | inl e ↦ inl (
      cell-run x r is
      ∙ (ap (capped max_cell_chars) e ∙ capped-of_length_le max_cell_chars [] (omega arith)))
  | inr w ↦ inr w
]

module _ {Json : Type 0} (z : Zod Json) (law : IsZod z) (json_parse : Text → Option Json) where
  -- What the page shows is bounded, whatever a server sends, if zod does what it documents: in every
  -- state that the hook, with the schemas of the protocol, can reach by questions, stops, timers,
  -- controls and deliveries in any order, the round shown is at most `max_wire_round`, at most
  -- `max_errors` errors are kept, no cell of the transcript is longer than `max_cell_chars`, and the
  -- cells of the rounds other than 1 to `max_wire_round` are empty.
  pub reached-bounded :
      (stringify : AskMessage → Text) (reduced_motion : Bool) (ss : List DebateStep) (x : PersonaId)
      (r : ℕ)
      → let s : DebateState = state_of (
          reached
            (parse_event json_parse (z.safe_parse (debate_event_schema z)))
            stringify
            reduced_motion
            ss) in
        (s.current_round ≤ max_wire_round)
        × (length s.errors ≤ max_errors)
        × (length (cell s x r) ≤ max_cell_chars)
        × ((cell s x r ≡ []) ⊎ IsWireRound r)
  unfolding seen shown reset
  reached-bounded stringify reduced_motion ss x r =
      let c : Council = seen (
        reached (parse_event json_parse (z.safe_parse (debate_event_schema z))) stringify
          reduced_motion ss) in
      let informed : IsInformed IsWireRound c.player =
        run-IsInformed IsWireRound (parse_event json_parse (z.safe_parse (debate_event_schema z)))
          (parse_event-IsTold z law json_parse) stringify ss (new_debate reduced_motion)
          (new-IsWired reduced_motion)
          (reset-IsInformed IsWireRound (new_player reduced_motion) tt) in
      let told : AllTold IsWireRound c.player.sent = informed.sent in
      (
        current-bounded (run-told IsWireRound initial_state c.player.sent (inl refl) told),
        (run-IsWellFormed c.player.sent).errors_bounded,
        cell-bounded x r c.player.sent,
        cell-told x r c.player.sent told,
      )
