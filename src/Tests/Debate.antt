-- ===== src/Tests/Debate.antt =====
-- The hook's theorems at a session that is asked, streamed to and stopped.
use council.Prelude.{
  ◌≤◌, ◌≡◌, refl, ◌⊎◌, Option, false, none, some, List, [], ◌∷◌, Text, text, length,
}
use council.Protocol.Ask.{rune_count, build_ask, refused, built, whole}
use council.Protocol.Parse.{ParseResult, parse_event}
use council.Reducer.{
  DebateState, max_errors, max_cell_chars, DebatePhase, initial_state, run, debate_reducer, control,
  cancel, transport,
}
use council.Client.{Delivery, opens, closes, brings, text_frame}
use council.Prelude.Dict
use council.Client
use council.Player
use council.Debate
use council.Debate.{
  Debate, DebateStep, asks, stops, fires, lives, delivers, ask, stop, debate_run, new_debate,
  reached, state_of,
}
use council.Debate.Link.{new_council}
use council.Debate.Seen.{seen}
use council.Debate.Refines.{promised, debate_run-refines}
use council.Debate.Stop.{ask-shown, stop-is_final}
use council.Player.Shown.{shown}
use council.Player.State.{reset}
use council.Debate.Replay.{ask-one_speaker}
use council.Debate.Over.{reached-stays_over}
use council.Debate.Limits.{reached-bounded}
use council.Protocol.Schema.{debate_event_schema}
use council.Protocol.Schema.Rounds.{IsWireRound}
use council.Tests.Zod.{Value, token_of, plain}
use council.Tests.Zod.Laws.{plain-IsZod}
use council.Persona.{optimist}
use council.Protocol.{max_wire_round}
use council.Reducer.Transcript.{cell}
use council.Player.Settled.{is_live}
use council.Tests.Client.{parse, stringify}

abbrev question : Text
question = text " Is it so? "

-- Two clients, the first of which is still delivered to after the second was asked.
abbrev steps : List DebateStep
steps =
    asks question (some (whole 2))
    ∷ delivers 0 0 opens
    ∷ asks question none
    ∷ delivers 0 0 (brings (text_frame (text "late")))
    ∷ delivers 1 0 opens
    ∷ []

abbrev later : List DebateStep
later = delivers 1 0 (brings (text_frame (text "late"))) ∷ fires ∷ lives ∷ delivers 1 0 closes ∷ []

abbrev streamed : List DebateStep
streamed = delivers 2 0 opens ∷ delivers 2 0 (brings (text_frame (text "Not so"))) ∷ fires ∷ []

debate_run-refines_example :
    seen (debate_run parse stringify steps (new_debate false))
    ≡ promised parse stringify steps (new_debate false) (new_council false)
debate_run-refines_example = debate_run-refines parse stringify false steps

ask-shown_example :
    state_of (ask question none (debate_run parse stringify steps (new_debate false)))
    ≡ elim (build_ask question none) [
      | refused e ↦
          debate_reducer
            (state_of (debate_run parse stringify steps (new_debate false)))
            (control (transport e))
      | built m ↦ record initial_state { phase = DebatePhase.connecting }
    ]
ask-shown_example = ask-shown parse stringify false steps question none

stop-is_final_example :
    state_of (
      debate_run parse stringify later (stop (debate_run parse stringify steps (new_debate false))))
    ≡ debate_reducer
        (state_of (debate_run parse stringify steps (new_debate false)))
        (control cancel)
stop-is_final_example = stop-is_final parse stringify false steps later (tt, (tt, (tt, (tt, tt))))

ask-one_speaker_example :
    length
      (state_of (
        debate_run parse stringify streamed (
          ask question none (debate_run parse stringify steps (new_debate false))))).active_speakers
    ≤ 1
unfolding build_ask rune_count debate_run Debate.debate_step Debate.ask Debate.via Debate.dispose
    Debate.hear_all Debate.hear Client.deliver Client.ask Client.dispose Client.handle Client.send
    Player.feed_status Dict.has parse_event
ask-one_speaker_example =
    ask-one_speaker parse stringify false steps streamed question none
      (record { question = text "Is it so?"; rounds = none }) refl
      ((λ h. tt), ((λ h. ((λ q. refl), (λ e. refl))), (tt, tt)))

abbrev stopped : List DebateStep
stopped = asks question (some (whole 2)) ∷ delivers 0 0 opens ∷ stops ∷ []

reached-stays_over_example :
    is_live (state_of (debate_run parse stringify later (reached parse stringify false stopped)))
    ≡ false
unfolding debate_run Debate.debate_step Debate.ask shown run Client.deliver Client.ask build_ask
    rune_count Client.dispose reset Player.feed_status debate_reducer
reached-stays_over_example =
    reached-stays_over parse stringify false stopped later (tt, (tt, (tt, (tt, tt)))) refl

-- Every frame is the optimist's token of round 1.
abbrev json_parse : Text → Option Value
json_parse raw = some (token_of 1)

abbrev wire_parse : Text → ParseResult
wire_parse = parse_event json_parse (plain.safe_parse (debate_event_schema plain))

reached-bounded_example :
    let s : DebateState = state_of (reached wire_parse stringify false steps) in
    (s.current_round ≤ max_wire_round)
    × (length s.errors ≤ max_errors)
    × (length (cell s optimist 1) ≤ max_cell_chars)
    × ((cell s optimist 1 ≡ []) ⊎ IsWireRound 1)
reached-bounded_example =
    reached-bounded plain plain-IsZod json_parse stringify false steps optimist 1
