-- ===== src/Ui/Transcript.antt =====
-- The transcript, frontend/src/components/transcript: TypingIndicator, StatusDot, RoundBlock,
-- PersonaColumn, TranscriptGrid and TranscriptDrawer. `reveal` is what `useSmoothText` shows of a
-- text, and `markdown` is react-markdown's rendering.
use council.Prelude.{
  ℕ, ℕ-Key, zero, suc, ◌+◌, Bool, true, false, not, ◌&&◌, ◌||◌, none, some, List, [], ◌∷◌, ◌++◌,
  Text, text, nat_eq, max, if◌then◌else◌, keep,
}
use council.Prelude.Dict
use council.Prelude.Dict.{Dict}
use council.Persona.{PersonaId, PersonaId-Key, same, panelists}
use council.Reducer.{DebatePhase, DebateState, DebateError, rounds_of, text_at}
use council.Stage.Bubble.{display_name, role}
use council.Ui.Html.{
  Html, Tag, Attr, blank, el, says, each, only_if, ◌⊹◌, on_click, inert, aria_hidden, aria_label,
}
use council.Ui.Decimal.{decimal}
use council.Ui.QuestionForm.{is_filled}

pub data ColumnStatus : Type 0 where
  idle streaming done : ColumnStatus

-- `LABEL[status]`.
abbrev pub status_label : ColumnStatus → Text
status_label idle = text "Waiting"
status_label streaming = text "Speaking"
status_label done = text "Finished"

unfoldable pub round_label : ℕ → Text
round_label round =
    if nat_eq round 1
    then text "Round 1 · Opening"
    else text "Round " ++ (decimal round ++ text " · Rebuttal")

-- `Object.keys(rounds).length > 0`, where an absent record has none.
abbrev pub has_rounds : Dict ℕ Text → Bool
has_rounds [] = false
has_rounds (r ∷ rs) = true

unfoldable pub column_status : Bool → Dict ℕ Text → ColumnStatus
column_status is_active rounds_text =
    if is_active then streaming else if has_rounds rounds_text then done else idle

-- `roundsText?.[r] !== undefined || (isActive && r === currentRound)`.
abbrev pub is_shown : Dict ℕ Text → Bool → ℕ → ℕ → Bool
is_shown rounds_text is_active current r =
    elim (Dict.get r rounds_text) [ none ↦ false | some t ↦ true ]
    || (is_active && nat_eq r current)

-- The loop that collects the rounds: `n` of them are left, from `r` on.
unfoldable pub shown_rounds : (ℕ → Bool) → ℕ → ℕ → List ℕ
shown_rounds shows r zero = []
shown_rounds shows r (suc n) =
    let rest : List ℕ = shown_rounds shows (r + 1) n in if shows r then r ∷ rest else rest

-- `Math.max(...)` of the panelists' rounds, 0 if there are none.
unfoldable pub max_key : ℕ → Dict ℕ Text → ℕ
max_key best [] = best
max_key best ((r, t) ∷ rounds) = max_key (max best r) rounds

unfoldable pub from_text : ℕ → List PersonaId → Dict PersonaId (Dict ℕ Text) → ℕ
unfolding max_key
from_text best [] transcript = best
from_text best (id ∷ ids) transcript =
    from_text (max_key best (rounds_of id transcript)) ids transcript

-- `phase === "debating"`.
abbrev pub is_debating : DebatePhase → Bool
is_debating DebatePhase.debating = true
is_debating _ = false

unfoldable pub panel_max_round : DebateState → ℕ
unfolding from_text
panel_max_round state =
    let seen : ℕ = from_text 0 panelists state.transcript in
    if is_debating state.phase then max seen state.current_round else seen

-- `errors.filter((e) => e.persona === id)`.
abbrev pub is_error_of : PersonaId → DebateError → Bool
is_error_of id e = elim e.persona [ none ↦ false | some p ↦ same p id ]

unfoldable pub errors_of : PersonaId → List DebateError → List DebateError
errors_of id errors = keep (is_error_of id) errors

module _ {M : Type 0} where
  unfoldable pub typing_indicator : Text → Html M
  typing_indicator name = el Tag.span (Attr.role (text "status") ∷ aria_label name ∷ []) blank

  unfoldable pub status_dot : ColumnStatus → Html M
  status_dot status =
      el Tag.span []
        (el Tag.span (aria_hidden true ∷ []) blank ⊹ el Tag.span [] (says (status_label status)))

module _ {M : Type 0} (reveal : Text → Bool → Text) where
  unfoldable pub round_block : ℕ → Text → Bool → Html M
  unfolding typing_indicator round_label
  round_block round words is_streaming = el Tag.div [] (
      el Tag.div []
        (el Tag.span [] (says (round_label round)) ⊹ el Tag.span (aria_hidden true ∷ []) blank)
      ⊹ el Tag.p [] (
          says (reveal words is_streaming)
          ⊹ only_if is_streaming (el Tag.span [] (typing_indicator (text "Streaming this round")))))

  unfoldable pub persona_column : PersonaId → Dict ℕ Text → Bool → ℕ → ℕ → List DebateError → Html M
  unfolding status_dot column_status round_block shown_rounds
  persona_column id rounds_text is_active current max_round errors =
      let rounds : List ℕ = shown_rounds (is_shown rounds_text is_active current) 1 max_round in
      el Tag.section (aria_label (display_name id) ∷ []) (
        el Tag.header [] (
          el Tag.div [] (el Tag.h3 [] (says (display_name id)) ⊹ el Tag.p [] (says (role id)))
          ⊹ status_dot (column_status is_active rounds_text))
        ⊹ el Tag.div [] (
            elim rounds [ [] ↦ el Tag.p [] (says (text "Awaiting opening…")) | _ ↦ blank ]
            ⊹ (each (λ r. round_block r (text_at r rounds_text) (is_active && nat_eq r current))
                  rounds
                ⊹ each
                    (λ e. el Tag.p (Attr.role (text "alert") ∷ []) (says (text "⚠ " ++ e.message)))
                    errors)))

  unfoldable pub transcript_grid : DebateState → Html M
  unfolding persona_column panel_max_round errors_of
  transcript_grid state = el Tag.div [] (
      each
        (λ id.
          persona_column id (rounds_of id state.transcript) (Dict.has id state.active_speakers)
            state.current_round (panel_max_round state) (errors_of id state.errors))
        panelists)

  unfoldable pub transcript_drawer : (Text → Html M) → DebateState → Bool → List M → Html M
  unfolding transcript_grid
  transcript_drawer markdown state is_open on_close =
      el Tag.aside
        (aria_label (text "Full transcript") ∷ aria_hidden (not is_open) ∷ inert (not is_open) ∷ [])
        (el Tag.header [] (
            el Tag.h2 [] (says (text "Transcript"))
            ⊹ el Tag.button (on_click on_close ∷ aria_label (text "Close transcript") ∷ [])
                (says (text "✕")))
          ⊹ el Tag.div [] (
              only_if (is_filled state.verdict) (
                el Tag.section (aria_label (text "Final verdict") ∷ []) (
                  el Tag.p [] (says (text "Final verdict"))
                  ⊹ el Tag.div [] (markdown state.verdict)))
              ⊹ transcript_grid state))
