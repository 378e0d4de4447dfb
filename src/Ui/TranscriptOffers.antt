-- ===== src/Ui/TranscriptOffers.antt =====
-- What a viewer can click on the transcript: the close of the drawer.
use council.Prelude.{
  ℕ, ◌≡◌, refl, ap, ◌∙◌, Bool, true, false, ◌&&◌, List, [], ◌∷◌, ◌++◌, Text, text, nat_eq, ℕ-Key,
}
use council.Prelude.Dict.{Dict}
use council.Prelude.Dict
use council.Persona.{PersonaId, PersonaId-Key, panelists}
use council.Reducer.{DebateState, DebateError, rounds_of, text_at}
use council.Ui.Html.{Html, Tag, Attr, blank, el, says, only_if, each, ◌⊹◌, clicks, clicks-⊹}
use council.Ui.QuestionForm.{is_filled}
use council.Ui.Transcript.{
  shown_rounds, is_shown, panel_max_round, errors_of, round_block, persona_column, transcript_grid,
  transcript_drawer,
}
use council.Ui.Offers.{when, each_dead}

module _ {M : Type 0} where
  dead-⊹ : (g h : Html M) → clicks g ≡ [] → clicks h ≡ [] → clicks (g ⊹ h) ≡ []
  dead-⊹ g h a b = clicks-⊹ g h ∙ (ap (λ l. l ++ clicks h) a ∙ b)

  dead-only_if : (b : Bool) (h : Html M) → clicks h ≡ [] → clicks (only_if b h) ≡ []
  unfolding clicks
  dead-only_if true h a = a
  dead-only_if false h a = refl

  empty_column :
      (rounds : List ℕ)
      → clicks {M = M}
          (elim rounds [ [] ↦ el Tag.p [] (says (text "Awaiting opening…")) | _ ↦ blank ])
        ≡ []
  unfolding clicks
  empty_column [] = refl
  empty_column (r ∷ rs) = refl

module _ {M : Type 0} (reveal : Text → Bool → Text) where
  clicks-round_block :
      (round : ℕ) (words : Text) (b : Bool) → clicks {M = M} (round_block reveal round words b) ≡ []
  unfolding clicks round_block
  clicks-round_block round words true = refl
  clicks-round_block round words false = refl

  clicks-persona_column :
      (id : PersonaId) (rounds_text : Dict ℕ Text) (is_active : Bool) (current max_round : ℕ)
      (errors : List DebateError)
      → clicks {M = M} (persona_column reveal id rounds_text is_active current max_round errors)
        ≡ []
  unfolding clicks persona_column
  clicks-persona_column id rounds_text is_active current max_round errors =
      let rounds : List ℕ = shown_rounds (is_shown rounds_text is_active current) 1 max_round in
      let block : ℕ → Html M =
        λ r. round_block reveal r (text_at r rounds_text) (is_active && nat_eq r current) in
      let failure : DebateError → Html M =
        λ e. el Tag.p (Attr.role (text "alert") ∷ []) (says (text "⚠ " ++ e.message)) in
      ap (λ l. (l ++ []) ++ [])
        (dead-⊹ (elim rounds [ [] ↦ el Tag.p [] (says (text "Awaiting opening…")) | _ ↦ blank ])
          (each block rounds ⊹ each failure errors) (empty_column rounds)
          (dead-⊹ (each block rounds) (each failure errors)
            (each_dead block
              (λ r. clicks-round_block r (text_at r rounds_text) (is_active && nat_eq r current))
              rounds)
            (each_dead failure (λ e. refl) errors)))

  clicks-transcript_grid :
      (state : DebateState) → clicks {M = M} (transcript_grid reveal state) ≡ []
  unfolding clicks transcript_grid
  clicks-transcript_grid state =
      ap (λ l. l ++ [])
        (each_dead
          (λ id.
            persona_column reveal id (rounds_of id state.transcript)
              (Dict.has id state.active_speakers) state.current_round (panel_max_round state)
              (errors_of id state.errors))
          (λ id.
            clicks-persona_column id (rounds_of id state.transcript)
              (Dict.has id state.active_speakers) state.current_round (panel_max_round state)
              (errors_of id state.errors))
          panelists)

  module _ (markdown : Text → Html M) (inert : (t : Text) → clicks (markdown t) ≡ []) where
    clicks-verdict :
        (t : Text)
        → clicks (
            el Tag.section
              (Attr.aria_label (text "Final verdict") ∷ [])
              (el Tag.p [] (says (text "Final verdict")) ⊹ el Tag.div [] (markdown t)))
          ≡ []
    unfolding clicks
    clicks-verdict t = rw (inert t) refl

    pub clicks-transcript_drawer :
        (state : DebateState) (is_open : Bool) (on_close : List M)
        → clicks (transcript_drawer reveal markdown state is_open on_close)
          ≡ when is_open (on_close ∷ [])
    unfolding clicks transcript_drawer
    clicks-transcript_drawer state false on_close = refl
    clicks-transcript_drawer state true on_close =
        ap (λ l. on_close ∷ ((l ++ []) ++ []))
          (dead-⊹
            (only_if (is_filled state.verdict) (
              el Tag.section (Attr.aria_label (text "Final verdict") ∷ []) (
                el Tag.p [] (says (text "Final verdict"))
                ⊹ el Tag.div [] (markdown state.verdict))))
            (transcript_grid reveal state)
            (dead-only_if (is_filled state.verdict)
              (el Tag.section (Attr.aria_label (text "Final verdict") ∷ []) (
                el Tag.p [] (says (text "Final verdict")) ⊹ el Tag.div [] (markdown state.verdict)))
              (clicks-verdict state.verdict))
            (clicks-transcript_grid state))
