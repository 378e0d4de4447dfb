-- ===== src/Ui/Status.antt =====
-- The readouts: frontend/src/components/status/ConnectionStatus.tsx and ErrorBanner.tsx, and
-- frontend/src/components/overlay/StageAnnouncer.tsx.
use council.Prelude.{
  ℕ, Bool, true, false, Option, none, some, List, [], ◌∷◌, ◌++◌, Text, text, min, if◌then◌else◌,
}
use council.Persona.{PersonaId}
use council.Reducer.{DebatePhase, DebateState, DebateError}
use council.Stage.Bubble.{display_name}
use council.Ui.Html.{Html, Tag, Attr, blank, el, says, each, only_if, ◌⊹◌, aria_hidden}
use council.Ui.Decimal.{decimal}

unfoldable pub status_text : DebatePhase → ℕ → ℕ → Option Text
status_text DebatePhase.connecting current rounds = some (text "Convening the council…")
status_text DebatePhase.debating current rounds =
    some (text "Round " ++ (decimal (min current rounds) ++ (text " of " ++ decimal rounds)))
status_text DebatePhase.moderating current rounds = some (text "The Moderator is deliberating…")
status_text DebatePhase.done current rounds = some (text "Verdict delivered")
status_text DebatePhase.stopped current rounds = some (text "Session stopped")
status_text DebatePhase.idle current rounds = none
status_text DebatePhase.error current rounds = none

-- `e.persona === undefined`.
abbrev pub is_session_level : DebateError → Bool
is_session_level e = elim e.persona [ none ↦ true | some p ↦ false ]

-- `errors.find(...)`.
abbrev pub find_session_level : List DebateError → Option DebateError
find_session_level [] = none
find_session_level (e ∷ es) = if is_session_level e then some e else find_session_level es

-- `errors[errors.length - 1]`.
abbrev pub last_error : List DebateError → Option DebateError
last_error [] = none
last_error (e ∷ []) = some e
last_error (e ∷ f ∷ es) = last_error (f ∷ es)

-- `sessionLevel?.message ?? fallback?.message ?? ...`.
abbrev pub message_or : Option DebateError → Text → Text
message_or none t = t
message_or (some e) t = e.message

unfoldable pub terminal_message : DebateState → Text
terminal_message state =
    message_or (find_session_level state.errors)
      (message_or (last_error state.errors) (text "The council could not finish this session."))

-- `phase === "error"` and `phase === "done"`.
abbrev pub is_error : DebatePhase → Bool
is_error DebatePhase.error = true
is_error _ = false

abbrev pub is_done : DebatePhase → Bool
is_done DebatePhase.done = true
is_done _ = false

-- The errors with a persona, each with its persona's name.
unfoldable pub persona_failures : List DebateError → List (PersonaId × Text)
persona_failures [] = []
persona_failures (e ∷ es) = elim e.persona [
  | none ↦ persona_failures es
  | some p ↦ (p, e.message) ∷ persona_failures es
]

module _ {M : Type 0} where
  unfoldable pub connection_status : DebatePhase → ℕ → ℕ → Html M
  unfolding status_text
  connection_status phase current rounds = elim (status_text phase current rounds) [
    | none ↦ blank
    | some t ↦
        el Tag.p (Attr.role (text "status") ∷ Attr.live (text "polite") ∷ [])
          (el Tag.span (aria_hidden true ∷ []) blank ⊹ says t)
  ]

  unfoldable pub error_banner : DebateState → Html M
  unfolding terminal_message
  error_banner state = only_if (is_error state.phase) (
      el Tag.div (Attr.role (text "alert") ∷ [])
        (el Tag.span [] (says (text "Session ended.")) ⊹ says (text " " ++ terminal_message state)))

  unfoldable pub stage_announcer : DebateState → Html M
  unfolding persona_failures
  stage_announcer state = el Tag.div [] (
      el Tag.p (Attr.live (text "polite") ∷ []) (
        says (
          if is_done state.phase
          then text "The verdict is ready. Open the transcript to read the full debate."
          else []))
      ⊹ el Tag.div (Attr.live (text "assertive") ∷ []) (
          each (λ f. el Tag.p [] (says (display_name f.0 ++ (text "’s response failed: " ++ f.1))))
            (persona_failures state.errors)))
