-- ===== src/Player/Heard.antt =====
-- What the dispatched inputs have told of each persona's turns.
use council.Prelude.{
  ℕ, ℕ-Key, ◌≡◌, refl, fun_ext, ◌∙◌, Bool, List, [], ◌∷◌, ◌++◌, map, Text, arith, Option-cases,
  Bool-cases, inl, inr,
}
use council.Prelude.Dict
use council.Persona.{PersonaId}
use council.Protocol.{ErrorEvent, DebateEvent, token}
use council.Reducer.{WsStatus, DebateInput, event, control, status}
use council.Reducer.Transcript.{say, said_after}
use council.Player.State.{Player, dispatch, get_text}
use council.Player.{finalize_terminal}
use council.Player.Cases.{flushed, pending_inputs}

said_after-append :
    (q : PersonaId) (s : ℕ) (said : Text) (xs ys : List DebateInput)
    → said_after q s said (xs ++ ys) ≡ said_after q s (said_after q s said xs) ys
unfolding said_after
said_after-append q s said [] ys = refl
said_after-append q s said (x ∷ xs) ys = said_after-append q s (say q s said x) xs ys

-- The text of the dispatched tokens for a persona and a round, since the session began.
unfoldable pub heard : Player → PersonaId → ℕ → Text
heard p q s = said_after q s [] p.sent

-- The recorded text, and the test that a round is buffered.
abbrev pub kept : Player → PersonaId → ℕ → Text
kept p q s = get_text q s p

abbrev pub buffered : Player → ℕ → Bool
buffered p s = Dict.has s p.round_complete

-- One more input.
pub heard-dispatch :
    (p : Player) (input : DebateInput) (q : PersonaId) (s : ℕ)
    → heard (dispatch p input) q s ≡ say q s (heard p q s) input
unfolding heard said_after
heard-dispatch p input q s = said_after-append q s [] p.sent (input ∷ [])

-- Inputs that tell nothing.
abbrev pub IsSilent : DebateInput → Type 0
IsSilent (event (token p r delta)) = ⊥
IsSilent (control (status WsStatus.connecting)) = ⊥
IsSilent _ = Unit {0}

say-IsSilent :
    (q : PersonaId) (s : ℕ) (said : Text) (i : DebateInput) → IsSilent i → say q s said i ≡ said
unfolding say
say-IsSilent q s said i h = ground arith

pub heard-IsSilent : (p : Player) (i : DebateInput) → IsSilent i → heard (dispatch p i) ≡ heard p
heard-IsSilent p i h =
    fun_ext λ q. fun_ext λ s. heard-dispatch p i q s ∙ say-IsSilent q s (heard p q s) i h

said_after-errors :
    (q : PersonaId) (s : ℕ) (said : Text) (es : List ErrorEvent)
    → said_after q s said (map (λ e. event (DebateEvent.error e)) es) ≡ said
unfolding said_after say
said_after-errors q s said [] = refl
said_after-errors q s said (e ∷ es) = said_after-errors q s said es

said_after-pending :
    (q : PersonaId) (s : ℕ) (said : Text) (p : Player)
    → said_after q s said (pending_inputs p) ≡ said
unfolding said_after say
said_after-pending q s said p = ground (arith, said_after-errors q s said p.pending_errors)

-- Flushing what is pending tells nothing.
pub heard-flushed : (p : Player) → heard (flushed p) ≡ heard p
unfolding heard
heard-flushed p = fun_ext λ q. fun_ext λ s.
    said_after-append q s [] p.sent (pending_inputs p)
    ∙ said_after-pending q s (said_after q s [] p.sent) p

pub heard-finalize_terminal : (p : Player) → heard (finalize_terminal p) ≡ heard p
unfolding finalize_terminal heard
heard-finalize_terminal p = elim (Option-cases p.session_error) [
  | inl e ↦ elim (Bool-cases p.closed) [
    | inl c ↦ rw (e, c, finalize_terminal) (heard-IsSilent p (control (status WsStatus.closed)) tt)
    | inr c ↦ rw (e, c, finalize_terminal) refl
  ]
  | inr (x, e) ↦ rw (e, finalize_terminal) (heard-IsSilent p (event (DebateEvent.error x)) tt)
]
