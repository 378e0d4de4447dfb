-- ===== src/Player/Recording.antt =====
-- The recording of a session against the transcript that the reducer would show of it live.
use council.Prelude.{
  ℕ, ◌≡◌, refl, sym, ap, ◌∙◌, inl, inr, Option, none, some, List, [], ◌∷◌, map, Text, capped,
  capped-capped_append, capped-of_length_le, Bool-cases, arith,
}
use council.Prelude.Dict
use council.Persona.{PersonaId, same, moderator_id}
use council.Protocol.{DebateEvent, ErrorEvent, token, persona_done, round_complete, verdict}
use council.Reducer.{
  WsStatus, DebateInput, event, control, status, initial_state, run, rounds_of, text_at,
}
use council.Reducer.Transcript.{cell, cell-run, say, said_after}
use council.Player.State.{Player, max_turn_chars, append_text, get_text, reset}
use council.Player.{
  step, pump, feed, feed_status, record_event, record_error, arm, park, done, wait, Delay,
}
use council.Player.Keeps.{step-Keeps}
use council.Player.Session.{pump-cases}
use council.Player.Fidelity.Record.{get_text-append_text}

arm-text : (r : Player × Delay) → (arm r).text ≡ r.0.text
unfolding arm
arm-text (p, park) = refl
arm-text (p, done) = refl
arm-text (p, wait d) = refl

pump-text : (p : Player) → (pump p).text ≡ p.text
pump-text p = elim (pump-cases p) [
  | inl e ↦ ap (λ q. q.text) e
  | inr e ↦ ap (λ q. q.text) e ∙ arm-text (step p) ∙ (step-Keeps p).text
]

record_error-text :
    (e : ErrorEvent) (o : Option PersonaId) (p : Player) → (record_error e o p).text ≡ p.text
unfolding record_error
record_error-text e none p = refl
record_error-text e (some q) p = ground arith

token-text :
    (q : PersonaId) (s : ℕ) (x : PersonaId) (r : ℕ) (delta : Text) (p : Player)
    → get_text q s (record_event (token x r delta) p) ≡ get_text q s (append_text x r delta p)
unfolding record_event append_text get_text
token-text q s x r delta p = elim (Bool-cases (same x moderator_id)) [
  | inl e ↦ rw e refl
  | inr e ↦ rw e refl
]

-- What a recorded event says, up to the cap.
record_event-get_text :
    (q : PersonaId) (s : ℕ) (said : Text) (e : DebateEvent) (p : Player)
    → get_text q s p ≡ capped max_turn_chars said
    → get_text q s (record_event e p) ≡ capped max_turn_chars (say q s said (event e))
unfolding record_event say get_text
record_event-get_text q s said (token x r delta) p h =
    token-text q s x r delta p
    ∙ ground (
      arith,
      get_text-append_text x r delta p q s,
      capped-capped_append max_turn_chars said delta,
    )
record_event-get_text q s said (persona_done x r) p h = h
record_event-get_text q s said (round_complete r) p h = h
record_event-get_text q s said (verdict v) p h = h
record_event-get_text q s said (DebateEvent.error e) p h =
    ap (λ m. text_at s (rounds_of q m)) (record_error-text e e.persona p) ∙ h

feed-get_text :
    (q : PersonaId) (s : ℕ) (e : DebateEvent) (p : Player)
    → get_text q s (feed e p) ≡ get_text q s (record_event e p)
unfolding feed get_text
feed-get_text q s e p = ap (λ m. text_at s (rounds_of q m)) (pump-text (record_event e p))

pub feed_all : List DebateEvent → Player → Player
unfolding feed
feed_all [] p = p
feed_all (e ∷ es) p = feed_all es (feed e p)

abbrev pub inputs : List DebateEvent → List DebateInput
inputs es = map (λ e. event e) es

feed_all-get_text :
    (q : PersonaId) (s : ℕ) (said : Text) (es : List DebateEvent) (p : Player)
    → get_text q s p ≡ capped max_turn_chars said
    → get_text q s (feed_all es p) ≡ capped max_turn_chars (said_after q s said (inputs es))
unfolding feed_all said_after
feed_all-get_text q s said [] p h = h
feed_all-get_text q s said (e ∷ es) p h =
    feed_all-get_text q s (say q s said (event e)) es (feed e p)
      (feed-get_text q s e p ∙ record_event-get_text q s said e p h)

-- Fed with the events of a session, the player records for each persona and round exactly what the
-- reducer would show in that cell, had it been given the events as they arrived.
pub feed_all-cell :
    (q : PersonaId) (s : ℕ) (es : List DebateEvent) (p : Player)
    → get_text q s (feed_all es (feed_status WsStatus.connecting p))
      ≡ cell (run initial_state (control (status WsStatus.connecting) ∷ inputs es)) q s
unfolding feed_status get_text reset rounds_of text_at Dict.get said_after say
feed_all-cell q s es p =
    feed_all-get_text q s [] es (feed_status WsStatus.connecting p)
      (sym (capped-of_length_le max_turn_chars [] (omega arith)))
    ∙ sym (cell-run q s (control (status WsStatus.connecting) ∷ inputs es))
