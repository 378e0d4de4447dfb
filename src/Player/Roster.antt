-- ===== src/Player/Roster.antt =====
-- Who may be on the roster, and what the reducer does to it.
use council.Prelude.{
  ℕ, ◌≡◌, refl, ap, ◌∙◌, ◌⊎◌, inl, inr, true, Option, none, some, List, [], ◌∷◌, ◌++◌, map, arith,
  Text,
}
use council.Prelude.Dict
use council.Persona.{PersonaId, PersonaId-Key, same_iff, moderator_id}
use council.Protocol.{DebateEvent, ErrorEvent, token}
use council.Reducer.{
  DebateState, DebateInput, event, with_active, without_active, reduce_event, debate_reducer, run,
  run-append, initial_state,
}
use council.Player.State.{ActiveTurn, PendingDone, Player}
use council.Player.Cases.{done_inputs, round_inputs, pending_inputs, flushed}
use council.Player.Shown.{shown}

-- Nobody, or this persona alone.
abbrev pub AtMost : PersonaId → List PersonaId → Type 0
AtMost x ps = (ps ≡ []) ⊎ (ps ≡ x ∷ [])

-- Who may be on the roster: the one whose turn is revealed, or who just finished, and no other.
abbrev pub Floor : Option ActiveTurn → Option PendingDone → List PersonaId → Type 0
Floor none none ps = ps ≡ []
Floor none (some d) ps = AtMost d.persona ps
Floor (some a) none ps = AtMost a.persona ps × (a.is_moderator ≡ true → a.persona ≡ moderator_id)
Floor (some a) (some d) ps = ⊥

abbrev pub roster : Player → List PersonaId
roster p = (shown p).active_speakers

abbrev pub HasFloor : Player → Type 0
HasFloor p = Floor p.active p.pending_done (roster p)

-- What the reducer does to such a roster.
pub token_roster :
    (s : DebateState) (x : PersonaId) (r : ℕ) (t : Text)
    → AtMost x s.active_speakers
    → (debate_reducer s (event (token x r t))).active_speakers ≡ x ∷ []
unfolding debate_reducer reduce_event with_active Dict.has
token_roster s x r t (inl e) = rw e refl
token_roster s x r t (inr e) = rw (e, (same_iff x x).1 refl) refl

pub without_lem : (x : PersonaId) (ps : List PersonaId) → AtMost x ps → without_active ps x ≡ []
unfolding without_active
without_lem x ps (inl e) = rw e refl
without_lem x ps (inr e) = rw (e, (same_iff x x).1 refl) refl

pub error_roster :
    (s : DebateState) (e : ErrorEvent)
    → s.active_speakers ≡ []
    → (debate_reducer s (event (DebateEvent.error e))).active_speakers ≡ []
unfolding debate_reducer reduce_event without_active
error_roster s e h = ground arith

pub errors_roster :
    (s : DebateState) (es : List ErrorEvent)
    → s.active_speakers ≡ []
    → (run s (map (λ e. event (DebateEvent.error e)) es)).active_speakers ≡ []
unfolding run
errors_roster s [] h = h
errors_roster s (e ∷ es) h =
    errors_roster (debate_reducer s (event (DebateEvent.error e))) es (error_roster s e h)

pub round_roster :
    (s : DebateState) (o : Option ℕ)
    → s.active_speakers ≡ []
    → (run s (round_inputs o)).active_speakers ≡ []
unfolding run debate_reducer reduce_event
round_roster s none h = h
round_roster s (some r) h = h

pub done_roster :
    (s : DebateState) (o : Option PendingDone)
    → Floor none o s.active_speakers
    → (run s (done_inputs o)).active_speakers ≡ []
unfolding run debate_reducer reduce_event
done_roster s none h = h
done_roster s (some d) h = without_lem d.persona s.active_speakers h

-- A flush leaves nobody on the roster.
pub flushed-roster : (p : Player) → Floor none p.pending_done (roster p) → roster (flushed p) ≡ []
unfolding shown
flushed-roster p h =
    let s0 : DebateState = run initial_state p.sent in
    let s1 : DebateState = run s0 (done_inputs p.pending_done) in
    let s2 : DebateState = run s1 (round_inputs p.pending_round_complete) in
    let es : List DebateInput = map (λ e. event (DebateEvent.error e)) p.pending_errors in
    ap (λ s. s.active_speakers)
      (run-append initial_state p.sent (pending_inputs p)
        ∙ run-append s0 (done_inputs p.pending_done) (round_inputs p.pending_round_complete ++ es)
        ∙ run-append s1 (round_inputs p.pending_round_complete) es)
    ∙ errors_roster s2 p.pending_errors
        (round_roster s1 p.pending_round_complete (done_roster s0 p.pending_done h))
