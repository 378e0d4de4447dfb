-- ===== src/Reducer/Transcript.antt =====
-- What the reducer does to one cell of the transcript.
use council.Prelude.{
  ℕ, ℕ-Key, ◌≡◌, refl, sym, Bool, true, ◌&&◌, List, [], ◌∷◌, ◌++◌, arith, Text, if◌then◌else◌,
  capped, nat_eq, nat_eq_iff, capped-capped_append, capped-of_length_le,
}
use council.Prelude.Dict
use council.Prelude.Dict.{Dict}
use council.Persona.{PersonaId, PersonaId-Key, same, same_iff}
use council.Protocol.{DebateEvent, token, persona_done, round_complete, verdict}
use council.Reducer.{
  WsStatus, DebateState, DebateInput, event, control, status, transport, cancel, max_cell_chars,
  initial_state, rounds_of, text_at, append_delta, debate_reducer, run,
}

-- The text shown for a persona in a round; absent keys show nothing.
abbrev pub cell_of : Dict PersonaId (Dict ℕ Text) → PersonaId → ℕ → Text
cell_of transcript persona round = text_at round (rounds_of persona transcript)

abbrev pub cell : DebateState → PersonaId → ℕ → Text
cell state persona round = cell_of state.transcript persona round

-- The test that a token for `p` in round `r` is one for `q` in round `s`.
abbrev pub same_turn : PersonaId → ℕ → PersonaId → ℕ → Bool
same_turn p r q s = same p q && nat_eq r s

-- That test tells the turn.
pub same_turn_eq : (p q : PersonaId) (r s : ℕ) → same_turn p r q s ≡ true → (q ≡ p) × (s ≡ r)
same_turn_eq p q r s h = ground (arith, same_iff p q, nat_eq_iff r s)

pub rounds_of-set :
    (p q : PersonaId) (rounds : Dict ℕ Text) (t : Dict PersonaId (Dict ℕ Text))
    → rounds_of q (Dict.set p rounds t) ≡ (if same p q then rounds else rounds_of q t)
unfolding rounds_of
rounds_of-set p q rounds t = ground (arith, Dict.get-set q p rounds t)

pub text_at-set :
    (r s : ℕ) (x : Text) (rounds : Dict ℕ Text)
    → text_at s (Dict.set r x rounds) ≡ (if nat_eq r s then x else text_at s rounds)
unfolding text_at
text_at-set r s x rounds = ground (arith, Dict.get-set s r x rounds)

append_delta_lem :
    (t : Dict PersonaId (Dict ℕ Text)) (p : PersonaId) (r : ℕ) (delta : Text)
    → append_delta t p r delta
      ≡ Dict.set p (Dict.set r (capped max_cell_chars (cell_of t p r ++ delta)) (rounds_of p t)) t
unfolding append_delta
append_delta_lem t p r delta = refl

-- A delta lands in its own cell, capped, and in no other.
pub cell_of-append_delta :
    (t : Dict PersonaId (Dict ℕ Text)) (p : PersonaId) (r : ℕ) (delta : Text) (q : PersonaId)
    (s : ℕ)
    → cell_of (append_delta t p r delta) q s ≡ (
        if same_turn p r q s then capped max_cell_chars (cell_of t q s ++ delta) else cell_of t q s)
cell_of-append_delta t p r delta q s =
    let new : Text = capped max_cell_chars (cell_of t p r ++ delta) in
    ground (
      arith,
      append_delta_lem t p r delta,
      rounds_of-set p q (Dict.set r new (rounds_of p t)) t,
      text_at-set r s new (rounds_of p t),
      same_iff p q,
      nat_eq_iff r s,
    )

-- What the inputs say for `q` in round `s`, with no bound: a connecting status starts a new session.
unfoldable pub say : PersonaId → ℕ → Text → DebateInput → Text
say q s said (event (token p r delta)) = if same_turn p r q s then said ++ delta else said
say q s said (control (status WsStatus.connecting)) = []
say q s said _ = said

unfoldable pub said_after : PersonaId → ℕ → Text → List DebateInput → Text
said_after q s said [] = said
said_after q s said (input ∷ inputs) = said_after q s (say q s said input) inputs

cell-initial_state : (q : PersonaId) (s : ℕ) → cell initial_state q s ≡ capped max_cell_chars []
unfolding rounds_of text_at Dict.get
cell-initial_state q s = sym (capped-of_length_le max_cell_chars [] (omega arith))

-- One input changes a cell by what it says there, up to the cap.
pub cell-debate_reducer :
    (q : PersonaId) (s : ℕ) (said : Text) (state : DebateState) (input : DebateInput)
    → cell state q s ≡ capped max_cell_chars said
    → cell (debate_reducer state input) q s ≡ capped max_cell_chars (say q s said input)
unfolding debate_reducer say
cell-debate_reducer q s said state (event (token p r delta)) h = ground (
  arith,
  cell_of-append_delta state.transcript p r delta q s,
  capped-capped_append max_cell_chars said delta,
)
cell-debate_reducer q s said state (event (persona_done p r)) h = h
cell-debate_reducer q s said state (event (round_complete r)) h = h
cell-debate_reducer q s said state (event (verdict v)) h = h
cell-debate_reducer q s said state (event (DebateEvent.error e)) h = h
cell-debate_reducer q s said state (control (status WsStatus.connecting)) h = cell-initial_state q s
cell-debate_reducer q s said state (control (status WsStatus.idle)) h = h
cell-debate_reducer q s said state (control (status WsStatus.opened)) h = h
cell-debate_reducer q s said state (control (status WsStatus.closed)) h = ground arith
cell-debate_reducer q s said state (control (status WsStatus.error)) h = h
cell-debate_reducer q s said state (control (transport m)) h = h
cell-debate_reducer q s said state (control cancel) h = ground arith

cell-run_from :
    (q : PersonaId) (s : ℕ) (said : Text) (state : DebateState) (inputs : List DebateInput)
    → cell state q s ≡ capped max_cell_chars said
    → cell (run state inputs) q s ≡ capped max_cell_chars (said_after q s said inputs)
unfolding run said_after
cell-run_from q s said state [] h = h
cell-run_from q s said state (input ∷ inputs) h =
    cell-run_from q s (say q s said input) (debate_reducer state input) inputs
      (cell-debate_reducer q s said state input h)

-- After any sequence of inputs, the cell of a persona and a round holds exactly the concatenation
-- of that persona's deltas for that round since the last connecting status, cut at the cap.
pub cell-run :
    (q : PersonaId) (s : ℕ) (inputs : List DebateInput)
    → cell (run initial_state inputs) q s ≡ capped max_cell_chars (said_after q s [] inputs)
cell-run q s inputs = cell-run_from q s [] initial_state inputs (cell-initial_state q s)
