-- ===== src/Player/State.antt =====
-- The fields of `DebatePlayer` and its recording helpers, frontend/src/state/debatePlayer.ts.
-- The callback `dispatch` is modelled by the sequence of the inputs that it was called with.
use council.Prelude.{
  ℕ, ℕ-Key, ◌*◌, Bool, false, Option, none, List, [], ◌∷◌, ◌++◌, Text, capped, ltb, if◌then◌else◌,
}
use council.Prelude.Dict
use council.Prelude.Dict.{Dict}
use council.Persona.{PersonaId, PersonaId-Key}
use council.Protocol.{ErrorEvent}
use council.Reducer.{DebateInput, rounds_of, text_at}

-- A non-negative JavaScript number as an exact fraction.
pub record Fraction : Type 0 where
  pub num : ℕ
  pub den : ℕ

abbrev pub fraction : ℕ → ℕ → Fraction
fraction n d = record { num = n; den = d }

abbrev pub lt_fraction : Fraction → Fraction → Bool
lt_fraction a b = ltb (a.num * b.den) (b.num * a.den)

-- `Math.max` and `Math.min`.
abbrev pub max_fraction : Fraction → Fraction → Fraction
max_fraction a b = if lt_fraction a b then b else a

abbrev pub min_fraction : Fraction → Fraction → Fraction
min_fraction a b = if lt_fraction b a then b else a

-- `n / a` for a whole number n.
abbrev pub over : ℕ → Fraction → Fraction
over n a = fraction (n * a.den) a.num

abbrev pub tick_ms_base : ℕ
tick_ms_base = 300

abbrev pub turn_gap_ms_base : ℕ
turn_gap_ms_base = 550

abbrev pub min_rate : Fraction
min_rate = fraction 1 2

abbrev pub max_rate : Fraction
max_rate = fraction 4 1

abbrev pub max_turn_chars : ℕ
max_turn_chars = 200000

pub data Cursor : Type 0 where
  panelist : ℕ → ℕ → Cursor
  moderator done : Cursor

-- `index` is `none` for the source's -1, the moderator's.
pub record ActiveTurn : Type 0 where
  pub persona : PersonaId
  pub round : ℕ
  pub index : Option ℕ
  pub text : Text
  pub pos : ℕ
  pub is_moderator : Bool

pub record PendingDone : Type 0 where
  pub persona : PersonaId
  pub round : ℕ

-- `timer` holds the delay for which a timer is armed, and `sent` what was dispatched, oldest first.
pub record Player : Type 0 where
  pub reduced_motion : Bool
  pub timer : Option Fraction
  pub rate : Fraction
  pub draining : Bool
  pub text : Dict PersonaId (Dict ℕ Text)
  pub round_complete : List ℕ
  pub persona_errors : Dict PersonaId ErrorEvent
  pub verdict : Option Text
  pub session_error : Option ErrorEvent
  pub closed : Bool
  pub moderator_round : Option ℕ
  pub cursor : Cursor
  pub active : Option ActiveTurn
  pub pending_done : Option PendingDone
  pub pending_round_complete : Option ℕ
  pub pending_errors : List ErrorEvent
  pub sent : List DebateInput

-- The constructor; the preference for reduced motion is an argument.
abbrev pub new_player : Bool → Player
new_player reduced_motion = record {
  reduced_motion = reduced_motion;
  timer = none;
  rate = fraction 1 1;
  draining = false;
  text = [];
  round_complete = [];
  persona_errors = [];
  verdict = none;
  session_error = none;
  closed = false;
  moderator_round = none;
  cursor = panelist 1 0;
  active = none;
  pending_done = none;
  pending_round_complete = none;
  pending_errors = [];
  sent = [];
}

abbrev pub dispatch : Player → DebateInput → Player
dispatch p input = record p { sent = p.sent ++ input ∷ [] }

abbrev pub dispatch_all : Player → List DebateInput → Player
dispatch_all p inputs = record p { sent = p.sent ++ inputs }

unfoldable pub reset : Player → Player
reset p = record p {
  timer = none;
  text = [];
  round_complete = [];
  persona_errors = [];
  verdict = none;
  session_error = none;
  closed = false;
  moderator_round = none;
  cursor = panelist 1 0;
  active = none;
  pending_done = none;
  pending_round_complete = none;
  pending_errors = [];
  draining = false;
}

unfoldable pub set_rate : Fraction → Player → Player
set_rate multiplier p = record p { rate = min_fraction max_rate (max_fraction min_rate multiplier) }

unfoldable pub get_rate : Player → Fraction
get_rate p = p.rate

unfoldable pub tick_ms : Player → Fraction
tick_ms p = over tick_ms_base p.rate

unfoldable pub turn_gap_ms : Player → Fraction
turn_gap_ms p = over turn_gap_ms_base p.rate

unfoldable pub append_text : PersonaId → ℕ → Text → Player → Player
append_text persona round delta p =
    let rounds : Dict ℕ Text = rounds_of persona p.text in
    let combined : Text = text_at round rounds ++ delta in
    record p {
      text = Dict.set persona (Dict.set round (capped max_turn_chars combined) rounds) p.text;
    }

unfoldable pub get_text : PersonaId → ℕ → Player → Text
get_text persona round p = text_at round (rounds_of persona p.text)

-- The loop of `maxPanelRound`.
unfoldable pub max_from : ℕ → List ℕ → ℕ
max_from best [] = best
max_from best (r ∷ rs) = max_from (if ltb best r then r else best) rs

unfoldable pub max_panel_round : Player → ℕ
unfolding max_from
max_panel_round p = max_from 0 p.round_complete
