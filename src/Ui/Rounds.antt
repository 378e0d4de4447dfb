-- ===== src/Ui/Rounds.antt =====
-- Which rounds the views offer and show.
use council.Prelude.{ℕ, ℕ-Key, ◌≡◌, true, some, Text, arith, ◌⊎◌}
use council.Prelude.Dict
use council.Prelude.Dict.{Dict}
use council.Persona.{PersonaId, PersonaId-Key}
use council.Protocol.Ask.{whole, valid_rounds}
use council.Reducer.{DebatePhase, DebateState, rounds_of}
use council.Ui.Controls.{round_options}
use council.Ui.Html.{Html}

-- The selector offers exactly the numbers of rounds that buildAsk accepts.
pub round_options-valid_rounds : (n : ℕ) → Dict.has n round_options ≡ valid_rounds (whole n)
unfolding Dict.has
round_options-valid_rounds n = ground arith

-- A round has something to show: a text, or the panelist who speaks in it.
abbrev pub IsSpoken : DebateState → PersonaId → ℕ → Type 0
IsSpoken state id r =
    ((t : Text) × (Dict.get r (rounds_of id state.transcript) ≡ some t))
    ⊎ ((Dict.has id state.active_speakers ≡ true)
        × (r ≡ state.current_round)
        × (state.phase ≡ DebatePhase.debating))
