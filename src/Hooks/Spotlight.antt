-- ===== src/Hooks/Spotlight.antt =====
-- Whether the verdict panel is open, frontend/src/state/useVerdictSpotlight.ts.
use council.Prelude.{
  ◌≡◌, refl, ◌∙◌, Bool, true, false, not, ◌&&◌, List, [], ◌∷◌, if◌then◌else◌, arith,
}
use council.Reducer.{DebatePhase}

-- `MODERATOR_PHASES.has(phase)`.
abbrev pub moderator_phases : DebatePhase → Bool
moderator_phases DebatePhase.moderating = true
moderator_phases DebatePhase.done = true
moderator_phases _ = false

pub record VerdictSpotlight : Type 0 where
  pub is_open : Bool
  pub prev_phase : DebatePhase

-- The hook's first render.
abbrev pub new_spotlight : DebatePhase → VerdictSpotlight
new_spotlight phase = record { is_open = false; prev_phase = phase }

-- The effect, which runs when the phase changes.
unfoldable pub follow_phase : DebatePhase → VerdictSpotlight → VerdictSpotlight
follow_phase phase s =
    let entered_moderator_flow : Bool =
      not (moderator_phases s.prev_phase) && moderator_phases phase in
    record { is_open = if entered_moderator_flow then true else s.is_open; prev_phase = phase }

unfoldable pub dismiss : VerdictSpotlight → VerdictSpotlight
dismiss s = record s { is_open = false }

-- The state after the debate went through some phases.
unfoldable pub follow_all : List DebatePhase → VerdictSpotlight → VerdictSpotlight
unfolding follow_phase
follow_all [] s = s
follow_all (phase ∷ phases) s = follow_all phases (follow_phase phase s)

abbrev pub all_moderator : List DebatePhase → Bool
all_moderator [] = true
all_moderator (phase ∷ phases) = moderator_phases phase && all_moderator phases

follow_all-keeps :
    (phases : List DebatePhase) (s : VerdictSpotlight)
    → moderator_phases s.prev_phase ≡ true
    → all_moderator phases ≡ true
    → (follow_all phases s).is_open ≡ s.is_open
unfolding follow_all follow_phase
follow_all-keeps [] s m h = refl
follow_all-keeps (phase ∷ phases) s m h =
    ground (arith, follow_all-keeps phases (follow_phase phase s))

-- The panel opens when the moderator's flow is entered from outside and stays open through it, and
-- once dismissed there, it stays closed for as long as the flow lasts.
pub follow_all-dismiss :
    (first : DebatePhase) (phases more : List DebatePhase) (s : VerdictSpotlight)
    → moderator_phases s.prev_phase ≡ false
    → moderator_phases first ≡ true
    → all_moderator phases ≡ true
    → all_moderator more ≡ true
    → ((follow_all phases (follow_phase first s)).is_open ≡ true)
      × ((follow_all more (dismiss (follow_phase first s))).is_open ≡ false)
unfolding follow_phase dismiss
follow_all-dismiss first phases more s o f h k = (
  follow_all-keeps phases (follow_phase first s) f h ∙ ground arith,
  follow_all-keeps more (dismiss (follow_phase first s)) f k,
)
