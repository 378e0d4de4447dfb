-- ===== src/Reducer/Invariant.antt =====
-- The reducer's bounds on its own state, for every sequence of inputs.
use council.Prelude.{
  ◌-◌, ◌≤◌, ◌≡◌, refl, inl, inr, not, ◌++◌, List, [], ◌∷◌, Option, none, some, arith, text, length,
  length-append, length-drop, if◌then◌else◌, Bool-cases,
}
use council.Prelude.Dict
use council.Persona.{PersonaId, PersonaId-Key, same, moderator_id}
use council.Protocol.{DebateEvent, token, persona_done, round_complete, verdict}
use council.Reducer.{
  WsStatus, DebatePhase, DebateState, DebateError, DebateInput, event, control, status, transport,
  cancel, max_errors, initial_state, with_active, without_active, with_error, active_after_error,
  is_terminal_error, reduce_status, debate_reducer, run,
}

-- The phases in which nobody can be streaming.
abbrev pub IsQuiet : DebatePhase → Type 0
IsQuiet DebatePhase.debating = ⊥
IsQuiet DebatePhase.moderating = ⊥
IsQuiet DebatePhase.done = ⊥
IsQuiet _ = Unit {0}

pub record IsWellFormed (s : DebateState) : Type 0 where
  pub errors_bounded : length s.errors ≤ max_errors
  pub roster : Dict.IsDistinct s.active_speakers
  pub quiet : IsQuiet s.phase → s.active_speakers ≡ []

length-with_error :
    (errors : List DebateError) (err : DebateError)
    → length errors ≤ max_errors
    → length (with_error errors err) ≤ max_errors
unfolding with_error
length-with_error errors err h =
    let next : List DebateError = errors ++ err ∷ [] in
    ground (arith, length-append errors (err ∷ []), length-drop (length next - max_errors) next)

without_active-IsDistinct :
    (ps : List PersonaId) (q : PersonaId)
    → Dict.IsDistinct ps
    → Dict.IsDistinct (without_active ps q)
unfolding without_active
without_active-IsDistinct ps q h = Dict.keep-IsDistinct (λ p. not (same p q)) ps h

with_active-IsDistinct :
    (ps : List PersonaId) (q : PersonaId) → Dict.IsDistinct ps → Dict.IsDistinct (with_active ps q)
unfolding with_active
with_active-IsDistinct ps q h = ground (arith, Dict.append-IsDistinct q ps)

without_active-nil : (ps : List PersonaId) (q : PersonaId) → ps ≡ [] → without_active ps q ≡ []
unfolding without_active
without_active-nil [] q h = refl
without_active-nil (p ∷ ps) q h = cc

active_after_error-IsDistinct :
    (ps : List PersonaId) (o : Option PersonaId)
    → Dict.IsDistinct ps
    → Dict.IsDistinct (active_after_error ps o)
active_after_error-IsDistinct ps none h = tt
active_after_error-IsDistinct ps (some q) h = ground (arith, without_active-IsDistinct ps q h)

-- A terminal error clears the roster, and any other keeps the phase.
quiet_after_error :
    (phase : DebatePhase) (ps : List PersonaId) (o : Option PersonaId)
    → (IsQuiet phase → ps ≡ [])
    → IsQuiet (if is_terminal_error o then DebatePhase.error else phase)
    → active_after_error ps o ≡ []
quiet_after_error phase ps none h q = refl
quiet_after_error phase ps (some p) h q = elim (Bool-cases (same p moderator_id)) [
  | inl e ↦ rw e
  | inr e ↦ rw e (without_active-nil ps p (h (rw e at q)))
]

reduce_status-IsWellFormed :
    (s : DebateState) (w : WsStatus) → IsWellFormed s → IsWellFormed (reduce_status s w)
unfolding reduce_status
reduce_status-IsWellFormed s WsStatus.idle v = v
reduce_status-IsWellFormed s WsStatus.connecting v = record {
  errors_bounded = omega arith;
  roster = tt;
  quiet = λ q. refl;
}
reduce_status-IsWellFormed s WsStatus.opened v = v
reduce_status-IsWellFormed s WsStatus.closed v =
    let closed_error : DebateError = record {
      persona = none;
      message = text "connection closed before a verdict";
    } in
    ground (arith, length-with_error s.errors closed_error v.errors_bounded)
reduce_status-IsWellFormed s WsStatus.error v = v

pub debate_reducer-IsWellFormed :
    (s : DebateState) (i : DebateInput) → IsWellFormed s → IsWellFormed (debate_reducer s i)
unfolding debate_reducer
debate_reducer-IsWellFormed s (event (token p r delta)) v = record {
  errors_bounded = v.errors_bounded;
  roster = with_active-IsDistinct s.active_speakers p v.roster;
  quiet = ground arith;
}
debate_reducer-IsWellFormed s (event (persona_done p r)) v = record {
  errors_bounded = v.errors_bounded;
  roster = without_active-IsDistinct s.active_speakers p v.roster;
  quiet = λ q. without_active-nil s.active_speakers p (v.quiet q);
}
debate_reducer-IsWellFormed s (event (round_complete r)) v = record {
  errors_bounded = v.errors_bounded;
  roster = v.roster;
  quiet = v.quiet;
}
debate_reducer-IsWellFormed s (event (verdict t)) v = record {
  errors_bounded = v.errors_bounded;
  roster = without_active-IsDistinct s.active_speakers moderator_id v.roster;
  quiet = λ q. absurd q;
}
debate_reducer-IsWellFormed s (event (DebateEvent.error e)) v = record {
  errors_bounded = length-with_error s.errors _ v.errors_bounded;
  roster = active_after_error-IsDistinct s.active_speakers e.persona v.roster;
  quiet = quiet_after_error s.phase s.active_speakers e.persona v.quiet;
}
debate_reducer-IsWellFormed s (control (status w)) v = reduce_status-IsWellFormed s w v
debate_reducer-IsWellFormed s (control (transport m)) v = record {
  errors_bounded = length-with_error s.errors _ v.errors_bounded;
  roster = v.roster;
  quiet = v.quiet;
}
debate_reducer-IsWellFormed s (control cancel) v = ground arith

run-IsWellFormed_from :
    (s : DebateState) (is : List DebateInput) → IsWellFormed s → IsWellFormed (run s is)
unfolding run
run-IsWellFormed_from s [] v = v
run-IsWellFormed_from s (i ∷ is) v =
    run-IsWellFormed_from (debate_reducer s i) is (debate_reducer-IsWellFormed s i v)

initial_state-IsWellFormed : IsWellFormed initial_state
initial_state-IsWellFormed = record { errors_bounded = omega arith; roster = tt; quiet = λ q. refl }

-- After any sequence of inputs at most `max_errors` errors are kept, nobody is twice on the roster,
-- and in the phases idle, connecting, stopped and error the roster is empty.
pub run-IsWellFormed : (is : List DebateInput) → IsWellFormed (run initial_state is)
run-IsWellFormed is = run-IsWellFormed_from initial_state is initial_state-IsWellFormed
