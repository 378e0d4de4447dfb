-- ===== src/Hooks/Frameloop.antt =====
-- The render loop's mode, frontend/src/three/useStageFrameloop.ts.
use council.Prelude.{◌≡◌, Bool, true, false, ◌||◌, List, [], ◌∷◌, if◌then◌else◌, arith}
use council.Reducer.{DebatePhase, terminal}

-- `ACTIVE_PHASES.has(phase)`.
abbrev pub active_phases : DebatePhase → Bool
active_phases DebatePhase.connecting = true
active_phases DebatePhase.debating = true
active_phases DebatePhase.moderating = true
active_phases _ = false

-- `phase === "idle"`.
abbrev pub is_idle : DebatePhase → Bool
is_idle DebatePhase.idle = true
is_idle _ = false

pub data FrameloopMode : Type 0 where
  always demand : FrameloopMode

-- `armed` is whether the timer is pending, and `phase` the one that the effect saw last.
pub record StageFrameloop : Type 0 where
  pub mode : FrameloopMode
  pub armed : Bool
  pub phase : DebatePhase

unfoldable pub mode_for : DebatePhase → FrameloopMode
mode_for phase = if active_phases phase then always else if is_idle phase then demand else always

-- The effect of a phase; the cleanup of the one before clears its timer, as the effect does itself.
unfoldable pub enter_phase : DebatePhase → StageFrameloop → StageFrameloop
unfolding mode_for
enter_phase phase s =
    if active_phases phase || is_idle phase
    then record { mode = mode_for phase; armed = false; phase = phase }
    else record { mode = always; armed = true; phase = phase }

-- The first render and its effect.
unfoldable pub mount : DebatePhase → StageFrameloop
unfolding enter_phase mode_for
mount phase = enter_phase phase (record { mode = mode_for phase; armed = false; phase = phase })

-- The timer's callback, after the settle window, if it was not cleared.
unfoldable pub settle : StageFrameloop → StageFrameloop
settle s = if s.armed then record s { mode = demand; armed = false } else s

pub data FrameloopStep : Type 0 where
  phase_changes : DebatePhase → FrameloopStep
  window_ends : FrameloopStep

unfoldable pub frameloop_step : FrameloopStep → StageFrameloop → StageFrameloop
unfolding enter_phase settle
frameloop_step (phase_changes phase) s = enter_phase phase s
frameloop_step window_ends s = settle s

unfoldable pub frameloop_run : List FrameloopStep → StageFrameloop → StageFrameloop
unfolding frameloop_step
frameloop_run [] s = s
frameloop_run (x ∷ xs) s = frameloop_run xs (frameloop_step x s)

-- The loop runs exactly in an active phase, and in a terminal one until its window has ended.
pub record IsPaced (s : StageFrameloop) : Type 0 where
  pub awake : active_phases s.phase ≡ true → s.mode ≡ always
  pub asleep : s.phase ≡ DebatePhase.idle → s.mode ≡ demand
  pub settling : s.armed ≡ true → (terminal s.phase ≡ true) × (s.mode ≡ always)
  pub settled : terminal s.phase ≡ true → s.armed ≡ false → s.mode ≡ demand

enter_phase-IsPaced : (phase : DebatePhase) (s : StageFrameloop) → IsPaced (enter_phase phase s)
unfolding enter_phase mode_for
enter_phase-IsPaced phase s = ground arith

settle-IsPaced : (s : StageFrameloop) → IsPaced s → IsPaced (settle s)
unfolding settle
settle-IsPaced s h = ground arith

step-IsPaced : (x : FrameloopStep) (s : StageFrameloop) → IsPaced s → IsPaced (frameloop_step x s)
unfolding frameloop_step
step-IsPaced (phase_changes phase) s h = enter_phase-IsPaced phase s
step-IsPaced window_ends s h = settle-IsPaced s h

run-IsPaced :
    (xs : List FrameloopStep) (s : StageFrameloop) → IsPaced s → IsPaced (frameloop_run xs s)
unfolding frameloop_run
run-IsPaced [] s h = h
run-IsPaced (x ∷ xs) s h = run-IsPaced xs (frameloop_step x s) (step-IsPaced x s h)

-- After any sequence of phases and ended windows the loop runs in every active phase, sleeps when
-- idle, and in a terminal phase runs until the settle window has ended and sleeps from then on.
pub frameloop_run-IsPaced :
    (phase : DebatePhase) (xs : List FrameloopStep) → IsPaced (frameloop_run xs (mount phase))
unfolding mount mode_for
frameloop_run-IsPaced phase xs =
    run-IsPaced xs (mount phase)
      (enter_phase-IsPaced phase (record { mode = mode_for phase; armed = false; phase = phase }))
