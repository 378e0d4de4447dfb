-- ===== src/Tests/Replay.antt =====
-- The stage's theorem on replays, in the sample session after its first word.
use council.Prelude.{◌≡◌, refl, [], ◌∷◌, capped}
use council.Prelude.Dict
use council.Persona.{skeptic}
use council.Reducer.{
  DebatePhase, run, debate_reducer, reduce_event, reduce_control, reduce_status, with_active,
  append_delta, rounds_of, text_at,
}
use council.Player.State.{get_text, tick_ms}
use council.Player.{feed, feed_status, terminal_known, has_buffered_turn, flush_pending}
use council.Player.Shown.{shown}
use council.Reveal.{next_chunk_end}
use council.Stage.Camera.{seat, camera_target_for}
use council.Stage.Replay.{Session-camera_target_for}
use council.Tests.Session.{rounded, rounded-Session}

rounded-phase : (shown rounded).phase ≡ DebatePhase.debating
unfolding feed feed_status terminal_known has_buffered_turn Dict.has Dict.add Dict.set Dict.get
    flush_pending get_text rounds_of text_at capped next_chunk_end tick_ms shown run debate_reducer
    reduce_event reduce_control reduce_status with_active append_delta
rounded-phase = refl

rounded-active_speakers : (shown rounded).active_speakers ≡ skeptic ∷ []
unfolding feed feed_status terminal_known has_buffered_turn Dict.has Dict.add Dict.set Dict.get
    flush_pending get_text rounds_of text_at capped next_chunk_end tick_ms shown run debate_reducer
    reduce_event reduce_control reduce_status with_active append_delta
rounded-active_speakers = refl

Session-camera_target_for_example : camera_target_for (shown rounded) ≡ seat skeptic
Session-camera_target_for_example =
    Session-camera_target_for skeptic [] rounded-Session rounded-phase rounded-active_speakers
