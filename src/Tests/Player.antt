-- ===== src/Tests/Player.antt =====
-- The player's theorems at the sample session.
use council.Prelude.{
  length, ℕ, ◌≤◌, ◌<◌, ◌≡◌, ◌≢◌, refl, none, some, true, false, [], ◌∷◌, text, capped, arith,
  IsPrefix,
}
use council.Prelude.Dict
use council.Persona.{PersonaId, skeptic}
use council.Reducer.{WsStatus, DebatePhase, control, status, run, initial_state, rounds_of, text_at}
use council.Reducer.Transcript.{cell}
use council.Reveal.{next_chunk_end}
use council.Reveal.Laws.{next_chunk_end_bounds}
use council.Player.State.{Cursor, panelist, Player, fraction, new_player, tick_ms, get_text}
use council.Player.{
  feed, feed_status, skip_to_live, is_at_live, terminal_known, has_buffered_turn, flush_pending,
}
use council.Player.Speaker.{Session-one_speaker}
use council.Player.Heard.{buffered}
use council.Player.Seats.{IsPanelist}
use council.Player.Playhead.{AllComplete}
use council.Player.Shown.{shown}
use council.Player.Drain.{skip_to_live_total}
use council.Player.Rules.{fires}
use council.Player.Recording.{feed_all, feed_all-cell, inputs}
use council.Player.Screen.{Session-prefix, Session-ends, skip_to_live-shows_all}
use council.Tests.Session.{opening, judged, judged-Session}

next_chunk_end_bounds_example :
    (4 < next_chunk_end (text "Not so fast") 4) × (next_chunk_end (text "Not so fast") 4 ≤ 11)
next_chunk_end_bounds_example = next_chunk_end_bounds (text "Not so fast") 4 (omega arith)

skip_to_live_total_example :
    (q : Player) × (skip_to_live judged ≡ some q)
    × (is_at_live q ≡ true)
    × (q.timer ≡ none)
    × (q.draining ≡ false)
    × (q.text ≡ judged.text)
    × (q.round_complete ≡ judged.round_complete)
    × (q.verdict ≡ judged.verdict)
skip_to_live_total_example = skip_to_live_total judged

feed_all-cell_example :
    get_text skeptic 1
      (feed_all (opening ∷ []) (feed_status WsStatus.connecting (new_player false)))
    ≡ cell
        (run initial_state (control (status WsStatus.connecting) ∷ inputs (opening ∷ [])))
        skeptic
        1
feed_all-cell_example = feed_all-cell skeptic 1 (opening ∷ []) (new_player false)

Session-prefix_example : IsPrefix (cell (shown judged) skeptic 1) (get_text skeptic 1 judged)
Session-prefix_example = Session-prefix skeptic 1 judged-Session

judged-verdict : judged.verdict ≡ some (text "Yes")
unfolding feed feed_status terminal_known has_buffered_turn Dict.has Dict.add Dict.set Dict.get
    flush_pending get_text rounds_of text_at capped next_chunk_end tick_ms
judged-verdict = refl

judged-cursor : judged.cursor ≡ panelist 1 0
unfolding feed feed_status terminal_known has_buffered_turn Dict.has Dict.add Dict.set Dict.get
    flush_pending get_text rounds_of text_at capped next_chunk_end tick_ms
judged-cursor = refl

judged-unfinished : judged.cursor ≢ Cursor.done
judged-unfinished = rw judged-cursor (λ e. cc)

skip_to_live-shows_all_example :
    (q : Player) × (skip_to_live judged ≡ some q)
    × ((shown q).phase ≡ DebatePhase.done)
    × ((shown q).verdict ≡ text "Yes")
    × ((x : PersonaId) (s : ℕ)
        → IsPanelist x
        → 1 ≤ s
        → AllComplete (buffered judged) s
        → cell (shown q) x s ≡ get_text x s judged)
skip_to_live-shows_all_example =
    skip_to_live-shows_all (text "Yes") judged-Session judged-verdict judged-unfinished

judged-armed : judged.timer ≡ some (fraction 300 1)
unfolding feed feed_status terminal_known has_buffered_turn Dict.has Dict.add Dict.set Dict.get
    flush_pending get_text rounds_of text_at capped next_chunk_end tick_ms
judged-armed = refl

Session-ends_example :
    (n : ℕ) × ((shown (fires n judged)).phase ≡ DebatePhase.done)
    × ((shown (fires n judged)).verdict ≡ text "Yes")
    × ((fires n judged).timer ≡ none)
Session-ends_example =
    Session-ends (text "Yes") (fraction 300 1) judged-Session judged-armed judged-verdict
      judged-unfinished

Session-one_speaker_example : length (shown judged).active_speakers ≤ 1
Session-one_speaker_example = Session-one_speaker judged-Session
