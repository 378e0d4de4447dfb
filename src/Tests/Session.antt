-- ===== src/Tests/Session.antt =====
-- A session of one round, with its verdict: the sample that the player's examples share.
use council.Prelude.{refl, false, text}
use council.Prelude.Dict
use council.Persona.{skeptic}
use council.Protocol.{DebateEvent, token, round_complete, verdict}
use council.Reducer.{WsStatus}
use council.Player.State.{Player, new_player}
use council.Player.{feed, feed_status, terminal_known, has_buffered_turn}
use council.Player.Session.{Session, begins, feeds}

abbrev pub connected : Player
connected = feed_status WsStatus.connecting (new_player false)

abbrev pub opening : DebateEvent
opening = token skeptic 1 (text "Not so fast")

abbrev pub spoken : Player
spoken = feed opening connected

abbrev pub rounded : Player
rounded = feed (round_complete 1) spoken

abbrev pub judged : Player
judged = feed (verdict (text "Yes")) rounded

pub connected-Session : Session connected
connected-Session = begins (new_player false)

pub spoken-Session : Session spoken
unfolding feed_status Dict.has
spoken-Session = feeds opening (λ q. refl, λ e. refl) connected-Session

pub rounded-Session : Session rounded
unfolding feed feed_status terminal_known has_buffered_turn Dict.has
rounded-Session = feeds (round_complete 1) refl spoken-Session

pub judged-Session : Session judged
judged-Session = feeds (verdict (text "Yes")) tt rounded-Session
