-- ===== src/Debate/Link.antt =====
-- What the hook promises: a player and at most one connection, the message that it was opened for.
use council.Prelude.{Bool, Option, none, some, Text, text, ltb, if◌then◌else◌, length}
use council.Protocol.Ask.{Number, AskMessage, built, refused, build_ask}
use council.Protocol.Parse.{ParseResult, parsed, rejected}
use council.Reducer.{WsStatus, control, cancel}
use council.Player.State.{Fraction, fraction, Player, new_player, dispatch, reset}
use council.Player.State
use council.Player.{fire, feed, feed_status, feed_transport, skip_to_live}
use council.Client.{
  Delivery, FrameData, text_frame, other_frame, opens, fails, closes, brings, max_frame_chars,
}

pub record Council : Type 0 where
  pub player : Player
  pub link : Option AskMessage
  pub rate : Fraction

abbrev pub new_council : Bool → Council
new_council reduced_motion = record {
  player = new_player reduced_motion;
  link = none;
  rate = fraction 1 1;
}

-- What happens: a call of the viewer's, the timer, something that comes over the link, or nothing.
pub data LinkStep : Type 0 where
  asks : Text → Option Number → LinkStep
  stops lives fires : LinkStep
  rates : Fraction → LinkStep
  arrives : Delivery → LinkStep
  nothing : LinkStep

-- A question replaces the link: by a new one, or by none if it is refused.
unfoldable pub convene : Text → Option Number → Council → Council
convene question rounds c = elim (build_ask question rounds) [
  | refused e ↦ record c { player = feed_transport e (reset c.player); link = none }
  | built m ↦ record c { player = feed_status WsStatus.connecting (reset c.player); link = some m }
]

module _ (parse : Text → ParseResult) where
  unfoldable pub receive_frame : FrameData → Player → Player
  receive_frame other_frame p = feed_transport (text "received a non-text frame") p
  receive_frame (text_frame raw) p =
      if ltb max_frame_chars (length raw)
      then feed_transport (text "frame too large") p
      else elim (parse raw) [ rejected e ↦ feed_transport e p | parsed e ↦ feed e p ]

  unfoldable pub arrive : Delivery → Council → Council
  unfolding receive_frame
  arrive opens c = record c { player = feed_status WsStatus.opened c.player }
  arrive fails c = record c { player = feed_status WsStatus.error c.player }
  arrive closes c = record c { player = feed_status WsStatus.closed c.player; link = none }
  arrive (brings frame) c = record c { player = receive_frame frame c.player }

  unfoldable pub link_step : LinkStep → Council → Council
  unfolding convene arrive
  link_step (asks question rounds) c = convene question rounds c
  link_step stops c = record c { player = dispatch (reset c.player) (control cancel); link = none }
  link_step lives c = elim (skip_to_live c.player) [ none ↦ c | some p ↦ record c { player = p } ]
  link_step fires c = record c { player = fire c.player }
  link_step (rates multiplier) c = record c {
    player = State.set_rate multiplier c.player;
    rate = State.get_rate (State.set_rate multiplier c.player);
  }
  link_step (arrives ev) c = elim c.link [ none ↦ c | some m ↦ arrive ev c ]
  link_step nothing c = c
