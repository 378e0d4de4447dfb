-- ===== src/Debate/Lawful.antt =====
-- What the hook's callbacks and its timer do to a player that replays, or has ended.
use council.Prelude.{◌≡◌, refl, ap, ◌∙◌, true, false, Text, text, if◌then◌else◌, length, ltb}
use council.Protocol.{DebateEvent}
use council.Protocol.Parse.{ParseResult, parsed, rejected}
use council.Reducer.{
  WsStatus, DebateInput, control, transport, status, debate_reducer, reduce_control, reduce_status,
  run, initial_state,
}
use council.Player.State.{Player, dispatch}
use council.Player.{record_event, feed, feed_status, feed_transport, fire}
use council.Player.Shown.{shown, shown-dispatch}
use council.Player.Settled.{is_live, IsPlaying, IsSpent}
use council.Player.Over.{
  pump-IsPlaying, fire-IsPlaying, record_event-IsPlaying, transport-IsPlaying, status-IsPlaying,
  closed-IsPlaying, spent-fire, spent-feed, spent-pump,
}
use council.Client.{
  Delivery, FrameData, text_frame, other_frame, opens, fails, closes, brings, max_frame_chars,
}
use council.Debate.Link.{Council, arrive, receive_frame}
use council.Hooks.Frameloop.{active_phases}

-- An operation on a player that keeps a replay, and starts none where the replay is at its end.
pub record IsLawful (f : Player → Player) : Type 0 where
  pub keeps : (p : Player) → IsPlaying p → IsPlaying (f p)
  pub ended : (p : Player) → IsSpent p → is_live (shown p) ≡ false → is_live (shown (f p)) ≡ false

pub sent-ended :
    (p q : Player) → q.sent ≡ p.sent → is_live (shown p) ≡ false → is_live (shown q) ≡ false
unfolding shown
sent-ended p q e n = ap (λ l. is_live (run initial_state l)) e ∙ n

advised-ended :
    (p : Player) (i : DebateInput)
    → (debate_reducer (shown p) i).phase ≡ (shown p).phase
    → is_live (shown p) ≡ false
    → is_live (shown (dispatch p i)) ≡ false
advised-ended p i e n = ap active_phases (ap (λ s. s.phase) (shown-dispatch p i) ∙ e) ∙ n

feed-IsLawful : (e : DebateEvent) → IsLawful (feed e)
unfolding feed
feed-IsLawful e = record {
  keeps = λ p h. pump-IsPlaying (record_event e p) (record_event-IsPlaying e p h);
  ended = λ p s n. sent-ended p (feed e p) (spent-feed e p s) n;
}

transport-IsLawful : (m : Text) → IsLawful (feed_transport m)
unfolding feed_transport debate_reducer reduce_control
transport-IsLawful m = record {
  keeps = transport-IsPlaying m;
  ended = λ p s n. advised-ended p (control (transport m)) refl n;
}

opened-IsLawful : IsLawful (feed_status WsStatus.opened)
unfolding feed_status debate_reducer reduce_control reduce_status
opened-IsLawful = record {
  keeps = λ p h. status-IsPlaying WsStatus.opened p tt h;
  ended = λ p s n. advised-ended p (control (status WsStatus.opened)) refl n;
}

error-IsLawful : IsLawful (feed_status WsStatus.error)
unfolding feed_status debate_reducer reduce_control reduce_status
error-IsLawful = record {
  keeps = λ p h. status-IsPlaying WsStatus.error p tt h;
  ended = λ p s n. advised-ended p (control (status WsStatus.error)) refl n;
}

closed-IsLawful : IsLawful (feed_status WsStatus.closed)
unfolding feed_status
closed-IsLawful = record {
  keeps = closed-IsPlaying;
  ended = λ p s n.
      sent-ended p (feed_status WsStatus.closed p)
        (ap (λ q. q.sent) (spent-pump (record p { closed = true }) s)) n;
}

pub fire-IsLawful : IsLawful fire
fire-IsLawful = record {
  keeps = fire-IsPlaying;
  ended = λ p s n. sent-ended p (fire p) (spent-fire p s) n;
}

module _ (parse : Text → ParseResult) where
  frame-IsLawful : (frame : FrameData) → IsLawful (receive_frame parse frame)
  unfolding receive_frame
  frame-IsLawful other_frame = transport-IsLawful (text "received a non-text frame")
  frame-IsLawful (text_frame raw) =
      elim (ltb max_frame_chars (length raw))
        as (λ b. IsLawful (λ p.
          if b
          then feed_transport (text "frame too large") p
          else elim (parse raw) [ rejected e ↦ feed_transport e p | parsed e ↦ feed e p ])) [
            | true ↦ transport-IsLawful (text "frame too large")
            | false ↦
                elim (parse raw)
                  as (λ r.
                    IsLawful
                      (λ p. elim r [ rejected e ↦ feed_transport e p | parsed e ↦ feed e p ])) [
                        | rejected e ↦ transport-IsLawful e
                        | parsed e ↦ feed-IsLawful e
                      ]
          ]

  -- What a delivery over the link does to the player.
  abbrev pub told : Delivery → Player → Player
  told opens p = feed_status WsStatus.opened p
  told fails p = feed_status WsStatus.error p
  told closes p = feed_status WsStatus.closed p
  told (brings frame) p = receive_frame parse frame p

  pub told-IsLawful : (ev : Delivery) → IsLawful (told ev)
  told-IsLawful opens = opened-IsLawful
  told-IsLawful fails = error-IsLawful
  told-IsLawful closes = closed-IsLawful
  told-IsLawful (brings frame) = frame-IsLawful frame

  pub arrive-told : (ev : Delivery) (c : Council) → (arrive parse ev c).player ≡ told ev c.player
  unfolding arrive
  arrive-told opens c = refl
  arrive-told fails c = refl
  arrive-told closes c = refl
  arrive-told (brings frame) c = refl
