-- ===== src/Debate/Bounded.antt =====
-- The hook keeps its player to the rounds that the parsed frames tell of.
use council.Prelude.{
  ℕ, ◌≡◌, refl, sym, subst, true, false, Option, none, some, List, [], ◌∷◌, if◌then◌else◌, Text,
  text, length, ltb,
}
use council.Protocol.{DebateEvent}
use council.Protocol.Ask.{AskMessage, BuildAskResult, refused, built, build_ask}
use council.Protocol.Parse.{ParseResult, parsed, rejected}
use council.Reducer.{WsStatus, cancel}
use council.Player.State.{Player, reset}
use council.Player.{skip_to_live, feed, feed_status, feed_transport}
use council.Player.Informed.{IsTold, IsInformed}
use council.Player.Told.{
  fire-IsInformed, skip-IsInformed, feed-IsInformed, control-IsInformed, reset-IsInformed,
  feed_status-IsInformed, feed_transport-IsInformed, set_rate-IsInformed,
}
use council.Client.{
  Delivery, FrameData, text_frame, other_frame, opens, fails, closes, brings, max_frame_chars,
}
use council.Debate.{Debate, DebateStep, debate_step, debate_run}
use council.Debate.Link.{Council, arrives, nothing, link_step, arrive, convene, receive_frame}
use council.Debate.Seen.{seen, seen_step, is_current}
use council.Debate.Wired.{IsWired}
use council.Debate.Refines.{debate_step-Simulates}

module _ (W : ℕ → Type 0) (parse : Text → ParseResult)
    (accepts : (raw : Text) (e : DebateEvent) → parse raw ≡ parsed e → IsTold W e) where
  parsed-IsInformed :
      (raw : Text) (p : Player) (o : ParseResult)
      → parse raw ≡ o
      → IsInformed W p
      → IsInformed W (elim o [ rejected e ↦ feed_transport e p | parsed e ↦ feed e p ])
  parsed-IsInformed raw p (rejected e) k h = feed_transport-IsInformed W e p h
  parsed-IsInformed raw p (parsed e) k h = feed-IsInformed W e p (accepts raw e k) h

  frame-IsInformed :
      (frame : FrameData) (p : Player) → IsInformed W p → IsInformed W (receive_frame parse frame p)
  unfolding receive_frame
  frame-IsInformed other_frame p h =
      feed_transport-IsInformed W (text "received a non-text frame") p h
  frame-IsInformed (text_frame raw) p h =
      elim (ltb max_frame_chars (length raw))
        as (λ b. IsInformed W (
          if b
          then feed_transport (text "frame too large") p
          else elim (parse raw) [ rejected e ↦ feed_transport e p | parsed e ↦ feed e p ])) [
            | true ↦ feed_transport-IsInformed W (text "frame too large") p h
            | false ↦ parsed-IsInformed raw p (parse raw) refl h
          ]

  arrive-IsInformed :
      (ev : Delivery) (c : Council)
      → IsInformed W c.player
      → IsInformed W (arrive parse ev c).player
  unfolding arrive
  arrive-IsInformed opens c h = feed_status-IsInformed W WsStatus.opened c.player h
  arrive-IsInformed fails c h = feed_status-IsInformed W WsStatus.error c.player h
  arrive-IsInformed closes c h = feed_status-IsInformed W WsStatus.closed c.player h
  arrive-IsInformed (brings frame) c h = frame-IsInformed frame c.player h

  convene-IsInformed :
      (b : BuildAskResult) (c : Council)
      → IsInformed W c.player
      → IsInformed W
          (elim b as (λ _. Council) [
            | refused e ↦ record c { player = feed_transport e (reset c.player); link = none }
            | built m ↦ record c {
              player = feed_status WsStatus.connecting (reset c.player);
              link = some m;
            }
          ]).player
  unfolding reset
  convene-IsInformed (refused e) c h =
      feed_transport-IsInformed W e (reset c.player) (reset-IsInformed W c.player h.sent)
  convene-IsInformed (built m) c h =
      feed_status-IsInformed W WsStatus.connecting (reset c.player)
        (reset-IsInformed W c.player h.sent)

  step-IsInformed :
      (s : DebateStep) (d : Debate) (c : Council)
      → IsInformed W c.player
      → IsInformed W (link_step parse (seen_step d s) c).player
  unfolding link_step seen_step convene
  step-IsInformed (DebateStep.asks question rounds) d c h =
      convene-IsInformed (build_ask question rounds) c h
  step-IsInformed DebateStep.stops d c h =
      control-IsInformed W cancel (reset c.player) (reset-IsInformed W c.player h.sent)
  step-IsInformed DebateStep.lives d c h = skipped (skip_to_live c.player) refl
    where
      skipped :
          (o : Option Player)
          → skip_to_live c.player ≡ o
          → IsInformed W
              (elim o as (λ _. Council) [ none ↦ c | some p ↦ record c { player = p } ]).player
      skipped none e = h
      skipped (some q) e = skip-IsInformed W c.player q e h
  step-IsInformed DebateStep.fires d c h = fire-IsInformed W c.player h
  step-IsInformed (DebateStep.rates multiplier) d c h = set_rate-IsInformed W multiplier c.player h
  step-IsInformed (DebateStep.delivers k i ev) d c h =
      elim (is_current k i d)
        as (λ b. IsInformed W (link_step parse (if b then arrives ev else nothing) c).player) [
          | false ↦ h
          | true ↦
              elim c.link
                as (λ o.
                  IsInformed W
                    (elim o as (λ _. Council) [ none ↦ c | some m ↦ arrive parse ev c ]).player) [
                      | none ↦ h
                      | some m ↦ arrive-IsInformed ev c h
                    ]
        ]

  pub run-IsInformed :
      (stringify : AskMessage → Text) (ss : List DebateStep) (d : Debate)
      → IsWired d
      → IsInformed W (seen d).player
      → IsInformed W (seen (debate_run parse stringify ss d)).player
  unfolding debate_run
  run-IsInformed stringify [] d w h = h
  run-IsInformed stringify (s ∷ ss) d w h =
      let (e, v) = debate_step-Simulates parse stringify s d w in
      run-IsInformed stringify ss (debate_step parse stringify s d) v
        (subst (λ c. IsInformed W c.player) (sym e) (step-IsInformed s d (seen d) h))
