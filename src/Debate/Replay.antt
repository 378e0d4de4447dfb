-- ===== src/Debate/Replay.antt =====
-- The replay that the hook drives between a question and the next call of the viewer's.
use council.Prelude.{
  ◌≤◌, ◌≡◌, refl, sym, ap, ◌∙◌, subst, Bool, true, false, Option, none, some, List, [], ◌∷◌, Text,
  text, if◌then◌else◌, length, ltb,
}
use council.Protocol.Ask.{Number, AskMessage, built, build_ask}
use council.Protocol.Parse.{ParseResult, parsed, rejected}
use council.Reducer.{WsStatus}
use council.Player.State.{Player, reset}
use council.Player.{feed, feed_transport, skip_to_live}
use council.Player.Session.{Session, begins, feeds, closes, advises, reports, fires, skips, rates}
use council.Player.Speaker.{Session-one_speaker}
use council.Player.Fidelity.Record.{IsOrderly}
use council.Client.{Delivery, text_frame, other_frame, opens, fails, brings, max_frame_chars}
use council.Debate.{
  Debate, DebateStep, asks, stops, delivers, ask, debate_step, debate_run, reached, new_debate,
  state_of,
}
use council.Debate.Link.{Council, arrives, nothing, link_step, arrive, receive_frame}
use council.Debate.Seen.{seen, seen_step, is_current}
use council.Debate.Asked.{ask-Simulates, convened_lem, convened}
use council.Debate.Wired.{IsWired}
use council.Debate.Refines.{debate_step-Simulates, debate_run-IsWired, new-IsWired}

abbrev pub IsOrderlyResult : Player → ParseResult → Type 0
IsOrderlyResult p (rejected e) = Unit {0}
IsOrderlyResult p (parsed e) = IsOrderly p e

abbrev heard_result : Player → ParseResult → Player
heard_result p (rejected e) = feed_transport e p
heard_result p (parsed e) = feed e p

abbrev lived : Council → Option Player → Council
lived c none = c
lived c (some p) = record c { player = p }

module _ (parse : Text → ParseResult) (stringify : AskMessage → Text) where
  abbrev pub IsOrderlyArrival : Player → Delivery → Type 0
  IsOrderlyArrival p (brings (text_frame raw)) = IsOrderlyResult p (parse raw)
  IsOrderlyArrival p _ = Unit {0}

  -- No question and no stop, and the event of a frame of the current socket comes in an order that a
  -- server may send.
  abbrev pub IsOrderlyStep : Debate → DebateStep → Type 0
  IsOrderlyStep d (asks question rounds) = ⊥
  IsOrderlyStep d stops = ⊥
  IsOrderlyStep d (delivers k i ev) = is_current k i d ≡ true → IsOrderlyArrival d.player ev
  IsOrderlyStep d _ = Unit {0}

  abbrev pub AllOrderly : List DebateStep → Debate → Type 0
  AllOrderly [] d = Unit {0}
  AllOrderly (s ∷ ss) d = IsOrderlyStep d s × AllOrderly ss (debate_step parse stringify s d)

  abbrev linked : Delivery → Council → Option AskMessage → Council
  linked ev c none = c
  linked ev c (some m) = arrive parse ev c

  parsed-Session :
      (p : Player) (r : ParseResult) → IsOrderlyResult p r → Session p → Session (heard_result p r)
  parsed-Session p (rejected e) o s = reports e s
  parsed-Session p (parsed e) o s = feeds e o s

  framed-Session :
      (p : Player) (raw : Text) (big : Bool)
      → IsOrderlyResult p (parse raw)
      → Session p
      → Session
          (if big then feed_transport (text "frame too large") p else heard_result p (parse raw))
  framed-Session p raw true o s = reports (text "frame too large") s
  framed-Session p raw false o s = parsed-Session p (parse raw) o s

  arrive-Session :
      (ev : Delivery) (c : Council)
      → IsOrderlyArrival c.player ev
      → Session c.player
      → Session (arrive parse ev c).player
  unfolding arrive receive_frame
  arrive-Session opens c o s = advises WsStatus.opened tt s
  arrive-Session fails c o s = advises WsStatus.error tt s
  arrive-Session Delivery.closes c o s = closes s
  arrive-Session (brings other_frame) c o s = reports (text "received a non-text frame") s
  arrive-Session (brings (text_frame raw)) c o s =
      framed-Session c.player raw (ltb max_frame_chars (length raw)) o s

  link_step-Session :
      (st : DebateStep) (d : Debate)
      → IsOrderlyStep d st
      → Session d.player
      → Session (link_step parse (seen_step d st) (seen d)).player
  unfolding link_step seen_step seen
  link_step-Session (asks _ _) d o s = elim o [ ]
  link_step-Session stops d o s = elim o [ ]
  link_step-Session DebateStep.lives d o s = skipped (skip_to_live d.player) refl
    where
      skipped : (r : Option Player) → skip_to_live d.player ≡ r → Session (lived (seen d) r).player
      skipped none e = s
      skipped (some p) e = skips e s
  link_step-Session DebateStep.fires d o s = fires s
  link_step-Session (DebateStep.rates multiplier) d o s = rates multiplier s
  link_step-Session (delivers k i ev) d o s = arrived (is_current k i d) o
    where
      over :
          IsOrderlyArrival d.player ev
          → (l : Option AskMessage) → Session (linked ev (seen d) l).player
      over orderly none = s
      over orderly (some m) = arrive-Session ev (seen d) orderly s

      arrived :
          (b : Bool)
          → (b ≡ true → IsOrderlyArrival d.player ev)
          → Session (link_step parse (if b then arrives ev else nothing) (seen d)).player
      arrived true orderly = over (orderly refl) (seen d).link
      arrived false orderly = s

  debate_run-Session :
      (ss : List DebateStep) (d : Debate)
      → AllOrderly ss d
      → IsWired d
      → Session d.player
      → Session (debate_run parse stringify ss d).player
  unfolding debate_run seen
  debate_run-Session [] d o w s = s
  debate_run-Session (st ∷ ss) d (o, os) w s =
      let (e, w') = debate_step-Simulates parse stringify st d w in
      debate_run-Session ss (debate_step parse stringify st d) os w'
        (subst Session (ap (λ c. c.player) (sym e)) (link_step-Session st d o s))

  pub ask-Session :
      (question : Text) (rounds : Option Number) (d : Debate) (m : AskMessage)
      → IsWired d
      → build_ask question rounds ≡ built m
      → Session (ask question rounds d).player
  unfolding seen
  ask-Session question rounds d m w b =
      subst Session
        (ap (λ c. c.player)
          (sym (
            (ask-Simulates question rounds d w).0
            ∙ (convened_lem question rounds (seen d) ∙ ap (λ b. convened b (seen d)) b))))
        (begins (reset d.player))

  -- One voice at a time, from the hook's calls down to the roster on the screen: whatever was asked,
  -- stopped and delivered before, once the hook asks a question that buildAsk accepts, then as long as
  -- it neither asks nor stops again and the events of the current socket's frames come in an order
  -- that a server may send, at most one persona is on the roster, whatever the timers, the controls of
  -- the playback and the deliveries to old sockets do meanwhile.
  pub ask-one_speaker :
      (reduced_motion : Bool) (ss later : List DebateStep) (question : Text)
      (rounds : Option Number) (m : AskMessage)
      → build_ask question rounds ≡ built m
      → AllOrderly later (ask question rounds (reached parse stringify reduced_motion ss))
      → length
          (state_of (
            debate_run parse stringify later
              (ask question rounds (reached parse stringify reduced_motion ss)))).active_speakers
        ≤ 1
  ask-one_speaker reduced_motion ss later question rounds m b o =
      let d : Debate = reached parse stringify reduced_motion ss in
      let w : IsWired d =
        debate_run-IsWired parse stringify ss (new_debate reduced_motion)
          (new-IsWired reduced_motion) in
      Session-one_speaker (
        debate_run-Session later (ask question rounds d) o (ask-Simulates question rounds d w).1
          (ask-Session question rounds d m w b))
