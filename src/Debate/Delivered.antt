-- ===== src/Debate/Delivered.antt =====
-- A delivery to the hook's current socket.
use council.Prelude.{
  zero, suc, ◌≡◌, refl, ap, ◌∙◌, Bool, true, false, none, some, List, [], ◌∷◌, ◌++◌, Text, text,
  length, drop, drop-append, ltb, arith, if◌then◌else◌,
}
use council.Protocol.Ask.{AskMessage}
use council.Protocol.Parse.{ParseResult, parsed, rejected}
use council.Reducer.{WsStatus}
use council.Player.State.{Fraction, Player}
use council.Player.{feed, feed_status, feed_transport}
use council.Client.{
  Client, Sock, Output, Delivery, FrameData, text_frame, other_frame, opens, fails, closes, brings,
  on_event, on_status, on_error, new_client, max_frame_chars,
}
use council.Client
use council.Client.Laws.{IsSolo}
use council.Debate.{hear, hear_all, via}
use council.Debate.Link.{arrive, receive_frame}
use council.Debate.Wired.{AllQuiet, live_client, hooked, spent, live, via_last}
use council.Debate.Seen.{seen_last}
use council.Debate.Asked.{Simulates}

module _ (parse : Text → ParseResult) (stringify : AskMessage → Text) where
  -- The one callback that a delivery to a live socket calls.
  abbrev pub spoken : Delivery → Output
  spoken opens = on_status WsStatus.opened
  spoken fails = on_status WsStatus.error
  spoken closes = on_status WsStatus.closed
  spoken (brings other_frame) = on_error (text "received a non-text frame")
  spoken (brings (text_frame raw)) =
      if ltb max_frame_chars (length raw)
      then on_error (text "frame too large")
      else elim (parse raw) [ rejected e ↦ on_error e | parsed e ↦ on_event e ]

  -- The live client after it.
  abbrev pub after : AskMessage → List Text → List Output → Delivery → Client
  after m sent outputs opens =
      live_client m (sent ++ stringify m ∷ []) (outputs ++ spoken opens ∷ [])
  after m sent outputs closes = record {
    socket = none;
    sockets = record { attached = false; message = m; sent = sent; closing = false } ∷ [];
    outputs = outputs ++ spoken closes ∷ [];
  }
  after m sent outputs ev = live_client m sent (outputs ++ spoken ev ∷ [])

  frame-after :
      (m : AskMessage) (sent : List Text) (outputs : List Output) (big : Bool) (r : ParseResult)
      → (if big
          then Client.emit (on_error (text "frame too large")) (live_client m sent outputs)
          else elim r [
            | rejected e ↦ Client.emit (on_error e) (live_client m sent outputs)
            | parsed e ↦ Client.emit (on_event e) (live_client m sent outputs)
          ])
        ≡ live_client m sent (
            outputs
            ++ (if big
                then on_error (text "frame too large")
                else elim r [ rejected e ↦ on_error e | parsed e ↦ on_event e ])
              ∷ [])
  frame-after m sent outputs true r = refl
  frame-after m sent outputs false (rejected e) = refl
  frame-after m sent outputs false (parsed e) = refl

  pub deliver-after :
      (m : AskMessage) (sent : List Text) (outputs : List Output) (ev : Delivery)
      → Client.deliver parse stringify 0 ev (live_client m sent outputs) ≡ after m sent outputs ev
  unfolding Client.deliver Client.handle Client.send Client.release Client.detach Client.receive
  deliver-after m sent outputs opens = refl
  deliver-after m sent outputs fails = refl
  deliver-after m sent outputs closes = refl
  deliver-after m sent outputs (brings other_frame) = refl
  deliver-after m sent outputs (brings (text_frame raw)) =
      frame-after m sent outputs (ltb max_frame_chars (length raw)) (parse raw)

  after-outputs :
      (m : AskMessage) (sent : List Text) (outputs : List Output) (ev : Delivery)
      → (after m sent outputs ev).outputs ≡ outputs ++ spoken ev ∷ []
  after-outputs m sent outputs opens = refl
  after-outputs m sent outputs fails = refl
  after-outputs m sent outputs closes = refl
  after-outputs m sent outputs (brings frame) = refl

  pub via-after :
      (p : Player) (cs : List Client) (m : AskMessage) (sent : List Text) (outputs : List Output)
      (rate : Fraction) (ev : Delivery)
      → via
          (length cs)
          (Client.deliver parse stringify 0 ev)
          (hooked p (cs ++ live_client m sent outputs ∷ []) (some (length cs)) rate)
        ≡ hooked (hear (spoken ev) p) (cs ++ after m sent outputs ev ∷ []) (some (length cs)) rate
  unfolding hear_all
  via-after p cs m sent outputs rate ev =
      via_last (Client.deliver parse stringify 0 ev) p cs (live_client m sent outputs)
        (some (length cs)) rate
      ∙ (ap
            (λ c.
              hooked (hear_all (drop (length outputs) c.outputs) p) (cs ++ c ∷ [])
                (some (length cs)) rate)
            (deliver-after m sent outputs ev)
          ∙ ap
              (λ os.
                hooked (hear_all os p) (cs ++ after m sent outputs ev ∷ []) (some (length cs)) rate)
              (ap (drop (length outputs)) (after-outputs m sent outputs ev)
                ∙ drop-append outputs (spoken ev ∷ [])))

  -- The promise's player hears the same.
  frame-heard :
      (big : Bool) (r : ParseResult) (p : Player)
      → hear
          (if big
            then on_error (text "frame too large")
            else elim r [ rejected e ↦ on_error e | parsed e ↦ on_event e ])
          p
        ≡ (if big
            then feed_transport (text "frame too large") p
            else elim r [ rejected e ↦ feed_transport e p | parsed e ↦ feed e p ])
  unfolding hear
  frame-heard true r p = refl
  frame-heard false (rejected e) p = refl
  frame-heard false (parsed e) p = refl

  brought :
      (frame : FrameData) (p : Player)
      → hear (spoken (brings frame)) p ≡ receive_frame parse frame p
  unfolding hear receive_frame
  brought other_frame p = refl
  brought (text_frame raw) p = frame-heard (ltb max_frame_chars (length raw)) (parse raw) p

  closed-IsSolo :
      (m : AskMessage) (sent : List Text) (outputs : List Output)
      → IsSolo (record {
        socket = none;
        sockets = record { attached = false; message = m; sent = sent; closing = false } ∷ [];
        outputs = outputs;
      })
  closed-IsSolo m sent outputs zero s e a = absurd (ground arith)
  closed-IsSolo m sent outputs (suc i) s e a = absurd (ground arith)

  pub live-Simulates :
      (p : Player) (cs : List Client) (m : AskMessage) (sent : List Text) (outputs : List Output)
      (rate : Fraction) (ev : Delivery)
      → AllQuiet cs
      → Simulates
          (hooked (hear (spoken ev) p) (cs ++ after m sent outputs ev ∷ []) (some (length cs)) rate)
          (arrive parse ev (record { player = p; link = some m; rate = rate }))
  unfolding hear arrive receive_frame
  live-Simulates p cs m sent outputs rate opens all = (
    seen_last (feed_status WsStatus.opened p) cs (after m sent outputs opens) rate,
    live (feed_status WsStatus.opened p) cs m (sent ++ stringify m ∷ [])
        (outputs ++ spoken opens ∷ []) rate all,
  )
  live-Simulates p cs m sent outputs rate fails all = (
    seen_last (feed_status WsStatus.error p) cs (after m sent outputs fails) rate,
    live (feed_status WsStatus.error p) cs m sent (outputs ++ spoken fails ∷ []) rate all,
  )
  live-Simulates p cs m sent outputs rate closes all = (
    seen_last (feed_status WsStatus.closed p) cs (after m sent outputs closes) rate,
    spent (feed_status WsStatus.closed p) cs (after m sent outputs closes) rate all
        (closed-IsSolo m sent (outputs ++ spoken closes ∷ []), refl),
  )
  live-Simulates p cs m sent outputs rate (brings frame) all = (
    seen_last (hear (spoken (brings frame)) p) cs (after m sent outputs (brings frame)) rate
        ∙ ap (λ q. record { player = q; link = some m; rate = rate }) (brought frame p),
    live (hear (spoken (brings frame)) p) cs m sent (outputs ++ spoken (brings frame) ∷ []) rate
        all,
  )
