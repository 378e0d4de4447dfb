-- ===== src/Debate/Asked.antt =====
-- A question asked through the hook.
use council.Prelude.{
  ◌≡◌, refl, sym, ap, ◌∙◌, subst, true, false, Option, none, some, List, [], ◌∷◌, ◌++◌, Text,
  length, arith,
}
use council.Protocol.Ask.{Number, AskMessage, BuildAskResult, refused, built, build_ask}
use council.Reducer.{WsStatus}
use council.Player.State.{Fraction, Player, reset}
use council.Player.{feed_status, feed_transport}
use council.Client.{
  Client, Sock, Output, Delivery, FrameData, text_frame, other_frame, opens, fails, closes, brings,
  on_event, on_status, on_error, new_client,
}
use council.Client
use council.Debate.{Debate, hear, hear_all, via, dispose, ask, with_player}
use council.Debate.Link.{Council, convene}
use council.Debate.Wired.{
  AllQuiet, live_client, hooked, IsWired, off, spent, live, via_last, dispose-AllQuiet,
}
use council.Debate.Seen.{seen, seen_last}

-- A player and a rate of their own change neither the clients nor the link.
pub IsWired-player :
    (d : Debate) (p : Player) (rate : Fraction)
    → IsWired d
    → IsWired (record d { player = p; rate = rate })
IsWired-player d q r (off p cs rate all) = off q cs r all
IsWired-player d q r (spent p cs c rate all h) = spent q cs c r all h
IsWired-player d q r (live p cs m sent outputs rate all) = live q cs m sent outputs r all

-- The client that a question makes.
abbrev asked : BuildAskResult → Client
asked (refused e) = record { socket = none; sockets = []; outputs = on_error e ∷ [] }
asked (built m) = live_client m [] (on_status WsStatus.connecting ∷ [])

asked_lem :
    (question : Text) (rounds : Option Number)
    → Client.ask question rounds new_client ≡ asked (build_ask question rounds)
unfolding Client.ask
asked_lem question rounds =
    elim (build_ask question rounds)
      as (λ b.
        elim b [
          | refused e ↦ Client.emit (on_error e) new_client
          | built message ↦ record (Client.emit (on_status WsStatus.connecting) new_client) {
            socket = some 0;
            sockets =
                record { attached = true; message = message; sent = []; closing = false } ∷ [];
          }
        ]
        ≡ asked b) [ refused e ↦ refl | built m ↦ refl ]

-- What the promise says of a question, by the verdict on it.
abbrev pub convened : BuildAskResult → Council → Council
convened (refused e) c = record c { player = feed_transport e (reset c.player); link = none }
convened (built m) c = record c {
  player = feed_status WsStatus.connecting (reset c.player);
  link = some m;
}

pub convened_lem :
    (question : Text) (rounds : Option Number) (c : Council)
    → convene question rounds c ≡ convened (build_ask question rounds) c
unfolding convene
convened_lem question rounds c =
    elim (build_ask question rounds)
      as (λ b.
        elim b [
          | refused e ↦ record c { player = feed_transport e (reset c.player); link = none }
          | built m ↦ record c {
            player = feed_status WsStatus.connecting (reset c.player);
            link = some m;
          }
        ]
        ≡ convened b c) [ refused e ↦ refl | built m ↦ refl ]

abbrev restarted : Player → List Client → Fraction → BuildAskResult → Debate
restarted p cs rate b =
    hooked (hear_all (asked b).outputs (reset p)) (cs ++ asked b ∷ []) (some (length cs)) rate

restarted_lem :
    (p : Player) (cs : List Client) (rate : Fraction) (link : Option AskMessage)
    (b : BuildAskResult)
    → AllQuiet cs
    → (seen (restarted p cs rate b) ≡ convened b (record { player = p; link = link; rate = rate }))
      × IsWired (restarted p cs rate b)
unfolding hear_all hear
restarted_lem p cs rate link (refused e) all = (
  seen_last (feed_transport e (reset p)) cs (asked (refused e)) rate,
  spent (feed_transport e (reset p)) cs (asked (refused e)) rate all
      ((λ i s e a. absurd (ground arith)), refl),
)
restarted_lem p cs rate link (built m) all = (
  seen_last (feed_status WsStatus.connecting (reset p)) cs (asked (built m)) rate,
  live (feed_status WsStatus.connecting (reset p)) cs m [] (on_status WsStatus.connecting ∷ []) rate
      all,
)

ask-restarted :
    (question : Text) (rounds : Option Number) (d : Debate) (cs : List Client)
    → dispose d ≡ hooked d.player cs d.current d.rate
    → ask question rounds d ≡ restarted d.player cs d.rate (build_ask question rounds)
unfolding ask
ask-restarted question rounds d cs e =
    ap
      (λ x.
        let y : Debate = with_player reset x in
        via (length y.clients) (Client.ask question rounds)
          (record y { clients = y.clients ++ new_client ∷ []; current = some (length y.clients) }))
      e
    ∙ (via_last (Client.ask question rounds) (reset d.player) cs new_client (some (length cs))
          d.rate
        ∙ ap
            (λ c.
              hooked (hear_all c.outputs (reset d.player)) (cs ++ c ∷ []) (some (length cs)) d.rate)
            (asked_lem question rounds))

-- A step of the hook is the promise's step, and keeps the hook wired.
abbrev pub Simulates : Debate → Council → Type 0
Simulates d c = (seen d ≡ c) × IsWired d

pub ask-Simulates :
    (question : Text) (rounds : Option Number) (d : Debate)
    → IsWired d
    → Simulates (ask question rounds d) (convene question rounds (seen d))
unfolding seen
ask-Simulates question rounds d w =
    let (cs, e, all) = dispose-AllQuiet d w in
    let (s, v) = restarted_lem d.player cs d.rate (seen d).link (build_ask question rounds) all in
    let r : ask question rounds d ≡ restarted d.player cs d.rate (build_ask question rounds) =
      ask-restarted question rounds d cs e in
    (ap seen r ∙ (s ∙ sym (convened_lem question rounds (seen d))), subst IsWired (sym r) v)
