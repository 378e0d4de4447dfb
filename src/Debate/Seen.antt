-- ===== src/Debate/Seen.antt =====
-- The hook as its promise sees it: the message of the one socket that can still be heard.
use mathlib.Core.Option
use council.Prelude.{
  ℕ, ◌≡◌, refl, ap, ◌&&◌, Bool, false, Option, none, some, List, [], ◌∷◌, ◌++◌, length, item_at,
  item_at_last, nat_eq, if◌then◌else◌,
}
use council.Protocol.Ask.{AskMessage}
use council.Player.State.{Fraction, Player}
use council.Client.{Client}
use council.Debate.{Debate, DebateStep, asks, stops, lives, fires, rates, delivers}
use council.Debate.Link.{Council, LinkStep, arrives, nothing}
use council.Debate.Wired.{IsQuiet, hooked}

-- The message of a client's current socket.
abbrev pub client_link : Client → Option AskMessage
client_link c = elim c.socket [
  | none ↦ none
  | some i ↦ Option.map (λ s. s.message) (item_at i c.sockets)
]

-- The place of the current client and that of its current socket.
abbrev pub is_current : ℕ → ℕ → Debate → Bool
is_current k i d = elim d.current [
  | none ↦ false
  | some j ↦ elim (item_at j d.clients) [
    | none ↦ false
    | some c ↦ nat_eq k j && elim c.socket [ none ↦ false | some n ↦ nat_eq i n ]
  ]
]

-- The hook as the promise sees it.
unfoldable pub seen : Debate → Council
seen d = record {
  player = d.player;
  link = elim d.current [
    | none ↦ none
    | some j ↦ elim (item_at j d.clients) [ none ↦ none | some c ↦ client_link c ]
  ];
  rate = d.rate;
}

-- A step as the promise sees it: a delivery to any socket but the current one is nothing.
unfoldable pub seen_step : Debate → DebateStep → LinkStep
seen_step d (asks question rounds) = LinkStep.asks question rounds
seen_step d stops = LinkStep.stops
seen_step d lives = LinkStep.lives
seen_step d fires = LinkStep.fires
seen_step d (rates multiplier) = LinkStep.rates multiplier
seen_step d (delivers k i ev) = if is_current k i d then arrives ev else nothing

pub seen_last :
    (p : Player) (cs : List Client) (c : Client) (rate : Fraction)
    → seen (hooked p (cs ++ c ∷ []) (some (length cs)) rate)
      ≡ record { player = p; link = client_link c; rate = rate }
unfolding seen
seen_last p cs c rate =
    ap
      (λ o. record {
        player = p;
        link = elim o [ none ↦ none | some c ↦ client_link c ];
        rate = rate;
      })
      (item_at_last c cs)

pub quiet_link : (c : Client) → IsQuiet c → client_link c ≡ none
quiet_link c (h, n) = rw n refl
