-- ===== src/Debate.antt =====
-- The hook, frontend/src/state/useDebate.ts: the player and the clients that it wires together. The
-- reducer's state is `shown` of the player, whose inputs are all that the hook's `dispatch` is given.
pub mod Link
pub mod Wired
pub mod Seen
pub mod Asked
pub mod Delivered
pub mod Refines
pub mod Stop
pub mod Replay
pub mod Lawful
pub mod Over
pub mod Bounded
pub mod Limits
use council.Prelude.{
  ℕ, Bool, Option, none, some, List, [], ◌∷◌, ◌++◌, Text, length, drop, item_at, update_at,
}
use council.Protocol.Ask.{Number, AskMessage}
use council.Protocol.Parse.{ParseResult}
use council.Reducer.{control, cancel, DebateState}
use council.Player.State.{Fraction, fraction, Player, new_player, dispatch}
use council.Player.State
use council.Player.{fire, feed, feed_status, feed_transport, skip_to_live}
use council.Player
use council.Player.Shown.{shown}
use council.Client.{Output, on_event, on_status, on_error, Delivery, new_client}
use council.Client

-- `clients` holds every client that was made, oldest first; `current` is the place of the one in
-- `clientRef`, and `rate` the mirrored rate.
pub record Debate : Type 0 where
  pub player : Player
  pub clients : List Client.Client
  pub current : Option ℕ
  pub rate : Fraction

-- The first render; the preference for reduced motion is an argument.
abbrev pub new_debate : Bool → Debate
new_debate reduced_motion = record {
  player = new_player reduced_motion;
  clients = [];
  current = none;
  rate = fraction 1 1;
}

-- The three callbacks that the hook gives to a client.
unfoldable pub hear : Output → Player → Player
hear (on_event e) p = feed e p
hear (on_status w) p = feed_status w p
hear (on_error message) p = feed_transport message p

unfoldable pub hear_all : List Output → Player → Player
unfolding hear
hear_all [] p = p
hear_all (o ∷ os) p = hear_all os (hear o p)

-- A call of the client at a place: what it gives to its callbacks meanwhile reaches the player.
unfoldable pub via : ℕ → (Client.Client → Client.Client) → Debate → Debate
unfolding hear_all
via k f d = elim (item_at k d.clients) [
  | none ↦ d
  | some c ↦ record d {
    player = hear_all (drop (length c.outputs) (f c).outputs) d.player;
    clients = update_at k f d.clients;
  }
]

-- `clientRef.current?.dispose()`.
unfoldable pub dispose : Debate → Debate
unfolding via
dispose d = elim d.current [ none ↦ d | some k ↦ via k Client.dispose d ]

abbrev pub with_player : (Player → Player) → Debate → Debate
with_player f d = record d { player = f d.player }

unfoldable pub ask : Text → Option Number → Debate → Debate
unfolding dispose via
ask question rounds d =
    let e : Debate = with_player State.reset (dispose d) in
    let place : ℕ = length e.clients in
    via place (Client.ask question rounds)
      (record e { clients = e.clients ++ new_client ∷ []; current = some place })

unfoldable pub stop : Debate → Debate
unfolding dispose
stop d =
    let e : Debate = dispose (with_player (λ p. dispatch (State.reset p) (control cancel)) d) in
    record e { current = none }

unfoldable pub set_rate : Fraction → Debate → Debate
set_rate multiplier d =
    let p : Player = State.set_rate multiplier d.player in
    record d { player = p; rate = State.get_rate p }

-- `skipToLive`, which always returns.
unfoldable pub go_to_live : Debate → Debate
go_to_live d = elim (skip_to_live d.player) [ none ↦ d | some p ↦ record d { player = p } ]

unfoldable pub is_at_live : Debate → Bool
is_at_live d = Player.is_at_live d.player

-- The cleanup of the effect.
unfoldable pub unmount : Debate → Debate
unfolding dispose
unmount d = dispose (with_player State.reset d)

-- `state`.
abbrev pub state_of : Debate → DebateState
state_of d = shown d.player

-- What happens to the hook: a call of what it returns, the timer, or a delivery of the browser to
-- one socket of one client.
pub data DebateStep : Type 0 where
  asks : Text → Option Number → DebateStep
  stops lives fires : DebateStep
  rates : Fraction → DebateStep
  delivers : ℕ → ℕ → Delivery → DebateStep

module _ (parse : Text → ParseResult) (stringify : AskMessage → Text) where
  unfoldable pub debate_step : DebateStep → Debate → Debate
  unfolding ask stop set_rate go_to_live via
  debate_step (asks question rounds) d = ask question rounds d
  debate_step stops d = stop d
  debate_step lives d = go_to_live d
  debate_step fires d = with_player fire d
  debate_step (rates multiplier) d = set_rate multiplier d
  debate_step (delivers k i ev) d = via k (Client.deliver parse stringify i ev) d

  unfoldable pub debate_run : List DebateStep → Debate → Debate
  unfolding debate_step
  debate_run [] d = d
  debate_run (s ∷ ss) d = debate_run ss (debate_step s d)

  -- The hook after some steps from its first render.
  abbrev pub reached : Bool → List DebateStep → Debate
  reached reduced_motion ss = debate_run ss (new_debate reduced_motion)
