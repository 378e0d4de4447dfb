-- ===== src/Client.antt =====
-- The socket client, frontend/src/lib/wsClient.ts: its handlers run when the browser delivers, and
-- what the three callbacks were called with is a log. A callback that calls the client back is not
-- modelled, since the program's callbacks do not. `parse` stands for `parseEvent` at its parameters
-- and `stringify` for `JSON.stringify`.
pub mod Laws
use council.Prelude.{
  ℕ, zero, suc, ◌+◌, ◌*◌, Bool, true, false, Option, none, some, List, [], ◌∷◌, ◌++◌, Text, text,
  ltb, if◌then◌else◌, length, item_at, update_at,
}
use council.Protocol.{DebateEvent}
use council.Protocol.Ask.{Number, AskMessage, built, refused, build_ask}
use council.Protocol.Parse.{ParseResult, parsed, rejected}
use council.Reducer.{WsStatus}

abbrev pub max_frame_chars : ℕ
max_frame_chars = 256 * 1024

-- A call of `onEvent`, `onStatus` or `onError`.
pub data Output : Type 0 where
  on_event : DebateEvent → Output
  on_status : WsStatus → Output
  on_error : Text → Output

-- One WebSocket that the client made: whether its handlers are attached, the message that they close
-- over, what was sent on it, and whether `close` was called.
pub record Sock : Type 0 where
  pub attached : Bool
  pub message : AskMessage
  pub sent : List Text
  pub closing : Bool

-- `sockets` holds every socket in the order they were made; `socket` is the place of the current one.
pub record Client : Type 0 where
  pub socket : Option ℕ
  pub sockets : List Sock
  pub outputs : List Output

abbrev pub new_client : Client
new_client = record { socket = none; sockets = []; outputs = [] }

abbrev pub emit : Output → Client → Client
emit o c = record c { outputs = c.outputs ++ o ∷ [] }

unfoldable pub detach : ℕ → Client → Client
detach i c = record c { sockets = update_at i (λ s. record s { attached = false }) c.sockets }

unfoldable pub ask : Text → Option Number → Client → Client
ask question rounds c = elim (build_ask question rounds) [
  | refused e ↦ emit (on_error e) c
  | built message ↦ elim c.socket [
    | some i ↦ emit (on_error (text "a debate is already in progress")) c
    | none ↦ record (emit (on_status WsStatus.connecting) c) {
      socket = some (length c.sockets);
      sockets =
          c.sockets
          ++ record { attached = true; message = message; sent = []; closing = false } ∷ [];
    }
  ]
]

unfoldable pub close_at : ℕ → Client → Client
close_at i c = record c { sockets = update_at i (λ s. record s { closing = true }) c.sockets }

unfoldable pub close : Client → Client
unfolding close_at
close c = elim c.socket [ none ↦ c | some i ↦ close_at i c ]

unfoldable pub dispose : Client → Client
unfolding close_at detach
dispose c = elim c.socket [
  | none ↦ c
  | some dead ↦ close_at dead (detach dead (record c { socket = none }))
]

-- What arrives in a message event: a text, or anything else.
pub data FrameData : Type 0 where
  text_frame : Text → FrameData
  other_frame : FrameData

-- What the browser delivers to one socket.
pub data Delivery : Type 0 where
  opens fails closes : Delivery
  brings : FrameData → Delivery

-- `socket?.send(...)`, on the client's current socket.
unfoldable pub send : Text → Client → Client
send data_text c = elim c.socket [
  | none ↦ c
  | some i ↦ record c {
    sockets = update_at i (λ s. record s { sent = s.sent ++ data_text ∷ [] }) c.sockets;
  }
]

-- `if (socket) detach(socket); socket = null`.
unfoldable pub release : Client → Client
unfolding detach
release c = elim c.socket [ none ↦ c | some i ↦ record (detach i c) { socket = none } ]

module _ (parse : Text → ParseResult) (stringify : AskMessage → Text) where
  unfoldable pub receive : FrameData → Client → Client
  receive other_frame c = emit (on_error (text "received a non-text frame")) c
  receive (text_frame raw) c =
      if ltb max_frame_chars (length raw)
      then emit (on_error (text "frame too large")) c
      else elim (parse raw) [ rejected e ↦ emit (on_error e) c | parsed e ↦ emit (on_event e) c ]

  -- The handler that is attached to a socket, by the event.
  unfoldable pub handle : Sock → Delivery → Client → Client
  unfolding receive send release
  handle s opens c = send (stringify s.message) (emit (on_status WsStatus.opened) c)
  handle s (brings frame) c = receive frame c
  handle s fails c = emit (on_status WsStatus.error) c
  handle s closes c = release (emit (on_status WsStatus.closed) c)

  -- The browser delivers to the socket at a place; a socket without handlers does nothing.
  unfoldable pub deliver : ℕ → Delivery → Client → Client
  unfolding handle
  deliver i d c = elim (item_at i c.sockets) [
    | none ↦ c
    | some s ↦ if s.attached then handle s d c else c
  ]

  unfoldable pub deliver_all : List (ℕ × Delivery) → Client → Client
  unfolding deliver
  deliver_all [] c = c
  deliver_all ((i, d) ∷ ds) c = deliver_all ds (deliver i d c)

  -- The clients that the calls and the browser can lead to.
  pub data Reachable : Client → Type 0 where
    starts : Reachable new_client
    asks :
        {c : Client} (question : Text) (rounds : Option Number)
        → Reachable c
        → Reachable (ask question rounds c)
    shuts : {c : Client} → Reachable c → Reachable (close c)
    disposes : {c : Client} → Reachable c → Reachable (dispose c)
    delivers : {c : Client} (i : ℕ) (d : Delivery) → Reachable c → Reachable (deliver i d c)
