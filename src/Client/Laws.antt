-- ===== src/Client/Laws.antt =====
-- The handlers of a client's sockets, and which of them are attached.
use mathlib.Core.Option
use council.Prelude.{
  ℕ, zero, suc, ◌≡◌, refl, sym, ap, ◌∙◌, true, false, Option, none, some, List, [], ◌∷◌, ◌++◌, Text,
  arith, nat_eq, nat_eq_iff, Option-cases, inl, inr, Bool-cases, subst, text, if◌then◌else◌, length,
  item_at, update_at, item_at-append,
}
use council.Protocol.Ask.{Number, AskMessage, BuildAskResult, built, refused, build_ask}
use council.Protocol.Parse.{ParseResult}
use council.Reducer.{WsStatus}
use council.Client.{
  Client, Sock, Output, on_status, on_error, Delivery, FrameData, text_frame, other_frame, opens,
  fails, closes, brings, new_client, emit, detach, ask, close_at, close, dispose, send, release,
  receive, handle, deliver, deliver_all, Reachable, starts, asks, shuts, disposes, delivers,
}

item_at-update_at :
    (i j : ℕ) (f : Sock → Sock) (ss : List Sock)
    → item_at i (update_at j f ss)
      ≡ (if nat_eq j i then Option.map f (item_at i ss) else item_at i ss)
item_at-update_at i j f [] = ground arith
item_at-update_at zero zero f (s ∷ ss) = refl
item_at-update_at zero (suc j) f (s ∷ ss) = ground arith
item_at-update_at (suc i) zero f (s ∷ ss) = ground arith
item_at-update_at (suc i) (suc j) f (s ∷ ss) = ground (arith, item_at-update_at i j f ss)

-- A socket with handlers is the current one.
abbrev pub IsSolo : Client → Type 0
IsSolo c = (i : ℕ) (s : Sock) → item_at i c.sockets ≡ some s → s.attached ≡ true → c.socket ≡ some i

-- An update that attaches nothing leaves what was attached before.
attached_before :
    (i j : ℕ) (f : Sock → Sock) (ss : List Sock) (s : Sock)
    → ((t : Sock) → (f t).attached ≡ t.attached)
    → item_at i (update_at j f ss) ≡ some s
    → s.attached ≡ true
    → (t : Sock) × (item_at i ss ≡ some t) × (t.attached ≡ true)
attached_before i j f ss s k e a = elim (Option-cases (item_at i ss)) [
  | inl n ↦ absurd (ground (arith, item_at-update_at i j f ss))
  | inr (t, o) ↦ (t, o, ground (arith, item_at-update_at i j f ss, k t))
]

update-IsSolo :
    (c : Client) (j : ℕ) (f : Sock → Sock)
    → ((t : Sock) → (f t).attached ≡ t.attached)
    → IsSolo c
    → IsSolo (record c { sockets = update_at j f c.sockets })
update-IsSolo c j f k h i s e a =
    let (t, o, b) = attached_before i j f c.sockets s k e a in h i t o b

given_up-IsSolo :
    (c : Client) (j : ℕ) (f : Sock → Sock)
    → ((t : Sock) → (f t).attached ≡ false)
    → c.socket ≡ some j
    → IsSolo c
    → IsSolo (record c { socket = none; sockets = update_at j f c.sockets })
given_up-IsSolo c j f k o h i s e a = elim (Option-cases (item_at i c.sockets)) [
  | inl n ↦ absurd (ground (arith, item_at-update_at i j f c.sockets))
  | inr (t, at_i) ↦
      absurd (ground (arith, item_at-update_at i j f c.sockets, k t, h i t at_i, nat_eq_iff j i))
]

-- The operations on the current socket, if there is one.
on_current-IsSolo :
    (c : Client) (f : ℕ → Client → Client)
    → ((j : ℕ) → c.socket ≡ some j → IsSolo (f j c))
    → IsSolo c
    → IsSolo (elim c.socket [ none ↦ c | some j ↦ f j c ])
on_current-IsSolo c f k h = at c.socket refl
  where
    at : (o : Option ℕ) → c.socket ≡ o → IsSolo (elim o [ none ↦ c | some j ↦ f j c ])
    at none e = h
    at (some j) e = k j e

release-IsSolo : (c : Client) → IsSolo c → IsSolo (release c)
unfolding release detach
release-IsSolo c h =
    on_current-IsSolo c (λ j d. record (detach j d) { socket = none })
      (λ j o. given_up-IsSolo c j (λ s. record s { attached = false }) (λ t. refl) o h) h

pub dispose-IsSolo : (c : Client) → IsSolo c → IsSolo (dispose c)
unfolding dispose detach close_at
dispose-IsSolo c h =
    on_current-IsSolo c (λ j d. close_at j (detach j (record d { socket = none })))
      (λ j o.
        update-IsSolo (detach j (record c { socket = none })) j (λ s. record s { closing = true })
          (λ t. refl) (given_up-IsSolo c j (λ s. record s { attached = false }) (λ t. refl) o h))
      h

pub dispose-socket : (c : Client) → (dispose c).socket ≡ none
unfolding dispose detach close_at
dispose-socket c = ground arith

close-IsSolo : (c : Client) → IsSolo c → IsSolo (close c)
unfolding close close_at
close-IsSolo c h =
    on_current-IsSolo c close_at
      (λ j o. update-IsSolo c j (λ s. record s { closing = true }) (λ t. refl) h) h

send-IsSolo : (x : Text) (c : Client) → IsSolo c → IsSolo (send x c)
unfolding send
send-IsSolo x c h =
    on_current-IsSolo c
      (λ j d. record d {
        sockets = update_at j (λ s. record s { sent = s.sent ++ x ∷ [] }) d.sockets;
      })
      (λ j o. update-IsSolo c j (λ s. record s { sent = s.sent ++ x ∷ [] }) (λ t. refl) h) h

-- A new socket comes while no other has handlers.
made-IsSolo :
    (c : Client) (m : AskMessage) (out : List Output)
    → c.socket ≡ none
    → IsSolo c
    → IsSolo (record {
      socket = some (length c.sockets);
      sockets =
          c.sockets ++ record { attached = true; message = m; sent = []; closing = false } ∷ [];
      outputs = out;
    })
made-IsSolo c m out n h i s e a =
    let new : Sock = record { attached = true; message = m; sent = []; closing = false } in
    ground (arith, item_at-append i new c.sockets, h i s, nat_eq_iff i (length c.sockets))

pub ask-IsSolo :
    (question : Text) (rounds : Option Number) (c : Client)
    → IsSolo c
    → IsSolo (ask question rounds c)
unfolding ask
ask-IsSolo question rounds c h = at (build_ask question rounds) c.socket refl
  where
    at :
        (b : BuildAskResult) (o : Option ℕ)
        → c.socket ≡ o
        → IsSolo (elim b [
          | refused e ↦ emit (on_error e) c
          | built message ↦ elim o [
            | some i ↦ emit (on_error (text "a debate is already in progress")) c
            | none ↦ record (emit (on_status WsStatus.connecting) c) {
              socket = some (length c.sockets);
              sockets =
                  c.sockets
                  ++ record { attached = true; message = message; sent = []; closing = false } ∷ [];
            }
          ]
        ])
    at (refused e) o n = h
    at (built message) (some i) n = h
    at (built message) none n =
        made-IsSolo c message (c.outputs ++ on_status WsStatus.connecting ∷ []) n h

pub new-IsSolo : IsSolo new_client
new-IsSolo i s e a = absurd (ground arith)

module _ (parse : Text → ParseResult) (stringify : AskMessage → Text) where
  receive-client :
      (x : FrameData) (c : Client)
      → ((receive parse stringify x c).socket ≡ c.socket)
        × ((receive parse stringify x c).sockets ≡ c.sockets)
  unfolding receive
  receive-client other_frame c = (refl, refl)
  receive-client (text_frame raw) c = ground arith

  handle-IsSolo :
      (s : Sock) (d : Delivery) (c : Client) → IsSolo c → IsSolo (handle parse stringify s d c)
  unfolding handle
  handle-IsSolo s opens c h =
      send-IsSolo (stringify s.message) (emit (on_status WsStatus.opened) c) h
  handle-IsSolo s fails c h = h
  handle-IsSolo s closes c h = release-IsSolo (emit (on_status WsStatus.closed) c) h
  handle-IsSolo s (brings x) c h =
      let (same_socket, same_sockets) = receive-client x c in
      λ i t e a. same_socket ∙ h i t (ap (item_at i) (sym same_sockets) ∙ e) a

  deliver-IsSolo :
      (i : ℕ) (d : Delivery) (c : Client) → IsSolo c → IsSolo (deliver parse stringify i d c)
  unfolding deliver
  deliver-IsSolo i d c h = at (item_at i c.sockets)
    where
      at :
          (o : Option Sock)
          → IsSolo (elim o [
            | none ↦ c
            | some s ↦ if s.attached then handle parse stringify s d c else c
          ])
      at none = h
      at (some s) = elim (Bool-cases s.attached) [
        | inl e ↦
            subst (λ b. IsSolo (if b then handle parse stringify s d c else c)) (sym e)
              (handle-IsSolo s d c h)
        | inr e ↦ subst (λ b. IsSolo (if b then handle parse stringify s d c else c)) (sym e) h
      ]

  -- Whatever the calls and the deliveries, no socket but the client's current one has handlers.
  pub Reachable-IsSolo : {c : Client} → Reachable parse stringify c → IsSolo c
  Reachable-IsSolo starts = new-IsSolo
  Reachable-IsSolo (asks {c = c} question rounds r) =
      ask-IsSolo question rounds c (Reachable-IsSolo r)
  Reachable-IsSolo (shuts {c = c} r) = close-IsSolo c (Reachable-IsSolo r)
  Reachable-IsSolo (disposes {c = c} r) = dispose-IsSolo c (Reachable-IsSolo r)
  Reachable-IsSolo (delivers {c = c} i d r) = deliver-IsSolo i d c (Reachable-IsSolo r)

  pub deliver_idle :
      (i : ℕ) (d : Delivery) (c : Client)
      → IsSolo c
      → c.socket ≡ none
      → deliver parse stringify i d c ≡ c
  unfolding deliver
  deliver_idle i d c h n = at (item_at i c.sockets) (h i)
    where
      at :
          (o : Option Sock)
          → ((s : Sock) → o ≡ some s → s.attached ≡ true → c.socket ≡ some i)
          → elim o [ none ↦ c | some s ↦ if s.attached then handle parse stringify s d c else c ]
            ≡ c
      at none k = refl
      at (some s) k = ground (arith, k s refl)

  deliver_all_idle :
      (ds : List (ℕ × Delivery)) (c : Client)
      → IsSolo c
      → c.socket ≡ none
      → deliver_all parse stringify ds c ≡ c
  unfolding deliver_all
  deliver_all_idle [] c h n = refl
  deliver_all_idle ((i, d) ∷ ds) c h n =
      ap (deliver_all parse stringify ds) (deliver_idle i d c h n) ∙ deliver_all_idle ds c h n

  -- Once disposed of, a client calls none of its callbacks and sends nothing until it is asked
  -- again, whatever the browser still delivers to its sockets.
  pub dispose-is_silent :
      {c : Client} (ds : List (ℕ × Delivery))
      → Reachable parse stringify c
      → deliver_all parse stringify ds (dispose c) ≡ dispose c
  dispose-is_silent {c} ds r =
      deliver_all_idle ds (dispose c) (dispose-IsSolo c (Reachable-IsSolo r)) (dispose-socket c)
