-- ===== src/Debate/Wired.antt =====
-- Which clients of the hook can still be heard: the last one at most, on one socket.
use mathlib.Core.Option.{some-injective}
use council.Prelude.{
  ℕ, zero, suc, ◌≡◌, refl, sym, ap, ◌∙◌, subst, true, false, Option, none, some, List, [], ◌∷◌,
  ◌++◌, Text, length, drop, item_at, update_at, item_at-append, item_at_last, update_at_last,
  update_at_kept, drop_all, arith, Bool-cases, inl, inr, nat_eq, if◌then◌else◌, Option-cases,
}
use council.Protocol.Ask.{AskMessage}
use council.Player.State.{Fraction, Player}
use council.Client.{Client, Sock, Output, Delivery, new_client}
use council.Client
use council.Client.Laws.{IsSolo, dispose-IsSolo, dispose-socket}
use council.Debate.{Debate, hear_all, via, dispose}

-- A client without a socket, none of whose old sockets has handlers.
abbrev pub IsQuiet : Client → Type 0
IsQuiet c = IsSolo c × (c.socket ≡ none)

abbrev pub AllQuiet : List Client → Type 0
AllQuiet cs = (k : ℕ) (c : Client) → item_at k cs ≡ some c → IsQuiet c

-- A client whose only socket has its handlers.
abbrev pub live_client : AskMessage → List Text → List Output → Client
live_client m sent outputs = record {
  socket = some zero;
  sockets = record { attached = true; message = m; sent = sent; closing = false } ∷ [];
  outputs = outputs;
}

abbrev pub hooked : Player → List Client → Option ℕ → Fraction → Debate
hooked p cs current rate = record { player = p; clients = cs; current = current; rate = rate }

-- The hook has no client, or its client is the last one it made, and is quiet or live.
pub data IsWired : Debate → Type 0 where
  off :
      (p : Player) (cs : List Client) (rate : Fraction)
      → AllQuiet cs
      → IsWired (hooked p cs none rate)
  spent :
      (p : Player) (cs : List Client) (c : Client) (rate : Fraction)
      → AllQuiet cs
      → IsQuiet c
      → IsWired (hooked p (cs ++ c ∷ []) (some (length cs)) rate)
  live :
      (p : Player) (cs : List Client) (m : AskMessage) (sent : List Text) (outputs : List Output)
      (rate : Fraction)
      → AllQuiet cs
      → IsWired (hooked p (cs ++ live_client m sent outputs ∷ []) (some (length cs)) rate)

pub AllQuiet-append :
    (cs : List Client) (c : Client) → AllQuiet cs → IsQuiet c → AllQuiet (cs ++ c ∷ [])
AllQuiet-append cs c all q k e o = elim (Bool-cases (nat_eq k (length cs))) [
  | inl b ↦
      subst IsQuiet
        (some-injective c e
          (sym (ap (λ b. if b then some c else item_at k cs) b) ∙ sym (item_at-append k c cs) ∙ o))
        q
  | inr b ↦
      all k e
        (sym (ap (λ b. if b then some c else item_at k cs) b) ∙ sym (item_at-append k c cs) ∙ o)
]

via_at :
    (k : ℕ) (f : Client → Client) (d : Debate) (c : Client)
    → item_at k d.clients ≡ some c
    → via k f d ≡ record d {
      player = hear_all (drop (length c.outputs) (f c).outputs) d.player;
      clients = update_at k f d.clients;
    }
unfolding via
via_at k f d c e =
    ap
      (λ o. elim o [
        | none ↦ d
        | some c ↦ record d {
          player = hear_all (drop (length c.outputs) (f c).outputs) d.player;
          clients = update_at k f d.clients;
        }
      ])
      e

via_missing :
    (k : ℕ) (f : Client → Client) (d : Debate) → item_at k d.clients ≡ none → via k f d ≡ d
unfolding via
via_missing k f d e =
    ap
      (λ o. elim o [
        | none ↦ d
        | some c ↦ record d {
          player = hear_all (drop (length c.outputs) (f c).outputs) d.player;
          clients = update_at k f d.clients;
        }
      ])
      e

kept_at :
    (k : ℕ) (f : Client → Client) (d : Debate) (c : Client)
    → f c ≡ c
    → update_at k f d.clients ≡ d.clients
    → record d {
      player = hear_all (drop (length c.outputs) (f c).outputs) d.player;
      clients = update_at k f d.clients;
    }
      ≡ d
unfolding hear_all
kept_at k f d c e u =
    ap {A = List Output × List Client}
      (λ y. record d { player = hear_all (drop (length c.outputs) y.0) d.player; clients = y.1 })
      (ap (λ x. (x, update_at k f d.clients)) (ap (λ x. x.outputs) e) ∙ ap (λ x. (c.outputs, x)) u)
    ∙ ap (λ os. record d { player = hear_all os d.player }) (drop_all c.outputs)

-- A call that changes nothing at its place changes nothing.
pub via_kept :
    (k : ℕ) (f : Client → Client) (d : Debate)
    → ((c : Client) → item_at k d.clients ≡ some c → f c ≡ c)
    → via k f d ≡ d
via_kept k f d h = elim (Option-cases (item_at k d.clients)) [
  | inl n ↦ via_missing k f d n
  | inr (c, e) ↦ via_at k f d c e ∙ kept_at k f d c (h c e) (update_at_kept k f d.clients h)
]

pub via_last :
    (f : Client → Client) (p : Player) (cs : List Client) (c : Client) (current : Option ℕ)
    (rate : Fraction)
    → via (length cs) f (hooked p (cs ++ c ∷ []) current rate)
      ≡ hooked (hear_all (drop (length c.outputs) (f c).outputs) p) (cs ++ f c ∷ []) current rate
via_last f p cs c current rate =
    via_at (length cs) f (hooked p (cs ++ c ∷ []) current rate) c (item_at_last c cs)
    ∙ ap (λ l. hooked (hear_all (drop (length c.outputs) (f c).outputs) p) l current rate)
        (update_at_last f c cs)

dispose-outputs : (c : Client) → (Client.dispose c).outputs ≡ c.outputs
unfolding Client.dispose Client.detach Client.close_at
dispose-outputs c = ground arith

pub live-IsSolo :
    (m : AskMessage) (sent : List Text) (outputs : List Output)
    → IsSolo (live_client m sent outputs)
live-IsSolo m sent outputs zero s e a = refl
live-IsSolo m sent outputs (suc i) s e a = absurd (ground arith)

via-dispose :
    (p : Player) (cs : List Client) (c : Client) (rate : Fraction)
    → AllQuiet cs
    → IsSolo c
    → (cs' : List Client) × (via
          (length cs)
          Client.dispose
          (hooked p (cs ++ c ∷ []) (some (length cs)) rate)
        ≡ hooked p cs' (some (length cs)) rate)
      × AllQuiet cs'
unfolding hear_all
via-dispose p cs c rate all h = (
  cs ++ Client.dispose c ∷ [],
  via_last Client.dispose p cs c (some (length cs)) rate
      ∙ ap (λ os. hooked (hear_all os p) (cs ++ Client.dispose c ∷ []) (some (length cs)) rate)
          (ap (drop (length c.outputs)) (dispose-outputs c) ∙ drop_all c.outputs),
  AllQuiet-append cs (Client.dispose c) all (dispose-IsSolo c h, dispose-socket c),
)

-- After the hook disposed of its client, the player has heard nothing and no client can be heard.
pub dispose-AllQuiet :
    (d : Debate)
    → IsWired d
    → (cs : List Client) × (dispose d ≡ hooked d.player cs d.current d.rate) × AllQuiet cs
unfolding dispose
dispose-AllQuiet d (off p cs rate all) = (cs, refl, all)
dispose-AllQuiet d (spent p cs c rate all (h, n)) = via-dispose p cs c rate all h
dispose-AllQuiet d (live p cs m sent outputs rate all) =
    via-dispose p cs (live_client m sent outputs) rate all (live-IsSolo m sent outputs)
