-- ===== src/Debate/Refines.antt =====
-- The hook keeps its promise: whatever it is asked and whatever the browser delivers, it does what
-- a player with one connection at most does.
use mathlib.Core.Option.{some-injective}
use council.Prelude.{
  ℕ, zero, suc, ◌≡◌, refl, sym, ap, ◌∙◌, subst, subst₂, ◌&&◌, Bool, true, false, Option, none, some,
  List, [], ◌∷◌, ◌++◌, Text, length, item_at, item_at-append, item_at_last, arith, Bool-cases, inl,
  inr, nat_eq, if◌then◌else◌,
}
use council.Protocol.Ask.{AskMessage}
use council.Protocol.Parse.{ParseResult}
use council.Reducer.{control, cancel}
use council.Player.State.{Fraction, fraction, Player, new_player, dispatch, reset}
use council.Player.State
use council.Player.{fire, skip_to_live}
use council.Client.{
  Client, Sock, Output, Delivery, FrameData, text_frame, other_frame, opens, fails, closes, brings,
  on_event, on_status, on_error, new_client,
}
use council.Client
use council.Client.Laws.{deliver_idle}
use council.Debate.{
  Debate, via, dispose, stop, set_rate, go_to_live, debate_step, debate_run, DebateStep, asks,
  stops, lives, fires, rates, delivers, new_debate, with_player,
}
use council.Debate.Link.{
  Council, LinkStep, arrives, nothing, convene, arrive, receive_frame, link_step,
}
use council.Debate.Link
use council.Debate.Wired.{
  IsQuiet, AllQuiet, AllQuiet-append, live_client, hooked, IsWired, off, spent, live, via_kept,
  dispose-AllQuiet,
}
use council.Debate.Seen.{is_current, seen, seen_step, seen_last, quiet_link}
use council.Debate.Asked.{IsWired-player, Simulates, ask-Simulates}
use council.Debate.Delivered.{via-after, live-Simulates}

pub new-IsWired : (reduced_motion : Bool) → IsWired (new_debate reduced_motion)
new-IsWired reduced_motion =
    off (new_player reduced_motion) [] (fraction 1 1) (λ k c e. absurd (ground arith))

dispose-seen :
    (d : Debate) (p : Player)
    → IsWired d
    → Simulates
        (record (dispose (with_player (λ q. p) d)) { current = none })
        (record (seen d) { player = p; link = none })
unfolding seen
dispose-seen d p w =
    let (cs, e, all) = dispose-AllQuiet (with_player (λ q. p) d) (IsWired-player d p d.rate w) in
    (
      ap (λ x. seen (record x { current = none })) e,
      subst (λ x. IsWired (record x { current = none })) (sym e) (off p cs d.rate all),
    )

-- Without a link nothing arrives.
pub unlinked :
    (parse : Text → ParseResult) (b : Bool) (ev : Delivery) (c : Council)
    → c.link ≡ none
    → link_step parse (if b then arrives ev else nothing) c ≡ c
unfolding link_step
unlinked parse true ev c n = ap (λ o. elim o [ none ↦ c | some m ↦ arrive parse ev c ]) n
unlinked parse false ev c n = refl

both_eq : (k i n : ℕ) → (nat_eq k n && nat_eq i 0) ≡ true → (k ≡ n) × (i ≡ 0)
both_eq k i n e = (ground arith, ground arith)

module _ (parse : Text → ParseResult) (stringify : AskMessage → Text) where
  quiet-deliver :
      (k i : ℕ) (ev : Delivery) (d : Debate)
      → ((c : Client) → item_at k d.clients ≡ some c → IsQuiet c)
      → via k (Client.deliver parse stringify i ev) d ≡ d
  quiet-deliver k i ev d h =
      via_kept k (Client.deliver parse stringify i ev) d
        (λ c e. deliver_idle parse stringify i ev c (h c e).0 (h c e).1)

  elsewhere :
      (i : ℕ) (ev : Delivery) (m : AskMessage) (sent : List Text) (outputs : List Output)
      → nat_eq i 0 ≡ false
      → Client.deliver parse stringify i ev (live_client m sent outputs)
        ≡ live_client m sent outputs
  unfolding Client.deliver
  elsewhere zero ev m sent outputs h = absurd (ground arith)
  elsewhere (suc i) ev m sent outputs h = refl

  -- A delivery to another socket than the live one changes nothing.
  other-deliver :
      (k i : ℕ) (ev : Delivery) (p : Player) (cs : List Client) (m : AskMessage) (sent : List Text)
      (outputs : List Output) (rate : Fraction)
      → AllQuiet cs
      → (nat_eq k (length cs) && nat_eq i 0) ≡ false
      → via k
          (Client.deliver parse stringify i ev)
          (hooked p (cs ++ live_client m sent outputs ∷ []) (some (length cs)) rate)
        ≡ hooked p (cs ++ live_client m sent outputs ∷ []) (some (length cs)) rate
  other-deliver k i ev p cs m sent outputs rate all off_current =
      via_kept k (Client.deliver parse stringify i ev)
        (hooked p (cs ++ live_client m sent outputs ∷ []) (some (length cs)) rate)
        (λ c e. elim (Bool-cases (nat_eq k (length cs))) [
          | inl b ↦ still i c (cc (b, off_current)) (
              some-injective (live_client m sent outputs) c (
                sym (ap (λ b. if b then some (live_client m sent outputs) else item_at k cs) b)
                ∙ sym (item_at-append k (live_client m sent outputs) cs)
                ∙ e))
          | inr b ↦
              let at_k : item_at k cs ≡ some c =
                sym (ap (λ b. if b then some (live_client m sent outputs) else item_at k cs) b)
                ∙ sym (item_at-append k (live_client m sent outputs) cs)
                ∙ e in
              deliver_idle parse stringify i ev c (all k c at_k).0 (all k c at_k).1
        ])
    where
      still :
          (i : ℕ) (c : Client)
          → nat_eq i 0 ≡ false
          → live_client m sent outputs ≡ c
          → Client.deliver parse stringify i ev c ≡ c
      still i c z l =
          subst (λ c. Client.deliver parse stringify i ev c ≡ c) l (elsewhere i ev m sent outputs z)

  live-delivers :
      (k i : ℕ) (ev : Delivery) (p : Player) (cs : List Client) (m : AskMessage) (sent : List Text)
      (outputs : List Output) (rate : Fraction)
      → AllQuiet cs
      → let d : Debate = hooked p (cs ++ live_client m sent outputs ∷ []) (some (length cs)) rate in
        Simulates
          (debate_step parse stringify (delivers k i ev) d)
          (link_step parse (seen_step d (delivers k i ev)) (seen d))
  unfolding debate_step seen_step link_step
  live-delivers k i ev p cs m sent outputs rate all =
      let d : Debate = hooked p (cs ++ live_client m sent outputs ∷ []) (some (length cs)) rate in
      let at_d : seen d ≡ record { player = p; link = some m; rate = rate } =
        seen_last p cs (live_client m sent outputs) rate in
      let current : is_current k i d ≡ (nat_eq k (length cs) && nat_eq i 0) =
        ap
          (λ o. elim o [
            | none ↦ false
            | some c ↦ nat_eq k (length cs) && elim c.socket [ none ↦ false | some n ↦ nat_eq i n ]
          ])
          (item_at_last (live_client m sent outputs) cs) in
      elim (Bool-cases (nat_eq k (length cs) && nat_eq i 0)) [
        | inl b ↦
            let (here, first) = both_eq k i (length cs) b in
            subst₂ Simulates
              (sym (
                ap {A = ℕ × ℕ} (λ x. via x.0 (Client.deliver parse stringify x.1 ev) d)
                  (ap (λ k. (k, i)) here ∙ ap (λ i. (length cs, i)) first)
                ∙ via-after parse stringify p cs m sent outputs rate ev))
              (sym (
                ap (λ b. link_step parse (if b then arrives ev else nothing) (seen d)) (current ∙ b)
                ∙ ap (link_step parse (arrives ev)) at_d))
              (live-Simulates parse stringify p cs m sent outputs rate ev all)
        | inr b ↦
            subst₂ Simulates (sym (other-deliver k i ev p cs m sent outputs rate all b))
              (sym (
                ap (λ b. link_step parse (if b then arrives ev else nothing) (seen d))
                  (current ∙ b)))
              (refl, live p cs m sent outputs rate all)
      ]

  pub debate_step-Simulates :
      (s : DebateStep) (d : Debate)
      → IsWired d
      → Simulates (debate_step parse stringify s d) (link_step parse (seen_step d s) (seen d))
  unfolding debate_step seen_step link_step stop set_rate go_to_live seen
  debate_step-Simulates (asks question rounds) d w = ask-Simulates question rounds d w
  debate_step-Simulates stops d w = dispose-seen d (dispatch (reset d.player) (control cancel)) w
  debate_step-Simulates lives d w = lived (skip_to_live d.player)
    where
      lived :
          (o : Option Player)
          → Simulates
              (elim o [ none ↦ d | some p ↦ record d { player = p } ])
              (elim o [ none ↦ seen d | some p ↦ record (seen d) { player = p } ])
      lived none = (refl, w)
      lived (some p) = (refl, IsWired-player d p d.rate w)
  debate_step-Simulates fires d w = (refl, IsWired-player d (fire d.player) d.rate w)
  debate_step-Simulates (rates multiplier) d w =
      let p : Player = State.set_rate multiplier d.player in
      (refl, IsWired-player d p (State.get_rate p) w)
  debate_step-Simulates (delivers k i ev) d (off p cs rate all) =
      subst
        (λ x.
          Simulates x (link_step parse (if is_current k i d then arrives ev else nothing) (seen d)))
        (sym (quiet-deliver k i ev d (all k))) (refl, off p cs rate all)
  debate_step-Simulates (delivers k i ev) d (spent p cs c rate all q) =
      let e : seen d ≡ record { player = p; link = none; rate = rate } =
        seen_last p cs c rate
        ∙ ap (λ l. record { player = p; link = l; rate = rate }) (quiet_link c q) in
      subst₂ Simulates (sym (quiet-deliver k i ev d (AllQuiet-append cs c all q k)))
        (sym (unlinked parse (is_current k i d) ev (seen d) (ap (λ c. c.link) e)))
        (refl, spent p cs c rate all q)
  debate_step-Simulates (delivers k i ev) d (live p cs m sent outputs rate all) =
      live-delivers k i ev p cs m sent outputs rate all

  pub debate_run-IsWired :
      (ss : List DebateStep) (d : Debate) → IsWired d → IsWired (debate_run parse stringify ss d)
  unfolding debate_run
  debate_run-IsWired [] d w = w
  debate_run-IsWired (s ∷ ss) d w =
      debate_run-IsWired ss (debate_step parse stringify s d) (debate_step-Simulates s d w).1

  -- The promise along the same steps.
  unfoldable pub promised : List DebateStep → Debate → Council → Council
  promised [] d c = c
  promised (s ∷ ss) d c =
      promised ss (debate_step parse stringify s d) (link_step parse (seen_step d s) c)

  promised-seen :
      (ss : List DebateStep) (d : Debate)
      → IsWired d
      → seen (debate_run parse stringify ss d) ≡ promised ss d (seen d)
  unfolding debate_run promised
  promised-seen [] d w = refl
  promised-seen (s ∷ ss) d w =
      let (e, v) = debate_step-Simulates s d w in
      promised-seen ss (debate_step parse stringify s d) v
      ∙ ap (promised ss (debate_step parse stringify s d)) e

  -- The hook refines a player with at most one connection: after any calls, timers and deliveries to
  -- any socket of any client that it ever made, its player, its rate and the message of the socket
  -- that can still be heard are those of that simpler machine, which is told the same calls and
  -- timers and only the deliveries to the current client's current socket.
  pub debate_run-refines :
      (reduced_motion : Bool) (ss : List DebateStep)
      → seen (debate_run parse stringify ss (new_debate reduced_motion))
        ≡ promised ss (new_debate reduced_motion) (Link.new_council reduced_motion)
  unfolding seen
  debate_run-refines reduced_motion ss =
      promised-seen ss (new_debate reduced_motion) (new-IsWired reduced_motion)
