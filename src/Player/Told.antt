-- ===== src/Player/Told.antt =====
-- The calls of a player keep what it tells to the rounds that it was told of.
use mathlib.Core.Option
use council.Prelude.{
  ℕ, ℕ-Key, ◌≡◌, refl, sym, ap, subst, ◌∙◌, inl, inr, Bool, true, false, Option, none, some, List,
  [], ◌∷◌, ◌++◌, arith, if◌then◌else◌, Text, Bool-cases, capped, ◌==◌, nat_eq_iff, true≢false,
}
use council.Prelude.Dict
use council.Persona.{PersonaId, same, moderator_id}
use council.Protocol.{DebateEvent, ErrorEvent, token, persona_done, round_complete, verdict}
use council.Reducer.{WsStatus, ControlInput, rounds_of, text_at, control, status, transport}
use council.Reducer.Transcript.{cell_of, same_turn, same_turn_eq}
use council.Player.State.{Fraction, Player, dispatch, reset, get_text, append_text, max_turn_chars}
use council.Player.State
use council.Player.{
  Delay, park, done, wait, step, arm, pump, fire, feed, feed_status, feed_transport, skip_to_live,
  record_event, record_error,
}
use council.Player.Rules.{After}
use council.Player.Drain.{skip_rule}
use council.Player.Session.{pump-cases, fire-cases}
use council.Player.Fidelity.Record.{get_text-append_text}
use council.Player.Informed.{
  IsTold, AllTold, AllTold-append, TextsTold, TurnTold, DoneTold, RoundTold, IsInformed,
  step-IsInformed,
}

module _ (W : ℕ → Type 0) where
  -- Timers, the rate and the reveal mode say no round.
  retimed-IsInformed :
      (p : Player) (t : Option Fraction) (rate : Fraction) (draining : Bool)
      → IsInformed W p
      → IsInformed W (record p { timer = t; rate = rate; draining = draining })
  retimed-IsInformed p t rate draining h = record {
    texts = h.texts;
    rounds = h.rounds;
    current = h.current;
    closing = h.closing;
    finishing = h.finishing;
    sent = h.sent;
  }

  arm-IsInformed : (r : Player × Delay) → IsInformed W r.0 → IsInformed W (arm r)
  unfolding arm
  arm-IsInformed (p, park) h = h
  arm-IsInformed (p, done) h = h
  arm-IsInformed (p, wait d) h = retimed-IsInformed p (some d) p.rate p.draining h

  pump-IsInformed : (p : Player) → IsInformed W p → IsInformed W (pump p)
  pump-IsInformed p h = elim (pump-cases p) [
    | inl e ↦ subst (IsInformed W) (sym e) h
    | inr e ↦ subst (IsInformed W) (sym e) (arm-IsInformed (step p) (step-IsInformed W p h))
  ]

  pub fire-IsInformed : (p : Player) → IsInformed W p → IsInformed W (fire p)
  fire-IsInformed p h = elim (fire-cases p) [
    | inl e ↦ subst (IsInformed W) (sym e) h
    | inr e ↦ subst (IsInformed W) (sym e) (
        pump-IsInformed (record p { timer = none }) (retimed-IsInformed p none p.rate p.draining h))
  ]

  step-After : (p : Player) → IsInformed W p → After (IsInformed W) (IsInformed W) (step p)
  step-After p h = spread (step p) (step-IsInformed W p h)
    where
      spread : (r : Player × Delay) → IsInformed W r.0 → After (IsInformed W) (IsInformed W) r
      spread (q, park) k = k
      spread (q, done) k = k
      spread (q, wait d) k = k

  pub skip-IsInformed : (p q : Player) → skip_to_live p ≡ some q → IsInformed W p → IsInformed W q
  skip-IsInformed p q e h =
      let (r, ret, k) =
        skip_rule (IsInformed W) (IsInformed W) step-After p
          (retimed-IsInformed p none p.rate true h) in
      subst (IsInformed W) (Option.some-injective _ _ (sym ret ∙ e))
        (retimed-IsInformed r r.timer r.rate false k)

  append_text-TextsTold :
      (x : PersonaId) (r : ℕ) (delta : Text) (p : Player)
      → W r
      → TextsTold W p.text
      → TextsTold W (append_text x r delta p).text
  unfolding get_text
  append_text-TextsTold x r delta p w h y s = elim (Bool-cases (same_turn x r y s)) [
    | inl e ↦ inr (subst W (sym (same_turn_eq x y r s e).1) w)
    | inr e ↦ elim (h y s) [
      | inr v ↦ inr v
      | inl f ↦ inl (
          get_text-append_text x r delta p y s
          ∙ (ap (λ b. if b then capped max_turn_chars (get_text y s p ++ delta) else get_text y s p)
                e
              ∙ f))
    ]
  ]

  append_text-IsInformed :
      (x : PersonaId) (r : ℕ) (delta : Text) (p : Player)
      → W r
      → IsInformed W p
      → IsInformed W (append_text x r delta p)
  unfolding append_text
  append_text-IsInformed x r delta p w h = record {
    texts = append_text-TextsTold x r delta p w h.texts;
    rounds = h.rounds;
    current = h.current;
    closing = h.closing;
    finishing = h.finishing;
    sent = h.sent;
  }

  add-told :
      (r : ℕ) (rs : List ℕ)
      → W r
      → ((s : ℕ) → Dict.has s rs ≡ true → W s)
      → (s : ℕ) → Dict.has s (Dict.add r rs) ≡ true
      → W s
  add-told r rs w h s e = elim (Bool-cases (r == s)) [
    | inl b ↦ subst W ((nat_eq_iff r s).0 b) w
    | inr b ↦ h s (sym (Dict.has-add s r rs ∙ ap (λ c. if c then true else Dict.has s rs) b) ∙ e)
  ]

  -- A player with the same texts, rounds, turn and inputs is as informed.
  kept :
      (p q : Player)
      → (q.text ≡ p.text)
        × (q.round_complete ≡ p.round_complete)
        × (q.active ≡ p.active)
        × (q.pending_done ≡ p.pending_done)
        × (q.pending_round_complete ≡ p.pending_round_complete)
        × (q.sent ≡ p.sent)
      → IsInformed W p
      → IsInformed W q
  kept p q (t, r, a, d, f, s) h = record {
    texts = subst (TextsTold W) (sym t) h.texts;
    rounds = subst (λ rs. (r : ℕ) → Dict.has r rs ≡ true → W r) (sym r) h.rounds;
    current = subst (TurnTold W) (sym a) h.current;
    closing = subst (DoneTold W) (sym d) h.closing;
    finishing = subst (RoundTold W) (sym f) h.finishing;
    sent = subst (AllTold W) (sym s) h.sent;
  }

  record_error-IsInformed :
      (e : ErrorEvent) (o : Option PersonaId) (p : Player)
      → IsInformed W p
      → IsInformed W (record_error e o p)
  unfolding record_error
  record_error-IsInformed e o p h =
      kept p (record_error e o p)
        (ground arith, ground arith, ground arith, ground arith, ground arith, ground arith) h

  record_event-IsInformed :
      (e : DebateEvent) (p : Player) → IsTold W e → IsInformed W p → IsInformed W (record_event e p)
  unfolding record_event
  record_event-IsInformed (token x r t) p w h =
      let q : Player = append_text x r t p in
      elim (same x moderator_id)
        as (λ b. IsInformed W (if b then record q { moderator_round = some r } else q)) [
          | true ↦
              kept q (record q { moderator_round = some r }) (refl, refl, refl, refl, refl, refl)
                (append_text-IsInformed x r t p w h)
          | false ↦ append_text-IsInformed x r t p w h
        ]
  record_event-IsInformed (persona_done x r) p w h = h
  record_event-IsInformed (round_complete r) p w h = record {
    texts = h.texts;
    rounds = add-told r p.round_complete w h.rounds;
    current = h.current;
    closing = h.closing;
    finishing = h.finishing;
    sent = h.sent;
  }
  record_event-IsInformed (verdict v) p w h =
      kept p (record p { verdict = some v }) (refl, refl, refl, refl, refl, refl) h
  record_event-IsInformed (DebateEvent.error e) p w h = record_error-IsInformed e e.persona p h

  pub feed-IsInformed :
      (e : DebateEvent) (p : Player) → IsTold W e → IsInformed W p → IsInformed W (feed e p)
  unfolding feed
  feed-IsInformed e p w h = pump-IsInformed (record_event e p) (record_event-IsInformed e p w h)

  -- A control that is passed on says no round.
  pub control-IsInformed :
      (c : ControlInput) (p : Player) → IsInformed W p → IsInformed W (dispatch p (control c))
  control-IsInformed c p h = record {
    texts = h.texts;
    rounds = h.rounds;
    current = h.current;
    closing = h.closing;
    finishing = h.finishing;
    sent = AllTold-append W p.sent (control c ∷ []) h.sent (tt, tt);
  }

  pub reset-IsInformed : (p : Player) → AllTold W p.sent → IsInformed W (reset p)
  unfolding reset Dict.has Dict.get rounds_of text_at
  reset-IsInformed p h = record {
    texts = λ x r. inl (no_cell x r);
    rounds = λ r e. absurd (true≢false (sym e));
    current = tt;
    closing = tt;
    finishing = tt;
    sent = h;
  }
    where
      no_cell : (x : PersonaId) (r : ℕ) → cell_of [] x r ≡ []
      no_cell x r = refl

  pub feed_status-IsInformed :
      (w : WsStatus) (p : Player) → IsInformed W p → IsInformed W (feed_status w p)
  unfolding feed_status
  feed_status-IsInformed WsStatus.connecting p h =
      control-IsInformed (status WsStatus.connecting) (reset p) (reset-IsInformed p h.sent)
  feed_status-IsInformed WsStatus.closed p h =
      pump-IsInformed (record p { closed = true })
        (kept p (record p { closed = true }) (refl, refl, refl, refl, refl, refl) h)
  feed_status-IsInformed WsStatus.idle p h = control-IsInformed (status WsStatus.idle) p h
  feed_status-IsInformed WsStatus.opened p h = control-IsInformed (status WsStatus.opened) p h
  feed_status-IsInformed WsStatus.error p h = control-IsInformed (status WsStatus.error) p h

  pub feed_transport-IsInformed :
      (m : Text) (p : Player) → IsInformed W p → IsInformed W (feed_transport m p)
  unfolding feed_transport
  feed_transport-IsInformed m p h = control-IsInformed (transport m) p h

  pub set_rate-IsInformed :
      (multiplier : Fraction) (p : Player)
      → IsInformed W p
      → IsInformed W (State.set_rate multiplier p)
  unfolding State.set_rate
  set_rate-IsInformed multiplier p h =
      retimed-IsInformed p p.timer (State.set_rate multiplier p).rate p.draining h
