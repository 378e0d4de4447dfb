-- ===== src/Player/Over.antt =====
-- A session that is over, under everything that can still happen to its player.
use mathlib.Core.Option
use council.Prelude.{
  ◌≡◌, refl, sym, ap, subst, ◌∙◌, inl, inr, Bool, true, false, if◌then◌else◌, Option, none, some,
  arith, Text, Bool-cases,
}
use council.Prelude.Dict
use council.Persona.{PersonaId, PersonaId-Key, same, moderator_id}
use council.Protocol.{DebateEvent, token, persona_done, round_complete, verdict, ErrorEvent}
use council.Reducer.{
  WsStatus, DebateInput, is_terminal_error, control, status, transport, debate_reducer,
  reduce_control, reduce_status,
}
use council.Player.State.{Player, Fraction, dispatch, append_text}
use council.Player.{
  Delay, park, done, wait, step, arm, pump, fire, feed, feed_status, feed_transport, skip_to_live,
  record_event, record_error,
}
use council.Player.Rules.{After}
use council.Player.Drain.{skip_rule}
use council.Player.Shown.{shown, shown-dispatch}
use council.Player.Session.{IsAdvisory, pump-cases, fire-cases}
use council.Hooks.Frameloop.{active_phases}
use council.Player.Mild.{DictMild-set}
use council.Player.Settled.{IsPlaying, IsSpent, step-IsPlaying, spent-step}

-- Timers, the rate and the reveal mode decide nothing here.
retimed-IsPlaying :
    (p : Player) (t : Option Fraction) (rate : Fraction) (draining : Bool)
    → IsPlaying p
    → IsPlaying (record p { timer = t; rate = rate; draining = draining })
unfolding shown
retimed-IsPlaying p t rate draining h = record {
  mild_pending = h.mild_pending;
  mild_recorded = h.mild_recorded;
  over = h.over;
}

arm-IsPlaying : (r : Player × Delay) → IsPlaying r.0 → IsPlaying (arm r)
unfolding arm
arm-IsPlaying (p, park) h = h
arm-IsPlaying (p, done) h = h
arm-IsPlaying (p, wait d) h = retimed-IsPlaying p (some d) p.rate p.draining h

pub pump-IsPlaying : (p : Player) → IsPlaying p → IsPlaying (pump p)
pump-IsPlaying p h = elim (pump-cases p) [
  | inl e ↦ subst IsPlaying (sym e) h
  | inr e ↦ subst IsPlaying (sym e) (arm-IsPlaying (step p) (step-IsPlaying p h))
]

pub fire-IsPlaying : (p : Player) → IsPlaying p → IsPlaying (fire p)
fire-IsPlaying p h = elim (fire-cases p) [
  | inl e ↦ subst IsPlaying (sym e) h
  | inr e ↦
      subst IsPlaying (sym e)
        (pump-IsPlaying (record p { timer = none }) (retimed-IsPlaying p none p.rate p.draining h))
]

step-After : (p : Player) → IsPlaying p → After IsPlaying IsPlaying (step p)
step-After p h = spread (step p) (step-IsPlaying p h)
  where
    spread : (r : Player × Delay) → IsPlaying r.0 → After IsPlaying IsPlaying r
    spread (q, park) k = k
    spread (q, done) k = k
    spread (q, wait d) k = k

pub skip-IsPlaying : (p q : Player) → skip_to_live p ≡ some q → IsPlaying p → IsPlaying q
skip-IsPlaying p q e h =
    let (r, ret, k) =
      skip_rule IsPlaying IsPlaying step-After p (retimed-IsPlaying p none p.rate true h) in
    subst IsPlaying (Option.some-injective _ _ (sym ret ∙ e))
      (retimed-IsPlaying r r.timer r.rate false k)

record_error-IsPlaying :
    (e : ErrorEvent) (o : Option PersonaId) (p : Player)
    → e.persona ≡ o
    → IsPlaying p
    → IsPlaying (record_error e o p)
unfolding record_error shown
record_error-IsPlaying e none p i h = record {
  mild_pending = h.mild_pending;
  mild_recorded = h.mild_recorded;
  over = h.over;
}
record_error-IsPlaying e (some x) p i h = elim (Bool-cases (same x moderator_id)) [
  | inl b ↦
      subst
        (λ b. IsPlaying (
          if b
          then record p { session_error = some e }
          else record p { persona_errors = Dict.set x e p.persona_errors }))
        (sym b)
        (record { mild_pending = h.mild_pending; mild_recorded = h.mild_recorded; over = h.over })
  | inr b ↦
      subst
        (λ b. IsPlaying (
          if b
          then record p { session_error = some e }
          else record p { persona_errors = Dict.set x e p.persona_errors }))
        (sym b)
        (record {
          mild_pending = h.mild_pending;
          mild_recorded =
              DictMild-set x e p.persona_errors (ap is_terminal_error i ∙ b) h.mild_recorded;
          over = h.over;
        })
]

pub record_event-IsPlaying :
    (e : DebateEvent) (p : Player) → IsPlaying p → IsPlaying (record_event e p)
unfolding record_event shown append_text
record_event-IsPlaying (token x r t) p h =
    let q : Player = append_text x r t p in
    elim (same x moderator_id)
      as (λ b. IsPlaying (if b then record q { moderator_round = some r } else q)) [
        | true ↦ record {
          mild_pending = h.mild_pending;
          mild_recorded = h.mild_recorded;
          over = h.over;
        }
        | false ↦ record {
          mild_pending = h.mild_pending;
          mild_recorded = h.mild_recorded;
          over = h.over;
        }
      ]
record_event-IsPlaying (persona_done x r) p h = h
record_event-IsPlaying (round_complete r) p h = record {
  mild_pending = h.mild_pending;
  mild_recorded = h.mild_recorded;
  over = h.over;
}
record_event-IsPlaying (verdict v) p h = record {
  mild_pending = h.mild_pending;
  mild_recorded = h.mild_recorded;
  over = h.over;
}
record_event-IsPlaying (DebateEvent.error e) p h = record_error-IsPlaying e e.persona p refl h

-- Nothing is played at the end.
pub spent-pump : (p : Player) → IsSpent p → pump p ≡ p
unfolding arm
spent-pump p s = elim (pump-cases p) [ inl e ↦ e | inr e ↦ e ∙ ap arm (spent-step p s) ]

pub spent-fire : (p : Player) → IsSpent p → (fire p).sent ≡ p.sent
spent-fire p s = elim (fire-cases p) [
  | inl e ↦ ap (λ q. q.sent) e
  | inr e ↦ ap (λ q. q.sent) (e ∙ spent-pump (record p { timer = none }) s)
]

pub spent-skip : (p q : Player) → skip_to_live p ≡ some q → IsSpent p → q.sent ≡ p.sent
spent-skip p q e s =
    let I : Player → Type 0 = λ x. IsSpent x × (x.sent ≡ p.sent) in
    let (r, ret, k) =
      skip_rule I I (λ x h. subst (After I I) (sym (spent-step x h.0)) h) p (s, refl) in
    ap (λ x. x.sent) (Option.some-injective _ _ (sym e ∙ ret)) ∙ k.1

pub record_event-keeps :
    (e : DebateEvent) (p : Player)
    → ((record_event e p).sent ≡ p.sent)
      × ((record_event e p).cursor ≡ p.cursor)
      × ((record_event e p).active ≡ p.active)
unfolding record_event record_error append_text
record_event-keeps (token x r t) p = ground arith
record_event-keeps (persona_done x r) p = (refl, refl, refl)
record_event-keeps (round_complete r) p = (refl, refl, refl)
record_event-keeps (verdict v) p = (refl, refl, refl)
record_event-keeps (DebateEvent.error e) p = ground arith

pub spent-feed : (e : DebateEvent) (p : Player) → IsSpent p → (feed e p).sent ≡ p.sent
unfolding feed
spent-feed e p (c, n) =
    let (s, d, a) = record_event-keeps e p in
    ap (λ q. q.sent) (spent-pump (record_event e p) (d ∙ c, a ∙ n)) ∙ s

-- A status or an advisory error that is passed on changes no phase.
advised-IsPlaying :
    (p : Player) (i : DebateInput)
    → (debate_reducer (shown p) i).phase ≡ (shown p).phase
    → IsPlaying p
    → IsPlaying (dispatch p i)
advised-IsPlaying p i e h = record {
  mild_pending = h.mild_pending;
  mild_recorded = h.mild_recorded;
  over = elim h.over [
    | inl l ↦ inl (ap active_phases (ap (λ s. s.phase) (shown-dispatch p i) ∙ e) ∙ l)
    | inr s ↦ inr s
  ];
}

pub transport-IsPlaying : (m : Text) (p : Player) → IsPlaying p → IsPlaying (feed_transport m p)
unfolding feed_transport debate_reducer reduce_control
transport-IsPlaying m p h = advised-IsPlaying p (control (transport m)) refl h

pub status-IsPlaying :
    (w : WsStatus) (p : Player) → IsAdvisory w → IsPlaying p → IsPlaying (feed_status w p)
unfolding feed_status debate_reducer reduce_control reduce_status
status-IsPlaying WsStatus.idle p a h = advised-IsPlaying p (control (status WsStatus.idle)) refl h
status-IsPlaying WsStatus.opened p a h =
    advised-IsPlaying p (control (status WsStatus.opened)) refl h
status-IsPlaying WsStatus.error p a h = advised-IsPlaying p (control (status WsStatus.error)) refl h
status-IsPlaying WsStatus.connecting p a h = absurd a
status-IsPlaying WsStatus.closed p a h = absurd a

pub closed-IsPlaying : (p : Player) → IsPlaying p → IsPlaying (feed_status WsStatus.closed p)
unfolding feed_status shown
closed-IsPlaying p h =
    pump-IsPlaying (record p { closed = true })
      (record { mild_pending = h.mild_pending; mild_recorded = h.mild_recorded; over = h.over })
