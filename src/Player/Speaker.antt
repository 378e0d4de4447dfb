-- ===== src/Player/Speaker.antt =====
-- The roster on the screen throughout a session.
use mathlib.Core.Option
use council.Prelude.{
  ◌≤◌, ◌≡◌, refl, sym, ap, subst, ◌∙◌, inl, inr, true, Option, none, some, List, arith, length,
}
use council.Persona.{PersonaId}
use council.Protocol.{DebateEvent, token, persona_done, round_complete, verdict, ErrorEvent}
use council.Reducer.{
  WsStatus, DebateInput, control, status, transport, debate_reducer, reduce_control, reduce_status,
  run, initial_state,
}
use council.Player.State.{ActiveTurn, PendingDone, Player, dispatch, reset, set_rate, append_text}
use council.Player.{
  Delay, park, done, wait, step, arm, pump, fire, feed, feed_status, feed_transport, skip_to_live,
  record_event, record_error,
}
use council.Player.Rules.{After}
use council.Player.Drain.{skip_rule}
use council.Player.Shown.{shown, shown-dispatch}
use council.Player.Session.{
  Session, begins, feeds, closes, advises, reports, fires, skips, rates, IsAdvisory, pump-cases,
  fire-cases,
}
use council.Player.Roster.{Floor, roster, HasFloor}
use council.Player.Solo.{GivesFloor, step-GivesFloor}

-- The floor is a matter of the turns and of what was sent.
HasFloor-same :
    (p q : Player)
    → q.active ≡ p.active
    → q.pending_done ≡ p.pending_done
    → q.sent ≡ p.sent
    → HasFloor p
    → HasFloor q
unfolding shown
HasFloor-same p q a d s h =
    subst (λ o. Floor o q.pending_done (roster q)) (sym a)
      (subst (λ o. Floor p.active o (roster q)) (sym d)
        (subst (λ l. Floor p.active p.pending_done (run initial_state l).active_speakers) (sym s)
          h))

arm-HasFloor : (r : Player × Delay) → GivesFloor r → HasFloor (arm r)
unfolding arm shown
arm-HasFloor (p, park) h = h
arm-HasFloor (p, done) h = h
arm-HasFloor (p, wait d) h = h

pump-HasFloor : (p : Player) → HasFloor p → HasFloor (pump p)
pump-HasFloor p h = elim (pump-cases p) [
  | inl e ↦ subst HasFloor (sym e) h
  | inr e ↦ subst HasFloor (sym e) (arm-HasFloor (step p) (step-GivesFloor p h))
]

fire-HasFloor : (p : Player) → HasFloor p → HasFloor (fire p)
unfolding shown
fire-HasFloor p h = elim (fire-cases p) [
  | inl e ↦ subst HasFloor (sym e) h
  | inr e ↦ subst HasFloor (sym e) (pump-HasFloor (record p { timer = none }) h)
]

step-After : (p : Player) → HasFloor p → After HasFloor HasFloor (step p)
step-After p h = spread (step p) (step-GivesFloor p h)
  where
    spread : (r : Player × Delay) → GivesFloor r → After HasFloor HasFloor r
    spread (q, park) k = k
    spread (q, done) k = k
    spread (q, wait d) k = k

skip-HasFloor : (p q : Player) → skip_to_live p ≡ some q → HasFloor p → HasFloor q
unfolding shown
skip-HasFloor p q e h =
    let (r, ret, k) = skip_rule HasFloor HasFloor step-After p h in
    subst HasFloor (Option.some-injective _ _ (sym ret ∙ e)) k

-- An input that leaves the roster alone may be passed on at any time.
passed-HasFloor :
    (p : Player) (i : DebateInput)
    → (debate_reducer (shown p) i).active_speakers ≡ (shown p).active_speakers
    → HasFloor p
    → HasFloor (dispatch p i)
passed-HasFloor p i e h =
    subst (Floor p.active p.pending_done)
      (sym (ap (λ s. s.active_speakers) (shown-dispatch p i) ∙ e)) h

start-HasFloor : (p : Player) → HasFloor (feed_status WsStatus.connecting p)
unfolding feed_status reset debate_reducer reduce_control reduce_status
start-HasFloor p =
    ap (λ s. s.active_speakers) (shown-dispatch (reset p) (control (status WsStatus.connecting)))

record_error-HasFloor :
    (e : ErrorEvent) (o : Option PersonaId) (p : Player)
    → HasFloor p
    → HasFloor (record_error e o p)
unfolding record_error
record_error-HasFloor e o p h =
    HasFloor-same p (record_error e o p) (ground arith) (ground arith) (ground arith) h

record_event-HasFloor : (e : DebateEvent) (p : Player) → HasFloor p → HasFloor (record_event e p)
unfolding record_event append_text shown
record_event-HasFloor (token x r t) p h =
    HasFloor-same p (record_event (token x r t) p) (ground arith) (ground arith) (ground arith) h
record_event-HasFloor (persona_done x r) p h = h
record_event-HasFloor (round_complete r) p h = h
record_event-HasFloor (verdict v) p h = h
record_event-HasFloor (DebateEvent.error e) p h = record_error-HasFloor e e.persona p h

advise-HasFloor :
    (p : Player) (w : WsStatus) → IsAdvisory w → HasFloor p → HasFloor (feed_status w p)
unfolding feed_status debate_reducer reduce_control reduce_status
advise-HasFloor p WsStatus.idle a h = passed-HasFloor p (control (status WsStatus.idle)) refl h
advise-HasFloor p WsStatus.opened a h = passed-HasFloor p (control (status WsStatus.opened)) refl h
advise-HasFloor p WsStatus.error a h = passed-HasFloor p (control (status WsStatus.error)) refl h
advise-HasFloor p WsStatus.connecting a h = absurd a
advise-HasFloor p WsStatus.closed a h = absurd a

pub Session-HasFloor : {p : Player} → Session p → HasFloor p
unfolding feed feed_status feed_transport set_rate debate_reducer reduce_control shown
Session-HasFloor (begins p) = start-HasFloor p
Session-HasFloor (feeds {p = p} e o s) =
    pump-HasFloor (record_event e p) (record_event-HasFloor e p (Session-HasFloor s))
Session-HasFloor (closes {p = p} s) =
    pump-HasFloor (record p { closed = true }) (Session-HasFloor s)
Session-HasFloor (advises {p = p} w a s) = advise-HasFloor p w a (Session-HasFloor s)
Session-HasFloor (reports {p = p} m s) =
    passed-HasFloor p (control (transport m)) refl (Session-HasFloor s)
Session-HasFloor (fires {p = p} s) = fire-HasFloor p (Session-HasFloor s)
Session-HasFloor (skips {p = p} {q = q} e s) = skip-HasFloor p q e (Session-HasFloor s)
Session-HasFloor (rates {p = p} m s) = Session-HasFloor s

Floor-length :
    (a : Option ActiveTurn) (d : Option PendingDone) (ps : List PersonaId)
    → Floor a d ps
    → length ps ≤ 1
Floor-length none none ps h = ground arith
Floor-length none (some d) ps h = ground arith
Floor-length (some a) none ps (h, k) = ground arith
Floor-length (some a) (some d) ps h = absurd h

-- At every moment of a session at most one persona is on the roster that the views show.
pub Session-one_speaker : {p : Player} → Session p → length (shown p).active_speakers ≤ 1
Session-one_speaker {p} s = Floor-length p.active p.pending_done (roster p) (Session-HasFloor s)
