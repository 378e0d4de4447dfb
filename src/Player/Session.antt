-- ===== src/Player/Session.antt =====
-- One session of the player: from the connecting status through any interleaving of what the
-- socket delivers, the timer, and the viewer's controls.
use mathlib.Core.Option
use council.Prelude.{
  ℕ-Key, ◌≡◌, refl, sym, subst, fun_ext, ◌∙◌, ◌⊎◌, inl, inr, Bool, true, false, Option, none, some,
  [], arith, Text,
}
use council.Prelude.Dict
use council.Protocol.{DebateEvent}
use council.Reducer.{WsStatus, DebateInput, control, status, transport, rounds_of, text_at}
use council.Reducer.Transcript.{say}
use council.Player.State.{Fraction, panelist, Player, reset, set_rate, dispatch, get_text}
use council.Player.{
  Delay, park, done, wait, present, terminal_known, step, arm, pump, fire, feed, feed_status,
  feed_transport, skip_to_live, record_event,
}
use council.Player.Heard.{heard, kept, buffered, heard-dispatch, heard-IsSilent, IsSilent}
use council.Player.Rules.{After}
use council.Player.Drain.{skip_rule}
use council.Player.Fidelity.{IsFaithful, told-IsSound}
use council.Player.Fidelity.Step.{step-IsFaithful}
use council.Player.Fidelity.Record.{IsOrderly, record_event-IsFaithful, closed-IsFaithful}

-- The statuses that the player passes on: all but "connecting" and "closed".
abbrev pub IsAdvisory : WsStatus → Type 0
IsAdvisory WsStatus.connecting = ⊥
IsAdvisory WsStatus.closed = ⊥
IsAdvisory _ = Unit {0}

pub data Session : Player → Type 0 where
  begins : (p : Player) → Session (feed_status WsStatus.connecting p)
  feeds : {p : Player} (e : DebateEvent) → IsOrderly p e → Session p → Session (feed e p)
  closes : {p : Player} → Session p → Session (feed_status WsStatus.closed p)
  advises : {p : Player} (w : WsStatus) → IsAdvisory w → Session p → Session (feed_status w p)
  reports : {p : Player} (message : Text) → Session p → Session (feed_transport message p)
  fires : {p : Player} → Session p → Session (fire p)
  skips : {p q : Player} → skip_to_live p ≡ some q → Session p → Session q
  rates : {p : Player} (multiplier : Fraction) → Session p → Session (set_rate multiplier p)

-- Timers, the rate and the reveal mode are no part of what was told or recorded.
timer-IsFaithful :
    (p : Player) (t : Option Fraction) (rate : Fraction) (draining : Bool)
    → IsFaithful p
    → IsFaithful (record p { timer = t; rate = rate; draining = draining })
unfolding heard get_text terminal_known
timer-IsFaithful p t rate draining v = v

arm-IsFaithful : (r : Player × Delay) → IsFaithful r.0 → IsFaithful (arm r)
unfolding arm
arm-IsFaithful (p, park) v = v
arm-IsFaithful (p, done) v = v
arm-IsFaithful (p, wait d) v = timer-IsFaithful p (some d) p.rate p.draining v

pub pump-cases : (p : Player) → (pump p ≡ p) ⊎ (pump p ≡ arm (step p))
unfolding pump
pump-cases p = ground arith

pump-IsFaithful : (p : Player) → IsFaithful p → IsFaithful (pump p)
pump-IsFaithful p v = elim (pump-cases p) [
  | inl e ↦ subst IsFaithful (sym e) v
  | inr e ↦ subst IsFaithful (sym e) (arm-IsFaithful (step p) (step-IsFaithful p v))
]

pub fire-cases : (p : Player) → (fire p ≡ p) ⊎ (fire p ≡ pump (record p { timer = none }))
unfolding fire
fire-cases p = ground arith

fire-IsFaithful : (p : Player) → IsFaithful p → IsFaithful (fire p)
fire-IsFaithful p v = elim (fire-cases p) [
  | inl e ↦ subst IsFaithful (sym e) v
  | inr e ↦
      subst IsFaithful (sym e) (pump-IsFaithful _ (timer-IsFaithful p none p.rate p.draining v))
]

-- Every step of a drain keeps the fact, and so does its last.
step-After : (p : Player) → IsFaithful p → After IsFaithful IsFaithful (step p)
step-After p v = spread (step p) (step-IsFaithful p v)
  where
    spread : (r : Player × Delay) → IsFaithful r.0 → After IsFaithful IsFaithful r
    spread (q, park) h = h
    spread (q, done) h = h
    spread (q, wait d) h = h

skip-IsFaithful : (p q : Player) → skip_to_live p ≡ some q → IsFaithful p → IsFaithful q
skip-IsFaithful p q e v =
    let (r, ret, h) =
      skip_rule IsFaithful IsFaithful step-After p (timer-IsFaithful p none p.rate true v) in
    subst IsFaithful (Option.some-injective _ _ (sym ret ∙ e))
      (timer-IsFaithful r r.timer r.rate false h)

silent-IsFaithful :
    (p : Player) (i : DebateInput) → IsSilent i → IsFaithful p → IsFaithful (dispatch p i)
unfolding heard get_text terminal_known
silent-IsFaithful p i h v =
    told-IsSound (heard p) _ (kept p) (buffered p) (terminal_known p) (present p.verdict) p.cursor
      p.active (heard-IsSilent p i h) v

start-IsFaithful : (p : Player) → IsFaithful (feed_status WsStatus.connecting p)
unfolding heard get_text terminal_known feed_status rounds_of text_at Dict.get Dict.has say
start-IsFaithful p =
    told-IsSound (λ q s. []) _ (λ q s. []) (λ s. false) false false (panelist 1 0) none
      (fun_ext
        λ q. fun_ext λ s. heard-dispatch (reset p) (control (status WsStatus.connecting)) q s)
      (record {
        bounded = λ q s. omega arith;
        prefix = λ q s. refl;
        place = record {
          seated = omega arith;
          started = omega arith;
          passed = λ s one lt. absurd (omega arith);
          within = λ pos. absurd (omega arith);
          played = λ q s w one b. refl;
          ahead = λ q s w b o. refl;
          silent = λ s. refl;
        };
      })

advise-IsFaithful :
    (p : Player) (w : WsStatus) → IsAdvisory w → IsFaithful p → IsFaithful (feed_status w p)
unfolding feed_status
advise-IsFaithful p WsStatus.idle h v = silent-IsFaithful p (control (status WsStatus.idle)) tt v
advise-IsFaithful p WsStatus.opened h v =
    silent-IsFaithful p (control (status WsStatus.opened)) tt v
advise-IsFaithful p WsStatus.error h v = silent-IsFaithful p (control (status WsStatus.error)) tt v
advise-IsFaithful p WsStatus.connecting h v = absurd h
advise-IsFaithful p WsStatus.closed h v = absurd h

pub Session-IsFaithful : {p : Player} → Session p → IsFaithful p
unfolding feed feed_status feed_transport set_rate
Session-IsFaithful (begins p) = start-IsFaithful p
Session-IsFaithful (feeds {p = p} e o s) =
    pump-IsFaithful (record_event e p) (record_event-IsFaithful e p o (Session-IsFaithful s))
Session-IsFaithful (closes {p = p} s) =
    pump-IsFaithful _ (closed-IsFaithful p (Session-IsFaithful s))
Session-IsFaithful (advises {p = p} w h s) = advise-IsFaithful p w h (Session-IsFaithful s)
Session-IsFaithful (reports {p = p} m s) =
    silent-IsFaithful p (control (transport m)) tt (Session-IsFaithful s)
Session-IsFaithful (fires {p = p} s) = fire-IsFaithful p (Session-IsFaithful s)
Session-IsFaithful (skips {p = p} {q = q} e s) = skip-IsFaithful p q e (Session-IsFaithful s)
Session-IsFaithful (rates {p = p} m s) =
    timer-IsFaithful p p.timer _ p.draining (Session-IsFaithful s)
