-- ===== src/Player/Settled.antt =====
-- While the phase is live the replay goes on, and once it is not the player is at the end.
use council.Prelude.{
  ℕ, ℕ-Key, ◌≡◌, refl, sym, ap, subst, ◌∙◌, ◌⊎◌, inl, inr, Bool, true, false, Option, none, some,
  List, [], ◌∷◌, ◌++◌, map, arith, slice, Text, Bool-cases, Option-cases,
}
use council.Prelude.Dict
use council.Prelude.Dict.{Dict}
use council.Persona.{PersonaId, PersonaId-Key, same, seat, moderator_id}
use council.Protocol.{DebateEvent, ErrorEvent, token}
use council.Reducer.{DebateState, DebateInput, event, debate_reducer, reduce_event, run}
use council.Player.State.{Cursor, panelist, ActiveTurn, PendingDone, Player, get_text}
use council.Player.{
  done, step, prepare_next_turn, prepare_at, after_prepare, reveal_step, finalize_terminal, turn,
  verdict_round, chunk_end,
}
use council.Player.Cases.{
  done_inputs, round_inputs, pending_inputs, flushed, reveal_cases, step_cases, close_turn_lem,
  errors_pending, errors_left,
}
use council.Player.Shown.{shown, shown-dispatch, shown-dispatch_all}
use council.Hooks.Frameloop.{active_phases}
use council.Player.Mild.{AllMild, DictMild, AllMild-append, DictMild-get, DictMild-delete}

-- The phase shown is live.
abbrev pub is_live : DebateState → Bool
is_live s = active_phases s.phase

-- An input that keeps a live phase live.
abbrev IsCalm : DebateInput → Type 0
IsCalm i = (s : DebateState) → is_live s ≡ true → is_live (debate_reducer s i) ≡ true

abbrev AllCalm : List DebateInput → Type 0
AllCalm [] = Unit {0}
AllCalm (i ∷ is) = IsCalm i × AllCalm is

run-live :
    (s : DebateState) (is : List DebateInput)
    → AllCalm is
    → is_live s ≡ true
    → is_live (run s is) ≡ true
unfolding run
run-live s [] c h = h
run-live s (i ∷ is) (c, cs) h = run-live (debate_reducer s i) is cs (c s h)

AllCalm-append : (xs ys : List DebateInput) → AllCalm xs → AllCalm ys → AllCalm (xs ++ ys)
AllCalm-append [] ys a b = b
AllCalm-append (x ∷ xs) ys (a, more) b = (a, AllCalm-append xs ys more b)

errors-AllCalm :
    (es : List ErrorEvent) → AllMild es → AllCalm (map (λ e. event (DebateEvent.error e)) es)
unfolding debate_reducer reduce_event
errors-AllCalm [] h = tt
errors-AllCalm (e ∷ es) (h, hs) = ((λ s l. rw h l), errors-AllCalm es hs)

done-AllCalm : (o : Option PendingDone) → AllCalm (done_inputs o)
unfolding debate_reducer reduce_event
done-AllCalm none = tt
done-AllCalm (some d) = ((λ s l. l), tt)

round-AllCalm : (o : Option ℕ) → AllCalm (round_inputs o)
unfolding debate_reducer reduce_event
round-AllCalm none = tt
round-AllCalm (some r) = ((λ s l. l), tt)

-- The end of the replay.
abbrev pub IsSpent : Player → Type 0
IsSpent p = (p.cursor ≡ Cursor.done) × (p.active ≡ none)

pub record IsPlaying (p : Player) : Type 0 where
  pub mild_pending : AllMild p.pending_errors
  pub mild_recorded : DictMild p.persona_errors
  pub over : (is_live (shown p) ≡ true) ⊎ IsSpent p

flushed-live :
    (p : Player)
    → AllMild p.pending_errors
    → is_live (shown p) ≡ true
    → is_live (shown (flushed p)) ≡ true
unfolding shown
flushed-live p m h =
    ap is_live (shown-dispatch_all p (pending_inputs p))
    ∙ run-live (shown p) (pending_inputs p)
        (AllCalm-append (done_inputs p.pending_done)
          (round_inputs p.pending_round_complete
            ++ map (λ e. event (DebateEvent.error e)) p.pending_errors)
          (done-AllCalm p.pending_done)
          (AllCalm-append (round_inputs p.pending_round_complete)
            (map (λ e. event (DebateEvent.error e)) p.pending_errors)
            (round-AllCalm p.pending_round_complete) (errors-AllCalm p.pending_errors m)))
        h

pending-AllMild :
    (x : PersonaId) (p : Player)
    → AllMild p.pending_errors
    → DictMild p.persona_errors
    → AllMild (errors_pending x p)
pending-AllMild x p a d = elim (Option-cases (Dict.get x p.persona_errors)) [
  | inl n ↦
      subst
        (λ o.
          AllMild (elim o [ none ↦ p.pending_errors | some err ↦ p.pending_errors ++ err ∷ [] ]))
        (sym n) a
  | inr (e, g) ↦
      subst
        (λ o.
          AllMild (elim o [ none ↦ p.pending_errors | some err ↦ p.pending_errors ++ err ∷ [] ]))
        (sym g) (AllMild-append p.pending_errors e a (DictMild-get x p.persona_errors e d g))
]

left-DictMild :
    (x : PersonaId) (p : Player) → DictMild p.persona_errors → DictMild (errors_left x p)
left-DictMild x p d =
    elim (Dict.get x p.persona_errors)
      as (λ o.
        DictMild (elim o [ none ↦ p.persona_errors | some err ↦ Dict.delete x p.persona_errors ])) [
          | none ↦ d
          | some e ↦ DictMild-delete x p.persona_errors d
        ]

token-live :
    (s : DebateState) (x : PersonaId) (r : ℕ) (t : Text)
    → is_live (debate_reducer s (event (token x r t))) ≡ true
unfolding debate_reducer reduce_event
token-live s x r t = elim (Bool-cases (same x moderator_id)) [
  | inl e ↦ rw e refl
  | inr e ↦ rw e refl
]

reveal-IsPlaying :
    (p : Player) (a : ActiveTurn)
    → AllMild p.pending_errors
    → DictMild p.persona_errors
    → is_live (shown p) ≡ true
    → IsPlaying (reveal_step p a).0
unfolding shown
reveal-IsPlaying p a m d h =
    reveal_cases (λ r. IsPlaying r.0) p a
      (λ l k. record { mild_pending = m; mild_recorded = d; over = inr (refl, refl) })
      (λ l k. subst IsPlaying (sym (close_turn_lem p a)) (record {
        mild_pending = pending-AllMild a.persona p m d;
        mild_recorded = left-DictMild a.persona p d;
        over = inl h;
      }))
      (λ l. record {
        mild_pending = m;
        mild_recorded = d;
        over = inl (
            ap is_live (
              shown-dispatch p
                (event (token a.persona a.round (slice a.text a.pos (chunk_end p a)))))
            ∙ token-live (shown p) a.persona a.round (slice a.text a.pos (chunk_end p a)));
      })

finalize-keeps :
    (p : Player)
    → ((finalize_terminal p).active ≡ p.active)
      × ((finalize_terminal p).pending_errors ≡ p.pending_errors)
      × ((finalize_terminal p).persona_errors ≡ p.persona_errors)
unfolding finalize_terminal
finalize-keeps p = (ground arith, ground arith, ground arith)

-- What is left of the replay where it is not at its end.
live_of :
    (p : Player)
    → IsPlaying p
    → ((p.cursor ≡ Cursor.done) → p.active ≡ none → ⊥)
    → is_live (shown p) ≡ true
live_of p h k = elim h.over [ inl l ↦ l | inr (c, a) ↦ absurd (k c a) ]

pub step-IsPlaying : (p : Player) → IsPlaying p → IsPlaying (step p).0
unfolding shown
step-IsPlaying p h =
    step_cases (λ r. IsPlaying r.0) p
      (λ a e.
        reveal-IsPlaying p a h.mild_pending h.mild_recorded
          (live_of p h (λ c n. none≢some' p a n e)))
      (λ n c. h)
      (λ r i n c b.
        let a : ActiveTurn = turn (seat i) r (some i) (get_text (seat i) r p) false in
        reveal-IsPlaying (record (flushed p) { active = some a }) a tt h.mild_recorded
          (flushed-live p h.mild_pending (live_of p h (λ d e. panelist_not_done p r i c d))))
      (λ n c b t. h)
      (λ n c t.
        let l : is_live (shown p) ≡ true = live_of p h (not_done p c) in
        let q : Player = record p { cursor = Cursor.moderator } in
        let (fa, fp, fe) = finalize-keeps (flushed q) in
        (
          (λ v e. record {
            mild_pending = subst AllMild (sym fp) tt;
            mild_recorded = subst DictMild (sym fe) h.mild_recorded;
            over = inr (refl, fa ∙ n);
          }),
          (λ v e f. record {
            mild_pending = tt;
            mild_recorded = h.mild_recorded;
            over = inr (refl, n);
          }),
          (λ v t' e f g.
              let a : ActiveTurn = turn moderator_id (verdict_round q) none t' true in
              reveal-IsPlaying (record (flushed q) { active = some a }) a tt h.mild_recorded
                (flushed-live q h.mild_pending l)),
        ))
  where
    none≢some' : (p : Player) (a : ActiveTurn) → p.active ≡ none → p.active ≡ some a → ⊥
    none≢some' p a n e = ground arith

    panelist_not_done :
        (p : Player) (r i : ℕ) → p.cursor ≡ panelist r i → p.cursor ≡ Cursor.done → ⊥
    panelist_not_done p r i c d = ground arith

    not_done :
        (p : Player)
        → (p.cursor ≡ Cursor.moderator)
          ⊎ ((r : ℕ) × (i : ℕ) × (p.cursor ≡ panelist r i) × (Dict.has r p.round_complete ≡ false))
        → p.cursor ≡ Cursor.done
        → p.active ≡ none
        → ⊥
    not_done p (inl m) d n = ground arith
    not_done p (inr (r, i, c, b)) d n = ground arith

-- A step at the end does nothing.
pub spent-step : (p : Player) → IsSpent p → step p ≡ (p, done)
unfolding step prepare_next_turn prepare_at after_prepare
spent-step p (c, n) =
    ap (λ o. elim o [ none ↦ after_prepare (prepare_next_turn p) | some a ↦ reveal_step p a ]) n
    ∙ ap (λ c. after_prepare (prepare_at p c)) c
