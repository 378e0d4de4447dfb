-- ===== src/Player/Solo.antt =====
-- The roster on the screen and the turns of the replay.
use council.Prelude.{
  ◌≡◌, refl, sym, ap, subst, ◌∙◌, inl, inr, Bool, true, false, Option, none, some, List, [], arith,
  if◌then◌else◌, slice, Text, true≢false,
}
use council.Persona.{PersonaId, PersonaId-Key, seat, moderator_id}
use council.Protocol.{DebateEvent, ErrorEvent, token, verdict}
use council.Reducer.{
  WsStatus, DebateInput, event, control, status, reduce_status, reduce_control, reduce_event,
  debate_reducer, run, initial_state,
}
use council.Player.State.{Cursor, ActiveTurn, PendingDone, Player, dispatch, get_text}
use council.Player.{
  Delay, step, reveal_step, close_turn, take_error, finalize_terminal, turn, verdict_round,
  verdict_or_empty, chunk_end,
}
use council.Player.Cases.{flushed, reveal_cases, step_cases}
use council.Player.Shown.{shown, shown-dispatch}
use council.Player.Roster.{
  AtMost, Floor, roster, HasFloor, token_roster, without_lem, error_roster, flushed-roster,
}

verdict_roster :
    (p : Player) (v : Text)
    → AtMost moderator_id (roster p)
    → roster (dispatch p (event (verdict v))) ≡ []
unfolding debate_reducer reduce_event
verdict_roster p v h =
    ap (λ s. s.active_speakers) (shown-dispatch p (event (verdict v)))
    ∙ without_lem moderator_id (roster p) h

close_turn-sent : (p : Player) (a : ActiveTurn) → (close_turn p a).sent ≡ p.sent
unfolding close_turn take_error
close_turn-sent p a = ground arith

close_turn-active : (p : Player) (a : ActiveTurn) → (close_turn p a).active ≡ none
unfolding close_turn
close_turn-active p a = refl

abbrev pub GivesFloor : Player × Delay → Type 0
GivesFloor (q, d) = HasFloor q

close_turn-pending :
    (p : Player) (a : ActiveTurn)
    → (close_turn p a).pending_done ≡ some (record { persona = a.persona; round = a.round })
unfolding close_turn take_error
close_turn-pending p a = ground arith

nobody-Floor : (o : Option PendingDone) (ps : List PersonaId) → ps ≡ [] → Floor none o ps
nobody-Floor none ps e = e
nobody-Floor (some d) ps e = inl e

speaker-Floor :
    (a : ActiveTurn) (o : Option PendingDone) (ps : List PersonaId)
    → o ≡ none
    → AtMost a.persona ps
    → (a.is_moderator ≡ true → a.persona ≡ moderator_id)
    → Floor (some a) o ps
speaker-Floor a none ps n h chair = (h, chair)
speaker-Floor a (some d) ps n h chair = cc

reveal_step-GivesFloor :
    (p : Player) (a : ActiveTurn)
    → p.pending_done ≡ none
    → AtMost a.persona (roster p)
    → (a.is_moderator ≡ true → a.persona ≡ moderator_id)
    → GivesFloor (reveal_step p a)
unfolding shown
reveal_step-GivesFloor p a n h chair =
    reveal_cases GivesFloor p a
      (λ l m.
        nobody-Floor p.pending_done
          (roster (dispatch p (event (verdict (verdict_or_empty p.verdict)))))
          (verdict_roster p (verdict_or_empty p.verdict)
            (subst (λ x. AtMost x (roster p)) (chair m) h)))
      (λ l m.
        subst (λ o. Floor o (close_turn p a).pending_done (roster (close_turn p a)))
          (sym (close_turn-active p a))
          (subst (λ o. Floor none o (roster (close_turn p a))) (sym (close_turn-pending p a))
            (subst (λ s. AtMost a.persona (run initial_state s).active_speakers)
              (sym (close_turn-sent p a)) h)))
      (λ l.
        let t : Text = slice a.text a.pos (chunk_end p a) in
        let i : DebateInput = event (token a.persona a.round t) in
        speaker-Floor (record a { pos = chunk_end p a }) p.pending_done (roster (dispatch p i)) n
          (inr (
            ap (λ s. s.active_speakers) (shown-dispatch p i)
            ∙ token_roster (shown p) a.persona a.round t h))
          chair)

finalize_terminal-roster : (p : Player) → roster p ≡ [] → roster (finalize_terminal p) ≡ []
unfolding finalize_terminal debate_reducer reduce_control reduce_status
finalize_terminal-roster p h = at p.session_error p.closed
  where
    at :
        (o : Option ErrorEvent) (b : Bool)
        → roster (elim o [
          | some e ↦ dispatch p (event (DebateEvent.error e))
          | none ↦ if b then dispatch p (control (status WsStatus.closed)) else p
        ])
          ≡ []
    at (some e) b =
        ap (λ s. s.active_speakers) (shown-dispatch p (event (DebateEvent.error e)))
        ∙ error_roster (shown p) e h
    at none true =
        ap (λ s. s.active_speakers) (shown-dispatch p (control (status WsStatus.closed)))
        ∙ ground arith
    at none false = h

finalize_terminal-turns :
    (p : Player)
    → ((finalize_terminal p).active ≡ p.active)
      × ((finalize_terminal p).pending_done ≡ p.pending_done)
unfolding finalize_terminal
finalize_terminal-turns p = (ground arith, ground arith)

-- A floor that is held by no turn is held by the turn that just ended, if by anyone.
idle-Floor : (p : Player) → p.active ≡ none → HasFloor p → Floor none p.pending_done (roster p)
idle-Floor p e h = subst (λ o. Floor o p.pending_done (roster p)) e h

-- A floor in a turn is the speaker's.
turn-Floor :
    (p : Player) (a : ActiveTurn)
    → p.active ≡ some a
    → HasFloor p
    → (p.pending_done ≡ none) × Floor (some a) none (roster p)
turn-Floor p a e h = at p.pending_done refl (subst (λ o. Floor o p.pending_done (roster p)) e h)
  where
    at :
        (o : Option PendingDone)
        → p.pending_done ≡ o
        → Floor (some a) o (roster p)
        → (p.pending_done ≡ none) × Floor (some a) none (roster p)
    at none n f = (n, f)
    at (some d) n f = absurd f

pub step-GivesFloor : (p : Player) → HasFloor p → GivesFloor (step p)
unfolding shown verdict_round
step-GivesFloor p h =
    step_cases GivesFloor p
      (λ a e. let (n, (s, chair)) = turn-Floor p a e h in reveal_step-GivesFloor p a n s chair)
      (λ e f. h)
      (λ r i e f c.
        let a : ActiveTurn = turn (seat i) r (some i) (get_text (seat i) r p) false in
        reveal_step-GivesFloor (record (flushed p) { active = some a }) a refl
          (inl (flushed-roster p (idle-Floor p e h))) (λ m. absurd (true≢false (sym m))))
      (λ e f b t. h)
      (λ e f t.
        let q : Player = flushed (record p { cursor = Cursor.moderator }) in
        let clear : roster q ≡ [] =
          flushed-roster (record p { cursor = Cursor.moderator }) (idle-Floor p e h) in
        let (same_active, same_pending) = finalize_terminal-turns q in
        (
          λ v s.
              subst (λ o. Floor o (finalize_terminal q).pending_done (roster (finalize_terminal q)))
                (sym (same_active ∙ e))
                (subst (λ o. Floor none o (roster (finalize_terminal q))) (sym same_pending)
                  (finalize_terminal-roster q clear)),
          λ v g x.
              subst (λ o. Floor o none (roster (dispatch q (event (verdict v))))) (sym e)
                (verdict_roster q v (inl clear)),
          λ v x g y z.
              let a : ActiveTurn = turn moderator_id (verdict_round p) none x true in
              reveal_step-GivesFloor (record q { active = some a }) a refl (inl clear) (λ m. refl),
        ))
