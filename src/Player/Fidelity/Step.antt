-- ===== src/Player/Fidelity/Step.antt =====
-- A step of the scheduler and the invariant of `Player.Fidelity`.
use council.Prelude.{
  ℕ, ℕ-Key, ◌≡◌, refl, sym, ap, subst, ◌∙◌, ◌⊎◌, inl, inr, true, false, none, some, List, [], ◌∷◌,
  ◌++◌, append-nil, arith, Text,
}
use council.Prelude.Dict
use council.Persona.{seat, moderator_id}
use council.Protocol.{DebateEvent, verdict}
use council.Reducer.{WsStatus, DebateInput, event, control, status}
use council.Player.State.{Cursor, panelist, ActiveTurn, Player, dispatch, get_text}
use council.Player.{present, turn, terminal_known, verdict_round, step, finalize_terminal}
use council.Player.Cases.{flushed, ModeratorCases, step_cases}
use council.Player.Heard.{
  heard, kept, buffered, heard-IsSilent, heard-flushed, heard-finalize_terminal,
}
use council.Player.Playhead.{AtSeat, opens, moderates}
use council.Player.Fidelity.{Place, IsFaithful, told-IsSound, reveal_step-IsFaithful}

-- The place between two turns.
idle-Place :
    (p : Player)
    → p.active ≡ none
    → IsFaithful p
    → (c : Cursor) → p.cursor ≡ c
    → Place (heard p) (kept p) (buffered p) (terminal_known p) (present p.verdict) c none
idle-Place p e v c f =
    subst (λ x. Place (heard p) (kept p) (buffered p) (terminal_known p) (present p.verdict) x none)
      f
      (subst
        (λ o.
          Place (heard p) (kept p) (buffered p) (terminal_known p) (present p.verdict) p.cursor o)
        e v.place)

opened-IsFaithful :
    (p : Player) (r i : ℕ)
    → p.active ≡ none
    → p.cursor ≡ panelist r i
    → Dict.has r p.round_complete ≡ true
    → IsFaithful p
    → IsFaithful (record (flushed p) {
      active = some (turn (seat i) r (some i) (get_text (seat i) r p) false);
    })
unfolding heard get_text terminal_known
opened-IsFaithful p r i e f h v =
    let a : ActiveTurn = turn (seat i) r (some i) (get_text (seat i) r p) false in
    told-IsSound (heard p) _ (kept p) (buffered p) (terminal_known p) (present p.verdict) p.cursor
      (some a) (heard-flushed p)
      (record {
        bounded = v.bounded;
        prefix = v.prefix;
        place =
            subst
              (λ c.
                Place (heard p) (kept p) (buffered p) (terminal_known p) (present p.verdict) c
                  (some a))
              (sym f)
              (opens (heard p) (kept p) (buffered p) r i (idle-Place p e v (panelist r i) f) h);
      })

-- Handing over to the moderator.
handed-IsFaithful :
    (p : Player)
    → p.active ≡ none
    → (p.cursor ≡ Cursor.moderator)
      ⊎ ((r : ℕ) × (i : ℕ) × (p.cursor ≡ panelist r i) × (Dict.has r p.round_complete ≡ false))
    → terminal_known p ≡ true
    → IsFaithful p
    → Place
        (heard p)
        (kept p)
        (buffered p)
        (terminal_known p)
        (present p.verdict)
        Cursor.moderator
        none
handed-IsFaithful p e (inl f) t v = idle-Place p e v Cursor.moderator f
handed-IsFaithful p e (inr (r, i, f, h)) t v =
    let s : AtSeat (heard p) (kept p) (buffered p) r i false = idle-Place p e v (panelist r i) f in
    (moderates (heard p) (kept p) (buffered p) r i s h, t, s.silent)

-- The inputs of `finalizeTerminal`.
terminal_inputs : Player → List DebateInput
terminal_inputs p = elim p.session_error [
  | some e ↦ event (DebateEvent.error e) ∷ []
  | none ↦ elim p.closed [ true ↦ control (status WsStatus.closed) ∷ [] | false ↦ [] ]
]

finalize_terminal_lem :
    (p : Player) → finalize_terminal p ≡ record p { sent = p.sent ++ terminal_inputs p }
unfolding finalize_terminal terminal_inputs
finalize_terminal_lem p = ground (arith, append-nil p.sent)

module _ (p : Player) (v : IsFaithful p) (idle : p.active ≡ none)
    (place : Place
      (heard p)
      (kept p)
      (buffered p)
      (terminal_known p)
      (present p.verdict)
      Cursor.moderator
      none) where
  -- The end of playback, after inputs that tell nothing.
  over-IsFaithful :
      (sent : List DebateInput)
      → heard (record p { sent = sent }) ≡ heard p
      → IsFaithful (record (flushed p) { sent = sent; cursor = Cursor.done })
  unfolding heard get_text terminal_known
  over-IsFaithful sent h =
      told-IsSound (heard p) _ (kept p) (buffered p) (terminal_known p) (present p.verdict)
        Cursor.done p.active h
        (record {
          bounded = v.bounded;
          prefix = v.prefix;
          place =
              subst
                (λ o.
                  Place (heard p) (kept p) (buffered p) (terminal_known p) (present p.verdict)
                    Cursor.done o)
                (sym idle) (place.0, place.1);
        })

  finalized-IsFaithful :
      IsFaithful (record (finalize_terminal (flushed p)) { cursor = Cursor.done })
  unfolding heard
  finalized-IsFaithful =
      subst (λ x. IsFaithful (record x { cursor = Cursor.done }))
        (sym (finalize_terminal_lem (flushed p)))
        (over-IsFaithful ((flushed p).sent ++ terminal_inputs (flushed p)) (
          sym (ap heard (finalize_terminal_lem (flushed p)))
          ∙ heard-finalize_terminal (flushed p)
          ∙ heard-flushed p))

  verdict-IsFaithful :
      (w : Text)
      → IsFaithful (record (dispatch (flushed p) (event (verdict w))) { cursor = Cursor.done })
  unfolding heard
  verdict-IsFaithful w =
      over-IsFaithful ((flushed p).sent ++ event (verdict w) ∷ [])
        (heard-IsSilent (flushed p) (event (verdict w)) tt ∙ heard-flushed p)

  judged-IsFaithful :
      (w t : Text)
      → p.verdict ≡ some w
      → get_text moderator_id (verdict_round p) p ≡ t
      → IsFaithful (record (flushed p) {
        active = some (turn moderator_id (verdict_round p) none t true);
        cursor = Cursor.moderator;
      })
  unfolding heard get_text terminal_known
  judged-IsFaithful w t e f =
      told-IsSound (heard p) _ (kept p) (buffered p) (terminal_known p) (present p.verdict)
        Cursor.moderator (some (turn moderator_id (verdict_round p) none t true)) (heard-flushed p)
        (record {
          bounded = v.bounded;
          prefix = v.prefix;
          place = (
            place.0,
            place.1,
            rw e refl,
            record {
              persona = refl;
              moderates = refl;
              text = sym f;
              within = omega arith;
              told = place.2 (verdict_round p);
            },
          );
        })

-- With the cursor moved to the moderator, where the player is faithful there.
moved-IsFaithful :
    (p : Player)
    → IsFaithful p
    → p.active ≡ none
    → Place
        (heard p)
        (kept p)
        (buffered p)
        (terminal_known p)
        (present p.verdict)
        Cursor.moderator
        none
    → IsFaithful (record p { cursor = Cursor.moderator })
unfolding heard get_text terminal_known
moved-IsFaithful p v e place = record {
  bounded = v.bounded;
  prefix = v.prefix;
  place =
      subst
        (λ o.
          Place (heard p) (kept p) (buffered p) (terminal_known p) (present p.verdict)
            Cursor.moderator o)
        (sym e) place;
}

moderator-IsFaithful :
    (p : Player)
    → IsFaithful p
    → p.active ≡ none
    → Place
        (heard p)
        (kept p)
        (buffered p)
        (terminal_known p)
        (present p.verdict)
        Cursor.moderator
        none
    → ModeratorCases (λ r. IsFaithful r.0) (record p { cursor = Cursor.moderator })
unfolding heard get_text terminal_known
moderator-IsFaithful p v e place =
    let q : Player = record p { cursor = Cursor.moderator } in
    let w : IsFaithful q = moved-IsFaithful p v e place in
    (
      λ n s. finalized-IsFaithful q w e place,
      λ t g x. verdict-IsFaithful q w e place t,
      λ x t g y z. reveal_step-IsFaithful _ _ refl (judged-IsFaithful q w e place x t g y),
    )

-- A step keeps the player faithful to its recording.
pub step-IsFaithful : (p : Player) → IsFaithful p → IsFaithful (step p).0
step-IsFaithful p v =
    step_cases (λ r. IsFaithful r.0) p (λ a e. reveal_step-IsFaithful p a e v) (λ e f. v)
      (λ r i e f h. reveal_step-IsFaithful _ _ refl (opened-IsFaithful p r i e f h v))
      (λ e f b t. v) (λ e f t. moderator-IsFaithful p v e (handed-IsFaithful p e f t v))
