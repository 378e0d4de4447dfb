-- ===== src/Player/Informed.antt =====
-- The rounds that a player tells of: only those that it was told of.
use council.Prelude.{
  ℕ, ℕ-Key, ◌≡◌, sym, subst, ◌∙◌, ◌⊎◌, inl, inr, Bool, true, false, Option, none, some, List, [],
  ◌∷◌, ◌++◌, map, if◌then◌else◌, slice, Text, ◌≢◌,
}
use council.Prelude.Dict
use council.Prelude.Dict.{Dict}
use council.Persona.{PersonaId, PersonaId-Key, seat, moderator_id}
use council.Protocol.{DebateEvent, ErrorEvent, token, persona_done, round_complete, verdict}
use council.Reducer.{WsStatus, DebateInput, event, control, status}
use council.Reducer.Transcript.{cell_of}
use council.Player.State.{Cursor, ActiveTurn, PendingDone, Player, get_text, dispatch}
use council.Player.{
  step, reveal_step, finalize_terminal, turn, verdict_round, chunk_end, is_last, verdict_or_empty,
}
use council.Player.Cases.{
  done_inputs, round_inputs, pending_inputs, flushed, reveal_cases, step_cases, close_turn_lem,
}

module _ (W : ℕ → Type 0) where
  -- An event whose round, if it has one, is one of `W`.
  abbrev pub IsTold : DebateEvent → Type 0
  IsTold (token x r t) = W r
  IsTold (persona_done x r) = W r
  IsTold (round_complete r) = W r
  IsTold _ = Unit {0}

  abbrev pub IsToldInput : DebateInput → Type 0
  IsToldInput (event e) = IsTold e
  IsToldInput (control c) = Unit {0}

  abbrev pub AllTold : List DebateInput → Type 0
  AllTold [] = Unit {0}
  AllTold (i ∷ is) = IsToldInput i × AllTold is

  abbrev pub DoneTold : Option PendingDone → Type 0
  DoneTold none = Unit {0}
  DoneTold (some d) = W d.round

  abbrev pub RoundTold : Option ℕ → Type 0
  RoundTold none = Unit {0}
  RoundTold (some r) = W r

  abbrev pub TurnTold : Option ActiveTurn → Type 0
  TurnTold none = Unit {0}
  TurnTold (some a) = W a.round

  -- A text stands only under a round of `W`.
  abbrev pub TextsTold : Dict PersonaId (Dict ℕ Text) → Type 0
  TextsTold d = (x : PersonaId) (r : ℕ) → (cell_of d x r ≡ []) ⊎ W r

  pub record IsInformed (p : Player) : Type 0 where
    pub texts : TextsTold p.text
    pub rounds : (r : ℕ) → Dict.has r p.round_complete ≡ true → W r
    pub current : TurnTold p.active
    pub closing : DoneTold p.pending_done
    pub finishing : RoundTold p.pending_round_complete
    pub sent : AllTold p.sent

  pub AllTold-append : (xs ys : List DebateInput) → AllTold xs → AllTold ys → AllTold (xs ++ ys)
  AllTold-append [] ys h k = k
  AllTold-append (x ∷ xs) ys (h, hs) k = (h, AllTold-append xs ys hs k)

  errors-AllTold : (es : List ErrorEvent) → AllTold (map (λ e. event (DebateEvent.error e)) es)
  errors-AllTold [] = tt
  errors-AllTold (e ∷ es) = (tt, errors-AllTold es)

  done-AllTold : (o : Option PendingDone) → DoneTold o → AllTold (done_inputs o)
  done-AllTold none h = tt
  done-AllTold (some d) h = (h, tt)

  round-AllTold : (o : Option ℕ) → RoundTold o → AllTold (round_inputs o)
  round-AllTold none h = tt
  round-AllTold (some r) h = (h, tt)

  flushed-AllTold : (p : Player) → IsInformed p → AllTold (flushed p).sent
  flushed-AllTold p h = AllTold-append p.sent (pending_inputs p) h.sent (
      AllTold-append (done_inputs p.pending_done) _ (done-AllTold p.pending_done h.closing) (
        AllTold-append (round_inputs p.pending_round_complete) _
          (round-AllTold p.pending_round_complete h.finishing) (errors-AllTold p.pending_errors)))

  -- After `flushPending`, with a turn of a round of `W`, or with none.
  flushed-IsInformed :
      (p : Player) (o : Option ActiveTurn)
      → IsInformed p
      → TurnTold o
      → IsInformed (record (flushed p) { active = o })
  flushed-IsInformed p o h k = record {
    texts = h.texts;
    rounds = h.rounds;
    current = k;
    closing = tt;
    finishing = tt;
    sent = flushed-AllTold p h;
  }

  -- One more input, whatever becomes of the cursor and the turn.
  sent-IsInformed :
      (p : Player) (i : DebateInput) (c : Cursor) (o : Option ActiveTurn)
      → IsInformed p
      → IsToldInput i
      → TurnTold o
      → IsInformed (record (dispatch p i) { cursor = c; active = o })
  sent-IsInformed p i c o h k l = record {
    texts = h.texts;
    rounds = h.rounds;
    current = l;
    closing = h.closing;
    finishing = h.finishing;
    sent = AllTold-append p.sent (i ∷ []) h.sent (k, tt);
  }

  last-RoundTold :
      (b : Bool) (r : ℕ) (o : Option ℕ) → W r → RoundTold o → RoundTold (if b then some r else o)
  last-RoundTold true r o w h = w
  last-RoundTold false r o w h = h

  reveal-IsInformed :
      (p : Player) (a : ActiveTurn) → IsInformed p → W a.round → IsInformed (reveal_step p a).0
  reveal-IsInformed p a h w =
      reveal_cases (λ r. IsInformed r.0) p a
        (λ l k.
          sent-IsInformed p (event (verdict (verdict_or_empty p.verdict))) Cursor.done none h tt tt)
        (λ l k. subst IsInformed (sym (close_turn_lem p a)) (record {
          texts = h.texts;
          rounds = h.rounds;
          current = tt;
          closing = w;
          finishing =
              last-RoundTold (is_last a.index) a.round p.pending_round_complete w h.finishing;
          sent = h.sent;
        }))
        (λ l.
          sent-IsInformed p (event (token a.persona a.round (slice a.text a.pos (chunk_end p a))))
            p.cursor (some (record a { pos = chunk_end p a })) h w w)

  turn-W : (o : Option ActiveTurn) (a : ActiveTurn) → o ≡ some a → TurnTold o → W a.round
  turn-W o a e h = subst TurnTold e h

  finalize-IsInformed :
      (p : Player) (c : Cursor)
      → IsInformed p
      → IsInformed (record (finalize_terminal p) { cursor = c })
  unfolding finalize_terminal
  finalize-IsInformed p c h =
      elim p.session_error
        as (λ o.
          IsInformed
            (record (elim o [
              | some e ↦ dispatch p (event (DebateEvent.error e))
              | none ↦ if p.closed then dispatch p (control (status WsStatus.closed)) else p
            ]) { cursor = c })) [
              | some e ↦ sent-IsInformed p (event (DebateEvent.error e)) c p.active h tt h.current
              | none ↦
                  elim p.closed
                    as (λ b.
                      IsInformed
                        (record (if b then dispatch p (control (status WsStatus.closed)) else p) {
                          cursor = c;
                        })) [
                          | true ↦
                              sent-IsInformed p (control (status WsStatus.closed)) c p.active h tt
                                h.current
                          | false ↦ record {
                            texts = h.texts;
                            rounds = h.rounds;
                            current = h.current;
                            closing = h.closing;
                            finishing = h.finishing;
                            sent = h.sent;
                          }
                        ]
            ]

  -- A text that is not empty tells its round.
  text-W :
      (p : Player) (x : PersonaId) (r : ℕ) (t : Text)
      → IsInformed p
      → get_text x r p ≡ t
      → t ≢ []
      → W r
  unfolding get_text
  text-W p x r t h e n = elim (h.texts x r) [ inl f ↦ absurd (n (sym e ∙ f)) | inr w ↦ w ]

  pub step-IsInformed : (p : Player) → IsInformed p → IsInformed (step p).0
  step-IsInformed p h =
      step_cases (λ r. IsInformed r.0) p
        (λ a e. reveal-IsInformed p a h (turn-W p.active a e h.current)) (λ n c. h)
        (λ r i n c b.
          let a : ActiveTurn = turn (seat i) r (some i) (get_text (seat i) r p) false in
          reveal-IsInformed (record (flushed p) { active = some a }) a
            (flushed-IsInformed p (some a) h (h.rounds r b)) (h.rounds r b))
        (λ n c b t. h)
        (λ n c t.
          let q : Player = record p { cursor = Cursor.moderator } in
          let k : IsInformed q = record {
            texts = h.texts;
            rounds = h.rounds;
            current = h.current;
            closing = h.closing;
            finishing = h.finishing;
            sent = h.sent;
          } in
          (
            (λ v e.
                finalize-IsInformed (flushed q) Cursor.done
                  (flushed-IsInformed q q.active k k.current)),
            (λ v e f.
                sent-IsInformed (flushed q) (event (verdict v)) Cursor.done q.active
                  (flushed-IsInformed q q.active k k.current) tt k.current),
            (λ v t' e f g.
                let a : ActiveTurn = turn moderator_id (verdict_round q) none t' true in
                let w : W (verdict_round q) = text-W q moderator_id (verdict_round q) t' k f g in
                reveal-IsInformed (record (flushed q) { active = some a }) a
                  (flushed-IsInformed q (some a) k w) w),
          ))
