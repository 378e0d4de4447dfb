-- ===== src/Debate/Stop.antt =====
-- What a question and a stop do to the state on the screen.
use council.Prelude.{
  ◌≡◌, refl, sym, ap, ◌∙◌, subst, Bool, Option, none, some, List, [], ◌∷◌, Text, if◌then◌else◌,
}
use council.Prelude.Dict
use council.Protocol.Ask.{Number, AskMessage, BuildAskResult, refused, built, build_ask}
use council.Protocol.Parse.{ParseResult}
use council.Reducer.{
  WsStatus, DebatePhase, DebateState, initial_state, control, cancel, transport, status,
  debate_reducer,
}
use council.Player.State.{Fraction, Player, dispatch, reset}
use council.Player.State
use council.Player.{feed_status, feed_transport, fire, skip_to_live}
use council.Player
use council.Player.Shown.{shown, shown-dispatch}
use council.Debate.{
  Debate, DebateStep, asks, stops, lives, fires, rates, delivers, ask, stop, debate_step,
  debate_run, new_debate, state_of,
}
use council.Debate.Link.{Council, arrives, nothing, link_step}
use council.Debate.Seen.{seen, seen_step, is_current}
use council.Debate.Asked.{ask-Simulates, convened_lem, convened}
use council.Debate.Wired.{IsWired}
use council.Debate.Refines.{debate_step-Simulates, debate_run-IsWired, new-IsWired, unlinked}

pub convened-shown :
    (b : BuildAskResult) (c : Council)
    → shown (convened b c).player ≡ elim b [
      | refused e ↦ debate_reducer (shown c.player) (control (transport e))
      | built m ↦ record initial_state { phase = DebatePhase.connecting }
    ]
unfolding feed_transport feed_status reset shown debate_reducer
convened-shown (refused e) c = shown-dispatch (reset c.player) (control (transport e))
convened-shown (built m) c =
    shown-dispatch (reset (reset c.player)) (control (status WsStatus.connecting))

module _ (parse : Text → ParseResult) (stringify : AskMessage → Text) where
  -- A question that buildAsk accepts clears the screen for a new session, in the phase connecting,
  -- whatever the hook was doing. One that it refuses keeps what is shown and adds the reason to its
  -- errors.
  pub ask-shown :
      (reduced_motion : Bool) (ss : List DebateStep) (question : Text) (rounds : Option Number)
      → let d : Debate = debate_run parse stringify ss (new_debate reduced_motion) in
        state_of (ask question rounds d) ≡ elim (build_ask question rounds) [
          | refused e ↦ debate_reducer (state_of d) (control (transport e))
          | built m ↦ record initial_state { phase = DebatePhase.connecting }
        ]
  unfolding seen
  ask-shown reduced_motion ss question rounds =
      let d : Debate = debate_run parse stringify ss (new_debate reduced_motion) in
      let w : IsWired d =
        debate_run-IsWired parse stringify ss (new_debate reduced_motion)
          (new-IsWired reduced_motion) in
      ap (λ c. shown c.player)
        ((ask-Simulates question rounds d w).0 ∙ convened_lem question rounds (seen d))
      ∙ convened-shown (build_ask question rounds) (seen d)

-- A step that is neither a question nor a stop.
abbrev pub IsPassive : DebateStep → Type 0
IsPassive (asks question rounds) = ⊥
IsPassive stops = ⊥
IsPassive _ = Unit {0}

abbrev pub AllPassive : List DebateStep → Type 0
AllPassive [] = Unit {0}
AllPassive (s ∷ ss) = IsPassive s × AllPassive ss

-- A player that has nothing to play skips nothing.
pub reset-skips : (p : Player) → skip_to_live (reset p) ≡ some (reset p)
unfolding skip_to_live Player.drain Player.drain_fuel reset Player.drain_rest Player.step
    Player.after_prepare Player.prepare_next_turn Player.prepare_at Player.has_buffered_turn
    Player.terminal_known Dict.has
reset-skips p = refl

pub reset-fires : (p : Player) → fire (reset p) ≡ reset p
unfolding fire reset
reset-fires p = refl

-- A hook that was stopped: no link, and a player with nothing to play.
abbrev IsStopped : Council → DebateState → Type 0
IsStopped c state = (c.link ≡ none) × (reset c.player ≡ c.player) × (shown c.player ≡ state)

module _ (parse : Text → ParseResult) (stringify : AskMessage → Text) where
  passive-IsStopped :
      (s : DebateStep) (d : Debate) (c : Council) (state : DebateState)
      → IsPassive s
      → IsStopped c state
      → IsStopped (link_step parse (seen_step d s) c) state
  unfolding link_step seen_step reset State.set_rate shown
  passive-IsStopped (asks _ _) d c state t v = elim t [ ]
  passive-IsStopped stops d c state t v = elim t [ ]
  passive-IsStopped lives d c state t (l, r, e) =
      let k : skip_to_live c.player ≡ some c.player =
        subst (λ p. skip_to_live p ≡ some p) r (reset-skips c.player) in
      subst (λ o. IsStopped (elim o [ none ↦ c | some p ↦ record c { player = p } ]) state) (sym k)
        (l, r, e)
  passive-IsStopped fires d c state t (l, r, e) =
      let k : fire c.player ≡ c.player = subst (λ p. fire p ≡ p) r (reset-fires c.player) in
      subst (λ p. IsStopped (record c { player = p }) state) (sym k) (l, r, e)
  passive-IsStopped (rates multiplier) d c state t (l, r, e) =
      (l, ap (State.set_rate multiplier) r, e)
  passive-IsStopped (delivers k i ev) d c state t v = ignored (is_current k i d) v
    where
      ignored :
          (b : Bool)
          → IsStopped c state
          → IsStopped (link_step parse (if b then arrives ev else nothing) c) state
      ignored b v = subst (λ x. IsStopped x state) (sym (unlinked parse b ev c v.0)) v

  passive_run-IsStopped :
      (ss : List DebateStep) (d : Debate) (state : DebateState)
      → AllPassive ss
      → IsWired d
      → IsStopped (seen d) state
      → state_of (debate_run parse stringify ss d) ≡ state
  unfolding debate_run seen
  passive_run-IsStopped [] d state t w (l, r, e) = e
  passive_run-IsStopped (s ∷ ss) d state (t, ts) w v =
      let (e, w') = debate_step-Simulates parse stringify s d w in
      passive_run-IsStopped ss (debate_step parse stringify s d) state ts w'
        (subst (λ c. IsStopped c state) (sym e) (passive-IsStopped s d (seen d) state t v))

  -- Stopping is final until the next question: whatever the hook was doing, the state shown after a
  -- stop is the state before with the cancel reduced into it, and no timer, control of the playback
  -- or late delivery to any socket changes it.
  pub stop-is_final :
      (reduced_motion : Bool) (ss later : List DebateStep)
      → AllPassive later
      → let d : Debate = debate_run parse stringify ss (new_debate reduced_motion) in
        state_of (debate_run parse stringify later (stop d))
        ≡ debate_reducer (state_of d) (control cancel)
  unfolding debate_step link_step seen_step seen reset shown
  stop-is_final reduced_motion ss later t =
      let d : Debate = debate_run parse stringify ss (new_debate reduced_motion) in
      let w : IsWired d =
        debate_run-IsWired parse stringify ss (new_debate reduced_motion)
          (new-IsWired reduced_motion) in
      let (e, v) = debate_step-Simulates parse stringify stops d w in
      passive_run-IsStopped later (stop d) (debate_reducer (state_of d) (control cancel)) t v (
        subst (λ c. IsStopped c (debate_reducer (state_of d) (control cancel))) (sym e)
          (refl, refl, shown-dispatch (reset d.player) (control cancel)))
