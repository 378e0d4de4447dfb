-- ===== src/App.antt =====
-- The application, frontend/src/App.tsx: the debate's hook, the sound, the layout that is mounted and
-- the states that the mounted components keep.
pub mod Asking
pub mod Convening
pub mod Handlers
pub mod Mounted
pub mod Composing
pub mod Folded
use council.Prelude.{
  ℕ, Bool, true, false, not, ◌&&◌, ◌||◌, Option, none, some, List, [], ◌∷◌, Text, text, ltb,
  if◌then◌else◌,
}
use council.Protocol.Ask.{AskMessage, whole, min_rounds}
use council.Protocol.Parse.{ParseResult}
use council.Reducer.{DebatePhase, DebateState}
use council.Player.State.{Fraction}
use council.Client.{Delivery}
use council.Hooks.Spotlight.{VerdictSpotlight, new_spotlight, follow_phase}
use council.Hooks.Spotlight
use council.Debate.{Debate, DebateStep, debate_step, new_debate, state_of, is_at_live}
use council.Sound.{UseSound, ContextState, Storage, use_sound, SoundStep, sound_step}
use council.Ui.Html.{Html}
use council.Ui.Status.{is_done}
use council.Ui.Layouts.{LayoutProps, StageState, new_stage, stage_layout, mobile_layout}

-- `DEFAULT_ROUNDS` of frontend/src/lib/protocol.ts.
abbrev pub default_rounds : ℕ
default_rounds = 2

-- The layout that is mounted, with its state.
pub data Layout : Type 0 where
  stage : StageState → Layout
  mobile : VerdictSpotlight → Layout

-- `form_question` and `form_rounds` are the state of the mounted layout's question form.
pub record App : Type 0 where
  pub debate : Debate
  pub rounds : ℕ
  pub question : Text
  pub sound : UseSound
  pub previous_round : ℕ
  pub previous_phase : DebatePhase
  pub layout : Layout
  pub form_question : Text
  pub form_rounds : ℕ

-- A layout that mounts, and the state of its question form.
abbrev pub new_layout : Bool → DebatePhase → Layout
new_layout stage_first phase =
    if stage_first then stage (new_stage phase) else mobile (new_spotlight phase)

-- The first render.
abbrev pub new_app : Bool → Bool → UseSound → App
new_app reduced_motion stage_first sound =
    let d : Debate = new_debate reduced_motion in
    record {
      debate = d;
      rounds = default_rounds;
      question = [];
      sound = sound;
      previous_round = (state_of d).current_round;
      previous_phase = (state_of d).phase;
      layout = new_layout stage_first (state_of d).phase;
      form_question = [];
      form_rounds = default_rounds;
    }

-- What the handlers of the views do.
pub data Msg : Type 0 where
  ask : Text → ℕ → Msg
  stop toggle_sound go_to_live dismiss_verdict : Msg
  set_rate : Fraction → Msg
  set_composing set_drawer : Bool → Msg
  set_form_question : Text → Msg
  set_form_rounds : ℕ → Msg

abbrev pub on_stage : (StageState → StageState) → Layout → Layout
on_stage f (stage s) = stage (f s)
on_stage f (mobile v) = mobile v

abbrev pub on_mobile : (VerdictSpotlight → VerdictSpotlight) → Layout → Layout
on_mobile f (stage s) = stage s
on_mobile f (mobile v) = mobile (f v)

-- The two effects that play the cues, and the spotlight's effect.
unfoldable pub effects : App → App
unfolding sound_step follow_phase
effects a =
    let state : DebateState = state_of a.debate in
    let round_cued : UseSound =
      if ltb 0 a.previous_round && ltb a.previous_round state.current_round
      then sound_step SoundStep.cues_round a.sound
      else a.sound in
    let chimed : UseSound =
      if is_done state.phase && not (is_done a.previous_phase)
      then sound_step SoundStep.cues_verdict round_cued
      else round_cued in
    record a {
      sound = chimed;
      previous_round = state.current_round;
      previous_phase = state.phase;
      layout = on_mobile (follow_phase state.phase) a.layout;
    }

-- The other layout mounts anew, and so does its question form.
abbrev pub remount : Bool → App → App
remount stage_first a = record a {
  layout = new_layout stage_first (state_of a.debate).phase;
  form_question = [];
  form_rounds = default_rounds;
}

-- `stageFirst`, which the mounted layout tells.
abbrev pub is_stage : Layout → Bool
is_stage (stage s) = true
is_stage (mobile v) = false

unfoldable pub relayout : Bool → App → App
relayout stage_first a =
    if stage_first
    then (if is_stage a.layout then a else remount stage_first a)
    else (if is_stage a.layout then remount stage_first a else a)

-- What happens: a click's messages, the player's timer, a delivery to a socket, the page's width
-- crossing the breakpoint, or the browser's change of the audio context.
pub data AppStep : Type 0 where
  handles : List Msg → AppStep
  fires : AppStep
  delivers : ℕ → ℕ → Delivery → AppStep
  resizes : Bool → AppStep
  settles : ContextState → AppStep

module _ (parse : Text → ParseResult) (stringify : AskMessage → Text) where
  abbrev pub on_debate : DebateStep → App → App
  on_debate s a = record a { debate = debate_step parse stringify s a.debate }

  -- One handler; `ask` is App's `handleAsk`.
  unfoldable pub handle : Msg → App → App
  unfolding debate_step sound_step
  handle (ask q r) a =
      on_debate (DebateStep.asks q (some (whole r))) (record a { rounds = r; question = q })
  handle stop a = on_debate DebateStep.stops a
  handle toggle_sound a = record a { sound = sound_step SoundStep.toggles a.sound }
  handle go_to_live a = on_debate DebateStep.lives a
  handle dismiss_verdict a = record a { layout = on_mobile Spotlight.dismiss a.layout }
  handle (set_rate multiplier) a = on_debate (DebateStep.rates multiplier) a
  handle (set_composing b) a = record a {
    layout = on_stage (λ s. record s { composing = b }) a.layout;
  }
  handle (set_drawer b) a = record a {
    layout = on_stage (λ s. record s { drawer_open = b }) a.layout;
  }
  handle (set_form_question q) a = record a { form_question = q }
  handle (set_form_rounds r) a = record a { form_rounds = r }

  unfoldable pub handle_all : List Msg → App → App
  unfolding handle
  handle_all [] a = a
  handle_all (msg ∷ msgs) a = handle_all msgs (handle msg a)

  -- One step, and the effects of the render after it.
  unfoldable pub app_step : AppStep → App → App
  unfolding handle_all debate_step relayout effects sound_step
  app_step (handles msgs) a = effects (handle_all msgs a)
  app_step fires a = effects (on_debate DebateStep.fires a)
  app_step (delivers k i ev) a = effects (on_debate (DebateStep.delivers k i ev) a)
  app_step (resizes stage_first) a = effects (relayout stage_first a)
  app_step (settles s) a = record a { sound = sound_step (SoundStep.settles s) a.sound }

  unfoldable pub app_run : List AppStep → App → App
  unfolding app_step
  app_run [] a = a
  app_run (s ∷ ss) a = app_run ss (app_step s a)

  -- The page after some steps from its first render.
  abbrev pub visited : Bool → Bool → UseSound → List AppStep → App
  visited reduced_motion stage_first sound ss =
      app_run ss (new_app reduced_motion stage_first sound)

-- `shared`, with the question that only the stage is given.
abbrev pub shared : App → LayoutProps Msg
shared a = record {
  state = state_of a.debate;
  question = a.question;
  rounds = a.rounds;
  on_ask = λ q r. ask q r ∷ [];
  on_stop = stop ∷ [];
  sound_enabled = a.sound.enabled;
  on_toggle_sound = toggle_sound ∷ [];
  rate = a.debate.rate;
  on_set_rate = λ multiplier. set_rate multiplier ∷ [];
  is_at_live = is_at_live a.debate;
  on_go_to_live = go_to_live ∷ [];
  form_question = a.form_question;
  form_rounds = a.form_rounds;
  on_form_question = λ q. set_form_question q ∷ [];
  on_form_rounds = λ r. set_form_rounds r ∷ [];
}

module _ (reveal : Text → Bool → Text) (markdown : Text → Html Msg)
    (debate_stage : DebateState → Html Msg) where
  unfoldable pub view : App → Html Msg
  unfolding stage_layout mobile_layout
  view a = elim a.layout [
    | stage s ↦
        stage_layout reveal markdown debate_stage (λ b. set_composing b ∷ [])
          (λ b. set_drawer b ∷ []) (shared a) s
    | mobile spotlight ↦ mobile_layout reveal markdown (dismiss_verdict ∷ []) (shared a) spotlight
  ]
