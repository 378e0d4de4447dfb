-- ===== src/App/Mounted.antt =====
-- The folding of the stage's form: what the layouts, the effects and a change of the page's width do
-- to it.
use council.Prelude.{◌≡◌, refl, sym, ◌∙◌, Bool, true, false, true≢false, if◌then◌else◌}
use council.Reducer.{DebatePhase}
use council.Debate.{state_of}
use council.Debate.Wired.{IsWired}
use council.Debate.Seen.{seen}
use council.Debate.Over.{IsHeld}
use council.Player.Settled.{is_live}
use council.Hooks.Spotlight.{VerdictSpotlight}
use council.Hooks.Frameloop.{active_phases}
use council.Ui.Controls.{live_phases}
use council.Ui.Layouts.{StageState}
use council.App.{
  App, Layout, stage, mobile, on_mobile, on_stage, new_layout, effects, relayout, remount, is_stage,
}

-- The two tests for a live phase agree.
pub live_phases-eq : (phase : DebatePhase) → live_phases phase ≡ active_phases phase
live_phases-eq DebatePhase.idle = refl
live_phases-eq DebatePhase.connecting = refl
live_phases-eq DebatePhase.debating = refl
live_phases-eq DebatePhase.moderating = refl
live_phases-eq DebatePhase.done = refl
live_phases-eq DebatePhase.stopped = refl
live_phases-eq DebatePhase.error = refl

-- A layout whose form is folded if the session is live.
abbrev pub IsFoldedIn : Layout → Bool → Type 0
IsFoldedIn (stage s) live = live ≡ true → s.composing ≡ false
IsFoldedIn (mobile v) live = Unit {0}

abbrev pub is_composing : Layout → Bool
is_composing (stage s) = s.composing
is_composing (mobile v) = false

pub IsFoldedIn-composing :
    (l : Layout) (live : Bool) → IsFoldedIn l live → live ≡ true → is_composing l ≡ false
IsFoldedIn-composing (stage s) live h e = h e
IsFoldedIn-composing (mobile v) live h e = refl

-- What holds of every page that the viewer's clicks can reach.
pub record IsSound (a : App) : Type 0 where
  pub wired : IsWired a.debate
  pub held : IsHeld (seen a.debate)
  pub folded : IsFoldedIn a.layout (is_live (state_of a.debate))

-- A session that does not become live keeps the form folded.
pub calmer : (l : Layout) (b c : Bool) → (b ≡ false → c ≡ false) → IsFoldedIn l b → IsFoldedIn l c
calmer (mobile v) b c n h = tt
calmer (stage s) true c n h = λ e. h refl
calmer (stage s) false c n h = λ e. absurd (true≢false (sym e ∙ n refl))

pub calm : (l : Layout) → IsFoldedIn l false
calm (mobile v) = tt
calm (stage s) = λ e. absurd (true≢false (sym e))

pub folds :
    (l : Layout) (b : Bool) → IsFoldedIn (on_stage (λ s. record s { composing = false }) l) b
folds (mobile v) b = tt
folds (stage s) b = λ e. refl

pub drawn :
    (l : Layout) (b open_now : Bool)
    → IsFoldedIn l b
    → IsFoldedIn (on_stage (λ s. record s { drawer_open = open_now }) l) b
drawn (mobile v) b o h = tt
drawn (stage s) b o h = h

pub spotlit :
    (f : VerdictSpotlight → VerdictSpotlight) (l : Layout) (b : Bool)
    → IsFoldedIn l b
    → IsFoldedIn (on_mobile f l) b
spotlit f (mobile v) b h = tt
spotlit f (stage s) b h = h

-- A layout that mounts while a session is live does not open the form.
pub mounts :
    (b : Bool) (phase : DebatePhase) → IsFoldedIn (new_layout b phase) (active_phases phase)
mounts false phase = tt
mounts true DebatePhase.idle = λ e. absurd (true≢false (sym e))
mounts true DebatePhase.connecting = λ e. refl
mounts true DebatePhase.debating = λ e. refl
mounts true DebatePhase.moderating = λ e. refl
mounts true DebatePhase.done = λ e. refl
mounts true DebatePhase.stopped = λ e. refl
mounts true DebatePhase.error = λ e. refl

pub absent : (l : Layout) (b : Bool) → is_stage l ≡ false → IsFoldedIn l b
absent (mobile v) b n = tt
absent (stage s) b n = absurd (true≢false n)

pub is_stage-on_stage :
    (f : StageState → StageState) (l : Layout) → is_stage (on_stage f l) ≡ is_stage l
is_stage-on_stage f (stage s) = refl
is_stage-on_stage f (mobile v) = refl

pub is_stage-on_mobile :
    (f : VerdictSpotlight → VerdictSpotlight) (l : Layout) → is_stage (on_mobile f l) ≡ is_stage l
is_stage-on_mobile f (stage s) = refl
is_stage-on_mobile f (mobile v) = refl

pub effects-IsSound : (a : App) → IsSound a → IsSound (effects a)
unfolding effects
effects-IsSound a h = record {
  wired = h.wired;
  held = h.held;
  folded = spotlit _ a.layout (is_live (state_of a.debate)) h.folded;
}

remount-IsSound : (b : Bool) (a : App) → IsSound a → IsSound (remount b a)
remount-IsSound b a h = record {
  wired = h.wired;
  held = h.held;
  folded = mounts b (state_of a.debate).phase;
}

either-IsSound : (c : Bool) (a b : App) → IsSound a → IsSound b → IsSound (if c then a else b)
either-IsSound true a b h k = h
either-IsSound false a b h k = k

pub relayout-IsSound : (b : Bool) (a : App) → IsSound a → IsSound (relayout b a)
unfolding relayout
relayout-IsSound true a h =
    either-IsSound (is_stage a.layout) a (remount true a) h (remount-IsSound true a h)
relayout-IsSound false a h =
    either-IsSound (is_stage a.layout) (remount false a) a (remount-IsSound false a h) h
