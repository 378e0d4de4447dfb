-- ===== src/App/Folded.antt =====
-- The stage's form is folded away while a session is live.
use council.Prelude.{
  ◌≡◌, refl, sym, ap, ◌∙◌, subst, Bool, true, false, ◌⊎◌, inl, inr, List, [], ◌∷◌, Text, ℕ,
}
use council.Protocol.Ask.{AskMessage}
use council.Protocol.Parse.{ParseResult}
use council.Reducer.{DebateState}
use council.Debate.{state_of, DebateStep, new_debate}
use council.Debate.Refines.{new-IsWired}
use council.Debate.Seen.{seen}
use council.Player.Settled.{is_live}
use council.Player.State.{reset}
use council.Sound.{UseSound}
use council.Ui.Html.{Html, clicks}
use council.Ui.Controls.{live_phases}
use council.Ui.QuestionForm.{submit}
use council.Ui.Layouts.{StageState}
use council.Ui.StageOffers.{clicks-stage_layout}
use council.App.{
  App, Layout, stage, mobile, Msg, set_composing, set_drawer, set_form_question, set_form_rounds,
  AppStep, handles, fires, delivers, resizes, settles, new_app, handle_all, relayout, is_stage,
  app_step, app_run, visited, view, shared,
}
use council.App.Asking.{stage_form}
use council.App.Handlers.{
  IsGuarded, plain, IsAmong, IsAmong-IsGuarded, submit-IsGuarded, stage_offers-AllGuarded,
}
use council.App.Mounted.{
  IsSound, live_phases-eq, mounts, effects-IsSound, relayout-IsSound, is_composing,
  IsFoldedIn-composing,
}
use council.App.Composing.{unasked-IsSound, guarded-IsSound, all_narrow-IsSound}

module _ (parse : Text → ParseResult) (stringify : AskMessage → Text) where
  module _ (reveal : Text → Bool → Text) (markdown : Text → Html Msg)
      (debate_stage : DebateState → Html Msg) where
    -- What the viewer can do on a page: on the stage, click what it offers, submit the form by a key,
    -- or edit the form; on the narrow layout, anything.
    abbrev pub IsPossible : AppStep → App → Type 0
    IsPossible (handles msgs) a = elim a.layout [
      | stage s ↦
          IsAmong msgs (clicks (view reveal markdown debate_stage a))
          ⊎ ((msgs ≡ submit (stage_form reveal markdown debate_stage a))
              ⊎ (((q : Text) × (msgs ≡ set_form_question q ∷ []))
                  ⊎ ((r : ℕ) × (msgs ≡ set_form_rounds r ∷ []))))
      | mobile v ↦ Unit {0}
    ]
    IsPossible _ a = Unit {0}

    -- Each step is possible on the page that it comes to.
    abbrev pub AllPossible : List AppStep → App → Type 0
    AllPossible [] a = Unit {0}
    AllPossible (s ∷ ss) a = IsPossible s a × AllPossible ss (app_step parse stringify s a)

    possible-IsGuarded :
        (msgs : List Msg) (a : App) (s : StageState)
        → ((t : Text) → clicks (markdown t) ≡ [])
        → ((d : DebateState) → clicks (debate_stage d) ≡ [])
        → IsPossible (handles msgs) (record a { layout = stage s })
        → IsGuarded (live_phases (state_of a.debate).phase) msgs
    unfolding view
    possible-IsGuarded msgs a s inert still (inl m) =
        IsAmong-IsGuarded (live_phases (state_of a.debate).phase) msgs _
          (stage_offers-AllGuarded reveal markdown debate_stage a s)
          (subst (IsAmong msgs)
            (clicks-stage_layout reveal markdown inert debate_stage still
              (λ b. set_composing b ∷ []) (λ b. set_drawer b ∷ []) (shared a) s)
            m)
    possible-IsGuarded msgs a s inert still (inr (inl e)) =
        subst (IsGuarded (live_phases (state_of a.debate).phase)) (sym e)
          (submit-IsGuarded reveal markdown debate_stage a)
    possible-IsGuarded msgs a s inert still (inr (inr (inl (q, e)))) =
        subst (IsGuarded (live_phases (state_of a.debate).phase)) (sym e) (plain (tt, tt))
    possible-IsGuarded msgs a s inert still (inr (inr (inr (r, e)))) =
        subst (IsGuarded (live_phases (state_of a.debate).phase)) (sym e) (plain (tt, tt))

    module _ (inert : (t : Text) → clicks (markdown t) ≡ [])
        (still : (d : DebateState) → clicks (debate_stage d) ≡ []) where
      by_layout :
          (msgs : List Msg) (a : App) (l : Layout)
          → a.layout ≡ l
          → IsPossible (handles msgs) (record a { layout = l })
          → IsSound a
          → IsSound (handle_all parse stringify msgs a)
      by_layout msgs a (stage s) e p h =
          guarded-IsSound parse stringify msgs a (possible-IsGuarded msgs a s inert still p) h
      by_layout msgs a (mobile v) e p h =
          all_narrow-IsSound parse stringify msgs a (ap is_stage e) h

      app_step-IsSound :
          (s : AppStep) (a : App)
          → IsPossible s a
          → IsSound a
          → IsSound (app_step parse stringify s a)
      unfolding app_step
      app_step-IsSound (handles msgs) a p h =
          effects-IsSound (handle_all parse stringify msgs a) (by_layout msgs a a.layout refl p h)
      app_step-IsSound fires a p h =
          effects-IsSound _ (unasked-IsSound parse stringify DebateStep.fires a tt h)
      app_step-IsSound (delivers k i ev) a p h =
          effects-IsSound _ (unasked-IsSound parse stringify (DebateStep.delivers k i ev) a tt h)
      app_step-IsSound (resizes b) a p h = effects-IsSound (relayout b a) (relayout-IsSound b a h)
      app_step-IsSound (settles s) a p h = record {
        wired = h.wired;
        held = h.held;
        folded = h.folded;
      }

      app_run-IsSound :
          (ss : List AppStep) (a : App)
          → AllPossible ss a
          → IsSound a
          → IsSound (app_run parse stringify ss a)
      unfolding app_run
      app_run-IsSound [] a p h = h
      app_run-IsSound (s ∷ ss) a p h =
          app_run-IsSound ss (app_step parse stringify s a) p.1 (app_step-IsSound s a p.0 h)

      new_app-IsSound :
          (reduced_motion stage_first : Bool) (sound : UseSound)
          → IsSound (new_app reduced_motion stage_first sound)
      unfolding seen reset
      new_app-IsSound reduced_motion stage_first sound = record {
        wired = new-IsWired reduced_motion;
        held = inr (refl, refl);
        folded = mounts stage_first (state_of (new_debate reduced_motion)).phase;
      }

      -- The stage never composes a question over a live session, if the markdown and the scene have
      -- no handlers: on every page that the viewer's clicks on what the stage offers, its form's
      -- submit key and edits, any messages of the narrow layout, the timer, the browser's deliveries
      -- to any socket, changes of the page's width and settled sounds can reach, in whatever order,
      -- while the phase is connecting, debating or moderating the stage's form is folded away.
      pub visited-folded :
          (reduced_motion stage_first : Bool) (sound : UseSound) (ss : List AppStep)
          → AllPossible ss (new_app reduced_motion stage_first sound)
          → live_phases
              (state_of (visited parse stringify reduced_motion stage_first sound ss).debate).phase
            ≡ true
          → is_composing (visited parse stringify reduced_motion stage_first sound ss).layout
            ≡ false
      visited-folded reduced_motion stage_first sound ss p n =
          let a : App = visited parse stringify reduced_motion stage_first sound ss in
          let h : IsSound a =
            app_run-IsSound ss (new_app reduced_motion stage_first sound) p
              (new_app-IsSound reduced_motion stage_first sound) in
          IsFoldedIn-composing a.layout (is_live (state_of a.debate)) h.folded
            (sym (live_phases-eq (state_of a.debate).phase) ∙ n)
