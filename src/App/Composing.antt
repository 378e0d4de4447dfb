-- ===== src/App/Composing.antt =====
-- What each message of the page's handlers does to the folding of the stage's form.
use council.Prelude.{◌≡◌, sym, ◌∙◌, subst, true, false, some, List, [], ◌∷◌, Text, ℕ}
use council.Protocol.Ask.{AskMessage, whole}
use council.Protocol.Parse.{ParseResult}
use council.Debate.{state_of, DebateStep, debate_step}
use council.Debate.Over.{IsUnasked, debate_step-IsHeld, debate_step-over}
use council.Player.Settled.{is_live}
use council.Hooks.Spotlight
use council.Hooks.Spotlight.{VerdictSpotlight}
use council.Ui.Controls.{live_phases}
use council.App.{
  App, on_stage, Msg, ask, stop, set_composing, set_drawer, set_rate, go_to_live, toggle_sound,
  dismiss_verdict, set_form_question, set_form_rounds, handle, handle_all, is_stage,
}
use council.App.Convening.{step-IsWired}
use council.App.Handlers.{IsPlain, AllPlain, IsGuarded, plain, opens, asks}
use council.App.Mounted.{
  IsFoldedIn, IsSound, live_phases-eq, calmer, calm, folds, drawn, spotlit, absent,
  is_stage-on_stage, is_stage-on_mobile,
}

module _ (parse : Text → ParseResult) (stringify : AskMessage → Text) where
  -- A step of the hook that does not ask.
  pub unasked-IsSound :
      (s : DebateStep) (a : App)
      → IsUnasked s
      → IsSound a
      → IsSound (record a { debate = debate_step parse stringify s a.debate })
  unasked-IsSound s a u h = record {
    wired = step-IsWired parse stringify s a.debate h.wired;
    held = debate_step-IsHeld parse stringify s a.debate h.wired h.held;
    folded =
        calmer a.layout (is_live (state_of a.debate))
          (is_live (state_of (debate_step parse stringify s a.debate)))
          (debate_step-over parse stringify s a.debate u h.wired h.held) h.folded;
  }

  plain-IsSound :
      (msg : Msg) (a : App) → IsPlain msg → IsSound a → IsSound (handle parse stringify msg a)
  unfolding handle
  plain-IsSound (ask q r) a u h = elim u [ ]
  plain-IsSound stop a u h = unasked-IsSound DebateStep.stops a tt h
  plain-IsSound toggle_sound a u h = record { wired = h.wired; held = h.held; folded = h.folded }
  plain-IsSound go_to_live a u h = unasked-IsSound DebateStep.lives a tt h
  plain-IsSound dismiss_verdict a u h = record {
    wired = h.wired;
    held = h.held;
    folded = spotlit _ a.layout (is_live (state_of a.debate)) h.folded;
  }
  plain-IsSound (set_rate m) a u h = unasked-IsSound (DebateStep.rates m) a tt h
  plain-IsSound (set_composing b) a u h = record {
    wired = h.wired;
    held = h.held;
    folded =
        subst
          (λ c.
            IsFoldedIn (on_stage (λ s. record s { composing = c }) a.layout)
              (is_live (state_of a.debate)))
          (sym u) (folds a.layout (is_live (state_of a.debate)));
  }
  plain-IsSound (set_drawer b) a u h = record {
    wired = h.wired;
    held = h.held;
    folded = drawn a.layout (is_live (state_of a.debate)) b h.folded;
  }
  plain-IsSound (set_form_question q) a u h = record {
    wired = h.wired;
    held = h.held;
    folded = h.folded;
  }
  plain-IsSound (set_form_rounds r) a u h = record {
    wired = h.wired;
    held = h.held;
    folded = h.folded;
  }

  AllPlain-IsSound :
      (msgs : List Msg) (a : App)
      → AllPlain msgs
      → IsSound a
      → IsSound (handle_all parse stringify msgs a)
  unfolding handle_all
  AllPlain-IsSound [] a p h = h
  AllPlain-IsSound (msg ∷ msgs) a p h =
      AllPlain-IsSound msgs (handle parse stringify msg a) p.1 (plain-IsSound msg a p.0 h)

  -- Opening the form while no session is live.
  opened-IsSound :
      (a : App)
      → live_phases (state_of a.debate).phase ≡ false
      → IsSound a
      → IsSound (handle parse stringify (set_composing true) a)
  unfolding handle
  opened-IsSound a n h = record {
    wired = h.wired;
    held = h.held;
    folded =
        subst (IsFoldedIn (on_stage (λ s. record s { composing = true }) a.layout))
          (sym n ∙ live_phases-eq (state_of a.debate).phase)
          (calm (on_stage (λ s. record s { composing = true }) a.layout));
  }

  -- Folding the form away and asking.
  asked-IsSound :
      (q : Text) (r : ℕ) (a : App)
      → IsSound a
      → IsSound (handle_all parse stringify (set_composing false ∷ ask q r ∷ []) a)
  unfolding handle_all handle
  asked-IsSound q r a h = record {
    wired = step-IsWired parse stringify (DebateStep.asks q (some (whole r))) a.debate h.wired;
    held =
        debate_step-IsHeld parse stringify (DebateStep.asks q (some (whole r))) a.debate h.wired
          h.held;
    folded = folds a.layout (
        is_live
          (state_of (debate_step parse stringify (DebateStep.asks q (some (whole r))) a.debate)));
  }

  pub guarded-IsSound :
      (msgs : List Msg) (a : App)
      → IsGuarded (live_phases (state_of a.debate).phase) msgs
      → IsSound a
      → IsSound (handle_all parse stringify msgs a)
  unfolding handle_all
  guarded-IsSound msgs a (plain p) h = AllPlain-IsSound msgs a p h
  guarded-IsSound msgs a (opens n e) h =
      subst (λ ms. IsSound (handle_all parse stringify ms a)) (sym e) (opened-IsSound a n h)
  guarded-IsSound msgs a (asks q r e) h =
      subst (λ ms. IsSound (handle_all parse stringify ms a)) (sym e) (asked-IsSound q r a h)

  -- On the narrow layout there is no form of the stage.
  narrow-IsSound :
      (msg : Msg) (a : App)
      → is_stage a.layout ≡ false
      → IsSound a
      → IsSound (handle parse stringify msg a)
        × (is_stage (handle parse stringify msg a).layout ≡ false)
  unfolding handle
  narrow-IsSound (ask q r) a n h = (
    record {
      wired = step-IsWired parse stringify (DebateStep.asks q (some (whole r))) a.debate h.wired;
      held =
          debate_step-IsHeld parse stringify (DebateStep.asks q (some (whole r))) a.debate h.wired
            h.held;
      folded =
          absent a.layout
            (is_live (
              state_of (debate_step parse stringify (DebateStep.asks q (some (whole r))) a.debate)))
            n;
    },
    n,
  )
  narrow-IsSound (set_composing b) a n h = (
    record {
      wired = h.wired;
      held = h.held;
      folded =
          absent (on_stage (λ s. record s { composing = b }) a.layout) (is_live (state_of a.debate))
            (is_stage-on_stage (λ s. record s { composing = b }) a.layout ∙ n);
    },
    is_stage-on_stage (λ s. record s { composing = b }) a.layout ∙ n,
  )
  narrow-IsSound (set_drawer b) a n h = (
    plain-IsSound (set_drawer b) a tt h,
    is_stage-on_stage (λ s. record s { drawer_open = b }) a.layout ∙ n,
  )
  narrow-IsSound dismiss_verdict a n h =
      (plain-IsSound dismiss_verdict a tt h, is_stage-on_mobile Spotlight.dismiss a.layout ∙ n)
  narrow-IsSound stop a n h = (plain-IsSound stop a tt h, n)
  narrow-IsSound toggle_sound a n h = (plain-IsSound toggle_sound a tt h, n)
  narrow-IsSound go_to_live a n h = (plain-IsSound go_to_live a tt h, n)
  narrow-IsSound (set_rate m) a n h = (plain-IsSound (set_rate m) a tt h, n)
  narrow-IsSound (set_form_question q) a n h = (plain-IsSound (set_form_question q) a tt h, n)
  narrow-IsSound (set_form_rounds r) a n h = (plain-IsSound (set_form_rounds r) a tt h, n)

  pub all_narrow-IsSound :
      (msgs : List Msg) (a : App)
      → is_stage a.layout ≡ false
      → IsSound a
      → IsSound (handle_all parse stringify msgs a)
  unfolding handle_all
  all_narrow-IsSound [] a n h = h
  all_narrow-IsSound (msg ∷ msgs) a n h =
      let (k, m) = narrow-IsSound msg a n h in
      all_narrow-IsSound msgs (handle parse stringify msg a) m k
