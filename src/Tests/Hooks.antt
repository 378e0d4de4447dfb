-- ===== src/Tests/Hooks.antt =====
-- The hooks' theorems at the phases of a whole debate.
use council.Prelude.{ℕ, ℕ-Key, ◌+◌, length, text, ◌≡◌, refl, true, false, List, [], ◌∷◌}
use council.Hooks.MediaQuery.{Browser}
use council.Reducer.{DebatePhase}
use council.Hooks.SmoothText.{
  SmoothText, new_smooth_text, smooth_effect, smooth_ticks, smooth_text, smooth_text-ends,
}
use council.Hooks.Spotlight.{new_spotlight, follow_phase, dismiss, follow_all, follow_all-dismiss}
use council.Hooks.Frameloop.{
  FrameloopStep, phase_changes, window_ends, mount, frameloop_run, IsPaced, frameloop_run-IsPaced,
}

follow_all-dismiss_example :
    ((follow_all
        (DebatePhase.done ∷ [])
        (follow_phase DebatePhase.moderating (new_spotlight DebatePhase.debating))).is_open
      ≡ true)
    × ((follow_all (DebatePhase.done ∷ []) (
          dismiss
            (follow_phase DebatePhase.moderating (new_spotlight DebatePhase.debating)))).is_open
        ≡ false)
follow_all-dismiss_example =
    follow_all-dismiss DebatePhase.moderating (DebatePhase.done ∷ []) (DebatePhase.done ∷ [])
      (new_spotlight DebatePhase.debating) refl refl refl refl

abbrev whole_debate : List FrameloopStep
whole_debate =
    phase_changes DebatePhase.connecting
    ∷ phase_changes DebatePhase.debating
    ∷ phase_changes DebatePhase.done
    ∷ window_ends
    ∷ []

frameloop_run-IsPaced_example : IsPaced (frameloop_run whole_debate (mount DebatePhase.idle))
frameloop_run-IsPaced_example = frameloop_run-IsPaced DebatePhase.idle whole_debate

smooth_text-ends_example :
    let shown : SmoothText =
      smooth_ticks
        (length (text "Yes") + 1)
        (text "Yes")
        (smooth_effect (text "Yes") true false (new_smooth_text [])) in
    (smooth_text (text "Yes") shown ≡ text "Yes") × (shown.frame ≡ false)
smooth_text-ends_example = smooth_text-ends (text "Yes") (new_smooth_text [])

abbrev narrow : Browser ℕ
narrow = record { available = true; answers = λ q. false }
