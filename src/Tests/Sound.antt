-- ===== src/Tests/Sound.antt =====
-- The sound's theorems at one visit to the page.
use council.Prelude.{◌≤◌, ◌≡◌, refl, true, false, some, List, [], ◌∷◌, text}
use council.Sound.{
  suspended, running, Storage, read_stored_preference, use_sound, SoundStep, toggles, cues_round,
  cues_verdict, settles, sound_run,
}
use council.Sound.Laws.{contexts, contexts_le_one, muted_run}

abbrev pub storage : Storage
storage = record { broken = false; item = some (text "false") }

abbrev visit : List SoundStep
visit =
    toggles ∷ settles running ∷ cues_round ∷ toggles ∷ cues_verdict ∷ toggles ∷ cues_verdict ∷ []

abbrev quiet_visit : List SoundStep
quiet_visit = cues_round ∷ cues_verdict ∷ []

contexts_le_one_example :
    contexts (sound_run visit (use_sound true suspended storage)).engine.calls ≤ 1
contexts_le_one_example = contexts_le_one true suspended storage visit

muted_run_example : (sound_run quiet_visit (use_sound true suspended storage)).engine.calls ≡ []
unfolding read_stored_preference
muted_run_example = muted_run true suspended storage quiet_visit refl refl
