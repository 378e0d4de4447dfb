-- ===== src/Sound/Laws.antt =====
-- The sound preference and the calls of the Web Audio API.
use council.Prelude.{
  ℕ, ◌+◌, ◌≤◌, ◌≡◌, refl, Bool, true, false, not, none, some, List, [], ◌∷◌, ◌++◌, arith,
  if◌then◌else◌, true≢false, sym,
}
use council.Sound.{
  tone, round_cue, verdict_chime, is_suspended, ContextState, AudioCall, creates, suspends, resumes,
  plays, SoundEngine, call, with_context, create_sound_engine, ensure_context, when_enabled,
  set_enabled, resume, play_round_cue, play_verdict_chime, Storage, read_stored_preference,
  write_stored_preference, UseSound, sync_engine, use_sound, toggle, SoundStep, toggles, cues_round,
  cues_verdict, settles, sound_step, sound_run,
}

-- A preference that was written to a storage that works is read back in the next visit.
pub read-write_stored_preference :
    (enabled : Bool) (s : Storage)
    → s.broken ≡ false
    → read_stored_preference (write_stored_preference enabled s) ≡ enabled
unfolding read_stored_preference write_stored_preference
read-write_stored_preference enabled s h = ground arith

-- How many contexts were made.
abbrev pub contexts : List AudioCall → ℕ
contexts [] = 0
contexts (creates ∷ cs) = contexts cs + 1
contexts (_ ∷ cs) = contexts cs

contexts-append :
    (cs : List AudioCall) (c : AudioCall)
    → contexts (cs ++ c ∷ []) ≡ contexts cs + contexts (c ∷ [])
contexts-append [] c = omega arith
contexts-append (creates ∷ cs) c = omega (arith, contexts-append cs c)
contexts-append (suspends ∷ cs) c = contexts-append cs c
contexts-append (resumes ∷ cs) c = contexts-append cs c
contexts-append (plays t ∷ cs) c = contexts-append cs c

-- A context is made at most once, and held from then on.
pub record IsOnce (e : SoundEngine) : Type 0 where
  pub none_yet : e.ctx ≡ none → contexts e.calls ≡ 0
  pub one : contexts e.calls ≤ 1

ensure_context-IsOnce : (e : SoundEngine) → IsOnce e → IsOnce (ensure_context e)
unfolding ensure_context
ensure_context-IsOnce e h = ground (arith, contexts-append e.calls creates)

-- A call that makes no context.
call-IsOnce :
    (c : AudioCall) (e : SoundEngine) → contexts (c ∷ []) ≡ 0 → IsOnce e → IsOnce (call c e)
call-IsOnce c e n h = ground (arith, contexts-append e.calls c)

with_context-IsOnce :
    (fn : ContextState → SoundEngine → SoundEngine) (e : SoundEngine)
    → ((s : ContextState) → IsOnce (fn s e))
    → IsOnce e
    → IsOnce (with_context fn e)
with_context-IsOnce fn e k h = elim e.ctx as (λ o. IsOnce (elim o [ none ↦ e | some s ↦ fn s e ])) [
  | none ↦ h
  | some s ↦ k s
]

when_enabled-IsOnce :
    (fn : ContextState → SoundEngine → SoundEngine) (e : SoundEngine)
    → ((s : ContextState) (f : SoundEngine) → IsOnce f → IsOnce (fn s f))
    → IsOnce e
    → IsOnce (when_enabled fn e)
unfolding when_enabled
when_enabled-IsOnce fn e k h =
    let made : IsOnce (ensure_context e) = ensure_context-IsOnce e h in
    elim e.enabled as (λ b. IsOnce (if b then with_context fn (ensure_context e) else e)) [
      | true ↦ with_context-IsOnce fn (ensure_context e) (λ s. k s (ensure_context e) made) made
      | false ↦ h
    ]

resume-IsOnce : (e : SoundEngine) → IsOnce e → IsOnce (resume e)
unfolding resume
resume-IsOnce e h =
    when_enabled-IsOnce (λ s f. if is_suspended s then call resumes f else f) e
      (λ s f k. elim (is_suspended s) as (λ b. IsOnce (if b then call resumes f else f)) [
        | true ↦ call-IsOnce resumes f refl k
        | false ↦ k
      ])
      h

play_round_cue-IsOnce : (e : SoundEngine) → IsOnce e → IsOnce (play_round_cue e)
unfolding play_round_cue
play_round_cue-IsOnce e h =
    when_enabled-IsOnce (λ s f. round_cue f) e
      (λ s f k. call-IsOnce (plays (tone 66000 0 120 50)) f refl k) h

play_verdict_chime-IsOnce : (e : SoundEngine) → IsOnce e → IsOnce (play_verdict_chime e)
unfolding play_verdict_chime
play_verdict_chime-IsOnce e h =
    when_enabled-IsOnce (λ s f. verdict_chime f) e
      (λ s f k.
        let low : AudioCall = plays (tone 52325 0 350 60) in
        call-IsOnce (plays (tone 78399 80 450 60)) (call low f) refl (call-IsOnce low f refl k))
      h

set_enabled-IsOnce : (b : Bool) (e : SoundEngine) → IsOnce e → IsOnce (set_enabled b e)
unfolding set_enabled
set_enabled-IsOnce b e h = ground (arith, contexts-append e.calls suspends)

toggle-IsOnce : (u : UseSound) → IsOnce u.engine → IsOnce (toggle u).engine
unfolding toggle sync_engine
toggle-IsOnce u h =
    set_enabled-IsOnce (not u.enabled) _
      (elim u.enabled
        as (λ b. IsOnce (if not b then resume (set_enabled true u.engine) else u.engine)) [
          | true ↦ h
          | false ↦ resume-IsOnce (set_enabled true u.engine) (set_enabled-IsOnce true u.engine h)
        ])

sound_step-IsOnce :
    (x : SoundStep) (u : UseSound) → IsOnce u.engine → IsOnce (sound_step x u).engine
unfolding sound_step
sound_step-IsOnce toggles u h = toggle-IsOnce u h
sound_step-IsOnce cues_round u h = play_round_cue-IsOnce u.engine h
sound_step-IsOnce cues_verdict u h = play_verdict_chime-IsOnce u.engine h
sound_step-IsOnce (settles s) u h = ground arith

sound_run-IsOnce :
    (xs : List SoundStep) (u : UseSound) → IsOnce u.engine → IsOnce (sound_run xs u).engine
unfolding sound_run
sound_run-IsOnce [] u h = h
sound_run-IsOnce (x ∷ xs) u h = sound_run-IsOnce xs (sound_step x u) (sound_step-IsOnce x u h)

-- Whatever the viewer, the page and the browser do, at most one context is ever made.
pub contexts_le_one :
    (available : Bool) (fresh : ContextState) (storage : Storage) (xs : List SoundStep)
    → contexts (sound_run xs (use_sound available fresh storage)).engine.calls ≤ 1
unfolding use_sound
contexts_le_one available fresh storage xs =
    (sound_run-IsOnce xs (use_sound available fresh storage) (
      set_enabled-IsOnce (read_stored_preference storage) (create_sound_engine available fresh)
        (ground arith))).one

-- `toggles` is not among the steps.
abbrev pub untouched : List SoundStep → Bool
untouched [] = true
untouched (toggles ∷ xs) = false
untouched (_ ∷ xs) = untouched xs

-- Nothing was asked of the audio API.
pub record IsMuted (u : UseSound) : Type 0 where
  pub engine_off : u.engine.enabled ≡ false
  pub silent : u.engine.calls ≡ []
  pub no_context : u.engine.ctx ≡ none

sound_run-IsMuted :
    (xs : List SoundStep) (u : UseSound)
    → untouched xs ≡ true
    → IsMuted u
    → IsMuted (sound_run xs u)
unfolding sound_run sound_step play_round_cue play_verdict_chime
sound_run-IsMuted [] u h m = m
sound_run-IsMuted (toggles ∷ xs) u h m = absurd (true≢false (sym h))
sound_run-IsMuted (cues_round ∷ xs) u h m = sound_run-IsMuted xs _ h (ground arith)
sound_run-IsMuted (cues_verdict ∷ xs) u h m = sound_run-IsMuted xs _ h (ground arith)
sound_run-IsMuted (settles s ∷ xs) u h m = sound_run-IsMuted xs _ h (ground arith)

-- In a visit whose stored preference is not "true", as long as the viewer does not unmute, nothing
-- is ever asked of the Web Audio API, whatever is cued.
pub muted_run :
    (available : Bool) (fresh : ContextState) (storage : Storage) (xs : List SoundStep)
    → read_stored_preference storage ≡ false
    → untouched xs ≡ true
    → (sound_run xs (use_sound available fresh storage)).engine.calls ≡ []
unfolding use_sound set_enabled
muted_run available fresh storage xs r h =
    (sound_run-IsMuted xs (use_sound available fresh storage) h (ground arith)).silent
