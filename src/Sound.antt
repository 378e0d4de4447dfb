-- ===== src/Sound.antt =====
-- The cues, frontend/src/lib/sound.ts and frontend/src/hooks/useSound.ts. The Web Audio API is the
-- browser's: what is asked of it is a log, and the state of a context is what the browser says.
pub mod Laws
use council.Prelude.{
  ℕ, Bool, true, false, not, ◌&&◌, Option, none, some, List, [], ◌∷◌, ◌++◌, Text, text, nat_eq,
  if◌then◌else◌,
}

-- `AudioContext.state`.
pub data ContextState : Type 0 where
  running suspended closed : ContextState

-- A tone in hundredths of a hertz, milliseconds and thousandths of the full gain.
pub record Tone : Type 0 where
  pub freq : ℕ
  pub start_offset : ℕ
  pub duration : ℕ
  pub peak_gain : ℕ

-- A call of the Web Audio API.
pub data AudioCall : Type 0 where
  creates suspends resumes : AudioCall
  plays : Tone → AudioCall

-- `available` is whether the browser has a constructor, and `fresh` the state of a new context.
pub record SoundEngine : Type 0 where
  pub available : Bool
  pub fresh : ContextState
  pub enabled : Bool
  pub ctx : Option ContextState
  pub calls : List AudioCall

abbrev pub create_sound_engine : Bool → ContextState → SoundEngine
create_sound_engine available fresh = record {
  available = available;
  fresh = fresh;
  enabled = false;
  ctx = none;
  calls = [];
}

abbrev pub tone : ℕ → ℕ → ℕ → ℕ → Tone
tone freq start_offset duration peak_gain = record {
  freq = freq;
  start_offset = start_offset;
  duration = duration;
  peak_gain = peak_gain;
}

abbrev pub call : AudioCall → SoundEngine → SoundEngine
call c e = record e { calls = e.calls ++ c ∷ [] }

-- The context, made on the first use.
unfoldable pub ensure_context : SoundEngine → SoundEngine
ensure_context e = elim e.ctx [
  | some s ↦ e
  | none ↦ if e.available then record (call creates e) { ctx = some e.fresh } else e
]

-- `if (c) fn(c)`, on the engine with its context ensured.
abbrev pub with_context : (ContextState → SoundEngine → SoundEngine) → SoundEngine → SoundEngine
with_context fn e = elim e.ctx [ none ↦ e | some s ↦ fn s e ]

unfoldable pub when_enabled : (ContextState → SoundEngine → SoundEngine) → SoundEngine → SoundEngine
unfolding ensure_context
when_enabled fn e = if e.enabled then with_context fn (ensure_context e) else e

-- `c.state === "running"` and `c.state === "suspended"`.
abbrev pub is_running : ContextState → Bool
is_running running = true
is_running _ = false

abbrev pub is_suspended : ContextState → Bool
is_suspended suspended = true
is_suspended _ = false

unfoldable pub set_enabled : Bool → SoundEngine → SoundEngine
set_enabled next e =
    let f : SoundEngine = record e { enabled = next } in
    if not next then with_context (λ s g. if is_running s then call suspends g else g) f else f

unfoldable pub resume : SoundEngine → SoundEngine
unfolding when_enabled
resume e = when_enabled (λ s f. if is_suspended s then call resumes f else f) e

abbrev pub round_cue : SoundEngine → SoundEngine
round_cue e = call (plays (tone 66000 0 120 50)) e

abbrev pub verdict_chime : SoundEngine → SoundEngine
verdict_chime e = call (plays (tone 78399 80 450 60)) (call (plays (tone 52325 0 350 60)) e)

unfoldable pub play_round_cue : SoundEngine → SoundEngine
unfolding when_enabled
play_round_cue e = when_enabled (λ s f. round_cue f) e

unfoldable pub play_verdict_chime : SoundEngine → SoundEngine
unfolding when_enabled
play_verdict_chime e = when_enabled (λ s f. verdict_chime f) e

-- `localStorage` under the hook's key; `broken` storage throws on every access.
pub record Storage : Type 0 where
  pub broken : Bool
  pub item : Option Text

-- `s === "true"`.
abbrev pub same_text : Text → Text → Bool
same_text [] [] = true
same_text (a ∷ s) (b ∷ t) = nat_eq a b && same_text s t
same_text _ _ = false

abbrev pub is_true : Option Text → Bool
is_true none = false
is_true (some s) = same_text s (text "true")

-- `String(enabled)`.
abbrev pub bool_text : Bool → Text
bool_text true = text "true"
bool_text false = text "false"

unfoldable pub read_stored_preference : Storage → Bool
read_stored_preference s = if s.broken then false else is_true s.item

unfoldable pub write_stored_preference : Bool → Storage → Storage
write_stored_preference enabled s =
    if s.broken then s else record s { item = some (bool_text enabled) }

pub record UseSound : Type 0 where
  pub enabled : Bool
  pub engine : SoundEngine
  pub storage : Storage

-- The effect, which runs after the first render and when `enabled` has changed.
unfoldable pub sync_engine : UseSound → UseSound
unfolding set_enabled
sync_engine u = record u { engine = set_enabled u.enabled u.engine }

-- The first render and its effect.
unfoldable pub use_sound : Bool → ContextState → Storage → UseSound
unfolding sync_engine read_stored_preference
use_sound available fresh storage = sync_engine (record {
  enabled = read_stored_preference storage;
  engine = create_sound_engine available fresh;
  storage = storage;
})

-- The click's handler, and the effect of its new state.
unfoldable pub toggle : UseSound → UseSound
unfolding set_enabled resume write_stored_preference sync_engine
toggle u =
    let next : Bool = not u.enabled in
    let engine : SoundEngine = if next then resume (set_enabled true u.engine) else u.engine in
    sync_engine
      (record { enabled = next; engine = engine; storage = write_stored_preference next u.storage })

-- What the page does with the hook: clicks, cues, and the browser's changes of a context's state.
pub data SoundStep : Type 0 where
  toggles cues_round cues_verdict : SoundStep
  settles : ContextState → SoundStep

abbrev pub with_engine : (SoundEngine → SoundEngine) → UseSound → UseSound
with_engine f u = record u { engine = f u.engine }

unfoldable pub sound_step : SoundStep → UseSound → UseSound
unfolding toggle play_round_cue play_verdict_chime
sound_step toggles u = toggle u
sound_step cues_round u = with_engine play_round_cue u
sound_step cues_verdict u = with_engine play_verdict_chime u
sound_step (settles s) u = with_engine (with_context (λ old e. record e { ctx = some s })) u

unfoldable pub sound_run : List SoundStep → UseSound → UseSound
unfolding sound_step
sound_run [] u = u
sound_run (x ∷ xs) u = sound_run xs (sound_step x u)
