-- ===== src/Player/Mild.antt =====
-- The errors that end no session.
use mathlib.Core.Option
use council.Prelude.{
  ℕ-Key, ◌≡◌, sym, ap, subst, ◌∙◌, inl, inr, false, some, List, [], ◌∷◌, ◌++◌, arith, if◌then◌else◌,
  Bool-cases, ◌==◌,
}
use council.Prelude.Dict
use council.Prelude.Dict.{Dict}
use council.Persona.{PersonaId, PersonaId-Key}
use council.Protocol.{ErrorEvent}
use council.Reducer.{is_terminal_error}

-- An error of a panelist's, which ends no session.
abbrev pub IsMild : ErrorEvent → Type 0
IsMild e = is_terminal_error e.persona ≡ false

abbrev pub AllMild : List ErrorEvent → Type 0
AllMild [] = Unit {0}
AllMild (e ∷ es) = IsMild e × AllMild es

abbrev pub DictMild : Dict PersonaId ErrorEvent → Type 0
DictMild [] = Unit {0}
DictMild ((k, e) ∷ m) = IsMild e × DictMild m

pub AllMild-append :
    (es : List ErrorEvent) (e : ErrorEvent) → AllMild es → IsMild e → AllMild (es ++ e ∷ [])
AllMild-append [] e h k = (k, tt)
AllMild-append (x ∷ es) e (h, hs) k = (h, AllMild-append es e hs k)

pub DictMild-get :
    (p : PersonaId) (m : Dict PersonaId ErrorEvent) (e : ErrorEvent)
    → DictMild m
    → Dict.get p m ≡ some e
    → IsMild e
unfolding Dict.get
DictMild-get p [] e h g = absurd (ground arith)
DictMild-get p ((k, x) ∷ m) e (h, hs) g = elim (Bool-cases (k == p)) [
  | inl b ↦
      subst IsMild
        (Option.some-injective _ _ (sym (ap (λ b. if b then some x else Dict.get p m) b) ∙ g)) h
  | inr b ↦ DictMild-get p m e hs (sym (ap (λ b. if b then some x else Dict.get p m) b) ∙ g)
]

pub DictMild-delete :
    (p : PersonaId) (m : Dict PersonaId ErrorEvent) → DictMild m → DictMild (Dict.delete p m)
unfolding Dict.delete
DictMild-delete p [] h = tt
DictMild-delete p ((k, x) ∷ m) (h, hs) = elim (Bool-cases (k == p)) [
  | inl b ↦ subst (λ b. DictMild (if b then m else (k, x) ∷ Dict.delete p m)) (sym b) hs
  | inr b ↦
      subst (λ b. DictMild (if b then m else (k, x) ∷ Dict.delete p m)) (sym b)
        (h, DictMild-delete p m hs)
]

pub DictMild-set :
    (p : PersonaId) (e : ErrorEvent) (m : Dict PersonaId ErrorEvent)
    → IsMild e
    → DictMild m
    → DictMild (Dict.set p e m)
unfolding Dict.set
DictMild-set p e [] k h = (k, tt)
DictMild-set p e ((j, x) ∷ m) k (h, hs) = elim (Bool-cases (j == p)) [
  | inl b ↦
      subst (λ b. DictMild (if b then (j, e) ∷ m else (j, x) ∷ Dict.set p e m)) (sym b) (k, hs)
  | inr b ↦
      subst (λ b. DictMild (if b then (j, e) ∷ m else (j, x) ∷ Dict.set p e m)) (sym b)
        (h, DictMild-set p e m k hs)
]
