-- ===== src/Persona.antt =====
-- The persona registry: `PERSONA_IDS` of frontend/src/design/tokens.ts, and the panel's seating
-- order and the accents of frontend/src/personas/registry.ts.
use council.Prelude.{ℕ, ◌≡◌, ◌↔◌, Bool, true, false, List, [], ◌∷◌, arith, Key, get_or, Text, text}

pub data PersonaId : Type 0 where
  skeptic optimist expert contrarian moderator : PersonaId

-- `===` on two ids.
abbrev pub same : PersonaId → PersonaId → Bool
same skeptic skeptic = true
same optimist optimist = true
same expert expert = true
same contrarian contrarian = true
same moderator moderator = true
same _ _ = false

pub same_iff : (p q : PersonaId) → (same p q ≡ true) ↔ (p ≡ q)
same_iff p q = ground arith

instance abbrev pub PersonaId-Key : Key PersonaId
PersonaId-Key = record { equals = same; equals_iff = same_iff }

abbrev pub persona_ids : List PersonaId
persona_ids = skeptic ∷ optimist ∷ expert ∷ contrarian ∷ moderator ∷ []

abbrev pub panelists : List PersonaId
panelists = skeptic ∷ optimist ∷ expert ∷ contrarian ∷ []

abbrev pub moderator_id : PersonaId
moderator_id = moderator

-- `PANELISTS[i]`. The source reads it at seats below `PANELISTS.length` only.
abbrev pub seat : ℕ → PersonaId
seat i = get_or panelists i moderator_id

-- `palette`.
pub record Palette : Type 0 where
  pub bg : Text
  pub panel : Text
  pub panel_border : Text
  pub ink : Text
  pub muted : Text
  pub danger : Text

abbrev pub palette : Palette
palette = record {
  bg = text "#0B1020";
  panel = text "#141A2E";
  panel_border = text "#243049";
  ink = text "#E6ECFF";
  muted = text "#8A93B2";
  danger = text "#FF6B7A";
}

-- `personaAccent[id]`.
abbrev pub accent_of : PersonaId → Text
accent_of skeptic = text "#36D6FF"
accent_of optimist = text "#FFC24B"
accent_of expert = text "#34E0A1"
accent_of contrarian = text "#C77DFF"
accent_of moderator = text "#9FB4FF"

-- The id as the text that it is on the wire.
abbrev pub id_text : PersonaId → Text
id_text skeptic = text "skeptic"
id_text optimist = text "optimist"
id_text expert = text "expert"
id_text contrarian = text "contrarian"
id_text moderator = text "moderator"
