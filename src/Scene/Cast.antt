-- ===== src/Scene/Cast.antt =====
-- Who is on the stage, frontend/src/three/StageScene.tsx and DebateStage.tsx.
use mathlib.Core.Option
use council.Prelude.{
  arith, append-nil, Option, ◌≡◌, refl, ap, Bool, some, List, [], ◌∷◌, map, Text, text, none,
}
use council.Prelude.Dict
use council.Persona.{
  PersonaId, PersonaId-Key, skeptic, optimist, expert, contrarian, moderator, persona_ids, id_text,
}
use council.Reducer.{DebateState}
use council.Stage.Robot.{RobotVisualState, robot_of, robot_visual_state}
use council.Stage.Shape.{shape_for}
use council.Scene.Body.{robot_persona}
use council.Scene.Head.{skull, head_geometry, mortarboard, gavel_prop, brow}
use council.Stage.Bubble.{PersonaBubble, bubble_of, panelist_bubble, moderator_bubble}
use council.Stage.Agreement.{bubble_at, persona_bubbles_lem}
use council.Hooks.Frameloop.{FrameloopMode}
use council.Scene.Three.{Three}
use council.Scene.Tree.{names, labels, labels-⊹, names-⊹}
use council.Scene.Chamber.{chamber}
use council.Scene.Label.{label_content}
use council.Scene.Council.{
  Canvas, Seated, debate_stage, canvas_of, seated, mount, scene_of, label_for, props_of,
  stage_scene, by_id,
}

-- The persona of a robot, and the visual state that drives it.
abbrev pub driven : {R : Type 0} → Seated R → PersonaId × Option RobotVisualState
driven s = (s.robot.id, s.robot.visual)

abbrev pub own_state : DebateState → PersonaId → PersonaId × Option RobotVisualState
own_state state id = (id, some (robot_of state id))

-- The groups of one robot.
abbrev pub names_of : PersonaId → List Text
names_of expert = text "expert" ∷ text "head" ∷ text "mortarboard" ∷ []
names_of moderator = text "moderator" ∷ text "head" ∷ text "gavel" ∷ []
names_of id = id_text id ∷ text "head" ∷ []

-- The names of the groups in the document's order: the moderator alone has a gavel, and the expert
-- alone a mortarboard.
abbrev pub cast_names : List Text
cast_names =
    text "skeptic"
    ∷ text "head"
    ∷ text "optimist"
    ∷ text "head"
    ∷ text "expert"
    ∷ text "head"
    ∷ text "mortarboard"
    ∷ text "contrarian"
    ∷ text "head"
    ∷ text "moderator"
    ∷ text "head"
    ∷ text "gavel"
    ∷ []

module _ (t : Three) where
  robot_persona-labels :
      (visuals : List RobotVisualState) (reduced_motion : Bool) (id : PersonaId)
      → labels (robot_persona t (props_of t visuals reduced_motion id)) ≡ []
  unfolding labels robot_persona props_of shape_for skull head_geometry
  robot_persona-labels visuals reduced_motion skeptic = refl
  robot_persona-labels visuals reduced_motion optimist = refl
  robot_persona-labels visuals reduced_motion expert = refl
  robot_persona-labels visuals reduced_motion contrarian = refl
  robot_persona-labels visuals reduced_motion moderator = refl

  robot_persona-names :
      (visuals : List RobotVisualState) (reduced_motion : Bool) (id : PersonaId)
      → names (robot_persona t (props_of t visuals reduced_motion id)) ≡ names_of id
  unfolding names robot_persona props_of shape_for skull head_geometry mortarboard gavel_prop brow
  robot_persona-names visuals reduced_motion skeptic = refl
  robot_persona-names visuals reduced_motion optimist = refl
  robot_persona-names visuals reduced_motion expert = refl
  robot_persona-names visuals reduced_motion contrarian = refl
  robot_persona-names visuals reduced_motion moderator = refl

bubble_at-id : (state : DebateState) (id : PersonaId) → (bubble_at state id).id ≡ id
unfolding bubble_of panelist_bubble moderator_bubble robot_of
bubble_at-id state id = ground arith

by_id-bubbles :
    (state : DebateState)
    → by_id (λ b. b.id) (map (bubble_at state) persona_ids)
      ≡ map (λ id. (id, bubble_at state id)) persona_ids
unfolding by_id Dict.set
by_id-bubbles state = rw (
  bubble_at-id state skeptic,
  bubble_at-id state optimist,
  bubble_at-id state expert,
  bubble_at-id state contrarian,
  bubble_at-id state moderator,
)

module _ (t : Three) (reveal : Text → Bool → Text) where
  label_for-labels :
      (id : PersonaId) (b : PersonaBubble) (o : Option PersonaBubble)
      → o ≡ some b
      → labels (label_for t reveal id o) ≡ label_content reveal b ∷ []
  unfolding label_for labels
  label_for-labels id b o e = rw e refl

  label_for-names :
      (id : PersonaId) (o : Option PersonaBubble) → names (label_for t reveal id o) ≡ []
  unfolding label_for names
  label_for-names id none = refl
  label_for-names id (some b) = refl

module _ (t : Three) where
  chamber-labels : labels (chamber t) ≡ []
  unfolding chamber labels
  chamber-labels = refl

  chamber-names : names (chamber t) ≡ []
  unfolding chamber names
  chamber-names = refl

module _ (t : Three) (reveal : Text → Bool → Text) (visuals : List RobotVisualState) where
  mount-labels :
      (bubbles : List PersonaBubble) (reduced_motion : Bool) (id : PersonaId) (b : PersonaBubble)
      → Dict.get id (by_id (λ b. b.id) bubbles) ≡ some b
      → labels (mount t reveal (seated t visuals bubbles reduced_motion id))
        ≡ label_content reveal b ∷ []
  unfolding labels mount seated props_of
  mount-labels bubbles reduced_motion id b e = simp (
    labels-⊹,
    robot_persona-labels t visuals reduced_motion id,
    label_for-labels t reveal id b (Dict.get id (by_id (λ b. b.id) bubbles)) e,
  )

  mount-names :
      (bubbles : List PersonaBubble) (reduced_motion : Bool) (id : PersonaId)
      → names (mount t reveal (seated t visuals bubbles reduced_motion id)) ≡ names_of id
  unfolding names mount seated props_of
  mount-names bubbles reduced_motion id = simp (
    names-⊹,
    robot_persona-names t visuals reduced_motion id,
    label_for-names t reveal id (Dict.get id (by_id (λ b. b.id) bubbles)),
    append-nil,
  )

module _ (t : Three) (state : DebateState) (reduced_motion : Bool) where
  open t use {Real}

  found :
      (id : PersonaId)
      → Dict.get id (map (λ p. (p, bubble_at state p)) persona_ids) ≡ some (bubble_at state id)
  unfolding Dict.get
  found skeptic = refl
  found optimist = refl
  found expert = refl
  found contrarian = refl
  found moderator = refl

  shown_bubble :
      (id : PersonaId)
      → Dict.get id (by_id (λ b. b.id) (map (bubble_at state) persona_ids))
        ≡ some (bubble_at state id)
  shown_bubble id = rw (by_id-bubbles state) (found id)

  abbrev pub shown_seats : List (Seated Real)
  shown_seats =
      stage_scene t (robot_visual_state state) (map (bubble_at state) persona_ids) reduced_motion

  shown-driven : map driven shown_seats ≡ map (own_state state) persona_ids
  unfolding stage_scene seated props_of robot_visual_state Dict.get Dict.set by_id
  shown-driven = refl

  shown-still :
      map (λ s. s.robot.reduced_motion) shown_seats ≡ map (λ id. some reduced_motion) persona_ids
  unfolding stage_scene seated props_of
  shown-still = refl

  shown-names : (reveal : Text → Bool → Text) → names (scene_of t reveal shown_seats) ≡ cast_names
  unfolding scene_of stage_scene names
  shown-names reveal = simp (names-⊹, chamber-names t, mount-names t reveal, append-nil)

  shown-labels :
      (reveal : Text → Bool → Text)
      → labels (scene_of t reveal shown_seats)
        ≡ map (λ id. label_content reveal (bubble_at state id)) persona_ids
  unfolding scene_of stage_scene labels
  shown-labels reveal =
      let bubbles : List PersonaBubble = map (bubble_at state) persona_ids in
      let own = λ (id : PersonaId).
        mount-labels t reveal (robot_visual_state state) bubbles reduced_motion id
          (bubble_at state id) (shown_bubble id) in
      simp (
        labels-⊹,
        chamber-labels t,
        own skeptic,
        own optimist,
        own expert,
        own contrarian,
        own moderator,
        append-nil,
      )

-- The stage renders in every state, and its canvas shows the council: one robot for each persona in
-- the order of the ids, each driven by its own visual state and by the viewer's choice of reduced
-- motion; in the scene that it mounts, the gavel stands with the moderator alone and the mortarboard
-- with the expert alone, and there is one label for each persona in the same order, with the content
-- of its own bubble.
pub debate_stage-cast :
    (t : Three) (reveal : Text → Bool → Text) (state : DebateState) (mode : FrameloopMode)
    (reduced_motion : Bool)
    → (c : Canvas t.Real) × (debate_stage t state mode reduced_motion ≡ some c)
      × (names (scene_of t reveal c.seats) ≡ cast_names)
      × (labels (scene_of t reveal c.seats)
          ≡ map (λ id. label_content reveal (bubble_at state id)) persona_ids)
      × (map driven c.seats ≡ map (own_state state) persona_ids)
      × (map (λ s. s.robot.reduced_motion) c.seats ≡ map (λ id. some reduced_motion) persona_ids)
unfolding debate_stage canvas_of
debate_stage-cast t reveal state mode reduced_motion = (
  canvas_of t state (map (bubble_at state) persona_ids) mode reduced_motion,
  ap (Option.map (λ bubbles. canvas_of t state bubbles mode reduced_motion))
      (persona_bubbles_lem state),
  shown-names t state reduced_motion reveal,
  shown-labels t state reduced_motion reveal,
  shown-driven t state reduced_motion,
  shown-still t state reduced_motion,
)
