-- ===== src/Lib.antt =====
-- The verification library of Council's client, a stage on which five personas debate a question.
--
-- The program. A WebSocket delivers the events of a debate (tokens, persona_done, round_complete,
-- verdict, error) of all personas at once. `DebatePlayer` records them and replays them one persona
-- at a time, at a readable pace, into the reducer, whose state is all that the views show.
--
-- Which file models which part:
--   Persona         the ids of frontend/src/design/tokens.ts and the seats of
--                   frontend/src/personas/registry.ts
--   Protocol        the events of frontend/src/lib/protocol.ts
--   Reducer         frontend/src/state/debateReducer.ts: reduceEvent, reduceControl, reduceStatus
--                   and debateReducer, with `run` for a sequence of inputs. Reducer/Transcript,
--                   Reducer/Invariant and Reducer/Phases hold the proofs
--   Reveal          nextChunkEnd of frontend/src/lib/textReveal.ts; Reveal/Laws its proofs
--   Player/State    the fields of DebatePlayer of frontend/src/state/debatePlayer.ts, the delays and
--                   the recording helpers
--   Player/Turns    its scheduler's step (prepareNextTurn, revealStep, flushPending)
--   Player          pump and its timer, feed, feedStatus, feedTransport and skipToLive
--   Player/Cases    the branches of a step, which the proofs split on
--   Player/Keeps, Player/Live, Player/Measure, Player/Drain, Player/Ending, Player/Rates
--                   what a step leaves alone, when it stops, why it ends, and what it then shows
--   Player/Heard, Player/Playhead, Player/Seats, Player/Fidelity
--                   the position of the replay and what was told up to it
--   Player/Session  the sequences of calls of one session, as an indexed data type
--   Player/Roster, Player/Solo, Player/Speaker
--                   who is on the roster while a session is replayed
--   Player/Mild, Player/Settled, Player/Over
--                   why a session that is over stays over
--   Player/Informed, Player/Told
--                   which rounds a player can tell of
--   Player/Screen, Player/Recording
--                   the screen against the recording, and the recording against the stream
--   Protocol/Ask    buildAsk of frontend/src/lib/protocol.ts, with Protocol/Ask/Laws
--   Protocol/Zod    what the same file uses of zod, as a parameter, with what zod documents of it
--   Protocol/Schema its schemas; Protocol/Schema/Rounds says which rounds they pass
--   Protocol/Parse  its parseEvent; JSON.parse and safeParse are parameters
--   Client          frontend/src/lib/wsClient.ts: ask, close, dispose and the four handlers, with
--                   every socket the client made; Client/Laws holds the proofs
--   Stage/Robot, Stage/Bubble, Stage/Camera
--                   frontend/src/three/robotVisualState.ts, bubbleContent.ts and cameraTarget.ts:
--                   what the stage derives from the reducer's state; Stage/Agreement compares them and
--                   Stage/Replay joins them with the player
--   Stage/Animation frontend/src/three/robotAnimation.ts, with the tests by which RobotPersona.tsx
--                   compares visual states and fires the flash
--   Stage/Shape     frontend/src/three/robotShape.ts
--   Scene/Three     what the scene uses of JavaScript's numbers and of Three, as one parameter
--   Scene/Tree      scenes as trees of groups, meshes and lights
--   Scene/Seating, Scene/Framing
--                   frontend/src/three/seating.ts and the coordinates of cameraTarget.ts
--   Scene/Head, Scene/Body, Scene/Motion
--                   frontend/src/three/RobotPersona.tsx with parts/RobotHead.tsx and GavelProp.tsx: the
--                   elements, the memo and the frame loop; Scene/Memo and Scene/Stillness their proofs
--   Scene/Chamber, Scene/Label, Scene/Council
--                   Chamber.tsx, PersonaLabel.tsx, StageScene.tsx, StageEffects.tsx and DebateStage.tsx
--                   of frontend/src/three; Scene/Cast says who is on the stage
--   Scene/Director  frontend/src/three/CameraDirector.tsx; Scene/Manners its proofs
--   Hooks/Spotlight frontend/src/state/useVerdictSpotlight.ts
--   Hooks/Frameloop frontend/src/three/useStageFrameloop.ts
--   Hooks/SmoothText
--                   frontend/src/hooks/useSmoothText.ts
--   Hooks/MediaQuery
--                   frontend/src/hooks/useMediaQuery.ts and usePrefersReducedMotion.ts
--   Debate          the hook of frontend/src/state/useDebate.ts with the player and every client that
--                   it made. Debate/Link is what it promises: a player and at most one connection.
--                   Debate/Wired, Debate/Seen, Debate/Asked and Debate/Delivered relate the two, and
--                   Debate/Refines, Debate/Stop, Debate/Replay and Debate/Over conclude; Debate/Lawful
--                   is what the callbacks do to a player that has ended. Debate/Bounded and
--                   Debate/Limits follow the rounds of the parsed frames to the screen
--   Sound           frontend/src/lib/sound.ts and frontend/src/hooks/useSound.ts; Sound/Laws its proofs
--   Ui/Html         elements, the handlers that matter, and what a viewer can click
--   Ui/Controls, Ui/QuestionForm
--                   frontend/src/components/controls, with frontend/src/data/topicPresets.ts
--   Ui/Status       frontend/src/components/status and overlay/StageAnnouncer.tsx
--   Ui/Transcript   frontend/src/components/transcript
--   Ui/Verdict      frontend/src/components/verdict/VerdictPanel.tsx and Header.tsx
--   Ui/Markdown     frontend/src/components/verdict/Markdown.tsx
--   Ui/Overlay      Docket, QuestionOverlay and StageControls of frontend/src/components/overlay
--   Ui/Layouts      frontend/src/components/StageLayout.tsx and MobileLayout.tsx
--   Ui/Debug        frontend/src/components/DebugView.tsx
--   Ui/Decimal      the numerals that the views print and read
--   Ui/Parts, Ui/Choices, Ui/Offers, Ui/TranscriptOffers, Ui/StageOffers, Ui/Rounds, Ui/Banner
--                   proofs on what the views offer and say
--   App             frontend/src/App.tsx: the state of the page, its handlers and its effects.
--                   App/Asking and App/Convening follow a question from the form to the screen;
--                   App/Handlers, App/Mounted, App/Composing and App/Folded are the stage's form
--                   and a live session
--   Prelude         tests, lists over native numbers, texts, and maps as association lists
--   Tests           the theorems at sample debates
--
-- How the model reads the code:
--   - A string is the list of its UTF-16 code units, and a Map or an object used as one is an
--     association list without order; a Set is a list without repetitions.
--   - A rate or a delay is an exact fraction that is not negative. The rounding of floating point,
--     NaN and negative multipliers are not modelled.
--   - The callback `dispatch` is the log `sent` of what it was called with. The reducer's state on
--     the screen is the run of the reducer over that log.
--   - A timer is the delay it was armed with; `fire` is its callback. Time itself is not modelled.
--   - The sentinels PARK and DONE are constructors of `Delay`; the index -1 is `none`.
--   - The loop of skipToLive runs on fuel, ten steps for each of the rounds recorded, two more, and
--     twenty: a drained turn takes two steps, and there are four turns in a round.
--   - An orderly stream (Player/Fidelity/Record) has no panelist's token for a round already
--     complete, no moderator's token after the verdict, and no round_complete after the verdict, a
--     terminal error or the close, which is the order in which the server means to send them.
--   - A number given to buildAsk is a whole one, a negative whole one, or one that isInteger refuses.
--   - The camera's target is a seat or the whole council; Scene/Framing gives it coordinates.
--   - An effect of a hook is a function on the hook's state, run when its phase changes.
--   - The WebSocket is the browser's: what it delivers, to any socket and in any order, is the
--     argument of `deliver`. A socket without handlers does nothing with it.
--
--   - A view is a tree of elements with the attributes that decide what a viewer can do and what is
--     read aloud; class names, styles, decoration, ids and refs are left out, and so is moving the
--     focus. A handler is the list of the messages that it sends.
--   - What `useState` keeps is an argument of the view, and its setter a handler. One step of the page
--     is one handler, timer or delivery; React renders once after it, and then the effects run.
--   - The text that useSmoothText shows, react-markdown's rendering and the canvas of the stage are
--     parameters of the page's views.
--   - The animation's numbers are whole, in hundred-thousandths, and the shapes' in hundredths; both
--     are exact.
--   - A tone is its numbers, in hundredths of a hertz, milliseconds and thousandths of the gain.
--
--   - The scene's numbers are those of a parameter: literals are fractions, and sine, easing and the
--     operations on vectors are its. Only what a proof names of them is assumed.
--
-- Not modelled: rendering, which is Three's and the browser's; style sheets, fonts and class names;
-- the call that mounts the page; and the Go server.
pub mod Prelude
pub mod Persona
pub mod Protocol
pub mod Reducer
pub mod Reveal
pub mod Player
pub mod App
pub mod Client
pub mod Debate
pub mod Hooks
pub mod Scene
pub mod Sound
pub mod Stage
pub mod Ui
pub mod Tests
