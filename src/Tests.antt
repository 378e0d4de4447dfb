-- ===== src/Tests.antt =====
-- Concrete runs of the modelled code, and the theorems at inputs that meet their hypotheses.
mod Session
mod Reducer
mod Player
mod Stage
mod Hooks
mod Protocol
mod Client
mod Replay
mod Debate
mod Zod
mod Ui
mod Sound
mod Scene
mod App
