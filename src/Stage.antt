-- ===== src/Stage.antt =====
-- The views that the 3D stage derives from the debate's state: the robots, their bubbles and the
-- camera's target, in the modules of the same names. `Stage.Agreement` compares them.
pub mod Robot
pub mod Bubble
pub mod Camera
pub mod Agreement
pub mod Replay
pub mod Animation
pub mod Shape
