-- ===== src/Scene.antt =====
-- The 3D stage: the scene that frontend/src/three builds and what moves in it.
pub mod Three
pub mod Tree
pub mod Seating
pub mod Framing
pub mod Head
pub mod Body
pub mod Chamber
pub mod Label
pub mod Council
pub mod Motion
pub mod Director
pub mod Memo
pub mod Stillness
pub mod Cast
pub mod Manners
