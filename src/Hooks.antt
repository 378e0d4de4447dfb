-- ===== src/Hooks.antt =====
-- The hooks that keep a little state of their own beside the debate's, as step functions: what React
-- runs as an effect is a function from the hook's state to its next one.
pub mod Spotlight
pub mod Frameloop
pub mod SmoothText
pub mod MediaQuery
