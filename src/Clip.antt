-- ===== src/Clip.antt =====
-- The domain types every other part speaks: clip/clip.go and clip/errors.go.
pub mod Errors
pub mod Name
pub mod Meta
