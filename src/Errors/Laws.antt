-- ===== src/Errors/Laws.antt =====
-- What `errors.Is` and `errors.AsType` find in an error after all layers have wrapped it.
pub mod Sentinels
pub mod Publish
pub mod Replies
pub mod Public
pub mod Some
