-- ===== src/Service.antt =====
-- The HTTP service: what it answers, how it forwards to the leader, and its handlers.
pub mod Answers
pub mod Forward
pub mod Keys
pub mod Rafts
pub mod Routes
pub mod Once
pub mod Forwarded
pub mod Posts
pub mod Joins
pub mod Saved
pub mod Shown
