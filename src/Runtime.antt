-- ===== src/Runtime.antt =====
-- app/runtime: the heartbeats of entities, and the replacement of those that are lost.
pub mod Health
pub mod Reallocator
pub mod Watch
