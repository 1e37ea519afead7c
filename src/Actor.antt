-- ===== src/Actor.antt =====
-- packages/actor-system/src: messages, the in-memory awaiter, lock and queue, and the processing of a
-- queue.
pub mod Message
pub mod Awaiter
pub mod Lock
pub mod Queue
pub mod Process
