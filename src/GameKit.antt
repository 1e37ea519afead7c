-- ===== src/GameKit.antt =====
-- packages/game-kit/src: the parts of the game kit that keep a state of their own.
pub mod Turns
mod Letters
mod Tests
