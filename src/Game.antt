-- ===== src/Game.antt =====
-- The poker engine: internal/game.
pub mod Cards
pub mod Player
pub mod Pots
pub mod Hand
pub mod State
pub mod Machine
mod Tests
