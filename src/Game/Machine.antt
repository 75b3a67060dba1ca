-- ===== src/Game/Machine.antt =====
-- internal/game/machine.go, by the parts of a hand.
pub mod Showdown
pub mod Rounds
pub mod Actions
pub mod Dealing
pub mod Crypto
