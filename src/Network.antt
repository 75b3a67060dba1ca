-- ===== src/Network.antt =====
-- The code of internal/network: the lobby, the log, the codec, the node and the driver of a hand.
pub mod Lobby
pub mod Gamelog
pub mod Codec
pub mod Protocol
pub mod KeyShares
pub mod Node
pub mod CryptoHand
pub mod Advance
pub mod Coordinator
mod Tests
