-- ===== src/Crypto.antt =====
-- The code of internal/crypto: keys, proofs, and the shuffle and deal protocols.
pub mod Modular
pub mod Bytes
pub mod Sra
pub mod Zkp
pub mod Params
pub mod Commit
pub mod Deal
pub mod Shuffle
pub mod CryptoGame
pub mod Keyring
pub mod ShuffleSession
pub mod DealSession
pub mod Tests
