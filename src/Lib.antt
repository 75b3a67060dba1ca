-- ===== src/Lib.antt =====
-- A verification library for the poker engine: what the code of internal/game, internal/fault,
-- internal/crypto, parts of internal/network and the settings of config do, translated definition by
-- definition, and what follows from it.
--
-- The program plays Texas hold'em between peers. internal/game holds one hand: a GameState, and a
-- Machine whose methods change it and return an error. The machine runs in two ways: with a local
-- deck, or in crypto mode (a nil deck), where the cards come from outside by ApplyStreet and
-- ApplyHoleReveal. internal/fault watches the peers: heartbeats, votes on timeouts, key shares of
-- peers that left, and records of violations. internal/crypto replaces the dealer: each player in turn
-- encrypts and permutes the deck (ShuffleProtocol, and ShuffleSession for one node), and cards are
-- revealed by taking the players' layers off one after the other, with proofs (DealProtocol, and
-- DealSession for one node). CryptoGame joins the two. The lobby of internal/network seats the players
-- of a hand before it starts and gives their order; the game log keeps the messages of the hand. A Node
-- decodes the signed envelopes that arrive on the table topic, on the heartbeat topic and on direct
-- streams, drops those that repeat an old number, logs them and hands them on; the codec frames them.
-- A CryptoHand drives the two sessions of a hand: it buffers messages that come early, collects what
-- has to be sent, and peels for players who are gone.
--
-- Files, and the code that each models:
--   Common and its children: tests, lists and maps that the other files share.
--   Int64: the arithmetic of Go's int64 on bit patterns, with its wrap-around.
--   Game/Cards (internal/game/deck.go), Game/Player (player.go), Game/Pots (pot.go),
--   Game/Hand (hand_eval.go), Game/State (state.go).
--   Game/Machine (machine.go): Dealing (StartHand, StartHandCrypto, blinds, hole cards), Actions
--   (ApplyAction), Rounds (betting rounds and streets), Showdown (winners and payment), Crypto
--   (ApplyStreet, ApplyHoleReveal).
--   Fault/Heartbeat (internal/fault/heartbeat.go), Fault/Timeout (timeout.go), Fault/Shares
--   (shamir.go), Fault/Slash (slash.go), Fault/Manager (manager.go).
--   Crypto/Sra (internal/crypto/sra.go), Crypto/Params (params.go), Crypto/Commit (commit.go),
--   Crypto/Zkp (zkp.go), Crypto/Shuffle (shuffle.go), Crypto/Deal and Deal/Protocol (deal.go),
--   Crypto/CryptoGame (crypto_game.go), Crypto/Keyring (keyring.go), Crypto/ShuffleSession
--   (shuffle_session.go), Crypto/DealSession (deal_session.go) with its Jobs, Peels, Calls and
--   Dealt (the cards). Crypto/Modular and Crypto/Bytes are the operations of math/big.
--   Network/Lobby (internal/network/lobby.go), Network/Gamelog (gamelog.go), Network/Codec and
--   Network/KeyShares (codec.go), Network/Protocol (protocol.go), Network/Node (node.go, gossip.go)
--   with its Scan (fault_adaptor.go, internal/fault/types.go),
--   Network/CryptoHand (crypto_hand.go, liveness.go) with its Shuffles and Deals, Network/Advance
--   (AdvanceCrypto of crypto_hand.go), Network/Coordinator (coordinator.go).
--   Config (config/config.go and the environment of config/loader.go).
-- The children of a file hold what is proved about it; Game/Tests, Fault/Tests,
-- Crypto/Tests, Network/Tests and Config/Tests apply the results at concrete inputs.
--
-- A struct is a record, with Go's field names in snake_case; a method takes the state and returns the
-- next one with an outcome (ok, an error, a panic). What was written before an error stays written.
-- A pointer to a player is the position in the slice of players, each of which is its own player. An
-- index of -1 is `none`. Identifiers of players and peers are only compared, so they are numbers (in
-- the order of the strings, where the lobby sorts by them). Chips are int64 patterns; ints that count
-- or index are plain numbers.
--
-- Outside code: a random generator is the list of swaps that its Shuffle makes; `sort.Slice` is the
-- insertion sort that Go runs on up to twelve elements (the keys of the lobby's seats all differ, so
-- there every sort gives the same list); the times of time.Now are arguments; callbacks are results;
-- the order of a visit of a map is that of a list. SHA-256, the inverse, the greatest common divisor and
-- the primality test of math/big, and every random choice are arguments; reading random bytes does not
-- fail. protobuf, protowire and ed25519 are records of operations, with what is documented of them as
-- hypotheses: what is marshalled is unmarshalled again, what is signed is verified, and a tag of a
-- valid field number is read back. That a modulus is prime enters as Fermat's little theorem for it
-- (Modular.IsFermat).
--
-- Bounds: endBettingRound, dealFlop, dealTurn, dealRiver and startNewBettingRound call one another,
-- at most once for each street, so the model allows four calls of endBettingRound. In a DealSession a
-- local step may end a job and start the next, whose first step may be local again: the model allows
-- the peels left of the job and, for each later one, a step for every seat and one more. The loops
-- over the kept messages have a round for each seat and one more. The loop of
-- TryDelegatedPeels has the same bound as the local steps, since each of its peels is one of them.
-- AdvanceCrypto has six rounds, since each street makes a board of fewer than five cards longer.
-- Streams and fields are read with a round for each byte. Every other loop is a recursion on a list or
-- on the rounds left.
--
-- Not modelled: the stop of serialiseDeck at a card that has more bytes than lie before it and in its
-- cell (a card of more than 256 bytes overwrites what is before it, as in the code), display strings, locks and goroutines (a callback that runs as a goroutine is a
-- step), libp2p and what publishes, sends or ticks, the copies between crypto types and protobuf types,
-- the chain client and contract, the terminal interface and the command.
pub mod Common
pub mod Int64
pub mod Game
pub mod Fault
pub mod Crypto
pub mod Network
pub mod Config
