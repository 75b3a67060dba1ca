-- ===== src/Network/Protocol.antt =====
-- internal/network/protocol.go: what the handler of a stream makes of the bytes that a peer sends, in
-- one piece. Opening, closing and writing streams is libp2p's.
pub mod Order
use decentralized_poker_engi.Common.{
  ℕ, zero, suc, ◌+◌, ◌-◌, Bool, true, false, Option, none, some, List, [], ◌∷◌, ◌++◌, length, take,
  drop, ltb, ◌==◌, if◌then◌else◌,
}
use decentralized_poker_engi.Crypto.Bytes.{set_bytes}
use decentralized_poker_engi.Network.Gamelog.{Envelope}
use decentralized_poker_engi.Network.Codec.{Libraries, max_message_size, decode_envelope}

module _ (lib : Libraries) where
  -- One frame, without a signature check; one that is not decoded is passed over.
  unfoldable pub handled : List ℕ → List Envelope
  handled frame = elim (decode_envelope lib none frame) [ none ↦ [] | some env ↦ env ∷ [] ]

  -- The envelopes that are handed on, with as much fuel as rounds are allowed.
  unfoldable pub read_stream : ℕ → List ℕ → List Envelope
  read_stream zero bytes = []
  read_stream (suc fuel) bytes =
      let msg_len = set_bytes (take 4 bytes) in
      let rest = read_stream fuel (drop (4 + msg_len) bytes) in
      if ltb (length bytes) 4
      then []
      else if msg_len == 0
      then []
      else if ltb max_message_size msg_len
      then []
      else if ltb (length bytes - 4) msg_len
      then []
      else handled (take (4 + msg_len) bytes) ++ rest

  -- A round takes four bytes at least, so there are no more rounds than bytes.
  unfoldable pub read_all : List ℕ → List Envelope
  read_all bytes = read_stream (length bytes) bytes
