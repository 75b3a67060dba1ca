-- ===== src/Network/Codec.antt =====
-- internal/network/codec.go: the frames that carry envelopes. Names are numbers. The protobuf and
-- ed25519 libraries are a record of operations, which Codec.Frames gives the laws of.
pub mod Frames
pub mod Signatures
use decentralized_poker_engi.Common.{
  ℕ, ◌-◌, ◌%◌, Bool, true, false, not, Option, none, some, List, [], ◌∷◌, ◌++◌, length, take, drop,
  ltb, ◌==◌, if◌then◌else◌,
}
use decentralized_poker_engi.Crypto.Bytes.{set_bytes}
use decentralized_poker_engi.Network.Gamelog.{Envelope, big_endian}

abbrev pub max_message_size : ℕ
max_message_size = 4194304

-- What the libraries do: the bytes of a name, Marshal and Unmarshal, Sign and Verify.
pub record Libraries : Type 0 where
  pub text : ℕ → List ℕ
  pub marshal : Envelope → Option (List ℕ)
  pub unmarshal : List ℕ → Option Envelope
  pub sign : ℕ → List ℕ → List ℕ
  pub verifies : ℕ → List ℕ → List ℕ → Bool

-- How the receiver finds a sender's key.
pub data KeyLookup : Type 0 where
  failed absent : KeyLookup
  found : ℕ → KeyLookup

module _ (lib : Libraries) where
  unfoldable pub envelope_sign_bytes : Envelope → List ℕ
  envelope_sign_bytes env =
      env.kind % 256
      ∷ (lib.text env.sender_id
          ++ 0 ∷ (big_endian 8 env.seq ++ (big_endian 8 env.timestamp ++ env.payload)))

  unfoldable pub signed : Envelope → ℕ → Envelope
  signed env priv_key = record env { signature = lib.sign priv_key (envelope_sign_bytes env) }

  -- The frame of the envelope with the signature.
  unfoldable pub frame_of : Envelope → Option (List ℕ)
  frame_of env = elim (lib.marshal env) [
    | none ↦ none
    | some b ↦ if ltb max_message_size (length b) then none else some (big_endian 4 (length b) ++ b)
  ]

  -- The envelope, which has its signature afterwards, and the frame.
  unfoldable pub encode_envelope : Envelope → ℕ → Envelope × Option (List ℕ)
  encode_envelope env priv_key = let env' = signed env priv_key in (env', frame_of env')

  -- Whether the signature is no reason to refuse the envelope.
  unfoldable pub is_admitted : Option (ℕ → KeyLookup) → Envelope → Bool
  is_admitted none env = true
  is_admitted (some key_of) env =
      if length env.signature == 0 then true else elim (key_of env.sender_id) [
        | failed ↦ false
        | absent ↦ true
        | found pub_key ↦ lib.verifies pub_key (envelope_sign_bytes env) env.signature
      ]

  unfoldable pub decode_envelope : Option (ℕ → KeyLookup) → List ℕ → Option Envelope
  decode_envelope pub_key_fn frame =
      let msg_len = set_bytes (take 4 frame) in
      if ltb (length frame) 4
      then none
      else if ltb max_message_size msg_len
      then none
      else if ltb (length frame - 4) msg_len
      then none
      else elim (lib.unmarshal (take msg_len (drop 4 frame))) [
        | none ↦ none
        | some env ↦ if is_admitted pub_key_fn env then some env else none
      ]

unfoldable pub new_envelope : ℕ → ℕ → ℕ → ℕ → List ℕ → Envelope
new_envelope kind sender_id seq now payload = record {
  kind = kind;
  sender_id = sender_id;
  seq = seq;
  timestamp = now;
  payload = payload;
  signature = [];
}
