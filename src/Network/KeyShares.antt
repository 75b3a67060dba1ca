-- ===== src/Network/KeyShares.antt =====
-- internal/network/codec.go: the message that carries a share of a key, in protobuf's encoding. The
-- functions of protowire are a record of operations; names are numbers, and 0 is the empty one. A
-- hand is a pattern of 64 bits, an index one of 32.
pub mod RoundTrip
use decentralized_poker_engi.Common.{
  ℕ, zero, suc, ◌+◌, ◌%◌, Bool, true, false, Option, none, some, List, [], ◌∷◌, ◌++◌, length, drop,
  ltb, ◌==◌, if◌then◌else◌,
}
use decentralized_poker_engi.Crypto.Bytes.{bytes, set_bytes}
use decentralized_poker_engi.Fault.Shares.{ShamirShare}

pub record KeyShare : Type 0 where
  pub table_id : ℕ
  pub hand_num : ℕ
  pub owner_id : ℕ
  pub index : ℕ
  pub value : List ℕ

pub data WireType : Type 0 where
  varint_type bytes_type other_type : WireType

-- The Append functions, and the Consume functions with the number of bytes read: a negative number is
-- `none`.
pub record ProtoWire : Type 0 where
  pub append_tag : List ℕ → ℕ → WireType → List ℕ
  pub append_string : List ℕ → ℕ → List ℕ
  pub append_varint : List ℕ → ℕ → List ℕ
  pub append_bytes : List ℕ → List ℕ → List ℕ
  pub consume_tag : List ℕ → Option (ℕ × WireType × ℕ)
  pub consume_string : List ℕ → Option (ℕ × ℕ)
  pub consume_varint : List ℕ → Option (ℕ × ℕ)
  pub consume_bytes : List ℕ → Option (List ℕ × ℕ)
  pub consume_field_value : ℕ → WireType → List ℕ → Option ℕ

-- 2 ^ 31 and 2 ^ 32.
abbrev pub half32 : ℕ
half32 = 2147483648

abbrev pub word32 : ℕ
word32 = 4294967296

-- `uint64` of an int32, by its sign.
unfoldable pub sign_extend : ℕ → ℕ
sign_extend v = if ltb v half32 then v else v + 18446744069414584320

unfoldable pub key_share_to_wire : ℕ → ℕ → ℕ → ShamirShare → KeyShare
key_share_to_wire table_id hand owner_id share = record {
  table_id = table_id;
  hand_num = hand;
  owner_id = owner_id;
  index = share.index % word32;
  value = bytes share.value;
}

abbrev pub empty_share : KeyShare
empty_share = record { table_id = 0; hand_num = 0; owner_id = 0; index = 0; value = [] }

abbrev pub is_bytes : WireType → Bool
is_bytes varint_type = false
is_bytes bytes_type = true
is_bytes other_type = false

abbrev pub is_varint : WireType → Bool
is_varint varint_type = true
is_varint bytes_type = false
is_varint other_type = false

-- What UnmarshalKeyShare returns; `out_of_fuel` is no Go value.
pub data Unmarshalled : Type 0 where
  share_read : KeyShare → Unmarshalled
  bad_bytes out_of_fuel : Unmarshalled

module _ (w : ProtoWire) where
  -- One field that is not empty, at the end of the bytes.
  unfoldable pub put_name : ℕ → ℕ → List ℕ → List ℕ
  put_name num name b =
      if name == 0 then b else w.append_string (w.append_tag b num bytes_type) name

  unfoldable pub put_number : ℕ → ℕ → List ℕ → List ℕ
  put_number num v b = if v == 0 then b else w.append_varint (w.append_tag b num varint_type) v

  unfoldable pub put_value : ℕ → List ℕ → List ℕ → List ℕ
  put_value num v b = if length v == 0 then b else w.append_bytes (w.append_tag b num bytes_type) v

  unfoldable pub marshal_key_share : KeyShare → List ℕ
  marshal_key_share msg = put_value 5 msg.value (
      put_number 4 (sign_extend msg.index)
        (put_name 3 msg.owner_id (put_number 2 msg.hand_num (put_name 1 msg.table_id []))))

  -- The switch: the message with the field, and the number of bytes read.
  unfoldable pub read_field : ℕ → WireType → List ℕ → KeyShare → Option (KeyShare × ℕ)
  read_field num typ b msg =
      if (if num == 1 then is_bytes typ else false)
      then elim (w.consume_string b) [
        | none ↦ none
        | some (s, n) ↦ some (record msg { table_id = s }, n)
      ]
      else if (if num == 2 then is_varint typ else false)
      then elim (w.consume_varint b) [
        | none ↦ none
        | some (v, n) ↦ some (record msg { hand_num = v }, n)
      ]
      else if (if num == 3 then is_bytes typ else false)
      then elim (w.consume_string b) [
        | none ↦ none
        | some (s, n) ↦ some (record msg { owner_id = s }, n)
      ]
      else if (if num == 4 then is_varint typ else false)
      then elim (w.consume_varint b) [
        | none ↦ none
        | some (v, n) ↦ some (record msg { index = v % word32 }, n)
      ]
      else if (if num == 5 then is_bytes typ else false)
      then elim (w.consume_bytes b) [
        | none ↦ none
        | some (v, n) ↦ some (record msg { value = v }, n)
      ]
      else elim (w.consume_field_value num typ b) [ none ↦ none | some n ↦ some (msg, n) ]

  -- The loop, with as much fuel as rounds are allowed.
  unfoldable pub read_fields : ℕ → List ℕ → KeyShare → Unmarshalled
  read_fields fuel [] msg = share_read msg
  read_fields zero (x ∷ xs) msg = out_of_fuel
  read_fields (suc fuel) (x ∷ xs) msg = elim (w.consume_tag (x ∷ xs)) [
    | none ↦ bad_bytes
    | some (num, typ, n) ↦ elim (read_field num typ (drop n (x ∷ xs)) msg) [
      | none ↦ bad_bytes
      | some (msg', k) ↦ read_fields fuel (drop k (drop n (x ∷ xs))) msg'
    ]
  ]

  -- A tag takes a byte at least, so there are no more rounds than bytes.
  unfoldable pub unmarshal_key_share : List ℕ → Unmarshalled
  unmarshal_key_share b = read_fields (length b) b empty_share
