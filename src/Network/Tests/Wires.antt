-- ===== src/Network/Tests/Wires.antt =====
-- Concrete libraries that keep what their documents promise, with a number for a byte, and the results
-- on frames and shares applied to them.
use decentralized_poker_engi.Common.{
  ℕ, zero, suc, ◌≡◌, refl, ap, arith, true, inl, Option, none, some, List, [], ◌∷◌, ◌++◌, length,
  take, drop, take-append, drop-append,
}
use decentralized_poker_engi.Crypto.Commit.{equal_bytes}
use decentralized_poker_engi.Network.Gamelog.{Envelope, big_endian}
use decentralized_poker_engi.Network.Codec.{
  Libraries, failed, found, signed, frame_of, encode_envelope, envelope_sign_bytes, decode_envelope,
}
use decentralized_poker_engi.Network.Codec.Frames.{
  AreLibraries, decode-encode_envelope, decode_envelope_unverified,
}
use decentralized_poker_engi.Network.Codec.Signatures.{envelope_sign_bytes_once, SaySame}
use decentralized_poker_engi.Network.Protocol.{read_all}
use decentralized_poker_engi.Network.Protocol.Order.{all_signed, read_all-sent}
use decentralized_poker_engi.Network.KeyShares.{
  KeyShare, WireType, varint_type, bytes_type, other_type, ProtoWire, share_read, marshal_key_share,
  unmarshal_key_share,
}
use decentralized_poker_engi.Network.KeyShares.RoundTrip.{IsProtoWire, unmarshal-marshal_key_share}

abbrev write : Envelope → Option (List ℕ)
write env = some (
    env.kind
    ∷ env.sender_id
    ∷ env.seq
    ∷ env.timestamp
    ∷ length env.payload
    ∷ (env.payload ++ env.signature))

abbrev read : List ℕ → Option Envelope
read (kind ∷ sender ∷ seq ∷ time ∷ n ∷ rest) = some (record {
  kind = kind;
  sender_id = sender;
  seq = seq;
  timestamp = time;
  payload = take n rest;
  signature = drop n rest;
})
read _ = none

-- A signature is the text after the key.
abbrev pub libraries : Libraries
libraries = record {
  text = λ n. suc n ∷ [];
  marshal = write;
  unmarshal = read;
  sign = λ key text. key ∷ text;
  verifies = λ key text signature. equal_bytes signature (key ∷ text);
}

read-write : (env : Envelope) (b : List ℕ) → write env ≡ some b → read b ≡ some env
read-write env b h =
    ground (arith, h, take-append env.payload env.signature, drop-append env.payload env.signature)

equal_bytes_refl : (xs : List ℕ) → equal_bytes xs xs ≡ true
equal_bytes_refl [] = refl
equal_bytes_refl (x ∷ xs) = ground (arith, equal_bytes_refl xs)

are_libraries : AreLibraries libraries (λ key. key)
are_libraries = record { reads = read-write; accepts = λ key text. equal_bytes_refl (key ∷ text) }

abbrev pub hello : Envelope
hello = record {
  kind = 2;
  sender_id = 4;
  seq = 1;
  timestamp = 99;
  payload = 7 ∷ 8 ∷ [];
  signature = [];
}

abbrev pub hello_bytes : List ℕ
hello_bytes = 2 ∷ 4 ∷ 1 ∷ 99 ∷ 2 ∷ 7 ∷ 8 ∷ []

abbrev hello_signature : List ℕ
hello_signature =
    6 ∷ 2 ∷ 5 ∷ 0 ∷ 0 ∷ 0 ∷ 0 ∷ 0 ∷ 0 ∷ 0 ∷ 0 ∷ 1 ∷ 0 ∷ 0 ∷ 0 ∷ 0 ∷ 0 ∷ 0 ∷ 0 ∷ 99 ∷ 7 ∷ 8 ∷ []

abbrev hello_frame : List ℕ
hello_frame = 0 ∷ 0 ∷ 0 ∷ 29 ∷ (hello_bytes ++ hello_signature)

hello_encoded : (encode_envelope libraries hello 6).1 ≡ some hello_frame
unfolding encode_envelope signed frame_of envelope_sign_bytes big_endian
hello_encoded = refl

decode-encode_envelope_example :
    decode_envelope libraries (some (λ sender. found 6)) (hello_frame ++ 5 ∷ [])
    ≡ some (encode_envelope libraries hello 6).0
decode-encode_envelope_example =
    decode-encode_envelope libraries (λ key. key) are_libraries hello 6 hello_frame (5 ∷ [])
      (some (λ sender. found 6)) (inl refl) hello_encoded

decode_envelope_unverified_example :
    decode_envelope libraries (some (λ sender. failed)) (big_endian 4 7 ++ hello_bytes) ≡ some hello
decode_envelope_unverified_example =
    decode_envelope_unverified libraries hello hello_bytes (λ sender. failed) (inl refl) refl
      (omega arith)

envelope_sign_bytes_once_example : SaySame hello (signed libraries hello 6)
unfolding signed envelope_sign_bytes
envelope_sign_bytes_once_example =
    envelope_sign_bytes_once libraries hello (signed libraries hello 6) (omega arith) (omega arith)
      (omega arith) (omega arith) (omega arith) (omega arith) (omega arith) (omega arith)
      (λ h. refl) refl

read_all-sent_example :
    read_all libraries (hello_frame ++ hello_frame) ≡ all_signed libraries (hello ∷ hello ∷ []) 6
unfolding signed envelope_sign_bytes big_endian
read_all-sent_example =
    read_all-sent libraries (λ key. key) are_libraries (hello ∷ hello ∷ []) 6
      (hello_frame ++ hello_frame)
      (
        hello_bytes ++ hello_signature,
        hello_frame,
        refl,
        (λ h. cc),
        omega arith,
        refl,
        (hello_bytes ++ hello_signature, [], refl, (λ h. cc), omega arith, refl, refl),
      )

abbrev type_code : WireType → ℕ
type_code varint_type = 0
type_code bytes_type = 2
type_code other_type = 5

abbrev type_of : ℕ → WireType
type_of zero = varint_type
type_of (suc zero) = other_type
type_of (suc (suc zero)) = bytes_type
type_of (suc (suc (suc n))) = other_type

abbrev consume_pair : List ℕ → Option (ℕ × WireType × ℕ)
consume_pair (num ∷ code ∷ rest) = some (num, type_of code, 2)
consume_pair _ = none

abbrev consume_one : List ℕ → Option (ℕ × ℕ)
consume_one (v ∷ rest) = some (v, 1)
consume_one [] = none

abbrev consume_counted : List ℕ → Option (List ℕ × ℕ)
consume_counted (n ∷ rest) = some (take n rest, suc n)
consume_counted [] = none

abbrev wire : ProtoWire
wire = record {
  append_tag = λ b num typ. b ++ num ∷ type_code typ ∷ [];
  append_string = λ b s. b ++ s ∷ [];
  append_varint = λ b v. b ++ v ∷ [];
  append_bytes = λ b v. b ++ length v ∷ v;
  consume_tag = consume_pair;
  consume_string = consume_one;
  consume_varint = consume_one;
  consume_bytes = consume_counted;
  consume_field_value = λ num typ b. none;
}

type_back : (typ : WireType) → type_of (type_code typ) ≡ typ
type_back varint_type = refl
type_back bytes_type = refl
type_back other_type = refl

is_proto_wire : IsProtoWire wire
is_proto_wire = record {
  tag_appends = λ b num typ valid. refl;
  string_appends = λ b s. refl;
  varint_appends = λ b v h. refl;
  bytes_appends = λ b v h. refl;
  tag_reads = λ num typ rest valid used. ap (λ t. some (num, t, 2)) (type_back typ);
  tag_some = λ num typ valid. omega arith;
  string_reads = λ s rest. refl;
  varint_reads = λ v rest h. refl;
  bytes_reads = λ v rest h. ap (λ t. some (t, suc (length v))) (take-append v rest);
}

-- The index is -1.
abbrev minus_one : KeyShare
minus_one = record {
  table_id = 3;
  hand_num = 0;
  owner_id = 5;
  index = 4294967295;
  value = 1 ∷ 2 ∷ [];
}

unmarshal-marshal_key_share_example :
    unmarshal_key_share wire (marshal_key_share wire minus_one) ≡ share_read minus_one
unmarshal-marshal_key_share_example =
    unmarshal-marshal_key_share wire is_proto_wire minus_one
      (record { hand = omega arith; index = omega arith; value = (omega arith, (omega arith, tt)) })
