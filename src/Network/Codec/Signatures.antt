-- ===== src/Network/Codec/Signatures.antt =====
-- What a signature determines of an envelope.
use decentralized_poker_engi.Common.{
  ℕ, ◌%◌, ◌<◌, ◌≡◌, ◌≢◌, refl, sym, ap, ◌∙◌, arith, List, [], ◌∷◌, ◌++◌, take, drop, All,
}
use decentralized_poker_engi.Int64.{word}
use decentralized_poker_engi.Crypto.Bytes.{set_bytes, set_bytes_from}
use decentralized_poker_engi.Network.Gamelog.{Envelope, big_endian}
use decentralized_poker_engi.Network.Codec.{Libraries, envelope_sign_bytes}

-- The bytes of a name hold no zero.
abbrev pub HasNoZero : List ℕ → Type 0
HasNoZero = All (λ b. b ≢ 0)

-- What stands before the first zero, and what after it, is determined.
split_at_zero :
    (xs ys us vs : List ℕ)
    → HasNoZero xs
    → HasNoZero us
    → xs ++ 0 ∷ ys ≡ us ++ 0 ∷ vs
    → (xs ≡ us) × (ys ≡ vs)
split_at_zero [] ys [] vs hx hu e = (refl, ap (drop 1) e)
split_at_zero [] ys (u ∷ us) vs hx hu e = let head : u ≡ 0 = ground arith in absurd (hu.0 head)
split_at_zero (x ∷ xs) ys [] vs hx hu e = let head : x ≡ 0 = ground arith in absurd (hx.0 head)
split_at_zero (x ∷ xs) ys (u ∷ us) vs hx hu e =
    let head : x ≡ u = ground arith in
    let (front, back) = split_at_zero xs ys us vs hx.1 hu.1 (ap (drop 1) e) in
    (ground (arith, head, front), back)

take_eight : (v : ℕ) (rest : List ℕ) → take 8 (big_endian 8 v ++ rest) ≡ big_endian 8 v
unfolding big_endian
take_eight v rest = refl

drop_eight : (v : ℕ) (rest : List ℕ) → drop 8 (big_endian 8 v ++ rest) ≡ rest
unfolding big_endian
drop_eight v rest = refl

set_bytes-big_endian8 : (v : ℕ) → v < word → set_bytes (big_endian 8 v) ≡ v
unfolding big_endian set_bytes set_bytes_from
set_bytes-big_endian8 v h = omega arith

-- Two numbers of 64 bits with what follows them.
split_eight :
    (v w : ℕ) (xs ys : List ℕ)
    → v < word
    → w < word
    → big_endian 8 v ++ xs ≡ big_endian 8 w ++ ys
    → (v ≡ w) × (xs ≡ ys)
split_eight v w xs ys hv hw e =
    let same : big_endian 8 v ≡ big_endian 8 w =
      sym (take_eight v xs) ∙ ap (take 8) e ∙ take_eight w ys in
    (
      sym (set_bytes-big_endian8 v hv) ∙ ap set_bytes same ∙ set_bytes-big_endian8 w hw,
      sym (drop_eight v xs) ∙ ap (drop 8) e ∙ drop_eight w ys,
    )

-- The fields of an envelope that a signature is to cover are the same.
abbrev pub SaySame : Envelope → Envelope → Type 0
SaySame a b =
    (a.kind ≡ b.kind)
    × (a.sender_id ≡ b.sender_id)
    × (a.seq ≡ b.seq)
    × (a.timestamp ≡ b.timestamp)
    × (a.payload ≡ b.payload)

-- Two envelopes whose signed bytes are the same say the same: no signature of one message is that of
-- another. The types are below 256, the numbers have 64 bits, and the names of the two senders have no
-- zero byte and differ if the senders do. Types 1 and 257 share their byte, so the first is needed.
pub envelope_sign_bytes_once :
    (lib : Libraries) (a b : Envelope)
    → a.kind < 256
    → b.kind < 256
    → a.seq < word
    → b.seq < word
    → a.timestamp < word
    → b.timestamp < word
    → HasNoZero (lib.text a.sender_id)
    → HasNoZero (lib.text b.sender_id)
    → (lib.text a.sender_id ≡ lib.text b.sender_id → a.sender_id ≡ b.sender_id)
    → envelope_sign_bytes lib a ≡ envelope_sign_bytes lib b
    → SaySame a b
unfolding envelope_sign_bytes
envelope_sign_bytes_once lib a b ka kb sa sb ta tb za zb named e =
    let (texts, after) =
      split_at_zero (lib.text a.sender_id)
        (big_endian 8 a.seq ++ (big_endian 8 a.timestamp ++ a.payload)) (lib.text b.sender_id)
        (big_endian 8 b.seq ++ (big_endian 8 b.timestamp ++ b.payload)) za zb (ap (drop 1) e) in
    let (seqs, times) =
      split_eight a.seq b.seq (big_endian 8 a.timestamp ++ a.payload)
        (big_endian 8 b.timestamp ++ b.payload) sa sb after in
    let (stamps, payloads) = split_eight a.timestamp b.timestamp a.payload b.payload ta tb times in
    let kinds : a.kind % 256 ≡ b.kind % 256 = ground (arith, e) in
    (omega (arith, kinds), named texts, seqs, stamps, payloads)
