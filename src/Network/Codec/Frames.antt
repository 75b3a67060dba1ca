-- ===== src/Network/Codec/Frames.antt =====
-- Envelopes that are encoded and decoded again, and what a signature determines.
use decentralized_poker_engi.Common.{
  ℕ, zero, suc, ◌+◌, ◌-◌, ◌≤◌, ◌<◌, ◌≡◌, refl, ap, subst, ◌∙◌, arith, true, false, inl, inr, Option,
  Option-cases, none, some, List, [], ◌++◌, length, length-append, ◌⊎◌, take, drop, take-append,
  ltb,
}
use mathlib.Core.List.{append-nil, append_assoc}
use decentralized_poker_engi.Crypto.Bytes.{set_bytes, set_bytes_from}
use decentralized_poker_engi.Network.Gamelog.{Envelope, big_endian}
use decentralized_poker_engi.Network.Codec.{
  Libraries, KeyLookup, absent, found, max_message_size, envelope_sign_bytes, signed, frame_of,
  encode_envelope, is_admitted, decode_envelope,
}

-- What the documents of the libraries promise: Unmarshal reads back what Marshal writes, and Verify
-- accepts what Sign makes with the other key of the pair, which `public` gives.
pub record AreLibraries (lib : Libraries) (public : ℕ → ℕ) : Type 0 where
  pub reads : (env : Envelope) (b : List ℕ) → lib.marshal env ≡ some b → lib.unmarshal b ≡ some env
  pub accepts :
      (key : ℕ) (text : List ℕ) → lib.verifies (public key) text (lib.sign key text) ≡ true

pub length-big_endian : (n v : ℕ) → length (big_endian n v) ≡ n
unfolding big_endian
length-big_endian zero v = refl
length-big_endian (suc n) v = ap suc (length-big_endian n v)

-- The length of a message is read back from the four bytes in front of it.
pub set_bytes-big_endian : (v : ℕ) → v < 4294967296 → set_bytes (big_endian 4 v) ≡ v
unfolding big_endian set_bytes set_bytes_from
set_bytes-big_endian v h = omega arith

pub take_four : (v : ℕ) (rest : List ℕ) → take 4 (big_endian 4 v ++ rest) ≡ big_endian 4 v
unfolding big_endian
take_four v rest = refl

drop_four : (v : ℕ) (rest : List ℕ) → drop 4 (big_endian 4 v ++ rest) ≡ rest
unfolding big_endian
drop_four v rest = refl

pub length-four : (v : ℕ) (rest : List ℕ) → length (big_endian 4 v ++ rest) ≡ 4 + length rest
unfolding big_endian
length-four v rest = omega arith

-- Whether the receiver takes the sender's signature: it has no lookup, or one that finds the other key
-- of the pair, or one that finds none.
abbrev pub IsKnown : (ℕ → ℕ) → ℕ → ℕ → Option (ℕ → KeyLookup) → Type 0
IsKnown public key sender none = Unit {0}
IsKnown public key sender (some key_of) =
    (key_of sender ≡ found (public key)) ⊎ (key_of sender ≡ absent)

-- A message that is admitted is decoded from its frame, whatever comes after it.
module _ (lib : Libraries) where
  pub decode_envelope-frame_of :
      (env : Envelope) (b rest : List ℕ) (fn : Option (ℕ → KeyLookup))
      → lib.unmarshal b ≡ some env
      → length b ≤ max_message_size
      → is_admitted lib fn env ≡ true
      → decode_envelope lib fn (big_endian 4 (length b) ++ (b ++ rest)) ≡ some env
  unfolding decode_envelope
  decode_envelope-frame_of env b rest fn reads fits admitted =
      let size : set_bytes (big_endian 4 (length b)) ≡ length b =
        set_bytes-big_endian (length b) (omega arith) in
      let longer : ltb (length (big_endian 4 (length b) ++ (b ++ rest))) 4 ≡ false =
        ground (arith, length-four (length b) (b ++ rest)) in
      let fitting : ltb max_message_size (length b) ≡ false = ground arith in
      let whole : ltb (length (big_endian 4 (length b) ++ (b ++ rest)) - 4) (length b) ≡ false =
        ground (arith, length-four (length b) (b ++ rest), length-append b rest) in
      rw
        (
          take_four (length b) (b ++ rest),
          size,
          longer,
          fitting,
          whole,
          drop_four (length b) (b ++ rest),
          take-append b rest,
          reads,
          admitted,
        )
        refl

  -- Nobody verifies the envelope: it has no signature, or no key of its sender is found, without an
  -- error.
  abbrev pub IsUnverified : (ℕ → KeyLookup) → Envelope → Type 0
  IsUnverified key_of env = (env.signature ≡ []) ⊎ (key_of env.sender_id ≡ absent)

  is_admitted_unverified :
      (env : Envelope) (key_of : ℕ → KeyLookup)
      → IsUnverified key_of env
      → is_admitted lib (some key_of) env ≡ true
  unfolding is_admitted
  is_admitted_unverified env key_of (inl e) = ground (arith, e)
  is_admitted_unverified env key_of (inr e) = ground (arith, e)

  -- An envelope that has no signature, whatever keys the receiver finds, and one of whose sender no key
  -- is found, whatever its signature, is decoded from its frame.
  pub decode_envelope_unverified :
      (env : Envelope) (b : List ℕ) (key_of : ℕ → KeyLookup)
      → IsUnverified key_of env
      → lib.unmarshal b ≡ some env
      → length b ≤ max_message_size
      → decode_envelope lib (some key_of) (big_endian 4 (length b) ++ b) ≡ some env
  decode_envelope_unverified env b key_of unverified reads fits =
      subst
        (λ (t : List ℕ).
          decode_envelope lib (some key_of) (big_endian 4 (length b) ++ t) ≡ some env)
        (append-nil b)
        (decode_envelope-frame_of env b [] (some key_of) reads fits
          (is_admitted_unverified env key_of unverified))

  -- The sender's own signature is admitted.
  is_admitted-signed :
      (public : ℕ → ℕ) (laws : AreLibraries lib public) (env : Envelope) (key : ℕ)
      (fn : Option (ℕ → KeyLookup))
      → IsKnown public key env.sender_id fn
      → is_admitted lib fn (signed lib env key) ≡ true
  unfolding is_admitted signed envelope_sign_bytes
  is_admitted-signed public laws env key none known = refl
  is_admitted-signed public laws env key (some key_of) (inl e) =
      let ok = laws.accepts key (envelope_sign_bytes lib env) in ground (arith, e, ok)
  is_admitted-signed public laws env key (some key_of) (inr e) = ground (arith, e)

  -- What EncodeEnvelope writes, DecodeEnvelope reads, with the signature and whatever bytes follow, for
  -- every receiver who finds the sender's key, or none, or looks for none.
  pub decode-encode_envelope :
      (public : ℕ → ℕ) (laws : AreLibraries lib public) (env : Envelope) (key : ℕ)
      (frame rest : List ℕ) (fn : Option (ℕ → KeyLookup))
      → IsKnown public key env.sender_id fn
      → (encode_envelope lib env key).1 ≡ some frame
      → decode_envelope lib fn (frame ++ rest) ≡ some (encode_envelope lib env key).0
  unfolding encode_envelope frame_of
  decode-encode_envelope public laws env key frame rest fn known written =
      elim (Option-cases (lib.marshal (signed lib env key))) [
        | inl e ↦ absurd (ground (arith, e))
        | inr (b, e) ↦
            let fits : length b ≤ max_message_size = ground (arith, e) in
            let is_frame : big_endian 4 (length b) ++ b ≡ frame = ground (arith, e) in
            let read =
              decode_envelope-frame_of (signed lib env key) b rest fn
                (laws.reads (signed lib env key) b e) fits
                (is_admitted-signed public laws env key fn known) in
            subst (λ (t : List ℕ). decode_envelope lib fn (t ++ rest) ≡ some (signed lib env key))
              is_frame
              (ap (decode_envelope lib fn) (append_assoc (big_endian 4 (length b)) b rest) ∙ read)
      ]
