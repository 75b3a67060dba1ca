-- ===== src/Network/Protocol/Order.antt =====
-- The envelopes of a stream arrive, each once and in their order.
use decentralized_poker_engi.Common.{
  ℕ, zero, suc, ◌+◌, ◌≤◌, ◌≡◌, ◌≢◌, refl, sym, ap, subst, ◌∙◌, arith, none, some, List, [], ◌∷◌,
  ◌++◌, length, length-append, take, drop, take-append, drop-append,
}
use mathlib.Core.List.{append-nil, append_assoc}
use decentralized_poker_engi.Crypto.Bytes.{set_bytes}
use decentralized_poker_engi.Network.Gamelog.{Envelope, big_endian}
use decentralized_poker_engi.Network.Codec.{
  Libraries, max_message_size, signed, is_admitted, decode_envelope,
}
use decentralized_poker_engi.Network.Codec.Frames.{
  AreLibraries, set_bytes-big_endian, take_four, length-four, decode_envelope-frame_of,
}
use decentralized_poker_engi.Network.Protocol.{handled, read_stream, read_all}

length_zero : (xs : List ℕ) → length xs ≡ 0 → xs ≡ []
length_zero [] h = refl
length_zero (x ∷ xs) h = absurd (omega arith)

module _ (lib : Libraries) where
  -- The sender's frames, one after the other, and the envelopes in them.
  abbrev pub AreSent : List Envelope → ℕ → List ℕ → Type 0
  AreSent [] key bytes = bytes ≡ []
  AreSent (env ∷ envs) key bytes =
      (b : List ℕ) × (rest : List ℕ) × (lib.marshal (signed lib env key) ≡ some b)
      × (b ≢ [])
      × (length b ≤ max_message_size)
      × (bytes ≡ (big_endian 4 (length b) ++ b) ++ rest)
      × AreSent envs key rest

  -- One frame at the head of the stream.
  read_stream-frame :
      (fuel : ℕ) (env : Envelope) (b rest : List ℕ)
      → b ≢ []
      → lib.unmarshal b ≡ some env
      → length b ≤ max_message_size
      → read_stream lib (suc fuel) ((big_endian 4 (length b) ++ b) ++ rest)
        ≡ env ∷ read_stream lib fuel rest
  unfolding read_stream handled is_admitted
  read_stream-frame fuel env b rest some_bytes reads fits =
      let bytes = (big_endian 4 (length b) ++ b) ++ rest in
      let regroup : bytes ≡ big_endian 4 (length b) ++ (b ++ rest) =
        append_assoc (big_endian 4 (length b)) b rest in
      let size : set_bytes (take 4 bytes) ≡ length b =
        ap (λ (t : List ℕ). set_bytes (take 4 t)) regroup
        ∙ ap set_bytes (take_four (length b) (b ++ rest))
        ∙ set_bytes-big_endian (length b) (omega arith) in
      let count : length bytes ≡ 4 + length b + length rest =
        ap length regroup
        ∙ omega (arith, length-four (length b) (b ++ rest), length-append b rest) in
      let whole : length (big_endian 4 (length b) ++ b) ≡ 4 + length b = length-four (length b) b in
      let front : take (4 + length b) bytes ≡ big_endian 4 (length b) ++ b =
        ap (λ (n : ℕ). take n bytes) (sym whole)
        ∙ take-append (big_endian 4 (length b) ++ b) rest in
      let back : drop (4 + length b) bytes ≡ rest =
        ap (λ (n : ℕ). drop n bytes) (sym whole)
        ∙ drop-append (big_endian 4 (length b) ++ b) rest in
      let decoded : decode_envelope lib none (big_endian 4 (length b) ++ b) ≡ some env =
        subst (λ (t : List ℕ). decode_envelope lib none (big_endian 4 (length b) ++ t) ≡ some env)
          (append-nil b) (decode_envelope-frame_of lib env b [] none reads fits refl) in
      let not_empty : length b ≢ 0 = λ h. some_bytes (length_zero b h) in
      ground (arith, size, count, front, back, decoded, not_empty)

  read_stream_short : (fuel : ℕ) → read_stream lib fuel [] ≡ []
  unfolding read_stream
  read_stream_short zero = refl
  read_stream_short (suc fuel) = refl

  -- The envelopes with the sender's signature.
  abbrev pub all_signed : List Envelope → ℕ → List Envelope
  all_signed [] key = []
  all_signed (env ∷ envs) key = signed lib env key ∷ all_signed envs key

  read_stream-sent :
      (public : ℕ → ℕ) (laws : AreLibraries lib public) (fuel : ℕ) (envs : List Envelope) (key : ℕ)
      (bytes : List ℕ)
      → length bytes ≤ fuel
      → AreSent envs key bytes
      → read_stream lib fuel bytes ≡ all_signed envs key
  read_stream-sent public laws fuel [] key bytes h sent =
      ap (read_stream lib fuel) sent ∙ read_stream_short fuel
  read_stream-sent public laws zero (env ∷ envs) key bytes h
        (b, rest, e, some_bytes, fits, is, sent) =
      absurd (
        omega (
          arith,
          ap length is,
          length-append (big_endian 4 (length b) ++ b) rest,
          length-four (length b) b,
        ))
  read_stream-sent public laws (suc fuel) (env ∷ envs) key bytes h
        (b, rest, e, some_bytes, fits, is, sent) =
      let shorter : length rest ≤ fuel = omega (
        arith,
        ap length is,
        length-append (big_endian 4 (length b) ++ b) rest,
        length-four (length b) b,
      ) in
      ap (read_stream lib (suc fuel)) is
      ∙ read_stream-frame fuel (signed lib env key) b rest some_bytes
          (laws.reads (signed lib env key) b e) fits
      ∙ ap (λ t. signed lib env key ∷ t)
          (read_stream-sent public laws fuel envs key rest shorter sent)

  -- The frames of any number of envelopes, one after the other on a stream, are all handed on, in
  -- their order and with their signatures. No envelope is marshalled to no bytes.
  pub read_all-sent :
      (public : ℕ → ℕ) (laws : AreLibraries lib public) (envs : List Envelope) (key : ℕ)
      (bytes : List ℕ)
      → AreSent envs key bytes
      → read_all lib bytes ≡ all_signed envs key
  unfolding read_all
  read_all-sent public laws envs key bytes sent =
      read_stream-sent public laws (length bytes) envs key bytes (omega arith) sent
