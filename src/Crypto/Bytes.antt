-- ===== src/Crypto/Bytes.antt =====
-- big.Int.Bytes and SetBytes, and the encodings that internal/crypto hashes. A byte is a number below
-- 256.
use decentralized_poker_engi.Common.{
  ℕ, zero, suc, ◌+◌, ◌-◌, ◌*◌, ◌/◌, ◌%◌, ◌≤◌, ◌≡◌, ap, ◌∙◌, inl, inr, Bool-cases, arith, List, [],
  ◌∷◌, ◌++◌, length, take, ◌==◌, if◌then◌else◌,
}

-- The big-endian bytes of `n` in front of `rest`, with as much fuel as `n`.
unfoldable pub bytes_onto : ℕ → ℕ → List ℕ → List ℕ
bytes_onto zero n rest = rest
bytes_onto (suc fuel) n rest =
    let more = bytes_onto fuel (n / 256) ((n % 256) ∷ rest) in if n == 0 then rest else more

unfoldable pub bytes : ℕ → List ℕ
bytes n = bytes_onto n n []

unfoldable pub set_bytes_from : ℕ → List ℕ → ℕ
set_bytes_from acc [] = acc
set_bytes_from acc (b ∷ bs) = set_bytes_from (acc * 256 + b) bs

unfoldable pub set_bytes : List ℕ → ℕ
set_bytes = set_bytes_from 0

set_bytes_from-bytes_onto :
    (fuel n : ℕ) (rest : List ℕ)
    → n ≤ fuel
    → set_bytes_from 0 (bytes_onto fuel n rest) ≡ set_bytes_from n rest
unfolding set_bytes_from bytes_onto
set_bytes_from-bytes_onto zero n rest h = ap (λ (t : ℕ). set_bytes_from t rest) (omega arith)
set_bytes_from-bytes_onto (suc fuel) n rest h = elim (Bool-cases (n == 0)) [
  | inl e ↦ rw e (ap (λ (t : ℕ). set_bytes_from t rest) (ground arith))
  | inr e ↦ rw e (
      set_bytes_from-bytes_onto fuel (n / 256) ((n % 256) ∷ rest) (ground arith)
      ∙ ap (λ (t : ℕ). set_bytes_from t rest) (omega arith))
]

-- SetBytes reads back what Bytes writes.
pub set_bytes-bytes : (n : ℕ) → set_bytes (bytes n) ≡ n
unfolding set_bytes bytes set_bytes_from
set_bytes-bytes n = set_bytes_from-bytes_onto n n [] (omega arith)

-- The four big-endian bytes of a length.
unfoldable pub length_bytes : ℕ → List ℕ
length_bytes n = n / 16777216 % 256 ∷ n / 65536 % 256 ∷ n / 256 % 256 ∷ n % 256 ∷ []

abbrev pub zeros : ℕ → List ℕ
zeros zero = []
zeros (suc n) = 0 ∷ zeros n

-- The bytes of a card, at the end of its cell of 256 bytes after `out`: a longer card overwrites the
-- end of what is there. One that is longer than all the bytes up to its end stops the program, which
-- is not modelled.
abbrev pub put_card : List ℕ → List ℕ → List ℕ
put_card out bs = take (length out + 256 - length bs) (out ++ zeros 256) ++ bs

-- The loop, with the bytes that are written so far.
unfoldable pub serialise_from : List ℕ → List ℕ → List ℕ
serialise_from out [] = out
serialise_from out (v ∷ vs) = serialise_from (put_card out (bytes v)) vs

unfoldable pub serialise_deck : List ℕ → List ℕ
serialise_deck deck = serialise_from [] deck
