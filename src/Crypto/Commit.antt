-- ===== src/Crypto/Commit.antt =====
-- internal/crypto/commit.go: hash commitments, and Shamir's secret sharing. SHA-256 and ModInverse
-- are parameters; the random bytes and coefficients are arguments.
use decentralized_poker_engi.Common.{
  ℕ, zero, suc, ◌+◌, ◌-◌, ◌*◌, ◌%◌, Bool, true, false, Option, none, some, List, [], ◌∷◌, ◌++◌,
  length, ltb, ◌==◌, if◌then◌else◌,
}
use decentralized_poker_engi.Crypto.Bytes.{length_bytes, serialise_deck}

pub record Commitment : Type 0 where
  pub hash : List ℕ
  pub nonce : List ℕ

-- Equal lengths, and no byte that differs.
abbrev pub equal_bytes : List ℕ → List ℕ → Bool
equal_bytes [] [] = true
equal_bytes [] (y ∷ ys) = false
equal_bytes (x ∷ xs) [] = false
equal_bytes (x ∷ xs) (y ∷ ys) = let rest = equal_bytes xs ys in if x == y then rest else false

module _ (sha256 : List ℕ → List ℕ) where
  unfoldable pub compute_commitment_hash : List ℕ → List ℕ → List ℕ
  compute_commitment_hash data' nonce = sha256 (length_bytes (length data') ++ data' ++ nonce)

  -- `nonce` is 32 random bytes.
  unfoldable pub new_commitment : List ℕ → List ℕ → Commitment
  new_commitment data' nonce = record { hash = compute_commitment_hash data' nonce; nonce = nonce }

  -- Whether there is no error.
  unfoldable pub verify_commitment : Commitment → List ℕ → Bool
  verify_commitment c data' = equal_bytes (compute_commitment_hash data' c.nonce) c.hash

  unfoldable pub new_deck_commitment : List ℕ → List ℕ → Commitment
  new_deck_commitment deck nonce = new_commitment (serialise_deck deck) nonce

  unfoldable pub verify_deck : Commitment → List ℕ → Bool
  verify_deck c deck = verify_commitment c (serialise_deck deck)

pub record Share : Type 0 where
  pub index : ℕ
  pub value : ℕ

-- The inner loop: the terms from `coeffs` on, with the power of x that the first has.
unfoldable pub add_terms : ℕ → ℕ → List ℕ → ℕ → ℕ → ℕ
add_terms p x [] power y = y
add_terms p x (c ∷ cs) power y = add_terms p x cs (power * x % p) ((y + c * power % p) % p)

-- The shares from `x` on, `n` of them.
unfoldable pub shares_from : ℕ → ℕ → List ℕ → ℕ → ℕ → List Share
shares_from p secret coeffs zero x = []
shares_from p secret coeffs (suc n) x =
    record { index = x; value = add_terms p x coeffs x secret }
    ∷ shares_from p secret coeffs n (x + 1)

-- `coeffs` are the t - 1 random coefficients.
unfoldable pub split_secret : ℕ → ℕ → ℕ → ℕ → List ℕ → Option (List Share)
split_secret secret t n p coeffs =
    if ltb t 2 then none else if ltb n t then none else some (shares_from p secret coeffs n 1)

-- The differences `p - x` and `x - y`, modulo p, for indices below p.
abbrev pub sub_mod : ℕ → ℕ → ℕ → ℕ
sub_mod p x y = (x + p - y) % p

-- The inner loop over the other shares: the numerator and the denominator of share `i`, where `j`
-- is the position that `shares` starts at.
unfoldable pub lagrange : ℕ → ℕ → ℕ → ℕ → List Share → ℕ → ℕ → ℕ × ℕ
lagrange p i xi j [] num den = (num, den)
lagrange p i xi j (s ∷ ss) num den =
    if j == i
    then lagrange p i xi (suc j) ss num den
    else lagrange p i xi (suc j) ss (num * (p - s.index) % p) (den * sub_mod p xi s.index % p)

module _ (mod_inverse : ℕ → ℕ → Option ℕ) where
  unfoldable pub combine : ℕ → List Share → ℕ → List Share → ℕ → Option ℕ
  combine p all i [] secret = some secret
  combine p all i (s ∷ ss) secret =
      let (num, den) = lagrange p i s.index 0 all 1 1 in
      elim (mod_inverse den p) [
        | none ↦ none
        | some inverse ↦ combine p all (suc i) ss ((secret + s.value * num % p * inverse % p) % p)
      ]

  unfoldable pub reconstruct_secret : List Share → ℕ → Option ℕ
  reconstruct_secret [] p = none
  reconstruct_secret (s ∷ ss) p = combine p (s ∷ ss) 0 (s ∷ ss) 0
