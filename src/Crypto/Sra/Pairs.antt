-- ===== src/Crypto/Sra/Pairs.antt =====
-- A key whose exponents are a pair: it undoes its own encryption, and commutes with any other.
use decentralized_poker_engi.Common.{ℕ, ◌-◌, ◌*◌, ◌%◌, ◌≡◌, ap, ◌∙◌, arith, some}
use decentralized_poker_engi.Crypto.Modular.{
  exp, exp_comm, exp_inverse, exp-IsMessage, IsFermat, IsMessage,
}
use decentralized_poker_engi.Crypto.Sra.{SraKey, validate_message, encrypt, decrypt}

-- A key with d whose exponents pass VerifyKeyPair.
abbrev pub IsPair : ℕ → SraKey → ℕ → Type 0
IsPair p k d = (k.p ≡ p) × (k.d ≡ some d) × (k.e * d % (p - 1) ≡ 1)

pub encrypt_lem :
    (p : ℕ) (k : SraKey) (m : ℕ) → k.p ≡ p → IsMessage p m → encrypt k m ≡ some (exp m k.e p)
unfolding encrypt validate_message
encrypt_lem p k m same h = ground (arith, ap (λ (t : ℕ). exp m k.e t) same)

pub decrypt_lem :
    (p : ℕ) (k : SraKey) (d c : ℕ)
    → k.p ≡ p
    → k.d ≡ some d
    → IsMessage p c
    → decrypt k c ≡ some (exp c d p)
unfolding decrypt validate_message
decrypt_lem p k d c same has h = rw has (ground (arith, ap (λ (t : ℕ). exp c d t) same))

module _ (p : ℕ) (fermat : IsFermat p) (odd : p % 2 ≡ 1) where
  pub encrypt-IsMessage :
      (k : SraKey) (d m : ℕ) → IsPair p k d → IsMessage p m → IsMessage p (exp m k.e p)
  encrypt-IsMessage k d m pair h = exp-IsMessage p fermat m k.e d odd pair.2 h

  pub decrypt-IsMessage :
      (k : SraKey) (d c : ℕ) → IsPair p k d → IsMessage p c → IsMessage p (exp c d p)
  decrypt-IsMessage k d c pair h =
      exp-IsMessage p fermat c d k.e odd (ap (λ (t : ℕ). t % (p - 1)) (omega arith) ∙ pair.2) h

  -- A key whose exponents are a pair encrypts every message without an error, and decrypts the result
  -- to the message: for an odd modulus with Fermat's theorem, as a prime has.
  pub decrypt-encrypt :
      (k : SraKey) (d m : ℕ)
      → IsPair p k d
      → IsMessage p m
      → (c : ℕ) × (encrypt k m ≡ some c) × (decrypt k c ≡ some m)
  decrypt-encrypt k d m pair h = (
    exp m k.e p,
    encrypt_lem p k m pair.0 h,
    decrypt_lem p k d (exp m k.e p) pair.0 pair.1 (encrypt-IsMessage k d m pair h)
        ∙ ap some (exp_inverse p fermat m k.e d h.0 (omega arith) pair.2),
  )

  -- Two keys whose exponents are each inverse to a decryption exponent modulo p - 1, for one odd modulus
  -- with Fermat's theorem, encrypt an accepted message in either order to the same, without an error.
  pub encrypt_comm :
      (j k : SraKey) (d d' m : ℕ)
      → IsPair p j d
      → IsPair p k d'
      → IsMessage p m
      → (a b c : ℕ) × (encrypt j m ≡ some a)
        × (encrypt k a ≡ some c)
        × (encrypt k m ≡ some b)
        × (encrypt j b ≡ some c)
  encrypt_comm j k d d' m pj pk h = (
    exp m j.e p,
    exp m k.e p,
    exp (exp m j.e p) k.e p,
    encrypt_lem p j m pj.0 h,
    encrypt_lem p k (exp m j.e p) pk.0 (encrypt-IsMessage j d m pj h),
    encrypt_lem p k m pk.0 h,
    encrypt_lem p j (exp m k.e p) pj.0 (encrypt-IsMessage k d' m pk h)
        ∙ ap some (exp_comm m k.e j.e p),
  )
