-- ===== src/Crypto/Zkp.antt =====
-- internal/crypto/zkp.go: the proof that a partial decryption uses the exponent of a published value
-- h. SHA-256 is a parameter, and the random number that the loop of ProveDecryption ends with an
-- argument.
pub mod Acceptance
use decentralized_poker_engi.Common.{
  ℕ, ◌+◌, ◌-◌, ◌*◌, ◌%◌, Bool, true, false, not, Option, none, some, List, [], ◌∷◌, ◌++◌, length,
  ◌==◌, if◌then◌else◌,
}
use decentralized_poker_engi.Crypto.Bytes.{bytes, set_bytes, length_bytes}
use decentralized_poker_engi.Crypto.Modular.{exp}
use decentralized_poker_engi.Crypto.Sra.{SraKey}

pub record ZkProof : Type 0 where
  pub a : ℕ
  pub b : ℕ
  pub s : ℕ
  pub h : ℕ

-- A decryption of one layer, with its proof.
pub record PartialDecryption : Type 0 where
  pub player_id : ℕ
  pub card_index : ℕ
  pub ciphertext : ℕ
  pub result : ℕ
  pub proof : ZkProof

-- Each value with the length of its bytes in front, and the session at the end.
unfoldable pub challenge_text : List ℕ → List ℕ → List ℕ
challenge_text [] session_id = session_id
challenge_text (v ∷ vs) session_id =
    length_bytes (length (bytes v)) ++ bytes v ++ challenge_text vs session_id

module _ (sha256 : List ℕ → List ℕ) where
  unfoldable pub compute_challenge : ℕ → ℕ → ℕ → ℕ → ℕ → ℕ → List ℕ → ℕ
  compute_challenge p h ciphertext result a b session_id =
      set_bytes (sha256 (challenge_text (p ∷ h ∷ ciphertext ∷ result ∷ a ∷ b ∷ []) session_id))
      % (p - 1)

  unfoldable pub prove_decryption : SraKey → ℕ → ℕ → List ℕ → ℕ → Option ZkProof
  prove_decryption key ciphertext result session_id r = elim key.d [
    | none ↦ none
    | some d ↦
        let p = key.p in
        let h = exp 2 d p in
        let a = exp 2 r p in
        let b = exp ciphertext r p in
        let c = compute_challenge p h ciphertext result a b session_id in
        some (record { a = a; b = b; s = (c * d + r) % (p - 1); h = h })
  ]

  -- Whether there is no error.
  unfoldable pub verify_decryption : ZkProof → ℕ → ℕ → ℕ → List ℕ → Bool
  verify_decryption proof ciphertext result p session_id =
      let c = compute_challenge p proof.h ciphertext result proof.a proof.b session_id in
      if not (exp 2 proof.s p == exp proof.h c p * proof.a % p)
      then false
      else exp ciphertext proof.s p == exp result c p * proof.b % p

  unfoldable pub verify : PartialDecryption → ℕ → List ℕ → Bool
  verify pd p session_id = verify_decryption pd.proof pd.ciphertext pd.result p session_id
