-- ===== src/Crypto/Zkp/Acceptance.antt =====
-- Which proofs are accepted.
use decentralized_poker_engi.Common.{
  ℕ, ◌+◌, ◌-◌, ◌*◌, ◌%◌, ◌≤◌, ◌<◌, ◌≡◌, refl, sym, ap, ◌∙◌, arith, true, some, List, ==_iff,
}
use decentralized_poker_engi.Crypto.Modular.{exp, exp-exp, exp-add, exp_cycle, IsFermat, IsMessage}
use decentralized_poker_engi.Crypto.Sra.{SraKey}
use decentralized_poker_engi.Crypto.Zkp.{
  ZkProof, compute_challenge, prove_decryption, verify_decryption,
}

module _ (p : ℕ) (fermat : IsFermat p) where
  -- The response to the challenge `c`, in the exponent.
  exp_response :
      (x d r c : ℕ)
      → 1 ≤ x
      → x < p
      → exp x ((c * d + r) % (p - 1)) p ≡ exp (exp x d p) c p * exp x r p % p
  exp_response x d r c h l =
      exp_cycle p fermat x (c * d + r) h l
      ∙ exp-add x (c * d) r p
      ∙ ap (λ (t : ℕ). t * exp x r p % p)
          (ap (λ (t : ℕ). exp x t p) (let e : c * d ≡ d * c = omega arith in e)
            ∙ sym (exp-exp x d c p))

  -- The proof of a decryption by any exponent is accepted, whoever makes it: where the modulus has
  -- Fermat's theorem, as a prime has, and the ciphertext is 1 to p - 2.
  pub prove_decryption-verify :
      (sha256 : List ℕ → List ℕ) (key : SraKey) (d c r : ℕ) (session_id : List ℕ)
      → key.p ≡ p
      → key.d ≡ some d
      → IsMessage p c
      → (proof : ZkProof) × (prove_decryption sha256 key c (exp c d p) session_id r ≡ some proof)
        × (verify_decryption sha256 proof c (exp c d p) p session_id ≡ true)
  unfolding prove_decryption verify_decryption
  prove_decryption-verify sha256 key d c r session_id same has m =
      let ch =
        compute_challenge sha256 p (exp 2 d p) c (exp c d p) (exp 2 r p) (exp c r p) session_id in
      (
        record { a = exp 2 r p; b = exp c r p; s = (ch * d + r) % (p - 1); h = exp 2 d p },
        rw (same, has) refl,
        rw
            (
              (==_iff _ _).1 (exp_response 2 d r ch (omega arith) (omega arith)),
              (==_iff _ _).1 (exp_response c d r ch m.0 (omega arith)),
            )
            refl,
      )
