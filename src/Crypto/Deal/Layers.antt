-- ===== src/Crypto/Deal/Layers.antt =====
-- Taking the layers off a card that every key has encrypted.
use decentralized_poker_engi.Common.{
  ℕ, ◌%◌, ◌≡◌, ◌≢◌, refl, ap, ◌∙◌, arith, some, List, [], ◌∷◌, length, All,
}
use decentralized_poker_engi.Crypto.Modular.{exp, exp_comm, exp_inverse, IsFermat, IsMessage}
use decentralized_poker_engi.Crypto.Sra.{SraKey, is_private}
use decentralized_poker_engi.Crypto.Sra.Pairs.{IsPair, decrypt_lem, encrypt-IsMessage}
use decentralized_poker_engi.Crypto.Zkp.{PartialDecryption, verify}
use decentralized_poker_engi.Crypto.Zkp.Acceptance.{prove_decryption-verify}
use decentralized_poker_engi.Crypto.Deal.{peel, verify_and_apply, peel_step}

-- The message under a layer of each key, the first key's first.
unfoldable pub seal : ℕ → List SraKey → ℕ → ℕ
seal p [] m = m
seal p (k ∷ ks) m = seal p ks (exp m k.e p)

-- Each key has d, and its exponents pass VerifyKeyPair.
abbrev pub AllPairs : ℕ → List SraKey → Type 0
AllPairs p = All (λ k. (d : ℕ) × IsPair p k d)

-- No player has the empty identifier.
abbrev pub AllNamed : List ℕ → Type 0
AllNamed = All (λ id. id ≢ 0)

pub seal-exp : (p : ℕ) (ks : List SraKey) (m n : ℕ) → seal p ks (exp m n p) ≡ exp (seal p ks m) n p
unfolding seal
seal-exp p [] m n = refl
seal-exp p (k ∷ ks) m n = ap (seal p ks) (exp_comm m n k.e p) ∙ seal-exp p ks (exp m k.e p) n

module _ (p : ℕ) (fermat : IsFermat p) (odd : p % 2 ≡ 1) where
  pub seal-IsMessage :
      (ks : List SraKey) (m : ℕ) → AllPairs p ks → IsMessage p m → IsMessage p (seal p ks m)
  unfolding seal
  seal-IsMessage [] m a h = h
  seal-IsMessage (k ∷ ks) m ((d, pair), a) h =
      seal-IsMessage ks (exp m k.e p) a (encrypt-IsMessage p fermat odd k d m pair h)

  -- The first key's layer comes off, whatever lies over it.
  pub seal-cons :
      (k : SraKey) (d : ℕ) (ks : List SraKey) (m : ℕ)
      → IsPair p k d
      → AllPairs p ks
      → IsMessage p m
      → exp (seal p (k ∷ ks) m) d p ≡ seal p ks m
  unfolding seal
  seal-cons k d ks m pair a h =
      let inner = seal-IsMessage ks m a h in
      ap (λ (t : ℕ). exp t d p) (seal-exp p ks m k.e)
      ∙ exp_inverse p fermat (seal p ks m) k.e d inner.0 (omega arith) pair.2

  module _ (sha256 : List ℕ → List ℕ) where
    pub peel_step_lem :
        (key : SraKey) (d c card_index player_id : ℕ) (session_id : List ℕ) (r : ℕ)
        → IsPair p key d
        → IsMessage p c
        → player_id ≢ 0
        → length session_id ≢ 0
        → (partial : PartialDecryption) × (peel_step sha256 key c card_index player_id p session_id
              r
            ≡ some (partial, exp c d p))
    unfolding peel_step peel verify_and_apply verify is_private
    peel_step_lem key d c card_index player_id session_id r pair m named session =
        let (proof, made, accepted) =
          prove_decryption-verify p fermat sha256 key d c r session_id pair.0 pair.1 m in
        (
          record {
            player_id = player_id;
            card_index = card_index;
            ciphertext = c;
            result = exp c d p;
            proof = proof;
          },
          ground (arith, decrypt_lem p key d c pair.0 pair.1 m, made, accepted, pair.1),
        )
