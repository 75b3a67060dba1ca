-- ===== src/Crypto/Shuffle/Rounds.antt =====
-- A shuffle by honest players: what the deck is in the end.
use mathlib.Core.List.Perm
use mathlib.Core.List.{Perm, map-map, map-id}
use decentralized_poker_engi.Common.{
  ℕ, suc, ◌%◌, ◌≡◌, refl, sym, ap, ◌∙◌, subst, arith, true, some, List, [], ◌∷◌, map, length, All,
}
use decentralized_poker_engi.Crypto.Modular.{exp, IsFermat, IsMessage}
use decentralized_poker_engi.Crypto.Bytes.{serialise_deck}
use decentralized_poker_engi.Crypto.Commit.{
  equal_bytes, compute_commitment_hash, new_commitment, verify_commitment, new_deck_commitment,
  verify_deck,
}
use decentralized_poker_engi.Crypto.Sra.{SraKey, is_private, encrypt_all}
use decentralized_poker_engi.Crypto.Sra.Pairs.{IsPair, encrypt_lem, encrypt-IsMessage}
use decentralized_poker_engi.Crypto.Deal.Layers.{seal, AllPairs}
use decentralized_poker_engi.Crypto.Shuffle.{
  ShuffleStep, ShuffleProtocol, random_permutation, permute, execute_step, verify_step,
  shuffle_from,
}
use decentralized_poker_engi.Crypto.Shuffle.Permutations.{
  permuted, permute_lem, permuted-perm, permuted-All, length-permuted, length-map,
}

equal_bytes_refl : (xs : List ℕ) → equal_bytes xs xs ≡ true
equal_bytes_refl [] = refl
equal_bytes_refl (x ∷ xs) = ground (arith, equal_bytes_refl xs)

-- A commitment to a deck is accepted for that deck.
new_deck_commitment-verify :
    (sha256 : List ℕ → List ℕ) (deck nonce : List ℕ)
    → verify_deck sha256 (new_deck_commitment sha256 deck nonce) deck ≡ true
unfolding verify_deck verify_commitment new_deck_commitment new_commitment
new_deck_commitment-verify sha256 deck nonce =
    equal_bytes_refl (compute_commitment_hash sha256 (serialise_deck deck) nonce)

All-imp : (P Q : ℕ → Type 0) → ((c : ℕ) → P c → Q c) → (xs : List ℕ) → All P xs → All Q xs
All-imp P Q f [] a = tt
All-imp P Q f (x ∷ xs) a = (f x a.0, All-imp P Q f xs a.1)

module _ (p : ℕ) (fermat : IsFermat p) (odd : p % 2 ≡ 1) where
  encrypt_all_lem :
      (k : SraKey) (xs : List ℕ)
      → k.p ≡ p
      → All (IsMessage p) xs
      → encrypt_all k xs ≡ some (map (λ m. exp m k.e p) xs)
  unfolding encrypt_all
  encrypt_all_lem k [] same a = refl
  encrypt_all_lem k (x ∷ xs) same (m, a) =
      rw (encrypt_lem p k x same m, encrypt_all_lem k xs same a) refl

  -- What holds of each element before a layer, with the layer.
  All-layer :
      (P : ℕ → Type 0) (k : SraKey) (xs : List ℕ)
      → All P xs
      → All (λ c. (m : ℕ) × P m × (c ≡ exp m k.e p)) (map (λ m. exp m k.e p) xs)
  All-layer P k [] a = tt
  All-layer P k (x ∷ xs) (h, a) = ((x, h, refl), All-layer P k xs a)

  All-IsMessage :
      (k : SraKey) (d : ℕ) (xs : List ℕ)
      → IsPair p k d
      → All (IsMessage p) xs
      → All (IsMessage p) (map (λ m. exp m k.e p) xs)
  All-IsMessage k d [] pair a = tt
  All-IsMessage k d (x ∷ xs) pair (h, a) =
      (encrypt-IsMessage p fermat odd k d x pair h, All-IsMessage k d xs pair a)

  module _ (sha256 : List ℕ → List ℕ) where
    -- A deck of messages is encrypted and permuted without an error, and the step is accepted.
    execute_step_lem :
        (sp : ShuffleProtocol) (player_id : ℕ) (deck : List ℕ) (k : SraKey) (d : ℕ)
        (swaps : List (ℕ × ℕ)) (nonce : List ℕ)
        → IsPair p k d
        → All (IsMessage p) deck
        → length deck ≡ sp.num_cards
        → (step : ShuffleStep) × (execute_step sha256 sp player_id deck k swaps nonce ≡ some step)
          × (step.output_deck ≡ permuted swaps (map (λ m. exp m k.e p) deck))
          × (verify_step sha256 step ≡ true)
    unfolding execute_step verify_step is_private
    execute_step_lem sp player_id deck k d swaps nonce pair a same =
        let encrypted = map (λ m. exp m k.e p) deck in
        let out = permuted swaps encrypted in
        (
          record {
            player_id = player_id;
            input_deck = deck;
            output_deck = out;
            permutation = random_permutation sp.num_cards swaps;
            commitment = new_deck_commitment sha256 out nonce;
          },
          ground (
            arith,
            pair.1,
            same,
            encrypt_all_lem k deck pair.0 a,
            subst (λ (t : ℕ). permute (random_permutation t swaps) encrypted ≡ some out)
                (length-map (λ m. exp m k.e p) deck ∙ same) (permute_lem swaps encrypted),
          ),
          refl,
          new_deck_commitment-verify sha256 out nonce,
        )

    module _ (swaps : ℕ → List (ℕ × ℕ)) (nonces : ℕ → List ℕ) (sp : ShuffleProtocol) where
      -- The deck in the end is a permutation of the first, each card under a layer of every key, and
      -- what held of the cards holds under the layers.
      pub shuffle_from_lem :
          (P : ℕ → Type 0) (i : ℕ) (players : List ℕ) (keys : List SraKey) (deck : List ℕ)
          → All P deck
          → length players ≡ length keys
          → AllPairs p keys
          → All (IsMessage p) deck
          → length deck ≡ sp.num_cards
          → (out : List ℕ) × (steps : List ShuffleStep) × (shuffle_from sha256 swaps nonces sp i
                players keys deck
              ≡ some (out, steps))
            × Perm out (map (seal p keys) deck)
            × (length out ≡ sp.num_cards)
            × All (λ c. (m : ℕ) × P m × (c ≡ seal p keys m)) out
      unfolding shuffle_from seal
      shuffle_from_lem P i [] [] deck h l pairs a same = (
        deck,
        [],
        refl,
        subst (λ (t : List ℕ). Perm deck t) (sym (map-id deck)) (Perm.refl deck),
        same,
        All-imp P (λ c. (m : ℕ) × P m × (c ≡ m)) (λ m q. (m, q, refl)) deck h,
      )
      shuffle_from_lem P i [] (k ∷ ks) deck h l pairs a same = absurd (omega arith)
      shuffle_from_lem P i (pid ∷ pids) [] deck h l pairs a same = absurd (omega arith)
      shuffle_from_lem P i (pid ∷ pids) (k ∷ ks) deck h l ((d, pair), pairs) a same =
          let f = λ (m : ℕ). exp m k.e p in
          let (step, made, is, accepted) =
            execute_step_lem sp pid deck k d (swaps i) (nonces i) pair a same in
          let Layered = λ (c : ℕ). (m : ℕ) × P m × (c ≡ f m) in
          let (out, steps, rest, perm, size, held) =
            shuffle_from_lem Layered (suc i) pids ks step.output_deck
              (subst (All Layered) (sym is)
                (permuted-All Layered (swaps i) (map f deck) (All-layer P k deck h)))
              (omega arith) pairs
              (subst (All (IsMessage p)) (sym is)
                (permuted-All (IsMessage p) (swaps i) (map f deck) (All-IsMessage k d deck pair a)))
              (ap length is ∙ length-permuted (swaps i) (map f deck) ∙ length-map f deck ∙ same) in
          (
            out,
            step ∷ steps,
            rw (made, accepted, rest, shuffle_from) refl,
            Perm.trans perm (
                subst (λ (t : List ℕ). Perm (map (seal p ks) step.output_deck) t)
                  (map-map (seal p ks) f deck)
                  (Perm.map (seal p ks) (
                    subst (λ (t : List ℕ). Perm t (map f deck)) (sym is)
                      (permuted-perm (swaps i) (map f deck))))),
            size,
            All-imp (λ c. (b : ℕ) × Layered b × (c ≡ seal p ks b))
                (λ c. (m : ℕ) × P m × (c ≡ seal p ks (f m)))
                (λ c (b, (m, q, e), g). (m, q, g ∙ ap (seal p ks) e)) out held,
          )
