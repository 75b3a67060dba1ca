-- ===== src/Crypto/Shuffle.antt =====
-- internal/crypto/shuffle.go: each player in turn encrypts the deck with his key and permutes it. The
-- swaps that the random generator makes, and the random bytes of the commitment, are arguments. An
-- error is `none`.
pub mod Permutations
pub mod Rounds
use decentralized_poker_engi.Common.{
  ℕ, zero, suc, ◌+◌, Bool, true, false, not, Option, none, some, List, [], ◌∷◌, ◌++◌, length, ◌==◌,
  if◌then◌else◌, get_elem?, set,
}
use decentralized_poker_engi.Crypto.Commit.{Commitment, new_deck_commitment, verify_deck}
use decentralized_poker_engi.Crypto.Deal.{EncryptedDeck}
use decentralized_poker_engi.Crypto.Sra.{SraKey, is_private, encrypt_all, all_or_none}

pub record ShuffleStep : Type 0 where
  pub player_id : ℕ
  pub input_deck : List ℕ
  pub output_deck : List ℕ
  pub permutation : List ℕ
  pub commitment : Commitment

pub record ShuffleProtocol : Type 0 where
  pub p : ℕ
  pub session_id : List ℕ
  pub num_cards : ℕ

unfoldable pub new_shuffle_protocol : ℕ → List ℕ → ShuffleProtocol
new_shuffle_protocol p session_id = record { p = p; session_id = session_id; num_cards = 52 }

abbrev pub count_up : ℕ → ℕ → List ℕ
count_up i zero = []
count_up i (suc n) = i ∷ count_up (suc i) n

-- `perm[i], perm[j] = perm[j], perm[i]`
unfoldable pub swap_at : ℕ → ℕ → List ℕ → List ℕ
swap_at i j xs = elim (get_elem? xs i) [
  | none ↦ xs
  | some a ↦ elim (get_elem? xs j) [ none ↦ xs | some b ↦ set (set xs i b) j a ]
]

unfoldable pub swap_all : List (ℕ × ℕ) → List ℕ → List ℕ
swap_all [] xs = xs
swap_all ((i, j) ∷ swaps) xs = swap_all swaps (swap_at i j xs)

unfoldable pub random_permutation : ℕ → List (ℕ × ℕ) → List ℕ
random_permutation n swaps = swap_all swaps (count_up 0 n)

-- `permuted[i] = encrypted[perm[i]]`; an index out of range panics.
unfoldable pub permute : List ℕ → List ℕ → Option (List ℕ)
permute [] xs = some []
permute (i ∷ perm) xs = all_or_none (get_elem? xs i) (permute perm xs)

unfoldable pub new_encrypted_deck : List ℕ → ℕ → List ℕ → Option EncryptedDeck
new_encrypted_deck cards p session_id =
    if length cards == 52
    then some (record { cards = cards; p = p; session_id = session_id })
    else none

module _ (sha256 : List ℕ → List ℕ) where
  unfoldable pub execute_step :
      ShuffleProtocol → ℕ → List ℕ → SraKey → List (ℕ × ℕ) → List ℕ → Option ShuffleStep
  execute_step sp player_id deck key swaps nonce =
      if not (is_private key)
      then none
      else if not (length deck == sp.num_cards)
      then none
      else elim (encrypt_all key deck) [
        | none ↦ none
        | some encrypted ↦ elim (permute (random_permutation sp.num_cards swaps) encrypted) [
          | none ↦ none
          | some permuted ↦ some (record {
            player_id = player_id;
            input_deck = deck;
            output_deck = permuted;
            permutation = random_permutation sp.num_cards swaps;
            commitment = new_deck_commitment sha256 permuted nonce;
          })
        ]
      ]

  -- Whether there is no error.
  unfoldable pub verify_step : ShuffleStep → Bool
  verify_step step = verify_deck sha256 step.commitment step.output_deck

  -- The loop of RunFullShuffle from player `i` on, with his swaps and the nonce of his commitment.
  module _ (swaps : ℕ → List (ℕ × ℕ)) (nonces : ℕ → List ℕ) where
    unfoldable pub shuffle_from :
        ShuffleProtocol → ℕ → List ℕ → List SraKey → List ℕ → Option (List ℕ × List ShuffleStep)
    shuffle_from sp i [] keys current = some (current, [])
    shuffle_from sp i (pid ∷ pids) [] current = none
    shuffle_from sp i (pid ∷ pids) (key ∷ keys) current =
        elim (execute_step sp pid current key (swaps i) (nonces i)) [
          | none ↦ none
          | some step ↦ elim (verify_step step) [
            | false ↦ none
            | true ↦ elim (shuffle_from sp (suc i) pids keys step.output_deck) [
              | none ↦ none
              | some (deck, steps) ↦ some (deck, step ∷ steps)
            ]
          ]
        ]

    unfoldable pub run_full_shuffle :
        ShuffleProtocol → List ℕ → List SraKey → List ℕ → Option (List ℕ × List ShuffleStep)
    run_full_shuffle sp players keys initial =
        if length players == length keys then shuffle_from sp 0 players keys initial else none
