-- ===== src/Crypto/CryptoGame.antt =====
-- internal/crypto/crypto_game.go: a hand whose deck is shuffled and dealt by the protocols, with the
-- keys of all players at hand.
pub mod Dealt
use decentralized_poker_engi.Common.{
  ℕ, zero, suc, ◌+◌, ◌*◌, Bool, true, false, Option, none, some, List, [], ◌∷◌, ◌++◌, map, length,
  ltb, ◌==◌, if◌then◌else◌, get_elem?,
}
use decentralized_poker_engi.Game.Cards.{Card}
use decentralized_poker_engi.Game.Player.{Player}
use decentralized_poker_engi.Game.State.{GameState}
use decentralized_poker_engi.Crypto.Params.{shared_prime, build_plaintext_deck, session_id}
use decentralized_poker_engi.Crypto.Sra.{SraKey}
use decentralized_poker_engi.Crypto.Zkp.{PartialDecryption}
use decentralized_poker_engi.Crypto.Shuffle.{
  ShuffleStep, new_shuffle_protocol, run_full_shuffle, new_encrypted_deck,
}
use decentralized_poker_engi.Crypto.Deal.{EncryptedDeck}
use decentralized_poker_engi.Crypto.Deal.Protocol.{
  Hole, new_deal_protocol, deal_hole_cards, reveal_cards, verify_all_proofs,
}

pub record CryptoGame : Type 0 where
  pub p : ℕ
  pub session_id : List ℕ
  pub players : List ℕ
  pub keys : List SraKey
  pub deck : Option EncryptedDeck
  pub shuffle_log : List ShuffleStep
  pub deal_log : List PartialDecryption

-- The loop of NewCryptoGame: a key for each player, from his own draws (Sra.generate_sra_key).
unfoldable pub make_keys : (List ℕ → Option SraKey) → List ℕ → List (List ℕ) → Option (List SraKey)
make_keys generate [] draws = some []
make_keys generate (id ∷ ids) [] = none
make_keys generate (id ∷ ids) (d ∷ draws) = elim (generate d) [
  | none ↦ none
  | some k ↦ elim (make_keys generate ids draws) [ none ↦ none | some ks ↦ some (k ∷ ks) ]
]

-- `text` gives the bytes of an identifier.
unfoldable pub new_crypto_game :
    (List ℕ → List ℕ)
    → (ℕ → List ℕ)
    → (ℕ → List ℕ → Option SraKey)
    → List ℕ
    → List ℕ
    → List (List ℕ)
    → Option CryptoGame
new_crypto_game sha256 text generate player_ids nonce draws =
    if ltb (length player_ids) 2
    then none
    else elim (make_keys (generate shared_prime) player_ids draws) [
      | none ↦ none
      | some keys ↦ some (record {
        p = shared_prime;
        session_id = session_id sha256 (map text player_ids) nonce;
        players = player_ids;
        keys = keys;
        deck = none;
        shuffle_log = [];
        deal_log = [];
      })
    ]

-- The position of a player from `i` on; `none` is -1.
unfoldable pub index_from : ℕ → List ℕ → ℕ → Option ℕ
index_from i [] player_id = none
index_from i (id ∷ ids) player_id =
    let rest = index_from (suc i) ids player_id in if id == player_id then some i else rest

unfoldable pub player_index : CryptoGame → ℕ → Option ℕ
player_index cg = index_from 0 cg.players

-- The loop of DealToEngine over the players of the hand, and whether all are known: those before an
-- unknown one have their cards.
unfoldable pub give_holes : CryptoGame → List Hole → List Player → List Player × Bool
give_holes cg holes [] = ([], true)
give_holes cg holes (pl ∷ pls) = elim (player_index cg pl.id) [
  | none ↦ (pl ∷ pls, false)
  | some i ↦ elim (get_elem? holes i) [
    | none ↦ (pl ∷ pls, false)
    | some hole ↦
        let (rest, known) = give_holes cg holes pls in
        (record pl { hole0 = hole.0; hole1 = hole.1 } ∷ rest, known)
  ]
]

unfoldable pub hole_card_start_pos : CryptoGame → ℕ
hole_card_start_pos cg = length cg.players * 2

module _ (sha256 : List ℕ → List ℕ) where
  unfoldable pub run_shuffle : (ℕ → List (ℕ × ℕ)) → (ℕ → List ℕ) → CryptoGame → Option CryptoGame
  run_shuffle swaps nonces cg =
      elim (run_full_shuffle sha256 swaps nonces (new_shuffle_protocol cg.p cg.session_id)
        cg.players cg.keys (build_plaintext_deck cg.p)) [
          | none ↦ none
          | some (final, steps) ↦ elim (new_encrypted_deck final cg.p cg.session_id) [
            | none ↦ none
            | some deck ↦ some (record cg { shuffle_log = steps; deck = some deck })
          ]
        ]

  module _ (draw : ℕ → ℕ → ℕ) where
    -- The hand, and whether there was no error.
    unfoldable pub deal_to_engine : CryptoGame → GameState → GameState × Bool
    deal_to_engine cg gs = elim cg.deck [
      | none ↦ (gs, false)
      | some deck ↦
          elim (deal_hole_cards sha256 draw (new_deal_protocol deck cg.players cg.keys)
            gs.dealer_idx) [
              | none ↦ (gs, false)
              | some holes ↦
                  let (players, known) = give_holes cg holes gs.players in
                  if known
                  then (record gs { players = players; deck = none }, true)
                  else (record gs { players = players }, false)
            ]
    ]

    -- Without a deck the code panics. The log keeps the proofs of the cards before an error, which
    -- the result leaves out.
    unfoldable pub deal_batch : CryptoGame → ℕ → ℕ → Option (CryptoGame × List Card)
    deal_batch cg start_pos count = elim cg.deck [
      | none ↦ none
      | some deck ↦
          elim (reveal_cards sha256 draw (new_deal_protocol deck cg.players cg.keys) count
            (suc start_pos)) [
              | none ↦ none
              | some (cards, partials) ↦
                  some (record cg { deal_log = cg.deal_log ++ partials }, cards)
            ]
    ]

    unfoldable pub deal_flop : CryptoGame → ℕ → Option (CryptoGame × List Card)
    deal_flop cg start_pos = deal_batch cg start_pos 3

    unfoldable pub deal_turn : CryptoGame → ℕ → Option (CryptoGame × List Card)
    deal_turn cg start_pos = deal_batch cg start_pos 1

    unfoldable pub deal_river : CryptoGame → ℕ → Option (CryptoGame × List Card)
    deal_river cg start_pos = deal_batch cg start_pos 1

  unfoldable pub verify_full_log : CryptoGame → Bool
  verify_full_log cg = verify_all_proofs sha256 cg.deal_log cg.p cg.session_id
