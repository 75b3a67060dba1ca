-- ===== src/Crypto/Deal/Protocol.antt =====
-- internal/crypto/deal.go: DealProtocol, which holds the keys of all players. `draw i j` is the random
-- number of the proof that the player at position `j` makes for the card at `i`.
use decentralized_poker_engi.Common.{
  ℕ, zero, suc, ◌+◌, ◌%◌, Bool, true, false, Option, none, some, List, [], ◌∷◌, ◌++◌, length, ◌==◌,
  if◌then◌else◌, get_elem?, modify,
}
use decentralized_poker_engi.Game.Cards.{Card, blank}
use decentralized_poker_engi.Crypto.Sra.{SraKey}
use decentralized_poker_engi.Crypto.Zkp.{PartialDecryption, verify}
use decentralized_poker_engi.Crypto.Deal.{
  EncryptedDeck, card_at, peel, peel_step, finish_public, finish_hole,
}

pub record DealProtocol : Type 0 where
  pub deck : EncryptedDeck
  pub players : List ℕ
  pub keys : List SraKey
  pub session_id : List ℕ

unfoldable pub new_deal_protocol : EncryptedDeck → List ℕ → List SraKey → DealProtocol
new_deal_protocol deck players keys = record {
  deck = deck;
  players = players;
  keys = keys;
  session_id = deck.session_id;
}

abbrev pub is_at : Option ℕ → ℕ → Bool
is_at none i = false
is_at (some j) i = i == j

unfoldable pub substitute_partial_decryption : PartialDecryption → ℕ → PartialDecryption
substitute_partial_decryption pd wrong_result = record pd { result = wrong_result }

-- A result of a dealt card: the two cards of a player.
abbrev pub Hole : Type 0
Hole = Card × Card

abbrev pub set_round : ℕ → Card → Hole → Hole
set_round zero c (a, b) = (c, b)
set_round (suc n) c (a, b) = (a, c)

abbrev pub blanks : ℕ → List Hole
blanks zero = []
blanks (suc n) = (blank, blank) ∷ blanks n

module _ (sha256 : List ℕ → List ℕ) (draw : ℕ → ℕ → ℕ) where
  -- The players from position `i` on take off their layers; the one at `skip` does not. A player
  -- without a key is an index out of range, which panics.
  unfoldable pub peel_layers :
      DealProtocol
      → ℕ
      → Option ℕ
      → ℕ
      → List ℕ
      → List SraKey
      → ℕ
      → List PartialDecryption
      → Option (ℕ × List PartialDecryption)
  peel_layers dp card_index skip i [] keys current partials = some (current, partials)
  peel_layers dp card_index skip i (pid ∷ pids) [] current partials = none
  peel_layers dp card_index skip i (pid ∷ pids) (key ∷ keys) current partials =
      elim (is_at skip i) [
        | true ↦ peel_layers dp card_index skip (suc i) pids keys current partials
        | false ↦
            elim (peel_step sha256 key current card_index pid dp.deck.p dp.session_id
              (draw card_index i)) [
                | none ↦ none
                | some (partial, next) ↦
                    peel_layers dp card_index skip (suc i) pids keys next (partials ++ partial ∷ [])
              ]
      ]

  -- The layers but the one of the player at `skip`, from the card at the index.
  unfoldable pub peel_card : DealProtocol → ℕ → Option ℕ → Option (ℕ × List PartialDecryption)
  peel_card dp deck_index skip = elim (card_at dp.deck deck_index) [
    | none ↦ none
    | some ciphertext ↦ peel_layers dp deck_index skip 0 dp.players dp.keys ciphertext []
  ]

  unfoldable pub reveal_to_player : DealProtocol → ℕ → ℕ → Option (Card × List PartialDecryption)
  reveal_to_player dp deck_index recipient_idx =
      elim (peel_card dp deck_index (some recipient_idx)) [
        | none ↦ none
        | some (current, partials) ↦ elim (get_elem? dp.keys recipient_idx) [
          | none ↦ none
          | some key ↦ elim (finish_hole key current dp.deck.p) [
            | none ↦ none
            | some card ↦ some (card, partials)
          ]
        ]
      ]

  unfoldable pub reveal_community : DealProtocol → ℕ → Option (Card × List PartialDecryption)
  reveal_community dp deck_index = elim (peel_card dp deck_index none) [
    | none ↦ none
    | some (current, partials) ↦ elim (finish_public current dp.deck.p) [
      | none ↦ none
      | some card ↦ some (card, partials)
    ]
  ]

  unfoldable pub apply_partial_decryption :
      DealProtocol → ℕ → ℕ → ℕ → ℕ → ℕ → Option PartialDecryption
  apply_partial_decryption dp player_id key_idx card_idx input r =
      elim (get_elem? dp.keys key_idx) [
        | none ↦ none
        | some key ↦ peel sha256 key input card_idx player_id dp.session_id r
      ]

  -- The inner loop of DealHoleCards, `left` rounds from `i`.
  unfoldable pub deal_round : DealProtocol → ℕ → ℕ → ℕ → ℕ → ℕ → List Hole → Option (List Hole)
  deal_round dp dealer_idx round zero i deck_pos result = some result
  deal_round dp dealer_idx round (suc left) i deck_pos result =
      let player_idx = (dealer_idx + 1 + i) % length dp.players in
      elim (reveal_to_player dp deck_pos player_idx) [
        | none ↦ none
        | some (card, _) ↦
            deal_round dp dealer_idx round left (suc i) (suc deck_pos)
              (modify result player_idx (set_round round card))
      ]

  unfoldable pub deal_hole_cards : DealProtocol → ℕ → Option (List Hole)
  deal_hole_cards dp dealer_idx =
      let n = length dp.players in
      elim (deal_round dp dealer_idx 0 n 0 0 (blanks n)) [
        | none ↦ none
        | some result ↦ deal_round dp dealer_idx 1 n 0 n result
      ]

  -- The inner loop of DealCommunityCards and of dealBatch: `count` cards from `pos` on, and what
  -- their proofs are.
  unfoldable pub reveal_cards : DealProtocol → ℕ → ℕ → Option (List Card × List PartialDecryption)
  reveal_cards dp zero pos = some ([], [])
  reveal_cards dp (suc count) pos = elim (reveal_community dp pos) [
    | none ↦ none
    | some (card, partials) ↦ elim (reveal_cards dp count (suc pos)) [
      | none ↦ none
      | some (cards, more) ↦ some (card ∷ cards, partials ++ more)
    ]
  ]

  unfoldable pub deal_community_cards : DealProtocol → ℕ → List ℕ → Option (List (List Card))
  deal_community_cards dp pos [] = some []
  deal_community_cards dp pos (count ∷ counts) = elim (reveal_cards dp count (suc pos)) [
    | none ↦ none
    | some (cards, _) ↦ elim (deal_community_cards dp (suc pos + count) counts) [
      | none ↦ none
      | some batches ↦ some (cards ∷ batches)
    ]
  ]

unfoldable pub verify_all_proofs : (List ℕ → List ℕ) → List PartialDecryption → ℕ → List ℕ → Bool
verify_all_proofs sha256 [] p session_id = true
verify_all_proofs sha256 (pd ∷ pds) p session_id =
    let rest = verify_all_proofs sha256 pds p session_id in
    if verify sha256 pd p session_id then rest else false
