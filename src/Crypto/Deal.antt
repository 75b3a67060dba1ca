-- ===== src/Crypto/Deal.antt =====
-- internal/crypto/deal.go: taking the layers off a card, one player after the other, and the places of
-- the cards in the deck. Player identifiers are numbers, and 0 is the empty one. An error is `none`.
pub mod Places
pub mod Protocol
pub mod Layers
pub mod Loops
pub mod Reveals
use decentralized_poker_engi.Common.{
  ℕ, zero, suc, ◌+◌, ◌-◌, ◌*◌, ◌%◌, Bool, true, false, not, Option, none, some, List, [], ◌∷◌, ◌++◌,
  length, leb, ltb, ◌==◌, if◌then◌else◌, get_elem?, modify,
}
use decentralized_poker_engi.Game.Cards.{Card, blank, card_from_id}
use decentralized_poker_engi.Crypto.Params.{field_to_card}
use decentralized_poker_engi.Crypto.Sra.{SraKey, is_private, decrypt}
use decentralized_poker_engi.Crypto.Zkp.{PartialDecryption, prove_decryption, verify}

pub record EncryptedDeck : Type 0 where
  pub cards : List ℕ
  pub p : ℕ
  pub session_id : List ℕ

unfoldable pub finish_public : ℕ → ℕ → Option Card
finish_public value p = elim (field_to_card value p) [
  | none ↦ none
  | some id ↦ some (card_from_id id)
]

unfoldable pub finish_hole : SraKey → ℕ → ℕ → Option Card
finish_hole key remaining p = elim (decrypt key remaining) [
  | none ↦ none
  | some plain ↦ finish_public plain p
]

unfoldable pub hole_card_index : ℕ → ℕ → ℕ → ℕ → Option ℕ
hole_card_index n dealer_idx player_idx round =
    if ltb n 2
    then none
    else if leb n dealer_idx
    then none
    else if leb n player_idx
    then none
    else if ltb 1 round
    then none
    else some (round * n + (player_idx + n - dealer_idx - 1) % n)

unfoldable pub community_start_pos : ℕ → ℕ
community_start_pos n = 2 * n

unfoldable pub flop_indexes : ℕ → Option (List ℕ)
flop_indexes n =
    let start = community_start_pos n in
    if ltb n 2 then none else some ((start + 1) ∷ (start + 2) ∷ (start + 3) ∷ [])

unfoldable pub turn_index : ℕ → Option ℕ
turn_index n = if ltb n 2 then none else some (community_start_pos n + 5)

unfoldable pub river_index : ℕ → Option ℕ
river_index n = if ltb n 2 then none else some (community_start_pos n + 7)

-- The loop of PeelOrder: the seats but the recipient's, and whether he has one.
unfoldable pub others : ℕ → List ℕ → List ℕ × Bool
others recipient [] = ([], false)
others recipient (id ∷ ids) =
    let (out, found) = others recipient ids in
    if id == recipient then (out, true) else (id ∷ out, found)

unfoldable pub peel_order : List ℕ → ℕ → Option (List ℕ)
peel_order seat_order recipient =
    if recipient == 0
    then some seat_order
    else let (out, found) = others recipient seat_order in if found then some out else none

unfoldable pub card_at : EncryptedDeck → ℕ → Option ℕ
card_at deck index = get_elem? deck.cards index

module _ (sha256 : List ℕ → List ℕ) where
  -- `r` is the random number of the proof.
  unfoldable pub peel : SraKey → ℕ → ℕ → ℕ → List ℕ → ℕ → Option PartialDecryption
  peel key ciphertext card_index player_id session_id r =
      if not (is_private key)
      then none
      else if player_id == 0
      then none
      else if length session_id == 0
      then none
      else elim (decrypt key ciphertext) [
        | none ↦ none
        | some result ↦ elim (prove_decryption sha256 key ciphertext result session_id r) [
          | none ↦ none
          | some proof ↦ some (record {
            player_id = player_id;
            card_index = card_index;
            ciphertext = ciphertext;
            result = result;
            proof = proof;
          })
        ]
      ]

  unfoldable pub verify_and_apply : ℕ → PartialDecryption → ℕ → List ℕ → Option ℕ
  verify_and_apply current pd p session_id =
      if not (current == pd.ciphertext)
      then none
      else if verify sha256 pd p session_id
      then some pd.result
      else none

  -- One round of the loops of RevealToPlayer and RevealCommunity.
  unfoldable pub peel_step : SraKey → ℕ → ℕ → ℕ → ℕ → List ℕ → ℕ → Option (PartialDecryption × ℕ)
  peel_step key current card_index player_id p session_id r =
      elim (peel key current card_index player_id session_id r) [
        | none ↦ none
        | some partial ↦ elim (verify_and_apply current partial p session_id) [
          | none ↦ none
          | some next ↦ some (partial, next)
        ]
      ]
