-- ===== src/Game/Cards/Codes.antt =====
-- Card identifiers and the fresh deck.

use decentralized_poker_engi.Common.{
  ℕ, zero, suc, ◌+◌, ◌<◌, ◌≡◌, refl, arith, List, [], ◌∷◌, true, map,
}
use decentralized_poker_engi.Game.Cards.{Card, dealt, card_id, card_from_id, new_deck}

-- The identifier of a dealt card is below 52, and the card of that identifier is the card itself.
pub card_from_id-card_id :
    (c : Card) → dealt c ≡ true → (card_id c < 52) × (card_from_id (card_id c) ≡ c)
unfolding dealt card_id card_from_id
card_from_id-card_id c h = ground arith

-- The card of an identifier below 52 is a dealt card, and has that identifier.
pub card_id-card_from_id :
    (i : ℕ) → i < 52 → (dealt (card_from_id i) ≡ true) × (card_id (card_from_id i) ≡ i)
unfolding dealt card_id card_from_id
card_id-card_from_id i h = ground arith

pub from_to : ℕ → ℕ → List ℕ
from_to zero i = []
from_to (suc n) i = i ∷ from_to n (i + 1)

-- A fresh deck is the cards with the identifiers 0 to 51, in that order.
pub new_deck-card_from_id : new_deck ≡ map card_from_id (from_to 52 0)
unfolding new_deck card_from_id from_to
new_deck-card_from_id = refl
