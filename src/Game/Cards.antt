-- ===== src/Game/Cards.antt =====
-- internal/game/deck.go: ranks and suits are Go's uint8 values, a deck is the slice of the cards
-- that are left, its head the next card. A nil *Deck is `none`.
pub mod Codes
use decentralized_poker_engi.Common.{
  ℕ, zero, suc, ◌+◌, ◌*◌, ◌/◌, ◌%◌, Bool, ◌&&◌, Option, none, some, List, [], ◌∷◌, ◌++◌, leb, ◌==◌,
  get_elem?, set, length,
}

pub record Card : Type 0 where
  pub rank : ℕ
  pub suit : ℕ

-- `Card{}`, the hole card that is not known.
abbrev pub blank : Card
blank = record { rank = 0; suit = 0 }

abbrev pub two : ℕ
two = 2

abbrev pub ace : ℕ
ace = 14

abbrev pub spades : ℕ
spades = 0

abbrev pub clubs : ℕ
clubs = 3

-- Go's `==` on cards.
abbrev pub card_eq : Card → Card → Bool
card_eq c d = (c.rank == d.rank) && (c.suit == d.suit)

-- `Rank-2` wraps as a uint8.
unfoldable pub card_id : Card → ℕ
card_id c = c.suit * 13 + (c.rank + 254) % 256

unfoldable pub dealt : Card → Bool
dealt c = leb two c.rank && leb c.rank ace && leb c.suit clubs

-- For identifiers from 0 on; both conversions to uint8 wrap.
unfoldable pub card_from_id : ℕ → Card
card_from_id i = record { suit = (i / 13) % 256; rank = (i % 13 + 2) % 256 }

abbrev pub Deck : Type 0
Deck = List Card

-- The loop over the ranks of one suit, `n` rounds from rank `r`.
abbrev suit_cards : ℕ → ℕ → ℕ → Deck
suit_cards zero r s = []
suit_cards (suc n) r s = record { rank = r; suit = s } ∷ suit_cards n (r + 1) s

-- The loop over the suits, `n` rounds from suit `s`.
abbrev suits_from : ℕ → ℕ → Deck
suits_from zero s = []
suits_from (suc n) s = suit_cards 13 two s ++ suits_from n (s + 1)

unfoldable pub new_deck : Deck
new_deck = suits_from 4 spades

-- `d.Cards[i], d.Cards[j] = d.Cards[j], d.Cards[i]`, for positions in range.
unfoldable pub swap_cards : ℕ → ℕ → Deck → Deck
swap_cards i j d = elim (get_elem? d i) [
  | none ↦ d
  | some c ↦ elim (get_elem? d j) [ none ↦ d | some e ↦ set (set d i e) j c ]
]

-- `rng.Shuffle` calls the swap function on positions of its choice: the list of those calls
-- stands for the generator, and a nil generator for the empty list.
unfoldable pub shuffle : List (ℕ × ℕ) → Deck → Deck
shuffle [] d = d
shuffle ((i, j) ∷ swaps) d = shuffle swaps (swap_cards i j d)

-- `none` is the error: the deck is nil or empty.
unfoldable pub deal : Option Deck → Option (Card × Option Deck)
deal none = none
deal (some []) = none
deal (some (c ∷ rest)) = some (c, some rest)

unfoldable pub remaining : Option Deck → ℕ
remaining none = 0
remaining (some d) = length d
