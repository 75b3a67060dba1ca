-- ===== src/Crypto/DealSession/Dealt.antt =====
-- internal/crypto/deal_session.go: the cards of the values that a session has decoded.
use decentralized_poker_engi.Common.{ℕ, Option, none, some, List, [], ◌∷◌}
use decentralized_poker_engi.Game.Cards.{Card}
use decentralized_poker_engi.Crypto.Deal.{finish_public}
use decentralized_poker_engi.Crypto.DealSession.{DealSession, Pair, pair_of}

-- The cards of two values, both of which are there.
unfoldable pub finish_pair : Pair → ℕ → Option (Card × Card)
finish_pair (none, b) p = none
finish_pair (some v, none) p = none
finish_pair (some v, some w) p = elim (finish_public v p) [
  | none ↦ none
  | some first ↦ elim (finish_public w p) [ none ↦ none | some second ↦ some (first, second) ]
]

unfoldable pub local_hole_cards : DealSession → Option (Card × Card)
local_hole_cards s = finish_pair s.local_holes s.p

unfoldable pub finish_all : List ℕ → ℕ → Option (List Card)
finish_all [] p = some []
finish_all (v ∷ vs) p =
    let rest = finish_all vs p in
    elim (finish_public v p) [
      | none ↦ none
      | some card ↦ elim rest [ none ↦ none | some cards ↦ some (card ∷ cards) ]
    ]

unfoldable pub community_cards : DealSession → Option (List Card)
community_cards s = finish_all s.community s.p

unfoldable pub revealed_holes : ℕ → DealSession → Option (Card × Card)
revealed_holes id s = finish_pair (pair_of id s.revealed) s.p
