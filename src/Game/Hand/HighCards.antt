-- ===== src/Game/Hand/HighCards.antt =====
-- EvaluateBest7 on seven cards without a pair, a straight or a flush.
use Prim.Native.Nat.{Ordering}
use decentralized_poker_engi.Common.{ℕ, zero, suc, ◌+◌, ◌<◌, ◌≡◌, refl, arith, List}
use decentralized_poker_engi.Game.Cards.{Card}
use decentralized_poker_engi.Game.Hand.{
  EvaluatedHand, high_card, compare_hands, compare_kickers, start_hand, better, best_inner,
  best_outer, evaluate_best7,
}
use decentralized_poker_engi.Game.Hand.Order.{compare_kickers-nil}
use decentralized_poker_engi.Game.Hand.Best.{hand_without}

-- Each of the 21 hands is a high card.
abbrev pub OnlyHighCards : List Card → Type 0
OnlyHighCards cards = (i j : ℕ) → i < j → j < 7 → (hand_without i j cards).rank ≡ high_card

better_high : (g : EvaluatedHand) → g.rank ≡ high_card → better start_hand g ≡ start_hand
unfolding better compare_hands
better_high g e = ground (arith, compare_kickers-nil g.kickers)

module _ (cards : List Card) (plain : OnlyHighCards cards) where
  inner_high : (i n j : ℕ) → i < j → j + n ≡ 7 → best_inner cards i n j start_hand ≡ start_hand
  unfolding best_inner
  inner_high i zero j h e = refl
  inner_high i (suc n) j h e =
      rw (better_high (hand_without i j cards) (plain i j h (omega arith)))
        (inner_high i n (j + 1) (omega arith) (omega arith))

  outer_high : (n i : ℕ) → i + n ≡ 7 → best_outer cards n i start_hand ≡ start_hand
  unfolding best_outer
  outer_high zero i e = refl
  outer_high (suc n) i e =
      rw (inner_high i n (i + 1) (omega arith) (omega arith)) (outer_high n (i + 1) (omega arith))

  evaluate_best7_high : evaluate_best7 cards ≡ start_hand
  unfolding evaluate_best7
  evaluate_best7_high = outer_high 7 0 refl

-- Seven cards whose 21 hands are all high cards tie with any other such seven, whatever the
-- kickers: the search keeps the hand of zero cards that it starts from, with which every high card
-- compares as equal.
pub high_cards_tie :
    (cards others : List Card)
    → OnlyHighCards cards
    → OnlyHighCards others
    → (evaluate_best7 cards ≡ start_hand)
      × (compare_hands (evaluate_best7 cards) (evaluate_best7 others) ≡ Ordering.eq)
unfolding compare_hands compare_kickers
high_cards_tie cards others p q =
    let e = evaluate_best7_high cards p in let f = evaluate_best7_high others q in (e, rw (e, f))
