-- ===== src/Game/Hand/Best.antt =====
-- EvaluateBest7 picks the best of the 21 hands of five cards, and what happens where none of them
-- is above a high card.
use Prim.Native.Nat.{Ordering}
use decentralized_poker_engi.Common.{
  ℕ, zero, suc, ◌+◌, ◌≤◌, ◌<◌, ◌≡◌, refl, arith, List, [], ◌∷◌, length, inl, inr, ◌⊎◌,
}
use decentralized_poker_engi.Game.Cards.{Card}
use decentralized_poker_engi.Game.Hand.{
  EvaluatedHand, compare_hands, compare_kickers, evaluate5, start_hand, without, better, best_inner,
  best_outer, evaluate_best7,
}
use decentralized_poker_engi.Game.Hand.Order.{
  IsShaped, NotAbove, NotAbove-trans, compare_hands-swap, compare_kickers-nil,
}
use decentralized_poker_engi.Game.Hand.Shape.{evaluate5-IsShaped}

-- A hand that the search can hold: a whole one, or the empty one that it starts from.
abbrev IsHeld : EvaluatedHand → Type 0
IsHeld b = IsShaped b ⊎ (b ≡ start_hand)

-- The hand of five cards that leaves out positions `i` and `j`.
abbrev pub hand_without : ℕ → ℕ → List Card → EvaluatedHand
hand_without i j cards = evaluate5 (without i j 0 cards)

-- Nothing that does not beat the hand of zero cards is above a high card.
at_start :
    (h g : EvaluatedHand)
    → NotAbove h start_hand
    → compare_hands g start_hand ≡ Ordering.gt
    → NotAbove h g
unfolding compare_hands compare_kickers
at_start h g p q = ground (arith, compare_kickers-nil h.kickers, compare_kickers-nil g.kickers)

NotAbove-self : (h : EvaluatedHand) → NotAbove h h
NotAbove-self h e = ground (arith, compare_hands-swap h h)

gt_NotAbove : (h g : EvaluatedHand) → compare_hands h g ≡ Ordering.gt → NotAbove g h
gt_NotAbove h g e = ground (arith, compare_hands-swap h g)

better-IsHeld : (b g : EvaluatedHand) → IsHeld b → IsShaped g → IsHeld (better b g)
unfolding better
better-IsHeld b g h s = ground arith

better_start : (h g : EvaluatedHand) → NotAbove h start_hand → NotAbove h (better start_hand g)
unfolding better
better_start h g p = ground (arith, at_start h g p)

NotAbove-better :
    (h b g : EvaluatedHand)
    → IsHeld b
    → IsShaped h
    → IsShaped g
    → NotAbove h b
    → NotAbove h (better b g)
unfolding better
NotAbove-better h b g (inl sb) sh sg p =
    ground (arith, gt_NotAbove g b, NotAbove-trans h b g sh sb sg p)
NotAbove-better h b g (inr e) sh sg p = rw e (better_start h g (rw e at p))

better_covers : (b g : EvaluatedHand) → NotAbove g (better b g)
unfolding better
better_covers b g = ground (arith, NotAbove-self g)

length-without_past :
    (i j idx : ℕ) (cs : List Card) → i < idx → j < idx → length (without i j idx cs) ≡ length cs
unfolding without
length-without_past i j idx [] h k = refl
length-without_past i j idx (c ∷ cs) h k = ground (arith, length-without_past i j (idx + 1) cs)

length-without_second :
    (i j idx : ℕ) (cs : List Card)
    → i < idx
    → idx ≤ j
    → j < idx + length cs
    → length (without i j idx cs) + 1 ≡ length cs
unfolding without
length-without_second i j idx [] h k l = absurd (omega arith)
length-without_second i j idx (c ∷ cs) h k l =
    ground (arith, length-without_second i j (idx + 1) cs, length-without_past i j (idx + 1) cs)

length-without :
    (i j idx : ℕ) (cs : List Card)
    → i < j
    → idx ≤ i
    → j < idx + length cs
    → length (without i j idx cs) + 2 ≡ length cs
unfolding without
length-without i j idx [] h k l = absurd (omega arith)
length-without i j idx (c ∷ cs) h k l =
    ground (arith, length-without i j (idx + 1) cs, length-without_second i j (idx + 1) cs)

le_cases : (i j : ℕ) → i ≤ j → (i ≡ j) ⊎ (i + 1 ≤ j)
le_cases i j h = grind arith

module _ (cards : List Card) (seven : length cards ≡ 7) where
  hand_without-IsShaped : (i j : ℕ) → i < j → j < 7 → IsShaped (hand_without i j cards)
  hand_without-IsShaped i j h k =
      evaluate5-IsShaped (without i j 0 cards)
        (omega (arith, length-without i j 0 cards h (omega arith) (omega (arith, seven))))

  inner-IsHeld :
      (i n j : ℕ) (b : EvaluatedHand)
      → i < j
      → j + n ≡ 7
      → IsHeld b
      → IsHeld (best_inner cards i n j b)
  unfolding best_inner
  inner-IsHeld i zero j b h e held = held
  inner-IsHeld i (suc n) j b h e held =
      inner-IsHeld i n (j + 1) (better b (hand_without i j cards)) (omega arith) (omega arith)
        (better-IsHeld b (hand_without i j cards) held (hand_without-IsShaped i j h (omega arith)))

  -- A round of the inner loop loses nothing of what the search is not below.
  inner_keeps :
      (h : EvaluatedHand) (i n j : ℕ) (b : EvaluatedHand)
      → i < j
      → j + n ≡ 7
      → IsHeld b
      → IsShaped h
      → NotAbove h b
      → NotAbove h (best_inner cards i n j b)
  unfolding best_inner
  inner_keeps h i zero j b l e held sh p = p
  inner_keeps h i (suc n) j b l e held sh p =
      let g = hand_without i j cards in
      let sg : IsShaped g = hand_without-IsShaped i j l (omega arith) in
      inner_keeps h i n (j + 1) (better b g) (omega arith) (omega arith) (better-IsHeld b g held sg)
        sh (NotAbove-better h b g held sh sg p)

  inner_covers :
      (i n j k : ℕ) (b : EvaluatedHand)
      → i < j
      → j + n ≡ 7
      → j ≤ k
      → k < 7
      → IsHeld b
      → NotAbove (hand_without i k cards) (best_inner cards i n j b)
  unfolding best_inner
  inner_covers i zero j k b l e lo hi held = absurd (omega arith)
  inner_covers i (suc n) j k b l e lo hi held =
      let g = hand_without i j cards in
      let sg : IsShaped g = hand_without-IsShaped i j l (omega arith) in
      let held' = better-IsHeld b g held sg in
      elim (le_cases j k lo) [
        | inl now ↦
            inner_keeps (hand_without i k cards) i n (j + 1) (better b g) (omega arith)
              (omega arith) held' (hand_without-IsShaped i k (omega arith) hi)
              (rw (← now) (better_covers b g))
        | inr later ↦
            inner_covers i n (j + 1) k (better b g) (omega arith) (omega arith) later hi held'
      ]

  outer_keeps :
      (h : EvaluatedHand) (n i : ℕ) (b : EvaluatedHand)
      → i + n ≡ 7
      → IsHeld b
      → IsShaped h
      → NotAbove h b
      → NotAbove h (best_outer cards n i b)
  unfolding best_outer
  outer_keeps h zero i b e held sh p = p
  outer_keeps h (suc n) i b e held sh p =
      outer_keeps h n (i + 1) (best_inner cards i n (i + 1) b) (omega arith)
        (inner-IsHeld i n (i + 1) b (omega arith) (omega arith) held) sh
        (inner_keeps h i n (i + 1) b (omega arith) (omega arith) held sh p)

  outer_covers :
      (n i j k : ℕ) (b : EvaluatedHand)
      → i + n ≡ 7
      → i ≤ j
      → j < k
      → k < 7
      → IsHeld b
      → NotAbove (hand_without j k cards) (best_outer cards n i b)
  unfolding best_outer
  outer_covers zero i j k b e lo l hi held = absurd (omega arith)
  outer_covers (suc n) i j k b e lo l hi held =
      let c = best_inner cards i n (i + 1) b in
      let held' = inner-IsHeld i n (i + 1) b (omega arith) (omega arith) held in
      elim (le_cases i j lo) [
        | inl now ↦
            outer_keeps (hand_without j k cards) n (i + 1) c (omega arith) held'
              (hand_without-IsShaped j k l hi)
              (rw (← now)
                (inner_covers i n (i + 1) k b (omega arith) (omega arith) (omega arith) hi held))
        | inr later ↦ outer_covers n (i + 1) j k c (omega arith) later l hi held'
      ]

-- The search over seven cards ends with a hand that none of the 21 hands of five cards beats: the
-- hands without positions `i` and `j`, for `i` below `j`.
pub evaluate_best7_max :
    (cards : List Card) (i j : ℕ)
    → length cards ≡ 7
    → i < j
    → j < 7
    → NotAbove (hand_without i j cards) (evaluate_best7 cards)
unfolding evaluate_best7
evaluate_best7_max cards i j seven h k =
    outer_covers cards seven 7 0 i j start_hand refl (omega arith) h k (inr refl)
