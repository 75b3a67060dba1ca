-- ===== src/Game/Hand.antt =====
-- internal/game/hand_eval.go. A [5]Card or [7]Card is a list; `sort.Slice` is the insertion sort
-- that Go runs on up to twelve elements. A comparison's -1, 0, 1 are `lt`, `eq`, `gt`.
pub mod Order
pub mod Shape
pub mod Best
pub mod HighCards
use Prim.Native.Nat.{compare, Ordering}
use decentralized_poker_engi.Common.{
  ℕ, zero, suc, ◌+◌, Bool, true, false, ◌&&◌, ◌||◌, List, [], ◌∷◌, map, ltb, ◌==◌, if◌then◌else◌,
  get_or,
}
use decentralized_poker_engi.Game.Cards.{Card, ace, blank}

pub data HandRank : Type 0 where
  high_card one_pair two_pair three_of_a_kind straight flush : HandRank
  full_house four_of_a_kind straight_flush royal_flush : HandRank

-- The constants' `iota`.
abbrev pub value : HandRank → ℕ
value high_card = 0
value one_pair = 1
value two_pair = 2
value three_of_a_kind = 3
value straight = 4
value flush = 5
value full_house = 6
value four_of_a_kind = 7
value straight_flush = 8
value royal_flush = 9

pub record EvaluatedHand : Type 0 where
  pub rank : HandRank
  pub cards : List Card
  pub kickers : List ℕ

-- The loop of Compare, as long as both hands have a kicker.
unfoldable pub compare_kickers : List ℕ → List ℕ → Ordering
compare_kickers [] ys = Ordering.eq
compare_kickers (x ∷ xs) [] = Ordering.eq
compare_kickers (x ∷ xs) (y ∷ ys) =
    let rest = compare_kickers xs ys in
    if ltb y x then Ordering.gt else if ltb x y then Ordering.lt else rest

unfoldable pub compare_hands : EvaluatedHand → EvaluatedHand → Ordering
compare_hands h other =
    if ltb (value other.rank) (value h.rank)
    then Ordering.gt
    else if ltb (value h.rank) (value other.rank)
    then Ordering.lt
    else compare_kickers h.kickers other.kickers

unfoldable pub insert_card : Card → List Card → List Card
insert_card x [] = x ∷ []
insert_card x (y ∷ ys) = if ltb y.rank x.rank then x ∷ y ∷ ys else y ∷ insert_card x ys

unfoldable pub sort_cards : List Card → List Card → List Card
sort_cards done [] = done
sort_cards done (x ∷ xs) = sort_cards (insert_card x done) xs

abbrev same_suit : ℕ → List Card → Bool
same_suit s [] = true
same_suit s (c ∷ cs) = let rest = same_suit s cs in if c.suit == s then rest else false

unfoldable pub check_flush : List Card → Bool
check_flush [] = true
check_flush (c ∷ cs) = same_suit c.suit cs

abbrev pub ranks : List Card → List ℕ
ranks = map (λ c. c.rank)

-- Each rank is one above the next.
abbrev steps_down : List ℕ → Bool
steps_down (x ∷ y ∷ rest) = let more = steps_down (y ∷ rest) in if x == y + 1 then more else false
steps_down _ = true

unfoldable pub check_straight : List Card → Bool × ℕ
check_straight cards =
    let at = λ (i : ℕ). get_or (ranks cards) i 0 in
    if steps_down (ranks cards)
    then (true, at 0)
    else if at 0 == ace && (at 1 == 5 && (at 2 == 4 && (at 3 == 3 && at 4 == 2)))
    then (true, 5)
    else (false, 0)

pub record RankGroup : Type 0 where
  pub rank : ℕ
  pub count : ℕ

-- `counts[c.Rank]++`
unfoldable pub count_rank : ℕ → List RankGroup → List RankGroup
count_rank r [] = record { rank = r; count = 1 } ∷ []
count_rank r (g ∷ gs) =
    if g.rank == r then record g { count = g.count + 1 } ∷ gs else g ∷ count_rank r gs

unfoldable pub count_ranks : List RankGroup → List Card → List RankGroup
count_ranks groups [] = groups
count_ranks groups (c ∷ cs) = count_ranks (count_rank c.rank groups) cs

-- The order of the groups: by count, then by rank, the greater first.
abbrev pub group_before : RankGroup → RankGroup → Bool
group_before g h = if g.count == h.count then ltb h.rank g.rank else ltb h.count g.count

unfoldable pub insert_group : RankGroup → List RankGroup → List RankGroup
insert_group x [] = x ∷ []
insert_group x (y ∷ ys) = if group_before x y then x ∷ y ∷ ys else y ∷ insert_group x ys

unfoldable pub sort_groups : List RankGroup → List RankGroup → List RankGroup
sort_groups done [] = done
sort_groups done (x ∷ xs) = sort_groups (insert_group x done) xs

-- The map is visited in any order; the ranks differ, so the sorted groups do not depend on it.
unfoldable pub group_by_rank : List Card → List RankGroup
group_by_rank cards = sort_groups [] (count_ranks [] cards)

-- The rank of a group, and the count; five cards have the groups that are read.
abbrev pub group_rank : List RankGroup → ℕ → ℕ
group_rank gs i = (get_or gs i (record { rank = 0; count = 0 })).rank

abbrev pub group_count : List RankGroup → ℕ → ℕ
group_count gs i = (get_or gs i (record { rank = 0; count = 0 })).count

-- The second `switch`: a hand that is no straight flush.
unfoldable pub classify : List Card → List RankGroup → Bool → Bool → ℕ → HandRank × List ℕ
classify sorted groups is_flush is_straight straight_high =
    let r = λ (i : ℕ). group_rank groups i in
    let n = λ (i : ℕ). group_count groups i in
    if n 0 == 4
    then (four_of_a_kind, r 0 ∷ r 1 ∷ [])
    else if n 0 == 3 && n 1 == 2
    then (full_house, r 0 ∷ r 1 ∷ [])
    else if is_flush
    then (flush, ranks sorted)
    else if is_straight
    then (straight, straight_high ∷ [])
    else if n 0 == 3
    then (three_of_a_kind, r 0 ∷ r 1 ∷ r 2 ∷ [])
    else if n 0 == 2 && n 1 == 2
    then (
      two_pair,
      (if ltb (r 0) (r 1) then r 1 else r 0) ∷ (if ltb (r 0) (r 1) then r 0 else r 1) ∷ r 2 ∷ [],
    )
    else if n 0 == 2
    then (one_pair, map (λ g. g.rank) groups)
    else (high_card, ranks sorted)

-- Both `switch`es, over the sorted cards.
unfoldable pub classify_sorted : List Card → HandRank × List ℕ
classify_sorted sorted =
    let (is_straight, straight_high) = check_straight sorted in
    if check_flush sorted && (is_straight && straight_high == ace)
    then (royal_flush, ace ∷ [])
    else if check_flush sorted && is_straight
    then (straight_flush, straight_high ∷ [])
    else classify sorted (group_by_rank sorted) (check_flush sorted) is_straight straight_high

unfoldable pub evaluate5 : List Card → EvaluatedHand
evaluate5 cards =
    let sorted = sort_cards [] cards in
    let (rank, kickers) = classify_sorted sorted in
    record { rank = rank; cards = sorted; kickers = kickers }

-- `EvaluatedHand{Rank: HighCard}`: five zero cards, and no kickers.
abbrev pub start_hand : EvaluatedHand
start_hand = record {
  rank = high_card;
  cards = blank ∷ blank ∷ blank ∷ blank ∷ blank ∷ [];
  kickers = [];
}

-- The cards at the positions from `idx` on, but for positions `i` and `j`.
unfoldable pub without : ℕ → ℕ → ℕ → List Card → List Card
without i j idx [] = []
without i j idx (c ∷ cs) =
    let rest = without i j (idx + 1) cs in if (idx == i) || (idx == j) then rest else c ∷ rest

abbrev is_gt : Ordering → Bool
is_gt Ordering.gt = true
is_gt _ = false

unfoldable pub better : EvaluatedHand → EvaluatedHand → EvaluatedHand
better best h = if is_gt (compare_hands h best) then h else best

-- The inner loop, `n` rounds from `j`.
unfoldable pub best_inner : List Card → ℕ → ℕ → ℕ → EvaluatedHand → EvaluatedHand
best_inner cards i zero j best = best
best_inner cards i (suc n) j best =
    best_inner cards i n (j + 1) (better best (evaluate5 (without i j 0 cards)))

-- The outer loop, `n` rounds from `i`: as many rounds of the inner one as are left after `i`.
unfoldable pub best_outer : List Card → ℕ → ℕ → EvaluatedHand → EvaluatedHand
best_outer cards zero i best = best
best_outer cards (suc n) i best = best_outer cards n (i + 1) (best_inner cards i n (i + 1) best)

unfoldable pub evaluate_best7 : List Card → EvaluatedHand
evaluate_best7 cards = best_outer cards 7 0 start_hand
