-- ===== src/Game/Hand/Shape.antt =====
-- Five cards are evaluated to as many kickers as their rank asks for, so that Compare always
-- compares whole hands.
use decentralized_poker_engi.Common.{
  ℕ, suc, ◌+◌, ◌≤◌, ◌<◌, ◌≡◌, ◌≢◌, refl, ap, arith, List, [], ◌∷◌, map, length, sum_by, All, Bool,
}
use decentralized_poker_engi.Game.Cards.{Card}
use decentralized_poker_engi.Game.Hand.{
  RankGroup, ranks, count_rank, count_ranks, insert_group, sort_groups, group_by_rank, group_count,
  classify, classify_sorted, insert_card, sort_cards, evaluate5, check_flush, check_straight,
}
use decentralized_poker_engi.Game.Hand.Order.{kicker_count, IsShaped}

length-ranks : (xs : List Card) → length (ranks xs) ≡ length xs
length-ranks [] = refl
length-ranks (x ∷ xs) = ap suc (length-ranks xs)

length-groups : (xs : List RankGroup) → length (map (λ g. g.rank) xs) ≡ length xs
length-groups [] = refl
length-groups (x ∷ xs) = ap suc (length-groups xs)

length-insert_card : (x : Card) (ys : List Card) → length (insert_card x ys) ≡ suc (length ys)
unfolding insert_card
length-insert_card x [] = refl
length-insert_card x (y ∷ ys) = ground (arith, length-insert_card x ys)

pub length-sort_cards :
    (done xs : List Card) → length (sort_cards done xs) ≡ length done + length xs
unfolding sort_cards
length-sort_cards done [] = omega arith
length-sort_cards done (x ∷ xs) =
    omega (arith, length-sort_cards (insert_card x done) xs, length-insert_card x done)

abbrev cards_in : List RankGroup → ℕ
cards_in = sum_by (λ g. g.count)

-- Every group has a card, and the counts fall from `high` on.
abbrev Grouped : List RankGroup → Type 0
Grouped = All (λ g. 0 < g.count)

abbrev Descending : ℕ → List RankGroup → Type 0
Descending high [] = Unit {0}
Descending high (g ∷ gs) = (g.count ≤ high) × Descending g.count gs

cards_in-count_rank : (r : ℕ) (gs : List RankGroup) → cards_in (count_rank r gs) ≡ suc (cards_in gs)
unfolding count_rank
cards_in-count_rank r [] = refl
cards_in-count_rank r (g ∷ gs) = ground (arith, cards_in-count_rank r gs)

count_rank-Grouped : (r : ℕ) (gs : List RankGroup) → Grouped gs → Grouped (count_rank r gs)
unfolding count_rank
count_rank-Grouped r [] h = (omega arith, tt)
count_rank-Grouped r (g ∷ gs) h = ground (arith, count_rank-Grouped r gs h.1)

cards_in-count_ranks :
    (gs : List RankGroup) (cs : List Card) → cards_in (count_ranks gs cs) ≡ cards_in gs + length cs
unfolding count_ranks
cards_in-count_ranks gs [] = omega arith
cards_in-count_ranks gs (c ∷ cs) =
    omega (arith, cards_in-count_ranks (count_rank c.rank gs) cs, cards_in-count_rank c.rank gs)

count_ranks-Grouped :
    (gs : List RankGroup) (cs : List Card) → Grouped gs → Grouped (count_ranks gs cs)
unfolding count_ranks
count_ranks-Grouped gs [] h = h
count_ranks-Grouped gs (c ∷ cs) h =
    count_ranks-Grouped (count_rank c.rank gs) cs (count_rank-Grouped c.rank gs h)

cards_in-insert_group :
    (x : RankGroup) (ys : List RankGroup) → cards_in (insert_group x ys) ≡ x.count + cards_in ys
unfolding insert_group
cards_in-insert_group x [] = refl
cards_in-insert_group x (y ∷ ys) = ground (arith, cards_in-insert_group x ys)

insert_group-Grouped :
    (x : RankGroup) (ys : List RankGroup) → 0 < x.count → Grouped ys → Grouped (insert_group x ys)
unfolding insert_group
insert_group-Grouped x [] h g = (h, tt)
insert_group-Grouped x (y ∷ ys) h g = ground (arith, insert_group-Grouped x ys h g.1)

insert_group-Descending :
    (high : ℕ) (x : RankGroup) (ys : List RankGroup)
    → x.count ≤ high
    → Descending high ys
    → Descending high (insert_group x ys)
unfolding insert_group
insert_group-Descending high x [] h d = (h, tt)
insert_group-Descending high x (y ∷ ys) h d = ground (arith, insert_group-Descending y.count x ys)

record Sorts (total high : ℕ) (gs : List RankGroup) : Type 0 where
  counted : cards_in gs ≡ total
  grouped : Grouped gs
  descending : Descending high gs

sort_groups-Sorts :
    (total high : ℕ) (done xs : List RankGroup)
    → Sorts total high done
    → All (λ g. (0 < g.count) × (g.count ≤ high)) xs
    → Sorts (total + cards_in xs) high (sort_groups done xs)
unfolding sort_groups
sort_groups-Sorts total high done [] s h = record {
  counted = omega (arith, s.counted);
  grouped = s.grouped;
  descending = s.descending;
}
sort_groups-Sorts total high done (x ∷ xs) s h =
    let placed : Sorts (total + x.count) high (insert_group x done) = record {
      counted = omega (arith, cards_in-insert_group x done, s.counted);
      grouped = insert_group-Grouped x done h.0.0 s.grouped;
      descending = insert_group-Descending high x done h.0.1 s.descending;
    } in
    let e : total + x.count + cards_in xs ≡ total + (x.count + cards_in xs) = omega arith in
    rw (← e) (sort_groups-Sorts (total + x.count) high (insert_group x done) xs placed h.1)

bounded_groups :
    (high : ℕ) (gs : List RankGroup)
    → Grouped gs
    → cards_in gs ≤ high
    → All (λ g. (0 < g.count) × (g.count ≤ high)) gs
bounded_groups high [] g h = tt
bounded_groups high (x ∷ gs) g h = ((g.0, omega arith), bounded_groups high gs g.1 (omega arith))

group_by_rank-Sorts : (cs : List Card) → Sorts (length cs) (length cs) (group_by_rank cs)
unfolding group_by_rank
group_by_rank-Sorts cs =
    let n : cards_in (count_ranks [] cs) ≡ length cs = omega (arith, cards_in-count_ranks [] cs) in
    let s =
      sort_groups-Sorts 0 (length cs) [] (count_ranks [] cs)
        (record { counted = refl; grouped = tt; descending = tt })
        (bounded_groups (length cs) (count_ranks [] cs) (count_ranks-Grouped [] cs tt)
          (omega (arith, n))) in
    record { counted = omega (arith, s.counted, n); grouped = s.grouped; descending = s.descending }

single_groups : (gs : List RankGroup) → Grouped gs → Descending 1 gs → cards_in gs ≡ length gs
single_groups [] g d = refl
single_groups (x ∷ gs) g d =
    let one : x.count ≡ 1 = omega (arith, g.0, d.0) in
    omega (arith, one, single_groups gs g.1 (rw one at d.1))

-- Five cards with one pair and no second one fall into four groups.
pair_groups :
    (gs : List RankGroup)
    → Sorts 5 5 gs
    → group_count gs 0 ≡ 2
    → group_count gs 1 ≢ 2
    → length (map (λ g. g.rank) gs) ≡ 4
pair_groups [] s two other = absurd (omega (arith, s.counted))
pair_groups (x ∷ []) s two other = absurd (omega (arith, s.counted, two))
pair_groups (x ∷ y ∷ gs) s two other =
    let d = s.descending in
    let one : y.count ≡ 1 = omega (arith, d.1.0, two, other, s.grouped.1.0) in
    omega (
      arith,
      s.counted,
      two,
      one,
      single_groups gs s.grouped.1.1 (rw one at d.1.1),
      length-groups gs,
    )

classify-shape :
    (sorted : List Card) (gs : List RankGroup) (f s : Bool) (high : ℕ)
    → length sorted ≡ 5
    → Sorts 5 5 gs
    → length (classify sorted gs f s high).1 ≡ kicker_count (classify sorted gs f s high).0
unfolding classify
classify-shape sorted gs f s high five groups =
    ground (arith, pair_groups gs groups, length-ranks sorted)

classify_sorted-shape :
    (sorted : List Card)
    → length sorted ≡ 5
    → length (classify_sorted sorted).1 ≡ kicker_count (classify_sorted sorted).0
unfolding classify_sorted
classify_sorted-shape sorted five =
    let gs : Sorts 5 5 (group_by_rank sorted) = rw five at (group_by_rank-Sorts sorted) in
    ground (
      arith,
      classify-shape sorted (group_by_rank sorted) (check_flush sorted) (check_straight sorted).0
          (check_straight sorted).1 five gs,
    )

-- An evaluation of five cards has the kickers of its rank.
pub evaluate5-IsShaped : (cards : List Card) → length cards ≡ 5 → IsShaped (evaluate5 cards)
unfolding evaluate5
evaluate5-IsShaped cards five =
    classify_sorted-shape (sort_cards [] cards) (omega (arith, length-sort_cards [] cards))
