-- ===== src/Game/Hand/Order.antt =====
-- The order of hands: EvaluatedHand.Compare on hands whose kickers have one length.
use Prim.Native.Nat.{Ordering}
use decentralized_poker_engi.Common.{ℕ, ◌≡◌, ◌≢◌, refl, ap, get_or, arith, List, [], ◌∷◌, length}
use decentralized_poker_engi.Game.Hand.{
  HandRank, EvaluatedHand, value, compare_kickers, compare_hands,
}

-- The opposite result.
abbrev pub swap : Ordering → Ordering
swap Ordering.lt = Ordering.gt
swap Ordering.eq = Ordering.eq
swap Ordering.gt = Ordering.lt

pub compare_kickers-swap : (xs ys : List ℕ) → compare_kickers ys xs ≡ swap (compare_kickers xs ys)
unfolding compare_kickers
compare_kickers-swap [] [] = refl
compare_kickers-swap [] (y ∷ ys) = refl
compare_kickers-swap (x ∷ xs) [] = refl
compare_kickers-swap (x ∷ xs) (y ∷ ys) = ground (arith, compare_kickers-swap xs ys)

-- A hand without kickers ties with any other of its rank.
pub compare_kickers-nil : (xs : List ℕ) → compare_kickers xs [] ≡ Ordering.eq
unfolding compare_kickers
compare_kickers-nil [] = refl
compare_kickers-nil (x ∷ xs) = refl

-- Comparing the other way round gives the opposite result.
pub compare_hands-swap : (h g : EvaluatedHand) → compare_hands g h ≡ swap (compare_hands h g)
unfolding compare_hands
compare_hands-swap h g = ground (arith, compare_kickers-swap h.kickers g.kickers)

pub compare_kickers_trans :
    (xs ys zs : List ℕ)
    → length xs ≡ length ys
    → length ys ≡ length zs
    → compare_kickers xs ys ≢ Ordering.gt
    → compare_kickers ys zs ≢ Ordering.gt
    → compare_kickers xs zs ≢ Ordering.gt
unfolding compare_kickers
compare_kickers_trans [] ys zs l m h k = ground arith
compare_kickers_trans (x ∷ xs) [] zs l m h k = absurd (omega arith)
compare_kickers_trans (x ∷ xs) (y ∷ ys) [] l m h k = absurd (omega arith)
compare_kickers_trans (x ∷ xs) (y ∷ ys) (z ∷ zs) l m h k =
    ground (arith, compare_kickers_trans xs ys zs)

pub compare_kickers_eq :
    (xs ys : List ℕ) → length xs ≡ length ys → compare_kickers xs ys ≡ Ordering.eq → xs ≡ ys
unfolding compare_kickers
compare_kickers_eq [] [] l h = refl
compare_kickers_eq [] (y ∷ ys) l h = absurd (omega arith)
compare_kickers_eq (x ∷ xs) [] l h = absurd (omega arith)
compare_kickers_eq (x ∷ xs) (y ∷ ys) l h = ground (arith, compare_kickers_eq xs ys)

-- How many kickers a hand of each rank has, from the high card to the royal flush.
abbrev kicker_counts : List ℕ
kicker_counts = 5 ∷ 4 ∷ 3 ∷ 3 ∷ 1 ∷ 5 ∷ 2 ∷ 2 ∷ 1 ∷ 1 ∷ []

abbrev pub kicker_count : HandRank → ℕ
kicker_count r = get_or kicker_counts (value r) 0

abbrev pub IsShaped : EvaluatedHand → Type 0
IsShaped h = length h.kickers ≡ kicker_count h.rank

-- The value of a rank tells the rank.
count_of_value : (r s : HandRank) → value r ≡ value s → kicker_count r ≡ kicker_count s
count_of_value r s h = ap (λ i. get_or kicker_counts i 0) h

-- `h` does not beat `g`.
abbrev pub NotAbove : EvaluatedHand → EvaluatedHand → Type 0
NotAbove h g = compare_hands h g ≢ Ordering.gt

pub NotAbove-trans :
    (f g h : EvaluatedHand)
    → IsShaped f
    → IsShaped g
    → IsShaped h
    → NotAbove f g
    → NotAbove g h
    → NotAbove f h
unfolding compare_hands
NotAbove-trans f g h sf sg sh p q = ground (
  arith,
  count_of_value f.rank g.rank,
  count_of_value g.rank h.rank,
  compare_kickers_trans f.kickers g.kickers h.kickers,
)
