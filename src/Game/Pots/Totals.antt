-- ===== src/Game/Pots/Totals.antt =====
-- CalculatePots and TotalPot over the players at the table.
use decentralized_poker_engi.Common.{
  ℕ, ◌≤◌, ◌<◌, ◌≡◌, refl, arith, List, [], ◌∷◌, sum_by, length, ◌==◌, if◌then◌else◌, inl, inr, ◌⊎◌,
  suc, min,
}
use decentralized_poker_engi.Int64.{half, lt64_exact}
use decentralized_poker_engi.Game.Player.{Player}
use decentralized_poker_engi.Game.Pots.{
  Contrib, contribs, sort_contribs, layers, calculate_pots, total_pot,
}
use decentralized_poker_engi.Game.Pots.Sorting.{
  Ascending, Fits, sort_contribs-Ascending, sum_by-sort_contribs,
}
use decentralized_poker_engi.Game.Pots.Layers.{
  layers_total, layers-Shrinking, merge_pots-Shrinking, total_from_lem,
}
use decentralized_poker_engi.Game.Pots.Stakes.{stake, entries, bet_of, stake-layers, stake_none}

abbrev pub bets : List Player → ℕ
bets = sum_by (λ p. p.total_bet)

-- How many players have the identifier `k`, and what they have bet in the hand.
abbrev pub seats : ℕ → List Player → ℕ
seats k = sum_by (λ p. if p.id == k then 1 else 0)

abbrev pub bet_by : ℕ → List Player → ℕ
bet_by k = sum_by (λ p. if p.id == k then p.total_bet else 0)

contribs-Fits : (ps : List Player) → bets ps < half → Fits (contribs ps)
unfolding contribs
contribs-Fits [] h = tt
contribs-Fits (p ∷ ps) h = ground (arith, contribs-Fits ps)

contribs-bets : (ps : List Player) → bets ps < half → sum_by (λ c. c.bet) (contribs ps) ≡ bets ps
unfolding contribs
contribs-bets [] h = refl
contribs-bets (p ∷ ps) h = ground (arith, lt64_exact 0 p.total_bet, contribs-bets ps)

contribs-bet_by : (k : ℕ) (ps : List Player) → bets ps < half → bet_of k (contribs ps) ≡ bet_by k ps
unfolding contribs
contribs-bet_by k [] h = refl
contribs-bet_by k (p ∷ ps) h = ground (arith, lt64_exact 0 p.total_bet, contribs-bet_by k ps)

contribs-capped :
    (b : ℕ) (ps : List Player)
    → bets ps < half
    → sum_by (λ c. min c.bet b) (contribs ps) ≡ sum_by (λ p. min p.total_bet b) ps
unfolding contribs
contribs-capped b [] h = refl
contribs-capped b (p ∷ ps) h = ground (arith, lt64_exact 0 p.total_bet, contribs-capped b ps)

-- A player who sits once has one contribution, or none and no bet.
contribs-entries :
    (k : ℕ) (ps : List Player)
    → bets ps < half
    → (entries k (contribs ps) ≤ seats k ps) × ((entries k (contribs ps) ≡ 0 → bet_by k ps ≡ 0))
unfolding contribs
contribs-entries k [] h = (omega arith, λ e. refl)
contribs-entries k (p ∷ ps) h =
    let ih = contribs-entries k ps (omega arith) in
    let fits = lt64_exact 0 p.total_bet in (ground (arith, ih.0), λ e. ground (arith, fits, ih.1))

capped_zero : (ps : List Player) → sum_by (λ p. min p.total_bet 0) ps ≡ 0
capped_zero [] = refl
capped_zero (p ∷ ps) = omega (arith, capped_zero ps)

abbrev pub sorted : List Player → List Contrib
sorted ps = sort_contribs [] (contribs ps)

sorted-Ascending : (ps : List Player) → bets ps < half → Ascending 0 (sorted ps)
sorted-Ascending ps h = sort_contribs-Ascending [] (contribs ps) tt (contribs-Fits ps h) tt

sorted-bets : (ps : List Player) → bets ps < half → sum_by (λ c. c.bet) (sorted ps) ≡ bets ps
sorted-bets ps h =
    omega (arith, sum_by-sort_contribs (λ c. c.bet) [] (contribs ps), contribs-bets ps h)

-- Two layers never name the same players: the pass that merges equal pots leaves them all alone.
pub calculate_pots-layers : (ps : List Player) → calculate_pots ps ≡ layers 0 (sorted ps)
unfolding calculate_pots
calculate_pots-layers ps =
    merge_pots-Shrinking (suc (length (sorted ps))) (layers 0 (sorted ps))
      (layers-Shrinking 0 (suc (length (sorted ps))) (sorted ps) (omega arith))

pub calculate_pots-amounts :
    (ps : List Player) → bets ps < half → sum_by (λ p. p.amount) (calculate_pots ps) ≡ bets ps
calculate_pots-amounts ps h = rw (calculate_pots-layers ps) (
    omega (
      arith,
      layers_total 0 (sorted ps) (sorted-Ascending ps h) (omega (arith, sorted-bets ps h)),
      sorted-bets ps h,
    ))

-- The pots hold exactly what the players have bet in the hand, as long as that fits an int64.
pub total_pot-calculate_pots :
    (ps : List Player) → bets ps < half → total_pot (calculate_pots ps) ≡ bets ps
unfolding total_pot
total_pot-calculate_pots ps h = omega (
  arith,
  total_from_lem 0 (calculate_pots ps) (omega (arith, calculate_pots-amounts ps h)),
  calculate_pots-amounts ps h,
)

sorted-capped :
    (b : ℕ) (ps : List Player)
    → bets ps < half
    → sum_by (λ c. min c.bet b) (sorted ps) ≡ sum_by (λ p. min p.total_bet b) ps
sorted-capped b ps h =
    omega (arith, sum_by-sort_contribs (λ c. min c.bet b) [] (contribs ps), contribs-capped b ps h)

sorted-bet_by : (k : ℕ) (ps : List Player) → bets ps < half → bet_of k (sorted ps) ≡ bet_by k ps
sorted-bet_by k ps h = omega (
  arith,
  sum_by-sort_contribs (λ c. if c.id == k then c.bet else 0) [] (contribs ps),
  contribs-bet_by k ps h,
)

sorted-entries : (k : ℕ) (ps : List Player) → entries k (sorted ps) ≡ entries k (contribs ps)
sorted-entries k ps =
    omega (arith, sum_by-sort_contribs (λ c. if c.id == k then 1 else 0) [] (contribs ps))

zero_or_one : (n m : ℕ) → n ≤ m → m ≡ 1 → (n ≡ 0) ⊎ (n ≡ 1)
zero_or_one n m h e = grind arith

-- A player who sits once can win from each player, himself included, that player's bet up to his
-- own bet, and no more: the pots for which he is eligible hold the sum of these.
pub stake-calculate_pots :
    (k : ℕ) (ps : List Player)
    → bets ps < half
    → seats k ps ≡ 1
    → stake k (calculate_pots ps) ≡ sum_by (λ p. min p.total_bet (bet_by k ps)) ps
stake-calculate_pots k ps h one = elim (zero_or_one _ _ (contribs-entries k ps h).0 one) [
  | inl out ↦
      rw (calculate_pots-layers ps, (contribs-entries k ps h).1 out)
        (omega (
          arith,
          capped_zero ps,
          stake_none k 0 (sorted ps) (omega (arith, sorted-entries k ps, out)),
        ))
  | inr in_pot ↦ rw (calculate_pots-layers ps) (
      omega (
        arith,
        stake-layers k 0 (bet_by k ps) (sorted ps) (sorted-Ascending ps h)
            (omega (arith, sorted-bets ps h)) (omega (arith, sorted-entries k ps, in_pot))
            (sorted-bet_by k ps h),
        sorted-capped (bet_by k ps) ps h,
      ))
]
