-- ===== src/Game/Pots/Stakes.antt =====
-- Who can win what: the pots that name one player, over the layers of CalculatePots.
use decentralized_poker_engi.Common.{
  ℕ, ◌+◌, ◌*◌, ◌≤◌, ◌<◌, ◌≡◌, refl, arith, List, [], ◌∷◌, sum_by, length, contains, ◌==◌,
  if◌then◌else◌, Bool-cases, inl, inr, true, false, suc, min,
}
use decentralized_poker_engi.Int64.{half}
use decentralized_poker_engi.Game.Pots.{Pot, Contrib, ids, layers}
use decentralized_poker_engi.Game.Pots.Sorting.{Ascending}
use decentralized_poker_engi.Game.Pots.Layers.{Ascending-mono, mul_split, layer_amount_exact}

-- The chips in the pots for which `k` is eligible.
abbrev pub stake : ℕ → List Pot → ℕ
stake k = sum_by (λ p. if contains p.eligible k then p.amount else 0)

-- How many contributions are by `k`, and the chips in them.
abbrev pub entries : ℕ → List Contrib → ℕ
entries k = sum_by (λ c. if c.id == k then 1 else 0)

abbrev pub bet_of : ℕ → List Contrib → ℕ
bet_of k = sum_by (λ c. if c.id == k then c.bet else 0)

contains_none : (k : ℕ) (cs : List Contrib) → entries k cs ≡ 0 → contains (ids cs) k ≡ false
contains_none k [] h = refl
contains_none k (c ∷ cs) h = ground (arith, contains_none k cs)

contains_one : (k : ℕ) (cs : List Contrib) → 0 < entries k cs → contains (ids cs) k ≡ true
contains_one k [] h = absurd (omega arith)
contains_one k (c ∷ cs) h = ground (arith, contains_one k cs)

bet_of_none : (k : ℕ) (cs : List Contrib) → entries k cs ≡ 0 → bet_of k cs ≡ 0
bet_of_none k [] h = refl
bet_of_none k (c ∷ cs) h = ground (arith, bet_of_none k cs)

pub stake_none : (k low : ℕ) (cs : List Contrib) → entries k cs ≡ 0 → stake k (layers low cs) ≡ 0
unfolding layers
stake_none k low [] h = refl
stake_none k low (c ∷ cs) h =
    ground (arith, contains_none k cs, stake_none k low cs, stake_none k c.bet cs)

bet_of_above :
    (k low : ℕ) (cs : List Contrib) → Ascending low cs → entries k cs ≡ 1 → low ≤ bet_of k cs
bet_of_above k low [] s h = absurd (omega arith)
bet_of_above k low (c ∷ cs) s h = ground (arith, bet_of_above k c.bet cs s.1)

capped_above :
    (b : ℕ) (cs : List Contrib) → Ascending b cs → sum_by (λ c. min c.bet b) cs ≡ b * length cs
capped_above b [] s = omega arith
capped_above b (c ∷ cs) s =
    omega (arith, capped_above b cs (Ascending-mono b c.bet cs s.0 s.1), s.0)

module _ (k low : ℕ) (c : Contrib) (cs : List Contrib) where
  stake_step :
      Ascending low (c ∷ cs)
      → sum_by (λ c. c.bet) (c ∷ cs) < half
      → entries k (c ∷ cs) ≡ 1
      → stake k (layers low (c ∷ cs)) + low * suc (length cs)
        ≡ stake k (layers c.bet cs) + c.bet * suc (length cs)
  unfolding layers
  stake_step s h one = elim (Bool-cases (c.bet == low)) [
    | inl same ↦ let e : c.bet ≡ low = ground arith in rw (same, e)
    | inr higher ↦
        rw (higher, contains_one k (c ∷ cs) (omega arith), layer_amount_exact low c cs s h)
          (omega (arith, mul_split c.bet low (length cs) s.0))
  ]

-- The pots above `low` that `k` can win hold what the bets have above it, each cut at `k`'s own.
pub stake-layers :
    (k low b : ℕ) (cs : List Contrib)
    → Ascending low cs
    → sum_by (λ c. c.bet) cs < half
    → entries k cs ≡ 1
    → bet_of k cs ≡ b
    → stake k (layers low cs) + low * length cs ≡ sum_by (λ c. min c.bet b) cs
stake-layers k low b [] s h one e = absurd (omega arith)
stake-layers k low b (c ∷ cs) s h one e = elim (Bool-cases (c.id == k)) [
  | inl mine ↦ ground (
    arith,
    mine,
    stake_step k low c cs s h one,
    stake_none k c.bet cs,
    bet_of_none k cs,
    capped_above b cs,
    Ascending-mono b c.bet cs,
  )
  | inr other ↦ ground (
    arith,
    other,
    stake_step k low c cs s h one,
    stake-layers k c.bet b cs s.1,
    bet_of_above k c.bet cs s.1,
  )
]
