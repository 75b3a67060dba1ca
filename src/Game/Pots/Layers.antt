-- ===== src/Game/Pots/Layers.antt =====
-- The pots as layers: their amounts add up to the bets, and the merge pass changes nothing.
use decentralized_poker_engi.Common.{
  ℕ, ◌+◌, ◌*◌, ◌-◌, ◌≤◌, ◌<◌, ◌≡◌, refl, ap, arith, List, [], ◌∷◌, sum_by, length, ◌==◌, Bool-cases,
  inl, inr, suc,
}
use decentralized_poker_engi.Int64.{half, word, add64, sub64, add64_exact, sub64_exact}
use decentralized_poker_engi.Game.Pots.{
  Pot, Contrib, ids, layer_amount, layers, same_eligible, merge_from, merge_pots, total_from,
}
use decentralized_poker_engi.Game.Pots.Sorting.{Ascending}

pub layer_amount_lem :
    (amount diff : ℕ) (cs : List Contrib)
    → amount + diff * length cs < word
    → layer_amount amount diff cs ≡ amount + diff * length cs
unfolding layer_amount
layer_amount_lem amount diff [] h = omega arith
layer_amount_lem amount diff (c ∷ cs) h =
    let e : add64 amount diff ≡ amount + diff = add64_exact amount diff (omega arith) in
    rw e (omega (arith, layer_amount_lem (amount + diff) diff cs (omega arith)))

pub Ascending-mono :
    (low high : ℕ) (cs : List Contrib) → low ≤ high → Ascending high cs → Ascending low cs
Ascending-mono low high [] h s = tt
Ascending-mono low high (c ∷ cs) h s = (omega arith, s.1)

pub Ascending-le_sum :
    (low : ℕ) (cs : List Contrib) → Ascending low cs → low * length cs ≤ sum_by (λ c. c.bet) cs
Ascending-le_sum low [] s = omega arith
Ascending-le_sum low (c ∷ cs) s =
    omega (arith, Ascending-le_sum low cs (Ascending-mono low c.bet cs s.0 s.1))

pub mul_split : (b low n : ℕ) → low ≤ b → (b - low) * suc n + low * suc n ≡ b + b * n
mul_split b low n h =
    let e : b ≡ low + (b - low) = omega arith in omega (arith, ap (λ (t : ℕ). t * suc n) e)

-- The lowest layer has the same difference for each contribution that reaches it.
pub layer_amount_exact :
    (low : ℕ) (c : Contrib) (cs : List Contrib)
    → Ascending low (c ∷ cs)
    → sum_by (λ c. c.bet) (c ∷ cs) < half
    → layer_amount 0 (sub64 c.bet low) (c ∷ cs) ≡ (c.bet - low) * suc (length cs)
layer_amount_exact low c cs s h =
    rw (sub64_exact c.bet low s.0 (omega arith))
      (omega (arith, layer_amount_lem 0 (c.bet - low) (c ∷ cs) fits))
  where
    split : c.bet ≡ low + (c.bet - low)
    split = omega (arith, s.0)

    fits : 0 + (c.bet - low) * suc (length cs) < word
    fits = grind (arith, Ascending-le_sum c.bet cs s.1, split)

layer_step :
    (low : ℕ) (c : Contrib) (cs : List Contrib)
    → Ascending low (c ∷ cs)
    → sum_by (λ c. c.bet) (c ∷ cs) < half
    → sum_by (λ p. p.amount) (layers c.bet cs) + c.bet * length cs ≡ sum_by (λ c. c.bet) cs
    → layer_amount 0 (sub64 c.bet low) (c ∷ cs)
        + sum_by (λ p. p.amount) (layers c.bet cs)
        + low * suc (length cs)
      ≡ c.bet + sum_by (λ c. c.bet) cs
layer_step low c cs s h ih =
    rw (layer_amount_exact low c cs s h) (omega (arith, mul_split c.bet low (length cs) s.0, ih))

-- The layers above `low` hold what the bets have above it.
pub layers_total :
    (low : ℕ) (cs : List Contrib)
    → Ascending low cs
    → sum_by (λ c. c.bet) cs < half
    → sum_by (λ p. p.amount) (layers low cs) + low * length cs ≡ sum_by (λ c. c.bet) cs
unfolding layers
layers_total low [] s h = omega arith
layers_total low (c ∷ cs) s h = elim (Bool-cases (c.bet == low)) [
  | inl same ↦ rw same (ground (arith, layers_total low cs (Ascending-mono low c.bet cs s.0 s.1)))
  | inr higher ↦ rw higher (layer_step low c cs s h (layers_total c.bet cs s.1 (omega arith)))
]

-- The eligible lists get shorter from pot to pot, from below `n` on.
abbrev pub Shrinking : ℕ → List Pot → Type 0
Shrinking n [] = Unit {0}
Shrinking n (p ∷ ps) = (length p.eligible < n) × Shrinking (length p.eligible) ps

length-ids : (cs : List Contrib) → length (ids cs) ≡ length cs
length-ids [] = refl
length-ids (c ∷ cs) = ap suc (length-ids cs)

pub layers-Shrinking : (low n : ℕ) (cs : List Contrib) → length cs < n → Shrinking n (layers low cs)
unfolding layers
layers-Shrinking low n [] h = tt
layers-Shrinking low n (c ∷ cs) h =
    ground
      (arith, length-ids cs, layers-Shrinking low n cs, layers-Shrinking c.bet (suc (length cs)) cs)

merge_from-Shrinking :
    (last : Pot) (ps : List Pot)
    → Shrinking (length last.eligible) ps
    → merge_from last ps ≡ last ∷ ps
unfolding merge_from same_eligible
merge_from-Shrinking last [] s = refl
merge_from-Shrinking last (p ∷ ps) s = ground (arith, merge_from-Shrinking p ps s.1)

pub merge_pots-Shrinking : (n : ℕ) (ps : List Pot) → Shrinking n ps → merge_pots ps ≡ ps
unfolding merge_pots
merge_pots-Shrinking n [] s = refl
merge_pots-Shrinking n (p ∷ ps) s = merge_from-Shrinking p ps s.1

pub total_from_lem :
    (total : ℕ) (ps : List Pot)
    → total + sum_by (λ p. p.amount) ps < word
    → total_from total ps ≡ total + sum_by (λ p. p.amount) ps
unfolding total_from
total_from_lem total [] h = omega arith
total_from_lem total (p ∷ ps) h =
    let e : add64 total p.amount ≡ total + p.amount = add64_exact total p.amount (omega arith) in
    rw e (omega (arith, total_from_lem (total + p.amount) ps (omega arith)))
