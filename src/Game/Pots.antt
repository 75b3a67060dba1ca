-- ===== src/Game/Pots.antt =====
-- internal/game/pot.go. `sort.Slice` is the insertion sort that Go runs on up to twelve elements.
pub mod Sorting
pub mod Layers
pub mod Stakes
pub mod Totals
use decentralized_poker_engi.Common.{
  ℕ, Bool, true, false, List, [], ◌∷◌, ◌==◌, if◌then◌else◌, length, contains, map,
}
use decentralized_poker_engi.Int64.{add64, sub64, lt64}
use decentralized_poker_engi.Game.Player.{Player}

pub record Pot : Type 0 where
  pub amount : ℕ
  pub eligible : List ℕ

-- The local type `contrib` of CalculatePots; of the player only the identifier is used.
pub record Contrib : Type 0 where
  pub id : ℕ
  pub bet : ℕ

unfoldable pub contribs : List Player → List Contrib
contribs [] = []
contribs (p ∷ ps) =
    let rest = contribs ps in
    if lt64 0 p.total_bet then record { id = p.id; bet = p.total_bet } ∷ rest else rest

-- One round of the insertion sort: `x` moves left past the greater bets of a sorted prefix.
unfoldable pub insert_contrib : Contrib → List Contrib → List Contrib
insert_contrib x [] = x ∷ []
insert_contrib x (y ∷ ys) = if lt64 x.bet y.bet then x ∷ y ∷ ys else y ∷ insert_contrib x ys

unfoldable pub sort_contribs : List Contrib → List Contrib → List Contrib
sort_contribs done [] = done
sort_contribs done (x ∷ xs) = sort_contribs (insert_contrib x done) xs

abbrev pub ids : List Contrib → List ℕ
ids = map (λ c. c.id)

-- The inner loop: `amount += diff` for each contribution of the layer.
unfoldable pub layer_amount : ℕ → ℕ → List Contrib → ℕ
layer_amount amount diff [] = amount
layer_amount amount diff (c ∷ cs) = layer_amount (add64 amount diff) diff cs

-- The outer loop, over the contributions that are left, above `prev_level`.
unfoldable pub layers : ℕ → List Contrib → List Pot
layers prev_level [] = []
layers prev_level (c ∷ cs) =
    let same = layers prev_level cs in
    let higher = layers c.bet cs in
    if c.bet == prev_level
    then same
    else record {
      amount = layer_amount 0 (sub64 c.bet prev_level) (c ∷ cs);
      eligible = ids (c ∷ cs);
    }
      ∷ higher

-- Every identifier of `b` is in the set built from `a`.
abbrev pub contains_all : List ℕ → List ℕ → Bool
contains_all a [] = true
contains_all a (i ∷ b) = let rest = contains_all a b in if contains a i then rest else false

unfoldable pub same_eligible : List ℕ → List ℕ → Bool
same_eligible a b = if length a == length b then contains_all a b else false

-- The loop of mergePots, `last` the last pot of the merged list.
unfoldable pub merge_from : Pot → List Pot → List Pot
merge_from last [] = last ∷ []
merge_from last (p ∷ ps) =
    let joined = merge_from (record last { amount = add64 last.amount p.amount }) ps in
    let apart = last ∷ merge_from p ps in
    if same_eligible last.eligible p.eligible then joined else apart

unfoldable pub merge_pots : List Pot → List Pot
merge_pots [] = []
merge_pots (p ∷ ps) = merge_from p ps

unfoldable pub calculate_pots : List Player → List Pot
calculate_pots players = merge_pots (layers 0 (sort_contribs [] (contribs players)))

-- The loop of TotalPot.
unfoldable pub total_from : ℕ → List Pot → ℕ
total_from total [] = total
total_from total (p ∷ ps) = total_from (add64 total p.amount) ps

unfoldable pub total_pot : List Pot → ℕ
unfolding total_from
total_pot = total_from 0
