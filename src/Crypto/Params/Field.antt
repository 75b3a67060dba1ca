-- ===== src/Crypto/Params/Field.antt =====
-- The cards as different elements of the field.
use native.Mathlib.Nat.{pow-suc, pow-le-pow_right, mod-eq_of_lt, one-le-pow}
use decentralized_poker_engi.Common.{
  ℕ, zero, suc, ◌+◌, ◌^◌, ◌≤◌, ◌<◌, ◌≡◌, ap, arith, inl, inr, Bool-cases, some, ◌==◌, ==_iff,
}
use decentralized_poker_engi.Crypto.Modular.{exp, IsMessage}
use decentralized_poker_engi.Crypto.Params.{card_to_field, field_to_card, find_card, shared_prime}

-- Every card is a message, and is found again from its element of the field.
abbrev pub IsCardField : ℕ → Type 0
IsCardField p =
    (id : ℕ)
    → id < 52
    → (field_to_card (card_to_field id p) p ≡ some id) × IsMessage p (card_to_field id p)

two_power_lt : (i j : ℕ) → i < j → 2 ^ i < 2 ^ j
two_power_lt i j h = omega (
  arith,
  pow-suc 2 i,
  pow-le-pow_right {n = 2} (omega arith) {i = suc i} {j = j} h,
  one-le-pow i 2 (omega arith),
)

module _ (p : ℕ) (large : 2 ^ 52 + 2 ≤ p) where
  element : (id : ℕ) → id < 52 → (exp 2 (id + 1) p ≡ 2 ^ (id + 1)) × (2 ^ (id + 1) ≤ 2 ^ 52)
  unfolding exp
  element id h =
      let bound = pow-le-pow_right {n = 2} (omega arith) {i = id + 1} {j = 52} (omega arith) in
      (mod-eq_of_lt (omega (arith, bound, large)), bound)

  find_card_lem :
      (n from id : ℕ)
      → from ≤ id
      → id < from + n
      → from + n ≤ 52
      → find_card n from (exp 2 (id + 1) p) p ≡ some id
  unfolding find_card
  find_card_lem zero from id h k l = absurd (omega arith)
  find_card_lem (suc n) from id h k l = elim (Bool-cases (from == id)) [
    | inl e ↦
        let same : from ≡ id = (==_iff from id).0 e in
        ground (arith, ap (λ (t : ℕ). exp 2 (t + 1) p) same, same)
    | inr e ↦
        let lt : from < id = ground arith in
        ground (
          arith,
          element from (omega arith),
          element id (omega arith),
          two_power_lt (from + 1) (id + 1) (omega arith),
          find_card_lem n (from + 1) id (omega (arith, lt)) (omega arith) (omega arith),
        )
  ]

  -- The 52 cards are different messages of the field, and each is found again from its element, for a
  -- modulus from 2 ^ 52 + 2 on.
  pub large-IsCardField : IsCardField p
  unfolding card_to_field field_to_card
  large-IsCardField id h =
      let (same, bound) = element id h in
      (
        find_card_lem 52 0 id (omega arith) (omega arith) (omega arith),
        ground (arith, same, bound, one-le-pow (id + 1) 2 (omega arith)),
      )

-- As for the prime that the game uses.
pub shared_prime-IsCardField : IsCardField shared_prime
shared_prime-IsCardField = large-IsCardField shared_prime (omega arith)
