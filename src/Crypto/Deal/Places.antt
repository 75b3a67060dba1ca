-- ===== src/Crypto/Deal/Places.antt =====
-- The places of the cards in the deck.
use decentralized_poker_engi.Common.{
  ℕ, zero, suc, ◌+◌, ◌-◌, ◌*◌, ◌%◌, ◌≤◌, ◌<◌, ◌≡◌, refl, sym, ap, ◌∙◌, arith, inl, inr, Bool-cases,
  if◌then◌else◌, leb, ltb, some,
}
use decentralized_poker_engi.Crypto.Deal.{hole_card_index, community_start_pos}
use native.Mathlib.Nat.{mod-lt, mod-eq_of_lt, mod-eq-sub-mod}

abbrev offset : ℕ → ℕ → ℕ → ℕ
offset n dealer player = if leb player dealer then player + n - dealer - 1 else player - dealer - 1

mod_offset :
    (n dealer player : ℕ)
    → dealer < n
    → player < n
    → (player + n - dealer - 1) % n ≡ offset n dealer player
mod_offset n dealer player h k = elim (Bool-cases (leb player dealer)) [
  | inl e ↦ rw e (mod-eq_of_lt (ground arith))
  | inr e ↦ rw e (
      mod-eq-sub-mod {n = player + n - dealer - 1} {m = n} (ground arith)
      ∙ ap (λ (t : ℕ). t % n)
          (let f : player + n - dealer - 1 - n ≡ player - dealer - 1 = ground arith in f)
      ∙ mod-eq_of_lt (ground arith))
]

-- The player at the `i`-th place left of the dealer.
mod_walk : (n dealer i : ℕ) → dealer < n → i < n → offset n dealer ((dealer + 1 + i) % n) ≡ i
mod_walk n dealer i k l = elim (Bool-cases (ltb (dealer + 1 + i) n)) [
  | inl e ↦ rw (mod-eq_of_lt {n = dealer + 1 + i} {m = n} (ground arith)) (ground arith)
  | inr e ↦
      let f : (dealer + 1 + i) % n ≡ dealer + 1 + i - n =
        mod-eq-sub-mod {n = dealer + 1 + i} {m = n} (ground arith) ∙ mod-eq_of_lt (ground arith) in
      rw f (ground arith)
]

-- The walk of DealHoleCards: the `i`-th player left of the dealer gets the cards at `i` and at
-- `n + i`.
pub hole_card_index_walk :
    (n dealer i round : ℕ)
    → 2 ≤ n
    → dealer < n
    → i < n
    → round < 2
    → hole_card_index n dealer ((dealer + 1 + i) % n) round ≡ some (round * n + i)
unfolding hole_card_index
hole_card_index_walk n dealer i round h k l m =
    let player = (dealer + 1 + i) % n in
    let small : player < n = mod-lt (dealer + 1 + i) (omega arith) in
    ground (arith, mod_offset n dealer player k small, mod_walk n dealer i k l)

hole_card_index_inv :
    (n dealer player round index : ℕ)
    → hole_card_index n dealer player round ≡ some index
    → (dealer < n)
      × (player < n)
      × (round < 2)
      × (index ≡ round * n + (player + n - dealer - 1) % n)
unfolding hole_card_index
hole_card_index_inv n dealer player round index e = ground arith

offset_once :
    (n dealer player player' : ℕ)
    → dealer < n
    → player < n
    → player' < n
    → offset n dealer player ≡ offset n dealer player'
    → player ≡ player'
offset_once n dealer player player' k l m e = ground arith

offset_lt : (n dealer player : ℕ) → dealer < n → player < n → offset n dealer player < n
offset_lt n dealer player k l = ground arith

-- Two digits in base `n`, of which the first is 0 or 1.
digits_once :
    (n r s a b : ℕ)
    → r < 2
    → s < 2
    → a < n
    → b < n
    → r * n + a ≡ s * n + b
    → (r ≡ s) × (a ≡ b) × (r * n + a < 2 * n)
digits_once n zero zero a b h k l m e = (refl, omega arith, omega arith)
digits_once n zero (suc zero) a b h k l m e = absurd (omega arith)
digits_once n (suc zero) zero a b h k l m e = absurd (omega arith)
digits_once n (suc zero) (suc zero) a b h k l m e = (refl, omega arith, omega arith)
digits_once n (suc (suc r)) s a b h k l m e = absurd (omega arith)
digits_once n zero (suc (suc s)) a b h k l m e = absurd (omega arith)
digits_once n (suc zero) (suc (suc s)) a b h k l m e = absurd (omega arith)

-- No place in the deck is used twice: each hole card of each player has its own, and all of them lie
-- before the cards of the board and the three that are burnt.
pub hole_card_index_once :
    (n dealer player round player' round' index : ℕ)
    → hole_card_index n dealer player round ≡ some index
    → hole_card_index n dealer player' round' ≡ some index
    → (player ≡ player') × (round ≡ round') × (index < community_start_pos n)
unfolding community_start_pos
hole_card_index_once n dealer player round player' round' index e f =
    let (d, p, r, at) = hole_card_index_inv n dealer player round index e in
    let (_, p', r', at') = hole_card_index_inv n dealer player' round' index f in
    let o = mod_offset n dealer player d p in
    let o' = mod_offset n dealer player' d p' in
    let (rounds, offsets, small) =
      digits_once n round round' (offset n dealer player) (offset n dealer player') r r'
        (offset_lt n dealer player d p) (offset_lt n dealer player' d p')
        (ap (λ (t : ℕ). round * n + t) (sym o)
          ∙ sym at
          ∙ at'
          ∙ ap (λ (t : ℕ). round' * n + t) o') in
    (offset_once n dealer player player' d p p' offsets, rounds, omega (arith, at, o, small))
