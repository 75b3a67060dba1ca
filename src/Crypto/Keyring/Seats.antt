-- ===== src/Crypto/Keyring/Seats.antt =====
-- Seats of a keyring.
use decentralized_poker_engi.Common.{
  ℕ, zero, suc, ◌+◌, ◌≡◌, ◌≢◌, All, ap, ◌∙◌, arith, some, List, [], ◌∷◌, get_elem?, ◌==◌,
  Bool-cases, inl, inr,
}
use decentralized_poker_engi.Crypto.Keyring.{Keyring, index_of, seat_index}

pub index_of-get_elem? :
    (base id i : ℕ) (xs : List ℕ)
    → index_of base id xs ≡ some i
    → (j : ℕ) × (i ≡ base + j) × (get_elem? xs j ≡ some id)
unfolding index_of
index_of-get_elem? base id i [] h = absurd (ground arith)
index_of-get_elem? base id i (x ∷ xs) h = elim (Bool-cases (x == id)) [
  | inl e ↦ (0, ground arith, ground arith)
  | inr e ↦
      let (j, at, is) = index_of-get_elem? (suc base) id i xs (ground arith) in
      (suc j, omega (arith, at), is)
]

-- A peer's seat index is his place in the order.
pub seat_index-get_elem? :
    (id i : ℕ) (kr : Keyring) → seat_index id kr ≡ some i → get_elem? kr.order i ≡ some id
unfolding seat_index
seat_index-get_elem? id i kr h =
    let (j, at, is) = index_of-get_elem? 0 id i kr.order h in
    ap (get_elem? kr.order) (let e : i ≡ j = omega (arith, at) in e) ∙ is

-- No identifier comes twice.
abbrev pub AllDiffer : List ℕ → Type 0
AllDiffer [] = Unit {0}
AllDiffer (x ∷ xs) = All (λ y. y ≢ x) xs × AllDiffer xs

All-get_elem? :
    (x : ℕ) (xs : List ℕ) (i y : ℕ) → All (λ y. y ≢ x) xs → get_elem? xs i ≡ some y → y ≢ x
All-get_elem? x [] i y a h = absurd (ground arith)
All-get_elem? x (z ∷ xs) zero y a h = ground (arith, a.0)
All-get_elem? x (z ∷ xs) (suc i) y a h = All-get_elem? x xs i y a.1 h

-- An identifier that comes once is found at its place.
pub get_elem?-index_of :
    (base : ℕ) (xs : List ℕ) (i id : ℕ)
    → AllDiffer xs
    → get_elem? xs i ≡ some id
    → index_of base id xs ≡ some (base + i)
unfolding index_of
get_elem?-index_of base [] i id d h = absurd (ground arith)
get_elem?-index_of base (x ∷ xs) zero id d h = ground arith
get_elem?-index_of base (x ∷ xs) (suc i) id d h =
    let differs = All-get_elem? x xs i id d.0 h in
    ground (arith, differs, get_elem?-index_of (suc base) xs i id d.1 h)
