-- ===== src/Crypto/Shuffle/Permutations.antt =====
-- A list of swaps makes a permutation, and permutes any deck of its length.
use mathlib.Core.List.Perm
use mathlib.Core.List.{Perm, append_assoc}
use decentralized_poker_engi.Common.{
  ℕ, zero, suc, ◌+◌, ◌≤◌, ◌<◌, ◌≡◌, refl, ap, ap₂, ◌∙◌, subst, arith, some, Option-cases, inl, inr,
  List, [], ◌∷◌, ◌++◌, map, length, length-append, get_elem?, get_or, set, All,
}
use decentralized_poker_engi.Crypto.Shuffle.{
  count_up, swap_at, swap_all, random_permutation, permute,
}

-- What is written takes the place of what was there.
perm_set : (xs : List ℕ) (i a v : ℕ) → get_elem? xs i ≡ some a → Perm (a ∷ set xs i v) (v ∷ xs)
perm_set [] i a v h = absurd (ground arith)
perm_set (x ∷ xs) zero a v h = subst (λ t. Perm (t ∷ v ∷ xs) (v ∷ x ∷ xs)) (cc) (Perm.swap v x xs)
perm_set (x ∷ xs) (suc i) a v h =
    Perm.trans (Perm.swap x a (set xs i v))
      (Perm.trans (Perm.cons x (perm_set xs i a v h)) (Perm.swap v x xs))

get_elem?-set :
    (xs : List ℕ) (i j a b : ℕ)
    → get_elem? xs i ≡ some a
    → get_elem? xs j ≡ some b
    → get_elem? (set xs i b) j ≡ some b
get_elem?-set [] i j a b h k = k
get_elem?-set (x ∷ xs) zero zero a b h k = refl
get_elem?-set (x ∷ xs) zero (suc j) a b h k = k
get_elem?-set (x ∷ xs) (suc i) zero a b h k = k
get_elem?-set (x ∷ xs) (suc i) (suc j) a b h k = get_elem?-set xs i j a b h k

swap_at-perm : (i j : ℕ) (xs : List ℕ) → Perm (swap_at i j xs) xs
unfolding swap_at
swap_at-perm i j xs = elim (Option-cases (get_elem? xs i)) [
  | inl e ↦ rw (e, swap_at) (Perm.refl xs)
  | inr (a, e) ↦ elim (Option-cases (get_elem? xs j)) [
    | inl f ↦ rw (e, f, swap_at) (Perm.refl xs)
    | inr (b, f) ↦
        rw (e, f, swap_at)
          (Perm.cons_inv (
            Perm.trans (perm_set (set xs i b) j b a (get_elem?-set xs i j a b e f))
              (perm_set xs i a b e)))
  ]
]

swap_all-perm : (swaps : List (ℕ × ℕ)) (xs : List ℕ) → Perm (swap_all swaps xs) xs
unfolding swap_all
swap_all-perm [] xs = Perm.refl xs
swap_all-perm ((i, j) ∷ swaps) xs =
    Perm.trans (swap_all-perm swaps (swap_at i j xs)) (swap_at-perm i j xs)

-- Every index is below the length.
abbrev InRange : ℕ → List ℕ → Type 0
InRange n = All (λ i. i < n)

InRange-set : (n : ℕ) (xs : List ℕ) (i v : ℕ) → v < n → InRange n xs → InRange n (set xs i v)
InRange-set n [] i v h r = tt
InRange-set n (x ∷ xs) zero v h r = (h, r.1)
InRange-set n (x ∷ xs) (suc i) v h r = (r.0, InRange-set n xs i v h r.1)

InRange-get_elem? : (n : ℕ) (xs : List ℕ) (i a : ℕ) → get_elem? xs i ≡ some a → InRange n xs → a < n
InRange-get_elem? n [] i a h r = absurd (ground arith)
InRange-get_elem? n (x ∷ xs) zero a h r = ground arith
InRange-get_elem? n (x ∷ xs) (suc i) a h r = InRange-get_elem? n xs i a h r.1

swap_at-InRange : (n i j : ℕ) (xs : List ℕ) → InRange n xs → InRange n (swap_at i j xs)
unfolding swap_at
swap_at-InRange n i j xs r = elim (Option-cases (get_elem? xs i)) [
  | inl e ↦ rw (e, swap_at) r
  | inr (a, e) ↦ elim (Option-cases (get_elem? xs j)) [
    | inl f ↦ rw (e, f, swap_at) r
    | inr (b, f) ↦
        rw (e, f, swap_at)
          (InRange-set n (set xs i b) j a (InRange-get_elem? n xs i a e r)
            (InRange-set n xs i b (InRange-get_elem? n xs j b f r) r))
  ]
]

swap_all-InRange :
    (n : ℕ) (swaps : List (ℕ × ℕ)) (xs : List ℕ) → InRange n xs → InRange n (swap_all swaps xs)
unfolding swap_all
swap_all-InRange n [] xs r = r
swap_all-InRange n ((i, j) ∷ swaps) xs r =
    swap_all-InRange n swaps (swap_at i j xs) (swap_at-InRange n i j xs r)

count_up-InRange : (i n m : ℕ) → i + n ≤ m → InRange m (count_up i n)
count_up-InRange i zero m h = tt
count_up-InRange i (suc n) m h = (omega arith, count_up-InRange (suc i) n m (omega arith))

get_elem?-get_or : (xs : List ℕ) (i : ℕ) → i < length xs → get_elem? xs i ≡ some (get_or xs i 0)
get_elem?-get_or [] i h = absurd (omega arith)
get_elem?-get_or (x ∷ xs) zero h = refl
get_elem?-get_or (x ∷ xs) (suc i) h = get_elem?-get_or xs i (omega arith)

permute-map :
    (perm xs : List ℕ)
    → InRange (length xs) perm
    → permute perm xs ≡ some (map (λ i. get_or xs i 0) perm)
unfolding permute
permute-map [] xs r = refl
permute-map (i ∷ perm) xs (h, r) = rw (get_elem?-get_or xs i h, permute-map perm xs r) refl

get_or-append : (xs : List ℕ) (y : ℕ) (ys : List ℕ) → get_or (xs ++ y ∷ ys) (length xs) 0 ≡ y
get_or-append [] y ys = refl
get_or-append (x ∷ xs) y ys = get_or-append xs y ys

-- The indices in their order give the list itself; `done` are the elements before.
map-count_up :
    (done xs : List ℕ)
    → map (λ i. get_or (done ++ xs) i 0) (count_up (length done) (length xs)) ≡ xs
map-count_up done [] = refl
map-count_up done (x ∷ xs) = ap₂ ◌∷◌ (get_or-append done x xs) (
    subst (λ (t : List ℕ). map (λ i. get_or t i 0) (count_up (suc (length done)) (length xs)) ≡ xs)
      (append_assoc done (x ∷ []) xs)
      (subst
        (λ (t : ℕ). map (λ i. get_or ((done ++ x ∷ []) ++ xs) i 0) (count_up t (length xs)) ≡ xs)
        (omega (arith, length-append done (x ∷ []))) (map-count_up (done ++ x ∷ []) xs)))

-- The deck after the permutation that the swaps make.
abbrev pub permuted : List (ℕ × ℕ) → List ℕ → List ℕ
permuted swaps xs = map (λ i. get_or xs i 0) (random_permutation (length xs) swaps)

random_permutation-InRange : (swaps : List (ℕ × ℕ)) (n : ℕ) → InRange n (random_permutation n swaps)
unfolding random_permutation
random_permutation-InRange swaps n =
    swap_all-InRange n swaps (count_up 0 n) (count_up-InRange 0 n n (omega arith))

pub permute_lem :
    (swaps : List (ℕ × ℕ)) (xs : List ℕ)
    → permute (random_permutation (length xs) swaps) xs ≡ some (permuted swaps xs)
permute_lem swaps xs =
    permute-map (random_permutation (length xs) swaps) xs
      (random_permutation-InRange swaps (length xs))

pub permuted-perm : (swaps : List (ℕ × ℕ)) (xs : List ℕ) → Perm (permuted swaps xs) xs
unfolding random_permutation
permuted-perm swaps xs =
    subst (λ (t : List ℕ). Perm (permuted swaps xs) t) (map-count_up [] xs)
      (Perm.map (λ (i : ℕ). get_or xs i 0) (swap_all-perm swaps (count_up 0 (length xs))))

All-get_or : (P : ℕ → Type 0) (xs : List ℕ) (i : ℕ) → i < length xs → All P xs → P (get_or xs i 0)
All-get_or P [] i h a = absurd (omega arith)
All-get_or P (x ∷ xs) zero h a = a.0
All-get_or P (x ∷ xs) (suc i) h a = All-get_or P xs i (omega arith) a.1

All-map :
    (P : ℕ → Type 0) (xs perm : List ℕ)
    → InRange (length xs) perm
    → All P xs
    → All P (map (λ i. get_or xs i 0) perm)
All-map P xs [] r a = tt
All-map P xs (i ∷ perm) (h, r) a = (All-get_or P xs i h a, All-map P xs perm r a)

-- Whatever holds of the elements still does.
pub permuted-All :
    (P : ℕ → Type 0) (swaps : List (ℕ × ℕ)) (xs : List ℕ) → All P xs → All P (permuted swaps xs)
permuted-All P swaps xs a =
    All-map P xs (random_permutation (length xs) swaps)
      (random_permutation-InRange swaps (length xs)) a

length-set : (xs : List ℕ) (i v : ℕ) → length (set xs i v) ≡ length xs
length-set [] i v = refl
length-set (x ∷ xs) zero v = refl
length-set (x ∷ xs) (suc i) v = ap suc (length-set xs i v)

length-swap_at : (i j : ℕ) (xs : List ℕ) → length (swap_at i j xs) ≡ length xs
unfolding swap_at
length-swap_at i j xs = elim (Option-cases (get_elem? xs i)) [
  | inl e ↦ rw (e, swap_at) refl
  | inr (a, e) ↦ elim (Option-cases (get_elem? xs j)) [
    | inl f ↦ rw (e, f, swap_at) refl
    | inr (b, f) ↦ rw (e, f, swap_at) (length-set (set xs i b) j a ∙ length-set xs i b)
  ]
]

length-swap_all : (swaps : List (ℕ × ℕ)) (xs : List ℕ) → length (swap_all swaps xs) ≡ length xs
unfolding swap_all
length-swap_all [] xs = refl
length-swap_all ((i, j) ∷ swaps) xs = length-swap_all swaps (swap_at i j xs) ∙ length-swap_at i j xs

length-count_up : (i n : ℕ) → length (count_up i n) ≡ n
length-count_up i zero = refl
length-count_up i (suc n) = ap suc (length-count_up (suc i) n)

pub length-map : (f : ℕ → ℕ) (xs : List ℕ) → length (map f xs) ≡ length xs
length-map f [] = refl
length-map f (x ∷ xs) = ap suc (length-map f xs)

pub length-permuted : (swaps : List (ℕ × ℕ)) (xs : List ℕ) → length (permuted swaps xs) ≡ length xs
unfolding random_permutation
length-permuted swaps xs =
    length-map (λ i. get_or xs i 0) (swap_all swaps (count_up 0 (length xs)))
    ∙ length-swap_all swaps (count_up 0 (length xs))
    ∙ length-count_up 0 (length xs)
