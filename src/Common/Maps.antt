-- ===== src/Common/Maps.antt =====
-- A Go map as an association list with numbers for keys: the order of a visit is not fixed by the
-- language, and this is one such order.
use decentralized_poker_engi.Common.Tests.{if◌then◌else◌, ◌==◌, ==_iff, Bool-cases}
use Prim.Native.Nat.{ℕ}
use mathlib.Core.Path.{◌≡◌, refl, sym, subst}
use mathlib.Core.Bool.{false}
use mathlib.Core.Logic.{inl, inr}
use mathlib.Core.Option.{Option, none, some}
use mathlib.Core.List.{List, [], ◌∷◌}
use native.Mathlib.Omega.{arith}

module _ {ℓ} {V : Type ℓ} where
  abbrev pub lookup : ℕ → List (ℕ × V) → Option V
  lookup k [] = none
  lookup k ((j, v) ∷ m) = let rest = lookup k m in if j == k then some v else rest

  -- `m[k] = v`
  abbrev pub insert : ℕ → V → List (ℕ × V) → List (ℕ × V)
  insert k v [] = (k, v) ∷ []
  insert k v ((j, w) ∷ m) = let rest = insert k v m in if j == k then (j, v) ∷ m else (j, w) ∷ rest

  pub lookup-insert :
      (k j : ℕ) (v : V) (m : List (ℕ × V))
      → lookup j (insert k v m) ≡ (if k == j then some v else lookup j m)
  lookup-insert k j v [] = refl
  lookup-insert k j v ((i, w) ∷ m) = ground (arith, lookup-insert k j v m)

  -- `delete(m, k)`
  abbrev pub delete : ℕ → List (ℕ × V) → List (ℕ × V)
  delete k [] = []
  delete k ((j, v) ∷ m) = let rest = delete k m in if j == k then rest else (j, v) ∷ rest

  -- A predicate of every entry.
  abbrev pub Entries : (ℕ → V → Type 0) → List (ℕ × V) → Type 0
  Entries P [] = Unit {0}
  Entries P ((j, v) ∷ m) = P j v × Entries P m

  pub Entries-lookup :
      (P : ℕ → V → Type 0) (k : ℕ) (v : V) (m : List (ℕ × V))
      → lookup k m ≡ some v
      → Entries P m
      → P k v
  Entries-lookup P k v [] h e = absurd (ground arith)
  Entries-lookup P k v ((j, w) ∷ m) h e = elim (Bool-cases (j == k)) [
    | inl same ↦
        let keys : j ≡ k = (==_iff j k).0 same in
        let values : w ≡ v = ground arith in
        subst (λ (t : ℕ). P t v) keys (subst (λ (t : V). P j t) values e.0)
    | inr other ↦ Entries-lookup P k v m (ground arith) e.1
  ]

  pub Entries-insert :
      (P : ℕ → V → Type 0) (k : ℕ) (v : V) (m : List (ℕ × V))
      → P k v
      → Entries P m
      → Entries P (insert k v m)
  Entries-insert P k v [] h e = (h, tt)
  Entries-insert P k v ((j, w) ∷ m) h e = elim (Bool-cases (j == k)) [
    | inl same ↦ rw same (subst (λ (t : ℕ). P t v) (sym ((==_iff j k).0 same)) h, e.1)
    | inr other ↦ rw other (e.0, Entries-insert P k v m h e.1)
  ]

  -- Where the entry of `k` goes, what holds need not hold of it.
  pub Entries-delete :
      (P Q : ℕ → V → Type 0) (k : ℕ) (m : List (ℕ × V))
      → ((j : ℕ) (v : V) → (j == k) ≡ false → P j v → Q j v)
      → Entries P m
      → Entries Q (delete k m)
  Entries-delete P Q k [] f e = tt
  Entries-delete P Q k ((j, v) ∷ m) f e = elim (Bool-cases (j == k)) [
    | inl same ↦ rw same (Entries-delete P Q k m f e.1)
    | inr other ↦ rw other (f j v other e.0, Entries-delete P Q k m f e.1)
  ]
