-- ===== src/Fault/Shares/Distinct.antt =====
-- The shares that are joined to a key have different indices.
use decentralized_poker_engi.Common.{
  ℕ, zero, suc, ◌≤◌, ◌≡◌, refl, arith, true, false, some, List, [], ◌∷◌, ◌++◌, ◌==◌, length,
  if◌then◌else◌,
}
use decentralized_poker_engi.Common.Maps.{lookup-insert}
use decentralized_poker_engi.Fault.Shares.{
  ShamirShare, KeyShareStore, held_for, has_index, add_reconstruction_share, can_reconstruct,
  take_shares, shares_to_join,
}

-- No two shares have the same index.
abbrev pub Distinct : List ShamirShare → Type 0
Distinct [] = Unit {0}
Distinct (s ∷ ss) = (has_index ss s.index ≡ false) × Distinct ss

abbrev pub AllDistinct : KeyShareStore → Type 0
AllDistinct ks = (owner : ℕ) → Distinct (held_for owner ks)

has_index-append :
    (ss : List ShamirShare) (s : ShamirShare) (i : ℕ)
    → has_index (ss ++ s ∷ []) i ≡ (if has_index ss i then true else s.index == i)
has_index-append [] s i = ground arith
has_index-append (x ∷ ss) s i = ground (arith, has_index-append ss s i)

Distinct-append :
    (ss : List ShamirShare) (s : ShamirShare)
    → Distinct ss
    → has_index ss s.index ≡ false
    → Distinct (ss ++ s ∷ [])
Distinct-append [] s d h = (refl, tt)
Distinct-append (x ∷ ss) s d h =
    ground (arith, has_index-append ss s x.index, Distinct-append ss s d.1)

-- Adding a share keeps the indices of every owner's shares different.
pub add_reconstruction_share-AllDistinct :
    (owner : ℕ) (share : ShamirShare) (ks : KeyShareStore)
    → AllDistinct ks
    → AllDistinct (add_reconstruction_share owner share ks)
unfolding add_reconstruction_share
add_reconstruction_share-AllDistinct owner share ks d other = ground (
  arith,
  d other,
  d owner,
  Distinct-append (held_for owner ks) share (d owner),
  lookup-insert owner other (held_for owner ks ++ share ∷ []) ks.shares_held,
)

length-take_shares : (n : ℕ) (ss : List ShamirShare) → n ≤ length ss → length (take_shares n ss) ≡ n
length-take_shares zero ss h = refl
length-take_shares (suc n) [] h = absurd (omega arith)
length-take_shares (suc n) (s ∷ ss) h = omega (arith, length-take_shares n ss (omega arith))

has_index-take_shares :
    (n : ℕ) (ss : List ShamirShare) (i : ℕ)
    → has_index ss i ≡ false
    → has_index (take_shares n ss) i ≡ false
has_index-take_shares zero ss i h = refl
has_index-take_shares (suc n) [] i h = refl
has_index-take_shares (suc n) (s ∷ ss) i h = ground (arith, has_index-take_shares n ss i)

Distinct-take_shares : (n : ℕ) (ss : List ShamirShare) → Distinct ss → Distinct (take_shares n ss)
Distinct-take_shares zero ss d = tt
Distinct-take_shares (suc n) [] d = tt
Distinct-take_shares (suc n) (s ∷ ss) d =
    (has_index-take_shares n ss s.index d.0, Distinct-take_shares n ss d.1)

-- Where the store can reconstruct a key it joins as many shares as the threshold asks for, with
-- different indices.
pub shares_to_join_lem :
    (owner threshold : ℕ) (ks : KeyShareStore)
    → AllDistinct ks
    → can_reconstruct owner threshold ks ≡ true
    → (ss : List ShamirShare) × (shares_to_join owner threshold ks ≡ some ss)
      × (length ss ≡ threshold)
      × Distinct ss
unfolding can_reconstruct shares_to_join
shares_to_join_lem owner threshold ks d h =
    let shares = held_for owner ks in
    (
      take_shares threshold shares,
      ground arith,
      length-take_shares threshold shares (ground arith),
      Distinct-take_shares threshold shares (d owner),
    )
