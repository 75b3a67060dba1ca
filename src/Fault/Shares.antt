-- ===== src/Fault/Shares.antt =====
-- internal/fault/shamir.go: the key shares that a peer holds for itself and for reconstruction. A
-- share's value and the secret sharing of internal/crypto are not looked into.
pub mod Distinct
use decentralized_poker_engi.Common.{
  ℕ, zero, suc, ◌+◌, ◌/◌, Bool, true, false, Option, none, some, List, [], ◌∷◌, ◌++◌, leb, ltb,
  ◌==◌, length, if◌then◌else◌,
}
use decentralized_poker_engi.Common.Maps.{lookup, insert}

pub record ShamirShare : Type 0 where
  pub index : ℕ
  pub value : ℕ

pub record KeyShareStore : Type 0 where
  pub shares_received : List (ℕ × ShamirShare)
  pub shares_held : List (ℕ × List ShamirShare)

unfoldable pub store_my_share : ℕ → ShamirShare → KeyShareStore → KeyShareStore
store_my_share owner share ks = record ks {
  shares_received = insert owner share ks.shares_received;
}

unfoldable pub contribute_share : ℕ → KeyShareStore → Option ShamirShare
contribute_share owner ks = lookup owner ks.shares_received

-- `ks.sharesHeld[owner]`: a missing key is the empty slice.
abbrev pub held_for : ℕ → KeyShareStore → List ShamirShare
held_for owner ks = elim (lookup owner ks.shares_held) [ none ↦ [] | some shares ↦ shares ]

-- The loop that looks for a share with the same index.
abbrev pub has_index : List ShamirShare → ℕ → Bool
has_index [] i = false
has_index (s ∷ ss) i = let rest = has_index ss i in if s.index == i then true else rest

unfoldable pub add_reconstruction_share : ℕ → ShamirShare → KeyShareStore → KeyShareStore
add_reconstruction_share owner share ks =
    if has_index (held_for owner ks) share.index
    then ks
    else record ks { shares_held = insert owner (held_for owner ks ++ share ∷ []) ks.shares_held }

unfoldable pub can_reconstruct : ℕ → ℕ → KeyShareStore → Bool
can_reconstruct owner threshold ks = leb threshold (length (held_for owner ks))

abbrev take_shares : ℕ → List ShamirShare → List ShamirShare
take_shares zero ss = []
take_shares (suc n) [] = []
take_shares (suc n) (s ∷ ss) = s ∷ take_shares n ss

-- The shares that Reconstruct hands to ReconstructSecret, or an error.
unfoldable pub shares_to_join : ℕ → ℕ → KeyShareStore → Option (List ShamirShare)
shares_to_join owner threshold ks =
    let shares = held_for owner ks in
    if ltb (length shares) threshold then none else some (take_shares threshold shares)
