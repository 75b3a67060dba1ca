-- ===== src/Crypto/Keyring.antt =====
-- internal/crypto/keyring.go: this node's key, and the public keys of every seat. Identifiers are
-- numbers, and 0 is the empty one. An error is `none`.
pub mod Seats
use decentralized_poker_engi.Common.{
  ℕ, suc, Bool, true, false, not, Option, none, some, List, [], ◌∷◌, length, ltb, ◌==◌,
  if◌then◌else◌, contains,
}
use decentralized_poker_engi.Common.Maps.{lookup, insert}
use decentralized_poker_engi.Crypto.Bytes.{set_bytes}
use decentralized_poker_engi.Crypto.Sra.{SraKey, is_private, public_sra_key, public_view}

pub record Keyring : Type 0 where
  pub local_id : ℕ
  pub local : SraKey
  pub pubs : List (ℕ × SraKey)
  pub order : List ℕ

-- The loop over the seats: whether no seat is empty and none comes twice.
unfoldable pub seats_differ : List ℕ → List ℕ → Bool
seats_differ seen [] = true
seats_differ seen (id ∷ ids) =
    let rest = seats_differ (id ∷ seen) ids in
    if id == 0 then false else if contains seen id then false else rest

-- The loop over the public exponents: whether each belongs to a seat.
unfoldable pub all_seated : List ℕ → List (ℕ × List ℕ) → Bool
all_seated order [] = true
all_seated order ((id, _) ∷ es) =
    let rest = all_seated order es in if contains order id then rest else false

-- A missing entry of the map is the empty list.
abbrev pub bytes_of : ℕ → List (ℕ × List ℕ) → List ℕ
bytes_of id es = elim (lookup id es) [ none ↦ [] | some raw ↦ raw ]

-- The loop that makes the public keys.
unfoldable pub make_pubs :
    ℕ → List (ℕ × List ℕ) → List ℕ → List (ℕ × SraKey) → Option (List (ℕ × SraKey))
make_pubs p es [] pubs = some pubs
make_pubs p es (id ∷ ids) pubs =
    if length (bytes_of id es) == 0
    then none
    else elim (public_sra_key p (set_bytes (bytes_of id es))) [
      | none ↦ none
      | some k ↦ make_pubs p es ids (insert id k pubs)
    ]

unfoldable pub new_keyring : ℕ → SraKey → List (ℕ × List ℕ) → List ℕ → Option Keyring
new_keyring local_id local public_e seat_order =
    if local_id == 0
    then none
    else if not (is_private local)
    then none
    else if ltb (length seat_order) 2
    then none
    else if not (seats_differ [] seat_order)
    then none
    else if not (contains seat_order local_id)
    then none
    else if not (length public_e == length seat_order)
    then none
    else if not (all_seated seat_order public_e)
    then none
    else if not (set_bytes (bytes_of local_id public_e) == local.e)
    then none
    else elim (make_pubs local.p public_e seat_order []) [
      | none ↦ none
      | some pubs ↦
          some (record { local_id = local_id; local = local; pubs = pubs; order = seat_order })
    ]

unfoldable pub public : ℕ → Keyring → Option SraKey
public peer kr = elim (lookup peer kr.pubs) [ none ↦ none | some k ↦ some (public_view k) ]

unfoldable pub seats : Keyring → ℕ
seats kr = length kr.order

unfoldable pub index_of : ℕ → ℕ → List ℕ → Option ℕ
index_of i id [] = none
index_of i id (x ∷ xs) = let rest = index_of (suc i) id xs in if x == id then some i else rest

unfoldable pub seat_index : ℕ → Keyring → Option ℕ
seat_index id kr = index_of 0 id kr.order

unfoldable pub modulus : Keyring → ℕ
modulus kr = kr.local.p
