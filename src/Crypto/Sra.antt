-- ===== src/Crypto/Sra.antt =====
-- internal/crypto/sra.go: keys of the commutative cipher. The integers of big.Int are natural numbers
-- here; every key that the code builds has e and p, so only d may be missing. Copies are the values.
pub mod Pairs
use decentralized_poker_engi.Common.{
  ℕ, ◌+◌, ◌-◌, ◌*◌, ◌%◌, Bool, true, false, not, Option, none, some, List, [], ◌∷◌, ltb, leb, ◌==◌,
  if◌then◌else◌,
}
use decentralized_poker_engi.Crypto.Modular.{exp}

pub record SraKey : Type 0 where
  pub e : ℕ
  pub d : Option ℕ
  pub p : ℕ

-- The loop that draws e: candidates come from `rand.Int(rand.Reader, phi)` in turn, and have 2 added;
-- one from phi on, or with a common factor, is skipped. `gcd` and `mod_inverse` are those of
-- math/big. `none` is a list of draws that holds no good candidate.
module _ (gcd : ℕ → ℕ → ℕ) (mod_inverse : ℕ → ℕ → Option ℕ) (probably_prime : ℕ → Bool) where
  unfoldable pub draw_e : ℕ → List ℕ → Option ℕ
  draw_e phi [] = none
  draw_e phi (draw ∷ draws) =
      let rest = draw_e phi draws in
      let candidate = draw + 2 in
      if leb phi candidate then rest else if gcd candidate phi == 1 then some candidate else rest

  unfoldable pub generate_sra_key : ℕ → List ℕ → Option SraKey
  generate_sra_key p draws = if not (probably_prime p) then none else elim (draw_e (p - 1) draws) [
    | none ↦ none
    | some e ↦ elim (mod_inverse e (p - 1)) [
      | none ↦ none
      | some d ↦ some (record { e = e; d = some d; p = p })
    ]
  ]

unfoldable pub public_sra_key : ℕ → ℕ → Option SraKey
public_sra_key p e =
    if e == 0 then none else if leb p e then none else some (record { e = e; d = none; p = p })

abbrev pub is_some {ℓ} : {A : Type ℓ} → Option A → Bool
is_some none = false
is_some (some a) = true

unfoldable pub is_private : SraKey → Bool
is_private k = is_some k.d

unfoldable pub public_view : SraKey → SraKey
public_view k = record k { d = none }

-- No error: 1 to p - 2.
unfoldable pub validate_message : SraKey → ℕ → Bool
validate_message k m = if ltb m 1 then false else leb (m + 2) k.p

-- `none` is an error, here and below.
unfoldable pub encrypt : SraKey → ℕ → Option ℕ
encrypt k m = if validate_message k m then some (exp m k.e k.p) else none

unfoldable pub decrypt : SraKey → ℕ → Option ℕ
decrypt k c = elim k.d [
  | none ↦ none
  | some d ↦ if validate_message k c then some (exp c d k.p) else none
]

abbrev pub all_or_none : Option ℕ → Option (List ℕ) → Option (List ℕ)
all_or_none none rest = none
all_or_none (some x) none = none
all_or_none (some x) (some xs) = some (x ∷ xs)

unfoldable pub encrypt_all : SraKey → List ℕ → Option (List ℕ)
encrypt_all k [] = some []
encrypt_all k (c ∷ cs) = all_or_none (encrypt k c) (encrypt_all k cs)

unfoldable pub decrypt_all : SraKey → List ℕ → Option (List ℕ)
decrypt_all k [] = some []
decrypt_all k (c ∷ cs) = all_or_none (decrypt k c) (decrypt_all k cs)

unfoldable pub verify_key_pair : SraKey → Bool
verify_key_pair k = elim k.d [ none ↦ false | some d ↦ k.e * d % (k.p - 1) == 1 ]
