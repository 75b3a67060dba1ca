-- ===== src/Crypto/Params.antt =====
-- internal/crypto/params.go: cards as elements of the field, powers of 2.
pub mod Field
use decentralized_poker_engi.Common.{
  ℕ, zero, suc, ◌+◌, Option, none, some, List, [], ◌∷◌, ◌++◌, ◌==◌, if◌then◌else◌,
}
use decentralized_poker_engi.Crypto.Modular.{exp}

abbrev pub shared_prime : ℕ
shared_prime =
    0xffffffffffffffffc90fdaa22168c234c4c6628b80dc1cd129024e088a67cc74020bbea63b139b22514a08798e3404ddef9519b3cd3a431b302b0a6df25f14374fe1356d6d51c245e485b576625e7ec6f44c42e9a637ed6b0bff5cb6f406b7edee386bfb5a899fa5ae9f24117c4b1fe649286651ece45b3dc2007cb8a163bf0598da48361c55d39a69163fa8fd24cf5f83655d23dca3ad961c62f356208552bb9ed529077096966d670c354e4abc9804f1746c08ca18217c32905e462e36ce3be39e772c180e86039b2783a2ec07a28fb5c55df06f4c52c9de2bcbf6955817183995497cea956ae515d2261898fa051015728e5a8aacaa68ffffffffffffffff

-- For identifiers from 0 to 51; the code panics at others.
unfoldable pub card_to_field : ℕ → ℕ → ℕ
card_to_field card_id p = exp 2 (card_id + 1) p

-- The search from identifier `id`, with `n` left; `none` is -1.
unfoldable pub find_card : ℕ → ℕ → ℕ → ℕ → Option ℕ
find_card zero id val p = none
find_card (suc n) id val p =
    let rest = find_card n (id + 1) val p in if exp 2 (id + 1) p == val then some id else rest

unfoldable pub field_to_card : ℕ → ℕ → Option ℕ
field_to_card val p = find_card 52 0 val p

unfoldable pub field_cards : ℕ → ℕ → ℕ → List ℕ
field_cards zero id p = []
field_cards (suc n) id p = card_to_field id p ∷ field_cards n (id + 1) p

unfoldable pub build_plaintext_deck : ℕ → List ℕ
build_plaintext_deck p = field_cards 52 0 p

-- Each identifier, as its bytes, is followed by a zero byte.
unfoldable pub session_text : List (List ℕ) → List ℕ → List ℕ
session_text [] nonce = nonce
session_text (id ∷ ids) nonce = id ++ 0 ∷ session_text ids nonce

unfoldable pub session_id : (List ℕ → List ℕ) → List (List ℕ) → List ℕ → List ℕ
session_id sha256 player_ids nonce = sha256 (session_text player_ids nonce)
