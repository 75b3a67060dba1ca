-- ===== src/Crypto/CryptoGame/Dealt.antt =====
-- The cards that are dealt after a shuffle by honest players.
use mathlib.Core.List.{Perm}
use decentralized_poker_engi.Common.{
  ℕ, zero, suc, ◌+◌, ◌%◌, ◌≤◌, ◌<◌, ◌≡◌, ◌≢◌, refl, ap, ◌∙◌, arith, some, List, [], ◌∷◌, map,
  length, get_elem?, All,
}
use decentralized_poker_engi.Game.Cards.{card_from_id}
use decentralized_poker_engi.Crypto.Modular.{IsFermat, IsMessage}
use decentralized_poker_engi.Crypto.Params.{card_to_field, field_cards, build_plaintext_deck}
use decentralized_poker_engi.Crypto.Params.Field.{IsCardField}
use decentralized_poker_engi.Crypto.Sra.{SraKey}
use decentralized_poker_engi.Crypto.Zkp.{PartialDecryption}
use decentralized_poker_engi.Crypto.Deal.{EncryptedDeck, card_at}
use decentralized_poker_engi.Crypto.Deal.Layers.{seal, AllPairs, AllNamed}
use decentralized_poker_engi.Crypto.Deal.Protocol.{
  new_deal_protocol, reveal_community, reveal_to_player,
}
use decentralized_poker_engi.Crypto.Deal.Reveals.{reveal_community_lem, reveal_to_player_lem}
use decentralized_poker_engi.Crypto.Shuffle.{
  ShuffleStep, new_shuffle_protocol, run_full_shuffle, new_encrypted_deck,
}
use decentralized_poker_engi.Crypto.Shuffle.Rounds.{shuffle_from_lem}
use decentralized_poker_engi.Crypto.CryptoGame.{CryptoGame, run_shuffle}

-- An element of the field that is a card.
abbrev IsCard : ℕ → ℕ → Type 0
IsCard p c = (id : ℕ) × (id < 52) × (c ≡ card_to_field id p)

field_cards-IsCard : (p n id : ℕ) → id + n ≤ 52 → All (IsCard p) (field_cards n id p)
unfolding field_cards
field_cards-IsCard p zero id h = tt
field_cards-IsCard p (suc n) id h =
    ((id, omega arith, refl), field_cards-IsCard p n (id + 1) (omega arith))

length-field_cards : (p n id : ℕ) → length (field_cards n id p) ≡ n
unfolding field_cards
length-field_cards p zero id = refl
length-field_cards p (suc n) id = ap suc (length-field_cards p n (id + 1))

field_cards-IsMessage :
    (p n id : ℕ) → IsCardField p → id + n ≤ 52 → All (IsMessage p) (field_cards n id p)
unfolding field_cards
field_cards-IsMessage p zero id cards h = tt
field_cards-IsMessage p (suc n) id cards h =
    ((cards id (omega arith)).1, field_cards-IsMessage p n (id + 1) cards (omega arith))

All-get_elem? :
    (P : ℕ → Type 0) (xs : List ℕ) (i : ℕ)
    → i < length xs
    → All P xs
    → (x : ℕ) × (get_elem? xs i ≡ some x) × P x
All-get_elem? P [] i h a = absurd (omega arith)
All-get_elem? P (x ∷ xs) zero h a = (x, refl, a.0)
All-get_elem? P (x ∷ xs) (suc i) h a = All-get_elem? P xs i (omega arith) a.1

key_of : (ks : List SraKey) (i : ℕ) → i < length ks → (k : SraKey) × (get_elem? ks i ≡ some k)
key_of [] i h = absurd (omega arith)
key_of (k ∷ ks) zero h = (k, refl)
key_of (k ∷ ks) (suc i) h = key_of ks i (omega arith)

-- The game's keys are pairs for its modulus, which is as a large prime; there is a key for each
-- player, and neither the session nor a player has an empty identifier.
pub record IsHonest (cg : CryptoGame) : Type 0 where
  pub fermat : IsFermat cg.p
  pub odd : cg.p % 2 ≡ 1
  pub cards : IsCardField cg.p
  pub session : length cg.session_id ≢ 0
  pub matched : length cg.players ≡ length cg.keys
  pub named : AllNamed cg.players
  pub pairs : AllPairs cg.p cg.keys

module _ (sha256 : List ℕ → List ℕ) (swaps : ℕ → List (ℕ × ℕ)) (nonces : ℕ → List ℕ)
    (cg : CryptoGame) (honest : IsHonest cg) where
  open honest use {fermat, odd, cards, session, matched, named, pairs}

  abbrev deck_of : List ℕ → EncryptedDeck
  deck_of out = record { cards = out; p = cg.p; session_id = cg.session_id }

  shuffled :
      (out : List ℕ) × (steps : List ShuffleStep) × (run_shuffle sha256 swaps nonces cg
        ≡ some (record cg { shuffle_log = steps; deck = some (deck_of out) }))
      × Perm out (map (seal cg.p cg.keys) (build_plaintext_deck cg.p))
      × (length out ≡ 52)
      × All (λ c. (m : ℕ) × IsCard cg.p m × (c ≡ seal cg.p cg.keys m)) out
  unfolding run_shuffle run_full_shuffle new_encrypted_deck new_shuffle_protocol
      build_plaintext_deck
  shuffled =
      let (out, steps, done, perm, size, held) =
        shuffle_from_lem cg.p fermat odd sha256 swaps nonces
          (new_shuffle_protocol cg.p cg.session_id) (IsCard cg.p) 0 cg.players cg.keys
          (field_cards 52 0 cg.p) (field_cards-IsCard cg.p 52 0 (omega arith)) matched pairs
          (field_cards-IsMessage cg.p 52 0 cards (omega arith)) (length-field_cards cg.p 52 0) in
      (out, steps, ground (arith, done, size, matched), perm, size, held)

  -- RunShuffle gives a deck without an error. It is a permutation of the 52 cards, each under a layer of
  -- every key.
  pub run_shuffle_lem :
      (deck : EncryptedDeck) × (after : CryptoGame) × (run_shuffle sha256 swaps nonces cg
        ≡ some after)
      × (after.deck ≡ some deck)
      × Perm deck.cards (map (seal cg.p cg.keys) (build_plaintext_deck cg.p))
  run_shuffle_lem =
      let (out, steps, done, perm, size, held) = shuffled in
      (deck_of out, record cg { shuffle_log = steps; deck = some (deck_of out) }, done, refl, perm)

  -- From the shuffled deck every place is revealed, to all or to any player, as one and the same of the
  -- 52 cards, and no proof on the way is refused.
  pub revealed_after_shuffle :
      (draw : ℕ → ℕ → ℕ) (index player : ℕ)
      → index < 52
      → player < length cg.players
      → (deck : EncryptedDeck) × (after : CryptoGame) × (run_shuffle sha256 swaps nonces cg
          ≡ some after)
        × (after.deck ≡ some deck)
        × (id : ℕ) × (id < 52)
        × (ps : List PartialDecryption) × (qs : List PartialDecryption) × (reveal_community sha256
              draw
              (new_deal_protocol deck cg.players cg.keys)
              index
            ≡ some (card_from_id id, ps))
        × (reveal_to_player sha256 draw (new_deal_protocol deck cg.players cg.keys) index player
            ≡ some (card_from_id id, qs))
  unfolding new_deal_protocol card_at
  revealed_after_shuffle draw index player h k =
      let (out, steps, done, perm, size, held) = shuffled in
      let deck = deck_of out in
      let dp = new_deal_protocol deck cg.players cg.keys in
      let (c, at, (m, (id, small, is), e)) =
        All-get_elem? (λ c. (m : ℕ) × IsCard cg.p m × (c ≡ seal cg.p cg.keys m)) out index
          (omega arith) held in
      let placed : card_at deck index ≡ some (seal cg.p cg.keys (card_to_field id cg.p)) =
        at ∙ ap some (e ∙ ap (seal cg.p cg.keys) is) in
      let (key, has) = key_of cg.keys player (omega arith) in
      let (ps, all) =
        reveal_community_lem sha256 draw dp fermat odd cards session matched named pairs index id
          small placed in
      let (qs, one) =
        reveal_to_player_lem sha256 draw dp fermat odd cards session matched named pairs index id
          player key small has placed in
      (
        deck,
        record cg { shuffle_log = steps; deck = some deck },
        done,
        refl,
        id,
        small,
        ps,
        qs,
        all,
        one,
      )
