-- ===== src/Crypto/Deal/Reveals.antt =====
-- What RevealCommunity and RevealToPlayer return, for a card that every key has encrypted.
use decentralized_poker_engi.Common.{
  ℕ, zero, suc, ◌%◌, ◌<◌, ◌≡◌, ◌≢◌, subst, ap, ◌∙◌, arith, none, some, List, [], ◌∷◌, length,
  get_elem?,
}
use decentralized_poker_engi.Game.Cards.{card_from_id}
use decentralized_poker_engi.Crypto.Modular.{exp, exp_inverse, IsFermat, IsMessage}
use decentralized_poker_engi.Crypto.Params.{card_to_field}
use decentralized_poker_engi.Crypto.Params.Field.{IsCardField}
use decentralized_poker_engi.Crypto.Sra.{SraKey, decrypt}
use decentralized_poker_engi.Crypto.Sra.Pairs.{IsPair, decrypt_lem, encrypt-IsMessage}
use decentralized_poker_engi.Crypto.Zkp.{PartialDecryption}
use decentralized_poker_engi.Crypto.Deal.{card_at, finish_public, finish_hole}
use decentralized_poker_engi.Crypto.Deal.Protocol.{
  DealProtocol, peel_card, reveal_to_player, reveal_community,
}
use decentralized_poker_engi.Crypto.Deal.Layers.{seal, AllPairs, AllNamed}
use decentralized_poker_engi.Crypto.Deal.Loops.{peel_layers_rest, peel_layers_but}

AllPairs-get_elem? :
    (p : ℕ) (ks : List SraKey) (i : ℕ) (k : SraKey)
    → get_elem? ks i ≡ some k
    → AllPairs p ks
    → (d : ℕ) × IsPair p k d
AllPairs-get_elem? p [] i k at a = absurd (ground arith)
AllPairs-get_elem? p (j ∷ ks) zero k at a = subst (λ t. (d : ℕ) × IsPair p t d) (cc) a.0
AllPairs-get_elem? p (j ∷ ks) (suc i) k at a = AllPairs-get_elem? p ks i k at a.1

-- The last layer comes off by the key's own exponent.
opens :
    (p : ℕ)
    → IsFermat p
    → p % 2 ≡ 1
    → (k : SraKey) (d m : ℕ) → IsPair p k d
    → IsMessage p m
    → decrypt k (exp m k.e p) ≡ some m
opens p fermat odd k d m pair h =
    decrypt_lem p k d (exp m k.e p) pair.0 pair.1 (encrypt-IsMessage p fermat odd k d m pair h)
    ∙ ap some (exp_inverse p fermat m k.e d h.0 (omega arith) pair.2)

module _ (sha256 : List ℕ → List ℕ) (draw : ℕ → ℕ → ℕ) (dp : DealProtocol)
    (fermat : IsFermat dp.deck.p) (odd : dp.deck.p % 2 ≡ 1) (cards : IsCardField dp.deck.p)
    (session : length dp.session_id ≢ 0) (matched : length dp.players ≡ length dp.keys)
    (named : AllNamed dp.players) (pairs : AllPairs dp.deck.p dp.keys) where
  open dp use {deck}
  open deck use {p}

  -- A card of the deck that every key has encrypted is revealed to all as that card: the players'
  -- proofs are accepted, and what is left is the card. The keys have pairs of exponents, and the modulus
  -- is as a large prime.
  pub reveal_community_lem :
      (index id : ℕ)
      → id < 52
      → card_at deck index ≡ some (seal p dp.keys (card_to_field id p))
      → (ps : List PartialDecryption) × (reveal_community sha256 draw dp index
          ≡ some (card_from_id id, ps))
  unfolding reveal_community peel_card finish_public
  reveal_community_lem index id small at =
      let (ps, peeled) =
        peel_layers_rest sha256 draw dp index fermat odd session none 0 (card_to_field id p)
          dp.players dp.keys [] tt matched named pairs (cards id small).1 in
      (ps, ground (arith, at, peeled, (cards id small).0))

  -- It is revealed to one player as well, whose own layer comes off last.
  pub reveal_to_player_lem :
      (index id player : ℕ) (key : SraKey)
      → id < 52
      → get_elem? dp.keys player ≡ some key
      → card_at deck index ≡ some (seal p dp.keys (card_to_field id p))
      → (ps : List PartialDecryption) × (reveal_to_player sha256 draw dp index player
          ≡ some (card_from_id id, ps))
  unfolding reveal_to_player peel_card finish_public finish_hole
  reveal_to_player_lem index id player key small has at =
      let m = card_to_field id p in
      let (ps, peeled) =
        peel_layers_but sha256 draw dp index fermat odd session 0 player m dp.players dp.keys key []
          has matched named pairs (cards id small).1 in
      let (d, pair) = AllPairs-get_elem? p dp.keys player key has pairs in
      (
        ps,
        ground (
          arith,
          at,
          peeled,
          has,
          opens p fermat odd key d m pair (cards id small).1,
          (cards id small).0,
        ),
      )
