-- ===== src/Network/CryptoHand/Sound/Shuffles.antt =====
-- The calls of the shuffle, and the first session of the deal.
use decentralized_poker_engi.Common.{
  ℕ, ◌≡◌, refl, arith, Bool, Bool-cases, true, false, ◌⊎◌, inl, inr, Option, Option-cases, none,
  some, List, [], ◌∷◌, ◌==◌, length, if◌then◌else◌,
}
use decentralized_poker_engi.Crypto.Keyring.{Keyring}
use decentralized_poker_engi.Crypto.Keyring.Seats.{AllDiffer}
use decentralized_poker_engi.Crypto.Deal.{EncryptedDeck}
use decentralized_poker_engi.Crypto.ShuffleSession.{
  ShuffleMessage, Reply, refused, silent, send, start, handle_message, encrypted_deck,
}
use decentralized_poker_engi.Crypto.DealSession.{DealSession, new_deal_session}
use decentralized_poker_engi.Crypto.DealSession.Chain.{IsSound}
use decentralized_poker_engi.Crypto.DealSession.Chain.Calls.{made-IsSound}
use decentralized_poker_engi.Network.CryptoHand.{
  CryptoHand, ensure_deal, after_shuffle, buffer_shuffle,
}
use decentralized_poker_engi.Network.CryptoHand.Shuffles.{
  drain_shuffle_list, drain_shuffle, continue_shuffle, start_shuffle, handle_shuffle,
}
use decentralized_poker_engi.Network.CryptoHand.Sound.{IsHandSound}

Reply-cases :
    (r : Reply) → (r ≡ refused) ⊎ ((r ≡ silent) ⊎ ((msg : ShuffleMessage) × (r ≡ send msg)))
Reply-cases refused = inl refl
Reply-cases silent = inr (inl refl)
Reply-cases (send msg) = inr (inr (msg, refl))

module _ (sha256 : List ℕ → List ℕ) where
  new_deal-IsSound :
      (kr : Keyring) (deck : EncryptedDeck) (hand dealer_idx : ℕ) (d : DealSession)
      → AllDiffer kr.order
      → new_deal_session kr deck hand dealer_idx ≡ some d
      → IsSound sha256 d
  unfolding new_deal_session
  new_deal-IsSound kr deck hand dealer_idx d differ e =
      elim (Bool-cases (length deck.cards == 52)) [
        | inl f ↦
            made-IsSound sha256 kr deck.cards deck.session_id deck.p hand dealer_idx d differ
              (ground (arith, e, f))
        | inr f ↦ absurd (ground (arith, e, f))
      ]

  pub ensure_deal-IsHandSound :
      (h : CryptoHand) → IsHandSound sha256 h → IsHandSound sha256 (ensure_deal h).0
  unfolding ensure_deal
  ensure_deal-IsHandSound h (differ, sound) = elim (Option-cases h.deal) [
    | inr (d, f) ↦ rw (f, ensure_deal) (differ, sound)
    | inl f ↦ elim (Option-cases (encrypted_deck h.shuffle)) [
      | inl g ↦ rw (f, g, ensure_deal) (differ, sound)
      | inr (deck, g) ↦ elim (Option-cases (new_deal_session h.kr deck h.hand_num h.dealer_idx)) [
        | inl k ↦ rw (f, g, k, ensure_deal) (differ, sound)
        | inr (d, k) ↦
            rw (f, g, k, ensure_deal)
              (differ, new_deal-IsSound h.kr deck h.hand_num h.dealer_idx d differ k)
      ]
    ]
  ]

  buffer_shuffle-IsHandSound :
      (msg : ShuffleMessage) (h : CryptoHand)
      → IsHandSound sha256 h
      → IsHandSound sha256 (buffer_shuffle msg h)
  unfolding buffer_shuffle
  buffer_shuffle-IsHandSound msg h sound = ground (arith, sound)

  after_shuffle-IsHandSound :
      (h : CryptoHand) → IsHandSound sha256 h → IsHandSound sha256 (after_shuffle h).0
  unfolding after_shuffle
  after_shuffle-IsHandSound h sound =
      let made = ensure_deal-IsHandSound h sound in ground (arith, sound, made)

  pub either :
      {A : Type 0} (b : Bool) (r t : CryptoHand × A)
      → IsHandSound sha256 r.0
      → IsHandSound sha256 t.0
      → IsHandSound sha256 (if b then r else t).0
  either true r t x y = x
  either false r t x y = y

  module _ (swaps : List (ℕ × ℕ)) (nonce : List ℕ) where
    drain_shuffle_list-IsHandSound :
        (msgs : List ShuffleMessage) (h : CryptoHand)
        → IsHandSound sha256 h
        → IsHandSound sha256 (drain_shuffle_list sha256 swaps nonce msgs h).0
    unfolding drain_shuffle_list
    drain_shuffle_list-IsHandSound [] h sound = sound
    drain_shuffle_list-IsHandSound (msg ∷ msgs) h sound =
        let r = handle_message sha256 swaps nonce msg h.shuffle in
        let h' = record h { shuffle = r.0 } in
        let later =
          drain_shuffle_list-IsHandSound msgs (buffer_shuffle msg h')
            (buffer_shuffle-IsHandSound msg h' sound) in
        let taken = drain_shuffle_list-IsHandSound msgs h' sound in
        elim (Reply-cases r.1) [
          | inl e ↦ elim (Bool-cases h.shuffle.started) [
            | inl f ↦ rw (e, f, drain_shuffle_list) sound
            | inr f ↦ rw (e, f, drain_shuffle_list) later
          ]
          | inr (inl e) ↦ rw (e, drain_shuffle_list) taken
          | inr (inr (out, e)) ↦ rw (e, drain_shuffle_list) taken
        ]

    continue_shuffle-IsHandSound :
        (out : Option ShuffleMessage) (h : CryptoHand)
        → IsHandSound sha256 h
        → IsHandSound sha256 (continue_shuffle sha256 swaps nonce out h).0
    unfolding continue_shuffle drain_shuffle
    continue_shuffle-IsHandSound out h sound =
        let drained = drain_shuffle sha256 swaps nonce h in
        let sound' : IsHandSound sha256 drained.0 =
          drain_shuffle_list-IsHandSound h.early_shuffle (record h { early_shuffle = [] }) sound in
        let after = after_shuffle-IsHandSound drained.0 sound' in
        elim (Option-cases drained.1) [
          | inl e ↦ rw (e, continue_shuffle) sound'
          | inr (more, e) ↦ rw (e, continue_shuffle) after
        ]

    pub start_shuffle-IsHandSound :
        (h : CryptoHand)
        → IsHandSound sha256 h
        → IsHandSound sha256 (start_shuffle sha256 swaps nonce h).0
    unfolding start_shuffle
    start_shuffle-IsHandSound h sound =
        let r = start sha256 swaps nonce h.shuffle in
        let h' = record h { shuffle = r.0 } in
        elim (Reply-cases r.1) [
          | inl e ↦ rw (e, start_shuffle) sound
          | inr (inl e) ↦ rw (e, start_shuffle) (continue_shuffle-IsHandSound none h' sound)
          | inr (inr (out, e)) ↦
              rw (e, start_shuffle) (continue_shuffle-IsHandSound (some out) h' sound)
        ]

    pub handle_shuffle-IsHandSound :
        (msg : ShuffleMessage) (h : CryptoHand)
        → IsHandSound sha256 h
        → IsHandSound sha256 (handle_shuffle sha256 swaps nonce msg h).0
    unfolding handle_shuffle
    handle_shuffle-IsHandSound msg h sound =
        let r = handle_message sha256 swaps nonce msg h.shuffle in
        let h' = record h { shuffle = r.0 } in
        elim (Reply-cases r.1) [
          | inl e ↦
              rw (e, handle_shuffle)
                (either h.shuffle.started (h', none) (buffer_shuffle msg h', some []) sound
                  (buffer_shuffle-IsHandSound msg h' sound))
          | inr (inl e) ↦ rw (e, handle_shuffle) (continue_shuffle-IsHandSound none h' sound)
          | inr (inr (out, e)) ↦
              rw (e, handle_shuffle) (continue_shuffle-IsHandSound (some out) h' sound)
        ]
