-- ===== src/Network/CryptoHand/Invariant.antt =====
-- What holds of the deal session of a hand, whatever its driver is called with.
use decentralized_poker_engi.Common.{
  ℕ, ◌≡◌, arith, Bool, true, false, inl, inr, Option, Option-cases, none, some, List, [], ◌∷◌,
}
use decentralized_poker_engi.Crypto.Keyring.{Keyring}
use decentralized_poker_engi.Crypto.Keyring.Seats.{AllDiffer}
use decentralized_poker_engi.Crypto.Sra.{SraKey}
use decentralized_poker_engi.Crypto.ShuffleSession.{ShuffleMessage}
use decentralized_poker_engi.Crypto.DealSession.{DealSession, PeelMessage}
use decentralized_poker_engi.Crypto.DealSession.Calls.{
  Call, holes, street, reveal, receive, perform, begin_holes, begin_street, begin_reveal,
}
use decentralized_poker_engi.Crypto.DealSession.Chain.{IsSound}
use decentralized_poker_engi.Crypto.DealSession.Chain.Calls.{perform-IsSound}
use decentralized_poker_engi.Network.CryptoHand.{
  CryptoHand, closed, new_crypto_hand, ensure_deal, buffer_peel, is_premature_peel, collect_peels,
  mark_gone, abort_shuffle,
}
use decentralized_poker_engi.Network.CryptoHand.Shuffles.{start_shuffle, handle_shuffle}
use decentralized_poker_engi.Network.CryptoHand.Deals.{
  message_of, own_draws, try_delegated_peels, after_call, with_deal, start_holes, start_street,
  start_reveal, peel_at, hand_peel,
}
use decentralized_poker_engi.Network.CryptoHand.Sound.{
  IsDealSound, IsHandSound, collect_peels-IsSound, buffer_peel-IsHandSound,
  try_delegated_peels-IsHandSound, continue_peels-IsHandSound, after_call-IsHandSound,
}
use decentralized_poker_engi.Network.CryptoHand.Sound.Shuffles.{
  either, ensure_deal-IsHandSound, start_shuffle-IsHandSound, handle_shuffle-IsHandSound,
}

-- A call of the driver. For the shuffle, with the random choices of the local step.
pub data Operation : Type 0 where
  shuffling : List (ℕ × ℕ) → List ℕ → Operation
  shuffled : List (ℕ × ℕ) → List ℕ → ShuffleMessage → Operation
  deal_holes : Operation
  open_street : ℕ → Operation
  show_holes : ℕ → Operation
  peeled : PeelMessage → Operation
  lost : ℕ → SraKey → Operation
  delegated : Operation
  aborted : Operation

module _ (sha256 : List ℕ → List ℕ) (draws : ℕ → ℕ → ℕ) where
  abbrev pub operate : Operation → CryptoHand → CryptoHand
  operate (shuffling swaps nonce) h = (start_shuffle sha256 swaps nonce h).0
  operate (shuffled swaps nonce msg) h = (handle_shuffle sha256 swaps nonce msg h).0
  operate deal_holes h = (start_holes sha256 draws h).0
  operate (open_street n) h = (start_street sha256 draws n h).0
  operate (show_holes id) h = (start_reveal sha256 draws id h).0
  operate (peeled msg) h = (hand_peel sha256 draws msg h).0
  operate (lost id key) h = (mark_gone id key h).0
  operate delegated h = (try_delegated_peels sha256 draws h).0
  operate aborted h = abort_shuffle h

  abbrev pub operate_all : List Operation → CryptoHand → CryptoHand
  operate_all [] h = h
  operate_all (o ∷ os) h = operate_all os (operate o h)

module _ (sha256 : List ℕ → List ℕ) where
  -- What is done with the session of the deal, if there is one.
  at_deal :
      (o : Option DealSession) (r : CryptoHand × Option (List PeelMessage))
      (f : DealSession → CryptoHand × Option (List PeelMessage))
      → IsHandSound sha256 r.0
      → IsDealSound sha256 o
      → ((d : DealSession) → IsSound sha256 d → IsHandSound sha256 (f d).0)
      → IsHandSound sha256
          (elim o as (λ t. CryptoHand × Option (List PeelMessage)) [ none ↦ r | some d ↦ f d ]).0
  at_deal none r f sound here keeps = sound
  at_deal (some d) r f sound here keeps = keeps d here

  module _ (draws : ℕ → ℕ → ℕ) where
    with_deal-IsHandSound :
        (r : CryptoHand × Bool)
        (f : DealSession → CryptoHand → CryptoHand × Option (List PeelMessage))
        → IsHandSound sha256 r.0
        → ((d : DealSession) → IsSound sha256 d → IsHandSound sha256 (f d r.0).0)
        → IsHandSound sha256 (with_deal sha256 draws r f).0
    with_deal-IsHandSound (h, false) f sound keeps = sound
    with_deal-IsHandSound (h, true) f sound keeps =
        at_deal h.deal (h, none) (λ d. f d h) sound sound.1 keeps

    start_holes-IsHandSound :
        (h : CryptoHand) → IsHandSound sha256 h → IsHandSound sha256 (start_holes sha256 draws h).0
    unfolding start_holes
    start_holes-IsHandSound h sound =
        let made = ensure_deal-IsHandSound sha256 h sound in
        let begun : Call = holes (own_draws sha256 draws (ensure_deal h).0) in
        with_deal-IsHandSound (ensure_deal h)
          (λ d g.
            after_call sha256 draws (begin_holes sha256 (own_draws sha256 draws g) d)
              (record g { holes_gate = closed }))
          made
          λ d here.
            after_call-IsHandSound sha256 draws (perform sha256 begun d)
              (record (ensure_deal h).0 { holes_gate = closed }) made.0
              (perform-IsSound sha256 begun d here)

    start_street-IsHandSound :
        (n : ℕ) (h : CryptoHand)
        → IsHandSound sha256 h
        → IsHandSound sha256 (start_street sha256 draws n h).0
    unfolding start_street
    start_street-IsHandSound n h sound =
        let made = ensure_deal-IsHandSound sha256 h sound in
        let begun : Call = street n (own_draws sha256 draws (ensure_deal h).0) in
        with_deal-IsHandSound (ensure_deal h)
          (λ d g.
            after_call sha256 draws (begin_street sha256 (own_draws sha256 draws g) n d)
              (record g { street_gate = closed }))
          made
          λ d here.
            after_call-IsHandSound sha256 draws (perform sha256 begun d)
              (record (ensure_deal h).0 { street_gate = closed }) made.0
              (perform-IsSound sha256 begun d here)

    start_reveal-IsHandSound :
        (id : ℕ) (h : CryptoHand)
        → IsHandSound sha256 h
        → IsHandSound sha256 (start_reveal sha256 draws id h).0
    unfolding start_reveal
    start_reveal-IsHandSound id h sound =
        let made = ensure_deal-IsHandSound sha256 h sound in
        let begun : Call = reveal id (own_draws sha256 draws (ensure_deal h).0) in
        with_deal-IsHandSound (ensure_deal h)
          (λ d g.
            after_call sha256 draws (begin_reveal sha256 (own_draws sha256 draws g) id d)
              (record g { reveal_gate = closed }))
          made
          λ d here.
            after_call-IsHandSound sha256 draws (perform sha256 begun d)
              (record (ensure_deal h).0 { reveal_gate = closed }) made.0
              (perform-IsSound sha256 begun d here)

    peel_at-IsHandSound :
        (msg : PeelMessage) (h : CryptoHand) (d : DealSession)
        → AllDiffer h.kr.order
        → IsSound sha256 d
        → IsHandSound sha256 (peel_at sha256 draws msg h d).0
    unfolding peel_at
    peel_at-IsHandSound msg h d differ sound =
        let call : Call = receive msg (own_draws sha256 draws h) in
        let r = perform sha256 call d in
        let sound' = perform-IsSound sha256 call d sound in
        let h' = record h { deal = some r.0 } in
        elim (Option-cases (message_of r.1)) [
          | inl e ↦
              rw (e, peel_at)
                (either sha256 (is_premature_peel msg d) (buffer_peel msg h', some []) (h', none)
                  (buffer_peel-IsHandSound sha256 msg h' (differ, sound')) (differ, sound'))
          | inr (first, e) ↦
              let (d'', out) = collect_peels r.0 first in
              rw (e, peel_at)
                (continue_peels-IsHandSound sha256 draws out (record h { deal = some d'' })
                  (differ, collect_peels-IsSound sha256 r.0 first sound'))
        ]

    hand_peel-IsHandSound :
        (msg : PeelMessage) (h : CryptoHand)
        → IsHandSound sha256 h
        → IsHandSound sha256 (hand_peel sha256 draws msg h).0
    unfolding hand_peel
    hand_peel-IsHandSound msg h sound =
        at_deal h.deal (buffer_peel msg h, some []) (peel_at sha256 draws msg h)
          (buffer_peel-IsHandSound sha256 msg h sound) sound.1
          λ d here. peel_at-IsHandSound msg h d sound.0 here

    operate-IsHandSound :
        (o : Operation) (h : CryptoHand)
        → IsHandSound sha256 h
        → IsHandSound sha256 (operate sha256 draws o h)
    unfolding mark_gone abort_shuffle
    operate-IsHandSound (shuffling swaps nonce) h sound =
        start_shuffle-IsHandSound sha256 swaps nonce h sound
    operate-IsHandSound (shuffled swaps nonce msg) h sound =
        handle_shuffle-IsHandSound sha256 swaps nonce msg h sound
    operate-IsHandSound deal_holes h sound = start_holes-IsHandSound h sound
    operate-IsHandSound (open_street n) h sound = start_street-IsHandSound n h sound
    operate-IsHandSound (show_holes id) h sound = start_reveal-IsHandSound id h sound
    operate-IsHandSound (peeled msg) h sound = hand_peel-IsHandSound msg h sound
    operate-IsHandSound (lost id key) h sound = ground (arith, sound)
    operate-IsHandSound delegated h sound = try_delegated_peels-IsHandSound sha256 draws h sound
    operate-IsHandSound aborted h sound = sound

    operate_all-IsHandSound :
        (os : List Operation) (h : CryptoHand)
        → IsHandSound sha256 h
        → IsHandSound sha256 (operate_all sha256 draws os h)
    operate_all-IsHandSound [] h sound = sound
    operate_all-IsHandSound (o ∷ os) h sound =
        operate_all-IsHandSound os (operate sha256 draws o h) (operate-IsHandSound o h sound)

    new_hand-IsHandSound :
        (text : ℕ → List ℕ) (kr : Keyring) (nonce : List ℕ) (hand dealer_idx : ℕ) (h : CryptoHand)
        → AllDiffer kr.order
        → new_crypto_hand sha256 text kr nonce hand dealer_idx ≡ some h
        → IsHandSound sha256 h
    unfolding new_crypto_hand
    new_hand-IsHandSound text kr nonce hand dealer_idx h differ made = ground (arith, differ, made)

    -- For a new hand at seats that all differ: whatever calls its driver gets, in whatever order, with
    -- good messages and bad ones, and with players who are lost, as long as there is a deal session,
    -- the peels that it has applied to its card are one of each of the first peelers, in their order,
    -- each verified and each of the value that the one before it gave, and its value is the last one's.
    pub operate_all-IsDealSound :
        (text : ℕ → List ℕ) (kr : Keyring) (nonce : List ℕ) (hand dealer_idx : ℕ) (h : CryptoHand)
        (os : List Operation)
        → AllDiffer kr.order
        → new_crypto_hand sha256 text kr nonce hand dealer_idx ≡ some h
        → IsDealSound sha256 (operate_all sha256 draws os h).deal
    operate_all-IsDealSound text kr nonce hand dealer_idx h os differ made =
        (operate_all-IsHandSound os h
          (new_hand-IsHandSound text kr nonce hand dealer_idx h differ made)).1
