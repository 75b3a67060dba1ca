-- ===== src/Network/CryptoHand/Sound.antt =====
-- The deal session of a hand, after any operations of its driver.
pub mod Shuffles
use decentralized_poker_engi.Common.{
  ℕ, zero, suc, sym, subst, arith, Bool-cases, inl, inr, Option, Option-cases, none, some, List, [],
  ◌∷◌, ◌==◌, length,
}
use decentralized_poker_engi.Common.Maps.{lookup}
use decentralized_poker_engi.Crypto.Keyring.Seats.{AllDiffer}
use decentralized_poker_engi.Crypto.DealSession.{DealSession, PeelMessage, expected_peeler}
use decentralized_poker_engi.Crypto.DealSession.Peels.{Reply, take_outbound, steps_left}
use decentralized_poker_engi.Crypto.DealSession.Calls.{receive, behalf, perform}
use decentralized_poker_engi.Crypto.DealSession.Chain.{IsSound}
use decentralized_poker_engi.Crypto.DealSession.Chain.Calls.{perform-IsSound}
use decentralized_poker_engi.Network.CryptoHand.{
  CryptoHand, buffer_peel, is_premature_peel, collect_peels, signal_peel_progress,
  designated_survivor,
}
use decentralized_poker_engi.Network.CryptoHand.Deals.{
  message_of, own_draws, drain_peels_list, drain_peels, delegated_loop, try_delegated_peels,
  continue_peels, after_call,
}
use decentralized_poker_engi.Network.CryptoHand.Early.{
  answered, drain_end, drain_later, drain_bad, drain_taken,
}

module _ (sha256 : List ℕ → List ℕ) where
  abbrev pub IsDealSound : Option DealSession → Type 0
  IsDealSound none = Unit {0}
  IsDealSound (some d) = IsSound sha256 d

  -- The seats differ, and the deal session, if there is one, is sound.
  abbrev pub IsHandSound : CryptoHand → Type 0
  IsHandSound h = AllDiffer h.kr.order × IsDealSound h.deal

  pub collect_peels-IsSound :
      (d : DealSession) (first : Option PeelMessage)
      → IsSound sha256 d
      → IsSound sha256 (collect_peels d first).0
  unfolding collect_peels take_outbound
  collect_peels-IsSound d none sound = sound
  collect_peels-IsSound d (some msg) sound = sound

  pub buffer_peel-IsHandSound :
      (msg : PeelMessage) (h : CryptoHand) → IsHandSound h → IsHandSound (buffer_peel msg h)
  unfolding buffer_peel
  buffer_peel-IsHandSound msg h sound = ground (arith, sound)

  buffer_peel-differ :
      (msg : PeelMessage) (h : CryptoHand)
      → AllDiffer h.kr.order
      → AllDiffer (buffer_peel msg h).kr.order
  unfolding buffer_peel
  buffer_peel-differ msg h differ = ground (arith, differ)

  signal-IsHandSound : (h : CryptoHand) → IsHandSound h → IsHandSound (signal_peel_progress h)
  unfolding signal_peel_progress
  signal-IsHandSound h sound = elim (Option-cases h.deal) [
    | inl e ↦ rw (e, signal_peel_progress) sound
    | inr (d, e) ↦ rw (e, signal_peel_progress) sound
  ]

  module _ (draws : ℕ → ℕ → ℕ) where
    drain_list-IsHandSound :
        (msgs : List PeelMessage) (d : DealSession) (h : CryptoHand)
        → AllDiffer h.kr.order
        → IsSound sha256 d
        → IsHandSound (drain_peels_list sha256 draws msgs d h).0
    drain_list-IsHandSound [] d h differ sound =
        subst (λ (r : CryptoHand × Option (List PeelMessage)). IsHandSound r.0)
          (sym (drain_end sha256 draws d h)) (differ, sound)
    drain_list-IsHandSound (msg ∷ msgs) d h differ sound =
        let d' = (answered sha256 draws msg d h).0 in
        let sound' : IsSound sha256 d' =
          perform-IsSound sha256 (receive msg (own_draws sha256 draws h)) d sound in
        elim (Option-cases (message_of (answered sha256 draws msg d h).1)) [
          | inl e ↦ elim (Bool-cases (is_premature_peel msg d)) [
            | inl f ↦
                subst (λ (r : CryptoHand × Option (List PeelMessage)). IsHandSound r.0)
                  (sym (drain_later sha256 draws msg msgs d h e f))
                  (drain_list-IsHandSound msgs d' (buffer_peel msg h)
                    (buffer_peel-differ msg h differ) sound')
            | inr f ↦
                subst (λ (r : CryptoHand × Option (List PeelMessage)). IsHandSound r.0)
                  (sym (drain_bad sha256 draws msg msgs d h e f)) (differ, sound')
          ]
          | inr (first, e) ↦
              subst (λ (r : CryptoHand × Option (List PeelMessage)). IsHandSound r.0)
                (sym (drain_taken sha256 draws msg msgs d h first e))
                (drain_list-IsHandSound msgs (collect_peels d' first).0 h differ
                  (collect_peels-IsSound d' first sound'))
        ]

    drain_peels-IsHandSound :
        (h : CryptoHand) → IsHandSound h → IsHandSound (drain_peels sha256 draws h).0
    unfolding drain_peels
    drain_peels-IsHandSound h (differ, sound) = elim (Option-cases h.deal) [
      | inl e ↦ rw (e, drain_peels) (differ, sound)
      | inr (d, e) ↦
          rw (e, drain_peels)
            (drain_list-IsHandSound h.early_peels d (record h { early_peels = [] }) differ
              (subst IsDealSound e sound))
    ]

    delegated_loop-IsHandSound :
        (fuel : ℕ) (d : DealSession) (h : CryptoHand)
        → AllDiffer h.kr.order
        → IsSound sha256 d
        → IsHandSound (delegated_loop sha256 draws fuel d h).0
    unfolding delegated_loop
    delegated_loop-IsHandSound zero d h differ sound = (differ, sound)
    delegated_loop-IsHandSound (suc fuel) d h differ sound =
        let peeler = expected_peeler d in
        elim (Bool-cases (peeler == 0)) [
          | inl e ↦ rw (e, delegated_loop) (differ, sound)
          | inr e ↦ elim (Option-cases (lookup peeler h.gone)) [
            | inl f ↦ rw (e, f, delegated_loop) (differ, sound)
            | inr (key, f) ↦
                let call =
                  behalf peeler key (draws peeler d.card_index) (own_draws sha256 draws h) in
                let next = perform sha256 call d in
                let sound' = perform-IsSound sha256 call d sound in
                elim (Option-cases (message_of next.1)) [
                  | inl g ↦ rw (e, f, g, delegated_loop) (differ, sound')
                  | inr (msg, g) ↦
                      let d'' = (collect_peels next.0 msg).0 in
                      let sound'' = collect_peels-IsSound next.0 msg sound' in
                      let h' = signal_peel_progress (record h { deal = some d'' }) in
                      let (differ', here) =
                        signal-IsHandSound (record h { deal = some d'' }) (differ, sound'') in
                      rw (e, f, g, delegated_loop)
                        (delegated_loop-IsHandSound fuel d'' h' differ' sound'')
                ]
          ]
        ]

    pub try_delegated_peels-IsHandSound :
        (h : CryptoHand) → IsHandSound h → IsHandSound (try_delegated_peels sha256 draws h).0
    unfolding try_delegated_peels
    try_delegated_peels-IsHandSound h (differ, sound) = elim (Option-cases h.deal) [
      | inl e ↦ rw (e, try_delegated_peels) (differ, sound)
      | inr (d, e) ↦
          let looped =
            delegated_loop-IsHandSound (suc (steps_left d)) d h differ
              (subst IsDealSound e sound) in
          elim (Bool-cases (length h.gone == 0)) [
            | inl f ↦ rw (e, f, try_delegated_peels) (differ, sound)
            | inr f ↦ elim (Bool-cases (designated_survivor h.kr.order h.gone == h.kr.local_id)) [
              | inl g ↦ rw (e, f, g, try_delegated_peels) looped
              | inr g ↦ rw (e, f, g, try_delegated_peels) (differ, sound)
            ]
          ]
    ]

    pub continue_peels-IsHandSound :
        (out : List PeelMessage) (h : CryptoHand)
        → IsHandSound h
        → IsHandSound (continue_peels sha256 draws out h).0
    unfolding continue_peels
    continue_peels-IsHandSound out h sound =
        let drained = drain_peels sha256 draws h in
        let sound' = drain_peels-IsHandSound h sound in
        elim (Option-cases drained.1) [
          | inl e ↦ rw (e, continue_peels) sound'
          | inr (more, e) ↦
              let tried = try_delegated_peels sha256 draws drained.0 in
              let sound'' = try_delegated_peels-IsHandSound drained.0 sound' in
              elim (Bool-cases tried.2) [
                | inl f ↦ rw (e, f, continue_peels) (signal-IsHandSound tried.0 sound'')
                | inr f ↦ rw (e, f, continue_peels) sound''
              ]
        ]

    pub after_call-IsHandSound :
        (r : DealSession × Reply) (h : CryptoHand)
        → AllDiffer h.kr.order
        → IsSound sha256 r.0
        → IsHandSound (after_call sha256 draws r h).0
    unfolding after_call
    after_call-IsHandSound (d, reply) h differ sound = elim (Option-cases (message_of reply)) [
      | inl e ↦ rw (e, after_call) (differ, sound)
      | inr (first, e) ↦
          let (d', out) = collect_peels d first in
          rw (e, after_call)
            (continue_peels-IsHandSound out (record h { deal = some d' })
              (differ, collect_peels-IsSound d first sound))
    ]
