-- ===== src/Network/CryptoHand/Deals.antt =====
-- internal/network/crypto_hand.go: the peels of a hand.
use decentralized_poker_engi.Common.{
  ℕ, zero, suc, Bool, true, false, not, Option, none, some, List, [], ◌∷◌, ◌++◌, length, ltb, ◌==◌,
  ◌&&◌, if◌then◌else◌, drop,
}
use decentralized_poker_engi.Common.Maps.{lookup}
use decentralized_poker_engi.Game.Cards.{Card}
use decentralized_poker_engi.Game.Player.{Player, Status, active, all_in}
use decentralized_poker_engi.Game.State.{GameState}
use decentralized_poker_engi.Game.Machine.Crypto.{machine_pending_street}
use decentralized_poker_engi.Crypto.DealSession.{
  DealSession, PeelMessage, expected_peeler, street_flop, street_turn, street_river,
}
use decentralized_poker_engi.Crypto.DealSession.Dealt.{
  local_hole_cards, community_cards, revealed_holes,
}
use decentralized_poker_engi.Crypto.DealSession.Peels.{
  Reply, refused, silent, out_of_fuel, send, steps_left,
}
use decentralized_poker_engi.Crypto.DealSession.Calls.{
  begin_holes, begin_street, begin_reveal, peel_on_behalf, handle_peel,
}
use decentralized_poker_engi.Network.CryptoHand.{
  CryptoHand, closed, ensure_deal, buffer_peel, is_premature_peel, collect_peels,
  signal_peel_progress, designated_survivor,
}

-- The message of a reply without an error.
abbrev pub message_of : Reply → Option (Option PeelMessage)
message_of refused = none
message_of out_of_fuel = none
message_of silent = some none
message_of (send msg) = some (some msg)

module _ (sha256 : List ℕ → List ℕ) (draws : ℕ → ℕ → ℕ) where
  -- The random numbers of the local peels.
  abbrev pub own_draws : CryptoHand → ℕ → ℕ
  own_draws h = draws h.kr.local_id

  -- The loop over the early peels, which the buffer no longer holds.
  unfoldable pub drain_peels_list :
      List PeelMessage → DealSession → CryptoHand → CryptoHand × Option (List PeelMessage)
  drain_peels_list [] d h = (record h { deal = some d }, some [])
  drain_peels_list (msg ∷ msgs) d h =
      let (d', reply) = handle_peel sha256 (own_draws h) msg d in
      elim (message_of reply) [
        | none ↦ elim (is_premature_peel msg d) [
          | true ↦ drain_peels_list msgs d' (buffer_peel msg h)
          | false ↦ (record h { deal = some d' }, none)
        ]
        | some first ↦
            let (d'', out) = collect_peels d' first in
            let (h', produced) = drain_peels_list msgs d'' h in
            (h', elim produced [ none ↦ none | some more ↦ some (out ++ more) ])
      ]

  unfoldable pub drain_peels : CryptoHand → CryptoHand × Option (List PeelMessage)
  drain_peels h = elim h.deal [
    | none ↦ (h, some [])
    | some d ↦ drain_peels_list h.early_peels d (record h { early_peels = [] })
  ]

  -- The loop of tryDelegatedPeelsLocked on fuel: the hand, what was produced, and whether there was no
  -- error.
  unfoldable pub delegated_loop :
      ℕ → DealSession → CryptoHand → CryptoHand × List PeelMessage × Bool
  delegated_loop zero d h = (record h { deal = some d }, [], true)
  delegated_loop (suc fuel) d h =
      let peeler = expected_peeler d in
      if peeler == 0 then (record h { deal = some d }, [], true) else elim (lookup peeler h.gone) [
        | none ↦ (record h { deal = some d }, [], true)
        | some key ↦
            let (d', reply) =
              peel_on_behalf sha256 (own_draws h) peeler key (draws peeler d.card_index) d in
            elim (message_of reply) [
              | none ↦ (record h { deal = some d' }, [], false)
              | some msg ↦
                  let (d'', out) = collect_peels d' msg in
                  let (h', more, ok) =
                    delegated_loop fuel d'' (signal_peel_progress (record h { deal = some d'' })) in
                  (h', out ++ more, ok)
            ]
      ]

  unfoldable pub try_delegated_peels : CryptoHand → CryptoHand × List PeelMessage × Bool
  try_delegated_peels h = elim h.deal [
    | none ↦ (h, [], true)
    | some d ↦
        if length h.gone == 0
        then (h, [], true)
        else if not (designated_survivor h.kr.order h.gone == h.kr.local_id)
        then (h, [], true)
        else delegated_loop (suc (steps_left d)) d h
  ]

  -- What follows a call that the session took: the buffered peels, and those for peers that are gone.
  unfoldable pub continue_peels :
      List PeelMessage → CryptoHand → CryptoHand × Option (List PeelMessage)
  continue_peels out h =
      let (h', extra) = drain_peels h in
      elim extra [
        | none ↦ (h', none)
        | some more ↦
            let (h'', delegated, ok) = try_delegated_peels h' in
            if ok
            then (signal_peel_progress h'', some ((out ++ more) ++ delegated))
            else (h'', none)
      ]

  -- A call of the session with its reply.
  unfoldable pub after_call :
      DealSession × Reply → CryptoHand → CryptoHand × Option (List PeelMessage)
  after_call (d, reply) h = elim (message_of reply) [
    | none ↦ (record h { deal = some d }, none)
    | some first ↦
        let (d', out) = collect_peels d first in continue_peels out (record h { deal = some d' })
  ]

  -- A call on the session of the deal, once there is one.
  abbrev pub with_deal :
      CryptoHand × Bool
      → (DealSession → CryptoHand → CryptoHand × Option (List PeelMessage))
      → CryptoHand × Option (List PeelMessage)
  with_deal (h, false) f = (h, none)
  with_deal (h, true) f = elim h.deal [ none ↦ (h, none) | some d ↦ f d h ]

  unfoldable pub start_holes : CryptoHand → CryptoHand × Option (List PeelMessage)
  start_holes h =
      with_deal (ensure_deal h)
        λ d h'. after_call (begin_holes sha256 (own_draws h') d) (record h' { holes_gate = closed })

  unfoldable pub start_street : ℕ → CryptoHand → CryptoHand × Option (List PeelMessage)
  start_street street h = with_deal (ensure_deal h) λ d h'.
      after_call (begin_street sha256 (own_draws h') street d) (record h' { street_gate = closed })

  unfoldable pub start_reveal : ℕ → CryptoHand → CryptoHand × Option (List PeelMessage)
  start_reveal id h = with_deal (ensure_deal h) λ d h'.
      after_call (begin_reveal sha256 (own_draws h') id d) (record h' { reveal_gate = closed })

  -- HandlePeel, once there is a session of the deal.
  unfoldable pub peel_at :
      PeelMessage → CryptoHand → DealSession → CryptoHand × Option (List PeelMessage)
  peel_at msg h d =
      let (d', reply) = handle_peel sha256 (own_draws h) msg d in
      elim (message_of reply) [
        | none ↦
            if is_premature_peel msg d
            then (buffer_peel msg (record h { deal = some d' }), some [])
            else (record h { deal = some d' }, none)
        | some first ↦
            let (d'', out) = collect_peels d' first in
            continue_peels out (record h { deal = some d'' })
      ]

  unfoldable pub hand_peel : PeelMessage → CryptoHand → CryptoHand × Option (List PeelMessage)
  hand_peel msg h = elim h.deal [ none ↦ (buffer_peel msg h, some []) | some d ↦ peel_at msg h d ]

unfoldable pub local_holes : CryptoHand → Option (Card × Card)
local_holes h = elim h.deal [ none ↦ none | some d ↦ local_hole_cards d ]

unfoldable pub new_community_cards : ℕ → CryptoHand → Option (List Card)
new_community_cards already h = elim h.deal [
  | none ↦ none
  | some d ↦ elim (community_cards d) [
    | none ↦ none
    | some all ↦ if ltb (length all) already then none else some (drop already all)
  ]
]

unfoldable pub revealed_hole_cards : ℕ → CryptoHand → Option (Card × Card)
revealed_hole_cards id h = elim h.deal [ none ↦ none | some d ↦ revealed_holes id d ]

abbrev pub is_showing : Status → Bool
is_showing active = true
is_showing all_in = true
is_showing _ = false

unfoldable pub remaining_showdown_ids : List Player → List ℕ
remaining_showdown_ids [] = []
remaining_showdown_ids (p ∷ ps) =
    let rest = remaining_showdown_ids ps in if is_showing p.status then p.id ∷ rest else rest

unfoldable pub street_from_pending : GameState → Option ℕ
street_from_pending s =
    let n = machine_pending_street s in
    let already = length s.community in
    if n == 0
    then none
    else if (n == 3) && (already == 0)
    then some street_flop
    else if (n == 1) && (already == 3)
    then some street_turn
    else if (n == 1) && (already == 4)
    then some street_river
    else none
