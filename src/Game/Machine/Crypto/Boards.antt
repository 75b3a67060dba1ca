-- ===== src/Game/Machine/Crypto/Boards.antt =====
-- The board after a street in crypto mode.
use decentralized_poker_engi.Common.{
  ℕ, ◌+◌, ◌<◌, ◌≡◌, ◌≢◌, refl, sym, ap, ◌∙◌, arith, true, inl, inr, Option, Option-cases, none,
  some, List, [], ◌∷◌, ◌++◌, length, length-append,
}
use decentralized_poker_engi.Int64.{div64, mod64}
use decentralized_poker_engi.Game.Cards.{Card}
use decentralized_poker_engi.Game.Pots.{Pot, calculate_pots}
use decentralized_poker_engi.Game.State.{
  GameState, Phase, Error, Outcome, ok, err, next_active_index,
}
use decentralized_poker_engi.Game.Machine.Showdown.{
  crypto_mode, credit, credit_all, pay_winners, pay_pot, pay_pots, closest_left_of_dealer,
  pot_winners, distribute_pots, start_showdown,
}
use decentralized_poker_engi.Game.Machine.Rounds.{
  end_betting_round, end_betting_round_fuel, end_crypto, enter_street, start_new_betting_round,
  ask_first, round_start,
}
use decentralized_poker_engi.Game.Machine.Crypto.{
  apply_street, place_street, pending_street_count, street_phase,
}
use decentralized_poker_engi.Game.Machine.Crypto.Checks.{apply_street_cases}

credit-community : (a w : ℕ) (s : GameState) → (credit a w s).community ≡ s.community
unfolding credit
credit-community a w s = refl

credit_all-community :
    (a : ℕ) (ws : List ℕ) (s : GameState) → (credit_all a ws s).community ≡ s.community
unfolding credit_all
credit_all-community a [] s = refl
credit_all-community a (w ∷ ws) s =
    credit_all-community a ws (credit a w s) ∙ credit-community a w s

pay_winners-community :
    (a n : ℕ) (ws : List ℕ) (s : GameState) → (pay_winners a n ws s).community ≡ s.community
unfolding pay_winners
pay_winners-community a n ws s =
    let paid = credit_all a ws s in
    ground
      (arith, credit_all-community a ws s, credit-community n (closest_left_of_dealer paid ws) paid)

pay_pot-community : (p : Pot) (s : GameState) → (pay_pot p s).community ≡ s.community
unfolding pay_pot
pay_pot-community p s =
    let winners = pot_winners s.players s.community p in
    let n = length winners in
    ground (arith, pay_winners-community (div64 p.amount n) (mod64 p.amount n) winners s)

pay_pots-community : (ps : List Pot) (s : GameState) → (pay_pots ps s).community ≡ s.community
unfolding pay_pots
pay_pots-community [] s = refl
pay_pots-community (p ∷ ps) s = pay_pots-community ps (pay_pot p s) ∙ pay_pot-community p s

distribute_pots-community : (s : GameState) → (distribute_pots s).0.community ≡ s.community
unfolding distribute_pots
distribute_pots-community s = ground (arith, pay_pots-community s.pots s)

start_showdown-community : (s : GameState) → (start_showdown s).0.community ≡ s.community
unfolding start_showdown
start_showdown-community s = ground (
  arith,
  distribute_pots-community (record s { phase = Phase.showdown; pots = calculate_pots s.players }),
)

end_crypto-community :
    (street : Phase) (s : GameState) → (end_crypto street s).0.community ≡ s.community
unfolding end_crypto
end_crypto-community Phase.waiting s = refl
end_crypto-community Phase.pre_flop s = refl
end_crypto-community Phase.flop s = refl
end_crypto-community Phase.turn s = refl
end_crypto-community Phase.river s = start_showdown-community s
end_crypto-community Phase.showdown s = refl
end_crypto-community Phase.settled s = refl
end_crypto-community Phase.awaiting_street s = refl

pub crypto-pots :
    (ps : List Pot) (s : GameState) → crypto_mode (record s { pots = ps }) ≡ crypto_mode s
unfolding crypto_mode
crypto-pots ps s = refl

end_betting_round-community :
    (s : GameState) → crypto_mode s ≡ true → (end_betting_round s).0.community ≡ s.community
unfolding end_betting_round end_betting_round_fuel crypto_mode
end_betting_round-community s crypto =
    let closed = record s { pots = calculate_pots s.players } in
    let closed-crypto = crypto-pots (calculate_pots s.players) s ∙ crypto in
    rw (closed-crypto, end_betting_round, end_betting_round_fuel)
      (end_crypto-community s.phase closed)

ask_first-community :
    (first : Option ℕ) (s : GameState)
    → crypto_mode s ≡ true
    → (ask_first end_betting_round first s).0.community ≡ s.community
unfolding ask_first crypto_mode
ask_first-community none s crypto = rw (crypto, ask_first) (end_betting_round-community s crypto)
ask_first-community (some first) s crypto =
    ground (arith, end_betting_round-community (record s { action_idx = some first }) crypto)

enter_street-community :
    (street : Phase) (s : GameState)
    → crypto_mode s ≡ true
    → (enter_street end_betting_round street s).0.community ≡ s.community
unfolding enter_street start_new_betting_round round_start crypto_mode
enter_street-community street s crypto =
    let fresh = round_start (record s { phase = street }) in
    ask_first-community (next_active_index fresh.players fresh.dealer_idx) fresh crypto

pub place_street-community :
    (cards : List Card) (s : GameState)
    → crypto_mode s ≡ true
    → (place_street cards s).0.community ≡ s.community ++ cards
unfolding place_street crypto_mode
place_street-community cards s crypto =
    let board = record s { community = s.community ++ cards } in
    elim (Option-cases (street_phase (length board.community))) [
      | inl e ↦ rw (e, place_street) refl
      | inr (street, e) ↦ rw (e, place_street) (enter_street-community street board crypto)
    ]

ok≢err : (e : Error) → ok ≢ err e
ok≢err e h = cc

-- A street is wanted on a board of fewer than five cards alone.
pending_below :
    (n : ℕ)
    → (pending_street_count n ≢ 0 → 0 < pending_street_count n)
      × (pending_street_count n ≢ 0 → n < 5)
unfolding pending_street_count
pending_below n = (λ h. omega (arith, h), λ h. ground (arith, h))

-- A street that ApplyStreet takes makes the board longer, and no longer than five cards.
pub apply_street-length :
    (cards : List Card) (s : GameState)
    → (apply_street cards s).1 ≡ ok
    → (length s.community < length (apply_street cards s).0.community) × (length s.community < 5)
apply_street-length cards s h = elim (apply_street_cases cards s) [
  | inr (e, not, same) ↦ absurd (ok≢err e (sym h ∙ ap (λ (r : GameState × Outcome). r.1) same))
  | inl (is, same) ↦
      let board : (apply_street cards s).0.community ≡ s.community ++ cards =
        ap (λ (r : GameState × Outcome). r.0.community) same
        ∙ place_street-community cards s is.crypto in
      let n = length s.community in
      let longer : length (apply_street cards s).0.community ≡ n + length cards =
        ap length board ∙ length-append s.community cards in
      let (some_card, short) = pending_below n in
      let wanted = some_card is.pending in
      (ground (arith, longer, is.counted, wanted), short is.pending)
]
