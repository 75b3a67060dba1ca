-- ===== src/Game/Machine/Rounds.antt =====
-- internal/game/machine.go: the end of a betting round, the streets and the next round. Ending a
-- round may deal a street whose round ends at once; the calls are bounded by the streets left.
pub mod Termination
use decentralized_poker_engi.Common.{
  ℕ, zero, suc, ◌+◌, Bool, true, false, ◌&&◌, not, Option, none, some, List, [], ◌∷◌, ◌++◌, ◌==◌,
  ltb, leb, length, map, get_elem?, count_if, if◌then◌else◌,
}
use decentralized_poker_engi.Int64.{lt64}
use decentralized_poker_engi.Game.Cards.{Card, deal}
use decentralized_poker_engi.Game.Player.{Player, can_act, is_in_hand, reset_for_new_round}
use decentralized_poker_engi.Game.Pots.{calculate_pots}
use decentralized_poker_engi.Game.State.{
  GameState, Phase, pre_flop, flop, turn, river, awaiting_street, Error, Outcome, ok, err, panic,
  out_of_fuel, Step, ◌>>◌, next_active_index,
}
use decentralized_poker_engi.Game.Machine.Showdown.{crypto_mode, start_showdown}

unfoldable pub count_can_act : List Player → ℕ
count_can_act = count_if can_act

-- `m.CommunityCards = append(m.CommunityCards, c)` after a deal, `n` times.
unfoldable pub deal_community : ℕ → Step
deal_community zero s = (s, ok)
deal_community (suc n) s = elim (deal s.deck) [
  | none ↦ (s, err Error.deck_empty)
  | some (c, d) ↦ deal_community n (record s { deck = d; community = s.community ++ c ∷ [] })
]

unfoldable pub burn : Step
burn s = elim (deal s.deck) [
  | none ↦ (s, err Error.deck_empty)
  | some (c, d) ↦ (record s { deck = d }, ok)
]

abbrev pub reset_in_hand : Player → Player
reset_in_hand p = if is_in_hand p.status then reset_for_new_round p else p

-- The state at the start of a round, before anybody is asked to act.
unfoldable pub round_start : GameState → GameState
round_start s = record s {
  current_bet = 0;
  min_raise = s.big_blind;
  round_action_count = 0;
  last_raiser_idx = none;
  players = map reset_in_hand s.players;
}

-- The end of startNewBettingRound, by the first player to act; `end_round` is endBettingRound.
unfoldable pub ask_first : Step → Option ℕ → Step
ask_first end_round none s = elim (crypto_mode s) [ true ↦ end_round s | false ↦ start_showdown s ]
ask_first end_round (some first) s = elim (leb (count_can_act s.players) 1) [
  | true ↦ end_round (record s { action_idx = some first })
  | false ↦ (record s { action_idx = some first }, ok)
]

unfoldable pub start_new_betting_round : Step → Step
unfolding ask_first
start_new_betting_round end_round s =
    let fresh = round_start s in
    ask_first end_round (next_active_index fresh.players fresh.dealer_idx) fresh

unfoldable pub need_deck : Step
need_deck s = elim s.deck [ none ↦ (s, err Error.no_deck) | some d ↦ (s, ok) ]

-- `gs.Phase = street`, and the first round of the street.
unfoldable pub enter_street : Step → Phase → Step
enter_street end_round street s = start_new_betting_round end_round (record s { phase = street })

-- dealFlop, dealTurn and dealRiver: a card is burnt and `n` cards are dealt.
unfoldable pub deal_street : Step → ℕ → Phase → Step
deal_street end_round n street =
    need_deck >> burn >> deal_community n >> enter_street end_round street

-- The `switch` of endBettingRound in crypto mode.
unfoldable pub end_crypto : Phase → Step
end_crypto pre_flop s = (record s { phase = awaiting_street }, ok)
end_crypto flop s = (record s { phase = awaiting_street }, ok)
end_crypto turn s = (record s { phase = awaiting_street }, ok)
end_crypto river s = start_showdown s
end_crypto _ s = (s, err Error.unexpected_phase)

-- The `switch` with a local deck.
unfoldable pub end_local : Step → Phase → Step
end_local end_round pre_flop s = deal_street end_round 3 flop s
end_local end_round flop s = deal_street end_round 1 turn s
end_local end_round turn s = deal_street end_round 1 river s
end_local end_round river s = start_showdown s
end_local end_round _ s = (s, ok)

unfoldable pub end_betting_round_fuel : ℕ → Step
end_betting_round_fuel zero s = (s, out_of_fuel)
end_betting_round_fuel (suc n) s =
    let closed = record s { pots = calculate_pots s.players } in
    elim (crypto_mode s) [
      | true ↦ end_crypto s.phase closed
      | false ↦ end_local (end_betting_round_fuel n) s.phase closed
    ]

-- Four calls are enough: one for each street from the flop on, and the first.
unfoldable pub end_betting_round : Step
end_betting_round = end_betting_round_fuel 4

unfoldable pub betting_round_complete : GameState → ℕ → Player → Bool
betting_round_complete s next p =
    if lt64 p.current_bet s.current_bet
    then false
    else if ltb 0 s.round_action_count
        && elim s.last_raiser_idx [ none ↦ false | some r ↦ next == r ]
    then true
    else leb (count_can_act s.players) s.round_action_count

unfoldable pub advance_action : ℕ → Step
advance_action acting s = elim (next_active_index s.players acting) [
  | none ↦ end_betting_round s
  | some next ↦ elim (get_elem? s.players next) [
    | none ↦ (s, panic)
    | some p ↦ elim (not (can_act p)) [
      | true ↦ end_betting_round s
      | false ↦ elim (betting_round_complete s next p) [
        | true ↦ end_betting_round s
        | false ↦ (record s { action_idx = some next }, ok)
      ]
    ]
  ]
]
