-- ===== src/Game/Machine/Rounds/Termination.antt =====
-- The calls between endBettingRound, the streets and startNewBettingRound come to an end.
use decentralized_poker_engi.Common.{
  ℕ, zero, suc, ◌<◌, ◌≡◌, ◌≢◌, refl, arith, [], ◌∷◌, Option, none, some, Option-cases, inl, inr,
  Bool-cases, ◌++◌, leb,
}
use decentralized_poker_engi.Game.Cards.{deal}
use decentralized_poker_engi.Game.State.{
  GameState, Phase, pre_flop, flop, turn, river, Outcome, ok, err, panic, out_of_fuel, Step, go_on,
}
use decentralized_poker_engi.Game.Pots.{calculate_pots}
use decentralized_poker_engi.Game.Machine.Showdown.{crypto_mode, start_showdown}
use decentralized_poker_engi.Game.Machine.Rounds.{
  deal_community, burn, need_deck, round_start, start_new_betting_round, deal_street, end_crypto,
  enter_street, ask_first, end_local, end_betting_round_fuel, end_betting_round, count_can_act,
}

-- The streets that a round's end may still deal at once.
abbrev streets_left : Phase → ℕ
streets_left pre_flop = 3
streets_left flop = 2
streets_left turn = 1
streets_left _ = 0

pub start_showdown_ends : (s : GameState) → (start_showdown s).1 ≢ out_of_fuel
unfolding start_showdown
start_showdown_ends s h = ground arith

need_deck_ends : (s : GameState) → (need_deck s).1 ≢ out_of_fuel
unfolding need_deck
need_deck_ends s h = ground arith

burn_ends : (s : GameState) → (burn s).1 ≢ out_of_fuel
unfolding burn
burn_ends s h = ground arith

deal_community_ends : (n : ℕ) (s : GameState) → (deal_community n s).1 ≢ out_of_fuel
unfolding deal_community
deal_community_ends zero s = λ h. cc
deal_community_ends (suc n) s = elim (Option-cases (deal s.deck)) [
  | inl e ↦ rw (e, deal_community) (λ h. cc)
  | inr ((c, d), e) ↦
      rw (e, deal_community)
        (deal_community_ends n (record s { deck = d; community = s.community ++ c ∷ [] }))
]

pub go_on_ends :
    (r : GameState × Outcome) (k : Step)
    → r.1 ≢ out_of_fuel
    → ((s : GameState) → (k s).1 ≢ out_of_fuel)
    → (go_on r.1 r.0 k).1 ≢ out_of_fuel
go_on_ends (s, ok) k h g = g s
go_on_ends (s, err e) k h g = h
go_on_ends (s, panic) k h g = h
go_on_ends (s, out_of_fuel) k h g = h

-- A step from a phase comes to an end.
abbrev Halts : Step → Phase → Type 0
Halts m ph = (s : GameState) → s.phase ≡ ph → (m s).1 ≢ out_of_fuel

ask_first_ends :
    (end_round : Step) (first : Option ℕ) (s : GameState)
    → Halts end_round s.phase
    → (ask_first end_round first s).1 ≢ out_of_fuel
unfolding ask_first
ask_first_ends end_round none s h = elim (Bool-cases (crypto_mode s)) [
  | inl e ↦ rw (e, ask_first) (h s refl)
  | inr e ↦ rw (e, ask_first) (start_showdown_ends s)
]
ask_first_ends end_round (some first) s h = elim (Bool-cases (leb (count_can_act s.players) 1)) [
  | inl few ↦ rw (few, ask_first) (h (record s { action_idx = some first }) refl)
  | inr more ↦ rw (more, ask_first) (λ e. cc)
]

pub enter_street_ends :
    (end_round : Step) (street : Phase) (s : GameState)
    → Halts end_round street
    → (enter_street end_round street s).1 ≢ out_of_fuel
unfolding enter_street start_new_betting_round round_start
enter_street_ends end_round street s h =
    ask_first_ends end_round _ (round_start (record s { phase = street })) h

deal_street_ends :
    (end_round : Step) (n : ℕ) (street : Phase) (s : GameState)
    → Halts end_round street
    → (deal_street end_round n street s).1 ≢ out_of_fuel
unfolding deal_street
deal_street_ends end_round n street s h =
    go_on_ends _ (enter_street end_round street)
      (go_on_ends _ (deal_community n) (go_on_ends _ burn (need_deck_ends s) burn_ends)
        (deal_community_ends n))
      (λ t. enter_street_ends end_round street t h)

end_crypto_ends : (ph : Phase) (s : GameState) → (end_crypto ph s).1 ≢ out_of_fuel
unfolding end_crypto
end_crypto_ends river s = start_showdown_ends s
end_crypto_ends ph s = λ h. ground arith

end_local_ends :
    (end_round : Step) (n : ℕ) (ph : Phase) (s : GameState)
    → ((t : GameState) → streets_left t.phase < n → (end_round t).1 ≢ out_of_fuel)
    → streets_left ph < suc n
    → (end_local end_round ph s).1 ≢ out_of_fuel
unfolding end_local
end_local_ends end_round n pre_flop s ih h =
    deal_street_ends end_round 3 flop s (λ t e. ih t (rw e (omega arith)))
end_local_ends end_round n flop s ih h =
    deal_street_ends end_round 1 turn s (λ t e. ih t (rw e (omega arith)))
end_local_ends end_round n turn s ih h =
    deal_street_ends end_round 1 river s (λ t e. ih t (rw e (omega arith)))
end_local_ends end_round n river s ih h = start_showdown_ends s
end_local_ends end_round n ph s ih h = λ e. cc

-- With more calls left than streets, ending a round comes to an end.
end_betting_round_fuel_ends :
    (n : ℕ) (s : GameState)
    → streets_left s.phase < n
    → (end_betting_round_fuel n s).1 ≢ out_of_fuel
unfolding end_betting_round_fuel
end_betting_round_fuel_ends zero s h = absurd (omega arith)
end_betting_round_fuel_ends (suc n) s h = elim (Bool-cases (crypto_mode s)) [
  | inl e ↦
      rw (e, end_betting_round_fuel)
        (end_crypto_ends s.phase (record s { pots = calculate_pots s.players }))
  | inr e ↦
      rw (e, end_betting_round_fuel)
        (end_local_ends (end_betting_round_fuel n) n s.phase
          (record s { pots = calculate_pots s.players }) (end_betting_round_fuel_ends n) h)
]

streets_left-lt : (ph : Phase) → streets_left ph < 4
streets_left-lt ph = ground arith

-- Ending a betting round comes to an end in every state, whatever the players and the deck: the
-- four calls that the model allows are enough.
pub end_betting_round_ends : (s : GameState) → (end_betting_round s).1 ≢ out_of_fuel
unfolding end_betting_round
end_betting_round_ends s = end_betting_round_fuel_ends 4 s (streets_left-lt s.phase)
