-- ===== src/Game/Tests.antt =====
-- The theorems about internal/game at concrete tables, hands and cards.
use Prim.Native.Nat.{Ordering}
use decentralized_poker_engi.Common.{
  ℕ, zero, suc, ◌&&◌, ◌+◌, ◌<◌, ◌≡◌, ◌≢◌, refl, arith, Bool, true, false, none, some, List, [], ◌∷◌,
  ◌⊎◌,
}
use decentralized_poker_engi.Int64.{sub64}
use decentralized_poker_engi.Game.Cards.{Card}
use decentralized_poker_engi.Game.Player.{Player, active, folded, all_in, place_bet}
use decentralized_poker_engi.Game.Pots.{calculate_pots, total_pot}
use decentralized_poker_engi.Game.Pots.Stakes.{stake}
use decentralized_poker_engi.Game.Pots.Totals.{total_pot-calculate_pots, stake-calculate_pots}
use decentralized_poker_engi.Game.Hand.{
  HandRank, EvaluatedHand, compare_hands, evaluate5, evaluate_best7, high_card, without,
  classify_sorted, classify, group_by_rank, sort_groups, insert_group, count_ranks, count_rank,
  sort_cards, insert_card, check_flush, check_straight,
}
use decentralized_poker_engi.Game.Hand.Order.{NotAbove}
use decentralized_poker_engi.Game.Hand.Best.{hand_without, evaluate_best7_max}
use decentralized_poker_engi.Game.Hand.HighCards.{OnlyHighCards, high_cards_tie}
use decentralized_poker_engi.Game.State.{
  GameState, Phase, Action, ActionType, Error, ok, err, panic, out_of_fuel,
}
use decentralized_poker_engi.Game.Machine.Showdown.{distribute_pots, crypto_mode}
use decentralized_poker_engi.Game.Machine.Showdown.Payment.{stacks}
use decentralized_poker_engi.Game.Machine.Showdown.Winners.{won, distribute_pots-stacks}
use decentralized_poker_engi.Game.Machine.Dealing.{open_betting}
use decentralized_poker_engi.Game.Machine.Actions.{
  act, act_check, act_all_in, put_player, apply_action,
}
use decentralized_poker_engi.Game.Machine.Actions.Chips.{IsToAct, bank, act-bank}
use decentralized_poker_engi.Game.Machine.Actions.Raises.{all_in_never_raises, raise_overflow_pays}
use decentralized_poker_engi.Game.Machine.Actions.Turns.{
  act_refused, apply_action_ends, stuck_after_blinds,
}
use decentralized_poker_engi.Game.Machine.Crypto.{apply_street}
use decentralized_poker_engi.Game.Machine.Crypto.Checks.{IsStreet}
use decentralized_poker_engi.Game.Machine.Crypto.Reveals.{IsBegun, apply_street_lem}

abbrev card : ℕ → ℕ → Card
card r s = record { rank = r; suit = s }

-- A player with a stack, the bet of the round and the bets of the hand.
abbrev seat : ℕ → ℕ → ℕ → ℕ → Player
seat i chips round total = record {
  id = i;
  stack = chips;
  hole0 = card (i + 2) 0;
  hole1 = card (i + 2) 1;
  status = active;
  current_bet = round;
  total_bet = total;
}

-- One short stack and two that have matched each other.
abbrev three : List Player
three = seat 1 0 50 50 ∷ seat 2 300 100 100 ∷ seat 3 400 100 100 ∷ []

total_pot-calculate_pots_example : total_pot (calculate_pots three) ≡ 250
total_pot-calculate_pots_example = total_pot-calculate_pots three (omega arith)

stake-calculate_pots_example : stake 1 (calculate_pots three) ≡ 150
stake-calculate_pots_example = stake-calculate_pots 1 three (omega arith) refl

-- The board pairs nobody's hand, and the third player has the highest pair.
abbrev board : List Card
board = card 14 2 ∷ card 12 3 ∷ card 10 2 ∷ card 8 3 ∷ card 7 2 ∷ []

abbrev table : GameState
table = record {
  small_blind = 5;
  big_blind = 10;
  players = three;
  dealer_idx = 0;
  action_idx = some 1;
  last_raiser_idx = none;
  phase = Phase.river;
  community = board;
  deck = some [];
  pots =
      record { amount = 150; eligible = 1 ∷ 2 ∷ 3 ∷ [] }
      ∷ record { amount = 100; eligible = 2 ∷ 3 ∷ [] }
      ∷ [];
  current_bet = 120;
  min_raise = 20;
  round_action_count = 0;
  log = [];
  payouts = [];
}

distribute_pots-stacks_example :
    stacks (distribute_pots table).0.players ≡ stacks three + won table table.pots
unfolding distribute_pots crypto_mode
distribute_pots-stacks_example = distribute_pots-stacks table (omega arith) refl

-- The first player is left alone.
abbrev alone : GameState
alone = record table {
  players = seat 1 0 50 50 ∷ record (seat 2 300 100 100) { status = folded } ∷ [];
}

second-IsToAct : IsToAct 1 (seat 2 300 100 100) table
second-IsToAct = record {
  here = refl;
  solvent = record { fits = omega arith; round_within = omega arith };
  behind = omega arith;
  bet_fits = omega arith;
}

act-bank_example :
    bank (act ActionType.raise 1 (seat 2 300 100 100) 40 table).0.players ≡ bank three
act-bank_example =
    act-bank 1 (seat 2 300 100 100) table second-IsToAct ActionType.raise 40 (omega arith)

all_in_never_raises_example :
    act_all_in 1 (seat 2 300 100 100) table
    ≡ (put_player 1 (place_bet (seat 2 300 100 100) 300).0 table, ok)
all_in_never_raises_example =
    all_in_never_raises 1 (seat 2 300 100 100) table second-IsToAct (omega arith)

-- The second player has 10 left, where 20 are to call.
abbrev short : GameState
short = record table { players = seat 1 0 50 50 ∷ seat 2 10 100 100 ∷ [] }

-- A raise by the greatest int64.
raise_overflow_pays_example :
    10 < (place_bet (seat 2 10 100 100) (20 + 9223372036854775807)).0.stack
raise_overflow_pays_example =
    (raise_overflow_pays 1 (seat 2 10 100 100) short 9223372036854775807
      (record {
        here = refl;
        solvent = record { fits = omega arith; round_within = omega arith };
        behind = omega arith;
        bet_fits = omega arith;
      })
      (omega arith) (omega arith) (omega arith)).3

abbrev checks : Action
checks = record { player_id = 2; kind = ActionType.check; amount = 0 }

act_refused_example : (act ActionType.check 1 (seat 2 300 100 100) 0 table).0 ≡ table
unfolding act act_check sub64
act_refused_example =
    act_refused ActionType.check 1 (seat 2 300 100 100) 0 table Error.cannot_check refl

apply_action_ends_example : (apply_action checks table).1 ≢ out_of_fuel
apply_action_ends_example = apply_action_ends checks table

-- Two players whom the blinds have put all in.
abbrev blinded : GameState
blinded = record table {
  players =
      record (seat 1 0 5 5) { status = all_in } ∷ record (seat 2 0 10 10) { status = all_in } ∷ [];
}

stuck_after_blinds_example :
    apply_action checks (open_betting blinded).0 ≡ ((open_betting blinded).0, panic)
stuck_after_blinds_example = stuck_after_blinds checks blinded refl

-- A table in crypto mode that waits for the turn.
abbrev awaiting : GameState
awaiting = record table {
  phase = Phase.awaiting_street;
  deck = none;
  community = card 14 2 ∷ card 12 3 ∷ card 10 2 ∷ [];
}

apply_street_lem_example :
    (IsStreet (card 9 3 ∷ []) awaiting
      × IsBegun (card 9 3 ∷ []) awaiting (apply_street (card 9 3 ∷ []) awaiting))
    ⊎ ((e : Error) × (¬ IsStreet (card 9 3 ∷ []) awaiting)
        × (apply_street (card 9 3 ∷ []) awaiting ≡ (awaiting, err e)))
apply_street_lem_example = apply_street_lem (card 9 3 ∷ []) awaiting

-- Seven cards with no pair, straight or flush.
abbrev ace_high : List Card
ace_high = card 14 0 ∷ card 12 1 ∷ card 10 2 ∷ card 8 3 ∷ card 6 0 ∷ card 4 1 ∷ card 2 2 ∷ []

abbrev king_high : List Card
king_high = card 13 0 ∷ card 12 1 ∷ card 10 2 ∷ card 8 3 ∷ card 6 0 ∷ card 4 1 ∷ card 2 2 ∷ []

-- A property of all numbers below 7, by evaluation.
all_below : ℕ → (ℕ → Bool) → Bool
all_below zero test = true
all_below (suc n) test = test n && all_below n test

all_below_sound :
    (n : ℕ) (test : ℕ → Bool) (i : ℕ) → all_below n test ≡ true → i < n → test i ≡ true
unfolding all_below
all_below_sound zero test i h lt = absurd (omega arith)
all_below_sound (suc n) test i h lt = ground (arith, all_below_sound n test i)

abbrev is_high : HandRank → Bool
is_high high_card = true
is_high _ = false

abbrev all_high : List Card → Bool
all_high cards = all_below 7 (λ i. all_below 7 (λ j. is_high (hand_without i j cards).rank))

is_high_sound : (r : HandRank) → is_high r ≡ true → r ≡ high_card
is_high_sound r h = ground arith

all_high_sound : (cards : List Card) → all_high cards ≡ true → OnlyHighCards cards
all_high_sound cards h i j below k = is_high_sound (hand_without i j cards).rank (
    all_below_sound 7 (λ m. is_high (hand_without i m cards).rank) j
      (all_below_sound 7 (λ n. all_below 7 (λ m. is_high (hand_without n m cards).rank)) i h
        (omega arith))
      k)

ace_high-OnlyHighCards : OnlyHighCards ace_high
unfolding all_below evaluate5 without classify_sorted classify group_by_rank sort_groups
    insert_group count_ranks count_rank sort_cards insert_card check_flush check_straight
ace_high-OnlyHighCards = all_high_sound ace_high refl

king_high-OnlyHighCards : OnlyHighCards king_high
unfolding all_below evaluate5 without classify_sorted classify group_by_rank sort_groups
    insert_group count_ranks count_rank sort_cards insert_card check_flush check_straight
king_high-OnlyHighCards = all_high_sound king_high refl

-- The hand with the ace does not beat the one with the king.
high_cards_tie_example :
    compare_hands (evaluate_best7 ace_high) (evaluate_best7 king_high) ≡ Ordering.eq
high_cards_tie_example =
    (high_cards_tie ace_high king_high ace_high-OnlyHighCards king_high-OnlyHighCards).1

evaluate_best7_max_example : NotAbove (hand_without 0 6 ace_high) (evaluate_best7 ace_high)
evaluate_best7_max_example = evaluate_best7_max ace_high 0 6 refl (omega arith) (omega arith)

abbrev pair_of : ℕ → EvaluatedHand
pair_of r = evaluate5 (card r 0 ∷ card r 1 ∷ card 9 2 ∷ card 3 0 ∷ card 2 1 ∷ [])
