-- ===== src/Game/State.antt =====
-- internal/game/state.go. An index that Go sets to -1 is `none`. The table's name, the hand's number
-- and the display strings are left out. A method of the machine takes the state to the next one and
-- an outcome: Go's nil error, an error, or a panic. What was written before an error stays written.
use decentralized_poker_engi.Common.{
  ℕ, zero, suc, ◌+◌, ◌%◌, Option, none, some, List, [], ◌∷◌, ◌==◌, length, select, map, get_elem?,
  if◌then◌else◌,
}
use decentralized_poker_engi.Game.Cards.{Card, Deck, new_deck}
use decentralized_poker_engi.Game.Player.{
  Player, can_act, is_active, is_in_hand, reset_for_new_hand,
}
use decentralized_poker_engi.Game.Pots.{Pot}

pub data Phase : Type 0 where
  waiting pre_flop flop turn river showdown settled awaiting_street : Phase

-- `unknown` is any other value of the uint8.
pub data ActionType : Type 0 where
  fold check call raise all_in unknown : ActionType

pub record Action : Type 0 where
  pub player_id : ℕ
  pub kind : ActionType
  pub amount : ℕ

pub record GameState : Type 0 where
  pub small_blind : ℕ
  pub big_blind : ℕ
  pub players : List Player
  pub dealer_idx : ℕ
  pub action_idx : Option ℕ
  pub last_raiser_idx : Option ℕ
  pub phase : Phase
  pub community : List Card
  pub deck : Option Deck
  pub pots : List Pot
  pub current_bet : ℕ
  pub min_raise : ℕ
  pub round_action_count : ℕ
  pub log : List Action
  pub payouts : List (ℕ × ℕ)

pub data Error : Type 0 where
  wrong_phase too_few_players no_deck deck_empty not_your_turn cannot_check : Error
  nothing_to_call raise_too_small insufficient_stack unknown_action : Error
  unexpected_phase holes_missing community_dealt not_crypto board_complete : Error
  unexpected_board wrong_card_count card_not_dealt duplicate_card unknown_player : Error
  not_remaining equivocation : Error

-- `out_of_fuel` is no outcome of the code: Rounds.antt shows that no call ends with it.
pub data Outcome : Type 0 where
  ok : Outcome
  err : Error → Outcome
  panic out_of_fuel : Outcome

abbrev pub Step : Type 0
Step = GameState → GameState × Outcome

abbrev pub go_on : Outcome → GameState → Step → GameState × Outcome
go_on ok s k = k s
go_on o s k = (s, o)

-- `if err := m(); err != nil { return err }`, then the rest.
infixl 5 ◌>>◌
abbrev pub ◌>>◌ : Step → Step → Step
◌>>◌ m k s = let (s', o) = m s in go_on o s' k

unfoldable pub new_game_state : List Player → ℕ → ℕ → ℕ → GameState
new_game_state ps dealer sb bb = record {
  small_blind = sb;
  big_blind = bb;
  players = map reset_for_new_hand ps;
  dealer_idx = dealer;
  action_idx = some 0;
  last_raiser_idx = some 0;
  phase = waiting;
  community = [];
  deck = some new_deck;
  pots = [];
  current_bet = 0;
  min_raise = bb;
  round_action_count = 0;
  log = [];
  payouts = [];
}

unfoldable pub active_players : GameState → List Player
active_players s = select (λ p. is_active p.status) s.players

unfoldable pub players_in_hand : GameState → List Player
players_in_hand s = select (λ p. is_in_hand p.status) s.players

-- The position of the player who is to act, and the player.
unfoldable pub current_player : GameState → Option (ℕ × Player)
current_player s = elim s.action_idx [
  | none ↦ none
  | some i ↦ elim (get_elem? s.players i) [ none ↦ none | some p ↦ some (i, p) ]
]

-- The loop of nextActiveIndex, `n` rounds from position `pos`, which wraps.
unfoldable pub scan_active : List Player → ℕ → ℕ → Option ℕ
scan_active ps pos zero = none
scan_active ps pos (suc n) =
    let later = scan_active ps (pos + 1) n in
    elim (get_elem? ps (pos % length ps)) [
      | none ↦ later
      | some p ↦ if can_act p then some (pos % length ps) else later
    ]

unfoldable pub next_active_index : List Player → ℕ → Option ℕ
next_active_index ps from = scan_active ps (from + 1) (length ps)

-- The loop of SeatIndex, from position `i`.
unfoldable pub seat_from : ℕ → List Player → ℕ → Option ℕ
seat_from i [] id = none
seat_from i (p ∷ ps) id =
    let later = seat_from (i + 1) ps id in if p.id == id then some i else later

unfoldable pub seat_index : List Player → ℕ → Option ℕ
seat_index = seat_from 0
