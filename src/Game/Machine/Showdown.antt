-- ===== src/Game/Machine/Showdown.antt =====
-- internal/game/machine.go: who wins the pots, and what the winners are paid. A *Player is the
-- position of the player at the table.
pub mod Payment
pub mod Winners
pub mod Single
use Prim.Native.Nat.{Ordering}
use decentralized_poker_engi.Common.{
  ℕ, zero, suc, ◌+◌, ◌%◌, Bool, true, false, ◌&&◌, Option, none, some, List, [], ◌∷◌, ◌==◌, ltb,
  length, map, modify, get_or, get_elem?, count_if, if◌then◌else◌,
}
use decentralized_poker_engi.Int64.{add64, div64, mod64, lt64}
use decentralized_poker_engi.Game.Cards.{Card, blank, dealt}
use decentralized_poker_engi.Game.Player.{Player, Status, is_remaining, is_in_hand}
use decentralized_poker_engi.Game.Pots.{Pot, calculate_pots, total_pot}
use decentralized_poker_engi.Game.Hand.{EvaluatedHand, compare_hands, better, evaluate_best7}
use decentralized_poker_engi.Game.State.{
  GameState, Phase, Error, Outcome, ok, err, panic, Step, seat_index,
}

unfoldable pub crypto_mode : GameState → Bool
crypto_mode s = elim s.deck [ none ↦ true | some d ↦ false ]

abbrev pub hole_cards_dealt : Player → Bool
hole_cards_dealt p = dealt p.hole0 && dealt p.hole1

unfoldable pub missing_reveal_ids : List Player → List ℕ
missing_reveal_ids [] = []
missing_reveal_ids (p ∷ ps) =
    let rest = missing_reveal_ids ps in
    if is_in_hand p.status then (if hole_cards_dealt p then rest else p.id ∷ rest) else rest

abbrev pub is_empty {ℓ} : {A : Type ℓ} → List A → Bool
is_empty [] = true
is_empty (x ∷ xs) = false

abbrev pub remaining_holes_incomplete : GameState → Bool
remaining_holes_incomplete s = if is_empty (missing_reveal_ids s.players) then false else true

-- `Payouts[id] += amount`
unfoldable pub add_payout : ℕ → ℕ → List (ℕ × ℕ) → List (ℕ × ℕ)
add_payout id amount [] = (id, add64 0 amount) ∷ []
add_payout id amount ((k, v) ∷ m) =
    if k == id then (k, add64 v amount) ∷ m else (k, v) ∷ add_payout id amount m

abbrev pub gain : ℕ → Player → Player
gain amount p = record p { stack = add64 p.stack amount }

abbrev pub id_at : List Player → ℕ → ℕ
id_at ps w = elim (get_elem? ps w) [ none ↦ 0 | some p ↦ p.id ]

-- `w.Stack += amount; gs.Payouts[w.ID] += amount`
unfoldable pub credit : ℕ → ℕ → GameState → GameState
credit amount w s = record s {
  players = modify s.players w (gain amount);
  payouts = add_payout (id_at s.players w) amount s.payouts;
}

unfoldable pub credit_all : ℕ → List ℕ → GameState → GameState
credit_all share [] s = s
credit_all share (w ∷ ws) s = credit_all share ws (credit share w s)

-- The seven cards of a player; a sixth card of the board is not read.
unfoldable pub seven_cards : Player → List Card → List Card
seven_cards p comm =
    p.hole0
    ∷ p.hole1
    ∷ get_or comm 0 blank
    ∷ get_or comm 1 blank
    ∷ get_or comm 2 blank
    ∷ get_or comm 3 blank
    ∷ get_or comm 4 blank
    ∷ []

abbrev is_folded : Status → Bool
is_folded Status.folded = true
is_folded _ = false

abbrev Entry : Type 0
Entry = ℕ × EvaluatedHand

-- The candidates of a pot: the eligible players who sit at the table and have not folded.
unfoldable pub candidates : List Player → List Card → List ℕ → List Entry
candidates ps comm [] = []
candidates ps comm (id ∷ rest) =
    let others = candidates ps comm rest in
    elim (seat_index ps id) [
      | none ↦ others
      | some i ↦ elim (get_elem? ps i) [
        | none ↦ others
        | some p ↦
            if is_folded p.status then others else (i, evaluate_best7 (seven_cards p comm)) ∷ others
      ]
    ]

unfoldable pub best_of : EvaluatedHand → List Entry → EvaluatedHand
best_of best [] = best
best_of best ((i, h) ∷ es) = best_of (better best h) es

abbrev is_eq : Ordering → Bool
is_eq Ordering.eq = true
is_eq _ = false

unfoldable pub tied_with : EvaluatedHand → List Entry → List ℕ
tied_with best [] = []
tied_with best ((i, h) ∷ es) =
    let rest = tied_with best es in if is_eq (compare_hands h best) then i ∷ rest else rest

abbrev pub winners_of : List Entry → List ℕ
winners_of [] = []
winners_of ((i, h) ∷ es) = tied_with (best_of h es) ((i, h) ∷ es)

unfoldable pub pot_winners : List Player → List Card → Pot → List ℕ
pot_winners ps comm pot = winners_of (candidates ps comm pot.eligible)

-- `winSet[id]`: the last of the winners with that identifier.
unfoldable pub winner_with : List Player → ℕ → List ℕ → Option ℕ
winner_with ps id [] = none
winner_with ps id (w ∷ ws) = elim (winner_with ps id ws) [
  | some v ↦ some v
  | none ↦ if id_at ps w == id then some w else none
]

-- The loop of closestLeftOfDealer, `n` rounds from position `pos`.
unfoldable pub closest_from : List Player → List ℕ → ℕ → ℕ → ℕ
closest_from ps winners pos zero = get_or winners 0 0
closest_from ps winners pos (suc n) =
    let later = closest_from ps winners (pos + 1) n in
    elim (winner_with ps (id_at ps (pos % length ps)) winners) [ some v ↦ v | none ↦ later ]

unfoldable pub closest_left_of_dealer : GameState → List ℕ → ℕ
closest_left_of_dealer s winners =
    closest_from s.players winners (s.dealer_idx + 1) (length s.players)

-- The shares of the winners, and the remainder to one of them.
unfoldable pub pay_winners : ℕ → ℕ → List ℕ → GameState → GameState
pay_winners share rest winners s =
    let paid = credit_all share winners s in
    if lt64 0 rest then credit rest (closest_left_of_dealer paid winners) paid else paid

-- One round of the loop over the pots; a pot without winners is skipped.
unfoldable pub pay_pot : Pot → GameState → GameState
pay_pot pot s =
    let winners = pot_winners s.players s.community pot in
    let n = length winners in
    if is_empty winners then s else pay_winners (div64 pot.amount n) (mod64 pot.amount n) winners s

unfoldable pub pay_pots : List Pot → GameState → GameState
pay_pots [] s = s
pay_pots (pot ∷ pots) s = pay_pots pots (pay_pot pot s)

unfoldable pub distribute_pots : Step
distribute_pots s =
    let paid = pay_pots s.pots s in
    if crypto_mode s && remaining_holes_incomplete s
    then (s, err Error.holes_missing)
    else (record paid { phase = Phase.settled }, ok)

unfoldable pub start_showdown : Step
unfolding distribute_pots
start_showdown s =
    let shown = record s { phase = Phase.showdown; pots = calculate_pots s.players } in
    if crypto_mode s && remaining_holes_incomplete s then (shown, ok) else distribute_pots shown

unfoldable pub only_one_remaining : List Player → Bool
only_one_remaining ps = count_if (λ p. is_remaining p.status) ps == 1

-- The position of the first player who has neither folded nor sits out, from position `i`.
unfoldable pub first_remaining : ℕ → List Player → Option ℕ
first_remaining i [] = none
first_remaining i (p ∷ ps) =
    let later = first_remaining (i + 1) ps in if is_remaining p.status then some i else later

unfoldable pub resolve_single_winner : Step
resolve_single_winner s =
    let pots = calculate_pots s.players in
    let closed = record s { pots = pots } in
    let paid : GameState = elim (first_remaining 0 s.players) [
      | none ↦ closed
      | some w ↦ credit (total_pot pots) w closed
    ] in
    (record paid { phase = Phase.settled }, ok)
