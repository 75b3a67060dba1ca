-- ===== src/Game/Machine/Crypto.antt =====
-- internal/game/machine.go: the streets and the hole cards that the players reveal in crypto mode.
pub mod Checks
pub mod Boards
pub mod Reveals
use decentralized_poker_engi.Common.{
  ℕ, zero, suc, ◌+◌, Bool, true, false, ◌&&◌, ◌||◌, not, Option, none, some, List, [], ◌∷◌, ◌++◌,
  ◌==◌, leb, length, select, set, get_elem?, if◌then◌else◌,
}
use decentralized_poker_engi.Game.Cards.{Card, card_eq, dealt}
use decentralized_poker_engi.Game.Player.{Player, is_in_hand}
use decentralized_poker_engi.Game.State.{
  GameState, Phase, Error, Outcome, ok, err, Step, seat_index,
}
use decentralized_poker_engi.Game.Machine.Showdown.{
  crypto_mode, hole_cards_dealt, missing_reveal_ids, remaining_holes_incomplete, distribute_pots,
}
use decentralized_poker_engi.Game.Machine.Rounds.{end_betting_round, enter_street}

unfoldable pub pending_street_count : ℕ → ℕ
pending_street_count n = if n == 0 then 3 else if (n == 3) || (n == 4) then 1 else 0

abbrev pub is_awaiting : Phase → Bool
is_awaiting Phase.awaiting_street = true
is_awaiting _ = false

abbrev pub is_showdown : Phase → Bool
is_showdown Phase.showdown = true
is_showdown _ = false

unfoldable pub machine_pending_street : GameState → ℕ
machine_pending_street s =
    if is_awaiting s.phase then pending_street_count (length s.community) else 0

unfoldable pub needs_reveal : GameState → Bool
needs_reveal s = is_showdown s.phase && remaining_holes_incomplete s

abbrev pub holds_card : List Card → Card → Bool
holds_card [] c = false
holds_card (d ∷ ds) c = let rest = holds_card ds c in if card_eq d c then true else rest

abbrev hole_cards : List Player → List Card
hole_cards [] = []
hole_cards (p ∷ ps) = p.hole0 ∷ p.hole1 ∷ hole_cards ps

-- A set of cards, as a list.
unfoldable pub known_dealt_cards : GameState → List Card
known_dealt_cards s = select dealt (s.community ++ hole_cards s.players)

-- The loop of ApplyStreet over the new cards; `none` is no error.
unfoldable pub check_cards : List Card → List Card → Option Error
check_cards seen [] = none
check_cards seen (c ∷ cs) =
    let rest = check_cards (c ∷ seen) cs in
    if dealt c
    then (if holds_card seen c then some Error.duplicate_card else rest)
    else some Error.card_not_dealt

-- The phase of a board of `n` cards.
abbrev pub street_phase : ℕ → Option Phase
street_phase n =
    if n == 3
    then some Phase.flop
    else if n == 4
    then some Phase.turn
    else if n == 5
    then some Phase.river
    else none

unfoldable pub place_street : List Card → Step
place_street cards s =
    let board = record s { community = s.community ++ cards } in
    elim (street_phase (length board.community)) [
      | none ↦ (board, err Error.unexpected_board)
      | some street ↦ enter_street end_betting_round street board
    ]

unfoldable pub apply_street : List Card → Step
apply_street cards s =
    let want = pending_street_count (length s.community) in
    if not (crypto_mode s)
    then (s, err Error.not_crypto)
    else if not (is_awaiting s.phase)
    then (s, err Error.wrong_phase)
    else if want == 0
    then (
      s,
      err (if leb 5 (length s.community) then Error.board_complete else Error.unexpected_board),
    )
    else if not (length cards == want)
    then (s, err Error.wrong_card_count)
    else elim (check_cards (known_dealt_cards s) cards) [
      | some e ↦ (s, err e)
      | none ↦ place_street cards s
    ]

-- The end of ApplyHoleReveal: the pots are paid once the last hole cards are known.
unfoldable pub settle_if_complete : Step
settle_if_complete s = if remaining_holes_incomplete s then (s, ok) else distribute_pots s

-- The part of ApplyHoleReveal about the player at position `i`.
unfoldable pub reveal_holes : ℕ → Player → Card → Card → Step
reveal_holes i p c0 c1 s =
    let revealed = record s { players = set s.players i (record p { hole0 = c0; hole1 = c1 }) } in
    if not (is_in_hand p.status)
    then (s, err Error.not_remaining)
    else if not (dealt c0 && dealt c1)
    then (s, err Error.card_not_dealt)
    else if card_eq c0 c1
    then (s, err Error.duplicate_card)
    else if hole_cards_dealt p
    then (if card_eq p.hole0 c0 && card_eq p.hole1 c1
        then settle_if_complete s
        else (s, err Error.equivocation))
    else if holds_card (known_dealt_cards s) c0 || holds_card (known_dealt_cards s) c1
    then (s, err Error.duplicate_card)
    else settle_if_complete revealed

unfoldable pub apply_hole_reveal : ℕ → Card → Card → Step
apply_hole_reveal id c0 c1 s =
    if not (crypto_mode s)
    then (s, err Error.not_crypto)
    else if not (is_showdown s.phase)
    then (s, err Error.wrong_phase)
    else elim (seat_index s.players id) [
      | none ↦ (s, err Error.unknown_player)
      | some i ↦ elim (get_elem? s.players i) [
        | none ↦ (s, err Error.unknown_player)
        | some p ↦ reveal_holes i p c0 c1 s
      ]
    ]
