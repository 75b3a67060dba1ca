-- ===== src/Game/Machine/Dealing.antt =====
-- internal/game/machine.go: StartHand, StartHandCrypto, the blinds and the hole cards.
use decentralized_poker_engi.Common.{
  ℕ, zero, suc, ◌+◌, ◌%◌, Bool, true, false, none, some, List, [], ◌∷◌, ◌++◌, ◌==◌, ltb, length,
  set, modify, get_elem?, if◌then◌else◌,
}
use decentralized_poker_engi.Int64.{lt64}
use decentralized_poker_engi.Game.Cards.{Card, deal, shuffle}
use decentralized_poker_engi.Game.Player.{Player, place_bet}
use decentralized_poker_engi.Game.State.{
  Phase, Action, ActionType, Error, ok, err, panic, Step, ◌>>◌, next_active_index,
}
use decentralized_poker_engi.Game.Machine.Showdown.{is_empty}

-- The positions of the blinds; with two players the dealer posts the small one.
abbrev pub small_blind_index : ℕ → ℕ → ℕ
small_blind_index dealer n = if n == 2 then dealer else (dealer + 1) % n

unfoldable pub big_blind_index : ℕ → ℕ → ℕ
big_blind_index dealer n = if n == 2 then (dealer + 1) % n else (dealer + 2) % n

-- An entry of the log for a blind.
abbrev posted : Player → ℕ → Action
posted p amount = record { player_id = p.id; kind = ActionType.raise; amount = amount }

-- The players after the blinds, and the bets paid, for blinds at positions that hold players. Two
-- positions that are one would be one player, who bets twice.
unfoldable pub post_blinds : Step
post_blinds s =
    let n = length s.players in
    let sb_idx = small_blind_index s.dealer_idx n in
    let bb_idx = big_blind_index s.dealer_idx n in
    elim (get_elem? s.players sb_idx) [
      | none ↦ (s, panic)
      | some sb ↦
          let (sb', sb_paid) = place_bet sb s.small_blind in
          let ps = set s.players sb_idx sb' in
          elim (get_elem? ps bb_idx) [
            | none ↦ (s, panic)
            | some bb ↦
                let (bb', bb_paid) = place_bet bb s.big_blind in
                (
                  record s {
                    players = set ps bb_idx bb';
                    current_bet = if lt64 bb_paid sb_paid then sb_paid else bb_paid;
                    log = (s.log ++ posted sb sb_paid ∷ []) ++ posted bb bb_paid ∷ [];
                  },
                  ok,
                )
          ]
    ]

-- `HoleCards[round] = c`
abbrev put_hole : ℕ → Card → Player → Player
put_hole zero c p = record p { hole0 = c }
put_hole (suc round) c p = record p { hole1 = c }

-- The inner loop of dealHoleCards, `n` players from position `pos`.
unfoldable pub deal_round : ℕ → ℕ → ℕ → Step
deal_round round zero pos s = (s, ok)
deal_round round (suc n) pos s = elim (deal s.deck) [
  | none ↦ (s, err Error.deck_empty)
  | some (c, d) ↦ deal_round round n (pos + 1) (record s {
    deck = d;
    players = modify s.players (pos % length s.players) (put_hole round c);
  })
]

unfoldable pub deal_hole_cards : Step
deal_hole_cards s =
    let n = length s.players in
    let start = (s.dealer_idx + 1) % n in (deal_round 0 n start >> deal_round 1 n start) s

-- The end of both ways to start a hand.
unfoldable pub open_betting : Step
open_betting s =
    let bb_idx = big_blind_index s.dealer_idx (length s.players) in
    (
      record s {
        action_idx = next_active_index s.players bb_idx;
        last_raiser_idx = some bb_idx;
        round_action_count = 0;
        phase = Phase.pre_flop;
      },
      ok,
    )

abbrev is_waiting : Phase → Bool
is_waiting Phase.waiting = true
is_waiting _ = false

-- `swaps` are the swaps that the random generator chooses.
unfoldable pub start_hand : List (ℕ × ℕ) → Step
start_hand swaps s =
    if is_waiting s.phase
    then (if ltb (length s.players) 2 then (s, err Error.too_few_players) else elim s.deck [
      | none ↦ (s, err Error.no_deck)
      | some d ↦
          (post_blinds >> deal_hole_cards >> open_betting)
            (record s { deck = some (shuffle swaps d) })
    ])
    else (s, err Error.wrong_phase)

unfoldable pub start_hand_crypto : Step
start_hand_crypto s =
    if is_waiting s.phase
    then (if ltb (length s.players) 2
        then (s, err Error.too_few_players)
        else if is_empty s.community
        then (post_blinds >> open_betting) (record s { deck = none })
        else (s, err Error.community_dealt))
    else (s, err Error.wrong_phase)
