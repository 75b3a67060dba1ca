-- ===== src/Game/Player.antt =====
-- internal/game/player.go. A player's identifier is only compared, so it is a number; the display
-- name is left out. Chips are int64 patterns (Int64.antt).
pub mod Bets
use decentralized_poker_engi.Common.{ℕ, Bool, true, false, if◌then◌else◌}
use decentralized_poker_engi.Int64.{add64, sub64, le64}
use decentralized_poker_engi.Game.Cards.{Card, blank}

pub data Status : Type 0 where
  active folded all_in sitting_out : Status

pub record Player : Type 0 where
  pub id : ℕ
  pub stack : ℕ
  pub hole0 : Card
  pub hole1 : Card
  pub status : Status
  pub current_bet : ℕ
  pub total_bet : ℕ

unfoldable pub new_player : ℕ → ℕ → Player
new_player i chips = record {
  id = i;
  stack = chips;
  hole0 = blank;
  hole1 = blank;
  status = active;
  current_bet = 0;
  total_bet = 0;
}

abbrev pub is_active : Status → Bool
is_active active = true
is_active _ = false

abbrev pub can_act : Player → Bool
can_act p = is_active p.status

-- `p.Status == StatusActive || p.Status == StatusAllIn`
abbrev pub is_in_hand : Status → Bool
is_in_hand active = true
is_in_hand all_in = true
is_in_hand _ = false

-- `p.Status != StatusFolded && p.Status != StatusSittingOut`
abbrev pub is_remaining : Status → Bool
is_remaining folded = false
is_remaining sitting_out = false
is_remaining _ = true

-- The chips that leave the stack, for a bet of `amount`.
unfoldable pub bet_paid : Player → ℕ → ℕ
bet_paid p amount = if le64 p.stack amount then p.stack else amount

unfoldable pub place_bet : Player → ℕ → Player × ℕ
unfolding bet_paid
place_bet p amount =
    let paid = bet_paid p amount in
    let status' = if le64 p.stack amount then all_in else p.status in
    (
      record p {
        status = status';
        stack = sub64 p.stack paid;
        current_bet = add64 p.current_bet paid;
        total_bet = add64 p.total_bet paid;
      },
      paid,
    )

unfoldable pub reset_for_new_hand : Player → Player
reset_for_new_hand p = record p {
  hole0 = blank;
  hole1 = blank;
  status = active;
  current_bet = 0;
  total_bet = 0;
}

unfoldable pub reset_for_new_round : Player → Player
reset_for_new_round p = record p { current_bet = 0 }
