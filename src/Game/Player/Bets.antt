-- ===== src/Game/Player/Bets.antt =====
-- What a bet does to a player: `PlaceBet` of internal/game/player.go.
use decentralized_poker_engi.Common.{ℕ, ◌+◌, ◌-◌, ◌≤◌, ◌<◌, ◌≡◌, arith, min}
use decentralized_poker_engi.Int64.{half, add64_exact, sub64_exact, le64_exact}
use decentralized_poker_engi.Game.Player.{Player, bet_paid, place_bet}

-- The chips that a player brought to the hand, in the stack and in the pot.
abbrev pub chips : Player → ℕ
chips p = p.stack + p.total_bet

-- A player whose chips fit an int64, and whose bet of the round is part of the bets of the hand.
pub record IsSolvent (p : Player) : Type 0 where
  pub fits : chips p < half
  pub round_within : p.current_bet ≤ p.total_bet

pub bet_paid_lem :
    (p : Player) (amount : ℕ)
    → p.stack < half
    → amount < half
    → bet_paid p amount ≡ min p.stack amount
unfolding bet_paid
bet_paid_lem p amount h k = ground (arith, le64_exact p.stack amount h k)

module _ (p : Player) (amount : ℕ) (v : IsSolvent p) (small : amount < half) where
  pub place_bet_paid : (place_bet p amount).1 ≡ min p.stack amount
  unfolding place_bet
  place_bet_paid = bet_paid_lem p amount (omega (arith, v.fits)) small

  pub place_bet_stack : (place_bet p amount).0.stack ≡ p.stack - min p.stack amount
  unfolding place_bet
  place_bet_stack =
      rw (bet_paid_lem p amount (omega (arith, v.fits)) small)
        (sub64_exact p.stack (min p.stack amount) (omega arith) (omega (arith, v.fits)))

  pub place_bet_total : (place_bet p amount).0.total_bet ≡ p.total_bet + min p.stack amount
  unfolding place_bet
  place_bet_total =
      rw (bet_paid_lem p amount (omega (arith, v.fits)) small)
        (add64_exact p.total_bet (min p.stack amount) (omega (arith, v.fits)))

  pub place_bet_current : (place_bet p amount).0.current_bet ≡ p.current_bet + min p.stack amount
  unfolding place_bet
  place_bet_current =
      rw (bet_paid_lem p amount (omega (arith, v.fits)) small)
        (add64_exact p.current_bet (min p.stack amount) (omega (arith, v.fits, v.round_within)))
