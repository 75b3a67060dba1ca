-- ===== src/Game/Machine/Actions/Chips.antt =====
-- What an action does to the chips: it moves them from a stack to the bets of the same player.
use decentralized_poker_engi.Common.{
  ℕ, zero, suc, ◌+◌, ◌-◌, ◌≤◌, ◌<◌, ◌≡◌, refl, arith, List, [], ◌∷◌, some, get_elem?, set, sum_by,
}
use decentralized_poker_engi.Int64.{half, add64_exact, sub64_exact}
use decentralized_poker_engi.Game.Player.{Player, place_bet}
use decentralized_poker_engi.Game.Player.Bets.{chips, IsSolvent, place_bet_stack, place_bet_total}
use decentralized_poker_engi.Game.State.{GameState, ActionType}
use decentralized_poker_engi.Game.Machine.Actions.{
  act_fold, act_check, act_call, act_raise, act_all_in, all_in_raise, act,
}

-- All the chips of the table, in the stacks and in the bets of the hand.
abbrev pub bank : List Player → ℕ
bank = sum_by chips

bank-set :
    (ps : List Player) (i : ℕ) (p q : Player)
    → get_elem? ps i ≡ some p
    → chips q ≡ chips p
    → bank (set ps i q) ≡ bank ps
bank-set [] i p q e h = refl
bank-set (x ∷ ps) zero p q e h = ground (arith, e, h)
bank-set (x ∷ ps) (suc i) p q e h = omega (arith, bank-set ps i p q e h)

-- The current player of a state, whose chips fit an int64 and who has bet no more in this round
-- than the bet to match.
pub record IsToAct (i : ℕ) (p : Player) (s : GameState) : Type 0 where
  pub here : get_elem? s.players i ≡ some p
  pub solvent : IsSolvent p
  pub behind : p.current_bet ≤ s.current_bet
  pub bet_fits : s.current_bet < half

module _ (i : ℕ) (p : Player) (s : GameState) (v : IsToAct i p s) where
  place_bet-bank :
      (amount : ℕ) → amount < half → bank (set s.players i (place_bet p amount).0) ≡ bank s.players
  place_bet-bank amount small = bank-set s.players i p (place_bet p amount).0 v.here (
      omega
        (arith, place_bet_stack p amount v.solvent small, place_bet_total p amount v.solvent small))

  act_call-bank : bank (act_call i p s).0.players ≡ bank s.players
  unfolding act_call
  act_call-bank =
      let e = sub64_exact s.current_bet p.current_bet v.behind (omega (arith, v.bet_fits)) in
      rw (e, act_call)
        (ground (arith, place_bet-bank (s.current_bet - p.current_bet) (omega (arith, v.bet_fits))))

  act_raise-bank :
      (amount : ℕ)
      → s.current_bet - p.current_bet + amount < half
      → bank (act_raise i p amount s).0.players ≡ bank s.players
  unfolding act_raise
  act_raise-bank amount small =
      let e = sub64_exact s.current_bet p.current_bet v.behind (omega (arith, v.bet_fits)) in
      let n = add64_exact (s.current_bet - p.current_bet) amount (omega arith) in
      rw (e, n, act_raise)
        (ground (arith, place_bet-bank (s.current_bet - p.current_bet + amount) small))

  act_all_in-bank : bank (act_all_in i p s).0.players ≡ bank s.players
  unfolding act_all_in all_in_raise
  act_all_in-bank = ground (arith, place_bet-bank p.stack (omega (arith, v.solvent.fits)))

  -- An action of the player at position `i`, accepted or refused, leaves the chips of the table as
  -- many as they were, in the stacks and bets together: for a player whose chips fit an int64 and
  -- whose bet of the round is at most the bet to match, and an amount that fits one together with
  -- what is to call.
  pub act-bank :
      (kind : ActionType) (amount : ℕ)
      → s.current_bet - p.current_bet + amount < half
      → bank (act kind i p amount s).0.players ≡ bank s.players
  unfolding act act_fold act_check
  act-bank ActionType.fold amount small = bank-set s.players i p _ v.here refl
  act-bank ActionType.check amount small = ground arith
  act-bank ActionType.call amount small = act_call-bank
  act-bank ActionType.raise amount small = act_raise-bank amount small
  act-bank ActionType.all_in amount small = act_all_in-bank
  act-bank ActionType.unknown amount small = refl
