-- ===== src/Game/Machine/Showdown/Single.antt =====
-- The hand that ends when all players but one have folded.
use decentralized_poker_engi.Common.{
  ℕ, ◌+◌, ◌<◌, ◌≡◌, refl, arith, List, [], ◌∷◌, none, some, length, count_if, true, Option-cases,
  inl, inr,
}
use decentralized_poker_engi.Int64.{half}
use decentralized_poker_engi.Game.Player.{Player, is_remaining}
use decentralized_poker_engi.Game.Pots.{calculate_pots, total_pot}
use decentralized_poker_engi.Game.Pots.Totals.{bets, total_pot-calculate_pots}
use decentralized_poker_engi.Game.State.{GameState}
use decentralized_poker_engi.Game.Machine.Showdown.{
  credit, first_remaining, only_one_remaining, resolve_single_winner,
}
use decentralized_poker_engi.Game.Machine.Showdown.Payment.{stacks, stacks-gain}

first_remaining-lt :
    (i : ℕ) (ps : List Player) (w : ℕ) → first_remaining i ps ≡ some w → w < i + length ps
unfolding first_remaining
first_remaining-lt i [] w e = cc
first_remaining-lt i (p ∷ ps) w e = ground (arith, first_remaining-lt (i + 1) ps w)

first_remaining-none :
    (i : ℕ) (ps : List Player)
    → first_remaining i ps ≡ none
    → count_if (λ p. is_remaining p.status) ps ≡ 0
unfolding first_remaining
first_remaining-none i [] e = refl
first_remaining-none i (p ∷ ps) e = ground (arith, first_remaining-none (i + 1) ps)

-- When one player remains, that player gets all that was bet in the hand: the stacks are together
-- what stacks and bets were, as long as that fits an int64.
pub resolve_single_winner-stacks :
    (s : GameState)
    → only_one_remaining s.players ≡ true
    → stacks s.players + bets s.players < half
    → stacks (resolve_single_winner s).0.players ≡ stacks s.players + bets s.players
unfolding resolve_single_winner credit only_one_remaining
resolve_single_winner-stacks s one h =
    let pot = total_pot-calculate_pots s.players (omega arith) in
    elim (Option-cases (first_remaining 0 s.players)) [
      | inl e ↦ absurd (ground (arith, first_remaining-none 0 s.players e))
      | inr (w, e) ↦
          let lt = first_remaining-lt 0 s.players w e in
          let paid =
            stacks-gain s.players w (total_pot (calculate_pots s.players)) (omega (arith, lt))
              (omega (arith, pot)) in
          rw (e, resolve_single_winner) (omega (arith, paid, pot))
    ]
