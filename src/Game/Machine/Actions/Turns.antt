-- ===== src/Game/Machine/Actions/Turns.antt =====
-- Whose turn it is, and what becomes of an action that is refused.
use decentralized_poker_engi.Common.{
  ℕ, zero, suc, ◌+◌, ◌%◌, ◌≡◌, ◌≢◌, refl, arith, List, [], ◌∷◌, ◌++◌, none, some, get_elem?, length,
  count_if, false, Bool-cases, Option-cases, inl, inr, ◌==◌,
}
use decentralized_poker_engi.Game.Player.{Player, can_act}
use decentralized_poker_engi.Game.State.{
  GameState, Action, ActionType, Error, err, panic, out_of_fuel, current_player, scan_active,
  next_active_index,
}
use decentralized_poker_engi.Game.Machine.Dealing.{open_betting, big_blind_index}
use decentralized_poker_engi.Game.Machine.Rounds.{advance_action}
use decentralized_poker_engi.Game.Machine.Rounds.Termination.{end_betting_round_ends, go_on_ends}
use decentralized_poker_engi.Game.Machine.Showdown.{resolve_single_winner}
use decentralized_poker_engi.Game.Machine.Actions.{
  act, act_fold, act_check, act_call, act_raise, act_all_in, is_closed, apply_action, after_action,
}

-- An action that its own checks refuse leaves the state as it was.
pub act_refused :
    (kind : ActionType) (i : ℕ) (p : Player) (amount : ℕ) (s : GameState) (e : Error)
    → (act kind i p amount s).1 ≡ err e
    → (act kind i p amount s).0 ≡ s
unfolding act act_fold act_check act_call act_raise act_all_in
act_refused ActionType.fold i p amount s e h = cc
act_refused ActionType.check i p amount s e h = ground arith
act_refused ActionType.call i p amount s e h = ground arith
act_refused ActionType.raise i p amount s e h = ground arith
act_refused ActionType.all_in i p amount s e h = cc
act_refused ActionType.unknown i p amount s e h = refl

-- An action of somebody else than the current player leaves the state as it was.
pub apply_action_not_to_act :
    (a : Action) (s : GameState) (i : ℕ) (p : Player)
    → current_player s ≡ some (i, p)
    → p.id ≢ a.player_id
    → (apply_action a s).0 ≡ s
unfolding apply_action
apply_action_not_to_act a s i p e h = ground (arith, e)

act_ends :
    (kind : ActionType) (i : ℕ) (p : Player) (amount : ℕ) (s : GameState)
    → (act kind i p amount s).1 ≢ out_of_fuel
unfolding act act_fold act_check act_call act_raise act_all_in
act_ends ActionType.fold i p amount s = λ h. cc
act_ends kind i p amount s = λ h. ground arith

resolve_single_winner_ends : (s : GameState) → (resolve_single_winner s).1 ≢ out_of_fuel
unfolding resolve_single_winner
resolve_single_winner_ends s h = cc

advance_action_ends : (acting : ℕ) (s : GameState) → (advance_action acting s).1 ≢ out_of_fuel
unfolding advance_action
advance_action_ends acting s h = ground (arith, end_betting_round_ends s)

after_action_ends : (i : ℕ) (a : Action) (s : GameState) → (after_action i a s).1 ≢ out_of_fuel
unfolding after_action
after_action_ends i a s h =
    let logged : GameState = record s {
      log = s.log ++ a ∷ [];
      round_action_count = s.round_action_count + 1;
    } in
    ground (arith, resolve_single_winner_ends logged, advance_action_ends i logged)

-- No action runs into the model's bound on the calls: ApplyAction ends, in every state.
pub apply_action_ends : (a : Action) (s : GameState) → (apply_action a s).1 ≢ out_of_fuel
unfolding apply_action
apply_action_ends a s = elim (Bool-cases (is_closed s.phase)) [
  | inl closed ↦ rw (closed, apply_action) (λ h. cc)
  | inr open_phase ↦ elim (Option-cases (current_player s)) [
    | inl nobody ↦ rw (open_phase, apply_action) (rw (nobody, apply_action) (λ h. cc))
    | inr ((i, p), here) ↦ elim (Bool-cases (p.id == a.player_id)) [
      | inl mine ↦
          rw (open_phase, apply_action)
            (rw (here, apply_action)
              (rw mine (
                go_on_ends (act a.kind i p a.amount s) (after_action i a)
                  (act_ends a.kind i p a.amount s) (after_action_ends i a))))
      | inr other ↦ rw (open_phase, apply_action) (rw (here, apply_action) (rw other (λ h. cc)))
    ]
  ]
]

idle :
    (ps : List Player) (k : ℕ) (p : Player)
    → count_if can_act ps ≡ 0
    → get_elem? ps k ≡ some p
    → can_act p ≡ false
idle [] k p h e = cc
idle (x ∷ ps) zero p h e = ground arith
idle (x ∷ ps) (suc k) p h e = ground (arith, idle ps k p)

-- In a table where nobody can act the search for the next player finds nobody.
scan_none : (ps : List Player) (pos n : ℕ) → count_if can_act ps ≡ 0 → scan_active ps pos n ≡ none
unfolding scan_active
scan_none ps pos zero h = refl
scan_none ps pos (suc n) h = elim (Option-cases (get_elem? ps (pos % length ps))) [
  | inl e ↦ rw (e, scan_active) (scan_none ps (pos + 1) n h)
  | inr (p, e) ↦
      rw (e, scan_active) (rw (idle ps (pos % length ps) p h e) (scan_none ps (pos + 1) n h))
]

-- Betting that opens with nobody able to act, as when the blinds put both of two players all in,
-- waits for an action, and any action is a panic.
pub stuck_after_blinds :
    (a : Action) (s : GameState)
    → count_if can_act s.players ≡ 0
    → let opened = (open_betting s).0 in apply_action a opened ≡ (opened, panic)
unfolding open_betting apply_action current_player next_active_index
stuck_after_blinds a s h =
    let bb = big_blind_index s.dealer_idx (length s.players) in
    let nobody : next_active_index s.players bb ≡ none =
      scan_none s.players (bb + 1) (length s.players) h in
    ground (arith, nobody)
