-- ===== src/Game/Machine/Actions.antt =====
-- internal/game/machine.go: ApplyAction.
pub mod Chips
pub mod Raises
pub mod Turns
use decentralized_poker_engi.Common.{
  ℕ, suc, ◌+◌, Bool, true, false, Option, none, some, List, [], ◌∷◌, ◌++◌, ◌==◌, set, if◌then◌else◌,
}
use decentralized_poker_engi.Int64.{add64, sub64, lt64, le64}
use decentralized_poker_engi.Game.Player.{Player, Status, place_bet}
use decentralized_poker_engi.Game.State.{
  GameState, Phase, Action, ActionType, Error, Outcome, ok, err, panic, Step, ◌>>◌, go_on,
  current_player,
}
use decentralized_poker_engi.Game.Machine.Showdown.{only_one_remaining, resolve_single_winner}
use decentralized_poker_engi.Game.Machine.Rounds.{advance_action}

-- The phases in which ApplyAction refuses every action.
abbrev pub is_closed : Phase → Bool
is_closed Phase.showdown = true
is_closed Phase.settled = true
is_closed Phase.waiting = true
is_closed Phase.awaiting_street = true
is_closed _ = false

-- A write through the pointer to the player at position `i`.
abbrev pub put_player : ℕ → Player → GameState → GameState
put_player i p s = record s { players = set s.players i p }

unfoldable pub act_fold : ℕ → Player → Step
act_fold i p s = (put_player i (record p { status = Status.folded }) s, ok)

unfoldable pub act_check : ℕ → Player → Step
act_check i p s =
    if sub64 s.current_bet p.current_bet == 0 then (s, ok) else (s, err Error.cannot_check)

unfoldable pub act_call : ℕ → Player → Step
act_call i p s =
    let to_call = sub64 s.current_bet p.current_bet in
    if le64 to_call 0
    then (s, err Error.nothing_to_call)
    else (put_player i (place_bet p to_call).0 s, ok)

unfoldable pub act_raise : ℕ → Player → ℕ → Step
act_raise i p amount s =
    let needed = add64 (sub64 s.current_bet p.current_bet) amount in
    if lt64 amount s.min_raise
    then (s, err Error.raise_too_small)
    else if lt64 (add64 p.stack p.current_bet) needed
    then (s, err Error.insufficient_stack)
    else (
      record s {
        min_raise = amount;
        current_bet = add64 s.current_bet amount;
        players = set s.players i (place_bet p needed).0;
        last_raiser_idx = s.action_idx;
      },
      ok,
    )

-- The state after the `if total > gs.CurrentBet + allin` of an all-in.
unfoldable pub all_in_raise : Player → GameState → GameState
all_in_raise p s =
    let total = add64 p.current_bet p.stack in
    let by = sub64 total s.current_bet in
    if lt64 (add64 s.current_bet p.stack) total
    then record s {
      min_raise = if lt64 s.min_raise by then by else s.min_raise;
      current_bet = total;
      last_raiser_idx = s.action_idx;
    }
    else s

unfoldable pub act_all_in : ℕ → Player → Step
act_all_in i p s = (put_player i (place_bet p p.stack).0 (all_in_raise p s), ok)

-- The `switch` over the action's type.
unfoldable pub act : ActionType → ℕ → Player → ℕ → Step
act ActionType.fold i p amount s = act_fold i p s
act ActionType.check i p amount s = act_check i p s
act ActionType.call i p amount s = act_call i p s
act ActionType.raise i p amount s = act_raise i p amount s
act ActionType.all_in i p amount s = act_all_in i p s
act ActionType.unknown i p amount s = (s, err Error.unknown_action)

-- What follows an accepted action of the player at position `i`.
unfoldable pub after_action : ℕ → Action → Step
after_action i a s =
    let logged = record s {
      log = s.log ++ a ∷ [];
      round_action_count = s.round_action_count + 1;
    } in
    if only_one_remaining logged.players
    then resolve_single_winner logged
    else advance_action i logged

-- Where there is no current player, the error message of the source reads its status: a panic.
unfoldable pub apply_action : Action → Step
apply_action a s =
    if is_closed s.phase then (s, err Error.wrong_phase) else elim (current_player s) [
      | none ↦ (s, panic)
      | some (i, p) ↦
          if p.id == a.player_id
          then (act a.kind i p a.amount >> after_action i a) s
          else (s, err Error.not_your_turn)
    ]
