-- ===== src/Game/Machine/Actions/Raises.antt =====
-- Raises and all-ins: what they do to the bet that the others have to match.
use decentralized_poker_engi.Common.{ℕ, ◌+◌, ◌-◌, ◌≤◌, ◌<◌, ◌≡◌, refl, arith, set, false}
use decentralized_poker_engi.Int64.{
  half, word, add64, add64_exact, sub64, sub64_exact, le64_negative, lt64, lt64_exact,
  lt64_negative,
}
use decentralized_poker_engi.Game.Player.{Player, place_bet, bet_paid}
use decentralized_poker_engi.Game.State.{GameState, ok}
use decentralized_poker_engi.Game.Machine.Actions.{act_raise, act_all_in, all_in_raise, put_player}
use decentralized_poker_engi.Game.Machine.Actions.Chips.{IsToAct}

-- An all-in does not raise while the stack and the bet to match are below 2 ^ 63 together: only the
-- player changes, and the bet to match, the minimum raise and the last raiser stay as they were. It is
-- the current player, with chips that fit an int64, whose bet of the round is at most the bet to match.
pub all_in_never_raises :
    (i : ℕ) (p : Player) (s : GameState)
    → IsToAct i p s
    → s.current_bet + p.stack < half
    → act_all_in i p s ≡ (put_player i (place_bet p p.stack).0 s, ok)
unfolding act_all_in all_in_raise
all_in_never_raises i p s v fits =
    let a = add64_exact s.current_bet p.stack (omega arith) in
    let b = add64_exact p.current_bet p.stack (omega (arith, v.behind)) in
    let t =
      lt64_exact (s.current_bet + p.stack) (p.current_bet + p.stack) fits
        (omega (arith, v.behind)) in
    ground (arith, a, b, t, v.behind)

-- The state after an accepted raise that asks for `needed` chips.
abbrev pub raised : ℕ → Player → ℕ → ℕ → GameState → GameState
raised i p amount needed s = record s {
  min_raise = amount;
  current_bet = add64 s.current_bet amount;
  players = set s.players i (place_bet p needed).0;
  last_raiser_idx = s.action_idx;
}

act_raise_accepted :
    (i : ℕ) (p : Player) (s : GameState) (amount : ℕ)
    → IsToAct i p s
    → s.min_raise ≤ amount
    → amount < half
    → lt64 (p.stack + p.current_bet) (s.current_bet - p.current_bet + amount) ≡ false
    → act_raise i p amount s ≡ (raised i p amount (s.current_bet - p.current_bet + amount) s, ok)
unfolding act_raise
act_raise_accepted i p s amount v low small covered =
    let a = sub64_exact s.current_bet p.current_bet v.behind (omega (arith, v.bet_fits)) in
    let b = add64_exact (s.current_bet - p.current_bet) amount (omega (arith, v.bet_fits)) in
    let c =
      add64_exact p.stack p.current_bet (omega (arith, v.solvent.fits, v.solvent.round_within)) in
    let t = lt64_exact amount s.min_raise small (omega arith) in
    let t' : lt64 amount s.min_raise ≡ false = ground (arith, t) in
    rw (a, b, c, t', act_raise) (rw (covered, act_raise))

place_bet_negative :
    (p : Player) (n : ℕ)
    → p.stack < half
    → half ≤ n
    → n < word
    → (place_bet p n).0.stack ≡ p.stack + (word - n)
unfolding place_bet bet_paid sub64
place_bet_negative p n h k l = rw (le64_negative p.stack n h k l) (omega arith)

-- The sum of what is to call and of the raise wraps. A raise of at least the minimum that takes it
-- past 2 ^ 63 by more than the player's stack is accepted, and adds the difference to 2 ^ 64 to the
-- stack, which grows and is no negative int64. It is the current player, with chips that fit an int64,
-- whose bet of the round is at most the bet to match.
pub raise_overflow_pays :
    (i : ℕ) (p : Player) (s : GameState) (amount : ℕ)
    → IsToAct i p s
    → s.min_raise ≤ amount
    → amount < half
    → half + p.stack < s.current_bet - p.current_bet + amount
    → let needed = s.current_bet - p.current_bet + amount in
      let t = (act_raise i p amount s).0 in
      let paid = (place_bet p needed).0 in
      ((act_raise i p amount s).1 ≡ ok)
      × (t.players ≡ set s.players i paid)
      × (paid.stack ≡ p.stack + (word - needed))
      × (p.stack < paid.stack)
      × (paid.stack < half)
raise_overflow_pays i p s amount v low small over =
    let wraps : half ≤ s.current_bet - p.current_bet + amount = omega (arith, over) in
    let needed : ℕ = s.current_bet - p.current_bet + amount in
    let fits : needed < word = omega (arith, v.bet_fits) in
    let t =
      lt64_negative (p.stack + p.current_bet) needed
        (omega (arith, v.solvent.fits, v.solvent.round_within)) wraps fits in
    let accepted = act_raise_accepted i p s amount v low small t in
    let grown = place_bet_negative p needed (omega (arith, v.solvent.fits)) wraps fits in
    rw accepted (refl, refl, grown, omega (arith, grown, fits), omega (arith, grown, over, fits))
