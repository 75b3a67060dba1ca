-- ===== src/Game/Machine/Crypto/Reveals.antt =====
-- What a street does in crypto mode.
use decentralized_poker_engi.Common.{
  ℕ, ◌+◌, ◌<◌, ◌≤◌, ◌≡◌, ◌≢◌, refl, sym, ap, subst, ◌∙◌, arith, Bool-cases, true, inl, inr, ◌⊎◌,
  Option, none, some, List, ◌++◌, length, length-append, map, leb,
}
use decentralized_poker_engi.Game.Cards.{Card}
use decentralized_poker_engi.Game.Pots.{calculate_pots}
use decentralized_poker_engi.Game.State.{
  GameState, Phase, Error, Outcome, ok, err, next_active_index,
}
use decentralized_poker_engi.Game.Machine.Showdown.{crypto_mode, start_showdown}
use decentralized_poker_engi.Game.Machine.Rounds.{
  end_betting_round, end_betting_round_fuel, end_crypto, enter_street, start_new_betting_round,
  ask_first, round_start, reset_in_hand, count_can_act,
}
use decentralized_poker_engi.Game.Machine.Crypto.{
  apply_street, place_street, pending_street_count, street_phase,
}
use decentralized_poker_engi.Game.Machine.Crypto.Checks.{IsStreet, apply_street_cases}
use decentralized_poker_engi.Game.Machine.Crypto.Boards.{place_street-community, crypto-pots}

-- The street that a board of `n` cards is.
abbrev pub StreetOf : ℕ → Phase → Type 0
StreetOf n street =
    ((n ≡ 3) × (street ≡ Phase.flop))
    ⊎ ((n ≡ 4) × (street ≡ Phase.turn))
    ⊎ ((n ≡ 5) × (street ≡ Phase.river))

-- The table at the start of a street's betting, with the first player to act, if there is one.
abbrev pub opened : Phase → List Card → Option ℕ → GameState → GameState
opened street cards first s = record s {
  community = s.community ++ cards;
  phase = street;
  current_bet = 0;
  min_raise = s.big_blind;
  round_action_count = 0;
  last_raiser_idx = none;
  players = map reset_in_hand s.players;
  action_idx = elim first [ none ↦ s.action_idx | some i ↦ some i ];
}

-- There is a first player and two players at least can act: the table waits for the first.
abbrev pub Bets : Option ℕ → GameState → GameState × Outcome → Type 0
Bets first table r = (first ≢ none) × (2 ≤ count_can_act table.players) × (r ≡ (table, ok))

-- There is no first player, or fewer than two can act: no betting. The pots are made, and the next
-- street is awaited, or the showdown begins.
abbrev pub Skips : Option ℕ → Phase → GameState → GameState × Outcome → Type 0
Skips first street table r =
    let closed = record table { pots = calculate_pots table.players } in
    ((first ≡ none) ⊎ (count_can_act table.players < 2))
    × (((street ≢ Phase.river) × (r ≡ (record closed { phase = Phase.awaiting_street }, ok)))
        ⊎ ((street ≡ Phase.river) × (r ≡ start_showdown closed)))

-- What ApplyStreet makes of a street: the cards are on the board, and the street has begun.
pub record IsBegun (cards : List Card) (s : GameState) (r : GameState × Outcome) : Type 0 where
  pub street : Phase
  pub board : r.0.community ≡ s.community ++ cards
  pub street_of : StreetOf (length r.0.community) street
  pub begun :
      let first = next_active_index (map reset_in_hand s.players) s.dealer_idx in
      let table = opened street cards first s in Bets first table r ⊎ Skips first street table r

-- The end of a round of a street in crypto mode.
end_street :
    (street : Phase) (n : ℕ) (table : GameState) (r : GameState × Outcome)
    → let closed = record table { pots = calculate_pots table.players } in
      StreetOf n street
      → r ≡ end_crypto street closed
      → ((street ≢ Phase.river) × (r ≡ (record closed { phase = Phase.awaiting_street }, ok)))
        ⊎ ((street ≡ Phase.river) × (r ≡ start_showdown closed))
unfolding end_crypto
end_street Phase.flop n table r is e = inl (λ h. cc, e)
end_street Phase.turn n table r is e = inl (λ h. cc, e)
end_street Phase.river n table r is e = inr (refl, e)
end_street Phase.waiting n table r is e = absurd (ground arith)
end_street Phase.pre_flop n table r is e = absurd (ground arith)
end_street Phase.showdown n table r is e = absurd (ground arith)
end_street Phase.settled n table r is e = absurd (ground arith)
end_street Phase.awaiting_street n table r is e = absurd (ground arith)

end_round :
    (s : GameState)
    → crypto_mode s ≡ true
    → end_betting_round s ≡ end_crypto s.phase (record s { pots = calculate_pots s.players })
unfolding end_betting_round end_betting_round_fuel crypto_mode end_crypto
end_round s crypto =
    rw
      (crypto-pots (calculate_pots s.players) s ∙ crypto, end_betting_round, end_betting_round_fuel)
      refl

-- Asking the first player, if there is one, to act.
ask_first_lem :
    (first : Option ℕ) (n : ℕ) (s : GameState)
    → crypto_mode s ≡ true
    → StreetOf n s.phase
    → let table = record s { action_idx = elim first [ none ↦ s.action_idx | some i ↦ some i ] } in
      let r = ask_first end_betting_round first s in
      Bets first table r ⊎ Skips first s.phase table r
unfolding ask_first crypto_mode
ask_first_lem none n s crypto is = inr (
  inl refl,
  end_street s.phase n s (ask_first end_betting_round none s) is
      (rw (crypto, ask_first) (end_round s crypto)),
)
ask_first_lem (some i) n s crypto is =
    let table = record s { action_idx = some i } in
    elim (Bool-cases (leb (count_can_act s.players) 1)) [
      | inl few ↦ inr (
        inr (ground (arith, few)),
        end_street s.phase n table (ask_first end_betting_round (some i) s) is
            (rw (few, ask_first) (end_round table crypto)),
      )
      | inr many ↦ inl (λ h. cc, ground (arith, many), rw (many, ask_first) refl)
    ]

enter_street_cases :
    (street : Phase) (n : ℕ) (cards : List Card) (s : GameState)
    → crypto_mode s ≡ true
    → StreetOf n street
    → let first = next_active_index (map reset_in_hand s.players) s.dealer_idx in
      let table = opened street cards first s in
      let r =
        enter_street end_betting_round street (record s { community = s.community ++ cards }) in
      Bets first table r ⊎ Skips first street table r
unfolding enter_street start_new_betting_round round_start crypto_mode
enter_street_cases street n cards s crypto is =
    ask_first_lem (next_active_index (map reset_in_hand s.players) s.dealer_idx) n
      (opened street cards none s) crypto is

-- The board that a street completes.
street_phase_lem :
    (n m : ℕ)
    → m ≢ 0
    → m ≡ pending_street_count n
    → (street : Phase) × (street_phase (n + m) ≡ some street) × StreetOf (n + m) street
unfolding pending_street_count
street_phase_lem n m some_cards counted = elim (Bool-cases (leb (n + m) 3)) [
  | inl low ↦ (Phase.flop, ground (arith, low), inl (ground (arith, low), refl))
  | inr high ↦ elim (Bool-cases (leb (n + m) 4)) [
    | inl mid ↦ (Phase.turn, ground (arith, high, mid), inr (inl (ground (arith, high, mid), refl)))
    | inr top ↦ (Phase.river, ground (arith, high, top), inr (inr (ground (arith, top), refl)))
  ]
]

place_street-IsBegun :
    (cards : List Card) (s : GameState) → IsStreet cards s → IsBegun cards s (place_street cards s)
unfolding place_street crypto_mode
place_street-IsBegun cards s is =
    let board = place_street-community cards s is.crypto in
    let size : length (s.community ++ cards) ≡ length s.community + length cards =
      length-append s.community cards in
    let (street, e, of) =
      street_phase_lem (length s.community) (length cards) (λ h. is.pending (sym is.counted ∙ h))
        is.counted in
    let here : street_phase (length (s.community ++ cards)) ≡ some street =
      ap street_phase size ∙ e in
    let known : StreetOf (length (place_street cards s).0.community) street =
      subst (λ (k : ℕ). StreetOf k street) (sym (ap length board ∙ size)) of in
    record {
      street = street;
      board = board;
      street_of = known;
      begun =
          rw (here, place_street)
            (enter_street_cases street (length s.community + length cards) cards s is.crypto of);
    }

-- In crypto mode, waiting for a street, the right number of fresh cards is put on the board, which is
-- then a flop, a turn or a river, and that street begins: if nextActiveIndex finds a player and two
-- players can act, a new round waits for that player, with the bets of the round at zero; if not, the
-- pots are made and the next street is awaited, or after the river the showdown begins. Whatever else
-- is offered is refused, and the state stays as it was.
pub apply_street_lem :
    (cards : List Card) (s : GameState)
    → (IsStreet cards s × IsBegun cards s (apply_street cards s))
      ⊎ ((e : Error) × (¬ IsStreet cards s) × (apply_street cards s ≡ (s, err e)))
apply_street_lem cards s = elim (apply_street_cases cards s) [
  | inr refused ↦ inr refused
  | inl (is, placed) ↦
      inl (is, subst (IsBegun cards s) (sym placed) (place_street-IsBegun cards s is))
]
