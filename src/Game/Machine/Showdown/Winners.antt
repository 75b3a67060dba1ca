-- ===== src/Game/Machine/Showdown/Winners.antt =====
-- The winners of a pot do not depend on the stacks, so they are the same whatever is paid before.
use decentralized_poker_engi.Common.{
  ℕ, zero, suc, ◌+◌, ◌<◌, ◌≡◌, refl, ap, ap₂, sym, ◌∙◌, arith, List, [], ◌∷◌, Option, none, some,
  map, modify, get_elem?, sum_by, if◌then◌else◌, Bool-cases, Option-cases, inl, inr, length,
}
use decentralized_poker_engi.Int64.{half, lt64, div64, mod64}
use decentralized_poker_engi.Game.Cards.{Card}
use decentralized_poker_engi.Game.Player.{Player}
use decentralized_poker_engi.Game.Pots.{Pot}
use decentralized_poker_engi.Game.State.{GameState, seat_from, seat_index, ok}
use decentralized_poker_engi.Game.Machine.Showdown.{
  gain, credit, credit_all, candidates, winners_of, pot_winners, closest_left_of_dealer,
  pay_winners, pay_pot, is_empty, seven_cards, distribute_pots,
}
use decentralized_poker_engi.Game.Machine.Showdown.Payment.{
  stacks, claimed, claimed_all, pay_pots-stacks,
}

-- A player without the stack.
abbrev face : Player → Player
face p = record p { stack = 0 }

abbrev pub faces : List Player → List Player
faces = map face

faces-gain : (ps : List Player) (w amount : ℕ) → faces (modify ps w (gain amount)) ≡ faces ps
faces-gain [] w amount = refl
faces-gain (p ∷ ps) zero amount = refl
faces-gain (p ∷ ps) (suc w) amount = ap (◌∷◌ (face p)) (faces-gain ps w amount)

seat_from-faces :
    (i : ℕ) (ps : List Player) (id : ℕ) → seat_from i (faces ps) id ≡ seat_from i ps id
unfolding seat_from
seat_from-faces i [] id = refl
seat_from-faces i (p ∷ ps) id = rw (seat_from-faces (i + 1) ps id)

abbrev face? : Option Player → Option Player
face? none = none
face? (some p) = some (face p)

get_elem?-faces : (ps : List Player) (i : ℕ) → get_elem? (faces ps) i ≡ face? (get_elem? ps i)
get_elem?-faces [] i = refl
get_elem?-faces (p ∷ ps) zero = refl
get_elem?-faces (p ∷ ps) (suc i) = get_elem?-faces ps i

candidates-faces :
    (ps : List Player) (comm : List Card) (ids : List ℕ)
    → candidates (faces ps) comm ids ≡ candidates ps comm ids
unfolding candidates seat_index seven_cards
candidates-faces ps comm [] = refl
candidates-faces ps comm (id ∷ ids) =
    let ih = candidates-faces ps comm ids in
    let same = seat_from-faces 0 ps id in
    elim (Option-cases (seat_from 0 ps id)) [
      | inl e ↦ ground (arith, ih, same, e)
      | inr (i, e) ↦ ground (arith, ih, same, e, get_elem?-faces ps i)
    ]

-- Two tables with the same faces have the same winners.
abbrev pub SameTable : GameState → GameState → Type 0
SameTable s t = (faces t.players ≡ faces s.players) × (t.community ≡ s.community)

pot_winners-SameTable :
    (s t : GameState) (pot : Pot)
    → SameTable s t
    → pot_winners t.players t.community pot ≡ pot_winners s.players s.community pot
unfolding pot_winners
pot_winners-SameTable s t pot (f, c) =
    let in_t = candidates-faces t.players t.community pot.eligible in
    let in_s = candidates-faces s.players s.community pot.eligible in
    ap winners_of (sym in_t ∙ (ap₂ (λ ps comm. candidates ps comm pot.eligible) f c ∙ in_s))

SameTable-trans : (s t u : GameState) → SameTable s t → SameTable t u → SameTable s u
SameTable-trans s t u h k = (k.0 ∙ h.0, k.1 ∙ h.1)

credit-SameTable : (amount w : ℕ) (s : GameState) → SameTable s (credit amount w s)
unfolding credit
credit-SameTable amount w s = (faces-gain s.players w amount, refl)

credit_all-SameTable :
    (share : ℕ) (ws : List ℕ) (s : GameState) → SameTable s (credit_all share ws s)
unfolding credit_all
credit_all-SameTable share [] s = (refl, refl)
credit_all-SameTable share (w ∷ ws) s =
    SameTable-trans s (credit share w s) (credit_all share ws (credit share w s))
      (credit-SameTable share w s) (credit_all-SameTable share ws (credit share w s))

pay_winners-SameTable :
    (share rest : ℕ) (ws : List ℕ) (s : GameState) → SameTable s (pay_winners share rest ws s)
unfolding pay_winners
pay_winners-SameTable share rest ws s =
    let paid = credit_all share ws s in
    let shared = credit_all-SameTable share ws s in
    elim (Bool-cases (lt64 0 rest)) [
      | inl some_left ↦
          rw (some_left, pay_winners)
            (SameTable-trans s paid (credit rest (closest_left_of_dealer paid ws) paid) shared
              (credit-SameTable rest (closest_left_of_dealer paid ws) paid))
      | inr none_left ↦ rw (none_left, pay_winners) shared
    ]

pay_pot-SameTable : (pot : Pot) (s : GameState) → SameTable s (pay_pot pot s)
unfolding pay_pot
pay_pot-SameTable pot s = elim (Bool-cases (is_empty (pot_winners s.players s.community pot))) [
  | inl e ↦ rw (e, pay_pot) (refl, refl)
  | inr e ↦
      rw (e, pay_pot)
        (pay_winners-SameTable (div64 pot.amount (length (pot_winners s.players s.community pot)))
          (mod64 pot.amount (length (pot_winners s.players s.community pot)))
          (pot_winners s.players s.community pot) s)
]

-- The chips in the pots that have a winner at the table of `s`.
abbrev pub won : GameState → List Pot → ℕ
won s = sum_by (λ pot. claimed pot s)

claimed_all-won :
    (pots : List Pot) (s t : GameState) → SameTable s t → claimed_all pots t ≡ won s pots
claimed_all-won [] s t h = refl
claimed_all-won (pot ∷ pots) s t h =
    let same : claimed pot t ≡ claimed pot s =
      ap (λ ws. if is_empty ws then 0 else pot.amount) (pot_winners-SameTable s t pot h) in
    omega (
      arith,
      same,
      claimed_all-won pots s (pay_pot pot t)
          (SameTable-trans s t (pay_pot pot t) h (pay_pot-SameTable pot t)),
    )

-- When the pots are distributed, the stacks grow together by exactly what the pots with a winner
-- hold, while stacks and pots together fit an int64 and the distribution gives no error.
pub distribute_pots-stacks :
    (s : GameState)
    → stacks s.players + sum_by (λ p. p.amount) s.pots < half
    → (distribute_pots s).1 ≡ ok
    → stacks (distribute_pots s).0.players ≡ stacks s.players + won s s.pots
unfolding distribute_pots
distribute_pots-stacks s h e =
    ground (arith, pay_pots-stacks s.pots s h, claimed_all-won s.pots s s (refl, refl))
