-- ===== src/Game/Machine/Showdown/Payment.antt =====
-- What the winners of the pots are paid: no chip is made up or paid twice.
use native.Mathlib.Nat.{div-add-mod'}
use decentralized_poker_engi.Common.{
  ℕ, zero, suc, ◌+◌, ◌*◌, ◌/◌, ◌%◌, ◌≤◌, ◌<◌, ◌≡◌, refl, arith, List, [], ◌∷◌, some, All, length,
  modify, sum_by, length-modify, if◌then◌else◌, false, Bool-cases, Option-cases, inl, inr,
}
use decentralized_poker_engi.Int64.{half, word, add64_exact, div64_exact, mod64_exact, lt64_exact}
use decentralized_poker_engi.Game.Cards.{Card}
use decentralized_poker_engi.Game.Player.{Player}
use decentralized_poker_engi.Game.Pots.{Pot}
use decentralized_poker_engi.Game.Hand.{EvaluatedHand}
use decentralized_poker_engi.Game.State.{GameState, seat_from, seat_index}
use decentralized_poker_engi.Game.Machine.Showdown.{
  id_at, gain, credit, credit_all, candidates, tied_with, best_of, winners_of, pot_winners,
  winner_with, closest_from, closest_left_of_dealer, pay_winners, pay_pot, pay_pots, is_empty,
  Entry,
}

abbrev pub stacks : List Player → ℕ
stacks = sum_by (λ p. p.stack)

pub stacks-gain :
    (ps : List Player) (w amount : ℕ)
    → w < length ps
    → stacks ps + amount < word
    → stacks (modify ps w (gain amount)) ≡ stacks ps + amount
stacks-gain [] w amount l h = absurd (omega arith)
stacks-gain (p ∷ ps) zero amount l h = omega (arith, add64_exact p.stack amount (omega arith))
stacks-gain (p ∷ ps) (suc w) amount l h =
    omega (arith, stacks-gain ps w amount (omega arith) (omega arith))

abbrev pub Seated : List Player → List ℕ → Type 0
Seated ps = All (λ w. w < length ps)

credit_all-stacks :
    (share : ℕ) (ws : List ℕ) (s : GameState)
    → Seated s.players ws
    → stacks s.players + share * length ws < word
    → (stacks (credit_all share ws s).players ≡ stacks s.players + share * length ws)
      × (length (credit_all share ws s).players ≡ length s.players)
unfolding credit_all credit
credit_all-stacks share [] s l h = (omega arith, refl)
credit_all-stacks share (w ∷ ws) s l h =
    let t = credit share w s in
    let grown : stacks t.players ≡ stacks s.players + share =
      stacks-gain s.players w share l.0 (omega arith) in
    let same : length t.players ≡ length s.players = length-modify s.players w (gain share) in
    let ih = credit_all-stacks share ws t (rw same l.1) (omega (arith, grown)) in
    (omega (arith, ih.0, grown), omega (arith, ih.1, same))

seat_from-lt :
    (i : ℕ) (ps : List Player) (id j : ℕ) → seat_from i ps id ≡ some j → j < i + length ps
unfolding seat_from
seat_from-lt i [] id j e = cc
seat_from-lt i (p ∷ ps) id j e = ground (arith, seat_from-lt (i + 1) ps id j)

abbrev EntriesSeated : List Player → List Entry → Type 0
EntriesSeated ps = All (λ e. e.0 < length ps)

candidates-Seated :
    (ps : List Player) (comm : List Card) (ids : List ℕ) → EntriesSeated ps (candidates ps comm ids)
unfolding candidates seat_index
candidates-Seated ps comm [] = tt
candidates-Seated ps comm (id ∷ ids) = elim (Option-cases (seat_from 0 ps id)) [
  | inl e ↦ rw (e, candidates, seat_index) (candidates-Seated ps comm ids)
  | inr (i, e) ↦ ground (arith, candidates-Seated ps comm ids, seat_from-lt 0 ps id i e)
]

tied_with-Seated :
    (ps : List Player) (best : EvaluatedHand) (es : List Entry)
    → EntriesSeated ps es
    → Seated ps (tied_with best es)
unfolding tied_with
tied_with-Seated ps best [] h = tt
tied_with-Seated ps best ((i, g) ∷ es) h = ground (arith, tied_with-Seated ps best es h.1)

pub pot_winners-Seated :
    (ps : List Player) (comm : List Card) (pot : Pot) → Seated ps (pot_winners ps comm pot)
unfolding pot_winners
pot_winners-Seated ps comm pot =
    go (candidates ps comm pot.eligible) (candidates-Seated ps comm pot.eligible)
  where
    go : (es : List Entry) → EntriesSeated ps es → Seated ps (winners_of es)
    go [] h = tt
    go ((i, g) ∷ es) h = tied_with-Seated ps (best_of g es) ((i, g) ∷ es) h

winner_with-lt :
    (ps : List Player) (n id : ℕ) (ws : List ℕ) (w : ℕ)
    → All (λ v. v < n) ws
    → winner_with ps id ws ≡ some w
    → w < n
unfolding winner_with
winner_with-lt ps n id [] w h e = cc
winner_with-lt ps n id (v ∷ ws) w h e = ground (arith, winner_with-lt ps n id ws w h.1)

closest_from-lt :
    (ps : List Player) (n : ℕ) (ws : List ℕ) (pos rounds : ℕ)
    → All (λ v. v < n) ws
    → is_empty ws ≡ false
    → closest_from ps ws pos rounds < n
unfolding closest_from
closest_from-lt ps n [] pos rounds h e = cc
closest_from-lt ps n (v ∷ ws) pos zero h e = h.0
closest_from-lt ps n (v ∷ ws) pos (suc rounds) h e =
    elim (Option-cases (winner_with ps (id_at ps (pos % length ps)) (v ∷ ws))) [
      | inl none_here ↦
          rw (none_here, closest_from) (closest_from-lt ps n (v ∷ ws) (pos + 1) rounds h e)
      | inr (w, here) ↦ rw (here, closest_from) (winner_with-lt ps n _ (v ∷ ws) w h here)
    ]

-- What a pot pays: all of it, if it has a winner.
abbrev pub claimed : Pot → GameState → ℕ
claimed pot s = if is_empty (pot_winners s.players s.community pot) then 0 else pot.amount

length-pos : (ws : List ℕ) → is_empty ws ≡ false → 0 < length ws
length-pos [] e = cc
length-pos (w ∷ ws) e = omega arith

pay_winners-stacks :
    (share rest : ℕ) (ws : List ℕ) (s : GameState)
    → Seated s.players ws
    → is_empty ws ≡ false
    → stacks s.players + (share * length ws + rest) < half
    → (stacks (pay_winners share rest ws s).players ≡ stacks s.players + (share * length ws + rest))
      × (length (pay_winners share rest ws s).players ≡ length s.players)
unfolding pay_winners credit closest_left_of_dealer
pay_winners-stacks share rest ws s l e h =
    let paid = credit_all share ws s in
    let shared = credit_all-stacks share ws s l (omega arith) in
    let at = closest_left_of_dealer paid ws in
    let seated : at < length paid.players = omega (
      arith,
      closest_from-lt paid.players (length s.players) ws (paid.dealer_idx + 1) (length paid.players)
          l e,
      shared.1,
    ) in
    let all = stacks-gain paid.players at rest seated (omega (arith, shared.0)) in
    let same = length-modify paid.players at (gain rest) in
    let test = lt64_exact 0 rest (omega arith) (omega arith) in
    (ground (arith, test, all, shared.0), ground (arith, test, same, shared.1))

-- A pot pays all of its amount to its winners, or nothing where it has none.
pay_pot-stacks :
    (pot : Pot) (s : GameState)
    → stacks s.players + pot.amount < half
    → (stacks (pay_pot pot s).players ≡ stacks s.players + claimed pot s)
      × (length (pay_pot pot s).players ≡ length s.players)
unfolding pay_pot
pay_pot-stacks pot s h = elim (Bool-cases (is_empty (pot_winners s.players s.community pot))) [
  | inl none_there ↦ rw (none_there, pay_pot) (omega arith, refl)
  | inr some_there ↦
      let ws = pot_winners s.players s.community pot in
      let n = length ws in
      let d = div64_exact pot.amount n (omega arith) in
      let m = mod64_exact pot.amount n (omega arith) in
      let sum : pot.amount / n * n + pot.amount % n ≡ pot.amount = div-add-mod' pot.amount n in
      let paid =
        pay_winners-stacks (pot.amount / n) (pot.amount % n) ws s
          (pot_winners-Seated s.players s.community pot) some_there (rw sum h) in
      rw (some_there, pay_pot, d, m) (omega (arith, paid.0, sum), paid.1)
]

-- What the pots pay, one after the other.
abbrev pub claimed_all : List Pot → GameState → ℕ
claimed_all [] s = 0
claimed_all (pot ∷ pots) s = claimed pot s + claimed_all pots (pay_pot pot s)

pub claimed-le : (pot : Pot) (s : GameState) → claimed pot s ≤ pot.amount
claimed-le pot s = ground arith

-- Paying the pots raises the stacks by what the pots with a winner hold, and by nothing else.
pub pay_pots-stacks :
    (pots : List Pot) (s : GameState)
    → stacks s.players + sum_by (λ p. p.amount) pots < half
    → (stacks (pay_pots pots s).players ≡ stacks s.players + claimed_all pots s)
      × (length (pay_pots pots s).players ≡ length s.players)
unfolding pay_pots
pay_pots-stacks [] s h = (omega arith, refl)
pay_pots-stacks (pot ∷ pots) s h =
    let one = pay_pot-stacks pot s (omega arith) in
    let ih = pay_pots-stacks pots (pay_pot pot s) (omega (arith, one.0, claimed-le pot s)) in
    (omega (arith, ih.0, one.0), omega (arith, ih.1, one.1))
