-- ===== src/Network/Advance/Ends.antt =====
-- AdvanceCrypto ends: every street that it takes to the machine makes the board longer.
use decentralized_poker_engi.Common.{
  ℕ, zero, suc, ◌+◌, ◌*◌, ◌≤◌, ◌<◌, ◌≡◌, ◌≢◌, refl, arith, Bool, Bool-cases, true, ◌⊎◌, inl, inr,
  Option-cases, List, [], ◌∷◌, length,
}
use decentralized_poker_engi.Game.State.{Outcome, ok, err, panic, out_of_fuel}
use decentralized_poker_engi.Game.Machine.Crypto.{apply_street, is_awaiting, needs_reveal}
use decentralized_poker_engi.Game.Machine.Crypto.Boards.{apply_street-length}
use decentralized_poker_engi.Crypto.DealSession.{PeelMessage}
use decentralized_poker_engi.Network.CryptoHand.Deals.{
  start_street, new_community_cards, remaining_showdown_ids, street_from_pending,
}
use decentralized_poker_engi.Network.Advance.{
  Table, Ending, finished, stopped, exhausted, is_ok, street_is_done, wait_street, advance_street,
  advance_streets, advance_reveal, advance_reveals, advance_crypto,
}

abbrev pub board : Table → ℕ
board t = length t.1.community

Ending-cases : (e : Ending) → (e ≡ finished) ⊎ ((e ≡ stopped) ⊎ (e ≡ exhausted))
Ending-cases finished = inl refl
Ending-cases stopped = inr (inl refl)
Ending-cases exhausted = inr (inr refl)

is_ok→ok : (o : Outcome) → is_ok o ≡ true → o ≡ ok
is_ok→ok ok h = refl
is_ok→ok (err e) h = absurd (ground (arith, h))
is_ok→ok panic h = absurd (ground (arith, h))
is_ok→ok out_of_fuel h = absurd (ground (arith, h))

module _ (sha256 : List ℕ → List ℕ) (draws : ℕ → ℕ → ℕ) (sends : List PeelMessage → Bool)
    (world : ℕ → Table → Table) (grows : (i : ℕ) (t : Table) → board t ≤ board (world i t)) where
  wait_street-board :
      (i : ℕ) (t : Table) → board t ≤ board (wait_street sha256 draws sends world i t).0
  unfolding wait_street
  wait_street-board i t =
      let t' = world (2 * i) t in
      let first = grows (2 * i) t in
      let second = grows (suc (2 * i)) t' in
      elim (Bool-cases (street_is_done t'.0.deal)) [
        | inl e ↦ rw (e, wait_street) first
        | inr e ↦ rw (e, wait_street) (omega (arith, first, second))
      ]

  -- A round of the loop that succeeds.
  abbrev IsLonger : ℕ → Table × Bool → Type 0
  IsLonger n r = r.1 ≡ true → (n < board r.0) × (n < 5)

  advance_street-IsLonger :
      (i street : ℕ) (t : Table)
      → IsLonger (board t) (advance_street sha256 draws sends world i street t)
  unfolding advance_street
  advance_street-IsLonger i street (h, s) =
      let begun = start_street sha256 draws street h in
      elim (Option-cases begun.1) [
        | inl e ↦ rw (e, advance_street) (λ x. absurd (ground (arith, x)))
        | inr (out, e) ↦ elim (Bool-cases (sends out)) [
          | inr f ↦ rw (e, f, advance_street) (λ x. absurd (ground (arith, x)))
          | inl f ↦
              let waited = wait_street sha256 draws sends world i (begun.0, s) in
              let kept = wait_street-board i (begun.0, s) in
              elim (Bool-cases waited.1) [
                | inr g ↦ rw (e, f, g, advance_street) (λ x. absurd (ground (arith, x)))
                | inl g ↦
                    elim (Option-cases (new_community_cards (length s.community) waited.0.0)) [
                      | inl k ↦ rw (e, f, g, k, advance_street) (λ x. absurd (ground (arith, x)))
                      | inr (cards, k) ↦
                          rw (e, f, g, k, advance_street)
                            (λ x.
                              let (longer, short) =
                                apply_street-length cards waited.0.1
                                  (is_ok→ok (apply_street cards waited.0.1).1 x) in
                              (omega (arith, longer, kept), omega (arith, short, kept)))
                    ]
              ]
        ]
      ]

  advance_streets_stop :
      (fuel i : ℕ) (t : Table)
      → 0 < fuel
      → 5 < board t + fuel
      → (advance_streets sha256 draws sends world fuel i t).1 ≢ exhausted
  unfolding advance_streets
  advance_streets_stop zero i t some_fuel enough = absurd (omega (arith, some_fuel))
  advance_streets_stop (suc fuel) i (h, s) some_fuel enough =
      elim (Bool-cases (is_awaiting s.phase)) [
        | inr e ↦ rw (e, advance_streets) (λ x. cc)
        | inl e ↦ elim (Option-cases (street_from_pending s)) [
          | inl f ↦ rw (e, f, advance_streets) (λ x. cc)
          | inr (street, f) ↦
              let next = advance_street sha256 draws sends world i street (h, s) in
              elim (Bool-cases next.1) [
                | inr g ↦ rw (e, f, g, advance_streets) (λ x. cc)
                | inl g ↦
                    let (longer, short) = advance_street-IsLonger i street (h, s) g in
                    rw (e, f, g, advance_streets)
                      (advance_streets_stop fuel (suc i) next.0 (omega (arith, short, enough))
                        (omega (arith, longer, enough)))
              ]
        ]
      ]

  advance_reveals_end :
      (pids : List ℕ) (i : ℕ) (t : Table)
      → (advance_reveals sha256 draws sends world pids i t).1 ≢ exhausted
  unfolding advance_reveals
  advance_reveals_end [] i t = λ x. cc
  advance_reveals_end (pid ∷ pids) i t =
      let next = advance_reveal sha256 draws sends world i pid t in
      elim (Bool-cases next.1) [
        | inl e ↦ rw (e, advance_reveals) (advance_reveals_end pids (suc i) next.0)
        | inr e ↦ rw (e, advance_reveals) (λ x. cc)
      ]

  -- AdvanceCrypto ends, with or without an error, when every wait ends and nothing that other
  -- goroutines do meanwhile takes a card off the board: the loop over the streets does not run out of
  -- its six rounds, whatever phase and board it starts with.
  pub advance_crypto_ends : (t : Table) → (advance_crypto sha256 draws sends world t).1 ≢ exhausted
  unfolding advance_crypto
  advance_crypto_ends t =
      let streets = advance_streets sha256 draws sends world 6 0 t in
      let stop = advance_streets_stop 6 0 t (omega arith) (omega arith) in
      let ids = remaining_showdown_ids streets.0.1.players in
      let show = advance_reveals_end ids 6 streets.0 in
      elim (Ending-cases streets.1) [
        | inl e ↦ elim (Bool-cases (needs_reveal streets.0.1)) [
          | inl f ↦ rw (e, f, advance_crypto) show
          | inr f ↦ rw (e, f, advance_crypto) (λ x. cc)
        ]
        | inr (inl e) ↦ rw (e, advance_crypto) (λ x. cc)
        | inr (inr e) ↦ absurd (stop e)
      ]
