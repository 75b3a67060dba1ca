-- ===== src/Network/Advance.antt =====
-- internal/network/crypto_hand.go: the waits of the driver of a hand, and AdvanceCrypto, which takes
-- the streets and the showdown's cards from it to the machine. While a wait blocks, and just before it,
-- other goroutines move the hand and the machine: `world i` is what the i-th such time does to them.
-- A wait that the context ends is an error. `sends` says which messages the caller's `send` takes.
pub mod Ends
pub mod Streets
use decentralized_poker_engi.Common.{
  ℕ, zero, suc, ◌+◌, ◌*◌, Bool, true, false, not, Option, none, some, List, [], ◌∷◌, ◌==◌, length,
  if◌then◌else◌,
}
use decentralized_poker_engi.Game.Cards.{Card}
use decentralized_poker_engi.Game.State.{GameState, ok, err, panic, out_of_fuel, Outcome}
use decentralized_poker_engi.Game.Machine.Crypto.{
  apply_street, apply_hole_reveal, is_awaiting, is_showdown, needs_reveal,
}
use decentralized_poker_engi.Crypto.DealSession.{DealSession, PeelMessage}
use decentralized_poker_engi.Network.CryptoHand.{
  CryptoHand, Gate, closed, signalled, failed, signal, shuffle_done, ensure_deal,
}
use decentralized_poker_engi.Network.CryptoHand.Deals.{
  start_street, start_reveal, new_community_cards, revealed_hole_cards, remaining_showdown_ids,
  street_from_pending,
}

-- The hand and the machine's state.
abbrev pub Table : Type 0
Table = CryptoHand × GameState

-- How AdvanceCrypto ends: by its own tests, by an error, or without fuel, which Ends excludes.
pub data Ending : Type 0 where
  finished stopped exhausted : Ending

abbrev pub is_signalled : Gate → Bool
is_signalled closed = false
is_signalled signalled = true
is_signalled failed = false

abbrev pub is_ok : Outcome → Bool
is_ok ok = true
is_ok (err e) = false
is_ok panic = false
is_ok out_of_fuel = false

-- Whether the street of the session, if there is one, is done.
abbrev pub street_is_done : Option DealSession → Bool
street_is_done none = false
street_is_done (some d) = d.street_done

-- HolesDone of the hand.
abbrev pub holes_are_done : Option DealSession → Bool
holes_are_done none = false
holes_are_done (some d) = d.holes_done

abbrev pub reveal_is_done : Option DealSession → Bool
reveal_is_done none = false
reveal_is_done (some d) = d.reveal_done

module _ (sha256 : List ℕ → List ℕ) (draws : ℕ → ℕ → ℕ) (sends : List PeelMessage → Bool)
    (world : ℕ → Table → Table) where
  -- The i-th wait: the table afterwards, and whether there was no error.
  unfoldable pub wait_street : ℕ → Table → Table × Bool
  wait_street i t =
      let (h, s) = world (2 * i) t in
      if street_is_done h.deal
      then ((record h { street_gate = signal h.street_gate }, s), true)
      else (let later = world (suc (2 * i)) (h, s) in (later, is_signalled later.0.street_gate))

  unfoldable pub wait_reveal : ℕ → Table → Table × Bool
  wait_reveal i t =
      let (h, s) = world (2 * i) t in
      if reveal_is_done h.deal
      then ((record h { reveal_gate = signal h.reveal_gate }, s), true)
      else (let later = world (suc (2 * i)) (h, s) in (later, is_signalled later.0.reveal_gate))

  unfoldable pub wait_holes : ℕ → Table → Table × Bool
  wait_holes i t =
      let (h, s) = world (2 * i) t in
      if holes_are_done h.deal
      then ((record h { holes_gate = signal h.holes_gate }, s), true)
      else (let later = world (suc (2 * i)) (h, s) in (later, is_signalled later.0.holes_gate))

  unfoldable pub wait_shuffle : ℕ → Table → Table × Bool
  wait_shuffle i t =
      let (h, s) = world (2 * i) t in
      if shuffle_done h
      then (let (h', made) = ensure_deal h in
          if made
          then ((record h' { shuffle_gate = signal h'.shuffle_gate }, s), true)
          else ((h', s), false))
      else (let later = world (suc (2 * i)) (h, s) in (later, is_signalled later.0.shuffle_gate))

  -- One round of the loop over the streets, from StartStreet on.
  unfoldable pub advance_street : ℕ → ℕ → Table → Table × Bool
  advance_street i street (h, s) =
      let (h', msgs) = start_street sha256 draws street h in
      elim msgs [
        | none ↦ ((h', s), false)
        | some out ↦
            if not (sends out)
            then ((h', s), false)
            else (let (t, waited) = wait_street i (h', s) in
                if not waited
                then (t, false)
                else elim (new_community_cards (length s.community) t.0) [
                  | none ↦ (t, false)
                  | some cards ↦ let (s', o) = apply_street cards t.1 in ((t.0, s'), is_ok o)
                ])
      ]

  -- The loop over the streets, from its i-th round on, and how it ends.
  unfoldable pub advance_streets : ℕ → ℕ → Table → Table × Ending
  advance_streets zero i t = (t, exhausted)
  advance_streets (suc fuel) i (h, s) =
      if not (is_awaiting s.phase) then ((h, s), finished) else elim (street_from_pending s) [
        | none ↦ ((h, s), stopped)
        | some street ↦
            let (t, went) = advance_street i street (h, s) in
            elim went [ true ↦ advance_streets fuel (suc i) t | false ↦ (t, stopped) ]
      ]

  -- The cards of one player at the showdown.
  unfoldable pub advance_reveal : ℕ → ℕ → Table → Table × Bool
  advance_reveal i pid (h, s) =
      let (h', msgs) = start_reveal sha256 draws pid h in
      elim msgs [
        | none ↦ ((h', s), false)
        | some out ↦
            if not (sends out)
            then ((h', s), false)
            else (let (t, waited) = wait_reveal i (h', s) in
                if not waited then (t, false) else elim (revealed_hole_cards pid t.0) [
                  | none ↦ (t, false)
                  | some (c0, c1) ↦
                      if not (is_showdown t.1.phase)
                      then (t, true)
                      else (let (s', o) = apply_hole_reveal pid c0 c1 t.1 in ((t.0, s'), is_ok o))
                ])
      ]

  -- The loop over the players who show.
  unfoldable pub advance_reveals : List ℕ → ℕ → Table → Table × Ending
  advance_reveals [] i t = (t, finished)
  advance_reveals (pid ∷ pids) i t =
      let (t', went) = advance_reveal i pid t in
      elim went [ true ↦ advance_reveals pids (suc i) t' | false ↦ (t', stopped) ]

  -- Every street makes the board longer, so six rounds are enough. The waits of the showdown are the
  -- seventh and later ones.
  unfoldable pub advance_crypto : Table → Table × Ending
  advance_crypto t =
      let (t', ending) = advance_streets 6 0 t in
      elim ending [
        | finished ↦
            if needs_reveal t'.1
            then advance_reveals (remaining_showdown_ids t'.1.players) 6 t'
            else (t', finished)
        | stopped ↦ (t', stopped)
        | exhausted ↦ (t', exhausted)
      ]
