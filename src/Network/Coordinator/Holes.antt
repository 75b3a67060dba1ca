-- ===== src/Network/Coordinator/Holes.antt =====
-- Whose hole cards are whose in a hand that RunHand prepares.
use decentralized_poker_engi.Common.{
  ℕ, suc, ◌≡◌, ◌≢◌, refl, sym, ap, subst, ◌∙◌, arith, true, some, List, [], ◌∷◌, map, length,
  get_elem?, ==_iff, All,
}
use decentralized_poker_engi.Game.Player.{Player, new_player, reset_for_new_hand}
use decentralized_poker_engi.Game.State.{new_game_state}
use decentralized_poker_engi.Crypto.Keyring.Seats.{AllDiffer}
use decentralized_poker_engi.Crypto.Deal.Protocol.{Hole}
use decentralized_poker_engi.Crypto.CryptoGame.{CryptoGame, index_from, player_index, give_holes}
use decentralized_poker_engi.Network.Lobby.{
  Lobby, SeatInfo, seats_in_order, player_ids, canonical_player_order,
}
use decentralized_poker_engi.Network.Coordinator.{hand_players}

-- The players with the hole cards at their own places.
abbrev pub placed : List Hole → List Player → List Player
placed [] ps = []
placed (h ∷ hs) [] = []
placed (h ∷ hs) (p ∷ ps) = record p { hole0 = h.0; hole1 = h.1 } ∷ placed hs ps

-- From `base` on, the identifiers are found at the places from `k` on.
abbrev HasPlaces : ℕ → List ℕ → ℕ → List ℕ → Type 0
HasPlaces base xs k [] = Unit {0}
HasPlaces base xs k (y ∷ ys) = (index_from base xs y ≡ some k) × HasPlaces base xs (suc k) ys

HasPlaces-cons :
    (base x k : ℕ) (xs ys : List ℕ)
    → All (λ y. y ≢ x) ys
    → HasPlaces (suc base) xs k ys
    → HasPlaces base (x ∷ xs) k ys
unfolding index_from
HasPlaces-cons base x k xs [] differ places = tt
HasPlaces-cons base x k xs (y ∷ ys) (other, differ) (here, places) =
    (ground (arith, other, here), HasPlaces-cons base x (suc k) xs ys differ places)

HasPlaces-self : (base : ℕ) (xs : List ℕ) → AllDiffer xs → HasPlaces base xs base xs
unfolding index_from
HasPlaces-self base [] differ = tt
HasPlaces-self base (x ∷ xs) (others, differ) = (
  ground (arith, ==_iff x x),
  HasPlaces-cons base x (suc base) xs xs others (HasPlaces-self (suc base) xs differ),
)

-- The hole cards stand at the places from `k` on.
abbrev Stand : List Hole → ℕ → List Hole → Type 0
Stand all k [] = Unit {0}
Stand all k (h ∷ hs) = (get_elem? all k ≡ some h) × Stand all (suc k) hs

Stand-cons :
    (h : Hole) (all : List Hole) (k : ℕ) (hs : List Hole)
    → Stand all k hs
    → Stand (h ∷ all) (suc k) hs
Stand-cons h all k [] s = tt
Stand-cons h all k (g ∷ hs) (here, s) = (here, Stand-cons h all (suc k) hs s)

Stand-self : (hs : List Hole) → Stand hs 0 hs
Stand-self [] = tt
Stand-self (h ∷ hs) = (refl, Stand-cons h hs 0 hs (Stand-self hs))

give_holes-placed :
    (cg : CryptoGame) (all : List Hole) (k : ℕ) (hs : List Hole) (ps : List Player)
    → length hs ≡ length ps
    → Stand all k hs
    → HasPlaces 0 cg.players k (map (λ p. p.id) ps)
    → give_holes cg all ps ≡ (placed hs ps, true)
unfolding give_holes player_index
give_holes-placed cg all k [] [] same stand places = refl
give_holes-placed cg all k [] (p ∷ ps) same stand places = absurd (omega (arith, same))
give_holes-placed cg all k (h ∷ hs) [] same stand places = absurd (omega (arith, same))
give_holes-placed cg all k (h ∷ hs) (p ∷ ps) same (here, stand) (place, places) =
    let rest = give_holes-placed cg all (suc k) hs ps (omega (arith, same)) stand places in
    rw (place, here, rest, give_holes) refl

ids_of_hand :
    (seats : List SeatInfo)
    → map
        (λ (p : Player). p.id)
        (map reset_for_new_hand (map (λ (s : SeatInfo). new_player s.player_id s.buy_in) seats))
      ≡ map (λ (s : SeatInfo). s.player_id) seats
unfolding reset_for_new_hand new_player
ids_of_hand [] = refl
ids_of_hand (s ∷ seats) = ap (λ (t : List ℕ). s.player_id ∷ t) (ids_of_hand seats)

length_of_hand :
    (seats : List SeatInfo)
    → length
        (map reset_for_new_hand (map (λ (s : SeatInfo). new_player s.player_id s.buy_in) seats))
      ≡ length seats
length_of_hand [] = refl
length_of_hand (s ∷ seats) = ap suc (length_of_hand seats)

-- In a hand that RunHand makes of a lobby whose players all differ, with a game that has them in the
-- lobby's order and as many hole cards as seats, the i-th hole cards that were dealt go to the player
-- of the i-th seat, and no player is unknown.
pub give_holes-hand_players :
    (l : Lobby) (cg : CryptoGame) (holes : List Hole) (dealer sb bb : ℕ)
    → AllDiffer (canonical_player_order l)
    → cg.players ≡ canonical_player_order l
    → length holes ≡ length (seats_in_order l)
    → let ps = (new_game_state (hand_players l) dealer sb bb).players in
      give_holes cg holes ps ≡ (placed holes ps, true)
unfolding new_game_state hand_players canonical_player_order player_ids
give_holes-hand_players l cg holes dealer sb bb differ order same =
    let seats = seats_in_order l in
    let ps =
      map reset_for_new_hand (map (λ (s : SeatInfo). new_player s.player_id s.buy_in) seats) in
    let ids = ids_of_hand seats in
    let places : HasPlaces 0 cg.players 0 (map (λ (p : Player). p.id) ps) =
      subst (λ t. HasPlaces 0 t 0 (map (λ (p : Player). p.id) ps)) (sym order)
        (subst (λ t. HasPlaces 0 (map (λ (s : SeatInfo). s.player_id) seats) 0 t) (sym ids)
          (HasPlaces-self 0 (map (λ (s : SeatInfo). s.player_id) seats) differ)) in
    give_holes-placed cg holes 0 holes ps (same ∙ sym (length_of_hand seats)) (Stand-self holes)
      places
