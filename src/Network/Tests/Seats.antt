-- ===== src/Network/Tests/Seats.antt =====
-- A lobby for two and a game with its players, and the results on both applied to them.
use decentralized_poker_engi.Common.{ℕ, ◌≡◌, refl, sym, subst, arith, true, List, [], ◌∷◌, length}
use decentralized_poker_engi.Int64.{le64, lt64}
use decentralized_poker_engi.Game.Cards.{Card}
use decentralized_poker_engi.Game.State.{new_game_state}
use decentralized_poker_engi.Crypto.CryptoGame.{give_holes}
use decentralized_poker_engi.Crypto.Deal.Protocol.{Hole}
use decentralized_poker_engi.Crypto.Keyring.Seats.{AllDiffer}
use decentralized_poker_engi.Crypto.Tests.{table}
use decentralized_poker_engi.Network.Lobby.{
  Lobby, seats_in_order, player_ids, canonical_player_order, sorted_seats, insert_seat, sits_before,
  new_seat,
}
use decentralized_poker_engi.Network.Coordinator.{hand_players}
use decentralized_poker_engi.Network.Coordinator.Holes.{placed, give_holes-hand_players}
use decentralized_poker_engi.Network.Tests.{full_table, seat_of}

-- Player 1 joined first, and the lobby keeps the seats in another order.
abbrev two_seats : Lobby
two_seats = record full_table { seats = (2, seat_of 2 50) ∷ (1, seat_of 1 40) ∷ [] }

abbrev card : ℕ → Card
card rank = record { rank = rank; suit = 0 }

abbrev holes : List Hole
holes = (card 14, card 13) ∷ (card 2, card 7) ∷ []

order_is : canonical_player_order two_seats ≡ 1 ∷ 2 ∷ []
unfolding canonical_player_order player_ids seats_in_order sorted_seats insert_seat sits_before le64
    lt64 new_seat
order_is = refl

two_are_seated : length holes ≡ length (seats_in_order two_seats)
unfolding seats_in_order sorted_seats insert_seat sits_before le64 lt64 new_seat
two_are_seated = refl

give_holes-hand_players_example :
    let ps = (new_game_state (hand_players two_seats) 0 5 10).players in
    give_holes table holes ps ≡ (placed holes ps, true)
give_holes-hand_players_example =
    give_holes-hand_players two_seats table holes 0 5 10
      (subst AllDiffer (sym order_is) ((omega arith, tt), (tt, tt))) (sym order_is) two_are_seated
