-- ===== src/Network/Tests.antt =====
-- The theorems about the lobby at a table for two, and about a log.
mod Wires
mod Nodes
pub mod Hands
mod Streets
mod Seats
use decentralized_poker_engi.Common.{none, true, ℕ, ◌≡◌, refl, arith, List, [], ◌∷◌}
use decentralized_poker_engi.Int64.{le64, lt64}
use decentralized_poker_engi.Network.Lobby.{
  player_ids, seats_in_order, sorted_seats, insert_seat, sits_before, handle_join, check_all_ready,
  ready, SeatInfo, Lobby, JoinTable, new_lobby, new_seat, handle_ready, canonical_player_order,
  session_nonce, public_exponents,
}
use decentralized_poker_engi.Network.Lobby.Rules.{
  Call, join, say_ready, perform_all, IsSound, new_lobby-IsSound,
}
use decentralized_poker_engi.Network.Lobby.Order.{canonical_player_order_visit}
use mathlib.Core.List.{Perm}
use decentralized_poker_engi.Network.Gamelog.{
  Envelope, Gamelog, new_game_log, detect_equivocation, validate_sequences, seqs_of, sort_seqs,
  insert_seq, is_gapless,
}
use decentralized_poker_engi.Network.Gamelog.Equivocation.{append_all, equivocation_never_found}
use decentralized_poker_engi.Network.Gamelog.Sequences.{numbers, validate_sequences-perm}

abbrev message : ℕ → JoinTable
message name = record {
  player_name = name;
  buy_in = 1000;
  sra_pub_key_e = 3 ∷ [];
  session_nonce = name ∷ [];
}

-- Two players join and say that they are ready; a third comes too late.
abbrev calls : List Call
calls =
    join (message 7) 1 [] 50
    ∷ join (message 8) 2 (40 ∷ []) 60
    ∷ join (message 9) 3 [] 70
    ∷ say_ready 1
    ∷ say_ready 2
    ∷ []

new_lobby-IsSound_example : IsSound (perform_all calls (new_lobby 0 2))
new_lobby-IsSound_example = new_lobby-IsSound 0 2 calls

abbrev seat_of : ℕ → ℕ → SeatInfo
seat_of id ts = record (new_seat (message id) id ts) { is_ready = true }

abbrev full_table : Lobby
full_table = record {
  table_id = 0;
  max_seats = 2;
  seats = (1, seat_of 1 50) ∷ (2, seat_of 2 40) ∷ [];
  state = ready;
  signalled = true;
}

-- The lobby of `calls` has both players, ordered by the time that they said.
lobby_of_two :
    (canonical_player_order (perform_all calls (new_lobby 0 2)) ≡ 2 ∷ 1 ∷ [])
    × ((perform_all calls (new_lobby 0 2)).state ≡ ready)
unfolding canonical_player_order player_ids seats_in_order sorted_seats insert_seat sits_before
    handle_join handle_ready check_all_ready new_seat new_lobby le64 lt64
lobby_of_two = (refl, refl)

-- Player 1's envelope with the number `n`.
abbrev envelope : ℕ → ℕ → Envelope
envelope n content = record {
  kind = 3;
  sender_id = 1;
  seq = n;
  timestamp = 0;
  payload = content ∷ [];
  signature = [];
}

abbrev log : Gamelog
log = record {
  table_id = 0;
  hand_num = 1;
  entries = envelope 2 20 ∷ envelope 1 10 ∷ [];
  by_key = (1, 2) ∷ (1, 1) ∷ [];
}

validate_sequences-perm_example : (n : ℕ) × Perm (seqs_of 1 log.entries) (numbers 0 n)
unfolding validate_sequences seqs_of sort_seqs insert_seq is_gapless lt64
validate_sequences-perm_example = validate_sequences-perm (1 ∷ []) 1 log refl refl
