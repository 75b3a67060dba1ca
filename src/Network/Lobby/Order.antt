-- ===== src/Network/Lobby/Order.antt =====
-- The order in which the seats are listed does not depend on the visit of the map.
use decentralized_poker_engi.Common.{
  ℕ, ◌<◌, ◌≡◌, ◌≢◌, ap, arith, true, false, not, List, [], ◌∷◌, ◌++◌, All, map,
}
use decentralized_poker_engi.Int64.{word, lt64}
use decentralized_poker_engi.Network.Lobby.{
  SeatInfo, Lobby, seats_in_order, player_ids, canonical_player_order, join_nonces, session_nonce,
  public_exponents, sits_before, insert_seat, sorted_seats,
}

-- Every time of a join is a pattern of 64 bits.
abbrev pub AllTimed : List SeatInfo → Type 0
AllTimed = All (λ s. s.joined_at_unix_ms < word)

sits_before_trans :
    (a b c : SeatInfo)
    → a.joined_at_unix_ms < word
    → b.joined_at_unix_ms < word
    → c.joined_at_unix_ms < word
    → sits_before a b ≡ true
    → sits_before c b ≡ false
    → sits_before a c ≡ true
unfolding sits_before lt64
sits_before_trans a b c h k l p q = ground arith

sits_before_asym :
    (a b : SeatInfo)
    → a.player_id ≢ b.player_id
    → a.joined_at_unix_ms < word
    → b.joined_at_unix_ms < word
    → sits_before a b ≡ not (sits_before b a)
unfolding sits_before lt64
sits_before_asym a b n h k = ground arith

insert_seat-AllTimed :
    (s : SeatInfo) (ts : List SeatInfo)
    → s.joined_at_unix_ms < word
    → AllTimed ts
    → AllTimed (insert_seat s ts)
unfolding insert_seat
insert_seat-AllTimed s [] h w = (h, tt)
insert_seat-AllTimed s (t ∷ ts) h w = ground (arith, insert_seat-AllTimed s ts h w.1)

insert_seat_comm :
    (a b : SeatInfo) (ts : List SeatInfo)
    → a.player_id ≢ b.player_id
    → a.joined_at_unix_ms < word
    → b.joined_at_unix_ms < word
    → AllTimed ts
    → insert_seat a (insert_seat b ts) ≡ insert_seat b (insert_seat a ts)
unfolding insert_seat
insert_seat_comm a b [] n h k w = ground (arith, sits_before_asym a b n h k)
insert_seat_comm a b (t ∷ ts) n h k w = ground (
  arith,
  sits_before_asym a b n h k,
  sits_before_trans a t b h w.0 k,
  sits_before_trans b t a k w.0 h,
  insert_seat_comm a b ts n h k w.1,
)

-- Every time in the map is a pattern of 64 bits.
abbrev pub MapTimed : List (ℕ × SeatInfo) → Type 0
MapTimed = All (λ e. e.1.joined_at_unix_ms < word)

sorted_seats-AllTimed : (m : List (ℕ × SeatInfo)) → MapTimed m → AllTimed (sorted_seats m)
unfolding sorted_seats
sorted_seats-AllTimed [] w = tt
sorted_seats-AllTimed ((k, s) ∷ m) w =
    insert_seat-AllTimed s (sorted_seats m) w.0 (sorted_seats-AllTimed m w.1)

-- Seats of different players, visited next to each other in either order, are listed alike.
sorted_seats_swap :
    (before after : List (ℕ × SeatInfo)) (a b : ℕ × SeatInfo)
    → a.1.player_id ≢ b.1.player_id
    → a.1.joined_at_unix_ms < word
    → b.1.joined_at_unix_ms < word
    → MapTimed after
    → sorted_seats (before ++ a ∷ b ∷ after) ≡ sorted_seats (before ++ b ∷ a ∷ after)
unfolding sorted_seats
sorted_seats_swap [] after a b n h k w =
    insert_seat_comm a.1 b.1 (sorted_seats after) n h k (sorted_seats-AllTimed after w)
sorted_seats_swap ((j, s) ∷ before) after a b n h k w =
    ap (insert_seat s) (sorted_seats_swap before after a b n h k w)

-- A pass over the map that swaps two neighbours changes neither the order of the players nor the
-- nonce of the session nor the public exponents: for seats of different players, and times of 64
-- bits.
pub canonical_player_order_visit :
    (l : Lobby) (before after : List (ℕ × SeatInfo)) (a b : ℕ × SeatInfo)
    → a.1.player_id ≢ b.1.player_id
    → a.1.joined_at_unix_ms < word
    → b.1.joined_at_unix_ms < word
    → MapTimed after
    → let one = record l { seats = before ++ a ∷ b ∷ after } in
      let other = record l { seats = before ++ b ∷ a ∷ after } in
      (canonical_player_order one ≡ canonical_player_order other)
      × (session_nonce one ≡ session_nonce other)
      × (public_exponents one ≡ public_exponents other)
unfolding canonical_player_order player_ids session_nonce public_exponents seats_in_order
canonical_player_order_visit l before after a b n h k w =
    let e = sorted_seats_swap before after a b n h k w in
    (ap (map (λ s. s.player_id)) e, ap join_nonces e, ap (map (λ s. s.sra_key_e)) e)
