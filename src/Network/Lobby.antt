-- ===== src/Network/Lobby.antt =====
-- internal/network/lobby.go: the lobby of a table, before a hand starts. Strings are numbers in the
-- order of the strings, bytes are numbers, and the time of a join is its int64 of milliseconds;
-- JoinedAt, the same instant as a time.Time, is left out. The channel readyCh, which is closed once,
-- is the flag `signalled`.
pub mod Order
pub mod Rules
use decentralized_poker_engi.Common.{
  ℕ, Bool, true, false, not, Option, none, some, List, [], ◌∷◌, ◌++◌, map, ltb, leb, ◌==◌, length,
  if◌then◌else◌,
}
use decentralized_poker_engi.Common.Maps.{lookup, insert}
use decentralized_poker_engi.Int64.{lt64, le64}

pub data LobbyState : Type 0 where
  waiting ready playing : LobbyState

pub record SeatInfo : Type 0 where
  pub player_id : ℕ
  pub player_name : ℕ
  pub buy_in : ℕ
  pub sra_key_e : List ℕ
  pub nonce : List ℕ
  pub is_ready : Bool
  pub joined_at_unix_ms : ℕ

pub record Lobby : Type 0 where
  pub table_id : ℕ
  pub max_seats : ℕ
  pub seats : List (ℕ × SeatInfo)
  pub state : LobbyState
  pub signalled : Bool

-- The fields of the message JoinTable that the lobby reads.
pub record JoinTable : Type 0 where
  pub player_name : ℕ
  pub buy_in : ℕ
  pub sra_pub_key_e : List ℕ
  pub session_nonce : List ℕ

unfoldable pub new_lobby : ℕ → ℕ → Lobby
new_lobby table_id max_seats = record {
  table_id = table_id;
  max_seats = max_seats;
  seats = [];
  state = waiting;
  signalled = false;
}

abbrev pub is_waiting : LobbyState → Bool
is_waiting waiting = true
is_waiting _ = false

-- The first of the optional timestamps, and else the clock.
abbrev pub join_time : List ℕ → ℕ → ℕ
join_time [] now = now
join_time (ts ∷ _) now = ts

unfoldable pub new_seat : JoinTable → ℕ → ℕ → SeatInfo
new_seat msg peer ts = record {
  player_id = peer;
  player_name = msg.player_name;
  buy_in = msg.buy_in;
  sra_key_e = msg.sra_pub_key_e;
  nonce = msg.session_nonce;
  is_ready = false;
  joined_at_unix_ms = ts;
}

-- A handler returns the lobby, and whether there was no error.
unfoldable pub handle_join : JoinTable → ℕ → List ℕ → ℕ → Lobby → Lobby × Bool
handle_join msg peer sender_timestamp now l =
    if not (is_waiting l.state)
    then (l, false)
    else if leb l.max_seats (length l.seats)
    then (l, false)
    else elim (lookup peer l.seats) [
      | some _ ↦ (l, false)
      | none ↦ if le64 msg.buy_in 0 then (l, false) else (
        record l {
          seats = insert peer (new_seat msg peer (join_time sender_timestamp now)) l.seats;
        },
        true,
      )
    ]

-- The loop of checkAllReady.
abbrev pub everyone_ready : List (ℕ × SeatInfo) → Bool
everyone_ready [] = true
everyone_ready ((_, s) ∷ ss) = let rest = everyone_ready ss in if s.is_ready then rest else false

unfoldable pub check_all_ready : Lobby → Lobby
check_all_ready l =
    if ltb (length l.seats) l.max_seats
    then l
    else if not (everyone_ready l.seats)
    then l
    else if is_waiting l.state
    then record l { state = ready; signalled = true }
    else l

unfoldable pub handle_ready : ℕ → Lobby → Lobby × Bool
handle_ready peer l = elim (lookup peer l.seats) [
  | none ↦ (l, false)
  | some seat ↦ (
    check_all_ready (record l { seats = insert peer (record seat { is_ready = true }) l.seats }),
    true,
  )
]

-- The order of Seats: by the time of the join, then by identifier.
unfoldable pub sits_before : SeatInfo → SeatInfo → Bool
sits_before a b =
    if not (a.joined_at_unix_ms == b.joined_at_unix_ms)
    then lt64 a.joined_at_unix_ms b.joined_at_unix_ms
    else ltb a.player_id b.player_id

unfoldable pub insert_seat : SeatInfo → List SeatInfo → List SeatInfo
insert_seat s [] = s ∷ []
insert_seat s (t ∷ ts) =
    let rest = insert_seat s ts in if sits_before s t then s ∷ t ∷ ts else t ∷ rest

unfoldable pub sorted_seats : List (ℕ × SeatInfo) → List SeatInfo
sorted_seats [] = []
sorted_seats ((_, s) ∷ m) = insert_seat s (sorted_seats m)

unfoldable pub seats_in_order : Lobby → List SeatInfo
seats_in_order l = sorted_seats l.seats

unfoldable pub player_ids : Lobby → List ℕ
player_ids l = map (λ s. s.player_id) (seats_in_order l)

unfoldable pub canonical_player_order : Lobby → List ℕ
canonical_player_order l = player_ids l

unfoldable pub count : Lobby → ℕ
count l = length l.seats

unfoldable pub set_playing : Lobby → Lobby
set_playing l = record l { state = playing }

unfoldable pub reset : Lobby → Lobby
reset l = record l { state = waiting; signalled = false }

-- The loop of SessionNonce.
abbrev pub join_nonces : List SeatInfo → List ℕ
join_nonces [] = []
join_nonces (s ∷ ss) = s.nonce ++ join_nonces ss

unfoldable pub session_nonce : Lobby → List ℕ
session_nonce l = join_nonces (seats_in_order l)

unfoldable pub public_exponents : Lobby → List (List ℕ)
public_exponents l = map (λ s. s.sra_key_e) (seats_in_order l)

-- The loop of AllSeatsHavePublicE.
abbrev pub all_have_e : List SeatInfo → Bool
all_have_e [] = true
all_have_e (s ∷ ss) = let rest = all_have_e ss in if length s.sra_key_e == 0 then false else rest

unfoldable pub all_seats_have_public_e : Lobby → Bool
all_seats_have_public_e l =
    let seats = seats_in_order l in if length seats == 0 then false else all_have_e seats
