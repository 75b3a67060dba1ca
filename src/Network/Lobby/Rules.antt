-- ===== src/Network/Lobby/Rules.antt =====
-- What holds of a lobby after any sequence of its operations.
use decentralized_poker_engi.Common.{
  ℕ, suc, ◌≤◌, ◌≡◌, refl, ◌∙◌, arith, true, none, some, Option-cases, inl, inr, List, [], ◌∷◌,
  length,
}
use decentralized_poker_engi.Common.Maps.{lookup, insert}
use decentralized_poker_engi.Network.Lobby.{
  LobbyState, waiting, ready, playing, SeatInfo, Lobby, JoinTable, new_lobby, handle_join, new_seat,
  join_time, everyone_ready, check_all_ready, handle_ready, set_playing, reset,
}

-- One call of a method that changes the lobby.
pub data Call : Type 0 where
  join : JoinTable → ℕ → List ℕ → ℕ → Call
  say_ready : ℕ → Call
  start_playing : Call
  start_over : Call

abbrev pub perform : Call → Lobby → Lobby
perform (join msg peer timestamp now) l = (handle_join msg peer timestamp now l).0
perform (say_ready peer) l = (handle_ready peer l).0
perform start_playing l = set_playing l
perform start_over l = reset l

abbrev pub perform_all : List Call → Lobby → Lobby
perform_all [] l = l
perform_all (c ∷ cs) l = perform_all cs (perform c l)

-- In the state ready every seat is taken, every player is ready and the waiters are told.
abbrev pub IsSettled : LobbyState → Lobby → Type 0
IsSettled ready l =
    (length l.seats ≡ l.max_seats) × (everyone_ready l.seats ≡ true) × (l.signalled ≡ true)
IsSettled waiting l = Unit {0}
IsSettled playing l = Unit {0}

abbrev pub IsSound : Lobby → Type 0
IsSound l = (length l.seats ≤ l.max_seats) × IsSettled l.state l

length-insert_new :
    (k : ℕ) (s : SeatInfo) (m : List (ℕ × SeatInfo))
    → lookup k m ≡ none
    → length (insert k s m) ≡ suc (length m)
length-insert_new k s [] h = refl
length-insert_new k s ((j, t) ∷ m) h = ground (arith, length-insert_new k s m)

length-insert_old :
    (k : ℕ) (s t : SeatInfo) (m : List (ℕ × SeatInfo))
    → lookup k m ≡ some t
    → length (insert k s m) ≡ length m
length-insert_old k s t [] h = absurd (ground arith)
length-insert_old k s t ((j, u) ∷ m) h = ground (arith, length-insert_old k s t m)

everyone_ready-insert :
    (k : ℕ) (s : SeatInfo) (m : List (ℕ × SeatInfo))
    → s.is_ready ≡ true
    → everyone_ready m ≡ true
    → everyone_ready (insert k s m) ≡ true
everyone_ready-insert k s [] r h = ground arith
everyone_ready-insert k s ((j, t) ∷ m) r h = ground (arith, everyone_ready-insert k s m)

check_all_ready-IsSound : (l : Lobby) → IsSound l → IsSound (check_all_ready l)
unfolding check_all_ready
check_all_ready-IsSound l s = ground arith

handle_join-IsSound :
    (msg : JoinTable) (peer : ℕ) (timestamp : List ℕ) (now : ℕ) (l : Lobby)
    → IsSound l
    → IsSound (handle_join msg peer timestamp now l).0
unfolding handle_join
handle_join-IsSound msg peer timestamp now l s =
    ground (arith, length-insert_new peer (new_seat msg peer (join_time timestamp now)) l.seats)

-- One more player of the lobby is ready.
abbrev marked : ℕ → SeatInfo → Lobby → Lobby
marked peer seat l = record l { seats = insert peer (record seat { is_ready = true }) l.seats }

marked-IsSettled :
    (st : LobbyState) (peer : ℕ) (seat : SeatInfo) (l : Lobby)
    → lookup peer l.seats ≡ some seat
    → IsSettled st l
    → IsSettled st (marked peer seat l)
marked-IsSettled waiting peer seat l e s = tt
marked-IsSettled ready peer seat l e (full, all, told) = (
  length-insert_old peer (record seat { is_ready = true }) seat l.seats e ∙ full,
  everyone_ready-insert peer (record seat { is_ready = true }) l.seats refl all,
  told,
)
marked-IsSettled playing peer seat l e s = tt

marked-IsSound :
    (peer : ℕ) (seat : SeatInfo) (l : Lobby)
    → lookup peer l.seats ≡ some seat
    → IsSound l
    → IsSound (marked peer seat l)
marked-IsSound peer seat l e s = (
  omega (arith, length-insert_old peer (record seat { is_ready = true }) seat l.seats e, s.0),
  marked-IsSettled l.state peer seat l e s.1,
)

handle_ready-IsSound : (peer : ℕ) (l : Lobby) → IsSound l → IsSound (handle_ready peer l).0
unfolding handle_ready
handle_ready-IsSound peer l s = elim (Option-cases (lookup peer l.seats)) [
  | inl e ↦ rw (handle_ready, e) s
  | inr (seat, e) ↦
      rw (handle_ready, e)
        (check_all_ready-IsSound (marked peer seat l) (marked-IsSound peer seat l e s))
]

pub perform-IsSound : (c : Call) (l : Lobby) → IsSound l → IsSound (perform c l)
unfolding set_playing reset
perform-IsSound (join msg peer timestamp now) l s = handle_join-IsSound msg peer timestamp now l s
perform-IsSound (say_ready peer) l s = handle_ready-IsSound peer l s
perform-IsSound start_playing l s = (s.0, tt)
perform-IsSound start_over l s = (s.0, tt)

perform_all-IsSound : (cs : List Call) (l : Lobby) → IsSound l → IsSound (perform_all cs l)
perform_all-IsSound [] l s = s
perform_all-IsSound (c ∷ cs) l s = perform_all-IsSound cs (perform c l) (perform-IsSound c l s)

-- After any calls on a new lobby no more players are seated than there are seats, and in the state
-- ready all seats are taken, every player is ready and the waiters are told.
pub new_lobby-IsSound :
    (table_id max_seats : ℕ) (cs : List Call)
    → IsSound (perform_all cs (new_lobby table_id max_seats))
unfolding new_lobby
new_lobby-IsSound table_id max_seats cs =
    perform_all-IsSound cs (new_lobby table_id max_seats) (omega arith, tt)

-- After a hand that all players of a full lobby were ready for, and a reset, one player's message
-- makes the lobby ready again: reset leaves the seats and their marks.
pub one_ready_after_reset :
    (peer : ℕ) (seat : SeatInfo) (l : Lobby)
    → lookup peer l.seats ≡ some seat
    → IsSettled ready l
    → (handle_ready peer (reset l)).0.state ≡ ready
unfolding handle_ready check_all_ready reset
one_ready_after_reset peer seat l e s =
    let (full, all, told) = marked-IsSettled ready peer seat l e s in
    rw (handle_ready, e) (ground (arith, full, all))
