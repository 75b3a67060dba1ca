-- ===== src/Crypto/ShuffleSession/Runs.antt =====
-- What holds of a session after any messages, and that its loop ends.
use decentralized_poker_engi.Common.{
  ℕ, zero, suc, ◌+◌, ◌<◌, ◌≡◌, ◌≢◌, ◌⊎◌, refl, ap, sym, subst, ◌∙◌, arith, Bool-cases, true, false,
  inl, inr, Option-cases, none, some, List, [], ◌∷◌, get_elem?, ◌==◌, ==_iff, ltb,
}
use decentralized_poker_engi.Common.Maps.{lookup, delete, Entries-insert}
use decentralized_poker_engi.Crypto.Keyring.{Keyring, seats, seat_index}
use decentralized_poker_engi.Crypto.Keyring.Seats.{seat_index-get_elem?}
use decentralized_poker_engi.Crypto.ShuffleSession.{
  ShuffleSession, ShuffleMessage, done, is_local_turn, verify_and_adopt, drain_pending, start,
  validate_incoming, handle_at, handle_message, new_session,
}
use decentralized_poker_engi.Crypto.ShuffleSession.Order.{
  IsSound, IsCurrent, verify_and_adopt-IsSound, after_apply-IsSound, execute_local-IsSound,
}

-- A call of the session with the random choices of its local step.
pub data Call : Type 0 where
  begin : List (ℕ × ℕ) → List ℕ → Call
  receive : List (ℕ × ℕ) → List ℕ → ShuffleMessage → Call

module _ (sha256 : List ℕ → List ℕ) where
  abbrev pub perform : Call → ShuffleSession → ShuffleSession
  perform (begin swaps nonce) s = (start sha256 swaps nonce s).0
  perform (receive swaps nonce msg) s = (handle_message sha256 swaps nonce msg s).0

  abbrev pub perform_all : List Call → ShuffleSession → ShuffleSession
  perform_all [] s = s
  perform_all (c ∷ cs) s = perform_all cs (perform c s)

  start-IsSound :
      (swaps : List (ℕ × ℕ)) (nonce : List ℕ) (s : ShuffleSession)
      → IsSound sha256 s
      → IsSound sha256 (start sha256 swaps nonce s).0
  unfolding start
  start-IsSound swaps nonce s sound = elim (Bool-cases s.started) [
    | inl e ↦ ground (arith, e, sound)
    | inr e ↦ elim (Bool-cases (s.next_index == 0)) [
      | inr f ↦ ground (arith, e, f, sound)
      | inl f ↦
          let s' = record s { started = true; current = s.initial } in
          let sound' : IsSound sha256 s' = record {
            named = sound.named;
            applied_to = sound.applied_to;
            waiting = sound.waiting;
            current_is =
                subst (λ (t : ℕ). IsCurrent sha256 t true s.initial s.initial s.applied)
                  (sym ((==_iff s.next_index 0).0 f)) refl;
          } in
          ground (arith, e, f, sound', execute_local-IsSound sha256 swaps nonce s' sound')
    ]
  ]

  handle_at-IsSound :
      (seat : ℕ) (swaps : List (ℕ × ℕ)) (nonce : List ℕ) (msg : ShuffleMessage) (s : ShuffleSession)
      → get_elem? s.kr.order seat ≡ some msg.player_id
      → IsSound sha256 s
      → IsSound sha256 (handle_at sha256 seat swaps nonce msg s).0
  unfolding handle_at
  handle_at-IsSound seat swaps nonce msg s at sound = elim (Bool-cases (ltb seat s.next_index)) [
    | inl e ↦ elim (Option-cases (lookup seat s.applied)) [
      | inl f ↦ rw (e, f, handle_at) sound
      | inr (prev, f) ↦ rw (e, f, handle_at) sound
    ]
    | inr e ↦ elim (Bool-cases (seat == s.next_index)) [
      | inl f ↦
          let next = verify_and_adopt sha256 msg s in
          let here = ap (get_elem? s.kr.order) (let g : s.next_index ≡ seat = ground arith in g) in
          let sound' = verify_and_adopt-IsSound sha256 msg s (here ∙ at) sound in
          ground (arith, e, f, sound', after_apply-IsSound sha256 swaps nonce next.0 sound')
      | inr f ↦ elim (Bool-cases (msg.player_id == s.kr.local_id)) [
        | inl g ↦ rw (e, f, g, handle_at) sound
        | inr g ↦ elim (Option-cases (lookup seat s.pending)) [
          | inr (prev, h) ↦ rw (e, f, g, h, handle_at) sound
          | inl h ↦
              rw (e, f, g, h, handle_at)
                (record {
                  named = sound.named;
                  applied_to = sound.applied_to;
                  waiting =
                      Entries-insert (λ i m. get_elem? s.kr.order i ≡ some m.player_id) seat msg
                        s.pending at sound.waiting;
                  current_is = sound.current_is;
                })
        ]
      ]
    ]
  ]

  handle_message-IsSound :
      (swaps : List (ℕ × ℕ)) (nonce : List ℕ) (msg : ShuffleMessage) (s : ShuffleSession)
      → IsSound sha256 s
      → IsSound sha256 (handle_message sha256 swaps nonce msg s).0
  unfolding handle_message
  handle_message-IsSound swaps nonce msg s sound = elim (Bool-cases s.started) [
    | inr e ↦ ground (arith, e, sound)
    | inl e ↦ elim (Bool-cases (validate_incoming msg s)) [
      | inr f ↦ ground (arith, e, f, sound)
      | inl f ↦ elim (Option-cases (seat_index msg.player_id s.kr)) [
        | inl g ↦ ground (arith, e, f, g, sound)
        | inr (seat, g) ↦
            let sound' =
              handle_at-IsSound seat swaps nonce msg s
                (seat_index-get_elem? msg.player_id seat s.kr g) sound in
            ground (arith, e, f, g, sound')
      ]
    ]
  ]

  perform-IsSound :
      (c : Call) (s : ShuffleSession) → IsSound sha256 s → IsSound sha256 (perform c s)
  perform-IsSound (begin swaps nonce) s sound = start-IsSound swaps nonce s sound
  perform-IsSound (receive swaps nonce msg) s sound = handle_message-IsSound swaps nonce msg s sound

  perform_all-IsSound :
      (cs : List Call) (s : ShuffleSession) → IsSound sha256 s → IsSound sha256 (perform_all cs s)
  perform_all-IsSound [] s sound = sound
  perform_all-IsSound (c ∷ cs) s sound =
      perform_all-IsSound cs (perform c s) (perform-IsSound c s sound)

  fresh :
      (kr : Keyring) (session_id : List ℕ) (hand : ℕ) (initial : List ℕ) (s : ShuffleSession)
      → kr.local_id ≢ 0
      → new_session kr session_id hand initial ≡ some s
      → IsSound sha256 s
  unfolding new_session
  fresh kr session_id hand initial s named made = ground arith

  -- Whatever messages arrive, in whatever order, and whether they are answered, kept or refused: each
  -- seat before the next has one adopted message, which is from the player of that seat and has a
  -- commitment that holds; the deck is that of the last; and a message that is kept is from the player
  -- of its seat.
  pub new_session-IsSound :
      (kr : Keyring) (session_id : List ℕ) (hand : ℕ) (initial : List ℕ) (s : ShuffleSession)
      (cs : List Call)
      → kr.local_id ≢ 0
      → new_session kr session_id hand initial ≡ some s
      → IsSound sha256 (perform_all cs s)
  new_session-IsSound kr session_id hand initial s cs named made =
      perform_all-IsSound cs s (fresh kr session_id hand initial s named made)

  -- Why the loop over the messages that are kept ends.
  abbrev pub IsStopped : ShuffleSession → Type 0
  IsStopped s = (done s ≡ true) ⊎ (is_local_turn s ≡ true) ⊎ (lookup s.next_index s.pending ≡ none)

  verify_and_adopt_grows :
      (msg : ShuffleMessage) (s : ShuffleSession)
      → (verify_and_adopt sha256 msg s).1 ≡ true
      → ((verify_and_adopt sha256 msg s).0.next_index ≡ suc s.next_index)
        × (seats (verify_and_adopt sha256 msg s).0.kr ≡ seats s.kr)
  unfolding verify_and_adopt
  verify_and_adopt_grows msg s h = ground arith

  -- With a round for each seat and one more, the loop ends by its own tests: by an error, or since all
  -- seats are done, the next is the local one, or its message is not there.
  pub drain_pending_stops :
      (fuel : ℕ) (s : ShuffleSession)
      → seats s.kr < s.next_index + fuel
      → ((drain_pending sha256 fuel s).1 ≡ false) ⊎ IsStopped (drain_pending sha256 fuel s).0
  unfolding drain_pending done
  drain_pending_stops zero s h = inr (inl (ground arith))
  drain_pending_stops (suc fuel) s h = elim (Bool-cases (done s)) [
    | inl e ↦ rw (e, drain_pending) (inr (inl e))
    | inr e ↦ elim (Bool-cases (is_local_turn s)) [
      | inl f ↦ rw (e, f, drain_pending) (inr (inr (inl f)))
      | inr f ↦ elim (Option-cases (lookup s.next_index s.pending)) [
        | inl g ↦ rw (e, f, g, drain_pending) (inr (inr (inr g)))
        | inr (msg, g) ↦
            let waits = record s { pending = delete s.next_index s.pending } in
            let next = verify_and_adopt sha256 msg waits in
            elim (Bool-cases next.1) [
              | inr v ↦ rw (e, f, g, v, drain_pending) (inl refl)
              | inl v ↦
                  rw (e, f, g, v, drain_pending)
                    (drain_pending_stops fuel next.0
                      (omega (arith, verify_and_adopt_grows msg waits v)))
            ]
      ]
    ]
  ]
