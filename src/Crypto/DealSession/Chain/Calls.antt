-- ===== src/Crypto/DealSession/Chain/Calls.antt =====
-- What holds of a deal session after any calls.
use decentralized_poker_engi.Common.{
  ℕ, zero, suc, ◌≡◌, ◌≢◌, refl, sym, ap, ◌∙◌, arith, Bool-cases, true, false, inl, inr,
  Option-cases, some, List, [], ◌∷◌, get_elem?, get_or, ◌==◌, ==_iff, ltb,
}
use decentralized_poker_engi.Common.Maps.{lookup, insert, Entries-insert}
use decentralized_poker_engi.Crypto.Deal.{peel}
use decentralized_poker_engi.Crypto.Keyring.{Keyring, seats, seat_index}
use decentralized_poker_engi.Crypto.Keyring.Seats.{AllDiffer}
use decentralized_poker_engi.Crypto.Sra.{SraKey}
use decentralized_poker_engi.Crypto.DealSession.{
  DealSession, PeelMessage, seq_holes, seq_street, seq_reveal, expected_peeler,
  peel_message_from_pd, make_deal_session, street_none,
}
use decentralized_poker_engi.Crypto.DealSession.Jobs.{
  hole_jobs, both_rounds, street_jobs, reveal_jobs,
}
use decentralized_poker_engi.Crypto.DealSession.Peels.{
  peeler_index, apply_incoming, after_apply, local_step,
}
use decentralized_poker_engi.Crypto.DealSession.Calls.{
  Call, holes, street, reveal, receive, behalf, perform, begin_holes, begin_street, begin_reveal,
  peel_on_behalf, handle_at, handle_peel,
}
use decentralized_poker_engi.Crypto.DealSession.Chain.{
  IsChain, IsSound, apply_incoming-IsSound, turn-peeler_index,
}
use decentralized_poker_engi.Crypto.DealSession.Chain.Steps.{
  peel-player, send_then-IsSound, applied-IsSound, start_sequence-IsSound,
}

get_or-get_elem? : (xs : List ℕ) (i a : ℕ) → a ≢ 0 → get_or xs i 0 ≡ a → get_elem? xs i ≡ some a
get_or-get_elem? [] i a n h = absurd (ground arith)
get_or-get_elem? (x ∷ xs) zero a n h = ap some h
get_or-get_elem? (x ∷ xs) (suc i) a n h = get_or-get_elem? xs i a n h

expected_at :
    (s : DealSession) (id : ℕ)
    → id ≢ 0
    → (expected_peeler s == id) ≡ true
    → get_elem? s.peelers s.next_peel ≡ some id
unfolding expected_peeler
expected_at s id n h = get_or-get_elem? s.peelers s.next_peel id n (ground arith)

module _ (sha256 : List ℕ → List ℕ) where
  -- A message that waits, from now on.
  kept :
      (seat : ℕ) (msg : PeelMessage) (s : DealSession)
      → peeler_index s.peelers msg.player_id ≡ some seat
      → IsSound sha256 s
      → IsSound sha256 (record s { pending = insert seat msg s.pending })
  kept seat msg s at sound = record {
    order_differ = sound.order_differ;
    peelers_differ = sound.peelers_differ;
    waiting =
        Entries-insert (λ i m. peeler_index s.peelers m.player_id ≡ some i) seat msg s.pending at
          sound.waiting;
    card = sound.card;
    is_card = sound.is_card;
    leads_to = sound.leads_to;
  }

  module _ (draw : ℕ → ℕ) where
    begin_holes-IsSound :
        (s : DealSession) → IsSound sha256 s → IsSound sha256 (begin_holes sha256 draw s).0
    unfolding begin_holes
    begin_holes-IsSound s sound =
        let jobs = both_rounds (hole_jobs s 0 (seats s.kr) 0) (hole_jobs s 1 (seats s.kr) 0) in
        elim (Option-cases jobs) [
          | inl e ↦ ground (arith, e, sound)
          | inr (js, e) ↦ ground (
            arith,
            e,
            sound,
            start_sequence-IsSound sha256 draw seq_holes js street_none 0
                (record s { holes_started = true }) sound,
          )
        ]

    begin_street-IsSound :
        (n : ℕ) (s : DealSession)
        → IsSound sha256 s
        → IsSound sha256 (begin_street sha256 draw n s).0
    unfolding begin_street
    begin_street-IsSound n s sound = elim (Option-cases (street_jobs (seats s.kr) n)) [
      | inl e ↦ ground (arith, e, sound)
      | inr (js, e) ↦ ground (
        arith,
        e,
        sound,
        start_sequence-IsSound sha256 draw seq_street js n 0 (record s { street_done = false })
            sound,
      )
    ]

    begin_reveal-IsSound :
        (id : ℕ) (s : DealSession)
        → IsSound sha256 s
        → IsSound sha256 (begin_reveal sha256 draw id s).0
    unfolding begin_reveal
    begin_reveal-IsSound id s sound = elim (Option-cases (seat_index id s.kr)) [
      | inl e ↦ ground (arith, e, sound)
      | inr (i, e) ↦ elim (Option-cases (reveal_jobs s i)) [
        | inl f ↦ ground (arith, e, f, sound)
        | inr (js, f) ↦ ground (
          arith,
          e,
          f,
          sound,
          start_sequence-IsSound sha256 draw seq_reveal js street_none id
              (record s { reveal_done = false }) sound,
        )
      ]
    ]

    -- The expected peeler's message, once it is made.
    peel_on_behalf-IsSound :
        (id : ℕ) (key : SraKey) (r : ℕ) (s : DealSession)
        → IsSound sha256 s
        → IsSound sha256 (peel_on_behalf sha256 draw id key r s).0
    unfolding peel_on_behalf
    peel_on_behalf-IsSound id key r s sound = elim (Bool-cases (id == 0)) [
      | inl e ↦ ground (arith, e, sound)
      | inr e ↦ elim (Bool-cases (expected_peeler s == id)) [
        | inr f ↦ ground (arith, e, f, sound)
        | inl f ↦ elim (Option-cases (peel sha256 key s.current s.card_index id s.session_id r)) [
          | inl g ↦ ground (arith, e, f, g, sound)
          | inr (pd, g) ↦
              let msg = peel_message_from_pd s.hand_num pd in
              let next = apply_incoming sha256 msg s in
              let whose =
                peel-player sha256 key s.current s.card_index id s.session_id r s.hand_num pd g in
              let at = expected_at s id (ground (arith, e)) f ∙ ap some (sym whose) in
              let sound' =
                apply_incoming-IsSound sha256 msg s
                  (turn-peeler_index s.peelers s.next_peel msg.player_id sound.peelers_differ at)
                  sound in
              let sent =
                send_then-IsSound sha256 msg (after_apply sha256 (local_step sha256 draw) next.0)
                  (applied-IsSound sha256 draw next.0 sound') in
              ground (arith, e, f, g, sound, sound', sent)
        ]
      ]
    ]

    handle_at-IsSound :
        (seat : ℕ) (msg : PeelMessage) (s : DealSession)
        → peeler_index s.peelers msg.player_id ≡ some seat
        → IsSound sha256 s
        → IsSound sha256 (handle_at sha256 draw seat msg s).0
    unfolding handle_at
    handle_at-IsSound seat msg s at sound = elim (Bool-cases (ltb seat s.next_peel)) [
      | inl e ↦ elim (Option-cases (lookup seat s.applied)) [
        | inl f ↦ rw (e, f, handle_at) sound
        | inr (prev, f) ↦ rw (e, f, handle_at) sound
      ]
      | inr e ↦ elim (Bool-cases (seat == s.next_peel)) [
        | inl f ↦
            let next = apply_incoming sha256 msg s in
            let here : peeler_index s.peelers msg.player_id ≡ some s.next_peel =
              at ∙ ap some ((==_iff seat s.next_peel).0 f) in
            let sound' = apply_incoming-IsSound sha256 msg s here sound in
            ground (arith, e, f, sound, sound', applied-IsSound sha256 draw next.0 sound')
        | inr f ↦ elim (Bool-cases (msg.player_id == s.kr.local_id)) [
          | inl g ↦ rw (e, f, g, handle_at) sound
          | inr g ↦ elim (Option-cases (lookup seat s.pending)) [
            | inr (prev, h) ↦ rw (e, f, g, h, handle_at) sound
            | inl h ↦ rw (e, f, g, h, handle_at) (kept seat msg s at sound)
          ]
        ]
      ]
    ]

    handle_peel-IsSound :
        (msg : PeelMessage) (s : DealSession)
        → IsSound sha256 s
        → IsSound sha256 (handle_peel sha256 draw msg s).0
    unfolding handle_peel
    handle_peel-IsSound msg s sound = elim (Option-cases (peeler_index s.peelers msg.player_id)) [
      | inl e ↦ ground (arith, e, sound)
      | inr (seat, e) ↦ ground (arith, e, sound, handle_at-IsSound seat msg s e sound)
    ]

  pub perform-IsSound :
      (c : Call) (s : DealSession) → IsSound sha256 s → IsSound sha256 (perform sha256 c s).0
  perform-IsSound (holes draw) s sound = begin_holes-IsSound draw s sound
  perform-IsSound (street n draw) s sound = begin_street-IsSound draw n s sound
  perform-IsSound (reveal id draw) s sound = begin_reveal-IsSound draw id s sound
  perform-IsSound (receive msg draw) s sound = handle_peel-IsSound draw msg s sound
  perform-IsSound (behalf id key r draw) s sound = peel_on_behalf-IsSound draw id key r s sound

  abbrev pub perform_all : List Call → DealSession → DealSession
  perform_all [] s = s
  perform_all (c ∷ cs) s = perform_all cs (perform sha256 c s).0

  perform_all-IsSound :
      (cs : List Call) (s : DealSession) → IsSound sha256 s → IsSound sha256 (perform_all cs s)
  perform_all-IsSound [] s sound = sound
  perform_all-IsSound (c ∷ cs) s sound =
      perform_all-IsSound cs (perform sha256 c s).0 (perform-IsSound c s sound)

  pub made-IsSound :
      (kr : Keyring) (cards session_id : List ℕ) (p hand dealer_idx : ℕ) (s : DealSession)
      → AllDiffer kr.order
      → make_deal_session kr cards session_id p hand dealer_idx ≡ some s
      → IsSound sha256 s
  unfolding make_deal_session
  made-IsSound kr cards session_id p hand dealer_idx s differ made =
      let empty : IsChain sha256 kr.order cards p session_id 0 [] 0 0 [] [] = record {
        order_differ = differ;
        peelers_differ = tt;
        waiting = tt;
        card = 0;
        is_card = tt;
        leads_to = refl;
      } in
      ground (arith, empty)

  -- Whatever calls are made, in whatever order, and whether they are refused or not: the peels that a
  -- session has applied to the card at its index are one of each of the first peelers, in their order;
  -- each is verified, and is of the value that the one before it gave, the first of the card in the
  -- deck; and the session's value is what the last one gave. A message that is kept is from the peeler
  -- at its place.
  pub make_deal_session-IsSound :
      (kr : Keyring) (cards session_id : List ℕ) (p hand dealer_idx : ℕ) (s : DealSession)
      (cs : List Call)
      → AllDiffer kr.order
      → make_deal_session kr cards session_id p hand dealer_idx ≡ some s
      → IsSound sha256 (perform_all cs s)
  make_deal_session-IsSound kr cards session_id p hand dealer_idx s cs differ made =
      perform_all-IsSound cs s (made-IsSound kr cards session_id p hand dealer_idx s differ made)
