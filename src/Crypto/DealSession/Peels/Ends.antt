-- ===== src/Crypto/DealSession/Peels/Ends.antt =====
-- The calls of a session end: the local steps that follow one another are fewer than their fuel.
use decentralized_poker_engi.Common.{
  ℕ, zero, suc, ◌<◌, ◌≡◌, refl, arith, Bool, Bool-cases, true, false, inl, inr, Option-cases, List,
  [], ◌∷◌, length, get_elem?,
}
use decentralized_poker_engi.Crypto.Deal.{peel}
use decentralized_poker_engi.Crypto.Keyring.{seats, seat_index}
use decentralized_poker_engi.Crypto.Sra.{SraKey}
use decentralized_poker_engi.Crypto.DealSession.{
  DealSession, PeelMessage, PeelJob, SeqKind, seq_holes, seq_street, seq_reveal, street_none,
  job_complete, peel_message_from_pd,
}
use decentralized_poker_engi.Crypto.DealSession.Jobs.{
  install_job, hole_jobs, both_rounds, street_jobs, reveal_jobs,
}
use decentralized_poker_engi.Crypto.DealSession.Peels.{
  Reply, refused, silent, out_of_fuel, send, peeler_index, is_local_turn, finish_job, send_then,
  steps_left, apply_incoming, drain_pending, start_current_job, advance_sequence, after_drain,
  after_apply, execute_local, local_step,
}
use decentralized_poker_engi.Crypto.DealSession.Calls.{
  Call, holes, street, reveal, receive, behalf, perform, start_sequence, begin_holes, begin_street,
  begin_reveal, peel_on_behalf, handle_at, handle_peel,
}
use decentralized_poker_engi.Crypto.DealSession.Peels.Steps.{
  IsAfter-steps_left, keeps, installed, drain_pending-IsAfter, one_fewer,
}

abbrev pub is_in_time : Reply → Bool
is_in_time refused = true
is_in_time silent = true
is_in_time out_of_fuel = false
is_in_time (send msg) = true

module _ (sha256 : List ℕ → List ℕ) where
  -- The local steps that `run` makes of a session with fewer than `k` left end.
  abbrev RunsBelow : ℕ → (DealSession → DealSession × Reply) → Type 0
  RunsBelow k run = (t : DealSession) → steps_left t < k → is_in_time (run t).1 ≡ true

  module _ (k : ℕ) (run : DealSession → DealSession × Reply) (runs : RunsBelow k run) where
    start_current_job_in_time :
        (s : DealSession) → steps_left s < k → is_in_time (start_current_job sha256 run s).1 ≡ true
    unfolding start_current_job
    start_current_job_in_time s h = ground (arith, runs s)

    advance_sequence_in_time :
        (s : DealSession) → steps_left s < k → is_in_time (advance_sequence sha256 run s).1 ≡ true
    unfolding advance_sequence
    advance_sequence_in_time s h =
        let next = record s { seq_job_idx = suc s.seq_job_idx } in
        elim (Option-cases (get_elem? s.seq_jobs (suc s.seq_job_idx))) [
          | inl e ↦ rw (e, advance_sequence) refl
          | inr (j, e) ↦ elim (Option-cases (install_job j next)) [
            | inl f ↦ rw (e, f, advance_sequence) refl
            | inr (t, f) ↦
                rw (e, f, advance_sequence)
                  (start_current_job_in_time t (let fewer = installed s t j e f in omega arith))
          ]
        ]

    after_drain_in_time :
        (s : DealSession) → steps_left s < k → is_in_time (after_drain sha256 run s).1 ≡ true
    unfolding after_drain
    after_drain_in_time s h = elim (Bool-cases (job_complete s)) [
      | inr e ↦ ground (arith, e, runs s)
      | inl e ↦ elim (Option-cases (finish_job s)) [
        | inl f ↦ rw (e, f, after_drain) refl
        | inr (t, f) ↦
            let fewer = IsAfter-steps_left s t (keeps s t f) in
            rw (e, f, after_drain) (advance_sequence_in_time t (omega arith))
      ]
    ]

    after_apply_in_time :
        (s : DealSession) → steps_left s < k → is_in_time (after_apply sha256 run s).1 ≡ true
    unfolding after_apply
    after_apply_in_time s h =
        let drained = drain_pending sha256 (suc (length s.peelers)) s in
        let fewer =
          IsAfter-steps_left s drained.0
            (drain_pending-IsAfter sha256 (suc (length s.peelers)) s) in
        elim (Bool-cases drained.1) [
          | inl e ↦ rw (e, after_apply) (after_drain_in_time drained.0 (omega arith))
          | inr e ↦ rw (e, after_apply) refl
        ]

  send_then_in_time :
      (msg : PeelMessage) (r : DealSession × Reply)
      → is_in_time r.1 ≡ true
      → is_in_time (send_then msg r).1 ≡ true
  send_then_in_time msg (s, refused) h = refl
  send_then_in_time msg (s, silent) h = refl
  send_then_in_time msg (s, out_of_fuel) h = h
  send_then_in_time msg (s, send extra) h = refl

  module _ (draw : ℕ → ℕ) where
    execute_local_in_time :
        (fuel : ℕ) (s : DealSession)
        → steps_left s < fuel
        → is_in_time (execute_local sha256 draw fuel s).1 ≡ true
    unfolding execute_local
    execute_local_in_time zero s h = absurd (omega arith)
    execute_local_in_time (suc fuel) s h = elim (Bool-cases (is_local_turn s)) [
      | inr e ↦ rw (e, execute_local) refl
      | inl e ↦
          elim (Option-cases (
            peel sha256 s.kr.local s.current s.card_index s.kr.local_id s.session_id
              (draw s.card_index))) [
                | inl f ↦ rw (e, f, execute_local) refl
                | inr (pd, f) ↦
                    let msg = peel_message_from_pd s.hand_num pd in
                    let next = apply_incoming sha256 msg s in
                    elim (Bool-cases next.1) [
                      | inr g ↦ rw (e, f, g, execute_local) refl
                      | inl g ↦
                          rw (e, f, g, execute_local)
                            (send_then_in_time msg
                              (after_apply sha256 (execute_local sha256 draw fuel) next.0)
                              (after_apply_in_time fuel (execute_local sha256 draw fuel)
                                (execute_local_in_time fuel) next.0
                                (let fewer = one_fewer sha256 msg s e g in omega arith)))
                    ]
              ]
    ]

    local_step_in_time : (s : DealSession) → is_in_time (local_step sha256 draw s).1 ≡ true
    local_step_in_time s = execute_local_in_time (suc (steps_left s)) s (omega arith)

    -- With any bound, all local steps end.
    local_steps : (k : ℕ) → RunsBelow k (local_step sha256 draw)
    local_steps k t h = local_step_in_time t

    start_sequence_in_time :
        (kind : SeqKind) (jobs : List PeelJob) (n id : ℕ) (s : DealSession)
        → is_in_time (start_sequence sha256 draw kind jobs n id s).1 ≡ true
    unfolding start_sequence
    start_sequence_in_time kind [] n id s = refl
    start_sequence_in_time kind (j ∷ jobs) n id s =
        let begun = record s {
          seq = kind;
          seq_jobs = j ∷ jobs;
          seq_job_idx = 0;
          street = n;
          reveal_id = id;
        } in
        elim (Option-cases (install_job j begun)) [
          | inl e ↦ rw (e, start_sequence) refl
          | inr (t, e) ↦
              rw (e, start_sequence)
                (start_current_job_in_time (suc (steps_left t)) (local_step sha256 draw)
                  (local_steps (suc (steps_left t))) t (omega arith))
        ]

    applied_in_time :
        (s : DealSession) → is_in_time (after_apply sha256 (local_step sha256 draw) s).1 ≡ true
    applied_in_time s =
        after_apply_in_time (suc (steps_left s)) (local_step sha256 draw)
          (local_steps (suc (steps_left s))) s (omega arith)

    handle_at_in_time :
        (seat : ℕ) (msg : PeelMessage) (s : DealSession)
        → is_in_time (handle_at sha256 draw seat msg s).1 ≡ true
    unfolding handle_at
    handle_at_in_time seat msg s =
        let next = apply_incoming sha256 msg s in ground (arith, applied_in_time next.0)

    begin_holes_in_time : (s : DealSession) → is_in_time (begin_holes sha256 draw s).1 ≡ true
    unfolding begin_holes
    begin_holes_in_time s =
        let jobs = both_rounds (hole_jobs s 0 (seats s.kr) 0) (hole_jobs s 1 (seats s.kr) 0) in
        elim (Option-cases jobs) [
          | inl e ↦ ground (arith, e)
          | inr (js, e) ↦ ground (
            arith,
            e,
            start_sequence_in_time seq_holes js street_none 0 (record s { holes_started = true }),
          )
        ]

    begin_street_in_time :
        (n : ℕ) (s : DealSession) → is_in_time (begin_street sha256 draw n s).1 ≡ true
    unfolding begin_street
    begin_street_in_time n s = elim (Option-cases (street_jobs (seats s.kr) n)) [
      | inl e ↦ ground (arith, e)
      | inr (js, e) ↦
          ground
            (arith, e, start_sequence_in_time seq_street js n 0 (record s { street_done = false }))
    ]

    begin_reveal_in_time :
        (id : ℕ) (s : DealSession) → is_in_time (begin_reveal sha256 draw id s).1 ≡ true
    unfolding begin_reveal
    begin_reveal_in_time id s = elim (Option-cases (seat_index id s.kr)) [
      | inl e ↦ ground (arith, e)
      | inr (i, e) ↦ elim (Option-cases (reveal_jobs s i)) [
        | inl f ↦ ground (arith, e, f)
        | inr (js, f) ↦ ground (
          arith,
          e,
          f,
          start_sequence_in_time seq_reveal js street_none id (record s { reveal_done = false }),
        )
      ]
    ]

    peel_on_behalf_in_time :
        (id : ℕ) (key : SraKey) (r : ℕ) (s : DealSession)
        → is_in_time (peel_on_behalf sha256 draw id key r s).1 ≡ true
    unfolding peel_on_behalf
    peel_on_behalf_in_time id key r s =
        elim (Option-cases (peel sha256 key s.current s.card_index id s.session_id r)) [
          | inl e ↦ ground (arith, e)
          | inr (pd, e) ↦
              let msg = peel_message_from_pd s.hand_num pd in
              let next = apply_incoming sha256 msg s in
              let sent =
                send_then_in_time msg (after_apply sha256 (local_step sha256 draw) next.0)
                  (applied_in_time next.0) in
              ground (arith, e, sent)
        ]

    handle_peel_in_time :
        (msg : PeelMessage) (s : DealSession) → is_in_time (handle_peel sha256 draw msg s).1 ≡ true
    unfolding handle_peel
    handle_peel_in_time msg s = elim (Option-cases (peeler_index s.peelers msg.player_id)) [
      | inl e ↦ ground (arith, e)
      | inr (seat, e) ↦ ground (arith, e, handle_at_in_time seat msg s)
    ]

  -- Every call of any session ends: the local steps that follow one another in it, each of which may
  -- end a job and start the next, are fewer than its fuel.
  pub perform_in_time : (c : Call) (s : DealSession) → is_in_time (perform sha256 c s).1 ≡ true
  perform_in_time (holes draw) s = begin_holes_in_time draw s
  perform_in_time (street n draw) s = begin_street_in_time draw n s
  perform_in_time (reveal id draw) s = begin_reveal_in_time draw id s
  perform_in_time (receive msg draw) s = handle_peel_in_time draw msg s
  perform_in_time (behalf id key r draw) s = peel_on_behalf_in_time draw id key r s
