-- ===== src/Crypto/DealSession/Chain/Steps.antt =====
-- What holds of a deal session after each of its internal steps.
use decentralized_poker_engi.Common.{
  ℕ, zero, suc, ◌≡◌, sym, ap, ◌∙◌, arith, Bool-cases, inl, inr, Option-cases, some, List, [], ◌∷◌,
  get_elem?, length,
}
use decentralized_poker_engi.Crypto.Deal.{peel}
use decentralized_poker_engi.Crypto.Sra.{SraKey}
use decentralized_poker_engi.Crypto.Zkp.{PartialDecryption}
use decentralized_poker_engi.Crypto.DealSession.{
  DealSession, PeelMessage, PeelJob, SeqKind, job_complete, peel_message_from_pd,
}
use decentralized_poker_engi.Crypto.DealSession.Jobs.{install_job}
use decentralized_poker_engi.Crypto.DealSession.Peels.{
  Reply, refused, silent, out_of_fuel, send, is_local_turn, keep_public, keep_hole, finish_job,
  send_then, steps_left, apply_incoming, drain_pending, start_current_job, advance_sequence,
  after_drain, after_apply, end_sequence, execute_local, local_step,
}
use decentralized_poker_engi.Crypto.DealSession.Calls.{start_sequence}
use decentralized_poker_engi.Crypto.DealSession.Chain.{
  IsSound, apply_incoming-IsSound, drain_pending-IsSound, install_job-IsSound, turn-peeler_index,
  get_elem?_turn,
}

module _ (sha256 : List ℕ → List ℕ) where
  finish_job-IsSound :
      (s t : DealSession) → finish_job s ≡ some t → IsSound sha256 s → IsSound sha256 t
  unfolding finish_job keep_public keep_hole
  finish_job-IsSound s t h sound = ground (arith, sound)

  end_sequence-IsSound : (s : DealSession) → IsSound sha256 s → IsSound sha256 (end_sequence s)
  unfolding end_sequence
  end_sequence-IsSound s sound = ground (arith, sound)

  abbrev KeepsSound : (DealSession → DealSession × Reply) → Type 0
  KeepsSound run = (t : DealSession) → IsSound sha256 t → IsSound sha256 (run t).0

  module _ (run : DealSession → DealSession × Reply) (keeps : KeepsSound run) where
    start_current_job-IsSound : KeepsSound (start_current_job sha256 run)
    unfolding start_current_job
    start_current_job-IsSound s sound = ground (arith, sound, keeps s sound)

    advance_sequence-IsSound : KeepsSound (advance_sequence sha256 run)
    unfolding advance_sequence
    advance_sequence-IsSound s sound =
        let next = record s { seq_job_idx = suc s.seq_job_idx } in
        elim (Option-cases (get_elem? s.seq_jobs (suc s.seq_job_idx))) [
          | inl e ↦ rw (e, advance_sequence) (end_sequence-IsSound next sound)
          | inr (j, e) ↦ elim (Option-cases (install_job j next)) [
            | inl f ↦ rw (e, f, advance_sequence) sound
            | inr (t, f) ↦
                rw (e, f, advance_sequence)
                  (start_current_job-IsSound t (install_job-IsSound sha256 j next t f sound))
          ]
        ]

    after_drain-IsSound : KeepsSound (after_drain sha256 run)
    unfolding after_drain
    after_drain-IsSound s sound = elim (Bool-cases (job_complete s)) [
      | inr e ↦ ground (arith, e, sound, keeps s sound)
      | inl e ↦ elim (Option-cases (finish_job s)) [
        | inl f ↦ rw (e, f, after_drain) sound
        | inr (t, f) ↦
            rw (e, f, after_drain) (advance_sequence-IsSound t (finish_job-IsSound s t f sound))
      ]
    ]

    after_apply-IsSound : KeepsSound (after_apply sha256 run)
    unfolding after_apply
    after_apply-IsSound s sound =
        let drained = drain_pending sha256 (suc (length s.peelers)) s in
        let sound' = drain_pending-IsSound sha256 (suc (length s.peelers)) s sound in
        elim (Bool-cases drained.1) [
          | inl e ↦ rw (e, after_apply) (after_drain-IsSound drained.0 sound')
          | inr e ↦ rw (e, after_apply) sound'
        ]

  pub send_then-IsSound :
      (msg : PeelMessage) (r : DealSession × Reply)
      → IsSound sha256 r.0
      → IsSound sha256 (send_then msg r).0
  send_then-IsSound msg (s, refused) sound = sound
  send_then-IsSound msg (s, silent) sound = sound
  send_then-IsSound msg (s, out_of_fuel) sound = sound
  send_then-IsSound msg (s, send extra) sound = sound

  -- The message that is made of a peel is the player's who made it.
  pub peel-player :
      (key : SraKey) (c i id : ℕ) (sid : List ℕ) (r hand : ℕ) (pd : PartialDecryption)
      → peel sha256 key c i id sid r ≡ some pd
      → (peel_message_from_pd hand pd).player_id ≡ id
  unfolding peel peel_message_from_pd
  peel-player key c i id sid r hand pd h = ground arith

  module _ (draw : ℕ → ℕ) where
    execute_local-IsSound : (fuel : ℕ) → KeepsSound (execute_local sha256 draw fuel)
    unfolding execute_local is_local_turn
    execute_local-IsSound zero s sound = sound
    execute_local-IsSound (suc fuel) s sound = elim (Bool-cases (is_local_turn s)) [
      | inr e ↦ rw (e, execute_local) sound
      | inl e ↦
          elim (Option-cases (
            peel sha256 s.kr.local s.current s.card_index s.kr.local_id s.session_id
              (draw s.card_index))) [
                | inl f ↦ rw (e, f, execute_local) sound
                | inr (pd, f) ↦
                    let msg = peel_message_from_pd s.hand_num pd in
                    let next = apply_incoming sha256 msg s in
                    let whose =
                      peel-player s.kr.local s.current s.card_index s.kr.local_id s.session_id
                        (draw s.card_index) s.hand_num pd f in
                    let at =
                      get_elem?_turn s.peelers s.next_peel s.kr.local_id e ∙ ap some (sym whose) in
                    let sound' =
                      apply_incoming-IsSound sha256 msg s
                        (turn-peeler_index s.peelers s.next_peel msg.player_id sound.peelers_differ
                          at)
                        sound in
                    let run = execute_local sha256 draw fuel in
                    elim (Bool-cases next.1) [
                      | inr g ↦ rw (e, f, g, execute_local) sound'
                      | inl g ↦
                          rw (e, f, g, execute_local)
                            (send_then-IsSound msg (after_apply sha256 run next.0)
                              (after_apply-IsSound run (execute_local-IsSound fuel) next.0 sound'))
                    ]
              ]
    ]

    local_step-IsSound : KeepsSound (local_step sha256 draw)
    local_step-IsSound s sound = execute_local-IsSound (suc (steps_left s)) s sound

    pub applied-IsSound : KeepsSound (after_apply sha256 (local_step sha256 draw))
    applied-IsSound s sound =
        after_apply-IsSound (local_step sha256 draw) local_step-IsSound s sound

    pub start_sequence-IsSound :
        (kind : SeqKind) (jobs : List PeelJob) (n id : ℕ) (s : DealSession)
        → IsSound sha256 s
        → IsSound sha256 (start_sequence sha256 draw kind jobs n id s).0
    unfolding start_sequence
    start_sequence-IsSound kind [] n id s sound = sound
    start_sequence-IsSound kind (j ∷ jobs) n id s sound =
        let begun = record s {
          seq = kind;
          seq_jobs = j ∷ jobs;
          seq_job_idx = 0;
          street = n;
          reveal_id = id;
        } in
        elim (Option-cases (install_job j begun)) [
          | inl e ↦ rw (e, start_sequence) sound
          | inr (t, e) ↦
              rw (e, start_sequence)
                (start_current_job-IsSound (local_step sha256 draw) local_step-IsSound t
                  (install_job-IsSound sha256 j begun t e sound))
        ]
