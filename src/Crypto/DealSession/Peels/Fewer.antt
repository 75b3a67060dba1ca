-- ===== src/Crypto/DealSession/Peels/Fewer.antt =====
-- No call leaves more local steps than there were, unless it starts a sequence.
use decentralized_poker_engi.Common.{
  ℕ, zero, suc, ◌-◌, ◌*◌, ◌≤◌, ◌<◌, ◌≡◌, ◌≢◌, refl, arith, Bool-cases, true, inl, inr, Option-cases,
  List, [], ◌∷◌, length, get_elem?, get_or, ltb, ◌==◌,
}
use decentralized_poker_engi.Crypto.Deal.{peel}
use decentralized_poker_engi.Crypto.Keyring.{seats}
use decentralized_poker_engi.Crypto.Sra.{SraKey}
use decentralized_poker_engi.Crypto.DealSession.{
  DealSession, PeelMessage, job_complete, is_idle, expected_peeler, peel_message_from_pd,
}
use decentralized_poker_engi.Crypto.DealSession.Jobs.{install_job}
use decentralized_poker_engi.Crypto.DealSession.Peels.{
  Reply, refused, silent, out_of_fuel, send, is_local_turn, finish_job, end_sequence, send_then,
  steps_left, apply_incoming, drain_pending, start_current_job, advance_sequence, after_drain,
  after_apply, execute_local, local_step,
}
use decentralized_poker_engi.Crypto.DealSession.Calls.{peel_on_behalf}
use decentralized_poker_engi.Crypto.DealSession.Peels.Steps.{
  next_job, one_fewer_below, IsAfter-steps_left, keeps, installed, apply_incoming-IsAfter,
  drain_pending-IsAfter,
}

later_jobs : (L i n : ℕ) → (L - suc (suc i)) * suc n ≤ (L - suc i) * suc n
later_jobs L i n = elim (Bool-cases (ltb (suc i) L)) [
  | inl e ↦ let below : suc i < L = ground (arith, e) in omega (arith, next_job L i n below)
  | inr e ↦ let none_left : L - suc (suc i) ≡ 0 = ground (arith, e) in rw none_left (omega arith)
]

-- The expected peeler has a place in the job.
peeler_below : (xs : List ℕ) (i : ℕ) → get_or xs i 0 ≢ 0 → i < length xs
peeler_below [] i h = absurd (h refl)
peeler_below (x ∷ xs) zero h = omega arith
peeler_below (x ∷ xs) (suc i) h = let below = peeler_below xs i h in omega arith

expected_below :
    (s : DealSession) (id : ℕ)
    → id ≢ 0
    → (expected_peeler s == id) ≡ true
    → s.next_peel < length s.peelers
unfolding expected_peeler
expected_below s id n h = peeler_below s.peelers s.next_peel (λ z. ground (arith, h, z, n))

next-steps_left :
    (s : DealSession) → steps_left (record s { seq_job_idx = suc s.seq_job_idx }) ≤ steps_left s
unfolding steps_left
next-steps_left s = omega (arith, later_jobs (length s.seq_jobs) s.seq_job_idx (seats s.kr))

end-steps_left : (s : DealSession) → steps_left (end_sequence s) ≡ steps_left s
unfolding steps_left end_sequence
end-steps_left s = ground arith

send_then-steps_left :
    (msg : PeelMessage) (r : DealSession × Reply) → steps_left (send_then msg r).0 ≡ steps_left r.0
unfolding steps_left
send_then-steps_left msg (s, refused) = refl
send_then-steps_left msg (s, silent) = refl
send_then-steps_left msg (s, out_of_fuel) = refl
send_then-steps_left msg (s, send extra) = refl

module _ (sha256 : List ℕ → List ℕ) where
  abbrev Lowers : (DealSession → DealSession × Reply) → Type 0
  Lowers run = (t : DealSession) → steps_left (run t).0 ≤ steps_left t

  module _ (run : DealSession → DealSession × Reply) (lowers : Lowers run) where
    start_current_job-Lowers : Lowers (start_current_job sha256 run)
    unfolding start_current_job
    start_current_job-Lowers s = ground (arith, lowers s)

    advance_sequence-Lowers : Lowers (advance_sequence sha256 run)
    unfolding advance_sequence
    advance_sequence-Lowers s =
        let next = record s { seq_job_idx = suc s.seq_job_idx } in
        let moved = next-steps_left s in
        elim (Option-cases (get_elem? s.seq_jobs (suc s.seq_job_idx))) [
          | inl e ↦ rw (e, advance_sequence) (omega (arith, end-steps_left next, moved))
          | inr (j, e) ↦ elim (Option-cases (install_job j next)) [
            | inl f ↦ rw (e, f, advance_sequence) moved
            | inr (t, f) ↦
                rw (e, f, advance_sequence)
                  (omega (arith, installed s t j e f, start_current_job-Lowers t))
          ]
        ]

    after_drain-Lowers : Lowers (after_drain sha256 run)
    unfolding after_drain
    after_drain-Lowers s = elim (Bool-cases (job_complete s)) [
      | inr e ↦ ground (arith, e, lowers s)
      | inl e ↦ elim (Option-cases (finish_job s)) [
        | inl f ↦ rw (e, f, after_drain) (omega arith)
        | inr (t, f) ↦
            rw (e, f, after_drain)
              (omega (arith, IsAfter-steps_left s t (keeps s t f), advance_sequence-Lowers t))
      ]
    ]

    after_apply-Lowers : Lowers (after_apply sha256 run)
    unfolding after_apply
    after_apply-Lowers s =
        let drained = drain_pending sha256 (suc (length s.peelers)) s in
        let fewer =
          IsAfter-steps_left s drained.0
            (drain_pending-IsAfter sha256 (suc (length s.peelers)) s) in
        elim (Bool-cases drained.1) [
          | inl e ↦ rw (e, after_apply) (omega (arith, fewer, after_drain-Lowers drained.0))
          | inr e ↦ rw (e, after_apply) fewer
        ]

  module _ (draw : ℕ → ℕ) where
    execute_local-Lowers : (fuel : ℕ) → Lowers (execute_local sha256 draw fuel)
    unfolding execute_local
    execute_local-Lowers zero s = omega arith
    execute_local-Lowers (suc fuel) s = elim (Bool-cases (is_local_turn s)) [
      | inr e ↦ rw (e, execute_local) (omega arith)
      | inl e ↦
          elim (Option-cases (
            peel sha256 s.kr.local s.current s.card_index s.kr.local_id s.session_id
              (draw s.card_index))) [
                | inl f ↦ rw (e, f, execute_local) (omega arith)
                | inr (pd, f) ↦
                    let msg = peel_message_from_pd s.hand_num pd in
                    let next = apply_incoming sha256 msg s in
                    let after = apply_incoming-IsAfter sha256 msg s in
                    let more = after_apply sha256 (execute_local sha256 draw fuel) next.0 in
                    elim (Bool-cases next.1) [
                      | inr g ↦ rw (e, f, g, execute_local) (IsAfter-steps_left s next.0 after)
                      | inl g ↦
                          rw (e, f, g, execute_local)
                            (omega (
                              arith,
                              send_then-steps_left msg more,
                              after_apply-Lowers (execute_local sha256 draw fuel)
                                  (execute_local-Lowers fuel) next.0,
                              IsAfter-steps_left s next.0 after,
                            ))
                    ]
              ]
    ]

    local_step-Lowers : Lowers (local_step sha256 draw)
    local_step-Lowers s = execute_local-Lowers (suc (steps_left s)) s

    -- A peel on behalf of the expected player leaves fewer steps, unless it is refused.
    pub peel_on_behalf_fewer :
        (id : ℕ) (key : SraKey) (r : ℕ) (s : DealSession)
        → (peel_on_behalf sha256 draw id key r s).1 ≢ refused
        → steps_left (peel_on_behalf sha256 draw id key r s).0 < steps_left s
    unfolding peel_on_behalf
    peel_on_behalf_fewer id key r s h = elim (Bool-cases (id == 0)) [
      | inl e ↦ absurd (ground (arith, e, h))
      | inr e ↦ elim (Bool-cases (expected_peeler s == id)) [
        | inr f ↦ absurd (ground (arith, e, f, h))
        | inl f ↦ elim (Option-cases (peel sha256 key s.current s.card_index id s.session_id r)) [
          | inl g ↦ absurd (ground (arith, e, f, g, h))
          | inr (pd, g) ↦
              let msg = peel_message_from_pd s.hand_num pd in
              let next = apply_incoming sha256 msg s in
              let more = after_apply sha256 (local_step sha256 draw) next.0 in
              elim (Bool-cases next.1) [
                | inr k ↦ absurd (ground (arith, e, f, g, k, h))
                | inl k ↦
                    let fewer =
                      one_fewer_below sha256 msg s
                        (expected_below s id (λ z. ground (arith, e, z)) f) k in
                    let lower =
                      after_apply-Lowers (local_step sha256 draw) local_step-Lowers next.0 in
                    let sent = send_then-steps_left msg more in
                    elim (Bool-cases (id == s.kr.local_id)) [
                      | inl a ↦ absurd (ground (arith, e, a, h))
                      | inr a ↦ elim (Bool-cases (is_idle s)) [
                        | inl b ↦ absurd (ground (arith, e, a, b, h))
                        | inr b ↦
                            rw (e, a, b, f, g, k, peel_on_behalf)
                              (omega (arith, fewer, lower, sent))
                      ]
                    ]
              ]
        ]
      ]
    ]
