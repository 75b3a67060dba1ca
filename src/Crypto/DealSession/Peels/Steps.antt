-- ===== src/Crypto/DealSession/Peels/Steps.antt =====
-- What the calls of a session leave of its jobs, and the local steps that are left.
use decentralized_poker_engi.Common.{
  ℕ, zero, suc, ◌+◌, ◌-◌, ◌*◌, ◌≤◌, ◌<◌, ◌≡◌, refl, ◌∙◌, arith, Bool-cases, true, false, ◌⊎◌, inl,
  inr, Option-cases, none, some, List, [], ◌∷◌, length, get_elem?, ◌==◌,
}
use decentralized_poker_engi.Common.Maps.{lookup, delete}
use decentralized_poker_engi.Crypto.Deal.{verify_and_apply, others, peel_order}
use decentralized_poker_engi.Crypto.Keyring.{seats}
use decentralized_poker_engi.Crypto.DealSession.{
  DealSession, PeelMessage, PeelJob, job_complete, peel_message_to_pd,
}
use decentralized_poker_engi.Crypto.DealSession.Jobs.{install_job}
use decentralized_poker_engi.Crypto.DealSession.Peels.{
  peeler_index, is_local_turn, keep_public, keep_hole, finish_job, steps_left, apply_incoming,
  drain_pending,
}

-- The second session has the jobs of the first, and no fewer peels.
pub record IsAfter (s t : DealSession) : Type 0 where
  pub kr_same : t.kr ≡ s.kr
  pub peelers_same : t.peelers ≡ s.peelers
  pub jobs_same : t.seq_jobs ≡ s.seq_jobs
  pub idx_same : t.seq_job_idx ≡ s.seq_job_idx
  pub more : s.next_peel ≤ t.next_peel

pub IsAfter-steps_left : (s t : DealSession) → IsAfter s t → steps_left t ≤ steps_left s
unfolding steps_left
IsAfter-steps_left s t a =
    ground (arith, a.kr_same, a.peelers_same, a.jobs_same, a.idx_same, a.more)

length-others : (r : ℕ) (xs : List ℕ) → length (others r xs).0 ≤ length xs
unfolding others
length-others r [] = omega arith
length-others r (x ∷ xs) = ground (arith, length-others r xs)

length-peel_order : (xs ys : List ℕ) (r : ℕ) → peel_order xs r ≡ some ys → length ys ≤ length xs
unfolding peel_order
length-peel_order xs ys r h = ground (arith, length-others r xs)

pub next_job : (L i n : ℕ) → suc i < L → (L - suc i) * suc n ≡ suc n + (L - suc (suc i)) * suc n
next_job L i n h = let e : L - suc i ≡ suc (L - suc (suc i)) = omega arith in rw e (omega arith)

get_elem?-length :
    (xs : List PeelJob) (i : ℕ) (j : PeelJob) → get_elem? xs i ≡ some j → i < length xs
get_elem?-length [] i j h = absurd (ground arith)
get_elem?-length (x ∷ xs) zero j h = omega arith
get_elem?-length (x ∷ xs) (suc i) j h = ground (arith, get_elem?-length xs i j h)

-- A job that is installed leaves fewer steps than those before it.
install_job-steps_left :
    (s t : DealSession) (j : PeelJob)
    → install_job j s ≡ some t
    → steps_left t ≤ seats s.kr + (length s.seq_jobs - suc s.seq_job_idx) * suc (seats s.kr)
unfolding install_job steps_left seats
install_job-steps_left s t j h = ground (arith, length-peel_order s.kr.order t.peelers j.recipient)

pub keeps : (s t : DealSession) → finish_job s ≡ some t → IsAfter s t
unfolding finish_job keep_public keep_hole
keeps s t h = ground arith

turn_below :
    (xs : List ℕ) (i a : ℕ)
    → (elim (get_elem? xs i) [ none ↦ false | some id ↦ id == a ]) ≡ true
    → i < length xs
turn_below [] i a h = absurd (ground arith)
turn_below (x ∷ xs) zero a h = omega arith
turn_below (x ∷ xs) (suc i) a h = ground (arith, turn_below xs i a)

IsAfter-refl : (s : DealSession) → IsAfter s s
IsAfter-refl s = record {
  kr_same = refl;
  peelers_same = refl;
  jobs_same = refl;
  idx_same = refl;
  more = omega arith;
}

-- The job that is installed next has fewer steps than were left.
pub installed :
    (s t : DealSession) (j : PeelJob)
    → get_elem? s.seq_jobs (suc s.seq_job_idx) ≡ some j
    → install_job j (record s { seq_job_idx = suc s.seq_job_idx }) ≡ some t
    → steps_left t < steps_left s
unfolding steps_left
installed s t j at made = omega (
  arith,
  install_job-steps_left (record s { seq_job_idx = suc s.seq_job_idx }) t j made,
  next_job (length s.seq_jobs) s.seq_job_idx (seats s.kr)
      (get_elem?-length s.seq_jobs (suc s.seq_job_idx) j at),
)

IsAfter-trans : (s t u : DealSession) → IsAfter s t → IsAfter t u → IsAfter s u
IsAfter-trans s t u a b = record {
  kr_same = b.kr_same ∙ a.kr_same;
  peelers_same = b.peelers_same ∙ a.peelers_same;
  jobs_same = b.jobs_same ∙ a.jobs_same;
  idx_same = b.idx_same ∙ a.idx_same;
  more = omega (arith, a.more, b.more);
}

module _ (sha256 : List ℕ → List ℕ) where
  pub apply_incoming-IsAfter :
      (msg : PeelMessage) (s : DealSession) → IsAfter s (apply_incoming sha256 msg s).0
  unfolding apply_incoming
  apply_incoming-IsAfter msg s =
      elim (Option-cases
        (verify_and_apply sha256 s.current (peel_message_to_pd msg) s.p s.session_id)) [
          | inl e ↦ rw (e, apply_incoming) (IsAfter-refl s)
          | inr (next, e) ↦ elim (Option-cases (peeler_index s.peelers msg.player_id)) [
            | inl f ↦ rw (e, f, apply_incoming) (IsAfter-refl s)
            | inr (seat, f) ↦
                rw (e, f, apply_incoming)
                  (record {
                    kr_same = refl;
                    peelers_same = refl;
                    jobs_same = refl;
                    idx_same = refl;
                    more = omega arith;
                  })
          ]
        ]

  apply_incoming_grows :
      (msg : PeelMessage) (s : DealSession)
      → (apply_incoming sha256 msg s).1 ≡ true
      → (apply_incoming sha256 msg s).0.next_peel ≡ suc s.next_peel
  unfolding apply_incoming
  apply_incoming_grows msg s h = ground arith

  pub drain_pending-IsAfter :
      (fuel : ℕ) (s : DealSession) → IsAfter s (drain_pending sha256 fuel s).0
  unfolding drain_pending
  drain_pending-IsAfter zero s = IsAfter-refl s
  drain_pending-IsAfter (suc fuel) s = elim (Bool-cases (job_complete s)) [
    | inl e ↦ rw (e, drain_pending) (IsAfter-refl s)
    | inr e ↦ elim (Bool-cases (is_local_turn s)) [
      | inl f ↦ rw (e, f, drain_pending) (IsAfter-refl s)
      | inr f ↦ elim (Option-cases (lookup s.next_peel s.pending)) [
        | inl g ↦ rw (e, f, g, drain_pending) (IsAfter-refl s)
        | inr (msg, g) ↦
            let waits = record s { pending = delete s.next_peel s.pending } in
            let next = apply_incoming sha256 msg waits in
            let waits-after : IsAfter s waits = record {
              kr_same = refl;
              peelers_same = refl;
              jobs_same = refl;
              idx_same = refl;
              more = omega arith;
            } in
            let applied =
              IsAfter-trans s waits next.0 waits-after (apply_incoming-IsAfter msg waits) in
            elim (Bool-cases next.1) [
              | inl h ↦
                  rw (e, f, g, h, drain_pending)
                    (IsAfter-trans s next.0 (drain_pending sha256 fuel next.0).0 applied
                      (drain_pending-IsAfter fuel next.0))
              | inr h ↦ rw (e, f, g, h, drain_pending) applied
            ]
      ]
    ]
  ]

  -- A peel at a place of the job that is applied is one step fewer.
  pub one_fewer_below :
      (msg : PeelMessage) (s : DealSession)
      → s.next_peel < length s.peelers
      → (apply_incoming sha256 msg s).1 ≡ true
      → suc (steps_left (apply_incoming sha256 msg s).0) ≡ steps_left s
  unfolding steps_left
  one_fewer_below msg s here ok =
      let after = apply_incoming-IsAfter msg s in
      let grown = apply_incoming_grows msg s ok in
      ground
        (arith, after.kr_same, after.peelers_same, after.jobs_same, after.idx_same, grown, here)

  pub one_fewer :
      (msg : PeelMessage) (s : DealSession)
      → is_local_turn s ≡ true
      → (apply_incoming sha256 msg s).1 ≡ true
      → suc (steps_left (apply_incoming sha256 msg s).0) ≡ steps_left s
  unfolding is_local_turn
  one_fewer msg s turn ok =
      one_fewer_below msg s (turn_below s.peelers s.next_peel s.kr.local_id turn) ok

  -- Why the loop over the messages that are kept ends.
  abbrev pub IsStopped : DealSession → Type 0
  IsStopped s =
      (job_complete s ≡ true) ⊎ (is_local_turn s ≡ true) ⊎ (lookup s.next_peel s.pending ≡ none)

  -- With a round for each peeler and one more, the loop ends by its own tests.
  drain_pending_stops :
      (fuel : ℕ) (s : DealSession)
      → length s.peelers < s.next_peel + fuel
      → ((drain_pending sha256 fuel s).1 ≡ false) ⊎ IsStopped (drain_pending sha256 fuel s).0
  unfolding drain_pending job_complete
  drain_pending_stops zero s h = inr (inl (ground arith))
  drain_pending_stops (suc fuel) s h = elim (Bool-cases (job_complete s)) [
    | inl e ↦ rw (e, drain_pending) (inr (inl e))
    | inr e ↦ elim (Bool-cases (is_local_turn s)) [
      | inl f ↦ rw (e, f, drain_pending) (inr (inr (inl f)))
      | inr f ↦ elim (Option-cases (lookup s.next_peel s.pending)) [
        | inl g ↦ rw (e, f, g, drain_pending) (inr (inr (inr g)))
        | inr (msg, g) ↦
            let waits = record s { pending = delete s.next_peel s.pending } in
            let next = apply_incoming sha256 msg waits in
            let after = apply_incoming-IsAfter msg waits in
            elim (Bool-cases next.1) [
              | inr v ↦ rw (e, f, g, v, drain_pending) (inl refl)
              | inl v ↦
                  rw (e, f, g, v, drain_pending)
                    (drain_pending_stops fuel next.0
                      (ground (arith, apply_incoming_grows msg waits v, after.peelers_same)))
            ]
      ]
    ]
  ]
