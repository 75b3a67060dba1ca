-- ===== src/Crypto/DealSession/Peels.antt =====
-- internal/crypto/deal_session.go: the steps of a session. `draw i` is the random number of the
-- proof that the local step makes for the card at `i`.
pub mod Steps
pub mod Ends
pub mod Fewer
pub mod Lost
use decentralized_poker_engi.Common.{
  ℕ, zero, suc, ◌+◌, ◌-◌, ◌*◌, Bool, true, false, not, Option, none, some, List, [], ◌∷◌, ◌++◌,
  length, leb, ltb, ◌==◌, if◌then◌else◌, get_elem?, get_or,
}
use decentralized_poker_engi.Common.Maps.{lookup, insert, delete}
use decentralized_poker_engi.Crypto.Deal.{peel, verify_and_apply}
use decentralized_poker_engi.Crypto.Keyring.{seats, seat_index, index_of}
use decentralized_poker_engi.Crypto.Sra.{SraKey, is_private, decrypt}
use decentralized_poker_engi.Crypto.DealSession.{
  DealSession, PeelMessage, PeelJob, Pair, SeqKind, JobKind, seq_idle, seq_holes, seq_street,
  seq_reveal, job_idle, job_hole, job_public, is_seq_idle, is_idle, job_complete, expected_peeler,
  validate_incoming, messages_equal, peel_message_from_pd, peel_message_to_pd, pair_of, street_none,
}
use decentralized_poker_engi.Crypto.DealSession.Jobs.{
  install_job, hole_jobs, both_rounds, street_jobs, reveal_jobs,
}

-- What a call returns: an error, no message, or a message to send. The calls are on fuel, and
-- `out_of_fuel` says that there was too little.
pub data Reply : Type 0 where
  refused silent out_of_fuel : Reply
  send : PeelMessage → Reply

unfoldable pub peeler_index : List ℕ → ℕ → Option ℕ
peeler_index peelers id = index_of 0 id peelers

unfoldable pub is_local_turn : DealSession → Bool
is_local_turn s = elim (get_elem? s.peelers s.next_peel) [
  | none ↦ false
  | some id ↦ id == s.kr.local_id
]

abbrev pub set_pair : ℕ → ℕ → Pair → Pair
set_pair zero v (a, b) = (some v, b)
set_pair (suc n) v (a, b) = (a, some v)

-- The value of a public job, kept for its street or its player.
unfoldable pub keep_public : PeelJob → DealSession → DealSession
keep_public j s = elim s.seq [
  | seq_idle ↦ record s { decoded = insert j.card_index s.current s.decoded }
  | seq_holes ↦ record s { decoded = insert j.card_index s.current s.decoded }
  | seq_street ↦ record s {
    decoded = insert j.card_index s.current s.decoded;
    community = s.community ++ s.current ∷ [];
  }
  | seq_reveal ↦ record s {
    decoded = insert j.card_index s.current s.decoded;
    revealed =
        insert s.reveal_id (set_pair j.round s.current (pair_of s.reveal_id s.revealed)) s.revealed;
  }
]

unfoldable pub keep_hole : PeelJob → DealSession → Option DealSession
keep_hole j s =
    if s.recipient == s.kr.local_id
    then elim (decrypt s.kr.local s.current) [
      | none ↦ none
      | some plain ↦ some (record s {
        local_holes = set_pair j.round plain s.local_holes;
        decoded = insert j.card_index plain s.decoded;
      })
    ]
    else some s

unfoldable pub finish_job : DealSession → Option DealSession
finish_job s = elim s.current_job.kind [
  | job_idle ↦ some (keep_public s.current_job s)
  | job_hole ↦ keep_hole s.current_job s
  | job_public ↦ some (keep_public s.current_job s)
]

-- The end of a sequence.
unfoldable pub end_sequence : DealSession → DealSession
end_sequence s = elim s.seq [
  | seq_idle ↦ record s { seq = seq_idle; job_kind = job_idle }
  | seq_holes ↦ record s { holes_done = true; seq = seq_idle; job_kind = job_idle }
  | seq_street ↦ record s {
    street_done = true;
    last_street = s.street;
    seq = seq_idle;
    job_kind = job_idle;
  }
  | seq_reveal ↦ record s { reveal_done = true; seq = seq_idle; job_kind = job_idle }
]

-- A message that was produced after another has to wait in the outbound ones.
abbrev pub send_then : PeelMessage → DealSession × Reply → DealSession × Reply
send_then msg (s, refused) = (s, refused)
send_then msg (s, out_of_fuel) = (s, out_of_fuel)
send_then msg (s, silent) = (s, send msg)
send_then msg (s, send extra) = (record s { outbound = s.outbound ++ extra ∷ [] }, send msg)

-- A bound on the local steps that are left: the peelers of this job, and all seats and one more for
-- each later job.
unfoldable pub steps_left : DealSession → ℕ
steps_left s =
    length s.peelers - s.next_peel + (length s.seq_jobs - suc s.seq_job_idx) * suc (seats s.kr)

module _ (sha256 : List ℕ → List ℕ) where
  -- The session, and whether there was no error: with one it is as before.
  unfoldable pub apply_incoming : PeelMessage → DealSession → DealSession × Bool
  apply_incoming msg s =
      elim (verify_and_apply sha256 s.current (peel_message_to_pd msg) s.p s.session_id) [
        | none ↦ (s, false)
        | some next ↦ elim (peeler_index s.peelers msg.player_id) [
          | none ↦ (s, false)
          | some seat ↦ (
            record s {
              applied = insert seat msg s.applied;
              current = next;
              next_peel = suc s.next_peel;
            },
            true,
          )
        ]
      ]

  -- The loop, with as much fuel as rounds are allowed.
  unfoldable pub drain_pending : ℕ → DealSession → DealSession × Bool
  drain_pending zero s = (s, true)
  drain_pending (suc fuel) s =
      if job_complete s
      then (s, true)
      else if is_local_turn s
      then (s, true)
      else elim (lookup s.next_peel s.pending) [
        | none ↦ (s, true)
        | some msg ↦
            let (s', ok) =
              apply_incoming msg (record s { pending = delete s.next_peel s.pending }) in
            elim ok [ true ↦ drain_pending fuel s' | false ↦ (s', false) ]
      ]

  -- A round of the loop applies a peel, so a round for each peeler and one more are enough.
  abbrev pub drain : DealSession → DealSession × Bool
  drain s = drain_pending (suc (length s.peelers)) s

  -- `run` is the local step that may follow.
  module _ (run : DealSession → DealSession × Reply) where
    unfoldable pub start_current_job : DealSession → DealSession × Reply
    start_current_job s = if get_or s.peelers 0 0 == s.kr.local_id then run s else (s, silent)

    unfoldable pub advance_sequence : DealSession → DealSession × Reply
    advance_sequence s =
        let next = record s { seq_job_idx = suc s.seq_job_idx } in
        elim (get_elem? s.seq_jobs (suc s.seq_job_idx)) [
          | none ↦ (end_sequence next, silent)
          | some j ↦ elim (install_job j next) [
            | none ↦ (next, refused)
            | some s' ↦ start_current_job s'
          ]
        ]

    -- What follows once the kept messages are drained.
    unfoldable pub after_drain : DealSession → DealSession × Reply
    after_drain s =
        if job_complete s
        then elim (finish_job s) [ none ↦ (s, refused) | some s' ↦ advance_sequence s' ]
        else if is_local_turn s
        then run s
        else (s, silent)

    unfoldable pub after_apply : DealSession → DealSession × Reply
    after_apply s =
        let (s', drained) = drain s in
        elim drained [ true ↦ after_drain s' | false ↦ (s', refused) ]

  -- The local step, which may start the next one: on fuel.
  module _ (draw : ℕ → ℕ) where
    unfoldable pub execute_local : ℕ → DealSession → DealSession × Reply
    execute_local zero s = (s, out_of_fuel)
    execute_local (suc fuel) s =
        if not (is_local_turn s)
        then (s, refused)
        else elim (peel sha256 s.kr.local s.current s.card_index s.kr.local_id s.session_id
            (draw s.card_index)) [
              | none ↦ (s, refused)
              | some pd ↦
                  let msg = peel_message_from_pd s.hand_num pd in
                  let (s', ok) = apply_incoming msg s in
                  elim ok [
                    | true ↦ send_then msg (after_apply (execute_local fuel) s')
                    | false ↦ (s', refused)
                  ]
            ]

    abbrev pub local_step : DealSession → DealSession × Reply
    local_step s = execute_local (suc (steps_left s)) s

-- What has to be sent after the value that a call returned.
unfoldable pub take_outbound : DealSession → DealSession × List PeelMessage
take_outbound s = (record s { outbound = [] }, s.outbound)
