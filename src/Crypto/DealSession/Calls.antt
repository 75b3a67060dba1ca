-- ===== src/Crypto/DealSession/Calls.antt =====
-- internal/crypto/deal_session.go: the exported calls that move a session. `draw i` is the random
-- number of the proof that a local step makes for the card at `i`.
use decentralized_poker_engi.Common.{
  ℕ, suc, Bool, true, false, not, none, some, List, [], ◌∷◌, ltb, ◌==◌, if◌then◌else◌, get_or,
}
use decentralized_poker_engi.Common.Maps.{lookup, insert}
use decentralized_poker_engi.Crypto.Deal.{peel}
use decentralized_poker_engi.Crypto.Keyring.{seats, seat_index}
use decentralized_poker_engi.Crypto.Sra.{SraKey}
use decentralized_poker_engi.Crypto.DealSession.{
  DealSession, PeelMessage, PeelJob, Pair, SeqKind, seq_idle, seq_holes, seq_street, seq_reveal,
  is_seq_idle, is_idle, expected_peeler, validate_incoming, messages_equal, peel_message_from_pd,
  pair_of, street_none,
}
use decentralized_poker_engi.Crypto.DealSession.Jobs.{
  install_job, hole_jobs, both_rounds, street_jobs, reveal_jobs,
}
use decentralized_poker_engi.Crypto.DealSession.Peels.{
  Reply, refused, silent, peeler_index, send_then, apply_incoming, start_current_job, after_apply,
  local_step,
}

-- Whether both cards of the player are there.
unfoldable pub is_revealed : Pair → Bool
is_revealed (none, b) = false
is_revealed (some v, none) = false
is_revealed (some v, some w) = true

module _ (sha256 : List ℕ → List ℕ) (draw : ℕ → ℕ) where
  unfoldable pub start_sequence : SeqKind → List PeelJob → ℕ → ℕ → DealSession → DealSession × Reply
  start_sequence kind [] street reveal_id s = (s, refused)
  start_sequence kind (j ∷ jobs) street reveal_id s =
      let begun = record s {
        seq = kind;
        seq_jobs = j ∷ jobs;
        seq_job_idx = 0;
        street = street;
        reveal_id = reveal_id;
      } in
      elim (install_job j begun) [
        | none ↦ (record begun { seq = seq_idle }, refused)
        | some s' ↦ start_current_job sha256 (local_step sha256 draw) s'
      ]

  unfoldable pub begin_holes : DealSession → DealSession × Reply
  begin_holes s =
      if not (is_seq_idle s)
      then (s, refused)
      else if s.holes_started
      then (s, refused)
      else if s.holes_done
      then (s, refused)
      else elim (both_rounds (hole_jobs s 0 (seats s.kr) 0) (hole_jobs s 1 (seats s.kr) 0)) [
        | none ↦ (s, refused)
        | some jobs ↦
            start_sequence seq_holes jobs street_none 0 (record s { holes_started = true })
      ]

  unfoldable pub begin_street : ℕ → DealSession → DealSession × Reply
  begin_street street s =
      if not (is_seq_idle s)
      then (s, refused)
      else if not s.holes_done
      then (s, refused)
      else if not (street == suc s.last_street)
      then (s, refused)
      else elim (street_jobs (seats s.kr) street) [
        | none ↦ (s, refused)
        | some jobs ↦ start_sequence seq_street jobs street 0 (record s { street_done = false })
      ]

  unfoldable pub begin_reveal : ℕ → DealSession → DealSession × Reply
  begin_reveal id s =
      if not (is_seq_idle s)
      then (s, refused)
      else if not s.holes_done
      then (s, refused)
      else elim (seat_index id s.kr) [
        | none ↦ (s, refused)
        | some player_idx ↦
            if is_revealed (pair_of id s.revealed)
            then (s, refused)
            else elim (reveal_jobs s player_idx) [
              | none ↦ (s, refused)
              | some jobs ↦
                  start_sequence seq_reveal jobs street_none id (record s { reveal_done = false })
            ]
      ]

  -- `key` is the reconstructed one, and `r` the random number of its proof.
  unfoldable pub peel_on_behalf : ℕ → SraKey → ℕ → DealSession → DealSession × Reply
  peel_on_behalf id key r s =
      if id == 0
      then (s, refused)
      else if id == s.kr.local_id
      then (s, refused)
      else if is_idle s
      then (s, refused)
      else if not (expected_peeler s == id)
      then (s, refused)
      else elim (peel sha256 key s.current s.card_index id s.session_id r) [
        | none ↦ (s, refused)
        | some pd ↦
            let msg = peel_message_from_pd s.hand_num pd in
            let (s', ok) = apply_incoming sha256 msg s in
            elim ok [
              | true ↦ send_then msg (after_apply sha256 (local_step sha256 draw) s')
              | false ↦ (s', refused)
            ]
      ]

  -- A message of the peeler at `seat`, which passed the first checks.
  unfoldable pub handle_at : ℕ → PeelMessage → DealSession → DealSession × Reply
  handle_at seat msg s =
      if ltb seat s.next_peel
      then elim (lookup seat s.applied) [
        | none ↦ (s, refused)
        | some prev ↦ (s, if messages_equal prev msg then silent else refused)
      ]
      else if seat == s.next_peel
      then if not (get_or s.peelers s.next_peel 0 == msg.player_id)
        then (s, refused)
        else if msg.player_id == s.kr.local_id
        then (s, refused)
        else (let (s', ok) = apply_incoming sha256 msg s in
            elim ok [
              | true ↦ after_apply sha256 (local_step sha256 draw) s'
              | false ↦ (s', refused)
            ])
      else if msg.player_id == s.kr.local_id
      then (s, refused)
      else elim (lookup seat s.pending) [
        | some prev ↦ (s, if messages_equal prev msg then silent else refused)
        | none ↦ (record s { pending = insert seat msg s.pending }, silent)
      ]

  unfoldable pub handle_peel : PeelMessage → DealSession → DealSession × Reply
  handle_peel msg s =
      if is_idle s
      then (s, refused)
      else if not (validate_incoming msg s)
      then (s, refused)
      else elim (peeler_index s.peelers msg.player_id) [
        | none ↦ (s, refused)
        | some seat ↦ handle_at seat msg s
      ]

-- A call of a session, with the random numbers of the proofs.
pub data Call : Type 0 where
  holes : (ℕ → ℕ) → Call
  street : ℕ → (ℕ → ℕ) → Call
  reveal : ℕ → (ℕ → ℕ) → Call
  receive : PeelMessage → (ℕ → ℕ) → Call
  behalf : ℕ → SraKey → ℕ → (ℕ → ℕ) → Call

abbrev pub perform : (List ℕ → List ℕ) → Call → DealSession → DealSession × Reply
perform sha256 (holes draw) s = begin_holes sha256 draw s
perform sha256 (street n draw) s = begin_street sha256 draw n s
perform sha256 (reveal id draw) s = begin_reveal sha256 draw id s
perform sha256 (receive msg draw) s = handle_peel sha256 draw msg s
perform sha256 (behalf id key r draw) s = peel_on_behalf sha256 draw id key r s
