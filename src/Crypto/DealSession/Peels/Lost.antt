-- ===== src/Crypto/DealSession/Peels/Lost.antt =====
-- What becomes of a local peel when a kept message turns out wrong.
use decentralized_poker_engi.Common.{
  ℕ, zero, suc, ◌≡◌, ◌≢◌, refl, sym, ap, ◌∙◌, arith, true, false, none, some, List, [], ◌∷◌, length,
  leb, get_elem?,
}
use decentralized_poker_engi.Common.Maps.{lookup, insert, delete}
use decentralized_poker_engi.Crypto.Deal.{peel, verify_and_apply}
use decentralized_poker_engi.Crypto.Zkp.{PartialDecryption, verify}
use decentralized_poker_engi.Crypto.DealSession.{
  DealSession, PeelMessage, job_complete, peel_message_from_pd, peel_message_to_pd,
}
use decentralized_poker_engi.Crypto.DealSession.Peels.{
  Reply, refused, send_then, is_local_turn, peeler_index, apply_incoming, drain_pending,
  after_apply, execute_local,
}
use decentralized_poker_engi.Crypto.Keyring.Seats.{AllDiffer}
use decentralized_poker_engi.Crypto.DealSession.Chain.{turn-peeler_index, get_elem?_turn}
use decentralized_poker_engi.Crypto.DealSession.Chain.Steps.{peel-player}

-- A list has an element at places below its length alone.
leb-length : (xs : List ℕ) (i id : ℕ) → get_elem? xs i ≡ some id → leb (length xs) i ≡ false
leb-length [] i id h = absurd (ground arith)
leb-length (x ∷ xs) zero id h = ground arith
leb-length (x ∷ xs) (suc i) id h = ground (arith, leb-length xs i id h)

module _ (sha256 : List ℕ → List ℕ) where
  -- A message that is not verified changes nothing.
  unverified :
      (msg : PeelMessage) (s : DealSession)
      → verify sha256 (peel_message_to_pd msg) s.p s.session_id ≡ false
      → apply_incoming sha256 msg s ≡ (s, false)
  unfolding apply_incoming verify_and_apply
  unverified msg s h =
      let failed : verify_and_apply sha256 s.current (peel_message_to_pd msg) s.p s.session_id
          ≡ none =
        ground (arith, h) in
      ground (arith, failed)

  -- The loop takes the wrong message of the next peeler out, and ends with an error.
  drain_wrong :
      (fuel : ℕ) (s : DealSession) (msg : PeelMessage)
      → job_complete s ≡ false
      → is_local_turn s ≡ false
      → lookup s.next_peel s.pending ≡ some msg
      → verify sha256 (peel_message_to_pd msg) s.p s.session_id ≡ false
      → drain_pending sha256 (suc fuel) s
        ≡ (record s { pending = delete s.next_peel s.pending }, false)
  unfolding drain_pending
  drain_wrong fuel s msg open_job other waits wrong =
      let fails = unverified msg (record s { pending = delete s.next_peel s.pending }) wrong in
      rw (open_job, other, waits, ap (λ x. x.1) fails, ap (λ x. x.0) fails, drain_pending) refl

  -- So what follows a peel is an error.
  after_apply_wrong :
      (run : DealSession → DealSession × Reply) (s : DealSession) (msg : PeelMessage)
      → job_complete s ≡ false
      → is_local_turn s ≡ false
      → lookup s.next_peel s.pending ≡ some msg
      → verify sha256 (peel_message_to_pd msg) s.p s.session_id ≡ false
      → after_apply sha256 run s ≡ (record s { pending = delete s.next_peel s.pending }, refused)
  unfolding after_apply
  after_apply_wrong run s msg open_job other waits wrong =
      let drained = drain_wrong (length s.peelers) s msg open_job other waits wrong in
      rw (ap (λ x. x.1) drained, ap (λ x. x.0) drained, after_apply) refl

  module _ (s : DealSession) where
    -- The session once the node's own peel is applied.
    abbrev pub own_applied : PeelMessage → ℕ → DealSession
    own_applied own next = record s {
      applied = insert s.next_peel own s.applied;
      current = next;
      next_peel = suc s.next_peel;
    }

    apply_own :
        (own : PeelMessage) (next : ℕ)
        → peeler_index s.peelers own.player_id ≡ some s.next_peel
        → verify_and_apply sha256 s.current (peel_message_to_pd own) s.p s.session_id ≡ some next
        → apply_incoming sha256 own s ≡ (own_applied own next, true)
    unfolding apply_incoming
    apply_own own next at e = rw (e, at, apply_incoming) refl

    -- It is another player's turn then, and the job is not complete.
    next_turn :
        (own : PeelMessage) (next id : ℕ)
        → get_elem? s.peelers (suc s.next_peel) ≡ some id
        → id ≢ s.kr.local_id
        → (job_complete (own_applied own next) ≡ false)
          × (is_local_turn (own_applied own next) ≡ false)
    unfolding job_complete is_local_turn
    next_turn own next id at other =
        (leb-length s.peelers (suc s.next_peel) id at, ground (arith, at, other))

    -- It is the node's turn; it makes its peel, which is verified, and applies it. The next peeler, another
    -- player, has already sent a message that is kept and whose proof fails. Then the call returns an error
    -- and no message: the own peel counts as done here, the kept message is dropped, and the outbound
    -- messages are as before, so the own peel is neither returned nor queued. The peelers all differ.
    pub own_peel_lost :
        (draw : ℕ → ℕ) (fuel : ℕ) (pd : PartialDecryption) (next id : ℕ) (msg : PeelMessage)
        → AllDiffer s.peelers
        → is_local_turn s ≡ true
        → peel sha256 s.kr.local s.current s.card_index s.kr.local_id s.session_id
            (draw s.card_index)
          ≡ some pd
        → verify_and_apply sha256 s.current
            (peel_message_to_pd (peel_message_from_pd s.hand_num pd))
            s.p
            s.session_id
          ≡ some next
        → get_elem? s.peelers (suc s.next_peel) ≡ some id
        → id ≢ s.kr.local_id
        → lookup (suc s.next_peel) s.pending ≡ some msg
        → verify sha256 (peel_message_to_pd msg) s.p s.session_id ≡ false
        → let r = execute_local sha256 draw (suc fuel) s in
          (r ≡ (
            record s {
              applied = insert s.next_peel (peel_message_from_pd s.hand_num pd) s.applied;
              current = next;
              next_peel = suc s.next_peel;
              pending = delete (suc s.next_peel) s.pending;
            },
            refused,
          ))
          × (r.0.outbound ≡ s.outbound)
    unfolding execute_local is_local_turn
    own_peel_lost draw fuel pd next id msg differ turn peeled verified after other waits wrong =
        let own = peel_message_from_pd s.hand_num pd in
        let t = own_applied own next in
        let run = execute_local sha256 draw fuel in
        let whose =
          peel-player sha256 s.kr.local s.current s.card_index s.kr.local_id s.session_id
            (draw s.card_index) s.hand_num pd peeled in
        let at =
          turn-peeler_index s.peelers s.next_peel own.player_id differ
            (get_elem?_turn s.peelers s.next_peel s.kr.local_id turn ∙ ap some (sym whose)) in
        let applied = apply_own own next at verified in
        let (more, theirs) = next_turn own next id after other in
        let lost = after_apply_wrong run t msg more theirs waits wrong in
        let result : execute_local sha256 draw (suc fuel) s
            ≡ (record t { pending = delete (suc s.next_peel) s.pending }, refused) =
          rw (turn, peeled, ap (λ x. x.1) applied, ap (λ x. x.0) applied, execute_local)
            (ap (send_then own) lost) in
        (result, ap (λ (r : DealSession × Reply). r.0.outbound) result)
