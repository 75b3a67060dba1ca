-- ===== src/Crypto/ShuffleSession/Order.antt =====
-- The messages that a session adopts: one of each seat, in seat order, with a commitment that holds.
use decentralized_poker_engi.Common.{
  ℕ, zero, suc, ◌≤◌, ◌≡◌, ◌≢◌, refl, sym, ap, ◌∙◌, arith, Bool, Bool-cases, true, false, inl, inr,
  Option-cases, some, List, [], ◌∷◌, get_elem?, get_or, ◌==◌, ==_iff,
}
use decentralized_poker_engi.Common.Maps.{
  lookup, insert, delete, lookup-insert, Entries, Entries-lookup, Entries-delete,
}
use decentralized_poker_engi.Crypto.Keyring.{seats}
use decentralized_poker_engi.Crypto.Shuffle.{ShuffleStep, execute_step}
use decentralized_poker_engi.Crypto.ShuffleSession.{
  ShuffleSession, ShuffleMessage, done, shuffle_message_from_step, is_verified, verify_and_adopt,
  drain_pending, execute_local, after_apply, is_local_turn, expected_player,
}

module _ (sha256 : List ℕ → List ℕ) where
  -- The message of seat `i` is from the player of that seat, and its commitment holds.
  abbrev pub IsFrom : List ℕ → ℕ → ShuffleMessage → Type 0
  IsFrom order i m = (get_elem? order i ≡ some m.player_id) × (is_verified sha256 m ≡ true)

  -- The seats below `n` have such messages.
  abbrev pub AppliedTo : List ℕ → List (ℕ × ShuffleMessage) → ℕ → Type 0
  AppliedTo order applied zero = Unit {0}
  AppliedTo order applied (suc n) =
      ((m : ShuffleMessage) × (lookup n applied ≡ some m) × IsFrom order n m)
      × AppliedTo order applied n

  abbrev pub IsFirst : Bool → List ℕ → List ℕ → Type 0
  IsFirst true current initial = current ≡ initial
  IsFirst false current initial = Unit {0}

  -- The deck is that of the last such message, and before any, once started, the initial one.
  abbrev pub IsCurrent : ℕ → Bool → List ℕ → List ℕ → List (ℕ × ShuffleMessage) → Type 0
  IsCurrent zero started current initial applied = IsFirst started current initial
  IsCurrent (suc n) started current initial applied =
      (m : ShuffleMessage) × (lookup n applied ≡ some m) × (current ≡ m.output_deck)

  -- A message that waits is from the player of its seat.
  abbrev pub IsWaiting : List ℕ → List (ℕ × ShuffleMessage) → Type 0
  IsWaiting order = Entries (λ i m. get_elem? order i ≡ some m.player_id)

  pub record IsSound (s : ShuffleSession) : Type 0 where
    pub named : s.kr.local_id ≢ 0
    pub applied_to : AppliedTo s.kr.order s.applied s.next_index
    pub waiting : IsWaiting s.kr.order s.pending
    pub current_is : IsCurrent s.next_index s.started s.current s.initial s.applied

  AppliedTo-insert :
      (order : List ℕ) (k n : ℕ) (m : ShuffleMessage) (applied : List (ℕ × ShuffleMessage))
      → n ≤ k
      → AppliedTo order applied n
      → AppliedTo order (insert k m applied) n
  AppliedTo-insert order k zero m applied h a = tt
  AppliedTo-insert order k (suc n) m applied h ((m', at, from), a) = (
    (m', ground (arith, lookup-insert k n m applied), from),
    AppliedTo-insert order k n m applied (omega arith) a,
  )

  pub verify_and_adopt-IsSound :
      (msg : ShuffleMessage) (s : ShuffleSession)
      → get_elem? s.kr.order s.next_index ≡ some msg.player_id
      → IsSound s
      → IsSound (verify_and_adopt sha256 msg s).0
  unfolding verify_and_adopt
  verify_and_adopt-IsSound msg s at sound = elim (Bool-cases (is_verified sha256 msg)) [
    | inl e ↦
        let inserted : lookup s.next_index (insert s.next_index msg s.applied) ≡ some msg =
          ground (arith, lookup-insert s.next_index s.next_index msg s.applied) in
        rw (e, verify_and_adopt)
          (record {
            named = sound.named;
            applied_to = (
              (msg, inserted, (at, e)),
              AppliedTo-insert s.kr.order s.next_index s.next_index msg s.applied (omega arith)
                  sound.applied_to,
            );
            waiting = sound.waiting;
            current_is = (msg, inserted, refl);
          })
    | inr e ↦ rw (e, verify_and_adopt) sound
  ]

  drain_pending-IsSound :
      (fuel : ℕ) (s : ShuffleSession) → IsSound s → IsSound (drain_pending sha256 fuel s).0
  unfolding drain_pending
  drain_pending-IsSound zero s sound = sound
  drain_pending-IsSound (suc fuel) s sound = elim (Bool-cases (done s)) [
    | inl e ↦ rw (e, drain_pending) sound
    | inr e ↦ elim (Bool-cases (is_local_turn s)) [
      | inl f ↦ rw (e, f, drain_pending) sound
      | inr f ↦ elim (Option-cases (lookup s.next_index s.pending)) [
        | inl g ↦ rw (e, f, g, drain_pending) sound
        | inr (msg, g) ↦
            let waits = record s { pending = delete s.next_index s.pending } in
            let next = verify_and_adopt sha256 msg waits in
            let fits =
              Entries-lookup (λ i m. get_elem? s.kr.order i ≡ some m.player_id) s.next_index msg
                s.pending g sound.waiting in
            let rest =
              Entries-delete (λ i m. get_elem? s.kr.order i ≡ some m.player_id)
                (λ i m. get_elem? s.kr.order i ≡ some m.player_id) s.next_index s.pending
                (λ j v other same. same) sound.waiting in
            let sound' : IsSound next.0 = verify_and_adopt-IsSound msg waits fits (record {
              named = sound.named;
              applied_to = sound.applied_to;
              waiting = rest;
              current_is = sound.current_is;
            }) in
            elim (Bool-cases next.1) [
              | inl h ↦ rw (e, f, g, h, drain_pending) (drain_pending-IsSound fuel next.0 sound')
              | inr h ↦ rw (e, f, g, h, drain_pending) sound'
            ]
      ]
    ]
  ]

  execute_step-player :
      (s : ShuffleSession) (swaps : List (ℕ × ℕ)) (nonce : List ℕ) (step : ShuffleStep)
      → execute_step sha256 s.proto s.kr.local_id s.current s.kr.local swaps nonce ≡ some step
      → step.player_id ≡ s.kr.local_id
  unfolding execute_step
  execute_step-player s swaps nonce step h = ground arith

  get_or-get_elem? :
      (xs : List ℕ) (i a : ℕ) → a ≢ 0 → (get_or xs i 0 == a) ≡ true → get_elem? xs i ≡ some a
  get_or-get_elem? [] i a n h = absurd (ground arith)
  get_or-get_elem? (x ∷ xs) zero a n h = ap some ((==_iff x a).0 h)
  get_or-get_elem? (x ∷ xs) (suc i) a n h = get_or-get_elem? xs i a n h

  pub execute_local-IsSound :
      (swaps : List (ℕ × ℕ)) (nonce : List ℕ) (s : ShuffleSession)
      → IsSound s
      → IsSound (execute_local sha256 swaps nonce s).0
  unfolding execute_local is_local_turn expected_player shuffle_message_from_step
  execute_local-IsSound swaps nonce s sound = elim (Bool-cases (is_local_turn s)) [
    | inr e ↦ rw (e, execute_local) sound
    | inl e ↦
        elim (Option-cases
          (execute_step sha256 s.proto s.kr.local_id s.current s.kr.local swaps nonce)) [
            | inl f ↦ rw (e, f, execute_local) sound
            | inr (step, f) ↦
                let msg = shuffle_message_from_step s.hand_num step in
                let own = record s { local_perm = step.permutation } in
                let next = verify_and_adopt sha256 msg own in
                let sound' : IsSound next.0 =
                  verify_and_adopt-IsSound msg own
                    (get_or-get_elem? s.kr.order s.next_index s.kr.local_id sound.named e
                      ∙ ap some (sym (execute_step-player s swaps nonce step f)))
                    (record {
                      named = sound.named;
                      applied_to = sound.applied_to;
                      waiting = sound.waiting;
                      current_is = sound.current_is;
                    }) in
                elim (Bool-cases next.1) [
                  | inr g ↦ rw (e, f, g, execute_local) sound'
                  | inl g ↦
                      rw (e, f, g, execute_local)
                        (drain_pending-IsSound (suc (seats next.0.kr)) next.0 sound')
                ]
          ]
  ]

  pub after_apply-IsSound :
      (swaps : List (ℕ × ℕ)) (nonce : List ℕ) (s : ShuffleSession)
      → IsSound s
      → IsSound (after_apply sha256 swaps nonce s).0
  unfolding after_apply
  after_apply-IsSound swaps nonce s sound =
      let drained = drain_pending sha256 (suc (seats s.kr)) s in
      let sound' = drain_pending-IsSound (suc (seats s.kr)) s sound in
      ground (arith, sound', execute_local-IsSound swaps nonce drained.0 sound')
