-- ===== src/Crypto/DealSession/Chain.antt =====
-- The peels that a session applies: one of each peeler, in their order, each verified, and each of the
-- value that the one before it gave.
pub mod Steps
pub mod Calls
use decentralized_poker_engi.Common.{
  ℕ, zero, suc, ◌+◌, ◌≤◌, ◌≡◌, ◌≢◌, refl, sym, ap, subst, ◌∙◌, arith, Bool, Bool-cases, true, false,
  inl, inr, Option-cases, none, some, List, [], ◌∷◌, get_elem?, length, ◌==◌, ==_iff, All,
}
use decentralized_poker_engi.Common.Maps.{
  lookup, insert, delete, lookup-insert, Entries, Entries-lookup, Entries-delete,
}
use decentralized_poker_engi.Crypto.Deal.{verify_and_apply, others, peel_order, peel}
use decentralized_poker_engi.Crypto.Keyring.Seats.{
  AllDiffer, index_of-get_elem?, get_elem?-index_of,
}
use decentralized_poker_engi.Crypto.Zkp.{verify}
use decentralized_poker_engi.Crypto.DealSession.{
  DealSession, PeelMessage, PeelJob, job_complete, peel_message_from_pd, peel_message_to_pd,
}
use decentralized_poker_engi.Crypto.DealSession.Jobs.{install_job}
use decentralized_poker_engi.Crypto.DealSession.Peels.{
  peeler_index, is_local_turn, apply_incoming, drain_pending,
}

-- Once there are peelers, the card is the one of the deck at the index.
abbrev pub IsCard : List ℕ → List ℕ → ℕ → ℕ → Type 0
IsCard [] cards i card = Unit {0}
IsCard (x ∷ xs) cards i card = get_elem? cards i ≡ some card

-- A message that waits is from the peeler at its place.
abbrev pub IsWaiting : List ℕ → List (ℕ × PeelMessage) → Type 0
IsWaiting peelers = Entries (λ i m. peeler_index peelers m.player_id ≡ some i)

module _ (sha256 : List ℕ → List ℕ) where
  -- From the card, the peels of the first `n` peelers lead to the value.
  abbrev pub LeadsTo : ℕ → List ℕ → List ℕ → List (ℕ × PeelMessage) → ℕ → ℕ → ℕ → Type 0
  LeadsTo p session_id peelers applied card zero value = card ≡ value
  LeadsTo p session_id peelers applied card (suc n) value =
      (m : PeelMessage) × (lookup n applied ≡ some m)
      × (get_elem? peelers n ≡ some m.player_id)
      × (verify sha256 (peel_message_to_pd m) p session_id ≡ true)
      × (m.result ≡ value)
      × LeadsTo p session_id peelers applied card n m.ciphertext

  pub record IsChain (order cards : List ℕ) (p : ℕ) (session_id : List ℕ) (card_index : ℕ)
      (peelers : List ℕ) (next_peel current : ℕ) (pending applied : List (ℕ × PeelMessage))
      : Type 0 where
    pub order_differ : AllDiffer order
    pub peelers_differ : AllDiffer peelers
    pub waiting : IsWaiting peelers pending
    pub card : ℕ
    pub is_card : IsCard peelers cards card_index card
    pub leads_to : LeadsTo p session_id peelers applied card next_peel current

  abbrev pub IsSound : DealSession → Type 0
  IsSound s =
      IsChain s.kr.order s.cards s.p s.session_id s.card_index s.peelers s.next_peel s.current
        s.pending s.applied

  LeadsTo-insert :
      (p : ℕ) (sid peelers : List ℕ) (applied : List (ℕ × PeelMessage)) (card k n value : ℕ)
      (m : PeelMessage)
      → n ≤ k
      → LeadsTo p sid peelers applied card n value
      → LeadsTo p sid peelers (insert k m applied) card n value
  LeadsTo-insert p sid peelers applied card k zero value m h l = l
  LeadsTo-insert p sid peelers applied card k (suc n) value m h (m', at, from, ok, is, l) = (
    m',
    ground (arith, lookup-insert k n m applied),
    from,
    ok,
    is,
    LeadsTo-insert p sid peelers applied card k n m'.ciphertext m (omega arith) l,
  )

  verify_and_apply_lem :
      (s : DealSession) (msg : PeelMessage) (next : ℕ)
      → verify_and_apply sha256 s.current (peel_message_to_pd msg) s.p s.session_id ≡ some next
      → (verify sha256 (peel_message_to_pd msg) s.p s.session_id ≡ true)
        × (s.current ≡ msg.ciphertext)
        × (msg.result ≡ next)
  unfolding verify_and_apply peel_message_to_pd
  verify_and_apply_lem s msg next h = ground arith

  peeler_at :
      (peelers : List ℕ) (id i : ℕ)
      → peeler_index peelers id ≡ some i
      → get_elem? peelers i ≡ some id
  unfolding peeler_index
  peeler_at peelers id i h =
      let (j, at, is) = index_of-get_elem? 0 id i peelers h in
      ap (get_elem? peelers) (let e : i ≡ j = omega (arith, at) in e) ∙ is

  -- The session once a verified message of the next peeler is applied.
  applied_next :
      (msg : PeelMessage) (s : DealSession) (next : ℕ)
      → peeler_index s.peelers msg.player_id ≡ some s.next_peel
      → verify_and_apply sha256 s.current (peel_message_to_pd msg) s.p s.session_id ≡ some next
      → IsSound s
      → IsChain s.kr.order s.cards s.p s.session_id s.card_index s.peelers
          (suc s.next_peel)
          next
          s.pending
          (insert s.next_peel msg s.applied)
  applied_next msg s next at e sound =
      let (ok, from, is) = verify_and_apply_lem s msg next e in
      let inserted : lookup s.next_peel (insert s.next_peel msg s.applied) ≡ some msg =
        ground (arith, lookup-insert s.next_peel s.next_peel msg s.applied) in
      let before =
        LeadsTo-insert s.p s.session_id s.peelers s.applied sound.card s.next_peel s.next_peel
          s.current msg (omega arith) sound.leads_to in
      record {
        order_differ = sound.order_differ;
        peelers_differ = sound.peelers_differ;
        waiting = sound.waiting;
        card = sound.card;
        is_card = sound.is_card;
        leads_to = (
          msg,
          inserted,
          peeler_at s.peelers msg.player_id s.next_peel at,
          ok,
          is,
          subst
              (λ (t : ℕ).
                LeadsTo s.p s.session_id s.peelers (insert s.next_peel msg s.applied) sound.card
                  s.next_peel t)
              from before,
        );
      }

  pub apply_incoming-IsSound :
      (msg : PeelMessage) (s : DealSession)
      → peeler_index s.peelers msg.player_id ≡ some s.next_peel
      → IsSound s
      → IsSound (apply_incoming sha256 msg s).0
  unfolding apply_incoming
  apply_incoming-IsSound msg s at sound =
      elim (Option-cases
        (verify_and_apply sha256 s.current (peel_message_to_pd msg) s.p s.session_id)) [
          | inl e ↦ rw (e, apply_incoming) sound
          | inr (next, e) ↦ rw (e, at, apply_incoming) (applied_next msg s next at e sound)
        ]

  -- A message is taken out of the waiting ones.
  taken :
      (s : DealSession) (k : ℕ) → IsSound s → IsSound (record s { pending = delete k s.pending })
  taken s k sound = record {
    order_differ = sound.order_differ;
    peelers_differ = sound.peelers_differ;
    waiting =
        Entries-delete (λ i m. peeler_index s.peelers m.player_id ≡ some i)
          (λ i m. peeler_index s.peelers m.player_id ≡ some i) k s.pending (λ j v other same. same)
          sound.waiting;
    card = sound.card;
    is_card = sound.is_card;
    leads_to = sound.leads_to;
  }

  pub drain_pending-IsSound :
      (fuel : ℕ) (s : DealSession) → IsSound s → IsSound (drain_pending sha256 fuel s).0
  unfolding drain_pending
  drain_pending-IsSound zero s sound = sound
  drain_pending-IsSound (suc fuel) s sound = elim (Bool-cases (job_complete s)) [
    | inl e ↦ rw (e, drain_pending) sound
    | inr e ↦ elim (Bool-cases (is_local_turn s)) [
      | inl f ↦ rw (e, f, drain_pending) sound
      | inr f ↦ elim (Option-cases (lookup s.next_peel s.pending)) [
        | inl g ↦ rw (e, f, g, drain_pending) sound
        | inr (msg, g) ↦
            let waits = record s { pending = delete s.next_peel s.pending } in
            let next = apply_incoming sha256 msg waits in
            let fits =
              Entries-lookup (λ i m. peeler_index s.peelers m.player_id ≡ some i) s.next_peel msg
                s.pending g sound.waiting in
            let sound' = apply_incoming-IsSound msg waits fits (taken s s.next_peel sound) in
            elim (Bool-cases next.1) [
              | inl h ↦ rw (e, f, g, h, drain_pending) (drain_pending-IsSound fuel next.0 sound')
              | inr h ↦ rw (e, f, g, h, drain_pending) sound'
            ]
      ]
    ]
  ]

others-All : (r x : ℕ) (xs : List ℕ) → All (λ y. y ≢ x) xs → All (λ y. y ≢ x) (others r xs).0
unfolding others
others-All r x [] a = tt
others-All r x (y ∷ ys) a = elim (Bool-cases (y == r)) [
  | inl e ↦ rw (e, others) (others-All r x ys a.1)
  | inr e ↦ rw (e, others) (a.0, others-All r x ys a.1)
]

others-AllDiffer : (r : ℕ) (xs : List ℕ) → AllDiffer xs → AllDiffer (others r xs).0
unfolding others
others-AllDiffer r [] d = tt
others-AllDiffer r (y ∷ ys) d = elim (Bool-cases (y == r)) [
  | inl e ↦ rw (e, others) (others-AllDiffer r ys d.1)
  | inr e ↦ rw (e, others) (others-All r y ys d.0, others-AllDiffer r ys d.1)
]

peel_order-AllDiffer :
    (xs ys : List ℕ) (r : ℕ) → AllDiffer xs → peel_order xs r ≡ some ys → AllDiffer ys
unfolding peel_order
peel_order-AllDiffer xs ys r d h = ground (arith, d, others-AllDiffer r xs d)

IsCard_intro :
    (peelers cards : List ℕ) (i card : ℕ)
    → get_elem? cards i ≡ some card
    → IsCard peelers cards i card
IsCard_intro [] cards i card h = tt
IsCard_intro (x ∷ xs) cards i card h = h

pub install_job-IsSound :
    (sha256 : List ℕ → List ℕ) (j : PeelJob) (s t : DealSession)
    → install_job j s ≡ some t
    → IsSound sha256 s
    → IsSound sha256 t
unfolding install_job
install_job-IsSound sha256 j s t h sound = elim (Option-cases (get_elem? s.cards j.card_index)) [
  | inl e ↦ absurd (ground (arith, e))
  | inr (card, e) ↦ elim (Option-cases (peel_order s.kr.order j.recipient)) [
    | inl f ↦ absurd (ground (arith, e, f))
    | inr (peelers, f) ↦ elim (Bool-cases (length peelers == 0)) [
      | inl g ↦ absurd (ground (arith, e, f, g))
      | inr g ↦
          let installed : record s {
            job_kind = j.kind;
            card_index = j.card_index;
            recipient = j.recipient;
            peelers = peelers;
            next_peel = 0;
            current = card;
            pending = [];
            applied = [];
            current_job = j;
          }
              ≡ t =
            ground (arith, e, f, g) in
          subst (IsSound sha256) installed (record {
            order_differ = sound.order_differ;
            peelers_differ =
                peel_order-AllDiffer s.kr.order peelers j.recipient sound.order_differ f;
            waiting = tt;
            card = card;
            is_card = IsCard_intro peelers s.cards j.card_index card e;
            leads_to = refl;
          })
    ]
  ]
]

-- The peeler whose turn it is has the place of the next peel.
pub turn-peeler_index :
    (xs : List ℕ) (i id : ℕ) → AllDiffer xs → get_elem? xs i ≡ some id → peeler_index xs id ≡ some i
unfolding peeler_index
turn-peeler_index xs i id d h = get_elem?-index_of 0 xs i id d h ∙ ap some (omega arith)

pub get_elem?_turn :
    (xs : List ℕ) (i a : ℕ)
    → (elim (get_elem? xs i) [ none ↦ false | some id ↦ id == a ]) ≡ true
    → get_elem? xs i ≡ some a
get_elem?_turn [] i a h = absurd (ground arith)
get_elem?_turn (x ∷ xs) zero a h = ap some ((==_iff x a).0 h)
get_elem?_turn (x ∷ xs) (suc i) a h = get_elem?_turn xs i a h
