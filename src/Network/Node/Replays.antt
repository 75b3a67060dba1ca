-- ===== src/Network/Node/Replays.antt =====
-- No message of the table topic is delivered twice, and none that is older than one before it.
use decentralized_poker_engi.Common.{
  ℕ, ◌≡◌, ◌≢◌, ◌⊎◌, refl, sym, ap, subst, ◌∙◌, arith, Bool-cases, true, false, inl, inr, Option,
  Option-cases, none, some, List, [], ◌∷◌, ◌==◌, ==_iff, All, if◌then◌else◌,
}
use decentralized_poker_engi.Common.Maps.{lookup, insert, lookup-insert}
use decentralized_poker_engi.Int64.{le64}
use decentralized_poker_engi.Network.Gamelog.{Envelope}
use decentralized_poker_engi.Network.Codec.{Libraries, KeyLookup}
use decentralized_poker_engi.Network.Node.{
  Node, Payloads, heartbeat, update_seq_map, check_and_update_seq, log_it, route, accept, dispatch,
  decode_remote_envelope,
}

-- Later than the number in the map, if there is one.
abbrev pub IsAfter : Option ℕ → ℕ → Type 0
IsAfter none seq = Unit {0}
IsAfter (some last) seq = le64 seq last ≡ false

-- Of two envelopes of one sender the second is later.
abbrev pub Follows : Envelope → Envelope → Type 0
Follows e f = (e.sender_id ≢ f.sender_id) ⊎ (le64 f.seq e.seq ≡ false)

-- Every envelope is later than those of its sender before it.
abbrev pub Rise : List Envelope → Type 0
Rise [] = Unit {0}
Rise (e ∷ es) = All (Follows e) es × Rise es

le64_trans : (a b c : ℕ) → le64 c b ≡ false → le64 b a ≡ false → le64 c a ≡ false
unfolding le64
le64_trans a b c h k = ground arith

-- The numbers that a node has seen only grow.
abbrev Grows : Node → Node → Type 0
Grows n m = (id seq : ℕ) → IsAfter (lookup id m.seq_nums) seq → IsAfter (lookup id n.seq_nums) seq

-- A number that is accepted is later than the last one of its sender, and takes its place.
update-IsAfter :
    (m : List (ℕ × ℕ)) (id seq : ℕ)
    → (update_seq_map m id seq).1 ≡ true
    → IsAfter (lookup id m) seq × ((update_seq_map m id seq).0 ≡ insert id seq m)
unfolding update_seq_map
update-IsAfter m id seq h = elim (Option-cases (lookup id m)) [
  | inl e ↦ rw (e, update_seq_map) (tt, refl)
  | inr (last, e) ↦ elim (Bool-cases (le64 seq last)) [
    | inl f ↦ absurd (ground (arith, e, f))
    | inr f ↦ rw (e, f, update_seq_map) (refl, refl)
  ]
]

update_refused :
    (m : List (ℕ × ℕ)) (id seq : ℕ)
    → (update_seq_map m id seq).1 ≡ false
    → (update_seq_map m id seq).0 ≡ m
unfolding update_seq_map
update_refused m id seq h = ground (arith, h)

-- Later than a new number, so later than the one before it.
older :
    (m : List (ℕ × ℕ)) (id seq other later : ℕ)
    → IsAfter (lookup id m) seq
    → IsAfter (lookup other (insert id seq m)) later
    → IsAfter (lookup other m) later
older m id seq other later new h = elim (Bool-cases (id == other)) [
  | inr e ↦
      subst (λ t. IsAfter t later)
        (lookup-insert id other seq m ∙ ap (λ t. if t then some seq else lookup other m) e) h
  | inl e ↦
      let same : id ≡ other = (==_iff id other).0 e in
      let after =
        subst (λ t. IsAfter t later)
          (lookup-insert id other seq m ∙ ap (λ t. if t then some seq else lookup other m) e) h in
      elim (Option-cases (lookup id m)) [
        | inl f ↦ subst (λ t. IsAfter t later) (sym (ap (λ (t : ℕ). lookup t m) (sym same) ∙ f)) tt
        | inr (last, f) ↦
            subst (λ t. IsAfter t later) (sym (ap (λ (t : ℕ). lookup t m) (sym same) ∙ f))
              (le64_trans last seq later after (subst (λ t. IsAfter t seq) f new))
      ]
]

module _ (lib : Libraries) (payloads : Payloads) (extract : ℕ → KeyLookup) where
  route-seq_nums :
      (env : Envelope) (now : ℕ) (n : Node)
      → (route lib payloads extract env now n).0.seq_nums ≡ n.seq_nums
  unfolding route
  route-seq_nums env now n = ground arith

  route_delivers :
      (env e : Envelope) (now : ℕ) (n : Node)
      → (route lib payloads extract env now n).1 ≡ some e
      → e ≡ env
  unfolding route
  route_delivers env e now n h = ground arith

  -- An envelope is left out, or it is later than all of its sender and noted.
  accept_cases :
      (env : Envelope) (now : ℕ) (n : Node)
      → (((accept lib payloads extract env now n).0.seq_nums ≡ n.seq_nums)
          × ((accept lib payloads extract env now n).1 ≡ none))
        ⊎ (((accept lib payloads extract env now n).0.seq_nums
              ≡ insert env.sender_id env.seq n.seq_nums)
            × IsAfter (lookup env.sender_id n.seq_nums) env.seq)
  unfolding accept check_and_update_seq
  accept_cases env now n = elim (Bool-cases (env.kind == heartbeat)) [
    | inl e ↦ rw (e, accept) (inl (refl, refl))
    | inr e ↦ elim (Bool-cases (update_seq_map n.seq_nums env.sender_id env.seq).1) [
      | inr f ↦ inl (
        ground (arith, e, f, update_refused n.seq_nums env.sender_id env.seq f),
        ground (arith, e, f),
      )
      | inl f ↦
          let (later, noted) = update-IsAfter n.seq_nums env.sender_id env.seq f in
          inr (
            ground (
              arith,
              e,
              f,
              noted,
              route-seq_nums env now (
                  log_it env
                    (record n { seq_nums = (update_seq_map n.seq_nums env.sender_id env.seq).0 })),
            ),
            later,
          )
    ]
  ]

  accept_delivers :
      (env e : Envelope) (now : ℕ) (n : Node)
      → (accept lib payloads extract env now n).1 ≡ some e
      → e ≡ env
  unfolding accept check_and_update_seq
  accept_delivers env e now n h = ground (
    arith,
    route_delivers env e now
        (log_it env (record n { seq_nums = (update_seq_map n.seq_nums env.sender_id env.seq).0 })),
  )

  -- What a step says of the numbers: what is later than them afterwards was later before, and what it
  -- delivers is later than those before, and noted.
  pub record IsStep (n m : Node) (out : Option Envelope) : Type 0 where
    pub grows : Grows n m
    pub delivered :
        (e : Envelope)
        → out ≡ some e
        → IsAfter (lookup e.sender_id n.seq_nums) e.seq
          × (lookup e.sender_id m.seq_nums ≡ some e.seq)

  accept-IsStep :
      (env : Envelope) (now : ℕ) (n : Node)
      → let (m, out) = accept lib payloads extract env now n in IsStep n m out
  accept-IsStep env now n = elim (accept_cases env now n) [
    | inl (same, nothing) ↦ record {
      grows = λ id seq h. subst (λ (t : List (ℕ × ℕ)). IsAfter (lookup id t) seq) same h;
      delivered = λ e h. absurd (ground (arith, nothing, h));
    }
    | inr (noted, later) ↦ record {
      grows = λ id seq h.
          older n.seq_nums env.sender_id env.seq id seq later
            (subst (λ (t : List (ℕ × ℕ)). IsAfter (lookup id t) seq) noted h);
      delivered = λ e h.
          let is : env ≡ e = sym (accept_delivers env e now n h) in
          let known : lookup env.sender_id (accept lib payloads extract env now n).0.seq_nums
              ≡ some env.seq =
            ap (lookup env.sender_id) noted
            ∙ ground (arith, lookup-insert env.sender_id env.sender_id env.seq n.seq_nums) in
          subst
            (λ (t : Envelope).
              IsAfter (lookup t.sender_id n.seq_nums) t.seq
              × (lookup t.sender_id (accept lib payloads extract env now n).0.seq_nums
                  ≡ some t.seq))
            is (later, known);
    }
  ]

  dispatch-IsStep :
      (bytes : List ℕ) (now : ℕ) (n : Node)
      → let (m, out) = dispatch lib payloads extract bytes now n in IsStep n m out
  unfolding dispatch
  dispatch-IsStep bytes now n =
      elim (Option-cases (decode_remote_envelope lib payloads extract bytes n)) [
        | inl e ↦
            rw (e, dispatch)
              (record { grows = λ id seq h. h; delivered = λ e' h. absurd (ground (arith, h)) })
        | inr (env, e) ↦ rw (e, dispatch) (accept-IsStep env now n)
      ]

  -- What is delivered of a run of data, each with the time at which it comes.
  abbrev pub deliver : Option Envelope → List Envelope → List Envelope
  deliver none es = es
  deliver (some e) es = e ∷ es

  abbrev pub run_table : List (List ℕ × ℕ) → Node → List Envelope
  run_table [] n = []
  run_table ((bytes, now) ∷ rest) n =
      let (m, out) = dispatch lib payloads extract bytes now n in deliver out (run_table rest m)

  -- Each is later than the numbers that the node has seen.
  abbrev AllLater : Node → List Envelope → Type 0
  AllLater n = All (λ e. IsAfter (lookup e.sender_id n.seq_nums) e.seq)

  AllLater-Grows : (n m : Node) (es : List Envelope) → Grows n m → AllLater m es → AllLater n es
  AllLater-Grows n m [] g a = tt
  AllLater-Grows n m (e ∷ es) g a = (g e.sender_id e.seq a.0, AllLater-Grows n m es g a.1)

  -- What comes after a delivered envelope follows it.
  All-follow :
      (m : Node) (e : Envelope) (es : List Envelope)
      → lookup e.sender_id m.seq_nums ≡ some e.seq
      → AllLater m es
      → All (Follows e) es
  All-follow m e [] noted a = tt
  All-follow m e (f ∷ es) noted a = (
    elim (Bool-cases (e.sender_id == f.sender_id)) [
      | inr other ↦ inl (λ h. absurd (ground (arith, other, h)))
      | inl same ↦
          let who : f.sender_id ≡ e.sender_id = sym ((==_iff e.sender_id f.sender_id).0 same) in
          inr (subst (λ t. IsAfter t f.seq) (ap (λ (t : ℕ). lookup t m.seq_nums) who ∙ noted) a.0)
    ],
    All-follow m e es noted a.1,
  )

  deliver-Rise :
      (n m : Node) (out : Option Envelope) (es : List Envelope)
      → IsStep n m out
      → Rise es × AllLater m es
      → Rise (deliver out es) × AllLater n (deliver out es)
  deliver-Rise n m none es step (rise, later) = (rise, AllLater-Grows n m es step.grows later)
  deliver-Rise n m (some e) es step (rise, later) =
      let (fresh, noted) = step.delivered e refl in
      ((All-follow m e es noted later, rise), (fresh, AllLater-Grows n m es step.grows later))

  run_table-AllLater :
      (run : List (List ℕ × ℕ)) (n : Node) → Rise (run_table run n) × AllLater n (run_table run n)
  run_table-AllLater [] n = (tt, tt)
  run_table-AllLater ((bytes, now) ∷ rest) n =
      let m = (dispatch lib payloads extract bytes now n).0 in
      deliver-Rise n m (dispatch lib payloads extract bytes now n).1 (run_table rest m)
        (dispatch-IsStep bytes now n) (run_table-AllLater rest m)

  -- Whatever arrives on the table topic, replayed or reordered: of the envelopes that are delivered,
  -- each has a greater sequence number than all of its sender before it, by the signed order.
  pub run_table-Rise : (run : List (List ℕ × ℕ)) (n : Node) → Rise (run_table run n)
  run_table-Rise run n = (run_table-AllLater run n).0
