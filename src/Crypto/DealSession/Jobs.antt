-- ===== src/Crypto/DealSession/Jobs.antt =====
-- internal/crypto/deal_session.go: the jobs of each sequence, and how one is installed.
use decentralized_poker_engi.Common.{
  ℕ, zero, suc, ◌+◌, ◌%◌, Option, none, some, List, [], ◌∷◌, ◌++◌, length, ◌==◌, if◌then◌else◌,
  get_elem?, get_or,
}
use decentralized_poker_engi.Crypto.Deal.{
  hole_card_index, flop_indexes, turn_index, river_index, peel_order,
}
use decentralized_poker_engi.Crypto.Keyring.{seats}
use decentralized_poker_engi.Crypto.DealSession.{
  DealSession, PeelJob, job_hole, job_public, street_flop, street_turn, street_river,
}

-- The inner loop of BeginHoles, `left` rounds from `i`.
unfoldable pub hole_jobs : DealSession → ℕ → ℕ → ℕ → Option (List PeelJob)
hole_jobs s round zero i = some []
hole_jobs s round (suc left) i =
    let rest = hole_jobs s round left (suc i) in
    let player_idx = (s.dealer_idx + 1 + i) % seats s.kr in
    elim (hole_card_index (seats s.kr) s.dealer_idx player_idx round) [
      | none ↦ none
      | some idx ↦ elim rest [
        | none ↦ none
        | some jobs ↦ some (
            record {
              kind = job_hole;
              card_index = idx;
              recipient = get_or s.kr.order player_idx 0;
              round = round;
            }
            ∷ jobs)
      ]
    ]

abbrev pub both_rounds : Option (List PeelJob) → Option (List PeelJob) → Option (List PeelJob)
both_rounds none second = none
both_rounds (some jobs) none = none
both_rounds (some jobs) (some more) = some (jobs ++ more)

abbrev pub public_job : ℕ → ℕ → PeelJob
public_job round idx = record { kind = job_public; card_index = idx; recipient = 0; round = round }

abbrev pub public_jobs : List ℕ → List PeelJob
public_jobs [] = []
public_jobs (idx ∷ idxs) = public_job 0 idx ∷ public_jobs idxs

abbrev pub one_job : Option ℕ → Option (List PeelJob)
one_job none = none
one_job (some idx) = some (public_job 0 idx ∷ [])

-- The switch of BeginStreet.
unfoldable pub street_jobs : ℕ → ℕ → Option (List PeelJob)
street_jobs n street =
    if street == street_flop
    then elim (flop_indexes n) [ none ↦ none | some idxs ↦ some (public_jobs idxs) ]
    else if street == street_turn
    then one_job (turn_index n)
    else if street == street_river
    then one_job (river_index n)
    else none

-- The loop of BeginReveal.
unfoldable pub reveal_jobs : DealSession → ℕ → Option (List PeelJob)
reveal_jobs s player_idx = elim (hole_card_index (seats s.kr) s.dealer_idx player_idx 0) [
  | none ↦ none
  | some first ↦ elim (hole_card_index (seats s.kr) s.dealer_idx player_idx 1) [
    | none ↦ none
    | some second ↦ some (public_job 0 first ∷ public_job 1 second ∷ [])
  ]
]

-- `none` is an error, which leaves the session as it was.
unfoldable pub install_job : PeelJob → DealSession → Option DealSession
install_job j s = elim (get_elem? s.cards j.card_index) [
  | none ↦ none
  | some card ↦ elim (peel_order s.kr.order j.recipient) [
    | none ↦ none
    | some peelers ↦
        if length peelers == 0
        then none
        else some (record s {
          job_kind = j.kind;
          card_index = j.card_index;
          recipient = j.recipient;
          peelers = peelers;
          next_peel = 0;
          current = card;
          pending = [];
          applied = [];
          current_job = j;
        })
  ]
]
