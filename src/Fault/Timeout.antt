-- ===== src/Fault/Timeout.antt =====
-- internal/fault/timeout.go: the votes on whether a peer has timed out. Peers are numbers, and the
-- time is a number of nanoseconds that each call is given. The callback is a result: the peer for
-- which OnConfirmed is called.
pub mod Votes
use decentralized_poker_engi.Common.{
  ℕ, suc, ◌+◌, ◌-◌, ◌*◌, ◌/◌, Bool, true, false, Option, none, some, List, [], ◌∷◌, ltb, leb, ◌==◌,
  length, if◌then◌else◌,
}
use decentralized_poker_engi.Common.Maps.{lookup, insert}

pub data VoteStatus : Type 0 where
  pending confirmed rejected : VoteStatus

pub record TimeoutVote : Type 0 where
  pub votes : List (ℕ × Bool)
  pub total_voters : ℕ
  pub status : VoteStatus
  pub created_at : ℕ

abbrev pub is_pending : VoteStatus → Bool
is_pending pending = true
is_pending _ = false

-- The loop that counts the votes for a timeout; YesCount is the same loop.
abbrev pub yes_count : List (ℕ × Bool) → ℕ
yes_count [] = 0
yes_count ((voter, agrees) ∷ vs) = let rest = yes_count vs in if agrees then suc rest else rest

-- `int(float64(n) * (2.0 / 3.0) + 0.5)`: two thirds of `n` have no fraction of a half, so this is
-- the number nearest to them, and at least 1.
unfoldable pub vote_threshold : ℕ → ℕ
vote_threshold n = let t = (4 * n + 3) / 6 in if ltb t 1 then 1 else t

unfoldable pub status_after : List (ℕ × Bool) → ℕ → VoteStatus
status_after votes n =
    if leb (vote_threshold n) (yes_count votes)
    then confirmed
    else if length votes == n
    then rejected
    else pending

unfoldable pub add_vote : ℕ → Bool → TimeoutVote → TimeoutVote
add_vote voter agrees tv =
    let votes' = insert voter agrees tv.votes in
    if is_pending tv.status
    then record tv { votes = votes'; status = status_after votes' tv.total_voters }
    else tv

-- `total_peers - 1` is never compared below 0: the threshold is at least 1, and a vote is counted
-- before the number of votes is compared.
pub record TimeoutManager : Type 0 where
  pub total_peers : ℕ
  pub votes : List (ℕ × TimeoutVote)
  pub vote_expiry : ℕ

-- 30 seconds, where no expiry is given.
unfoldable pub new_timeout_manager : ℕ → ℕ → TimeoutManager
new_timeout_manager peers expiry = record {
  total_peers = peers;
  votes = [];
  vote_expiry = if expiry == 0 then 30000000000 else expiry;
}

unfoldable pub new_vote : TimeoutManager → ℕ → TimeoutVote
new_vote tm now = record {
  votes = [];
  total_voters = tm.total_peers - 1;
  status = pending;
  created_at = now;
}

abbrev pub is_confirmed : VoteStatus → Bool
is_confirmed confirmed = true
is_confirmed _ = false

-- The target, where its vote has just been confirmed.
abbrev confirmation : ℕ → TimeoutVote → Option ℕ
confirmation target tv = if is_confirmed tv.status then some target else none

-- A vote of `voter` on the vote `tv` about `target`, as both callers make it.
unfoldable pub cast : TimeoutManager → ℕ → ℕ → Bool → TimeoutVote → TimeoutManager × Option ℕ
cast tm target voter agrees tv =
    let tv' = add_vote voter agrees tv in
    (record tm { votes = insert target tv' tm.votes }, confirmation target tv')

unfoldable pub start_vote : TimeoutManager → ℕ → ℕ → ℕ → TimeoutManager × Option ℕ
start_vote tm target caller now = elim (lookup target tm.votes) [
  | none ↦ cast tm target caller true (new_vote tm now)
  | some tv ↦
      if is_pending tv.status then (tm, none) else cast tm target caller true (new_vote tm now)
]

unfoldable pub record_vote : TimeoutManager → ℕ → ℕ → Bool → ℕ → TimeoutManager × Option ℕ
record_vote tm target voter agrees now = elim (lookup target tm.votes) [
  | none ↦ cast tm target voter agrees (new_vote tm now)
  | some tv ↦ if is_pending tv.status then cast tm target voter agrees tv else (tm, none)
]

-- The loop of ExpireStaleVotes: a pending vote made before the cutoff is rejected.
unfoldable pub expire : ℕ → ℕ → List (ℕ × TimeoutVote) → List (ℕ × TimeoutVote)
expire now expiry [] = []
expire now expiry ((id, tv) ∷ vs) =
    let rest = expire now expiry vs in
    let stale = ltb (tv.created_at + expiry) now in
    if is_pending tv.status
    then (if stale then (id, record tv { status = rejected }) ∷ rest else (id, tv) ∷ rest)
    else (id, tv) ∷ rest

unfoldable pub expire_stale_votes : ℕ → TimeoutManager → TimeoutManager
expire_stale_votes now tm = record tm { votes = expire now tm.vote_expiry tm.votes }
