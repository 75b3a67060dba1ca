-- ===== src/Fault/Timeout/Votes.antt =====
-- What the votes on a timeout decide.
use decentralized_poker_engi.Common.{
  ℕ, ◌-◌, ◌*◌, ◌≤◌, ◌<◌, ◌≡◌, refl, arith, Bool, true, none, some, List, [], ◌∷◌, All, inl, inr,
  Option-cases, Bool-cases,
}
use decentralized_poker_engi.Common.Maps.{lookup, insert}
use decentralized_poker_engi.Fault.Timeout.{
  VoteStatus, pending, confirmed, rejected, TimeoutVote, TimeoutManager, is_pending, yes_count,
  vote_threshold, status_after, add_vote, new_vote, cast, start_vote, record_vote,
}

-- What a status says of the votes: a confirmed vote has the threshold of votes for the timeout, and
-- a pending one has fewer.
abbrev pub Counted : VoteStatus → ℕ → ℕ → Type 0
Counted confirmed threshold ayes = threshold ≤ ayes
Counted pending threshold ayes = ayes < threshold
Counted rejected threshold ayes = Unit {0}

abbrev pub IsCounted : TimeoutVote → Type 0
IsCounted tv = Counted tv.status (vote_threshold tv.total_voters) (yes_count tv.votes)

add_vote-IsCounted :
    (voter : ℕ) (agrees : Bool) (tv : TimeoutVote)
    → IsCounted tv
    → IsCounted (add_vote voter agrees tv)
unfolding add_vote status_after
add_vote-IsCounted voter agrees tv v = ground arith

threshold_pos : (n : ℕ) → 0 < vote_threshold n
unfolding vote_threshold
threshold_pos n = ground arith

new_vote-IsCounted : (tm : TimeoutManager) (now : ℕ) → IsCounted (new_vote tm now)
unfolding new_vote
new_vote-IsCounted tm now = threshold_pos (tm.total_peers - 1)

abbrev pub AllCounted : TimeoutManager → Type 0
AllCounted tm = All (λ e. IsCounted e.1) tm.votes

insert-AllCounted :
    (k : ℕ) (tv : TimeoutVote) (vs : List (ℕ × TimeoutVote))
    → IsCounted tv
    → All (λ e. IsCounted e.1) vs
    → All (λ e. IsCounted e.1) (insert k tv vs)
insert-AllCounted k tv [] v all = (v, tt)
insert-AllCounted k tv ((j, w) ∷ vs) v all = ground (arith, insert-AllCounted k tv vs v all.1)

lookup-IsCounted :
    (k : ℕ) (tv : TimeoutVote) (vs : List (ℕ × TimeoutVote))
    → All (λ e. IsCounted e.1) vs
    → lookup k vs ≡ some tv
    → IsCounted tv
lookup-IsCounted k tv [] all e = cc
lookup-IsCounted k tv ((j, w) ∷ vs) all e = ground (arith, lookup-IsCounted k tv vs all.1)

cast-AllCounted :
    (tm : TimeoutManager) (target voter : ℕ) (agrees : Bool) (tv : TimeoutVote)
    → AllCounted tm
    → IsCounted tv
    → AllCounted (cast tm target voter agrees tv).0
unfolding cast
cast-AllCounted tm target voter agrees tv all v =
    insert-AllCounted target (add_vote voter agrees tv) tm.votes
      (add_vote-IsCounted voter agrees tv v) all

-- Starting a vote keeps every vote of the manager counted: a confirmed one has the threshold of
-- votes for the timeout, a pending one has fewer.
pub start_vote-AllCounted :
    (tm : TimeoutManager) (target caller now : ℕ)
    → AllCounted tm
    → AllCounted (start_vote tm target caller now).0
unfolding start_vote
start_vote-AllCounted tm target caller now all =
    let begun =
      cast-AllCounted tm target caller true (new_vote tm now) all (new_vote-IsCounted tm now) in
    elim (Option-cases (lookup target tm.votes)) [
      | inl e ↦ rw (e, start_vote) begun
      | inr (tv, e) ↦ elim (Bool-cases (is_pending tv.status)) [
        | inl open_vote ↦ rw (e, start_vote) (rw open_vote all)
        | inr over ↦ rw (e, start_vote) (rw over begun)
      ]
    ]

-- Recording a vote, by anybody, keeps every vote of the manager counted: a confirmed one has the
-- threshold of votes for the timeout, a pending one has fewer.
pub record_vote-AllCounted :
    (tm : TimeoutManager) (target voter : ℕ) (agrees : Bool) (now : ℕ)
    → AllCounted tm
    → AllCounted (record_vote tm target voter agrees now).0
unfolding record_vote
record_vote-AllCounted tm target voter agrees now all =
    let begun =
      cast-AllCounted tm target voter agrees (new_vote tm now) all (new_vote-IsCounted tm now) in
    elim (Option-cases (lookup target tm.votes)) [
      | inl e ↦ rw (e, record_vote) begun
      | inr (tv, e) ↦ elim (Bool-cases (is_pending tv.status)) [
        | inl open_vote ↦
            rw (e, record_vote)
              (rw open_vote (
                cast-AllCounted tm target voter agrees tv all
                  (lookup-IsCounted target tv tm.votes all e)))
        | inr over ↦ rw (e, record_vote) (rw over all)
      ]
    ]

-- With three peers two may vote. Where there is no vote on the target yet, the vote of the one who
-- starts it is enough: it confirms the timeout at once, and is less than two thirds of the voters.
pub three_peers_one_vote :
    (tm : TimeoutManager) (target caller now : ℕ)
    → tm.total_peers ≡ 3
    → lookup target tm.votes ≡ none
    → ((start_vote tm target caller now).1 ≡ some target)
      × (3 * 1 < 2 * (new_vote tm now).total_voters)
unfolding start_vote cast new_vote add_vote status_after vote_threshold
three_peers_one_vote tm target caller now three fresh =
    (rw (fresh, start_vote) (rw three refl), omega arith)
