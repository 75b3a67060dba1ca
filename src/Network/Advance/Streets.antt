-- ===== src/Network/Advance/Streets.antt =====
-- The street that the machine waits for, and the jobs of the deal session for it.
use decentralized_poker_engi.Common.{
  ℕ, ◌≤◌, ◌≡◌, ◌≢◌, sym, ◌∙◌, arith, inl, inr, Option-cases, none, some, List, length, ◌==◌,
  if◌then◌else◌,
}
use decentralized_poker_engi.Game.State.{GameState}
use decentralized_poker_engi.Game.Machine.Crypto.{machine_pending_street}
use decentralized_poker_engi.Crypto.Deal.{flop_indexes, turn_index, river_index}
use decentralized_poker_engi.Crypto.DealSession.{PeelJob, street_flop}
use decentralized_poker_engi.Crypto.DealSession.Jobs.{street_jobs}
use decentralized_poker_engi.Network.CryptoHand.Deals.{street_from_pending}

street_jobs-length :
    (n street : ℕ) (jobs : List PeelJob)
    → street_jobs n street ≡ some jobs
    → length jobs ≡ (if street == street_flop then 3 else 1)
unfolding street_jobs flop_indexes turn_index river_index
street_jobs-length n street jobs h = ground (arith, h)

street_from_pending_count :
    (s : GameState) (street : ℕ)
    → street_from_pending s ≡ some street
    → machine_pending_street s ≡ (if street == street_flop then 3 else 1)
unfolding street_from_pending
street_from_pending_count s street h = ground (arith, h)

street_jobs_there :
    (n : ℕ) (s : GameState) (street : ℕ)
    → 2 ≤ n
    → street_from_pending s ≡ some street
    → street_jobs n street ≢ none
unfolding street_from_pending street_jobs flop_indexes turn_index river_index
street_jobs_there n s street h from e = ground (arith, h, from, e)

-- For the street that the machine waits for, a session of two seats or more has jobs, and as many of
-- them as ApplyStreet wants cards.
pub street_from_pending-street_jobs :
    (n : ℕ) (s : GameState) (street : ℕ)
    → 2 ≤ n
    → street_from_pending s ≡ some street
    → (jobs : List PeelJob) × (street_jobs n street ≡ some jobs)
      × (length jobs ≡ machine_pending_street s)
street_from_pending-street_jobs n s street h from = elim (Option-cases (street_jobs n street)) [
  | inl e ↦ absurd (street_jobs_there n s street h from e)
  | inr (jobs, e) ↦
      (jobs, e, street_jobs-length n street jobs e ∙ sym (street_from_pending_count s street from))
]
