-- ===== src/Network/Tests/Streets.antt =====
-- A hand and a machine that waits for a street, and the results on both applied to them.
use decentralized_poker_engi.Common.{ℕ, ◌≡◌, ◌≢◌, refl, arith, true, none, some, List, [], length}
use decentralized_poker_engi.Game.State.{GameState, awaiting_street}
use decentralized_poker_engi.Game.Machine.Crypto.{machine_pending_street, pending_street_count}
use decentralized_poker_engi.Crypto.DealSession.{PeelJob, street_flop}
use decentralized_poker_engi.Crypto.DealSession.Jobs.{street_jobs}
use decentralized_poker_engi.Crypto.Tests.{hash}
use decentralized_poker_engi.Network.CryptoHand.Deals.{street_from_pending}
use decentralized_poker_engi.Crypto.Tests.Deals.{deal_session, wrong}
use decentralized_poker_engi.Network.CryptoHand.{CryptoHand}
use decentralized_poker_engi.Network.CryptoHand.Invariant.{peeled, operate}
use decentralized_poker_engi.Network.Advance.{Table, exhausted, advance_crypto}
use decentralized_poker_engi.Network.Advance.Ends.{advance_crypto_ends}
use decentralized_poker_engi.Network.Advance.Streets.{street_from_pending-street_jobs}
use decentralized_poker_engi.Network.Tests.Hands.{draws, waiting}

-- The flop is awaited.
abbrev before_flop : GameState
before_flop = record {
  small_blind = 5;
  big_blind = 10;
  players = [];
  dealer_idx = 0;
  action_idx = none;
  last_raiser_idx = none;
  phase = awaiting_street;
  community = [];
  deck = none;
  pots = [];
  current_bet = 0;
  min_raise = 10;
  round_action_count = 0;
  log = [];
  payouts = [];
}

-- A hand whose holes are done.
abbrev dealt_hand : CryptoHand
dealt_hand = record waiting { deal = some (record deal_session { holes_done = true }) }

-- A peel arrives at every time.
abbrev world : ℕ → Table → Table
world i t = (operate hash draws (peeled wrong) t.0, t.1)

advance_crypto_ends_example :
    (advance_crypto hash draws (λ msgs. true) world (dealt_hand, before_flop)).1 ≢ exhausted
advance_crypto_ends_example =
    advance_crypto_ends hash draws (λ msgs. true) world (λ i t. omega arith)
      (dealt_hand, before_flop)

flop_awaited : street_from_pending before_flop ≡ some street_flop
unfolding street_from_pending machine_pending_street pending_street_count
flop_awaited = refl

street_from_pending-street_jobs_example :
    (jobs : List PeelJob) × (street_jobs 2 street_flop ≡ some jobs)
    × (length jobs ≡ machine_pending_street before_flop)
street_from_pending-street_jobs_example =
    street_from_pending-street_jobs 2 before_flop street_flop (omega arith) flop_awaited
