-- ===== src/Fault/Tests.antt =====
-- The theorems about internal/fault at concrete peers and times.
use decentralized_poker_engi.Common.{ℕ, ◌*◌, ◌≡◌, refl, arith, some, [], ◌∷◌}
use decentralized_poker_engi.Fault.Timeout.{TimeoutManager, start_vote}
use decentralized_poker_engi.Fault.Timeout.Votes.{three_peers_one_vote}
use decentralized_poker_engi.Fault.Heartbeat.{HeartbeatMonitor, seen_at, default_timeout}
use decentralized_poker_engi.Fault.Shares.{ShamirShare, KeyShareStore}
use decentralized_poker_engi.Fault.Shares.Distinct.{AllDistinct}
use decentralized_poker_engi.Fault.Manager.{FaultConfig, FaultManager, new_fault_manager}

abbrev trio : TimeoutManager
trio = record { total_peers = 3; votes = []; vote_expiry = 30 }

three_peers_one_vote_example : (start_vote trio 7 1 100).1 ≡ some 7
three_peers_one_vote_example = (three_peers_one_vote trio 7 1 100 refl refl).0

-- Peer 7 was last seen at time 0.
abbrev watch : HeartbeatMonitor
watch = record { peers = (7, seen_at 0) ∷ []; timeout = default_timeout }

abbrev share : ℕ → ShamirShare
share i = record { index = i; value = 10 * i }

abbrev store : KeyShareStore
store = record { shares_received = []; shares_held = (7, share 1 ∷ share 2 ∷ []) ∷ [] }

store-AllDistinct : AllDistinct store
store-AllDistinct owner = ground arith

abbrev unset : FaultConfig
unset = record {
  heartbeat_interval = 0;
  heartbeat_timeout = 0;
  vote_expiry = 0;
  shamir_threshold = 0;
}

-- Peer 7 is watched by peer 1, in hand 1.
abbrev manager : FaultManager
manager = record (new_fault_manager 1 1 unset) { heartbeat = watch }
