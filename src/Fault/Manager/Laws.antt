-- ===== src/Fault/Manager/Laws.antt =====
-- The hand number, the threshold and the confirmed votes of the fault manager.
use decentralized_poker_engi.Common.{ℕ, ◌≤◌, ◌≡◌, ◌⊎◌, refl, arith, some, List, [], ◌∷◌, ◌++◌}
use decentralized_poker_engi.Common.Maps.{lookup, lookup-insert}
use decentralized_poker_engi.Fault.Heartbeat.{
  PeerLiveness, disconnected, status_of, mark_disconnected,
}
use decentralized_poker_engi.Fault.Slash.{invalid_action, add_record, check_invalid_action}
use decentralized_poker_engi.Fault.Manager.{
  FaultManager, set_hand_num, set_shamir_threshold, register_players, on_confirmed,
  record_invalid_action, peer_status,
}

-- A record that is made after set_hand_num has the hand number that the detector was made with, not
-- the new one.
pub set_hand_num_stale :
    (hand peer : ℕ) (fm : FaultManager)
    → (record_invalid_action peer (set_hand_num hand fm)).slash_detector.records
      ≡ fm.slash_detector.records
        ++ record { peer_id = peer; reason = invalid_action; hand_num = fm.slash_detector.hand_num }
          ∷ []
unfolding record_invalid_action set_hand_num check_invalid_action add_record
set_hand_num_stale hand peer fm = refl

-- Where the threshold of the shares was not set, or is at least 2, it is at least 2 once players are
-- registered, whatever number set_shamir_threshold is then given.
pub register_players-threshold :
    (players : List ℕ) (now t : ℕ) (fm : FaultManager)
    → (fm.cfg.shamir_threshold ≡ 0) ⊎ (2 ≤ fm.cfg.shamir_threshold)
    → 2 ≤ (set_shamir_threshold t (register_players players now fm)).cfg.shamir_threshold
unfolding set_shamir_threshold register_players
register_players-threshold players now t fm h = ground arith

-- A known peer is disconnected once its vote is confirmed.
pub on_confirmed-disconnected :
    (peer : ℕ) (fm : FaultManager) (pl : PeerLiveness)
    → lookup peer fm.heartbeat.peers ≡ some pl
    → peer_status peer (on_confirmed peer fm).0 ≡ disconnected
unfolding peer_status on_confirmed status_of mark_disconnected
on_confirmed-disconnected peer fm pl h =
    ground
      (arith, h, lookup-insert peer peer (record pl { status = disconnected }) fm.heartbeat.peers)
