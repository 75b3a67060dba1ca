-- ===== src/Fault/Heartbeat/Checks.antt =====
-- What a check of the peers' heartbeats does to each peer.
use decentralized_poker_engi.Common.{
  ℕ, ◌-◌, ◌≡◌, refl, arith, some, List, [], ◌∷◌, leb, if◌then◌else◌,
}
use decentralized_poker_engi.Common.Maps.{lookup, lookup-insert}
use decentralized_poker_engi.Fault.Heartbeat.{
  alive, suspect, timed_out, disconnected, PeerLiveness, HeartbeatMonitor, is_disconnected,
  default_interval, record_heartbeat, check_peer, check_all, timed_out_peers, newly_timed_out,
  check_timeouts, mark_disconnected, status_of, seen_at,
}

lookup-check_all :
    (timeout now id : ℕ) (ps : List (ℕ × PeerLiveness)) (pl : PeerLiveness)
    → lookup id ps ≡ some pl
    → lookup id (check_all timeout now ps) ≡ some (check_peer timeout (now - pl.last_seen) pl)
unfolding check_all
lookup-check_all timeout now id [] pl h = cc
lookup-check_all timeout now id ((j, q) ∷ ps) pl h =
    ground (arith, lookup-check_all timeout now id ps pl)

-- After a check a known peer is disconnected if it was; else timed out if it was not seen for the
-- timeout; else suspect if it was not seen for the interval; else as it was.
pub check_timeouts-status :
    (now id : ℕ) (hm : HeartbeatMonitor) (pl : PeerLiveness)
    → lookup id hm.peers ≡ some pl
    → status_of id (check_timeouts now hm).0 ≡ (
        if is_disconnected pl.status
        then disconnected
        else if leb hm.timeout (now - pl.last_seen)
        then timed_out
        else if leb default_interval (now - pl.last_seen)
        then suspect
        else pl.status)
unfolding check_timeouts status_of check_peer
check_timeouts-status now id hm pl h =
    rw (lookup-check_all hm.timeout now id hm.peers pl h, status_of) (ground arith)

again :
    (timeout now : ℕ) (ps : List (ℕ × PeerLiveness))
    → newly_timed_out timeout now (check_all timeout now ps) ≡ []
unfolding newly_timed_out check_all check_peer
again timeout now [] = refl
again timeout now ((id, pl) ∷ ps) = ground (arith, again timeout now ps)

same_peers :
    (timeout now : ℕ) (ps : List (ℕ × PeerLiveness))
    → timed_out_peers timeout now (check_all timeout now ps) ≡ timed_out_peers timeout now ps
unfolding timed_out_peers check_all check_peer
same_peers timeout now [] = refl
same_peers timeout now ((id, pl) ∷ ps) = ground (arith, same_peers timeout now ps)

-- The callback runs once: a second check at the same time returns the same peers, and calls back for
-- none of them.
pub check_timeouts_twice :
    (now : ℕ) (hm : HeartbeatMonitor)
    → ((check_timeouts now (check_timeouts now hm).0).1 ≡ (check_timeouts now hm).1)
      × ((check_timeouts now (check_timeouts now hm).0).2 ≡ [])
unfolding check_timeouts
check_timeouts_twice now hm = (same_peers hm.timeout now hm.peers, again hm.timeout now hm.peers)

-- A peer that was voted out is counted as alive again with its next heartbeat.
pub heartbeat_revives :
    (id now : ℕ) (hm : HeartbeatMonitor)
    → status_of id (record_heartbeat id now (mark_disconnected id hm)) ≡ alive
unfolding status_of record_heartbeat
heartbeat_revives id now hm =
    ground (arith, lookup-insert id id (seen_at now) (mark_disconnected id hm).peers)
