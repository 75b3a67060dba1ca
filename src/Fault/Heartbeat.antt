-- ===== src/Fault/Heartbeat.antt =====
-- internal/fault/heartbeat.go: the monitor of the peers' heartbeats. Peers are numbers, the time is a
-- number of nanoseconds that each call is given, and the peers for which OnTimeout is called are a
-- result. The tickers that call CheckTimeouts and send heartbeats are not modelled.
pub mod Checks
use decentralized_poker_engi.Common.{
  ℕ, ◌+◌, ◌-◌, ◌/◌, Bool, true, false, ◌&&◌, not, Option, none, some, List, [], ◌∷◌, leb, ◌==◌,
  if◌then◌else◌,
}
use decentralized_poker_engi.Common.Maps.{lookup, insert}

pub data PeerStatus : Type 0 where
  alive suspect timed_out disconnected : PeerStatus

pub record PeerLiveness : Type 0 where
  pub status : PeerStatus
  pub last_seen : ℕ
  pub missed_beats : ℕ

pub record HeartbeatMonitor : Type 0 where
  pub peers : List (ℕ × PeerLiveness)
  pub timeout : ℕ

-- 5 and 15 seconds.
abbrev pub default_interval : ℕ
default_interval = 5000000000

abbrev pub default_timeout : ℕ
default_timeout = 15000000000

unfoldable pub new_heartbeat_monitor : ℕ → HeartbeatMonitor
new_heartbeat_monitor t = record { peers = []; timeout = if t == 0 then default_timeout else t }

abbrev pub seen_at : ℕ → PeerLiveness
seen_at now = record { status = alive; last_seen = now; missed_beats = 0 }

unfoldable pub register_peer : ℕ → ℕ → HeartbeatMonitor → HeartbeatMonitor
register_peer id now hm = elim (lookup id hm.peers) [
  | none ↦ record hm { peers = insert id (seen_at now) hm.peers }
  | some pl ↦ hm
]

-- A peer that is not known is added; every field of the entry is set.
unfoldable pub record_heartbeat : ℕ → ℕ → HeartbeatMonitor → HeartbeatMonitor
record_heartbeat id now hm = record hm { peers = insert id (seen_at now) hm.peers }

abbrev pub is_disconnected : PeerStatus → Bool
is_disconnected disconnected = true
is_disconnected _ = false

abbrev pub is_timed_out : PeerStatus → Bool
is_timed_out timed_out = true
is_timed_out _ = false

-- One peer's round of CheckTimeouts, by the time since it was seen.
unfoldable pub check_peer : ℕ → ℕ → PeerLiveness → PeerLiveness
check_peer timeout elapsed pl =
    if is_disconnected pl.status
    then pl
    else if leb timeout elapsed
    then record pl { status = timed_out; missed_beats = elapsed / default_interval }
    else if leb default_interval elapsed
    then record pl { status = suspect; missed_beats = pl.missed_beats + 1 }
    else pl

unfoldable pub check_all : ℕ → ℕ → List (ℕ × PeerLiveness) → List (ℕ × PeerLiveness)
check_all timeout now [] = []
check_all timeout now ((id, pl) ∷ ps) =
    (id, check_peer timeout (now - pl.last_seen) pl) ∷ check_all timeout now ps

-- Whether a peer is over its time: such peers are returned.
abbrev pub is_over : ℕ → ℕ → PeerLiveness → Bool
is_over timeout now pl = not (is_disconnected pl.status) && leb timeout (now - pl.last_seen)

unfoldable pub timed_out_peers : ℕ → ℕ → List (ℕ × PeerLiveness) → List ℕ
timed_out_peers timeout now [] = []
timed_out_peers timeout now ((id, pl) ∷ ps) =
    let rest = timed_out_peers timeout now ps in if is_over timeout now pl then id ∷ rest else rest

-- The peers for which the callback runs: those over their time for the first time.
unfoldable pub newly_timed_out : ℕ → ℕ → List (ℕ × PeerLiveness) → List ℕ
newly_timed_out timeout now [] = []
newly_timed_out timeout now ((id, pl) ∷ ps) =
    let rest = newly_timed_out timeout now ps in
    if is_over timeout now pl && not (is_timed_out pl.status) then id ∷ rest else rest

-- The monitor after the check, the peers over their time, and the peers of the callbacks.
unfoldable pub check_timeouts : ℕ → HeartbeatMonitor → HeartbeatMonitor × List ℕ × List ℕ
check_timeouts now hm = (
  record hm { peers = check_all hm.timeout now hm.peers },
  timed_out_peers hm.timeout now hm.peers,
  newly_timed_out hm.timeout now hm.peers,
)

unfoldable pub mark_disconnected : ℕ → HeartbeatMonitor → HeartbeatMonitor
mark_disconnected id hm = elim (lookup id hm.peers) [
  | none ↦ hm
  | some pl ↦ record hm { peers = insert id (record pl { status = disconnected }) hm.peers }
]

unfoldable pub status_of : ℕ → HeartbeatMonitor → PeerStatus
status_of id hm = elim (lookup id hm.peers) [ none ↦ timed_out | some pl ↦ pl.status ]

unfoldable pub alive_peers : List (ℕ × PeerLiveness) → List ℕ
alive_peers [] = []
alive_peers ((id, pl) ∷ ps) =
    let rest = alive_peers ps in
    elim pl.status [ alive ↦ id ∷ rest | suspect ↦ id ∷ rest | _ ↦ rest ]
