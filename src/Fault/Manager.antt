-- ===== src/Fault/Manager.antt =====
-- internal/fault/manager.go: the manager that composes the monitor, the votes, the key shares and
-- the detector. A callback that the code starts as a goroutine is a step of its own (on_timeout,
-- on_confirmed), and the callbacks of the manager's owner are results.
pub mod Laws
use decentralized_poker_engi.Common.{
  ℕ, ◌+◌, ◌/◌, Bool, Option, none, some, List, [], ◌∷◌, get_elem?, length, true, false, ltb, leb,
  ◌==◌, if◌then◌else◌,
}
use decentralized_poker_engi.Game.Player.{Status, active, folded, all_in, sitting_out, Player}
use decentralized_poker_engi.Game.State.{GameState, Action, fold, seat_index}
use decentralized_poker_engi.Fault.Heartbeat.{
  HeartbeatMonitor, PeerStatus, default_interval, default_timeout, new_heartbeat_monitor,
  register_peer, mark_disconnected, status_of, alive_peers, record_heartbeat,
}
use decentralized_poker_engi.Fault.Timeout.{
  TimeoutManager, new_timeout_manager, start_vote, record_vote,
}
use decentralized_poker_engi.Fault.Shares.{
  ShamirShare, KeyShareStore, store_my_share, contribute_share, add_reconstruction_share,
  can_reconstruct, shares_to_join,
}
use decentralized_poker_engi.Fault.Slash.{
  SlashDetector, new_slash_detector, check_invalid_action, check_key_withholding, is_slashed,
}

-- The prime of the shares is left out.
pub record FaultConfig : Type 0 where
  pub heartbeat_interval : ℕ
  pub heartbeat_timeout : ℕ
  pub vote_expiry : ℕ
  pub shamir_threshold : ℕ

pub record FaultManager : Type 0 where
  pub cfg : FaultConfig
  pub hand_num : ℕ
  pub local_peer_id : ℕ
  pub player_ids : List ℕ
  pub heartbeat : HeartbeatMonitor
  pub timeouts : Option TimeoutManager
  pub key_shares : KeyShareStore
  pub slash_detector : SlashDetector

abbrev pub or_default : ℕ → ℕ → ℕ
or_default n default = if n == 0 then default else n

unfoldable pub new_fault_manager : ℕ → ℕ → FaultConfig → FaultManager
new_fault_manager local_id hand cfg =
    let interval = or_default cfg.heartbeat_interval default_interval in
    let timeout = or_default cfg.heartbeat_timeout default_timeout in
    let expiry = or_default cfg.vote_expiry 30000000000 in
    record {
      cfg = record {
        heartbeat_interval = interval;
        heartbeat_timeout = timeout;
        vote_expiry = expiry;
        shamir_threshold = cfg.shamir_threshold;
      };
      hand_num = hand;
      local_peer_id = local_id;
      player_ids = [];
      heartbeat = new_heartbeat_monitor timeout;
      timeouts = none;
      key_shares = record { shares_received = []; shares_held = [] };
      slash_detector = new_slash_detector hand;
    }

-- The peer whose vote is asked for, and the peer whose vote is confirmed.
unfoldable pub on_timeout : ℕ → ℕ → FaultManager → FaultManager × ℕ × Option ℕ
on_timeout peer now fm = elim fm.timeouts [
  | none ↦ (fm, peer, none)
  | some tm ↦
      let (tm', confirmed) = start_vote tm peer fm.local_peer_id now in
      (record fm { timeouts = some tm' }, peer, confirmed)
]

unfoldable pub set_hand_num : ℕ → FaultManager → FaultManager
set_hand_num hand fm = record fm { hand_num = hand }

abbrev pub with_threshold : ℕ → FaultManager → FaultManager
with_threshold t fm = record fm { cfg = record fm.cfg { shamir_threshold = t } }

unfoldable pub set_shamir_threshold : ℕ → FaultManager → FaultManager
set_shamir_threshold t fm = if leb 2 t then with_threshold t fm else fm

-- The loop of RegisterPlayers.
unfoldable pub register_all : ℕ → ℕ → List ℕ → HeartbeatMonitor → HeartbeatMonitor
register_all local_id now [] hm = hm
register_all local_id now (id ∷ players) hm =
    let known = if id == local_id then hm else register_peer id now hm in
    register_all local_id now players known

abbrev pub default_threshold : ℕ → ℕ
default_threshold n = let t = (n + 1) / 2 in if ltb t 2 then 2 else t

unfoldable pub register_players : List ℕ → ℕ → FaultManager → FaultManager
register_players players now fm =
    let n = length players in
    let t = fm.cfg.shamir_threshold in
    with_threshold (if t == 0 then default_threshold n else t) (record fm {
      player_ids = players;
      heartbeat = register_all fm.local_peer_id now players fm.heartbeat;
      timeouts = some (new_timeout_manager n fm.cfg.vote_expiry);
    })

-- The peer is the one that OnPlayerFolded is called for.
unfoldable pub on_confirmed : ℕ → FaultManager → FaultManager × ℕ
on_confirmed peer fm = (record fm { heartbeat = mark_disconnected peer fm.heartbeat }, peer)

unfoldable pub beat : ℕ → ℕ → FaultManager → FaultManager
beat peer now fm = record fm { heartbeat = record_heartbeat peer now fm.heartbeat }

-- `none` is the error of a manager without registered players; a result is the peer whose vote is
-- confirmed, where it is.
unfoldable pub handle_timeout_vote :
    ℕ → ℕ → Bool → ℕ → FaultManager → FaultManager × Option (Option ℕ)
handle_timeout_vote target voter agrees now fm = elim fm.timeouts [
  | none ↦ (fm, none)
  | some tm ↦
      let (tm', confirmed) = record_vote tm target voter agrees now in
      (record fm { timeouts = some tm' }, some confirmed)
]

-- As on_timeout: the vote is started, and asked for.
unfoldable pub start_timeout_vote : ℕ → ℕ → FaultManager → FaultManager × ℕ × Option ℕ
start_timeout_vote target now fm = elim fm.timeouts [
  | none ↦ (fm, target, none)
  | some tm ↦
      let (tm', confirmed) = start_vote tm target fm.local_peer_id now in
      (record fm { timeouts = some tm' }, target, confirmed)
]

unfoldable pub store_key_share : ℕ → ShamirShare → FaultManager → FaultManager
store_key_share owner share fm = record fm { key_shares = store_my_share owner share fm.key_shares }

-- The share that is sent, where there is one.
unfoldable pub broadcast_my_share_for : ℕ → FaultManager → Option ShamirShare
broadcast_my_share_for owner fm = contribute_share owner fm.key_shares

unfoldable pub add_share : ℕ → ShamirShare → FaultManager → FaultManager
add_share owner share fm = record fm {
  key_shares = add_reconstruction_share owner share fm.key_shares;
}

unfoldable pub record_invalid_action : ℕ → FaultManager → FaultManager
record_invalid_action peer fm = record fm {
  slash_detector = check_invalid_action peer fm.slash_detector;
}

unfoldable pub record_key_withholding : ℕ → FaultManager → FaultManager
record_key_withholding peer fm = record fm {
  slash_detector = check_key_withholding peer fm.slash_detector;
}

unfoldable pub peer_is_slashed : ℕ → FaultManager → Bool
peer_is_slashed peer fm = is_slashed peer fm.slash_detector

unfoldable pub peer_status : ℕ → FaultManager → PeerStatus
peer_status peer fm = status_of peer fm.heartbeat

unfoldable pub live_peers : FaultManager → List ℕ
live_peers fm = alive_peers fm.heartbeat.peers

abbrev pub can_fold : Status → Bool
can_fold active = true
can_fold all_in = true
can_fold folded = false
can_fold sitting_out = false

-- `none` is an error.
unfoldable pub apply_timeout_fold : GameState → ℕ → Option Action
apply_timeout_fold gs peer = elim (seat_index gs.players peer) [
  | none ↦ none
  | some i ↦ elim (get_elem? gs.players i) [
    | none ↦ none
    | some p ↦
        if can_fold p.status
        then some (record { player_id = peer; kind = fold; amount = 0 })
        else none
  ]
]
