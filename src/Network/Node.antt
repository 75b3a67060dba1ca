-- ===== src/Network/Node.antt =====
-- internal/network/node.go and gossip.go: what a node does with the bytes that arrive on the table
-- topic, on the heartbeat topic and on direct streams. The protobuf readers of payloads are an
-- argument. Every callback is set, as Start asks, so that a message is handed to it: it is `delivered`.
pub mod Replays
pub mod Logged
pub mod Scan
use decentralized_poker_engi.Common.{
  ℕ, Bool, true, false, Option, none, some, List, [], ◌∷◌, ◌==◌, contains, if◌then◌else◌,
}
use decentralized_poker_engi.Common.Maps.{lookup, insert}
use decentralized_poker_engi.Int64.{le64, add64}
use decentralized_poker_engi.Network.Lobby.{Lobby, JoinTable, handle_join, handle_ready}
use decentralized_poker_engi.Network.Gamelog.{Envelope, Gamelog, new_game_log, append}
use decentralized_poker_engi.Network.Codec.{Libraries, KeyLookup, found, decode_envelope}

-- The types of messages, by their numbers.
abbrev pub join_table : ℕ
join_table = 1

abbrev pub player_ready : ℕ
player_ready = 2

abbrev pub partial_decrypt : ℕ
partial_decrypt = 5

abbrev pub heartbeat : ℕ
heartbeat = 8

abbrev pub key_share : ℕ
key_share = 13

-- The types that `dispatch` only hands on.
abbrev pub is_handed_on : ℕ → Bool
is_handed_on kind = contains (3 ∷ 5 ∷ 6 ∷ 7 ∷ 9 ∷ 10 ∷ 13 ∷ []) kind

-- How payloads are read: the fields of a JoinTable, and whether the message of a type is read.
pub record Payloads : Type 0 where
  pub read_join : List ℕ → Option JoinTable
  pub parses : ℕ → List ℕ → Bool

-- `peers` are the keys that were registered. The code keeps there the keys that it extracts, too.
pub record Node : Type 0 where
  pub peer_id : ℕ
  pub table_id : ℕ
  pub lobby : Lobby
  pub log : Gamelog
  pub seq : ℕ
  pub peers : List (ℕ × ℕ)
  pub seq_nums : List (ℕ × ℕ)
  pub hb_seq_nums : List (ℕ × ℕ)

-- The map, and whether there was no error.
unfoldable pub update_seq_map : List (ℕ × ℕ) → ℕ → ℕ → List (ℕ × ℕ) × Bool
update_seq_map m sender seq = elim (lookup sender m) [
  | none ↦ (insert sender seq m, true)
  | some last ↦ if le64 seq last then (m, false) else (insert sender seq m, true)
]

unfoldable pub check_and_update_seq : ℕ → ℕ → Node → Node × Bool
check_and_update_seq sender seq n =
    let (m, fresh) = update_seq_map n.seq_nums sender seq in (record n { seq_nums = m }, fresh)

unfoldable pub check_and_update_heartbeat_seq : ℕ → ℕ → Node → Node × Bool
check_and_update_heartbeat_seq sender seq n =
    let (m, fresh) = update_seq_map n.hb_seq_nums sender seq in
    (record n { hb_seq_nums = m }, fresh)

unfoldable pub register_peer : ℕ → ℕ → Node → Node
register_peer id pub_key n = record n { peers = insert id pub_key n.peers }

unfoldable pub set_hand_num : ℕ → Node → Node
set_hand_num hand n = record n { log = new_game_log n.table_id hand }

unfoldable pub next_seq : Node → Node × ℕ
next_seq n = let seq = add64 n.seq 1 in (record n { seq = seq }, seq)

-- `_ = n.Log.Append(env)`
abbrev pub log_it : Envelope → Node → Node
log_it env n = record n { log = (append env n.log).0 }

module _ (lib : Libraries) (payloads : Payloads) (extract : ℕ → KeyLookup) where
  unfoldable pub lookup_pub_key : Node → ℕ → KeyLookup
  lookup_pub_key n id = elim (lookup id n.peers) [ none ↦ extract id | some k ↦ found k ]

  unfoldable pub decode_remote_envelope : List ℕ → Node → Option Envelope
  decode_remote_envelope bytes n = elim (decode_envelope lib (some (lookup_pub_key n)) bytes) [
    | none ↦ none
    | some env ↦ if env.sender_id == n.peer_id then none else some env
  ]

  -- What a handler returns: the node, and the envelope if its message is handed to a callback.
  unfoldable pub dispatch_heartbeat : List ℕ → Node → Node × Option Envelope
  dispatch_heartbeat bytes n = elim (decode_remote_envelope bytes n) [
    | none ↦ (n, none)
    | some env ↦
        if env.kind == heartbeat
        then (let (n', fresh) = check_and_update_heartbeat_seq env.sender_id env.seq n in
            if fresh
            then (n', if payloads.parses heartbeat env.payload then some env else none)
            else (n', none))
        else (n, none)
  ]

  -- The switch of `dispatch`, at the time `now`.
  unfoldable pub route : Envelope → ℕ → Node → Node × Option Envelope
  route env now n =
      if env.kind == join_table
      then elim (payloads.read_join env.payload) [
        | none ↦ (n, none)
        | some msg ↦
            let (lobby, joined) = handle_join msg env.sender_id (env.timestamp ∷ []) now n.lobby in
            (record n { lobby = lobby }, if joined then some env else none)
      ]
      else if env.kind == player_ready
      then if payloads.parses player_ready env.payload
        then (record n { lobby = (handle_ready env.sender_id n.lobby).0 }, some env)
        else (n, none)
      else if is_handed_on env.kind
      then (n, if payloads.parses env.kind env.payload then some env else none)
      else (n, none)

  -- An envelope that the node has decoded.
  unfoldable pub accept : Envelope → ℕ → Node → Node × Option Envelope
  accept env now n =
      if env.kind == heartbeat
      then (n, none)
      else (let (n', fresh) = check_and_update_seq env.sender_id env.seq n in
          if fresh then route env now (log_it env n') else (n', none))

  unfoldable pub dispatch : List ℕ → ℕ → Node → Node × Option Envelope
  dispatch bytes now n = elim (decode_remote_envelope bytes n) [
    | none ↦ (n, none)
    | some env ↦ accept env now n
  ]

  -- The handler of direct streams, which Start registers.
  unfoldable pub handle_direct : Envelope → Node → Node × Option Envelope
  handle_direct env n =
      let n' = log_it env n in
      if env.kind == partial_decrypt
      then (n', if payloads.parses partial_decrypt env.payload then some env else none)
      else if env.kind == key_share
      then (n', if payloads.parses key_share env.payload then some env else none)
      else (n', none)
