-- ===== src/Network/Node/Scan/Blind.antt =====
-- The scan for equivocation finds nothing, whatever a node receives.
use decentralized_poker_engi.Common.{
  ℕ, ◌≡◌, sym, subst, arith, Bool-cases, inl, inr, Option-cases, none, List, [], ◌∷◌, ◌==◌,
}
use decentralized_poker_engi.Network.Gamelog.{Envelope, new_game_log, append}
use decentralized_poker_engi.Network.Gamelog.Equivocation.{
  IsKeyed, append-IsKeyed, new_game_log-IsKeyed, IsKeyed-detect_equivocation,
}
use decentralized_poker_engi.Network.Codec.{Libraries, KeyLookup}
use decentralized_poker_engi.Network.Node.{
  Node, Payloads, heartbeat, update_seq_map, check_and_update_seq, check_and_update_heartbeat_seq,
  set_hand_num, log_it, route, accept, dispatch, dispatch_heartbeat, decode_remote_envelope,
  handle_direct,
}
use decentralized_poker_engi.Network.Node.Logged.{route-log, handle_direct-log}
use decentralized_poker_engi.Network.Node.Scan.{find_entries, scan}

-- What comes to a node: bytes on the table topic with the time, bytes on the heartbeat topic, an
-- envelope on a direct stream, and the number of a new hand.
pub data Arrival : Type 0 where
  on_table : List ℕ → ℕ → Arrival
  on_beats : List ℕ → Arrival
  on_stream : Envelope → Arrival
  next_hand : ℕ → Arrival

module _ (lib : Libraries) (payloads : Payloads) (extract : ℕ → KeyLookup) where
  abbrev pub receive : Arrival → Node → Node
  receive (on_table bytes now) n = (dispatch lib payloads extract bytes now n).0
  receive (on_beats bytes) n = (dispatch_heartbeat lib payloads extract bytes n).0
  receive (on_stream env) n = (handle_direct lib payloads extract env n).0
  receive (next_hand hand) n = set_hand_num hand n

  abbrev pub receive_all : List Arrival → Node → Node
  receive_all [] n = n
  receive_all (a ∷ rest) n = receive_all rest (receive a n)

  accept-IsKeyed :
      (env : Envelope) (now : ℕ) (n : Node)
      → IsKeyed n.log
      → IsKeyed (accept lib payloads extract env now n).0.log
  unfolding accept check_and_update_seq
  accept-IsKeyed env now n k =
      let noted = record n { seq_nums = (update_seq_map n.seq_nums env.sender_id env.seq).0 } in
      let routed : (route lib payloads extract env now (log_it env noted)).0.log
          ≡ (append env n.log).0 =
        route-log lib payloads extract env now (log_it env noted) in
      let logged = subst IsKeyed (sym routed) (append-IsKeyed env n.log k) in
      elim (Bool-cases (env.kind == heartbeat)) [
        | inl e ↦ rw (e, accept) k
        | inr e ↦ elim (Bool-cases (update_seq_map n.seq_nums env.sender_id env.seq).1) [
          | inl f ↦ rw (e, f, accept) logged
          | inr f ↦ rw (e, f, accept) k
        ]
      ]

  dispatch-IsKeyed :
      (bytes : List ℕ) (now : ℕ) (n : Node)
      → IsKeyed n.log
      → IsKeyed (dispatch lib payloads extract bytes now n).0.log
  unfolding dispatch
  dispatch-IsKeyed bytes now n k =
      elim (Option-cases (decode_remote_envelope lib payloads extract bytes n)) [
        | inl e ↦ rw (e, dispatch) k
        | inr (env, e) ↦ rw (e, dispatch) (accept-IsKeyed env now n k)
      ]

  dispatch_heartbeat-log :
      (bytes : List ℕ) (n : Node) → (dispatch_heartbeat lib payloads extract bytes n).0.log ≡ n.log
  unfolding dispatch_heartbeat check_and_update_heartbeat_seq
  dispatch_heartbeat-log bytes n = ground arith

  receive-IsKeyed : (a : Arrival) (n : Node) → IsKeyed n.log → IsKeyed (receive a n).log
  unfolding set_hand_num
  receive-IsKeyed (on_table bytes now) n k = dispatch-IsKeyed bytes now n k
  receive-IsKeyed (on_beats bytes) n k = subst IsKeyed (sym (dispatch_heartbeat-log bytes n)) k
  receive-IsKeyed (on_stream env) n k =
      subst IsKeyed (sym (handle_direct-log lib payloads extract env n))
        (append-IsKeyed env n.log k)
  receive-IsKeyed (next_hand hand) n k = new_game_log-IsKeyed n.table_id hand

  receive_all-IsKeyed :
      (rest : List Arrival) (n : Node) → IsKeyed n.log → IsKeyed (receive_all rest n).log
  receive_all-IsKeyed [] n k = k
  receive_all-IsKeyed (a ∷ rest) n k =
      receive_all-IsKeyed rest (receive a n) (receive-IsKeyed a n k)

  -- At a node that starts a hand with a new log, the scan for equivocation never reports anybody,
  -- whatever comes on the topics and the streams, two different payloads under one number included.
  pub scan_blind :
      (table_id hand : ℕ) (n : Node) (rest : List Arrival)
      → n.log ≡ new_game_log table_id hand
      → scan (receive_all rest n) ≡ none
  unfolding scan find_entries
  scan_blind table_id hand n rest fresh =
      let keyed = subst IsKeyed (sym fresh) (new_game_log-IsKeyed table_id hand) in
      let nothing =
        IsKeyed-detect_equivocation (receive_all rest n).log (receive_all-IsKeyed rest n keyed) in
      ground (arith, nothing)
