-- ===== src/Network/Tests/Nodes.antt =====
-- A concrete node, and the results on what arrives at one applied to it.
use decentralized_poker_engi.Common.{ℕ, ◌≡◌, refl, true, none, some, List, [], ◌∷◌}
use decentralized_poker_engi.Network.Lobby.{new_lobby}
use decentralized_poker_engi.Network.Gamelog.{Envelope, new_game_log}
use decentralized_poker_engi.Network.Codec.{KeyLookup, absent}
use decentralized_poker_engi.Network.Node.{Node, Payloads, update_seq_map, accept, handle_direct}
use decentralized_poker_engi.Network.Node.Replays.{Rise, run_table, run_table-Rise}
use decentralized_poker_engi.Network.Node.Logged.{direct_blocks_log}
use decentralized_poker_engi.Network.Node.Scan.{scan}
use decentralized_poker_engi.Network.Node.Scan.Blind.{
  Arrival, on_stream, on_table, receive_all, scan_blind,
}
use decentralized_poker_engi.Network.Tests.Wires.{libraries, hello, hello_bytes}

abbrev payloads : Payloads
payloads = record { read_join = λ b. none; parses = λ kind b. true }

abbrev extract : ℕ → KeyLookup
extract id = absent

abbrev node : Node
node = record {
  peer_id = 9;
  table_id = 1;
  lobby = new_lobby 1 2;
  log = new_game_log 1 1;
  seq = 0;
  peers = [];
  seq_nums = [];
  hb_seq_nums = [];
}

-- The same frame twice.
abbrev frames : List (List ℕ × ℕ)
frames = (0 ∷ 0 ∷ 0 ∷ 7 ∷ hello_bytes, 100) ∷ (0 ∷ 0 ∷ 0 ∷ 7 ∷ hello_bytes, 101) ∷ []

run_table-Rise_example : Rise (run_table libraries payloads extract frames node)
run_table-Rise_example = run_table-Rise libraries payloads extract frames node

-- An envelope under the name of the sender of `hello`.
abbrev fake : Envelope
fake = record hello { kind = 5; payload = 1 ∷ [] }

-- A player's action, which is only handed on.
abbrev action : Envelope
action = record hello { kind = 3 }

direct_blocks_log_example :
    let m = (handle_direct libraries payloads extract fake node).0 in
    ((accept libraries payloads extract action 100 node).0.log.entries ≡ action ∷ [])
    × ((accept libraries payloads extract action 100 node).1 ≡ some action)
    × ((accept libraries payloads extract action 100 m).0.log.entries ≡ fake ∷ [])
    × ((accept libraries payloads extract action 100 m).1 ≡ some action)
unfolding update_seq_map new_game_log
direct_blocks_log_example =
    direct_blocks_log libraries payloads extract fake action 100 node refl refl refl refl refl

-- Two payloads under one number, on a stream and on the topic.
abbrev arrivals : List Arrival
arrivals = on_stream fake ∷ on_table (0 ∷ 0 ∷ 0 ∷ 7 ∷ hello_bytes) 100 ∷ on_stream hello ∷ []

scan_blind_example : scan (receive_all libraries payloads extract arrivals node) ≡ none
scan_blind_example = scan_blind libraries payloads extract 1 1 node arrivals refl
