-- ===== src/Network/Node/Scan.antt =====
-- The scan for equivocation of internal/network/node.go, by way of fault_adaptor.go.
pub mod Blind
use decentralized_poker_engi.Common.{
  ℕ, Bool, true, false, Option, none, some, List, [], ◌∷◌, ◌==◌, if◌then◌else◌,
}
use decentralized_poker_engi.Network.Gamelog.{Envelope, Gamelog, detect_equivocation}
use decentralized_poker_engi.Network.Node.{Node}

-- internal/fault/types.go
pub record LogEntry : Type 0 where
  pub sender_id : ℕ
  pub seq : ℕ
  pub payload : List ℕ
  pub signature : List ℕ

abbrev pub to_entry : Envelope → LogEntry
to_entry e = record {
  sender_id = e.sender_id;
  seq = e.seq;
  payload = e.payload;
  signature = e.signature;
}

-- DetectEquivocation of the adaptor; `none` is the empty sender, which is 0.
unfoldable pub find_entries : Gamelog → Option (ℕ × LogEntry × LogEntry)
find_entries gl = elim (detect_equivocation gl) [
  | none ↦ none
  | some (id, a, b) ↦ if id == 0 then none else some (id, to_entry a, to_entry b)
]

-- What a tick of the scan reports.
unfoldable pub scan : Node → Option ℕ
scan n = elim (find_entries n.log) [ none ↦ none | some (id, a, b) ↦ some id ]
