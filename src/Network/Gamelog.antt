-- ===== src/Network/Gamelog.antt =====
-- internal/network/gamelog.go: the log of a hand. An envelope has the fields of the message; names
-- are numbers, and `text` gives their bytes. The key "sender:seq" determines both, since a number
-- holds no colon.
pub mod Equivocation
pub mod Sequences
use decentralized_poker_engi.Common.{
  ℕ, zero, suc, ◌+◌, ◌/◌, ◌%◌, ◌^◌, Bool, true, false, Option, none, some, List, [], ◌∷◌, ◌++◌,
  length, ◌==◌, if◌then◌else◌, select, map,
}
use decentralized_poker_engi.Crypto.Commit.{equal_bytes}
use decentralized_poker_engi.Int64.{lt64}

pub record Envelope : Type 0 where
  pub kind : ℕ
  pub sender_id : ℕ
  pub seq : ℕ
  pub timestamp : ℕ
  pub payload : List ℕ
  pub signature : List ℕ

abbrev pub Key : Type 0
Key = ℕ × ℕ

abbrev pub key : Envelope → Key
key env = (env.sender_id, env.seq)

abbrev pub same_key : Key → Key → Bool
same_key k j = if k.0 == j.0 then k.1 == j.1 else false

abbrev pub has_key : List Key → Key → Bool
has_key [] k = false
has_key (j ∷ js) k = let rest = has_key js k in if same_key j k then true else rest

pub record Gamelog : Type 0 where
  pub table_id : ℕ
  pub hand_num : ℕ
  pub entries : List Envelope
  pub by_key : List Key

unfoldable pub new_game_log : ℕ → ℕ → Gamelog
new_game_log table_id hand_num = record {
  table_id = table_id;
  hand_num = hand_num;
  entries = [];
  by_key = [];
}

-- The log, and whether there was no error.
unfoldable pub append : Envelope → Gamelog → Gamelog × Bool
append env gl =
    if has_key gl.by_key (key env)
    then (gl, false)
    else (record gl { entries = gl.entries ++ env ∷ []; by_key = gl.by_key ++ key env ∷ [] }, true)

-- The big-endian bytes of a 64-bit pattern, `n` of them.
unfoldable pub big_endian : ℕ → ℕ → List ℕ
big_endian zero v = []
big_endian (suc n) v = v / 256 ^ n % 256 ∷ big_endian n v

-- What is hashed of the entries.
unfoldable pub root_text : (ℕ → List ℕ) → List Envelope → List ℕ
root_text text [] = []
root_text text (env ∷ envs) =
    env.kind % 256
    ∷ (text env.sender_id
        ++ 0 ∷ (big_endian 8 env.seq ++ env.payload ++ env.signature ++ root_text text envs))

unfoldable pub state_root : (List ℕ → List ℕ) → (ℕ → List ℕ) → Gamelog → List ℕ
state_root sha256 text gl = sha256 (root_text text gl.entries)

-- The first entry with the key, among those seen.
abbrev pub find_seen : Key → List (Key × Envelope) → Option Envelope
find_seen k [] = none
find_seen k ((j, env) ∷ seen) =
    let rest = find_seen k seen in if same_key j k then some env else rest

-- The loop of DetectEquivocation.
unfoldable pub detect_from :
    List (Key × Envelope) → List Envelope → Option (ℕ × Envelope × Envelope)
detect_from seen [] = none
detect_from seen (env ∷ envs) = elim (find_seen (key env) seen) [
  | none ↦ detect_from ((key env, env) ∷ seen) envs
  | some prev ↦
      let rest = detect_from seen envs in
      if equal_bytes prev.payload env.payload then rest else some (env.sender_id, prev, env)
]

unfoldable pub detect_equivocation : Gamelog → Option (ℕ × Envelope × Envelope)
detect_equivocation gl = detect_from [] gl.entries

unfoldable pub entries_by_sender : ℕ → Gamelog → List Envelope
entries_by_sender sender gl = select (λ env. env.sender_id == sender) gl.entries

-- The sequence numbers of a player.
unfoldable pub seqs_of : ℕ → List Envelope → List ℕ
seqs_of pid envs = map (λ env. env.seq) (select (λ env. env.sender_id == pid) envs)

-- The insertion sort, by the signed order.
unfoldable pub insert_seq : ℕ → List ℕ → List ℕ
insert_seq v [] = v ∷ []
insert_seq v (w ∷ ws) = let rest = insert_seq v ws in if lt64 v w then v ∷ w ∷ ws else w ∷ rest

unfoldable pub sort_seqs : List ℕ → List ℕ → List ℕ
sort_seqs sorted [] = sorted
sort_seqs sorted (v ∷ vs) = sort_seqs (insert_seq v sorted) vs

-- Whether the numbers from position `i` on are `i + 1` and so on.
unfoldable pub is_gapless : ℕ → List ℕ → Bool
is_gapless i [] = true
is_gapless i (v ∷ vs) = let rest = is_gapless (suc i) vs in if v == i + 1 then rest else false

-- Whether there is no error.
unfoldable pub validate_sequences : List ℕ → Gamelog → Bool
validate_sequences [] gl = true
validate_sequences (pid ∷ pids) gl =
    let rest = validate_sequences pids gl in
    if is_gapless 0 (sort_seqs [] (seqs_of pid gl.entries)) then rest else false
