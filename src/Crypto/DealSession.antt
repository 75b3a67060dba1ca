-- ===== src/Crypto/DealSession.antt =====
-- internal/crypto/deal_session.go: one node's view of the distributed peels of a hand. The state and
-- its tests; Jobs has the jobs of each sequence, Peels its steps, Calls the calls, Dealt the cards
-- at the end. Identifiers are numbers, and 0 is the empty one. The parts of a message are taken as not
-- nil: the code refuses a message with one that is. A street is its Go number.
pub mod Jobs
pub mod Peels
pub mod Calls
pub mod Dealt
pub mod Chain
use decentralized_poker_engi.Common.{
  ℕ, zero, suc, ◌+◌, ◌%◌, Bool, true, false, not, Option, none, some, List, [], ◌∷◌, ◌++◌, length,
  leb, ltb, ◌==◌, if◌then◌else◌, get_elem?, get_or,
}
use decentralized_poker_engi.Common.Maps.{lookup}
use decentralized_poker_engi.Game.Cards.{Card}
use decentralized_poker_engi.Crypto.Deal.{
  EncryptedDeck, finish_public, hole_card_index, flop_indexes, turn_index, river_index, peel_order,
}
use decentralized_poker_engi.Crypto.Keyring.{Keyring, seats, seat_index, modulus}
use decentralized_poker_engi.Crypto.Zkp.{ZkProof, PartialDecryption}

abbrev pub street_none : ℕ
street_none = 0

abbrev pub street_flop : ℕ
street_flop = 1

abbrev pub street_turn : ℕ
street_turn = 2

abbrev pub street_river : ℕ
street_river = 3

pub data JobKind : Type 0 where
  job_idle job_hole job_public : JobKind

pub data SeqKind : Type 0 where
  seq_idle seq_holes seq_street seq_reveal : SeqKind

pub record PeelJob : Type 0 where
  pub kind : JobKind
  pub card_index : ℕ
  pub recipient : ℕ
  pub round : ℕ

pub record PeelMessage : Type 0 where
  pub hand_num : ℕ
  pub player_id : ℕ
  pub card_index : ℕ
  pub ciphertext : ℕ
  pub result : ℕ
  pub proof : ZkProof

unfoldable pub peel_message_from_pd : ℕ → PartialDecryption → PeelMessage
peel_message_from_pd hand pd = record {
  hand_num = hand;
  player_id = pd.player_id;
  card_index = pd.card_index;
  ciphertext = pd.ciphertext;
  result = pd.result;
  proof = pd.proof;
}

unfoldable pub peel_message_to_pd : PeelMessage → PartialDecryption
peel_message_to_pd msg = record {
  player_id = msg.player_id;
  card_index = msg.card_index;
  ciphertext = msg.ciphertext;
  result = msg.result;
  proof = msg.proof;
}

-- A nil in the array of two values is `none`.
abbrev pub Pair : Type 0
Pair = Option ℕ × Option ℕ

pub record DealSession : Type 0 where
  pub kr : Keyring
  pub hand_num : ℕ
  pub session_id : List ℕ
  pub p : ℕ
  pub dealer_idx : ℕ
  pub cards : List ℕ
  pub seq : SeqKind
  pub seq_jobs : List PeelJob
  pub seq_job_idx : ℕ
  pub street : ℕ
  pub reveal_id : ℕ
  pub job_kind : JobKind
  pub card_index : ℕ
  pub recipient : ℕ
  pub peelers : List ℕ
  pub next_peel : ℕ
  pub current : ℕ
  pub pending : List (ℕ × PeelMessage)
  pub applied : List (ℕ × PeelMessage)
  pub current_job : PeelJob
  pub local_holes : Pair
  pub revealed : List (ℕ × Pair)
  pub community : List ℕ
  pub decoded : List (ℕ × ℕ)
  pub holes_done : Bool
  pub street_done : Bool
  pub reveal_done : Bool
  pub last_street : ℕ
  pub holes_started : Bool
  pub outbound : List PeelMessage

abbrev pub no_job : PeelJob
no_job = record { kind = job_idle; card_index = 0; recipient = 0; round = 0 }

unfoldable pub make_deal_session : Keyring → List ℕ → List ℕ → ℕ → ℕ → ℕ → Option DealSession
make_deal_session kr cards session_id p hand dealer_idx =
    if ltb (seats kr) 2
    then none
    else if length session_id == 0
    then none
    else if ltb hand 1
    then none
    else if leb (seats kr) dealer_idx
    then none
    else if not (p == modulus kr)
    then none
    else if length cards == 0
    then none
    else some (record {
      kr = kr;
      hand_num = hand;
      session_id = session_id;
      p = p;
      dealer_idx = dealer_idx;
      cards = cards;
      seq = seq_idle;
      seq_jobs = [];
      seq_job_idx = 0;
      street = street_none;
      reveal_id = 0;
      job_kind = job_idle;
      card_index = 0;
      recipient = 0;
      peelers = [];
      next_peel = 0;
      current = 0;
      pending = [];
      applied = [];
      current_job = no_job;
      local_holes = (none, none);
      revealed = [];
      community = [];
      decoded = [];
      holes_done = false;
      street_done = false;
      reveal_done = false;
      last_street = street_none;
      holes_started = false;
      outbound = [];
    })

unfoldable pub new_deal_session : Keyring → EncryptedDeck → ℕ → ℕ → Option DealSession
new_deal_session kr deck hand dealer_idx =
    if length deck.cards == 52
    then make_deal_session kr deck.cards deck.session_id deck.p hand dealer_idx
    else none

unfoldable pub is_seq_idle : DealSession → Bool
is_seq_idle s = elim s.seq [
  | seq_idle ↦ true
  | seq_holes ↦ false
  | seq_street ↦ false
  | seq_reveal ↦ false
]

-- The test that refuses a peel: no sequence or no job.
unfoldable pub is_idle : DealSession → Bool
is_idle s =
    if is_seq_idle s
    then true
    else elim s.job_kind [ job_idle ↦ true | job_hole ↦ false | job_public ↦ false ]

unfoldable pub job_complete : DealSession → Bool
job_complete s = leb (length s.peelers) s.next_peel

-- The player who must peel next, and 0 when idle.
unfoldable pub expected_peeler : DealSession → ℕ
expected_peeler s = if is_idle s then 0 else get_or s.peelers s.next_peel 0

-- Whether there is no error.
unfoldable pub validate_incoming : PeelMessage → DealSession → Bool
validate_incoming msg s =
    if msg.player_id == 0
    then false
    else if not (msg.hand_num == s.hand_num)
    then false
    else msg.card_index == s.card_index

unfoldable pub proofs_equal : ZkProof → ZkProof → Bool
proofs_equal a b =
    if not (a.a == b.a)
    then false
    else if not (a.b == b.b)
    then false
    else if not (a.s == b.s)
    then false
    else a.h == b.h

unfoldable pub messages_equal : PeelMessage → PeelMessage → Bool
messages_equal a b =
    if not (a.hand_num == b.hand_num)
    then false
    else if not (a.player_id == b.player_id)
    then false
    else if not (a.card_index == b.card_index)
    then false
    else if not (a.ciphertext == b.ciphertext)
    then false
    else if not (a.result == b.result)
    then false
    else proofs_equal a.proof b.proof

-- The pair of a missing key is that of two nils.
abbrev pub pair_of : ℕ → List (ℕ × Pair) → Pair
pair_of id m = elim (lookup id m) [ none ↦ (none, none) | some pair ↦ pair ]
