-- ===== src/Crypto/ShuffleSession.antt =====
-- internal/crypto/shuffle_session.go: one node's view of the distributed shuffle. Each seat's message
-- is adopted in seat order, and one that comes early is kept. Identifiers are numbers, and 0 is the
-- empty one. The cards of a message are taken as not nil, and a missing
-- commitment is `none`. `swaps` and
-- `nonce` are the random choices of the local step.
pub mod Order
pub mod Runs
use decentralized_poker_engi.Common.{
  ℕ, zero, suc, Bool, true, false, not, Option, none, some, List, [], ◌∷◌, length, leb, ltb, ◌==◌,
  if◌then◌else◌, get_or,
}
use decentralized_poker_engi.Common.Maps.{lookup, insert, delete}
use decentralized_poker_engi.Crypto.Commit.{Commitment, verify_deck, equal_bytes}
use decentralized_poker_engi.Crypto.Deal.{EncryptedDeck}
use decentralized_poker_engi.Crypto.Keyring.{Keyring, seats, seat_index, modulus}
use decentralized_poker_engi.Crypto.Params.{build_plaintext_deck}
use decentralized_poker_engi.Crypto.Shuffle.{
  ShuffleStep, ShuffleProtocol, new_shuffle_protocol, execute_step, new_encrypted_deck,
}

pub record ShuffleMessage : Type 0 where
  pub hand_num : ℕ
  pub player_id : ℕ
  pub output_deck : List ℕ
  pub commitment : Option Commitment

unfoldable pub shuffle_message_from_step : ℕ → ShuffleStep → ShuffleMessage
shuffle_message_from_step hand step = record {
  hand_num = hand;
  player_id = step.player_id;
  output_deck = step.output_deck;
  commitment = some step.commitment;
}

pub record ShuffleSession : Type 0 where
  pub kr : Keyring
  pub proto : ShuffleProtocol
  pub hand_num : ℕ
  pub session_id : List ℕ
  pub initial : List ℕ
  pub started : Bool
  pub next_index : ℕ
  pub current : List ℕ
  pub pending : List (ℕ × ShuffleMessage)
  pub applied : List (ℕ × ShuffleMessage)
  pub local_perm : List ℕ

-- What a call returns: an error, no message, or a message to send.
pub data Reply : Type 0 where
  refused silent : Reply
  send : ShuffleMessage → Reply

unfoldable pub new_session : Keyring → List ℕ → ℕ → List ℕ → Option ShuffleSession
new_session kr session_id hand initial =
    if ltb (seats kr) 2
    then none
    else if length session_id == 0
    then none
    else if ltb hand 1
    then none
    else if length initial == 0
    then none
    else some (record {
      kr = kr;
      proto = record (new_shuffle_protocol (modulus kr) session_id) { num_cards = length initial };
      hand_num = hand;
      session_id = session_id;
      initial = initial;
      started = false;
      next_index = 0;
      current = [];
      pending = [];
      applied = [];
      local_perm = [];
    })

unfoldable pub new_shuffle_session : Keyring → List ℕ → ℕ → Option ShuffleSession
new_shuffle_session kr session_id hand =
    new_session kr session_id hand (build_plaintext_deck (modulus kr))

unfoldable pub done : ShuffleSession → Bool
done s = leb (seats s.kr) s.next_index

-- 0 past the last seat.
unfoldable pub expected_player : ShuffleSession → ℕ
expected_player s = get_or s.kr.order s.next_index 0

unfoldable pub is_local_turn : ShuffleSession → Bool
is_local_turn s = expected_player s == s.kr.local_id

-- Whether there is no error.
unfoldable pub validate_incoming : ShuffleMessage → ShuffleSession → Bool
validate_incoming msg s =
    if msg.player_id == 0
    then false
    else if not (length msg.output_deck == s.proto.num_cards)
    then false
    else elim msg.commitment [ none ↦ false | some c ↦ msg.hand_num == s.hand_num ]

abbrev pub commitments_equal : Option Commitment → Option Commitment → Bool
commitments_equal none none = true
commitments_equal none (some d) = false
commitments_equal (some c) none = false
commitments_equal (some c) (some d) =
    if equal_bytes c.hash d.hash then equal_bytes c.nonce d.nonce else false

-- `equal_bytes` compares any numbers.
unfoldable pub messages_equal : ShuffleMessage → ShuffleMessage → Bool
messages_equal a b =
    if not (a.hand_num == b.hand_num)
    then false
    else if not (a.player_id == b.player_id)
    then false
    else if not (equal_bytes a.output_deck b.output_deck)
    then false
    else commitments_equal a.commitment b.commitment

module _ (sha256 : List ℕ → List ℕ) where
  -- VerifyStep on the message.
  unfoldable pub is_verified : ShuffleMessage → Bool
  is_verified msg = elim msg.commitment [
    | none ↦ false
    | some c ↦ verify_deck sha256 c msg.output_deck
  ]

  -- The session, and whether there was no error: without one it is as before.
  unfoldable pub verify_and_adopt : ShuffleMessage → ShuffleSession → ShuffleSession × Bool
  verify_and_adopt msg s =
      if is_verified msg
      then (
        record s {
          applied = insert s.next_index msg s.applied;
          current = msg.output_deck;
          next_index = suc s.next_index;
        },
        true,
      )
      else (s, false)

  -- The loop, with as much fuel as rounds are allowed.
  unfoldable pub drain_pending : ℕ → ShuffleSession → ShuffleSession × Bool
  drain_pending zero s = (s, true)
  drain_pending (suc fuel) s =
      if done s
      then (s, true)
      else if is_local_turn s
      then (s, true)
      else elim (lookup s.next_index s.pending) [
        | none ↦ (s, true)
        | some msg ↦
            let (s', adopted) =
              verify_and_adopt msg (record s { pending = delete s.next_index s.pending }) in
            elim adopted [ true ↦ drain_pending fuel s' | false ↦ (s', false) ]
      ]

  -- A round of the loop takes a seat, so a round for each seat and one more are enough.
  abbrev pub drain : ShuffleSession → ShuffleSession × Bool
  drain s = drain_pending (suc (seats s.kr)) s

  abbrev pub reply_if : Bool → Reply → Reply
  reply_if true r = r
  reply_if false r = refused

  unfoldable pub execute_local : List (ℕ × ℕ) → List ℕ → ShuffleSession → ShuffleSession × Reply
  execute_local swaps nonce s =
      if not (is_local_turn s)
      then (s, refused)
      else elim (execute_step sha256 s.proto s.kr.local_id s.current s.kr.local swaps nonce) [
        | none ↦ (s, refused)
        | some step ↦
            let msg = shuffle_message_from_step s.hand_num step in
            let (s', adopted) = verify_and_adopt msg (record s { local_perm = step.permutation }) in
            elim adopted [
              | false ↦ (s', refused)
              | true ↦ let (s'', drained) = drain s' in (s'', reply_if drained (send msg))
            ]
      ]

  unfoldable pub after_apply : List (ℕ × ℕ) → List ℕ → ShuffleSession → ShuffleSession × Reply
  after_apply swaps nonce s =
      let (s', drained) = drain s in
      if not drained
      then (s', refused)
      else if done s'
      then (s', silent)
      else if is_local_turn s'
      then execute_local swaps nonce s'
      else (s', silent)

  unfoldable pub start : List (ℕ × ℕ) → List ℕ → ShuffleSession → ShuffleSession × Reply
  start swaps nonce s =
      if s.started
      then (s, refused)
      else if not (s.next_index == 0)
      then (s, refused)
      else let s' = record s { started = true; current = s.initial } in
        if is_local_turn s' then execute_local swaps nonce s' else (s', silent)

  -- A message of the seat `seat`, which passed the first checks.
  unfoldable pub handle_at :
      ℕ → List (ℕ × ℕ) → List ℕ → ShuffleMessage → ShuffleSession → ShuffleSession × Reply
  handle_at seat swaps nonce msg s =
      if ltb seat s.next_index
      then elim (lookup seat s.applied) [
        | none ↦ (s, refused)
        | some prev ↦ (s, if messages_equal prev msg then silent else refused)
      ]
      else if seat == s.next_index
      then if not (msg.player_id == expected_player s)
        then (s, refused)
        else if msg.player_id == s.kr.local_id
        then (s, refused)
        else (let (s', adopted) = verify_and_adopt msg s in
            if adopted then after_apply swaps nonce s' else (s', refused))
      else if msg.player_id == s.kr.local_id
      then (s, refused)
      else elim (lookup seat s.pending) [
        | some prev ↦ (s, if messages_equal prev msg then silent else refused)
        | none ↦ (record s { pending = insert seat msg s.pending }, silent)
      ]

  unfoldable pub handle_message :
      List (ℕ × ℕ) → List ℕ → ShuffleMessage → ShuffleSession → ShuffleSession × Reply
  handle_message swaps nonce msg s =
      if not s.started
      then (s, refused)
      else if not (validate_incoming msg s)
      then (s, refused)
      else elim (seat_index msg.player_id s.kr) [
        | none ↦ (s, refused)
        | some seat ↦ handle_at seat swaps nonce msg s
      ]

unfoldable pub encrypted_deck : ShuffleSession → Option EncryptedDeck
encrypted_deck s = if done s then new_encrypted_deck s.current (modulus s.kr) s.session_id else none
