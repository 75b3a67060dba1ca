-- ===== src/Network/CryptoHand.antt =====
-- internal/network/crypto_hand.go: the driver of one hand's shuffle and peels, over the two sessions,
-- with buffers for messages that come early. A gate is what a Wait blocks on: closed, signalled or
-- failed. `none` for messages is an error. `draws` are the random numbers of the proofs, by player and
-- card; the sessions' calls end (DealSession.Peels.Ends), so `out_of_fuel` does not occur.
pub mod Shuffles
pub mod Deals
pub mod Early
pub mod Sound
pub mod Invariant
pub mod Delegated
use decentralized_poker_engi.Common.{
  ℕ, ◌+◌, ◌/◌, ◌%◌, Bool, true, false, not, Option, none, some, List, [], ◌∷◌, ◌++◌, map, length,
  leb, ltb, ◌==◌, if◌then◌else◌,
}
use decentralized_poker_engi.Common.Maps.{lookup, insert}
use decentralized_poker_engi.Crypto.Sra.{SraKey, is_private}
use decentralized_poker_engi.Crypto.Params.{session_id as params_session_id}
use decentralized_poker_engi.Crypto.Keyring.{Keyring, seats}
use decentralized_poker_engi.Crypto.ShuffleSession.{
  ShuffleSession, ShuffleMessage, new_shuffle_session, done, encrypted_deck,
}
use decentralized_poker_engi.Crypto.DealSession.{
  DealSession, PeelMessage, is_idle, new_deal_session,
}
use decentralized_poker_engi.Crypto.DealSession.Peels.{take_outbound}

abbrev pub early_buf_cap : ℕ
early_buf_cap = 64

pub data Gate : Type 0 where
  closed signalled failed : Gate

-- `fail` and `signal` do nothing at a gate that is done.
unfoldable pub signal : Gate → Gate
signal closed = signalled
signal signalled = signalled
signal failed = failed

unfoldable pub fail : Gate → Gate
fail closed = failed
fail signalled = signalled
fail failed = failed

pub record CryptoHand : Type 0 where
  pub kr : Keyring
  pub hand_num : ℕ
  pub dealer_idx : ℕ
  pub session_id : List ℕ
  pub shuffle : ShuffleSession
  pub deal : Option DealSession
  pub shuffle_gate : Gate
  pub holes_gate : Gate
  pub street_gate : Gate
  pub reveal_gate : Gate
  pub early_shuffle : List ShuffleMessage
  pub early_peels : List PeelMessage
  pub gone : List (ℕ × SraKey)

-- `text` gives the bytes of an identifier.
unfoldable pub new_crypto_hand :
    (List ℕ → List ℕ) → (ℕ → List ℕ) → Keyring → List ℕ → ℕ → ℕ → Option CryptoHand
new_crypto_hand sha256 text kr lobby_nonce hand dealer_idx =
    let sid =
      params_session_id sha256 (map text kr.order)
        (lobby_nonce ++ hand / 256 % 256 ∷ hand % 256 ∷ []) in
    if ltb hand 1
    then none
    else if leb (seats kr) dealer_idx
    then none
    else if length lobby_nonce == 0
    then none
    else elim (new_shuffle_session kr sid hand) [
      | none ↦ none
      | some session ↦ some (record {
        kr = kr;
        hand_num = hand;
        dealer_idx = dealer_idx;
        session_id = sid;
        shuffle = session;
        deal = none;
        shuffle_gate = closed;
        holes_gate = closed;
        street_gate = closed;
        reveal_gate = closed;
        early_shuffle = [];
        early_peels = [];
        gone = [];
      })
    ]

unfoldable pub shuffle_done : CryptoHand → Bool
shuffle_done h = done h.shuffle

-- The hand, and whether there was no error.
unfoldable pub ensure_deal : CryptoHand → CryptoHand × Bool
ensure_deal h = elim h.deal [
  | some d ↦ (h, true)
  | none ↦ elim (encrypted_deck h.shuffle) [
    | none ↦ (h, false)
    | some deck ↦ elim (new_deal_session h.kr deck h.hand_num h.dealer_idx) [
      | none ↦ (h, false)
      | some d ↦ (record h { deal = some d }, true)
    ]
  ]
]

unfoldable pub after_shuffle : CryptoHand → CryptoHand × Bool
after_shuffle h =
    if not (done h.shuffle)
    then (h, true)
    else (let (h', ok) = ensure_deal h in
        if ok then (record h' { shuffle_gate = signal h'.shuffle_gate }, true) else (h', false))

unfoldable pub buffer_shuffle : ShuffleMessage → CryptoHand → CryptoHand
buffer_shuffle msg h =
    if leb early_buf_cap (length h.early_shuffle)
    then h
    else record h { early_shuffle = h.early_shuffle ++ msg ∷ [] }

unfoldable pub buffer_peel : PeelMessage → CryptoHand → CryptoHand
buffer_peel msg h =
    if leb early_buf_cap (length h.early_peels)
    then h
    else record h { early_peels = h.early_peels ++ msg ∷ [] }

-- Whether the error of HandlePeel is that no job runs, or another card's.
unfoldable pub is_premature_peel : PeelMessage → DealSession → Bool
is_premature_peel msg d =
    if is_idle d
    then true
    else if msg.player_id == 0
    then false
    else if not (msg.hand_num == d.hand_num)
    then false
    else not (msg.card_index == d.card_index)

-- The messages of a reply, and those that wait to follow it.
unfoldable pub collect_peels : DealSession → Option PeelMessage → DealSession × List PeelMessage
collect_peels d none = take_outbound d
collect_peels d (some msg) = let (d', out) = take_outbound d in (d', msg ∷ out)

unfoldable pub signal_peel_progress : CryptoHand → CryptoHand
signal_peel_progress h = elim h.deal [
  | none ↦ h
  | some d ↦ record h {
    holes_gate = if d.holes_done then signal h.holes_gate else h.holes_gate;
    street_gate = if d.street_done then signal h.street_gate else h.street_gate;
    reveal_gate = if d.reveal_done then signal h.reveal_gate else h.reveal_gate;
  }
]

unfoldable pub mark_gone : ℕ → SraKey → CryptoHand → CryptoHand × Bool
mark_gone id key h =
    if id == 0
    then (h, false)
    else if not (is_private key)
    then (h, false)
    else (record h { gone = insert id key h.gone }, true)

-- internal/network/liveness.go: the first seat that is not gone, and 0 if there is none.
unfoldable pub designated_survivor : List ℕ → List (ℕ × SraKey) → ℕ
designated_survivor [] gone = 0
designated_survivor (id ∷ ids) gone =
    let rest = designated_survivor ids gone in elim (lookup id gone) [ none ↦ id | some k ↦ rest ]

unfoldable pub abort_shuffle : CryptoHand → CryptoHand
abort_shuffle h = record h { shuffle_gate = fail h.shuffle_gate }
