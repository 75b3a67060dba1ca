-- ===== src/Network/Tests/Hands.antt =====
-- Concrete hands, and the results on their driver applied to them.
use decentralized_poker_engi.Common.{ℕ, ◌≡◌, refl, arith, true, false, none, some, List, [], ◌∷◌}
use decentralized_poker_engi.Crypto.Params.{
  build_plaintext_deck, field_cards, session_id, session_text,
}
use decentralized_poker_engi.Crypto.Keyring.{seats, modulus, index_of}
use decentralized_poker_engi.Crypto.Modular.{exp}
use decentralized_poker_engi.Crypto.Sra.{decrypt, is_private, validate_message}
use decentralized_poker_engi.Crypto.Zkp.{
  prove_decryption, verify_decryption, verify, compute_challenge, challenge_text,
}
use decentralized_poker_engi.Crypto.Bytes.{
  set_bytes, set_bytes_from, length_bytes, bytes, bytes_onto,
}
use decentralized_poker_engi.Crypto.Deal.{peel, verify_and_apply}
use decentralized_poker_engi.Crypto.DealSession.Peels.{
  apply_incoming, peeler_index, after_apply, drain_pending, after_drain, finish_job, keep_public,
  advance_sequence, end_sequence, take_outbound, steps_left,
}
use decentralized_poker_engi.Crypto.DealSession.Calls.{handle_peel, peel_on_behalf}
use decentralized_poker_engi.Crypto.ShuffleSession.{
  ShuffleSession, new_shuffle_session, new_session,
}
use decentralized_poker_engi.Crypto.Shuffle.{new_shuffle_protocol}
use decentralized_poker_engi.Crypto.DealSession.{
  PeelMessage, is_idle, is_seq_idle, validate_incoming, expected_peeler, peel_message_from_pd,
  peel_message_to_pd, job_complete,
}
use decentralized_poker_engi.Crypto.Tests.{hash, ring, bob_key}
use decentralized_poker_engi.Crypto.Tests.Deals.{before, after, wrong}
use decentralized_poker_engi.Network.CryptoHand.{
  CryptoHand, closed, new_crypto_hand, is_premature_peel, designated_survivor, collect_peels,
  signal_peel_progress, signal,
}
use decentralized_poker_engi.Network.CryptoHand.Deals.{
  drain_peels, drain_peels_list, delegated_loop, try_delegated_peels,
}
use decentralized_poker_engi.Network.CryptoHand.Early.{drain_peels_failed}
use decentralized_poker_engi.Network.CryptoHand.Delegated.{
  IsUpToDate, try_delegated_peels-IsUpToDate,
}
use decentralized_poker_engi.Network.CryptoHand.Sound.{IsDealSound}
use decentralized_poker_engi.Network.CryptoHand.Invariant.{
  Operation, shuffling, deal_holes, peeled, lost, delegated, operate_all, operate_all-IsDealSound,
}

abbrev text : ℕ → List ℕ
text id = id ∷ []

abbrev sid : List ℕ
sid = 1 ∷ 0 ∷ 2 ∷ 0 ∷ 5 ∷ 0 ∷ 1 ∷ []

abbrev session : ShuffleSession
session = record {
  kr = ring;
  proto = record { p = 107; session_id = sid; num_cards = 52 };
  hand_num = 1;
  session_id = sid;
  initial = build_plaintext_deck 107;
  started = false;
  next_index = 0;
  current = [];
  pending = [];
  applied = [];
  local_perm = [];
}

abbrev hand : CryptoHand
hand = record {
  kr = ring;
  hand_num = 1;
  dealer_idx = 0;
  session_id = sid;
  shuffle = session;
  deal = none;
  shuffle_gate = closed;
  holes_gate = closed;
  street_gate = closed;
  reveal_gate = closed;
  early_shuffle = [];
  early_peels = [];
  gone = [];
}

abbrev pub draws : ℕ → ℕ → ℕ
draws id i = i

hand_made : new_crypto_hand hash text ring (5 ∷ []) 1 0 ≡ some hand
unfolding new_crypto_hand session_id session_text new_shuffle_session new_session seats modulus
    new_shuffle_protocol build_plaintext_deck field_cards
hand_made = refl

-- The shuffle, a peel too early, and player 2's loss.
abbrev operations : List Operation
operations =
    shuffling ((0, 7) ∷ []) (4 ∷ []) ∷ peeled wrong ∷ deal_holes ∷ lost 2 bob_key ∷ delegated ∷ []

operate_all-IsDealSound_example : IsDealSound hash (operate_all hash draws operations hand).deal
operate_all-IsDealSound_example =
    operate_all-IsDealSound hash draws text ring (5 ∷ []) 1 0 hand operations
      ((omega arith, tt), (tt, tt)) hand_made

-- A peel of a player who is not at the table.
abbrev stranger : PeelMessage
stranger = record wrong { player_id = 7 }

abbrev dealing : CryptoHand
dealing = record hand { deal = some before }

stranger_fails : (drain_peels hash draws (record dealing { early_peels = stranger ∷ [] })).1 ≡ none
unfolding drain_peels drain_peels_list handle_peel is_premature_peel is_idle is_seq_idle
    validate_incoming peeler_index index_of
stranger_fails = refl

drain_peels_failed_example :
    drain_peels hash draws (record dealing { early_peels = stranger ∷ wrong ∷ [] })
    ≡ drain_peels hash draws (record dealing { early_peels = stranger ∷ [] })
drain_peels_failed_example =
    drain_peels_failed hash draws (stranger ∷ []) (wrong ∷ []) dealing stranger_fails

-- The next peel is player 2's.
abbrev pub waiting : CryptoHand
waiting = record hand { deal = some after; gone = (2, bob_key) ∷ [] }

survivor : designated_survivor waiting.kr.order waiting.gone ≡ waiting.kr.local_id
unfolding designated_survivor
survivor = refl

bob_peeled : (try_delegated_peels hash draws waiting).2 ≡ true
unfolding try_delegated_peels delegated_loop designated_survivor expected_peeler is_idle is_seq_idle
    peel_on_behalf peel decrypt is_private validate_message prove_decryption compute_challenge exp
    set_bytes set_bytes_from challenge_text length_bytes bytes bytes_onto peel_message_from_pd
    peel_message_to_pd apply_incoming verify_and_apply verify verify_decryption peeler_index
    index_of after_apply drain_pending after_drain job_complete finish_job keep_public
    advance_sequence end_sequence collect_peels take_outbound signal_peel_progress steps_left seats
    signal
bob_peeled = refl

try_delegated_peels-IsUpToDate_example :
    IsUpToDate (try_delegated_peels hash draws waiting).0.deal waiting.gone
try_delegated_peels-IsUpToDate_example =
    try_delegated_peels-IsUpToDate hash draws waiting survivor bob_peeled
