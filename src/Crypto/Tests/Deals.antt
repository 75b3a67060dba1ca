-- ===== src/Crypto/Tests/Deals.antt =====
-- Concrete deal sessions, and the results applied to them.
use decentralized_poker_engi.Common.{ℕ, ◌≡◌, refl, arith, true, false, none, some, List, [], ◌∷◌}
use decentralized_poker_engi.Crypto.Modular.{exp}
use decentralized_poker_engi.Crypto.Sra.{decrypt}
use decentralized_poker_engi.Crypto.Zkp.{PartialDecryption, prove_decryption, verify_decryption}
use decentralized_poker_engi.Crypto.Keyring.{seats, modulus}
use decentralized_poker_engi.Crypto.DealSession.{
  DealSession, PeelMessage, peel_message_from_pd, peel_message_to_pd, seq_idle, seq_street,
  job_idle, job_public, no_job, make_deal_session,
}
use decentralized_poker_engi.Crypto.DealSession.Peels.{execute_local, is_local_turn}
use decentralized_poker_engi.Crypto.DealSession.Calls.{Call as DealCall, holes, behalf, perform}
use decentralized_poker_engi.Crypto.DealSession.Peels.Lost.{own_peel_lost}
use decentralized_poker_engi.Crypto.Deal.{peel, verify_and_apply}
use decentralized_poker_engi.Crypto.Bytes.{
  set_bytes, set_bytes_from, length_bytes, bytes, bytes_onto,
}
use decentralized_poker_engi.Crypto.Zkp.{verify, compute_challenge, challenge_text}
use decentralized_poker_engi.Crypto.Sra.{is_private, validate_message}
use decentralized_poker_engi.Crypto.DealSession.Peels.Ends.{is_in_time, perform_in_time}
use decentralized_poker_engi.Crypto.DealSession.Chain.{IsSound as IsDealSound}
use decentralized_poker_engi.Crypto.DealSession.Chain.Calls.{
  perform_all as perform_deal, make_deal_session-IsSound,
}
use decentralized_poker_engi.Crypto.Tests.{hash, ring, alice_key, bob_key}

-- The dealer has seat 0, so that the local player's first step follows at once.
abbrev deck_cards : List ℕ
deck_cards = 32 ∷ 8 ∷ 16 ∷ 64 ∷ 21 ∷ 42 ∷ 84 ∷ 61 ∷ 15 ∷ 30 ∷ 60 ∷ 13 ∷ []

abbrev pub deal_session : DealSession
deal_session = record {
  kr = ring;
  hand_num = 1;
  session_id = 9 ∷ [];
  p = 107;
  dealer_idx = 0;
  cards = deck_cards;
  seq = seq_idle;
  seq_jobs = [];
  seq_job_idx = 0;
  street = 0;
  reveal_id = 0;
  job_kind = job_idle;
  card_index = 0;
  recipient = 0;
  peelers = [];
  next_peel = 0;
  current = 0;
  pending = [];
  applied = [];
  current_job = no_job;
  local_holes = (none, none);
  revealed = [];
  community = [];
  decoded = [];
  holes_done = false;
  street_done = false;
  reveal_done = false;
  last_street = 0;
  holes_started = false;
  outbound = [];
}

perform_in_time_example : is_in_time (perform hash (holes (λ i. i)) deal_session).1 ≡ true
perform_in_time_example = perform_in_time hash (holes (λ i. i)) deal_session

-- The peel of player 2 is made on his behalf.
abbrev deal_calls : List DealCall
deal_calls = holes (λ i. i) ∷ behalf 2 bob_key 4 (λ i. i) ∷ []

make_deal_session-IsSound_example : IsDealSound hash (perform_deal hash deal_calls deal_session)
unfolding make_deal_session seats modulus
make_deal_session-IsSound_example =
    make_deal_session-IsSound hash ring deck_cards (9 ∷ []) 107 1 0 deal_session deal_calls
      (((omega arith, tt), (tt, tt))) refl

-- Player 2's peel came before the local one, and its proof is of nothing.
abbrev pub wrong : PeelMessage
wrong = record {
  hand_num = 1;
  player_id = 2;
  card_index = 0;
  ciphertext = 72;
  result = 1;
  proof = record { a = 0; b = 0; s = 0; h = 0 };
}

abbrev own : PartialDecryption
own = record {
  player_id = 1;
  card_index = 0;
  ciphertext = 32;
  result = 72;
  proof = record { a = 16; b = 83; s = 81; h = 6 };
}

abbrev pub before : DealSession
before = record deal_session {
  seq = seq_street;
  job_kind = job_public;
  peelers = 1 ∷ 2 ∷ [];
  current = 32;
  pending = (1, wrong) ∷ [];
}

abbrev pub after : DealSession
after = record before {
  applied = (0, peel_message_from_pd 1 own) ∷ [];
  current = 72;
  next_peel = 1;
}

own_peeled : peel hash alice_key 32 0 1 (9 ∷ []) 4 ≡ some own
unfolding peel decrypt is_private prove_decryption compute_challenge exp validate_message set_bytes
    set_bytes_from challenge_text length_bytes bytes bytes_onto
own_peeled = refl

own_verified :
    verify_and_apply hash 32 (peel_message_to_pd (peel_message_from_pd 1 own)) 107 (9 ∷ [])
    ≡ some 72
unfolding peel_message_from_pd peel_message_to_pd verify_and_apply verify verify_decryption
    compute_challenge exp set_bytes set_bytes_from challenge_text length_bytes bytes bytes_onto
own_verified = refl

own_peel_lost_example : (execute_local hash (λ i. 4) 1 before).0.outbound ≡ []
unfolding is_local_turn verify verify_decryption peel_message_to_pd compute_challenge exp set_bytes
    set_bytes_from challenge_text length_bytes bytes bytes_onto
own_peel_lost_example =
    (own_peel_lost hash before (λ i. 4) 0 own 72 2 wrong (((omega arith, tt), (tt, tt))) refl
      own_peeled own_verified refl (omega arith) refl refl).1
