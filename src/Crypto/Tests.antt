-- ===== src/Crypto/Tests.antt =====
-- The theorems about internal/crypto modulo 107, of which 2 is a primitive root, with an identity for
-- the hash.
pub mod Deals
use decentralized_poker_engi.Common.{
  ℕ, zero, suc, ◌+◌, ◌<◌, ◌≡◌, refl, arith, Bool, true, false, ◌&&◌, none, some, List, [], ◌∷◌, map,
  ◌⊎◌, leb, ◌==◌, if◌then◌else◌,
}
use mathlib.Core.List.{Perm}
use decentralized_poker_engi.Game.Cards.{card_from_id}
use decentralized_poker_engi.Crypto.Modular.{exp, IsFermat}
use decentralized_poker_engi.Crypto.Params.{
  card_to_field, field_to_card, find_card, build_plaintext_deck, shared_prime,
}
use decentralized_poker_engi.Crypto.Params.Field.{IsCardField, large-IsCardField}
use decentralized_poker_engi.Crypto.Commit.{new_deck_commitment}
use decentralized_poker_engi.Crypto.Sra.{SraKey, encrypt, decrypt}
use decentralized_poker_engi.Crypto.Sra.Pairs.{decrypt-encrypt, encrypt_comm}
use decentralized_poker_engi.Crypto.Zkp.{
  ZkProof, PartialDecryption, prove_decryption, verify_decryption,
}
use decentralized_poker_engi.Crypto.Zkp.Acceptance.{prove_decryption-verify}
use decentralized_poker_engi.Crypto.Deal.{EncryptedDeck, hole_card_index, community_start_pos}
use decentralized_poker_engi.Crypto.Deal.Places.{hole_card_index_once}
use decentralized_poker_engi.Crypto.Deal.Layers.{seal}
use decentralized_poker_engi.Crypto.Deal.Protocol.{
  new_deal_protocol, reveal_community, reveal_to_player,
}
use decentralized_poker_engi.Crypto.CryptoGame.{CryptoGame, run_shuffle}
use decentralized_poker_engi.Crypto.CryptoGame.Dealt.{
  IsHonest, run_shuffle_lem, revealed_after_shuffle,
}
use decentralized_poker_engi.Crypto.Keyring.{Keyring, seats, modulus, index_of}
use decentralized_poker_engi.Crypto.Shuffle.{new_shuffle_protocol}
use decentralized_poker_engi.Crypto.ShuffleSession.{
  ShuffleSession, ShuffleMessage, new_session, drain_pending,
}
use decentralized_poker_engi.Crypto.ShuffleSession.Order.{IsSound}
use decentralized_poker_engi.Crypto.ShuffleSession.Runs.{
  Call, begin, receive, perform_all, new_session-IsSound, IsStopped, drain_pending_stops,
}
use decentralized_poker_engi.Crypto.DealSession.{
  DealSession, PeelMessage, peel_message_from_pd, peel_message_to_pd, seq_idle, seq_street,
  job_idle, job_public, no_job, make_deal_session, job_complete,
}
use decentralized_poker_engi.Crypto.DealSession.Peels.{
  refused, apply_incoming, execute_local, is_local_turn, peeler_index,
}
use decentralized_poker_engi.Crypto.DealSession.Calls.{Call as DealCall, holes, behalf, perform}
use decentralized_poker_engi.Crypto.DealSession.Peels.Lost.{own_peel_lost}
use decentralized_poker_engi.Crypto.Deal.{peel, verify_and_apply}
use decentralized_poker_engi.Crypto.Bytes.{
  set_bytes, set_bytes_from, length_bytes, bytes, bytes_onto,
}
use decentralized_poker_engi.Crypto.Zkp.{verify, compute_challenge, challenge_text}
use decentralized_poker_engi.Crypto.Sra.{is_private, validate_message}
use decentralized_poker_engi.Crypto.DealSession.Peels.Ends.{is_in_time, perform_in_time}
use decentralized_poker_engi.Crypto.DealSession.Chain.{IsSound as IsDealSound}
use decentralized_poker_engi.Crypto.DealSession.Chain.Calls.{
  perform_all as perform_deal, make_deal_session-IsSound,
}

-- A test of every number below `n`.
all_below : ℕ → (ℕ → Bool) → Bool
all_below zero p = true
all_below (suc n) p = p n && all_below n p

all_below_lem : (n : ℕ) (p : ℕ → Bool) (x : ℕ) → all_below n p ≡ true → x < n → p x ≡ true
unfolding all_below
all_below_lem zero p x h lt = absurd (omega arith)
all_below_lem (suc n) p x h lt = ground (arith, all_below_lem n p x)

fermat_table : all_below 107 (λ a. if a == 0 then true else exp a 106 107 == 1) ≡ true
unfolding all_below exp
fermat_table = refl

fermat : IsFermat 107
fermat a h l =
    let row =
      all_below_lem 107 (λ a. if a == 0 then true else exp a 106 107 == 1) a fermat_table l in
    ground (arith, row)

is_card : ℕ → Bool
is_card id =
    let c = card_to_field id 107 in
    leb 1 c && leb (c + 2) 107 && (elim (field_to_card c 107) [ none ↦ false | some i ↦ i == id ])

card_table : all_below 52 is_card ≡ true
unfolding all_below is_card card_to_field field_to_card find_card exp
card_table = refl

cards : IsCardField 107
unfolding is_card
cards id h = let row = all_below_lem 52 is_card id card_table h in ground (arith, row)

abbrev pub alice_key : SraKey
alice_key = record { e = 3; d = some 71; p = 107 }

abbrev pub bob_key : SraKey
bob_key = record { e = 5; d = some 85; p = 107 }

abbrev pub table : CryptoGame
table = record {
  p = 107;
  session_id = 9 ∷ [];
  players = 1 ∷ 2 ∷ [];
  keys = alice_key ∷ bob_key ∷ [];
  deck = none;
  shuffle_log = [];
  deal_log = [];
}

honest : IsHonest table
honest = record {
  fermat = fermat;
  odd = refl;
  cards = cards;
  session = omega arith;
  matched = refl;
  named = (omega arith, (omega arith, tt));
  pairs = ((71, (refl, refl, refl)), ((85, (refl, refl, refl)), tt));
}

decrypt-encrypt_example : (c : ℕ) × (encrypt alice_key 8 ≡ some c) × (decrypt alice_key c ≡ some 8)
decrypt-encrypt_example =
    decrypt-encrypt 107 fermat refl alice_key 71 8 (refl, refl, refl) (omega arith, omega arith)

encrypt_comm_example :
    (a b c : ℕ) × (encrypt alice_key 8 ≡ some a)
    × (encrypt bob_key a ≡ some c)
    × (encrypt bob_key 8 ≡ some b)
    × (encrypt alice_key b ≡ some c)
encrypt_comm_example =
    encrypt_comm 107 fermat refl alice_key bob_key 71 85 8 (refl, refl, refl) (refl, refl, refl)
      (omega arith, omega arith)

abbrev pub hash : List ℕ → List ℕ
hash xs = xs

prove_decryption-verify_example :
    (proof : ZkProof) × (prove_decryption hash alice_key 8 (exp 8 71 107) (9 ∷ []) 4 ≡ some proof)
    × (verify_decryption hash proof 8 (exp 8 71 107) 107 (9 ∷ []) ≡ true)
prove_decryption-verify_example =
    prove_decryption-verify 107 fermat hash alice_key 71 8 4 (9 ∷ []) refl refl
      (omega arith, omega arith)

-- Both players swap two cards.
abbrev swaps : ℕ → List (ℕ × ℕ)
swaps i = (i, 7) ∷ []

abbrev nonces : ℕ → List ℕ
nonces i = i ∷ []

run_shuffle_lem_example :
    (deck : EncryptedDeck) × (after : CryptoGame) × (run_shuffle hash swaps nonces table
      ≡ some after)
    × (after.deck ≡ some deck)
    × Perm deck.cards (map (seal 107 table.keys) (build_plaintext_deck 107))
run_shuffle_lem_example = run_shuffle_lem hash swaps nonces table honest

revealed_after_shuffle_example :
    (deck : EncryptedDeck) × (after : CryptoGame) × (run_shuffle hash swaps nonces table
      ≡ some after)
    × (after.deck ≡ some deck)
    × (id : ℕ) × (id < 52)
    × (ps : List PartialDecryption) × (qs : List PartialDecryption) × (reveal_community hash
          (λ i j. i + j)
          (new_deal_protocol deck table.players table.keys)
          5
        ≡ some (card_from_id id, ps))
    × (reveal_to_player hash (λ i j. i + j) (new_deal_protocol deck table.players table.keys) 5 1
        ≡ some (card_from_id id, qs))
revealed_after_shuffle_example =
    revealed_after_shuffle hash swaps nonces table honest (λ i j. i + j) 5 1 (omega arith)
      (omega arith)

abbrev pub ring : Keyring
ring = record { local_id = 1; local = alice_key; pubs = []; order = 1 ∷ 2 ∷ [] }

abbrev session : ShuffleSession
session = record {
  kr = ring;
  proto = record { p = 107; session_id = 9 ∷ []; num_cards = 2 };
  hand_num = 1;
  session_id = 9 ∷ [];
  initial = 2 ∷ 4 ∷ [];
  started = false;
  next_index = 0;
  current = [];
  pending = [];
  applied = [];
  local_perm = [];
}

-- The second player's message comes before the local step.
abbrev early : ShuffleMessage
early = record {
  hand_num = 1;
  player_id = 2;
  output_deck = 32 ∷ 8 ∷ [];
  commitment = some (new_deck_commitment hash (32 ∷ 8 ∷ []) (7 ∷ []));
}

abbrev calls : List Call
calls = receive [] [] early ∷ begin ((0, 1) ∷ []) (5 ∷ []) ∷ receive [] [] early ∷ []

new_session-IsSound_example : IsSound hash (perform_all hash calls session)
unfolding new_session new_shuffle_protocol seats modulus
new_session-IsSound_example =
    new_session-IsSound hash ring (9 ∷ []) 1 (2 ∷ 4 ∷ []) session calls (omega arith) refl
