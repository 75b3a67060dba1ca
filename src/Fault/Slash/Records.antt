-- ===== src/Fault/Slash/Records.antt =====
-- The set of slashed peers agrees with the records.
use decentralized_poker_engi.Common.{
  ℕ, ◌≡◌, refl, arith, Bool, true, false, Option, none, some, List, [], ◌∷◌, ◌++◌, ◌==◌,
  if◌then◌else◌,
}
use decentralized_poker_engi.Common.Maps.{lookup-insert}
use decentralized_poker_engi.Fault.Slash.{
  SlashRecord, SlashDetector, new_slash_detector, add_record, check_equivocation,
  check_partial_decryption, check_invalid_action, check_key_withholding, is_slashed,
}

-- What is checked, one after the other.
pub data Check : Type 0 where
  log_checked : Option ℕ → Check
  proof_checked : ℕ → Bool → Check
  action_refused key_withheld : ℕ → Check

pub run_check : Check → SlashDetector → SlashDetector
run_check (log_checked sender) = check_equivocation sender
run_check (proof_checked peer valid) = check_partial_decryption peer valid
run_check (action_refused peer) = check_invalid_action peer
run_check (key_withheld peer) = check_key_withholding peer

pub run_checks : List Check → SlashDetector → SlashDetector
run_checks [] sd = sd
run_checks (c ∷ cs) sd = run_checks cs (run_check c sd)

-- A record names the peer.
abbrev pub names_peer : List SlashRecord → ℕ → Bool
names_peer [] peer = false
names_peer (r ∷ rs) peer = let rest = names_peer rs peer in if r.peer_id == peer then true else rest

abbrev pub Agrees : SlashDetector → Type 0
Agrees sd = (peer : ℕ) → is_slashed peer sd ≡ names_peer sd.records peer

names_peer-append :
    (rs : List SlashRecord) (r : SlashRecord) (peer : ℕ)
    → names_peer (rs ++ r ∷ []) peer ≡ (if names_peer rs peer then true else r.peer_id == peer)
names_peer-append [] r peer = ground arith
names_peer-append (x ∷ rs) r peer = ground (arith, names_peer-append rs r peer)

add_record-Agrees : (r : SlashRecord) (sd : SlashDetector) → Agrees sd → Agrees (add_record r sd)
unfolding add_record is_slashed
add_record-Agrees r sd a peer = ground (
  arith,
  a peer,
  lookup-insert r.peer_id peer true sd.slashed,
  names_peer-append sd.records r peer,
)

run_check-Agrees : (c : Check) (sd : SlashDetector) → Agrees sd → Agrees (run_check c sd)
unfolding run_check check_equivocation check_partial_decryption check_invalid_action
    check_key_withholding
run_check-Agrees (log_checked none) sd a = a
run_check-Agrees (log_checked (some sender)) sd a = add_record-Agrees _ sd a
run_check-Agrees (proof_checked peer true) sd a = a
run_check-Agrees (proof_checked peer false) sd a = add_record-Agrees _ sd a
run_check-Agrees (action_refused peer) sd a = add_record-Agrees _ sd a
run_check-Agrees (key_withheld peer) sd a = add_record-Agrees _ sd a

run_checks-Agrees : (cs : List Check) (sd : SlashDetector) → Agrees sd → Agrees (run_checks cs sd)
unfolding run_checks
run_checks-Agrees [] sd a = a
run_checks-Agrees (c ∷ cs) sd a = run_checks-Agrees cs (run_check c sd) (run_check-Agrees c sd a)

-- After any checks of a new detector, a peer is slashed exactly if one of the records names it.
pub run_checks-is_slashed :
    (hand : ℕ) (cs : List Check) (peer : ℕ)
    → let sd = run_checks cs (new_slash_detector hand) in
      is_slashed peer sd ≡ names_peer sd.records peer
unfolding new_slash_detector is_slashed
run_checks-is_slashed hand cs peer = run_checks-Agrees cs (new_slash_detector hand) (λ k. refl) peer
