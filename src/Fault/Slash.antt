-- ===== src/Fault/Slash.antt =====
-- internal/fault/slash.go: the records of violations. Times and evidence are left out; whether the
-- log shows an equivocation and whether a proof holds are arguments.
pub mod Records
use decentralized_poker_engi.Common.{
  ℕ, Bool, true, false, Option, none, some, List, [], ◌∷◌, ◌++◌, ◌==◌, if◌then◌else◌,
}
use decentralized_poker_engi.Common.Maps.{lookup, insert}
use decentralized_poker_engi.Game.Machine.Showdown.{is_empty}

pub data SlashReason : Type 0 where
  equivocation bad_zk_proof invalid_action key_withholding : SlashReason

pub record SlashRecord : Type 0 where
  pub peer_id : ℕ
  pub reason : SlashReason
  pub hand_num : ℕ

-- `slashed[id]` is true for the keys of the map.
pub record SlashDetector : Type 0 where
  pub hand_num : ℕ
  pub records : List SlashRecord
  pub slashed : List (ℕ × Bool)

unfoldable pub new_slash_detector : ℕ → SlashDetector
new_slash_detector hand = record { hand_num = hand; records = []; slashed = [] }

unfoldable pub add_record : SlashRecord → SlashDetector → SlashDetector
add_record r sd = record sd {
  records = sd.records ++ r ∷ [];
  slashed = insert r.peer_id true sd.slashed;
}

abbrev record_of : SlashDetector → ℕ → SlashReason → SlashRecord
record_of sd peer why = record { peer_id = peer; reason = why; hand_num = sd.hand_num }

-- `none` is the empty sender of a log without an equivocation.
unfoldable pub check_equivocation : Option ℕ → SlashDetector → SlashDetector
check_equivocation none sd = sd
check_equivocation (some sender) sd = add_record (record_of sd sender equivocation) sd

-- `valid` is the result of the verification of the peer's partial decryption.
unfoldable pub check_partial_decryption : ℕ → Bool → SlashDetector → SlashDetector
check_partial_decryption peer valid sd =
    if valid then sd else add_record (record_of sd peer bad_zk_proof) sd

unfoldable pub check_invalid_action : ℕ → SlashDetector → SlashDetector
check_invalid_action peer sd = add_record (record_of sd peer invalid_action) sd

unfoldable pub check_key_withholding : ℕ → SlashDetector → SlashDetector
check_key_withholding peer sd = add_record (record_of sd peer key_withholding) sd

unfoldable pub is_slashed : ℕ → SlashDetector → Bool
is_slashed peer sd = elim (lookup peer sd.slashed) [ none ↦ false | some b ↦ b ]

unfoldable pub has_violations : SlashDetector → Bool
has_violations sd = if is_empty sd.records then false else true
