-- ===== src/Network/CryptoHand/Delegated.antt =====
-- The peels on behalf of players who are gone: the loop over them ends at a player who is not.
use decentralized_poker_engi.Common.{
  ℕ, zero, suc, ◌<◌, ◌≡◌, ◌≢◌, refl, sym, subst, arith, Bool, Bool-cases, true, ◌⊎◌, inl, inr,
  Option, Option-cases, none, some, List, [], ◌∷◌, ◌==◌, ==_iff, length,
}
use decentralized_poker_engi.Common.Maps.{lookup}
use decentralized_poker_engi.Crypto.Sra.{SraKey}
use decentralized_poker_engi.Crypto.DealSession.{DealSession, PeelMessage, expected_peeler}
use decentralized_poker_engi.Crypto.DealSession.Peels.{Reply, refused, take_outbound, steps_left}
use decentralized_poker_engi.Crypto.DealSession.Peels.Fewer.{peel_on_behalf_fewer}
use decentralized_poker_engi.Crypto.DealSession.Calls.{peel_on_behalf}
use decentralized_poker_engi.Network.CryptoHand.{
  CryptoHand, collect_peels, signal_peel_progress, designated_survivor,
}
use decentralized_poker_engi.Network.CryptoHand.Deals.{
  message_of, own_draws, delegated_loop, try_delegated_peels,
}

-- No peel that the next peeler owes is owed by a player who is gone.
abbrev pub IsUpToDate : Option DealSession → List (ℕ × SraKey) → Type 0
IsUpToDate none gone = Unit {0}
IsUpToDate (some d) gone = (expected_peeler d ≡ 0) ⊎ (lookup (expected_peeler d) gone ≡ none)

-- What a loop returns without an error.
abbrev Ends : CryptoHand × List PeelMessage × Bool → List (ℕ × SraKey) → Type 0
Ends r gone = r.2 ≡ true → IsUpToDate r.0.deal gone

collect_peels-steps_left :
    (d : DealSession) (first : Option PeelMessage)
    → steps_left (collect_peels d first).0 ≡ steps_left d
unfolding collect_peels take_outbound steps_left
collect_peels-steps_left d none = refl
collect_peels-steps_left d (some msg) = refl

signal-gone : (h : CryptoHand) → (signal_peel_progress h).gone ≡ h.gone
unfolding signal_peel_progress
signal-gone h = ground arith

message_of_not_refused :
    (r : Reply) (msg : Option PeelMessage) → message_of r ≡ some msg → r ≢ refused
message_of_not_refused r msg e f = ground (arith, e, f)

module _ (sha256 : List ℕ → List ℕ) (draws : ℕ → ℕ → ℕ) where
  delegated_loop-Ends :
      (fuel : ℕ) (d : DealSession) (h : CryptoHand)
      → steps_left d < fuel
      → Ends (delegated_loop sha256 draws fuel d h) h.gone
  unfolding delegated_loop
  delegated_loop-Ends zero d h enough = absurd (omega (arith, enough))
  delegated_loop-Ends (suc fuel) d h enough =
      let peeler = expected_peeler d in
      elim (Bool-cases (peeler == 0)) [
        | inl e ↦ rw (e, delegated_loop) (λ ok. inl ((==_iff peeler 0).0 e))
        | inr e ↦ elim (Option-cases (lookup peeler h.gone)) [
          | inl f ↦ rw (e, f, delegated_loop) (λ ok. inr f)
          | inr (key, f) ↦
              let next =
                peel_on_behalf sha256 (own_draws sha256 draws h) peeler key
                  (draws peeler d.card_index) d in
              elim (Option-cases (message_of next.1)) [
                | inl g ↦ rw (e, f, g, delegated_loop) (λ ok. absurd (ground (arith, ok)))
                | inr (msg, g) ↦
                    let d'' = (collect_peels next.0 msg).0 in
                    let h' = signal_peel_progress (record h { deal = some d'' }) in
                    let same = collect_peels-steps_left next.0 msg in
                    let fewer =
                      peel_on_behalf_fewer sha256 (own_draws sha256 draws h) peeler key
                        (draws peeler d.card_index) d (message_of_not_refused next.1 msg g) in
                    let rest =
                      delegated_loop-Ends fuel d'' h' (omega (arith, same, fewer, enough)) in
                    rw (e, f, g, delegated_loop)
                      (subst (Ends (delegated_loop sha256 draws fuel d'' h'))
                        (signal-gone (record h { deal = some d'' })) rest)
              ]
        ]
      ]

  no_gone :
      (d : DealSession) (gone : List (ℕ × SraKey))
      → (length gone == 0) ≡ true
      → lookup (expected_peeler d) gone ≡ none
  no_gone d [] e = refl
  no_gone d (g ∷ gone) e = absurd (ground (arith, e))

  try_delegated_peels-Ends :
      (h : CryptoHand)
      → designated_survivor h.kr.order h.gone ≡ h.kr.local_id
      → Ends (try_delegated_peels sha256 draws h) h.gone
  unfolding try_delegated_peels
  try_delegated_peels-Ends h survivor = elim (Option-cases h.deal) [
    | inl e ↦ rw (e, try_delegated_peels) (λ ok. subst (λ t. IsUpToDate t h.gone) (sym e) (tt {0}))
    | inr (d, e) ↦ elim (Bool-cases (length h.gone == 0)) [
      | inl f ↦
          rw (e, f, try_delegated_peels)
            (λ ok. subst (λ t. IsUpToDate t h.gone) (sym e) (inr (no_gone d h.gone f)))
      | inr f ↦
          let same : (designated_survivor h.kr.order h.gone == h.kr.local_id) ≡ true =
            (==_iff (designated_survivor h.kr.order h.gone) h.kr.local_id).1 survivor in
          rw (e, f, same, try_delegated_peels)
            (delegated_loop-Ends (suc (steps_left d)) d h (omega arith))
    ]
  ]

  -- At the survivor who peels for those who are gone, the loop of TryDelegatedPeels ends with an error
  -- or when the next peel is not owed by a player who is gone, in whatever state the session was.
  pub try_delegated_peels-IsUpToDate :
      (h : CryptoHand)
      → designated_survivor h.kr.order h.gone ≡ h.kr.local_id
      → (try_delegated_peels sha256 draws h).2 ≡ true
      → IsUpToDate (try_delegated_peels sha256 draws h).0.deal h.gone
  try_delegated_peels-IsUpToDate h survivor ok = try_delegated_peels-Ends h survivor ok
