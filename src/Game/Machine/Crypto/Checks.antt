-- ===== src/Game/Machine/Crypto/Checks.antt =====
-- What ApplyStreet checks of the cards that are revealed.
use decentralized_poker_engi.Common.{
  ◌≡◌, ◌≢◌, refl, arith, List, [], ◌∷◌, none, true, false, length, leb, ◌==◌, if◌then◌else◌,
  Bool-cases, Option-cases, inl, inr, ◌⊎◌,
}
use decentralized_poker_engi.Game.Cards.{Card, dealt}
use decentralized_poker_engi.Game.State.{GameState, Error, err}
use decentralized_poker_engi.Game.Machine.Showdown.{crypto_mode}
use decentralized_poker_engi.Game.Machine.Crypto.{
  holds_card, known_dealt_cards, check_cards, pending_street_count, is_awaiting, place_street,
  apply_street,
}

-- Real cards, none of them among `seen`, and no two the same.
abbrev pub Fresh : List Card → List Card → Type 0
Fresh seen [] = Unit {0}
Fresh seen (c ∷ cs) = (dealt c ≡ true) × (holds_card seen c ≡ false) × Fresh (c ∷ seen) cs

-- The check of the new cards passes exactly for fresh ones.
check_cards→Fresh : (seen cs : List Card) → check_cards seen cs ≡ none → Fresh seen cs
unfolding check_cards
check_cards→Fresh seen [] h = tt
check_cards→Fresh seen (c ∷ cs) h = ground (arith, check_cards→Fresh (c ∷ seen) cs)

Fresh→check_cards : (seen cs : List Card) → Fresh seen cs → check_cards seen cs ≡ none
unfolding check_cards
Fresh→check_cards seen [] h = refl
Fresh→check_cards seen (c ∷ cs) h = ground (arith, Fresh→check_cards (c ∷ seen) cs h.2)

-- What ApplyStreet asks of its cards and of the state.
pub record IsStreet (cards : List Card) (s : GameState) : Type 0 where
  pub crypto : crypto_mode s ≡ true
  pub awaiting : is_awaiting s.phase ≡ true
  pub pending : pending_street_count (length s.community) ≢ 0
  pub counted : length cards ≡ pending_street_count (length s.community)
  pub fresh : Fresh (known_dealt_cards s) cards

-- The cards get as far as the board, or are refused without a change.
pub apply_street_cases :
    (cards : List Card) (s : GameState)
    → (IsStreet cards s × (apply_street cards s ≡ place_street cards s))
      ⊎ ((e : Error) × (¬ IsStreet cards s) × (apply_street cards s ≡ (s, err e)))
unfolding apply_street
apply_street_cases cards s =
    let n = pending_street_count (length s.community) in
    elim (Bool-cases (crypto_mode s)) [
      | inr local ↦ inr (Error.not_crypto, λ v. cc (v.crypto), ground (arith, local))
      | inl crypto ↦ elim (Bool-cases (is_awaiting s.phase)) [
        | inr early ↦ inr (Error.wrong_phase, λ v. cc (v.awaiting), ground (arith, crypto, early))
        | inl late ↦ elim (Bool-cases (n == 0)) [
          | inl full ↦ inr (
            if leb 5 (length s.community) then Error.board_complete else Error.unexpected_board,
            λ v. ground (arith, v.pending, full),
            ground (arith, crypto, late, full),
          )
          | inr room ↦ elim (Bool-cases (length cards == n)) [
            | inr miscounted ↦ inr (
              Error.wrong_card_count,
              λ v. ground (arith, v.counted, miscounted),
              ground (arith, crypto, late, room, miscounted),
            )
            | inl counted ↦ elim (Option-cases (check_cards (known_dealt_cards s) cards)) [
              | inl fresh ↦ inl (
                record {
                  crypto = crypto;
                  awaiting = late;
                  pending = λ e. ground (arith, room, e);
                  counted = ground (arith, counted);
                  fresh = check_cards→Fresh (known_dealt_cards s) cards fresh;
                },
                ground (arith, crypto, late, room, counted, fresh),
              )
              | inr (e, stale) ↦ inr (
                e,
                λ v. cc (stale, Fresh→check_cards (known_dealt_cards s) cards v.fresh),
                ground (arith, crypto, late, room, counted, stale),
              )
            ]
          ]
        ]
      ]
    ]
