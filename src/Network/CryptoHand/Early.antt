-- ===== src/Network/CryptoHand/Early.antt =====
-- The loop over the early peels, when one among them is bad.
use decentralized_poker_engi.Common.{
  ℕ, ◌≡◌, ◌≢◌, refl, sym, ap, ◌∙◌, arith, Bool-cases, true, false, inl, inr, Option, Option-cases,
  none, some, List, [], ◌∷◌, ◌++◌,
}
use decentralized_poker_engi.Crypto.DealSession.{DealSession, PeelMessage}
use decentralized_poker_engi.Crypto.DealSession.Peels.{Reply}
use decentralized_poker_engi.Crypto.DealSession.Calls.{handle_peel}
use decentralized_poker_engi.Network.CryptoHand.{
  CryptoHand, buffer_peel, is_premature_peel, collect_peels,
}
use decentralized_poker_engi.Network.CryptoHand.Deals.{
  message_of, own_draws, drain_peels_list, drain_peels,
}

-- What a message that was taken adds to what follows it.
abbrev pub before :
    List PeelMessage
    → CryptoHand × Option (List PeelMessage)
    → CryptoHand × Option (List PeelMessage)
before out r = (r.0, elim r.1 [ none ↦ none | some more ↦ some (out ++ more) ])

before_failed :
    (out : List PeelMessage) (r : CryptoHand × Option (List PeelMessage))
    → (before out r).1 ≡ none
    → r.1 ≡ none
before_failed out (h, none) e = refl
before_failed out (h, some more) e = absurd (ground (arith, e))

module _ (sha256 : List ℕ → List ℕ) (draws : ℕ → ℕ → ℕ) where
  abbrev pub answered : PeelMessage → DealSession → CryptoHand → DealSession × Reply
  answered msg d h = handle_peel sha256 (own_draws sha256 draws h) msg d

  module _ (msg : PeelMessage) (msgs : List PeelMessage) (d : DealSession) (h : CryptoHand) where
    pub drain_later :
        message_of (answered msg d h).1 ≡ none
        → is_premature_peel msg d ≡ true
        → drain_peels_list sha256 draws (msg ∷ msgs) d h
          ≡ drain_peels_list sha256 draws msgs (answered msg d h).0 (buffer_peel msg h)
    unfolding drain_peels_list
    drain_later e f = rw (e, f, drain_peels_list) refl

    pub drain_bad :
        message_of (answered msg d h).1 ≡ none
        → is_premature_peel msg d ≡ false
        → drain_peels_list sha256 draws (msg ∷ msgs) d h
          ≡ (record h { deal = some (answered msg d h).0 }, none)
    unfolding drain_peels_list
    drain_bad e f = rw (e, f, drain_peels_list) refl

    pub drain_taken :
        (first : Option PeelMessage)
        → message_of (answered msg d h).1 ≡ some first
        → let (d', out) = collect_peels (answered msg d h).0 first in
          drain_peels_list sha256 draws (msg ∷ msgs) d h
          ≡ before out (drain_peels_list sha256 draws msgs d' h)
    unfolding drain_peels_list
    drain_taken first e = rw (e, drain_peels_list) refl

  pub drain_end :
      (d : DealSession) (h : CryptoHand)
      → drain_peels_list sha256 draws [] d h ≡ (record h { deal = some d }, some [])
  unfolding drain_peels_list
  drain_end d h = refl

  drain_none : (d : DealSession) (h : CryptoHand) → (drain_peels_list sha256 draws [] d h).1 ≢ none
  unfolding drain_peels_list
  drain_none d h e = ground (arith, e)

  drain_list_failed :
      (pre rest : List PeelMessage) (d : DealSession) (h : CryptoHand)
      → (drain_peels_list sha256 draws pre d h).1 ≡ none
      → drain_peels_list sha256 draws (pre ++ rest) d h ≡ drain_peels_list sha256 draws pre d h
  drain_list_failed [] rest d h e = absurd (drain_none d h e)
  drain_list_failed (msg ∷ pre) rest d h e = elim (Option-cases (message_of (answered msg d h).1)) [
    | inl f ↦ elim (Bool-cases (is_premature_peel msg d)) [
      | inl g ↦
          drain_later msg (pre ++ rest) d h f g
          ∙ drain_list_failed pre rest (answered msg d h).0 (buffer_peel msg h)
              (ap (λ r. r.1) (sym (drain_later msg pre d h f g)) ∙ e)
          ∙ sym (drain_later msg pre d h f g)
      | inr g ↦ drain_bad msg (pre ++ rest) d h f g ∙ sym (drain_bad msg pre d h f g)
    ]
    | inr (first, f) ↦
        let (d', out) = collect_peels (answered msg d h).0 first in
        drain_taken msg (pre ++ rest) d h first f
        ∙ ap (before out) (
            drain_list_failed pre rest d' h (
              before_failed out (drain_peels_list sha256 draws pre d' h)
                (ap (λ r. r.1) (sym (drain_taken msg pre d h first f)) ∙ e)))
        ∙ sym (drain_taken msg pre d h first f)
  ]

  pub drain_peels_of :
      (peels : List PeelMessage) (h : CryptoHand) (d : DealSession)
      → h.deal ≡ some d
      → drain_peels sha256 draws (record h { early_peels = peels })
        ≡ drain_peels_list sha256 draws peels d (record h { early_peels = [] })
  unfolding drain_peels
  drain_peels_of peels h d e =
      ap
        (λ (t : Option DealSession). elim t as (λ u. CryptoHand × Option (List PeelMessage)) [
          | none ↦ (record h { early_peels = peels }, some [])
          | some d' ↦ drain_peels_list sha256 draws peels d' (record h { early_peels = [] })
        ])
        e

  drain_peels_without :
      (peels : List PeelMessage) (h : CryptoHand)
      → h.deal ≡ none
      → (drain_peels sha256 draws (record h { early_peels = peels })).1 ≢ none
  unfolding drain_peels
  drain_peels_without peels h e f = ground (arith, e, f)

  -- If the loop over the early peels returns an error, then whatever peels are behind these in the
  -- buffer, it returns the same error with the same hand: they are neither applied nor kept, and what
  -- was produced before the error is not returned.
  pub drain_peels_failed :
      (pre rest : List PeelMessage) (h : CryptoHand)
      → (drain_peels sha256 draws (record h { early_peels = pre })).1 ≡ none
      → drain_peels sha256 draws (record h { early_peels = pre ++ rest })
        ≡ drain_peels sha256 draws (record h { early_peels = pre })
  drain_peels_failed pre rest h e = elim (Option-cases h.deal) [
    | inl f ↦ absurd (drain_peels_without pre h f e)
    | inr (d, f) ↦
        drain_peels_of (pre ++ rest) h d f
        ∙ drain_list_failed pre rest d (record h { early_peels = [] })
            (ap (λ r. r.1) (sym (drain_peels_of pre h d f)) ∙ e)
        ∙ sym (drain_peels_of pre h d f)
  ]
