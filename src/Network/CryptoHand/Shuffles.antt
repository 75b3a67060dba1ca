-- ===== src/Network/CryptoHand/Shuffles.antt =====
-- internal/network/crypto_hand.go: the messages of the shuffle. `swaps` and `nonce` are the random
-- choices of the local step, which a session makes once at most.
use decentralized_poker_engi.Common.{
  ℕ, true, false, Option, none, some, List, [], ◌∷◌, if◌then◌else◌,
}
use decentralized_poker_engi.Crypto.ShuffleSession.{
  ShuffleMessage, refused, silent, send, start, handle_message,
}
use decentralized_poker_engi.Network.CryptoHand.{CryptoHand, after_shuffle, buffer_shuffle}

abbrev pub with_extra : Option ShuffleMessage → List ShuffleMessage → List ShuffleMessage
with_extra none extra = extra
with_extra (some msg) extra = msg ∷ extra

module _ (sha256 : List ℕ → List ℕ) (swaps : List (ℕ × ℕ)) (nonce : List ℕ) where
  -- The loop over the early messages, which the buffer no longer holds.
  unfoldable pub drain_shuffle_list :
      List ShuffleMessage → CryptoHand → CryptoHand × Option (List ShuffleMessage)
  drain_shuffle_list [] h = (h, some [])
  drain_shuffle_list (msg ∷ msgs) h =
      let (s, reply) = handle_message sha256 swaps nonce msg h.shuffle in
      let h' = record h { shuffle = s } in
      elim reply [
        | refused ↦ elim h.shuffle.started [
          | false ↦ drain_shuffle_list msgs (buffer_shuffle msg h')
          | true ↦ (h', none)
        ]
        | silent ↦ drain_shuffle_list msgs h'
        | send out ↦
            let (h'', produced) = drain_shuffle_list msgs h' in
            (h'', elim produced [ none ↦ none | some more ↦ some (out ∷ more) ])
      ]

  unfoldable pub drain_shuffle : CryptoHand → CryptoHand × Option (List ShuffleMessage)
  drain_shuffle h = drain_shuffle_list h.early_shuffle (record h { early_shuffle = [] })

  -- What follows a message that the session took.
  unfoldable pub continue_shuffle :
      Option ShuffleMessage → CryptoHand → CryptoHand × Option (List ShuffleMessage)
  continue_shuffle out h =
      let (h', extra) = drain_shuffle h in
      elim extra [
        | none ↦ (h', none)
        | some more ↦
            let (h'', ok) = after_shuffle h' in
            (h'', if ok then some (with_extra out more) else none)
      ]

  unfoldable pub start_shuffle : CryptoHand → CryptoHand × Option (List ShuffleMessage)
  start_shuffle h =
      let (s, reply) = start sha256 swaps nonce h.shuffle in
      let h' = record h { shuffle = s } in
      elim reply [
        | refused ↦ (h', none)
        | silent ↦ continue_shuffle none h'
        | send out ↦ continue_shuffle (some out) h'
      ]

  unfoldable pub handle_shuffle :
      ShuffleMessage → CryptoHand → CryptoHand × Option (List ShuffleMessage)
  handle_shuffle msg h =
      let (s, reply) = handle_message sha256 swaps nonce msg h.shuffle in
      let h' = record h { shuffle = s } in
      elim reply [
        | refused ↦ if h.shuffle.started then (h', none) else (buffer_shuffle msg h', some [])
        | silent ↦ continue_shuffle none h'
        | send out ↦ continue_shuffle (some out) h'
      ]
