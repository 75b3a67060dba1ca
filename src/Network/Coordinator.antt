-- ===== src/Network/Coordinator.antt =====
-- internal/network/coordinator.go: RunHand, which takes a lobby that is ready to a hand with the keys of
-- all players at hand. The random choices are those of the parts; `none` is an error or a panic.
pub mod Holes
use decentralized_poker_engi.Common.{
  ℕ, Bool, true, false, Option, none, some, List, [], ◌∷◌, map, if◌then◌else◌,
}
use decentralized_poker_engi.Game.Player.{Player, new_player}
use decentralized_poker_engi.Game.State.{
  GameState, Outcome, ok, err, panic, out_of_fuel, new_game_state,
}
use decentralized_poker_engi.Game.Machine.Dealing.{start_hand_crypto}
use decentralized_poker_engi.Crypto.Sra.{SraKey}
use decentralized_poker_engi.Crypto.CryptoGame.{
  CryptoGame, new_crypto_game, run_shuffle, deal_to_engine,
}
use decentralized_poker_engi.Network.Lobby.{
  Lobby, SeatInfo, seats_in_order, canonical_player_order, session_nonce, set_playing,
}

-- The loop over the seats.
unfoldable pub hand_players : Lobby → List Player
hand_players l = map (λ (s : SeatInfo). new_player s.player_id s.buy_in) (seats_in_order l)

abbrev pub begun_hand : GameState × Outcome → Option GameState
begun_hand (s, ok) = some s
begun_hand (s, err e) = none
begun_hand (s, panic) = none
begun_hand (s, out_of_fuel) = none

module _ (sha256 : List ℕ → List ℕ) (text : ℕ → List ℕ) (generate : ℕ → List ℕ → Option SraKey)
    (keys : List (List ℕ)) (swaps : ℕ → List (ℕ × ℕ)) (nonces : ℕ → List ℕ) (draw : ℕ → ℕ → ℕ) where
  -- The game and the state of the hand.
  unfoldable pub prepare_hand : ℕ → ℕ → ℕ → Lobby → Option (CryptoGame × GameState)
  prepare_hand dealer sb bb l =
      let order = canonical_player_order l in
      elim (new_crypto_game sha256 text generate order (session_nonce l) keys) [
        | none ↦ none
        | some fresh ↦ elim (run_shuffle sha256 swaps nonces fresh) [
          | none ↦ none
          | some cg ↦
              let (gs, dealt) =
                deal_to_engine sha256 draw cg (new_game_state (hand_players l) dealer sb bb) in
              if dealt
              then elim (begun_hand (start_hand_crypto gs)) [ none ↦ none | some s ↦ some (cg, s) ]
              else none
        ]
      ]

  -- What follows WaitReady: the lobby is playing only if the hand has begun.
  unfoldable pub run_hand : ℕ → ℕ → ℕ → Lobby → Lobby × Option (CryptoGame × GameState)
  run_hand dealer sb bb l = elim (prepare_hand dealer sb bb l) [
    | none ↦ (l, none)
    | some hand ↦ (set_playing l, some hand)
  ]
