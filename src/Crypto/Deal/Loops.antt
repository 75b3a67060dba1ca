-- ===== src/Crypto/Deal/Loops.antt =====
-- The loop over the players that takes the layers off one card.
use decentralized_poker_engi.Common.{
  ℕ, zero, suc, ◌+◌, ◌%◌, ◌<◌, ◌≡◌, ◌≢◌, refl, ap, ◌∙◌, arith, true, false, Option, none, some,
  List, [], ◌∷◌, ◌++◌, length, get_elem?, ◌==◌,
}
use decentralized_poker_engi.Crypto.Modular.{exp, IsFermat, IsMessage}
use decentralized_poker_engi.Crypto.Sra.{SraKey}
use decentralized_poker_engi.Crypto.Sra.Pairs.{IsPair, encrypt-IsMessage}
use decentralized_poker_engi.Crypto.Zkp.{PartialDecryption}
use decentralized_poker_engi.Crypto.Deal.Protocol.{DealProtocol, is_at, peel_layers}
use decentralized_poker_engi.Crypto.Deal.Layers.{
  seal, AllPairs, AllNamed, seal-cons, seal-IsMessage, peel_step_lem,
}

module _ (sha256 : List ℕ → List ℕ) (draw : ℕ → ℕ → ℕ) (dp : DealProtocol) (card_index : ℕ)
    (fermat : IsFermat dp.deck.p) (odd : dp.deck.p % 2 ≡ 1)
    (session : length dp.session_id ≢ 0) where
  open dp use {deck}
  open deck use {p}

  -- A player who is not skipped takes off his layer.
  peel_layers_step :
      (skip : Option ℕ) (i pid d m : ℕ) (pids : List ℕ) (k : SraKey) (ks : List SraKey)
      (partials : List PartialDecryption)
      → is_at skip i ≡ false
      → pid ≢ 0
      → IsPair p k d
      → AllPairs p ks
      → IsMessage p m
      → (partial : PartialDecryption) × (peel_layers sha256 draw dp card_index skip i
            (pid ∷ pids)
            (k ∷ ks)
            (seal p (k ∷ ks) m)
            partials
          ≡ peel_layers sha256 draw dp card_index skip
              (suc i)
              pids
              ks
              (seal p ks m)
              (partials ++ partial ∷ []))
  unfolding peel_layers
  peel_layers_step skip i pid d m pids k ks partials miss n pair pairs msg =
      let c = seal p (k ∷ ks) m in
      let r = draw card_index i in
      let valid = seal-IsMessage p fermat odd (k ∷ ks) m ((d, pair), pairs) msg in
      let (partial, stepped) =
        peel_step_lem p fermat odd sha256 k d c card_index pid dp.session_id r pair valid n
          session in
      (
        partial,
        rw (miss, peel_layers)
            (rw stepped (
              ap
                (λ (t : ℕ).
                  peel_layers sha256 draw dp card_index skip (suc i) pids ks t
                    (partials ++ partial ∷ []))
                (seal-cons p fermat odd k d ks m pair pairs msg))),
      )

  -- The skipped position is not `i` or a later one.
  abbrev pub Past : Option ℕ → ℕ → Type 0
  Past none i = Unit {0}
  Past (some skip) i = skip < i

  Past-suc : (skip : Option ℕ) (i : ℕ) → Past skip i → Past skip (suc i)
  Past-suc none i h = tt
  Past-suc (some skip) i h = omega arith

  Past-is_at : (skip : Option ℕ) (i : ℕ) → Past skip i → is_at skip i ≡ false
  Past-is_at none i h = refl
  Past-is_at (some skip) i h = ground arith

  pub peel_layers_rest :
      (skip : Option ℕ) (i m : ℕ) (pids : List ℕ) (keys : List SraKey)
      (partials : List PartialDecryption)
      → Past skip i
      → length pids ≡ length keys
      → AllNamed pids
      → AllPairs p keys
      → IsMessage p m
      → (ps : List PartialDecryption) × (peel_layers sha256 draw dp card_index skip i pids keys
            (seal p keys m)
            partials
          ≡ some (m, ps))
  unfolding peel_layers seal
  peel_layers_rest skip i m [] [] partials past l named pairs msg = (partials, refl)
  peel_layers_rest skip i m [] (k ∷ ks) partials past l named pairs msg = absurd (omega arith)
  peel_layers_rest skip i m (pid ∷ pids) [] partials past l named pairs msg = absurd (omega arith)
  peel_layers_rest skip i m (pid ∷ pids) (k ∷ ks) partials past l (n, named) ((d, pair), pairs)
        msg =
      let miss = Past-is_at skip i past in
      let (partial, stepped) =
        peel_layers_step skip i pid d m pids k ks partials miss n pair pairs msg in
      let (ps, rest) =
        peel_layers_rest skip (suc i) m pids ks (partials ++ partial ∷ []) (Past-suc skip i past)
          (omega arith) named pairs msg in
      (ps, stepped ∙ rest)

  pub peel_layers_but :
      (i j m : ℕ) (pids : List ℕ) (keys : List SraKey) (key : SraKey)
      (partials : List PartialDecryption)
      → get_elem? keys j ≡ some key
      → length pids ≡ length keys
      → AllNamed pids
      → AllPairs p keys
      → IsMessage p m
      → (ps : List PartialDecryption) × (peel_layers sha256 draw dp card_index
            (some (i + j))
            i
            pids
            keys
            (seal p keys m)
            partials
          ≡ some (exp m key.e p, ps))
  unfolding peel_layers seal
  peel_layers_but i j m [] [] key partials at l named pairs msg = absurd (ground arith)
  peel_layers_but i j m [] (k ∷ ks) key partials at l named pairs msg = absurd (omega arith)
  peel_layers_but i j m (pid ∷ pids) [] key partials at l named pairs msg = absurd (omega arith)
  peel_layers_but i zero m (pid ∷ pids) (k ∷ ks) key partials at l (n, named) ((d, pair), pairs)
        msg =
      let same : k ≡ key = cc in
      let hit : (i == i + 0) ≡ true = ground arith in
      let (ps, rest) =
        peel_layers_rest (some (i + 0)) (suc i) (exp m k.e p) pids ks partials (omega arith)
          (omega arith) named pairs (encrypt-IsMessage p fermat odd k d m pair msg) in
      (ps, rw (hit, peel_layers) (rest ∙ ap (λ (t : SraKey). some (exp m t.e p, ps)) same))
  peel_layers_but i (suc j) m (pid ∷ pids) (k ∷ ks) key partials at l (n, named) ((d, pair), pairs)
        msg =
      let miss : (i == i + suc j) ≡ false = ground arith in
      let (partial, stepped) =
        peel_layers_step (some (i + suc j)) i pid d m pids k ks partials miss n pair pairs msg in
      let (ps, rest) =
        peel_layers_but (suc i) j m pids ks key (partials ++ partial ∷ []) at (omega arith) named
          pairs msg in
      (
        ps,
        stepped
            ∙ ap
                (λ (t : ℕ).
                  peel_layers sha256 draw dp card_index (some t) (suc i) pids ks (seal p ks m)
                    (partials ++ partial ∷ []))
                (omega arith)
            ∙ rest,
      )
