-- ===== src/Network/Node/Logged.antt =====
-- Which messages a node logs.
use decentralized_poker_engi.Common.{
  ℕ, ◌≡◌, refl, sym, ap, subst, ◌∙◌, arith, Bool-cases, true, false, inl, inr, some, List, [], ◌∷◌,
  ◌++◌, ◌==◌, ==_iff,
}
use decentralized_poker_engi.Network.Gamelog.{Envelope, Gamelog, append, key, has_key}
use decentralized_poker_engi.Network.Codec.{Libraries, KeyLookup}
use decentralized_poker_engi.Network.Node.{
  Node, Payloads, join_table, player_ready, heartbeat, is_handed_on, update_seq_map,
  check_and_update_seq, log_it, route, accept, handle_direct,
}

has_key_last : (ks : List (ℕ × ℕ)) (k : ℕ × ℕ) → has_key (ks ++ k ∷ []) k ≡ true
has_key_last [] (a, b) = ground (arith, ==_iff a a, ==_iff b b)
has_key_last (j ∷ ks) (a, b) = ground (arith, has_key_last ks (a, b))

module _ (lib : Libraries) (payloads : Payloads) (extract : ℕ → KeyLookup) where
  has_key-append :
      (env : Envelope) (gl : Gamelog) → has_key (append env gl).0.by_key (key env) ≡ true
  unfolding append
  has_key-append env gl = elim (Bool-cases (has_key gl.by_key (key env))) [
    | inl e ↦ ground (arith, e)
    | inr e ↦ rw (e, append) (has_key_last gl.by_key (key env))
  ]

  log_refuses :
      (env : Envelope) (gl : Gamelog) → has_key gl.by_key (key env) ≡ true → (append env gl).0 ≡ gl
  unfolding append
  log_refuses env gl h = ground (arith, h)

  handle_direct-seq_nums :
      (env : Envelope) (n : Node)
      → (handle_direct lib payloads extract env n).0.seq_nums ≡ n.seq_nums
  unfolding handle_direct
  handle_direct-seq_nums env n = ground arith

  append-entries :
      (env : Envelope) (gl : Gamelog)
      → has_key gl.by_key (key env) ≡ false
      → (append env gl).0.entries ≡ gl.entries ++ env ∷ []
  unfolding append
  append-entries env gl h = ground (arith, h)

  pub route-log :
      (env : Envelope) (now : ℕ) (n : Node) → (route lib payloads extract env now n).0.log ≡ n.log
  unfolding route
  route-log env now n = ground arith

  pub handle_direct-log :
      (env : Envelope) (n : Node)
      → (handle_direct lib payloads extract env n).0.log ≡ (append env n.log).0
  unfolding handle_direct
  handle_direct-log env n = ground arith

  -- What the log becomes when a table message is accepted.
  accept-log :
      (env : Envelope) (now : ℕ) (n : Node)
      → (env.kind == heartbeat) ≡ false
      → (update_seq_map n.seq_nums env.sender_id env.seq).1 ≡ true
      → (accept lib payloads extract env now n).0.log ≡ (append env n.log).0
  unfolding accept check_and_update_seq
  accept-log env now n e f =
      let noted = record n { seq_nums = (update_seq_map n.seq_nums env.sender_id env.seq).0 } in
      rw (e, f, accept) (route-log env now (log_it env noted))

  -- A message that is only handed on is no heartbeat, and no message to the lobby.
  handed_on-routed :
      (kind : ℕ)
      → is_handed_on kind ≡ true
      → ((kind == heartbeat) ≡ false)
        × ((kind == join_table) ≡ false)
        × ((kind == player_ready) ≡ false)
  handed_on-routed kind h = ground (arith, h)

  -- Such a message, with a payload that is read, is handed to a callback.
  accept-delivered :
      (env : Envelope) (now : ℕ) (n : Node)
      → is_handed_on env.kind ≡ true
      → payloads.parses env.kind env.payload ≡ true
      → (update_seq_map n.seq_nums env.sender_id env.seq).1 ≡ true
      → (accept lib payloads extract env now n).1 ≡ some env
  unfolding accept check_and_update_seq route
  accept-delivered env now n handed reads fresh =
      let (live, seated, waits) = handed_on-routed env.kind handed in
      rw (live, fresh, accept, seated, waits, handed, reads) refl

  -- A table message of a type that is only handed on, which is read and is the first of its sender and
  -- number, is logged and handed on. If an envelope with the same sender and number comes on a direct
  -- stream before, which nobody has checked, that one is logged in its place: the table message is handed
  -- on all the same, and is not logged.
  pub direct_blocks_log :
      (fake real : Envelope) (now : ℕ) (n : Node)
      → key fake ≡ key real
      → is_handed_on real.kind ≡ true
      → payloads.parses real.kind real.payload ≡ true
      → (update_seq_map n.seq_nums real.sender_id real.seq).1 ≡ true
      → has_key n.log.by_key (key real) ≡ false
      → let m = (handle_direct lib payloads extract fake n).0 in
        ((accept lib payloads extract real now n).0.log.entries ≡ n.log.entries ++ real ∷ [])
        × ((accept lib payloads extract real now n).1 ≡ some real)
        × ((accept lib payloads extract real now m).0.log.entries ≡ n.log.entries ++ fake ∷ [])
        × ((accept lib payloads extract real now m).1 ≡ some real)
  direct_blocks_log fake real now n same handed reads fresh first =
      let kind = (handed_on-routed real.kind handed).0 in
      let m = (handle_direct lib payloads extract fake n).0 in
      let seen : m.seq_nums ≡ n.seq_nums = handle_direct-seq_nums fake n in
      let first' : has_key n.log.by_key (key fake) ≡ false =
        subst (λ (t : ℕ × ℕ). has_key n.log.by_key t ≡ false) (sym same) first in
      let taken : has_key (append fake n.log).0.by_key (key real) ≡ true =
        subst (λ (t : ℕ × ℕ). has_key (append fake n.log).0.by_key t ≡ true) same
          (has_key-append fake n.log) in
      let fresh' : (update_seq_map m.seq_nums real.sender_id real.seq).1 ≡ true =
        subst (λ (t : List (ℕ × ℕ)). (update_seq_map t real.sender_id real.seq).1 ≡ true) (sym seen)
          fresh in
      (
        ap (λ (g : Gamelog). g.entries) (accept-log real now n kind fresh)
            ∙ append-entries real n.log first,
        accept-delivered real now n handed reads fresh,
        ap (λ (g : Gamelog). g.entries)
              (accept-log real now m kind fresh'
                ∙ ap (λ (g : Gamelog). (append real g).0) (handle_direct-log fake n)
                ∙ log_refuses real (append fake n.log).0 taken)
            ∙ append-entries fake n.log first',
        accept-delivered real now m handed reads fresh',
      )
