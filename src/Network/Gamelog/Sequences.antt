-- ===== src/Network/Gamelog/Sequences.antt =====
-- What a valid log holds of each player.
use mathlib.Core.List.Perm
use mathlib.Core.List.{Perm, append-nil, perm_middle}
use decentralized_poker_engi.Common.{
  ℕ, zero, suc, ◌+◌, ◌≡◌, refl, ap₂, subst, arith, Bool-cases, true, inl, inr, List, [], ◌∷◌, ◌++◌,
  contains, length, ◌==◌,
}
use decentralized_poker_engi.Int64.{lt64}
use decentralized_poker_engi.Network.Gamelog.{
  Gamelog, seqs_of, insert_seq, sort_seqs, is_gapless, validate_sequences,
}

-- The numbers from `i + 1` on, as many as `n`.
abbrev pub numbers : ℕ → ℕ → List ℕ
numbers i zero = []
numbers i (suc n) = (i + 1) ∷ numbers (suc i) n

is_gapless-numbers : (i : ℕ) (vs : List ℕ) → is_gapless i vs ≡ true → vs ≡ numbers i (length vs)
unfolding is_gapless
is_gapless-numbers i [] h = refl
is_gapless-numbers i (v ∷ vs) h =
    ap₂ ◌∷◌ (ground arith) (is_gapless-numbers (suc i) vs (ground arith))

insert_seq-perm : (v : ℕ) (ws : List ℕ) → Perm (insert_seq v ws) (v ∷ ws)
unfolding insert_seq
insert_seq-perm v [] = Perm.refl (v ∷ [])
insert_seq-perm v (w ∷ ws) = elim (Bool-cases (lt64 v w)) [
  | inl e ↦ rw e (Perm.refl (v ∷ w ∷ ws))
  | inr e ↦ rw e (Perm.trans (Perm.cons w (insert_seq-perm v ws)) (Perm.swap v w ws))
]

sort_seqs-perm : (sorted vs : List ℕ) → Perm (sort_seqs sorted vs) (vs ++ sorted)
unfolding sort_seqs
sort_seqs-perm sorted [] = Perm.refl sorted
sort_seqs-perm sorted (v ∷ vs) =
    Perm.trans (sort_seqs-perm (insert_seq v sorted) vs)
      (Perm.trans (Perm.append_left vs (insert_seq-perm v sorted)) (perm_middle vs sorted))

gapless-perm :
    (vs : List ℕ) → is_gapless 0 (sort_seqs [] vs) ≡ true → (n : ℕ) × Perm vs (numbers 0 n)
gapless-perm vs h =
    let sorted = sort_seqs [] vs in
    let perm = subst (λ (t : List ℕ). Perm sorted t) (append-nil vs) (sort_seqs-perm [] vs) in
    (
      length sorted,
      subst (λ (t : List ℕ). Perm vs t) (is_gapless-numbers 0 sorted h) (Perm.symm perm),
    )

-- In a valid log the sequence numbers of each player are 1 to some number, each of them once, in some
-- order.
pub validate_sequences-perm :
    (pids : List ℕ) (pid : ℕ) (gl : Gamelog)
    → validate_sequences pids gl ≡ true
    → contains pids pid ≡ true
    → (n : ℕ) × Perm (seqs_of pid gl.entries) (numbers 0 n)
unfolding validate_sequences
validate_sequences-perm [] pid gl h c = absurd (ground arith)
validate_sequences-perm (p ∷ pids) pid gl h c = elim (Bool-cases (p == pid)) [
  | inl e ↦
      subst (λ (t : ℕ). (n : ℕ) × Perm (seqs_of t gl.entries) (numbers 0 n)) (ground arith)
        (gapless-perm (seqs_of p gl.entries) (ground arith))
  | inr e ↦ validate_sequences-perm pids pid gl (ground arith) (ground arith)
]
