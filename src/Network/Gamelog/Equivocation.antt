-- ===== src/Network/Gamelog/Equivocation.antt =====
-- The log cannot hold what DetectEquivocation looks for.
use decentralized_poker_engi.Common.{
  ℕ, ◌≡◌, refl, ap, sym, ◌∙◌, subst, arith, Bool-cases, true, false, inl, inr, none, List, [], ◌∷◌,
  ◌++◌, map, All, if◌then◌else◌,
}
use decentralized_poker_engi.Network.Gamelog.{
  Envelope, Gamelog, Key, key, same_key, has_key, new_game_log, append, find_seen, detect_from,
  detect_equivocation,
}

abbrev pub append_all : List Envelope → Gamelog → Gamelog
append_all [] gl = gl
append_all (env ∷ envs) gl = append_all envs (append env gl).0

abbrev Differ : List Key → Type 0
Differ [] = Unit {0}
Differ (k ∷ ks) = (has_key ks k ≡ false) × Differ ks

has_key-append :
    (ks : List Key) (j k : Key)
    → has_key (ks ++ j ∷ []) k ≡ (if has_key ks k then true else same_key j k)
has_key-append [] j k = ground arith
has_key-append (i ∷ ks) j k = ground (arith, has_key-append ks j k)

Differ-append : (ks : List Key) (k : Key) → has_key ks k ≡ false → Differ ks → Differ (ks ++ k ∷ [])
Differ-append [] k h d = (refl, tt)
Differ-append (j ∷ ks) k h d = ground (arith, has_key-append ks k j, Differ-append ks k)

map-key-append :
    (envs : List Envelope) (env : Envelope)
    → map key (envs ++ env ∷ []) ≡ map key envs ++ key env ∷ []
map-key-append [] env = refl
map-key-append (e ∷ envs) env = ap (λ (t : List Key). key e ∷ t) (map-key-append envs env)

-- The keys of the entries, all different, are those of the map.
abbrev pub IsKeyed : Gamelog → Type 0
IsKeyed gl = (gl.by_key ≡ map key gl.entries) × Differ gl.by_key

pub append-IsKeyed : (env : Envelope) (gl : Gamelog) → IsKeyed gl → IsKeyed (append env gl).0
unfolding append
append-IsKeyed env gl (same, d) = elim (Bool-cases (has_key gl.by_key (key env))) [
  | inl e ↦ rw (e, append) (same, d)
  | inr e ↦
      rw (e, append)
        (
          ap (λ (t : List Key). t ++ key env ∷ []) same ∙ sym (map-key-append gl.entries env),
          Differ-append gl.by_key (key env) e d,
        )
]

append_all-IsKeyed :
    (envs : List Envelope) (gl : Gamelog) → IsKeyed gl → IsKeyed (append_all envs gl)
append_all-IsKeyed [] gl k = k
append_all-IsKeyed (env ∷ envs) gl k =
    append_all-IsKeyed envs (append env gl).0 (append-IsKeyed env gl k)

-- None of the entries has been seen.
abbrev Unseen : List (Key × Envelope) → List Envelope → Type 0
Unseen seen = All (λ e. find_seen (key e) seen ≡ none)

Unseen-cons :
    (env : Envelope) (seen : List (Key × Envelope)) (envs : List Envelope)
    → has_key (map key envs) (key env) ≡ false
    → Unseen seen envs
    → Unseen ((key env, env) ∷ seen) envs
Unseen-cons env seen [] h u = tt
Unseen-cons env seen (e ∷ envs) h (n, u) = ground (arith, Unseen-cons env seen envs, n)

Unseen-nil : (envs : List Envelope) → Unseen [] envs
Unseen-nil [] = tt
Unseen-nil (e ∷ envs) = (refl, Unseen-nil envs)

detect_from-none :
    (seen : List (Key × Envelope)) (envs : List Envelope)
    → Differ (map key envs)
    → Unseen seen envs
    → detect_from seen envs ≡ none
unfolding detect_from
detect_from-none seen [] d u = refl
detect_from-none seen (env ∷ envs) (h, d) (n, u) =
    rw (n, detect_from)
      (detect_from-none ((key env, env) ∷ seen) envs d (Unseen-cons env seen envs h u))

pub IsKeyed-detect_equivocation : (gl : Gamelog) → IsKeyed gl → detect_equivocation gl ≡ none
unfolding detect_equivocation
IsKeyed-detect_equivocation gl (same, d) =
    detect_from-none [] gl.entries (subst Differ same d) (Unseen-nil gl.entries)

pub new_game_log-IsKeyed : (table_id hand_num : ℕ) → IsKeyed (new_game_log table_id hand_num)
unfolding new_game_log
new_game_log-IsKeyed table_id hand_num = (refl, tt)

-- In a log that Append made DetectEquivocation finds nothing, whatever was appended: Append refuses
-- the second envelope of a sender with one sequence number, also where its payload is another.
pub equivocation_never_found :
    (table_id hand_num : ℕ) (envs : List Envelope)
    → detect_equivocation (append_all envs (new_game_log table_id hand_num)) ≡ none
equivocation_never_found table_id hand_num envs =
    IsKeyed-detect_equivocation (append_all envs (new_game_log table_id hand_num)) (
      append_all-IsKeyed envs (new_game_log table_id hand_num)
        (new_game_log-IsKeyed table_id hand_num))
