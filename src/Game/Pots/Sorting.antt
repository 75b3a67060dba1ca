-- ===== src/Game/Pots/Sorting.antt =====
-- The sort of CalculatePots: it orders the contributions and keeps every sum over them.
use decentralized_poker_engi.Common.{ℕ, ◌+◌, ◌≤◌, ◌<◌, ◌≡◌, refl, arith, List, [], ◌∷◌, sum_by, All}
use decentralized_poker_engi.Int64.{half, lt64_exact}
use decentralized_poker_engi.Game.Pots.{Contrib, insert_contrib, sort_contribs}

-- Bets rise along the list, from `low` on.
abbrev pub Ascending : ℕ → List Contrib → Type 0
Ascending low [] = Unit {0}
Ascending low (c ∷ cs) = (low ≤ c.bet) × Ascending c.bet cs

abbrev pub Fits : List Contrib → Type 0
Fits = All (λ c. c.bet < half)

pub insert_contrib-Fits :
    (x : Contrib) (ys : List Contrib) → x.bet < half → Fits ys → Fits (insert_contrib x ys)
unfolding insert_contrib
insert_contrib-Fits x [] h f = (h, tt)
insert_contrib-Fits x (y ∷ ys) h f = ground (arith, insert_contrib-Fits x ys h f.1)

pub insert_contrib-Ascending :
    (low : ℕ) (x : Contrib) (ys : List Contrib)
    → x.bet < half
    → Fits ys
    → low ≤ x.bet
    → Ascending low ys
    → Ascending low (insert_contrib x ys)
unfolding insert_contrib
insert_contrib-Ascending low x [] h f l s = (l, tt)
insert_contrib-Ascending low x (y ∷ ys) h f l s =
    ground (arith, lt64_exact x.bet y.bet, insert_contrib-Ascending y.bet x ys)

pub sum_by-insert_contrib :
    (f : Contrib → ℕ) (x : Contrib) (ys : List Contrib)
    → sum_by f (insert_contrib x ys) ≡ f x + sum_by f ys
unfolding insert_contrib
sum_by-insert_contrib f x [] = refl
sum_by-insert_contrib f x (y ∷ ys) = ground (arith, sum_by-insert_contrib f x ys)

pub sort_contribs-Fits :
    (done xs : List Contrib) → Fits done → Fits xs → Fits (sort_contribs done xs)
unfolding sort_contribs
sort_contribs-Fits done [] d f = d
sort_contribs-Fits done (x ∷ xs) d f =
    sort_contribs-Fits (insert_contrib x done) xs (insert_contrib-Fits x done f.0 d) f.1

pub sort_contribs-Ascending :
    (done xs : List Contrib)
    → Fits done
    → Fits xs
    → Ascending 0 done
    → Ascending 0 (sort_contribs done xs)
unfolding sort_contribs
sort_contribs-Ascending done [] d f s = s
sort_contribs-Ascending done (x ∷ xs) d f s =
    sort_contribs-Ascending (insert_contrib x done) xs (insert_contrib-Fits x done f.0 d) f.1
      (insert_contrib-Ascending 0 x done f.0 d (omega arith) s)

pub sum_by-sort_contribs :
    (f : Contrib → ℕ) (done xs : List Contrib)
    → sum_by f (sort_contribs done xs) ≡ sum_by f done + sum_by f xs
unfolding sort_contribs
sum_by-sort_contribs f done [] = omega arith
sum_by-sort_contribs f done (x ∷ xs) =
    omega (arith, sum_by-sort_contribs f (insert_contrib x done) xs, sum_by-insert_contrib f x done)
