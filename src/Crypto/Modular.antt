-- ===== src/Crypto/Modular.antt =====
-- big.Int.Exp with a modulus, and what is used of it: exponents add and multiply, a prime modulus
-- makes them periodic, and a pair of inverse exponents undoes itself.
use native.Mathlib.Nat.{
  pow-zero, pow-suc, zero-add, suc-add, one-mul, mul-zero, add-mul-mod_self_left, div-add-mod,
  mod-eq_of_lt, mod-lt,
}
use native.Mathlib.Numerals.{one-add}
use decentralized_poker_engi.Common.{
  ℕ, zero, suc, ◌+◌, ◌-◌, ◌*◌, ◌/◌, ◌%◌, ◌^◌, ◌≤◌, ◌<◌, ◌≡◌, ◌≢◌, refl, sym, ap, subst, ◌∙◌, arith,
  ◌==◌, Bool-cases, inl, inr,
}

unfoldable pub exp : ℕ → ℕ → ℕ → ℕ
exp a n p = a ^ n % p

pub mul-mod : (a b p : ℕ) → (a % p) * b % p ≡ a * b % p
mul-mod a b p =
    sym (add-mul-mod_self_left ((a % p) * b) p (a / p * b))
    ∙ ap (λ (t : ℕ). t % p) (omega (arith, ap (λ (t : ℕ). t * b) (div-add-mod a p)))

pub mul-mod' : (a b p : ℕ) → a * (b % p) % p ≡ a * b % p
mul-mod' a b p =
    ap (λ (t : ℕ). t % p) (omega arith) ∙ mul-mod b a p ∙ ap (λ (t : ℕ). t % p) (omega arith)

pow-add : (a m n : ℕ) → a ^ (m + n) ≡ a ^ m * a ^ n
pow-add a zero n = (rw (zero-add, pow-zero) (omega arith))
pow-add a (suc m) n =
    ap (λ (t : ℕ). a ^ t) (suc-add m n)
    ∙ pow-suc a (m + n)
    ∙ omega (arith, ap (λ (t : ℕ). t * a) (pow-add a m n), ap (λ (t : ℕ). t * a ^ n) (pow-suc a m))

pow-mul : (a m n : ℕ) → a ^ (m * n) ≡ (a ^ m) ^ n
pow-mul a m zero = rw (mul-zero, pow-zero, pow-zero) refl
pow-mul a m (suc n) =
    ap (λ (t : ℕ). a ^ t) (omega arith)
    ∙ pow-add a (m * n) m
    ∙ ap (λ (t : ℕ). t * a ^ m) (pow-mul a m n)
    ∙ sym (pow-suc (a ^ m) n)

mul-pow : (a b n : ℕ) → (a * b) ^ n ≡ a ^ n * b ^ n
mul-pow a b zero = rw (pow-zero, pow-zero, pow-zero) refl
mul-pow a b (suc n) =
    rw (pow-suc, pow-suc, pow-suc) (omega (arith, ap (λ (t : ℕ). t * (a * b)) (mul-pow a b n)))

one-pow : (n : ℕ) → 1 ^ n ≡ 1
one-pow zero = pow-zero 1
one-pow (suc n) = pow-suc 1 n ∙ omega (arith, one-pow n)

-- A base may be reduced first.
pub exp-mod : (a n p : ℕ) → exp (a % p) n p ≡ exp a n p
unfolding exp
exp-mod a zero p = rw (pow-zero, pow-zero) refl
exp-mod a (suc n) p =
    rw (pow-suc, pow-suc)
      (sym (mul-mod ((a % p) ^ n) (a % p) p)
        ∙ ap (λ (t : ℕ). t * (a % p) % p) (exp-mod a n p)
        ∙ mul-mod (a ^ n) (a % p) p
        ∙ mul-mod' (a ^ n) a p)

pub exp-exp : (a m n p : ℕ) → exp (exp a m p) n p ≡ exp a (m * n) p
unfolding exp
exp-exp a m n p = exp-mod (a ^ m) n p ∙ ap (λ (t : ℕ). t % p) (sym (pow-mul a m n))

pub exp_comm : (a m n p : ℕ) → exp (exp a m p) n p ≡ exp (exp a n p) m p
exp_comm a m n p =
    exp-exp a m n p
    ∙ ap (λ (t : ℕ). exp a t p) (let e : m * n ≡ n * m = omega arith in e)
    ∙ sym (exp-exp a n m p)

pub exp-add : (a m n p : ℕ) → exp a (m + n) p ≡ exp a m p * exp a n p % p
unfolding exp
exp-add a m n p =
    ap (λ (t : ℕ). t % p) (pow-add a m n)
    ∙ sym (mul-mod (a ^ m) (a ^ n) p)
    ∙ sym (mul-mod' (a ^ m % p) (a ^ n) p)

pub exp_lt : (a n p : ℕ) → 0 < p → exp a n p < p
unfolding exp
exp_lt a n p h = mod-lt (a ^ n) h

-- Fermat's little theorem for the modulus, which holds where it is prime.
abbrev pub IsFermat : ℕ → Type 0
IsFermat p = (a : ℕ) → 1 ≤ a → a < p → exp a (p - 1) p ≡ 1

-- What validateMessage accepts: 1 to p - 2.
abbrev pub IsMessage : ℕ → ℕ → Type 0
IsMessage p m = (1 ≤ m) × (m + 2 ≤ p)

pow_one : (a : ℕ) → a ^ 1 ≡ a
pow_one a = pow-suc a 0 ∙ rw pow-zero (one-mul a)

exp_one : (a p : ℕ) → a < p → exp a 1 p ≡ a
unfolding exp
exp_one a p l = ap (λ (t : ℕ). t % p) (pow_one a) ∙ mod-eq_of_lt l

exp_zero : (n p : ℕ) → 0 < p → exp 0 (1 + n) p ≡ 0
unfolding exp
exp_zero n p l =
    ap (λ (t : ℕ). 0 ^ t % p) (one-add n)
    ∙ ap (λ (t : ℕ). t % p) (pow-suc 0 n ∙ mul-zero (0 ^ n))
    ∙ mod-eq_of_lt l

square_minus_one : (q : ℕ) → exp (q + 1) 2 (q + 2) ≡ 1
unfolding exp
square_minus_one q =
    ap (λ (t : ℕ). t % (q + 2))
      (pow-suc (q + 1) 1 ∙ ap (λ (t : ℕ). t * (q + 1)) (pow_one (q + 1)) ∙ omega arith)
    ∙ add-mul-mod_self_left 1 (q + 2) q
    ∙ mod-eq_of_lt (omega arith)

-- An odd number is no multiple of an even one.
not_even : (x k h q : ℕ) → 2 * h * q + 1 ≢ x * (2 * k)
not_even x k h q e = omega arith

module _ (p : ℕ) (fermat : IsFermat p) where
  exp_cycles : (a k : ℕ) → 1 ≤ a → a < p → exp a ((p - 1) * k) p ≡ 1
  unfolding exp
  exp_cycles a k h l =
      sym (exp-exp a (p - 1) k p)
      ∙ ap (λ (t : ℕ). exp t k p) (fermat a h l)
      ∙ ap (λ (t : ℕ). t % p) (one-pow k)
      ∙ mod-eq_of_lt (omega arith)

  -- Exponents count modulo p - 1.
  pub exp_cycle : (a n : ℕ) → 1 ≤ a → a < p → exp a (n % (p - 1)) p ≡ exp a n p
  exp_cycle a n h l =
      let q = n / (p - 1) in
      let r = n % (p - 1) in
      sym (
        ap (λ (t : ℕ). exp a t p) (sym (div-add-mod n (p - 1)))
        ∙ exp-add a ((p - 1) * q) r p
        ∙ ap (λ (t : ℕ). t * exp a r p % p) (exp_cycles a q h l)
        ∙ ap (λ (t : ℕ). t % p) (one-mul (exp a r p))
        ∙ mod-eq_of_lt (exp_lt a r p (omega arith)))

  pub exp_inverse : (a x y : ℕ) → 1 ≤ a → a < p → x * y % (p - 1) ≡ 1 → exp (exp a x p) y p ≡ a
  exp_inverse a x y h l e =
      exp-exp a x y p ∙ sym (exp_cycle a (x * y) h l) ∙ ap (λ (t : ℕ). exp a t p) e ∙ exp_one a p l

  -- The second power of p - 1 is 1, so its odd powers are p - 1.
  exp_minus_one : (k : ℕ) → 2 ≤ p → exp (p - 1) (1 + 2 * k) p ≡ p - 1
  exp_minus_one zero h = exp_one (p - 1) p (omega arith)
  exp_minus_one (suc k) h =
      let square : exp (p - 1) 2 p ≡ 1 =
        subst (λ (t : ℕ). exp (t - 1) 2 t ≡ 1) (omega arith)
          (ap (λ (t : ℕ). exp t 2 (p - 2 + 2)) (omega arith) ∙ square_minus_one (p - 2)) in
      ap (λ (t : ℕ). exp (p - 1) t p) (omega arith)
      ∙ exp-add (p - 1) 2 (1 + 2 * k) p
      ∙ ap (λ (t : ℕ). t * exp (p - 1) (1 + 2 * k) p % p) square
      ∙ ap (λ (t : ℕ). t % p) (one-mul (exp (p - 1) (1 + 2 * k) p) ∙ exp_minus_one k h)
      ∙ mod-eq_of_lt (omega arith)

  -- The exponent of a pair is odd, where the modulus is.
  pair_odd : (x y : ℕ) → p % 2 ≡ 1 → x * y % (p - 1) ≡ 1 → y ≡ 1 + 2 * (y / 2)
  pair_odd x y o e = elim (Bool-cases (y % 2 == 1)) [
    | inl odd ↦ ground arith
    | inr even ↦
        let q = x * y / (p - 1) in
        absurd (
          not_even x (y / 2) ((p - 1) / 2) q (
            omega (
              arith,
              div-add-mod (x * y) (p - 1),
              ap (λ (t : ℕ). t * q) (let f : p - 1 ≡ 2 * ((p - 1) / 2) = omega arith in f),
              ap (λ (t : ℕ). x * t) (let f : y ≡ 2 * (y / 2) = ground arith in f),
            )))
  ]

  -- A message stays one under either exponent of a pair: it never becomes 0 or p - 1.
  pub exp-IsMessage :
      (m x y : ℕ) → p % 2 ≡ 1 → x * y % (p - 1) ≡ 1 → IsMessage p m → IsMessage p (exp m x p)
  exp-IsMessage m x y o e (h, l) =
      let c = exp m x p in
      let back : exp c y p ≡ m = exp_inverse m x y h (omega arith) e in
      let odd = pair_odd x y o e in
      let c_lt = exp_lt m x p (omega arith) in
      let c_ne_zero : c ≢ 0 = λ z. absurd (
        omega (
          arith,
          sym back
              ∙ ap (λ (t : ℕ). exp t y p) z
              ∙ ap (λ (t : ℕ). exp 0 t p) odd
              ∙ exp_zero (2 * (y / 2)) p (omega arith),
        )) in
      let c_ne_last : c ≢ p - 1 = λ z. absurd (
        omega (
          arith,
          sym back
              ∙ ap (λ (t : ℕ). exp t y p) z
              ∙ ap (λ (t : ℕ). exp (p - 1) t p) odd
              ∙ exp_minus_one (y / 2) (omega arith),
        )) in
      ground arith
