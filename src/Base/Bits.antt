-- ===== src/Base/Bits.antt =====
-- The bit operations at variables, from one law for the lowest digit.
use Prim.Native.Nat.{
  ℕ, zero, suc, ◌+◌, ◌-◌, ◌*◌, ◌/◌, ◌%◌, ◌^◌, ◌≤◌, ◌<◌, min, max, bit_and, bit_or, digits,
  bit_and-bitwise, bit_or-bitwise,
}
use mathlib.Core.Logic.{◌↔◌, inl, inr}
use mathlib.Core.Path.{◌≡◌, refl, sym, ap, ◌∙◌}
use native.Mathlib.Nat.{
  pow-suc, mod-eq_of_lt, add-mul-mod_self_right, add-mul-div_right, div-add-mod', mod-lt,
  div-eq_of_lt, zero-add, mod_self, add-zero, add-suc, mul-one, div-one, div-div-eq-div-mul,
  pow-succ', div-lt_iff_lt-mul,
}
use native.Mathlib.Omega.{arith}
use fish_store.Base.Tests.{◌==◌, Bool-cases}
use fish_store.Base.Words.{pow-pos}

-- The quotient and the remainder are unique.
pub mod_unique : (a m q r : ℕ) → a ≡ r + q * m → r < m → a % m ≡ r
mod_unique a m q r e h = rw e (add-mul-mod_self_right r q m ∙ mod-eq_of_lt h)

pub div_unique : (a m q r : ℕ) → a ≡ r + q * m → r < m → a / m ≡ q
div_unique a m q r e h =
    rw e (add-mul-div_right r q (omega arith) ∙ ap (λ t. t + q) (div-eq_of_lt h) ∙ zero-add q)

-- The digit recursion does not depend on the fuel that it gets.
digits_fuel :
    (z : ℕ → ℕ) (f : ℕ → ℕ → ℕ) (n k a b : ℕ) → a ≤ n → a ≤ k → digits z f n a b ≡ digits z f k a b
digits_fuel z f zero zero zero b p q = refl
digits_fuel z f zero (suc k) zero b p q = refl
digits_fuel z f (suc n) zero zero b p q = refl
digits_fuel z f (suc n) (suc k) zero b p q = refl
digits_fuel z f zero k (suc a) b p q = absurd (omega arith)
digits_fuel z f (suc n) zero (suc a) b p q = absurd (omega arith)
digits_fuel z f (suc n) (suc k) (suc a) b p q =
    omega (arith, digits_fuel z f n k (suc a / 2) (b / 2) (omega arith) (omega arith))

pub bit_and_step : (a b : ℕ) → bit_and a b ≡ bit_and (a / 2) (b / 2) * 2 + min (a % 2) (b % 2)
bit_and_step zero b = omega (arith, bit_and-bitwise 0 b, bit_and-bitwise 0 (b / 2))
bit_and_step (suc a) b = omega (
  arith,
  bit_and-bitwise (suc a) b,
  bit_and-bitwise (suc a / 2) (b / 2),
  digits_fuel (λ _. 0) min a (suc a / 2) (suc a / 2) (b / 2) (omega arith) (omega arith),
)

pub bit_or_step : (a b : ℕ) → bit_or a b ≡ bit_or (a / 2) (b / 2) * 2 + max (a % 2) (b % 2)
bit_or_step zero b = omega (arith, bit_or-bitwise 0 b, bit_or-bitwise 0 (b / 2))
bit_or_step (suc a) b = omega (
  arith,
  bit_or-bitwise (suc a) b,
  bit_or-bitwise (suc a / 2) (b / 2),
  digits_fuel (λ y. y) max a (suc a / 2) (suc a / 2) (b / 2) (omega arith) (omega arith),
)

pub zero-bit_and : (b : ℕ) → bit_and 0 b ≡ 0
zero-bit_and b = bit_and-bitwise 0 b

pub zero-bit_or : (b : ℕ) → bit_or 0 b ≡ b
zero-bit_or b = bit_or-bitwise 0 b

-- The remainder by `p * 2`, digit by digit.
mod_double : (a p : ℕ) → 0 < p → a % (p * 2) ≡ a / 2 % p * 2 + a % 2
mod_double a p h =
    mod_unique a (p * 2) (a / 2 / p) (a / 2 % p * 2 + a % 2)
      (let e = div-add-mod' (a / 2) p in omega (arith, e))
      (let l = mod-lt (a / 2) h in omega (arith, l))

digits-min-zero : (n a : ℕ) → digits (λ _. 0) min n a 0 ≡ 0
digits-min-zero zero a = refl
digits-min-zero (suc n) zero = refl
digits-min-zero (suc n) (suc a) = omega (arith, digits-min-zero n (suc a / 2))

pub bit_and-zero : (a : ℕ) → bit_and a 0 ≡ 0
bit_and-zero a = bit_and-bitwise a 0 ∙ digits-min-zero a a

-- A mask of `k` ones keeps the low `k` bits.
pub bit_and_mask : (k a : ℕ) → bit_and a (2 ^ k - 1) ≡ a % 2 ^ k
bit_and_mask zero a = omega (arith, bit_and-zero a)
bit_and_mask (suc k) a =
    let pos = pow-pos k in
    let half : (2 ^ k * 2 - 1) / 2 ≡ 2 ^ k - 1 = omega (arith, pos) in
    rw
      (
        pow-suc,
        bit_and_step a (2 ^ k * 2 - 1),
        half,
        bit_and_mask k (a / 2),
        mod_double a (2 ^ k) pos,
      )
      (omega (arith, pos))

-- Parts that share no bit are added.
pub bit_or_disjoint : (k a b : ℕ) → a < 2 ^ k → bit_or a (b * 2 ^ k) ≡ a + b * 2 ^ k
bit_or_disjoint zero zero b h = omega (arith, zero-bit_or (b * 1))
bit_or_disjoint zero (suc a) b h = absurd (omega arith)
bit_or_disjoint (suc k) a b h =
    let low : a < 2 ^ k * 2 = rw pow-suc at h in
    let e : b * 2 ^ suc k ≡ b * 2 ^ k * 2 = rw pow-suc (omega arith) in
    let half : b * 2 ^ k * 2 / 2 ≡ b * 2 ^ k = omega arith in
    rw (e, bit_or_step a (b * 2 ^ k * 2), half, bit_or_disjoint k (a / 2) b (omega arith))
      (omega arith)

bit_and_self : (n a : ℕ) → a ≤ n → bit_and a a ≡ a
bit_and_self n zero h = refl
bit_and_self zero (suc a) h = absurd (omega arith)
bit_and_self (suc n) (suc a) h =
    omega (arith, bit_and_step (suc a) (suc a), bit_and_self n (suc a / 2) (omega arith))

-- `x & (x - 1)` is zero just at the powers of two and at zero.
power_of_low_bit : (n x : ℕ) → x ≤ n → 0 < x → bit_and x (x - 1) ≡ 0 → (k : ℕ) × (x ≡ 2 ^ k)
power_of_low_bit zero x h pos e = absurd (omega arith)
power_of_low_bit (suc n) x h pos e = elim (Bool-cases (x == 1)) [
  | inl one ↦ (0, ground arith)
  | inr more ↦ elim (Bool-cases (x % 2 == 0)) [
    | inl even ↦
        let half : (x - 1) / 2 ≡ x / 2 - 1 = ground arith in
        let step = bit_and_step x (x - 1) in
        let step' : bit_and x (x - 1)
            ≡ bit_and (x / 2) (x / 2 - 1) * 2 + min (x % 2) ((x - 1) % 2) =
          rw half at step in
        let (k, found) =
          power_of_low_bit n (x / 2) (ground arith) (ground arith) (omega (arith, e, step')) in
        (suc k, rw pow-suc (ground (arith, found)))
    | inr odd ↦
        let half : (x - 1) / 2 ≡ x / 2 = ground arith in
        let step = bit_and_step x (x - 1) in
        let step' : bit_and x (x - 1) ≡ bit_and (x / 2) (x / 2) * 2 + min (x % 2) ((x - 1) % 2) =
          rw half at step in
        absurd (ground (arith, step', bit_and_self (x / 2) (x / 2)))
  ]
]

pub power_of_two_iff : (x : ℕ) → ((0 < x) × (bit_and x (x - 1) ≡ 0)) ↔ ((k : ℕ) × (x ≡ 2 ^ k))
power_of_two_iff x = (
  λ h. power_of_low_bit x x (omega arith) h.0 h.1,
  λ p. (rw p.1 (pow-pos p.0), rw p.1 (bit_and_mask p.0 (2 ^ p.0) ∙ mod_self (2 ^ p.0))),
)

pub pow-add : (m n : ℕ) → 2 ^ (m + n) ≡ 2 ^ m * 2 ^ n
pow-add m zero = rw add-zero (omega arith)
pow-add m (suc n) =
    rw (add-suc m n, pow-suc, pow-suc) (omega (arith, ap (λ (t : ℕ). t * 2) (pow-add m n)))

-- A mask whose low `k` bits are clear.
bit_and_shift : (k a b : ℕ) → bit_and a (b * 2 ^ k) ≡ bit_and (a / 2 ^ k) b * 2 ^ k
bit_and_shift zero a b = rw (mul-one, div-one, mul-one)
bit_and_shift (suc k) a b =
    let e : b * 2 ^ suc k ≡ b * 2 ^ k * 2 = rw pow-suc (omega arith) in
    let half : b * 2 ^ k * 2 / 2 ≡ b * 2 ^ k = omega arith in
    let quotient : a / 2 / 2 ^ k ≡ a / 2 ^ suc k =
      div-div-eq-div-mul a 2 (2 ^ k) ∙ ap (λ t. a / t) (sym (pow-succ' 2 k)) in
    rw (e, bit_and_step a (b * 2 ^ k * 2), half, bit_and_shift k (a / 2) b, quotient)
      (rw pow-suc (omega arith))

-- `x & ~(2^k - 1)` in 64 bits.
pub bit_and_align : (k x : ℕ) → k ≤ 64 → x < 2 ^ 64 → bit_and x (2 ^ 64 - 2 ^ k) ≡ x / 2 ^ k * 2 ^ k
bit_and_align k x hk hx =
    let m = 64 - k in
    let sum : 64 ≡ m + k = omega arith in
    let whole : 2 ^ 64 ≡ 2 ^ m * 2 ^ k = ap (λ (t : ℕ). 2 ^ t) sum ∙ pow-add m k in
    let ones : 2 ^ m ≡ 2 ^ m - 1 + 1 = omega (arith, pow-pos m) in
    let mask : 2 ^ 64 - 2 ^ k ≡ (2 ^ m - 1) * 2 ^ k =
      omega (arith, whole, ap (λ (t : ℕ). t * 2 ^ k) ones) in
    let small : x / 2 ^ k < 2 ^ m = (div-lt_iff_lt-mul (pow-pos k)).1 (rw whole at hx) in
    rw (mask, bit_and_shift k x (2 ^ m - 1), bit_and_mask m (x / 2 ^ k), mod-eq_of_lt small)
