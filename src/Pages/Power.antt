-- ===== src/Pages/Power.antt =====
-- core/auto_ptr.h: `next_power_of_two`.
use fish_store.Base.{
  ℕ, zero, suc, ◌+◌, ◌*◌, ◌-◌, ◌/◌, ◌%◌, ◌^◌, ◌<◌, ◌≤◌, ◌≡◌, inl, inr, refl, ap, true, ◌∙◌, ◌==◌,
  ltb, Bool-cases, pow-le-pow, arith,
}
use native.Mathlib.Nat.{pow-suc, mod-eq_of_lt}
use fish_store.Address.{u64}
use fish_store.Pages.{highest_bit, bit_scan_reverse, next_power_of_two}

-- The highest bit of a word that is not zero: the word lies between its power and the next one.
highest_bit_bounds :
    (rounds mask : ℕ)
    → 0 < mask
    → mask < 2 ^ suc rounds
    → (2 ^ highest_bit rounds mask ≤ mask)
      × (mask < 2 ^ suc (highest_bit rounds mask))
      × (highest_bit rounds mask ≤ rounds)
unfolding highest_bit
highest_bit_bounds zero mask pos small = (omega arith, omega arith, omega arith)
highest_bit_bounds (suc rounds) mask pos small = elim (Bool-cases (mask / 2 == 0)) [
  | inl low ↦ rw low (ground arith, ground arith, omega arith)
  | inr more ↦
      let small' : mask < 2 ^ suc rounds * 2 = rw pow-suc at small in
      let (above, below, fits) =
        highest_bit_bounds rounds (mask / 2) (ground arith) (omega arith) in
      let below' : mask / 2 < 2 ^ highest_bit rounds (mask / 2) * 2 = rw pow-suc at below in
      rw (more, pow-suc, pow-suc) (omega arith, omega arith, omega arith)
]

next_power_of_two-one : next_power_of_two 1 ≡ 1
unfolding next_power_of_two bit_scan_reverse highest_bit
next_power_of_two-one = refl

next_power_of_two-more :
    (size : ℕ)
    → 1 < size
    → size ≤ 2 ^ 63
    → next_power_of_two size ≡ 2 ^ suc (highest_bit 63 (size - 1)) % u64
unfolding next_power_of_two bit_scan_reverse
next_power_of_two-more size more small =
    let wrapped : (size + u64 - 1) % u64 ≡ size - 1 = omega arith in
    let found : ltb 0 (size - 1) ≡ true = ground arith in
    let next : highest_bit 63 (size - 1) + 1 ≡ suc (highest_bit 63 (size - 1)) = omega arith in
    rw (wrapped, found) (ap (λ (t : ℕ). 2 ^ t % u64) next)

-- For a size from 1 to 2^63 the result is a power of two, not less than the size, and less than twice the
-- size: the next power of two.
pub next_power_of_two-least :
    (size : ℕ)
    → 0 < size
    → size ≤ 2 ^ 63
    → ((k : ℕ) × (next_power_of_two size ≡ 2 ^ k))
      × (size ≤ next_power_of_two size)
      × (next_power_of_two size < 2 * size)
next_power_of_two-least size pos small = elim (Bool-cases (ltb 1 size)) [
  | inl more ↦
      let (above, below, fits) = highest_bit_bounds 63 (size - 1) (ground arith) (omega arith) in
      powers (highest_bit 63 (size - 1)) (ground arith) above below
        (next_power_of_two-more size (ground arith) small)
  | inr one ↦
      let e : size ≡ 1 = ground arith in
      rw (e, next_power_of_two-one) ((0, refl), omega arith, omega arith)
]
  where
    powers :
        (k : ℕ)
        → 1 < size
        → 2 ^ k ≤ size - 1
        → size - 1 < 2 ^ suc k
        → next_power_of_two size ≡ 2 ^ suc k % u64
        → ((n : ℕ) × (next_power_of_two size ≡ 2 ^ n))
          × (size ≤ next_power_of_two size)
          × (next_power_of_two size < 2 * size)
    powers k more above below e =
        let double : 2 ^ suc k ≡ 2 ^ k * 2 = pow-suc 2 k in
        let e' : next_power_of_two size ≡ 2 ^ suc k =
          e ∙ mod-eq_of_lt (omega (arith, double, not_last)) in
        ((suc k, e'), omega (arith, e', double), omega (arith, e', double))
      where
        not_last : 2 ^ suc k < u64
        not_last = elim (Bool-cases (ltb k 63)) [
          | inl less ↦ let le = pow-le-pow (suc k) 63 (ground arith) in omega (arith, le)
          | inr last ↦ let le = pow-le-pow 63 k (ground arith) in absurd (omega (arith, le))
        ]
