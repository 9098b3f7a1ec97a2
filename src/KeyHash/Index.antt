-- ===== src/KeyHash/Index.antt =====
-- core/key_hash.h, core/utility.h: bucket indices at table sizes that are powers of two.
use fish_store.Base.{
  ℕ, suc, ◌+◌, ◌*◌, ◌-◌, ◌/◌, ◌%◌, ◌^◌, ◌≤◌, ◌<◌, ◌≡◌, true, ◌⊎◌, ◌↔◌, arith, bit_and_mask, pow-pos,
  pow-le-pow, power_of_two_iff, mod_unique, Bool-cases, ap, ◌==◌, inl, inr,
}
use native.Mathlib.Nat.{pow-suc, mod-lt, div-add-mod'}
use fish_store.Address.{u64}
use fish_store.KeyHash.{KeyHash, idx, address_field, is_power_of_two}

predecessor : (x : ℕ) → x < u64 → 0 < x → (x + u64 - 1) % u64 ≡ x - 1
predecessor x h pos = omega arith

-- `IsPowerOfTwo` decides, for a 64-bit word, whether it is a power of two.
pub is_power_of_two_iff : (x : ℕ) → x < u64 → (is_power_of_two x ≡ true) ↔ ((k : ℕ) × (x ≡ 2 ^ k))
unfolding is_power_of_two
is_power_of_two_iff x h = (
  λ e. (power_of_two_iff x).0 (ground (arith, predecessor x h)),
  λ p. let (pos, low) = (power_of_two_iff x).1 p in ground (arith, predecessor x h pos),
)

idx-eq_mod : (h : KeyHash) (k : ℕ) → k ≤ 47 → idx h (2 ^ k) ≡ address_field h % 2 ^ k
unfolding idx
idx-eq_mod h k hk =
    let small : 2 ^ k ≤ 2 ^ 47 = pow-le-pow k 47 hk in
    let cut : (2 ^ k + u64 - 1) % u64 ≡ 2 ^ k - 1 = omega (arith, pow-pos k) in
    rw (cut, bit_and_mask k (address_field h))

mod_doubles : (a k : ℕ) → (a % 2 ^ suc k ≡ a % 2 ^ k) ⊎ (a % 2 ^ suc k ≡ a % 2 ^ k + 2 ^ k)
mod_doubles a k =
    let p = 2 ^ k in
    let pos = pow-pos k in
    let e = div-add-mod' a p in
    let l = mod-lt a pos in
    rw pow-suc (elim (Bool-cases (a / p % 2 == 0)) [
      | inl even ↦
          let d : a / p ≡ a / p / 2 * 2 = ground arith in
          let m = ap (λ (t : ℕ). t * p) d in
          inl (mod_unique a (p * 2) (a / p / 2) (a % p) (omega (arith, e, m)) (omega (arith, l)))
      | inr odd ↦
          let d : a / p ≡ a / p / 2 * 2 + 1 = ground arith in
          let m = ap (λ (t : ℕ). t * p) d in
          inr
            (mod_unique a (p * 2) (a / p / 2) (a % p + p) (omega (arith, e, m)) (omega (arith, l)))
    ])

-- In a table of 2^k buckets, k at most 46, the index is in range; and in the table of twice the
-- size, the index is the old one or the old one plus the old size.
pub idx_doubles :
    (h : KeyHash) (k : ℕ)
    → k ≤ 46
    → (idx h (2 ^ k) < 2 ^ k)
      × ((idx h (2 ^ suc k) ≡ idx h (2 ^ k)) ⊎ (idx h (2 ^ suc k) ≡ idx h (2 ^ k) + 2 ^ k))
idx_doubles h k hk =
    rw (idx-eq_mod h k (omega arith), idx-eq_mod h (suc k) (omega arith))
      (mod-lt (address_field h) (pow-pos k), mod_doubles (address_field h) k)
