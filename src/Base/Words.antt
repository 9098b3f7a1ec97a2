-- ===== src/Base/Words.antt =====
-- Powers of two as word sizes and shift counts.
use Prim.Native.Nat.{ℕ, ◌+◌, ◌*◌, ◌/◌, ◌%◌, ◌^◌, ◌≤◌, ◌<◌}
use mathlib.Core.Path.{◌≡◌}
use native.Mathlib.Nat.{div-add-mod', mod-lt, one-le-pow, pow-le-pow_right}
use native.Mathlib.Omega.{arith}

pub pow-pos : (n : ℕ) → 0 < 2 ^ n
pow-pos n = one-le-pow n 2 (omega arith)

pub pow-le-pow : (m n : ℕ) → m ≤ n → 2 ^ m ≤ 2 ^ n
pow-le-pow m n h = pow-le-pow_right (omega arith) h

-- `(x >> k) << k` and `x & ((1 << k) - 1)` split `x`.
pub split_low : (x k : ℕ) → (x / 2 ^ k * 2 ^ k + x % 2 ^ k ≡ x) × (x % 2 ^ k < 2 ^ k)
split_low x k = (div-add-mod' x (2 ^ k), mod-lt x (pow-pos k))
