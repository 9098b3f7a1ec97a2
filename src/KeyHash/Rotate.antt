-- ===== src/KeyHash/Rotate.antt =====
-- core/utility.h: the rounds and the rotation of `HashBytesWithPSFID`.
use fish_store.Base.{
  ℕ, ◌+◌, ◌*◌, ◌/◌, ◌%◌, ◌^◌, ◌<◌, ◌≡◌, List, [], ◌∷◌, length, arith, bit_or_disjoint,
}
use fish_store.Address.{u64}
use fish_store.KeyHash.{rotr64, mix, mix_chars, extend, hash_bytes_with_psf_id}

mix-injective : (c x y : ℕ) → x < u64 → y < u64 → mix x c ≡ mix y c → x ≡ y
unfolding mix
mix-injective c x y hx hy e = omega arith

rotr64_six : (x : ℕ) → x < u64 → rotr64 x 6 ≡ x / 64 + x % 64 * 2 ^ 58
unfolding rotr64
rotr64_six x h =
    let high : x * 2 ^ 58 % u64 ≡ x % 64 * 2 ^ 58 = omega arith in
    rw high (bit_or_disjoint 58 (x / 64) (x % 64) (omega arith))

rotr64_six-injective : (x y : ℕ) → x < u64 → y < u64 → rotr64 x 6 ≡ rotr64 y 6 → x ≡ y
rotr64_six-injective x y hx hy e = omega (arith, e, rotr64_six x hx, rotr64_six y hy)

mix-lt : (state c : ℕ) → mix state c < u64
unfolding mix
mix-lt state c = omega arith

mix_chars-lt : (state : ℕ) (str : List ℕ) → state < u64 → mix_chars state str < u64
unfolding mix_chars
mix_chars-lt state [] h = h
mix_chars-lt state (c ∷ cs) h = mix_chars-lt (mix state (extend c)) cs (mix-lt state (extend c))

mix_chars-injective :
    (str : List ℕ) (x y : ℕ) → x < u64 → y < u64 → mix_chars x str ≡ mix_chars y str → x ≡ y
unfolding mix_chars
mix_chars-injective [] x y hx hy e = e
mix_chars-injective (c ∷ cs) x y hx hy e =
    mix-injective (extend c) x y hx hy
      (mix_chars-injective cs (mix x (extend c)) (mix y (extend c)) (mix-lt x _) (mix-lt y _) e)

mix_seed-injective : (n a b : ℕ) → a < u64 → b < u64 → mix n a ≡ mix n b → a ≡ b
unfolding mix
mix_seed-injective n a b ha hb e = omega arith

-- Two PSFs never share the hash of one payload: for 16-bit PSF ids, equal hashes of one byte
-- string come from one PSF id.
pub hash_bytes_with_psf_id-injective :
    (a b : ℕ) (str : List ℕ)
    → a < 2 ^ 16
    → b < 2 ^ 16
    → hash_bytes_with_psf_id a str ≡ hash_bytes_with_psf_id b str
    → a ≡ b
unfolding hash_bytes_with_psf_id
hash_bytes_with_psf_id-injective a b str ha hb e =
    let n = length str in
    mix_seed-injective n a b (omega arith) (omega arith) (
      mix_chars-injective str (mix n a) (mix n b) (mix-lt n a) (mix-lt n b) (
        mix-injective 0 _ _ (mix_chars-lt _ str (mix-lt n a)) (mix_chars-lt _ str (mix-lt n b))
          (rotr64_six-injective _ _ (mix-lt _ 0) (mix-lt _ 0) e)))
