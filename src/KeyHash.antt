-- ===== src/KeyHash.antt =====
-- core/key_hash.h and core/utility.h: the 64-bit hash of a key, its bucket index and its tag.
pub mod Index
pub mod Rotate
use Prim.Native.Nat.{bit_and, bit_or}
use fish_store.Base.{
  ℕ, ◌+◌, ◌*◌, ◌-◌, ◌/◌, ◌%◌, ◌^◌, Bool, ◌&&◌, ltb, ◌==◌, if◌then◌else◌, List, [], ◌∷◌, length,
}
use fish_store.Address.{u64, u32}

-- The union's `control_`: 48 bits of address, 14 bits of tag, 2 bits not used.
pub record KeyHash : Type 0 where
  pub control : ℕ

unfoldable pub address_field : KeyHash → ℕ
address_field h = h.control % 2 ^ 48

unfoldable pub idx : KeyHash → ℕ → ℕ
unfolding address_field
idx h size = bit_and (address_field h) ((size + u64 - 1) % u64)

unfoldable pub tag : KeyHash → ℕ
tag h = h.control / 2 ^ 48 % 2 ^ 14

unfoldable pub rotr64 : ℕ → ℕ → ℕ
rotr64 x n = bit_or (x / 2 ^ n) (x * 2 ^ (64 - n) % u64)

abbrev magic : ℕ
magic = 40343

-- One round of the multiplicative hashes.
unfoldable pub mix : ℕ → ℕ → ℕ
mix state x = (magic * state + x) % u64

unfoldable pub get_hash_code : ℕ → ℕ
unfolding mix rotr64
get_hash_code input =
    let h₁ = mix 8 (input % 2 ^ 16) in
    let h₂ = mix h₁ (input / 2 ^ 16 % 2 ^ 16) in
    let h₃ = mix h₂ (input / 2 ^ 32 % 2 ^ 16) in
    let h₄ = mix h₃ (input / 2 ^ 48) in rotr64 (mix h₄ 0) 43

unfoldable pub get_hash_code_pair : ℕ → ℕ → ℕ
unfolding get_hash_code
get_hash_code_pair a b = get_hash_code ((a * 2 ^ 32 + b) % u64)

unfoldable pub mix_all : ℕ → List ℕ → ℕ
unfolding mix
mix_all state [] = state
mix_all state (c ∷ cs) = mix_all (mix state c) cs

-- `HashBytes`, over 16-bit units.
unfoldable pub hash_bytes : List ℕ → ℕ
unfolding mix_all mix rotr64
hash_bytes str = rotr64 (mix (mix_all (length str) str) 0) 6

-- A `char` is signed: it is extended to 64 bits with its sign when it is added.
unfoldable pub extend : ℕ → ℕ
extend c = if ltb c 128 then c else c + u64 - 256

unfoldable pub mix_chars : ℕ → List ℕ → ℕ
unfolding mix extend
mix_chars state [] = state
mix_chars state (c ∷ cs) = mix_chars (mix state (extend c)) cs

unfoldable pub hash_bytes_with_psf_id : ℕ → List ℕ → ℕ
unfolding mix_chars mix rotr64
hash_bytes_with_psf_id psf_id str = rotr64 (mix (mix_chars (mix (length str) psf_id) str) 0) 6

unfoldable pub is_power_of_two : ℕ → Bool
is_power_of_two x = ltb 0 x && bit_and x ((x + u64 - 1) % u64) == 0
