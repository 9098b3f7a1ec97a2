-- ===== src/Log/Reads.antt =====
-- core/persistent_memory_malloc.h: reads from the log's file are aligned to sectors.
use fish_store.Base.{
  ℕ, ◌+◌, ◌-◌, ◌/◌, ◌%◌, ◌^◌, ◌<◌, ◌≤◌, ◌≡◌, arith, bit_and_align, bit_and_mask, split_low, pow-pos,
  pow-le-pow,
}
use native.Mathlib.Nat.{mul-mod_left}
use fish_store.Address.{Address, u64}
use fish_store.Log.{Boundaries, get_file_read_boundaries}

-- What a read of some bytes at an address asks of the file.
pub record Covers (address bytes sector : ℕ) (b : Boundaries) : Type 0 where
  pub begin_aligned : b.begin_read % sector ≡ 0
  pub starts : b.begin_read + b.from ≡ address
  pub inside : b.from < sector
  pub ends : b.begin_read + b.size ≡ b.end_read
  pub enough : b.from + bytes ≤ b.size
  pub tight : b.size < b.from + bytes + sector

-- For sectors of 2^k bytes, k at most 16, a 48-bit address and fewer than 2^30 bytes, the read starts
-- at the sector of the address, holds all of the bytes, and goes on for less than a sector.
pub get_file_read_boundaries-Covers :
    (a : Address) (bytes k : ℕ)
    → a.control < 2 ^ 48
    → bytes < 2 ^ 30
    → k ≤ 16
    → Covers a.control bytes (2 ^ k) (get_file_read_boundaries a bytes (2 ^ k))
unfolding get_file_read_boundaries
get_file_read_boundaries-Covers a bytes k ha hb hk =
    let sector = 2 ^ k in
    let pos = pow-pos k in
    let small : sector ≤ 2 ^ 16 = pow-le-pow k 16 hk in
    let mask : u64 - 1 - (sector - 1) ≡ u64 - sector = omega (arith, pos, small) in
    let last = a.control + bytes + (sector - 1) in
    let fits : last % u64 ≡ last = omega (arith, small) in
    let start = bit_and_align k a.control (omega arith) (omega arith) in
    let stop = bit_and_align k last (omega arith) (omega (arith, small)) in
    let (sum, low) = split_low a.control k in
    let (sum', low') = split_low last k in
    rw (mask, fits, start, stop, bit_and_mask k a.control)
      (record {
        begin_aligned = mul-mod_left (a.control / sector) sector;
        starts = omega (arith, sum, low, small);
        inside = omega (arith, low, small);
        ends = omega (arith, sum, low, sum', low', small);
        enough = omega (arith, sum, low, sum', low', small);
        tight = omega (arith, sum, low, sum', low', small);
      })
