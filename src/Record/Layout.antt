-- ===== src/Record/Layout.antt =====
-- core/record.h: the places of the key pointers and of the payload within a record.
use fish_store.Base.{true, false, ℕ, ◌+◌, ◌*◌, ◌/◌, ◌%◌, ◌^◌, ◌<◌, ◌≤◌, ◌≡◌, arith, bit_and_align}
use fish_store.Address.{u64}
use fish_store.Record.{
  pad_alignment, size, get_ptr, get_record, make_kpt, payload, make_info, info_size, kpt_size,
}

pub pad_alignment-eight : (x : ℕ) → x + 7 < u64 → pad_alignment x 8 ≡ (x + 7) / 8 * 8
unfolding pad_alignment
pad_alignment-eight x h =
    let cut : (x + 7) % u64 ≡ x + 7 = omega arith in
    rw cut (bit_and_align 3 (x + 7) (omega arith) h)

size-eight :
    (p s o : ℕ)
    → p < 2 ^ 15
    → s < 2 ^ 25
    → o < 2 ^ 8
    → size p s o ≡ (info_size + kpt_size * p + s + o + 7) / 8 * 8
unfolding size
size-eight p s o hp hs ho =
    let n = info_size + kpt_size * p + s + o in
    let cut : n % u64 ≡ n = omega arith in
    rw (cut, pad_alignment-eight n (omega arith)) (omega arith)

-- Where a record of `p` key pointers, `s` bytes of payload and `o` optional bytes stands at `here`,
-- within memory and with values that fit the header: its size is a multiple of 8 and leaves fewer
-- than 8 bytes over; each key pointer ends where the payload starts or before, and leads back to the
-- record; and the payload with the optional bytes ends within the record.
pub record_holds :
    (here mode prev p s o i : ℕ)
    → p < 2 ^ 15
    → s < 2 ^ 25
    → o < 2 ^ 8
    → i < p
    → mode < 2
    → here + size p s o < u64
    → (size p s o % 8 ≡ 0)
      × (size p s o < info_size + kpt_size * p + s + o + 8)
      × (get_ptr here i + kpt_size ≤ payload here (make_info 0 true false true p s o))
      × (get_record (get_ptr here i) (make_kpt mode i prev) ≡ here)
      × (payload here (make_info 0 true false true p s o) + s + o ≤ here + size p s o)
unfolding get_ptr get_record payload make_info make_kpt
record_holds here mode prev p s o i hp hs ho hi hm fits =
    let e = size-eight p s o hp hs ho in
    (omega (arith, e), omega (arith, e), omega (arith, e), omega (arith, e), omega (arith, e))
