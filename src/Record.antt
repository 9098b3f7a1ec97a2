-- ===== src/Record.antt =====
-- core/record.h and core/auto_ptr.h: the header of a record, its key pointers, and their places.
pub mod Layout
pub mod Packing
use Prim.Native.Nat.{bit_and}
use fish_store.Base.{ℕ, ◌+◌, ◌*◌, ◌-◌, ◌/◌, ◌%◌, ◌^◌, Bool, true, false, not, ◌==◌, if◌then◌else◌}
use fish_store.Address.{Address, u32, u64}
use fish_store.Bucket.{bit, compare_exchange}
use fish_store.KeyHash.{KeyHash, get_hash_code_pair}

-- `RecordInfo`: the header word.
pub record RecordInfo : Type 0 where
  pub control : ℕ

unfoldable pub make_info : ℕ → Bool → Bool → Bool → ℕ → ℕ → ℕ → RecordInfo
make_info version final_bit tombstone invalid ptr_cnt payload_size optional_size = record {
  control =
      ptr_cnt % 2 ^ 15
      + payload_size % 2 ^ 25 * 2 ^ 15
      + optional_size % 2 ^ 8 * 2 ^ 40
      + version % 2 ^ 13 * 2 ^ 48
      + bit invalid * 2 ^ 61
      + bit tombstone * 2 ^ 62
      + bit final_bit * 2 ^ 63;
}

unfoldable pub ptr_cnt : RecordInfo → ℕ
ptr_cnt h = h.control % 2 ^ 15

unfoldable pub payload_size : RecordInfo → ℕ
payload_size h = h.control / 2 ^ 15 % 2 ^ 25

unfoldable pub optional_size : RecordInfo → ℕ
optional_size h = h.control / 2 ^ 40 % 2 ^ 8

unfoldable pub checkpoint_version : RecordInfo → ℕ
checkpoint_version h = h.control / 2 ^ 48 % 2 ^ 13

unfoldable pub invalid : RecordInfo → Bool
invalid h = not (h.control / 2 ^ 61 % 2 == 0)

unfoldable pub tombstone : RecordInfo → Bool
tombstone h = not (h.control / 2 ^ 62 % 2 == 0)

unfoldable pub final_bit : RecordInfo → Bool
final_bit h = not (h.control / 2 ^ 63 % 2 == 0)

unfoldable pub is_null : RecordInfo → Bool
is_null h = h.control == 0

-- `header.invalid = false`, with which an insertion ends.
unfoldable pub set_invalid : RecordInfo → Bool → RecordInfo
set_invalid h b = record {
  control = h.control % 2 ^ 61 + bit b * 2 ^ 61 + h.control / 2 ^ 62 * 2 ^ 62;
}

-- The first word of a key pointer, which `KPTCASUtil` reads: mode, offset among the key pointers of
-- the record, address of the next key pointer in the hash chain.
unfoldable pub make_kpt : ℕ → ℕ → ℕ → ℕ
make_kpt mode ptr_offset prev_address =
    mode % 2 + ptr_offset % 2 ^ 15 * 2 + prev_address % 2 ^ 48 * 2 ^ 16

unfoldable pub kpt_mode : ℕ → ℕ
kpt_mode word = word % 2

unfoldable pub kpt_ptr_offset : ℕ → ℕ
kpt_ptr_offset word = word / 2 % 2 ^ 15

unfoldable pub kpt_prev_address : ℕ → ℕ
kpt_prev_address word = word / 2 ^ 16 % 2 ^ 48

-- `KeyPointer::alter`: success, the word that `expected_cas` holds afterwards, and the word.
unfoldable pub alter : ℕ → Address → ℕ → Bool × ℕ × ℕ
unfolding compare_exchange
alter word new_address expected =
    let updated = expected % 2 ^ 16 + new_address.control % 2 ^ 48 * 2 ^ 16 in
    compare_exchange word expected updated

abbrev pub info_size : ℕ
info_size = 8

abbrev pub kpt_size : ℕ
kpt_size = 16

-- `pad_alignment(size, alignment)`, for alignments that are powers of two.
unfoldable pub pad_alignment : ℕ → ℕ → ℕ
pad_alignment size alignment =
    let max_padding = alignment - 1 in bit_and ((size + max_padding) % u64) (u64 - 1 - max_padding)

unfoldable pub size : ℕ → ℕ → ℕ → ℕ
unfolding pad_alignment
size ptrs payload optional =
    pad_alignment ((info_size + kpt_size * ptrs + payload + optional) % u64) 8 % u32

-- Places in memory: of a key pointer, of the record of a key pointer, and of the payload.
unfoldable pub get_ptr : ℕ → ℕ → ℕ
get_ptr here offset = (here + info_size + offset * kpt_size) % u64

unfoldable pub get_record : ℕ → ℕ → ℕ
unfolding kpt_ptr_offset
get_record kpt word = (kpt + 2 * u64 - kpt_size * kpt_ptr_offset word - info_size) % u64

unfoldable pub ptr_offset : ℕ → ℕ
ptr_offset offset = (info_size + kpt_size * offset) % u32

unfoldable pub payload : ℕ → RecordInfo → ℕ
unfolding ptr_cnt
payload here h = (here + info_size + ptr_cnt h * kpt_size) % u64
