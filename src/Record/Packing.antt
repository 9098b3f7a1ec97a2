-- ===== src/Record/Packing.antt =====
-- core/record.h: the fields of the header and of a key pointer's first word.
use fish_store.Base.{
  ℕ, ◌^◌, ◌<◌, ◌≡◌, ◌≢◌, ◌⊎◌, Bool, true, false, arith, ◌==◌, Bool-cases, inl, inr,
}
use fish_store.Address.{Address, u64}
use fish_store.Record.{
  RecordInfo, make_info, ptr_cnt, payload_size, optional_size, checkpoint_version, invalid,
  tombstone, final_bit, set_invalid, kpt_mode, kpt_ptr_offset, kpt_prev_address, alter,
}

-- The values of a header.
pub record Reads (h : RecordInfo) (v p s o : ℕ) (f t i : Bool) : Type 0 where
  pub version : checkpoint_version h ≡ v
  pub ptrs : ptr_cnt h ≡ p
  pub payload_bytes : payload_size h ≡ s
  pub optional_bytes : optional_size h ≡ o
  pub final : final_bit h ≡ f
  pub dead : tombstone h ≡ t
  pub hidden : invalid h ≡ i

-- A header made of values that fit their fields reads back as these values.
pub make_info-Reads :
    (v p s o : ℕ) (f t i : Bool)
    → v < 2 ^ 13
    → p < 2 ^ 15
    → s < 2 ^ 25
    → o < 2 ^ 8
    → Reads (make_info v f t i p s o) v p s o f t i
unfolding make_info checkpoint_version ptr_cnt payload_size optional_size final_bit tombstone
    invalid
make_info-Reads v p s o true true true hv hp hs ho = ground arith
make_info-Reads v p s o true true false hv hp hs ho = ground arith
make_info-Reads v p s o true false true hv hp hs ho = ground arith
make_info-Reads v p s o true false false hv hp hs ho = ground arith
make_info-Reads v p s o false true true hv hp hs ho = ground arith
make_info-Reads v p s o false true false hv hp hs ho = ground arith
make_info-Reads v p s o false false true hv hp hs ho = ground arith
make_info-Reads v p s o false false false hv hp hs ho = ground arith

-- Clearing or setting the invalid bit of a 64-bit header changes that bit alone.
pub set_invalid-Reads :
    (h : RecordInfo) (b : Bool)
    → h.control < u64
    → Reads
        (set_invalid h b)
        (checkpoint_version h)
        (ptr_cnt h)
        (payload_size h)
        (optional_size h)
        (final_bit h)
        (tombstone h)
        b
unfolding set_invalid checkpoint_version ptr_cnt payload_size optional_size final_bit tombstone
    invalid
set_invalid-Reads h true small = ground arith
set_invalid-Reads h false small = ground arith

-- `alter` succeeds just when the word is the expected one. It then links the key pointer to the new
-- address and keeps its mode and its offset; otherwise the word stays, and the caller has seen it.
pub alter-links :
    (word expected : ℕ) (a : Address)
    → word < u64
    → a.control < 2 ^ 48
    → ((word ≡ expected)
        × ((alter word a expected).0 ≡ true)
        × (kpt_prev_address (alter word a expected).2 ≡ a.control)
        × (kpt_mode (alter word a expected).2 ≡ kpt_mode word)
        × (kpt_ptr_offset (alter word a expected).2 ≡ kpt_ptr_offset word))
      ⊎ ((word ≢ expected) × (alter word a expected ≡ (false, word, word)))
unfolding alter kpt_prev_address kpt_mode kpt_ptr_offset
alter-links word expected a hw ha = elim (Bool-cases (word == expected)) [
  | inl same ↦ inl (ground arith, ground arith, ground arith, ground arith, ground arith)
  | inr other ↦ inr (ground arith, rw other)
]
