-- ===== src/Query/Followed.antt =====
-- core/fishstore.h: AsyncGetFromDiskCallback at one key pointer.
use fish_store.Base.{
  ℕ, ◌+◌, ◌-◌, ◌%◌, ◌^◌, ◌<◌, ◌≤◌, ◌≡◌, refl, ap, ◌∙◌, true, false, ltb, ◌==◌, if◌then◌else◌,
  pow-le-pow, arith,
}
use fish_store.Address.{u32, u64}
use fish_store.Batch
use fish_store.Log.Reads.{get_file_read_boundaries-Covers}
use fish_store.Record.{kpt_ptr_offset, ptr_offset, get_record}
use fish_store.Query.{Memory, record_at, matches}
use fish_store.Query.Disk.{
  IoContext, Next, fetch, size_at, offset_at, go_back, at_key_pointer, at_header,
  get_from_disk_callback, min_io_request_size,
}

-- What a read gives: it begins at the address, and has all the bytes.
pub record Fetched (address num_records : ℕ) (d c : IoContext) : Type 0 where
  pub valid : d.valid ≡ address
  pub kept : d.address ≡ c.address
  pub kept_offset : d.kpt_offset ≡ c.kpt_offset
  pub enough : num_records ≤ d.available_bytes

pub fetch-Fetched :
    (k address num_records : ℕ) (c : IoContext)
    → k ≤ 16
    → address < 2 ^ 48
    → num_records < 2 ^ 30
    → Fetched address num_records (fetch (2 ^ k) address num_records c) c
unfolding fetch
fetch-Fetched k address num_records c hk ha hb =
    let b = get_file_read_boundaries-Covers (record { control = address }) num_records k ha hb hk in
    let enough = b.enough in
    let tight = b.tight in
    let inside = b.inside in
    let small = pow-le-pow k 16 hk in
    record { valid = refl; kept = refl; kept_offset = refl; enough = omega arith }

-- A key pointer with its record, within 48-bit addresses and 2^30 bytes.
pub record Placed (m : Memory) (a : ℕ) : Type 0 where
  pub low : a < 2 ^ 48
  pub within : offset_at m a ≤ a
  pub small : size_at m (record_at m a) < 2 ^ 30

pub record_at-offset : (m : Memory) (a : ℕ) → Placed m a → record_at m a + offset_at m a ≡ a
unfolding record_at offset_at get_record ptr_offset kpt_ptr_offset
record_at-offset m a p = let low = p.low in let within = p.within in omega arith

pub offset-pos : (m : Memory) (a : ℕ) → (0 < offset_at m a) × (offset_at m a < 2 ^ 20)
unfolding offset_at ptr_offset kpt_ptr_offset
offset-pos m a = omega arith

-- A context at a key pointer, and one at the header of its record.
pub record AtKey (m : Memory) (a : ℕ) (c : IoContext) : Type 0 where
  pub valid : c.valid ≡ a
  pub address : c.address ≡ a
  pub kpt_offset : c.kpt_offset ≡ 0

pub record AtHeader (m : Memory) (a : ℕ) (c : IoContext) : Type 0 where
  pub valid : c.valid ≡ record_at m a
  pub address : c.address ≡ record_at m a
  pub kpt_offset : c.kpt_offset ≡ offset_at m a

pub header_step :
    (m : Memory) (a : ℕ) (c : IoContext)
    → Placed m a
    → AtHeader m a c
    → size_at m (record_at m a) ≤ c.available_bytes
    → get_from_disk_callback m Batch.Status.ok c
      ≡ (if matches m a then Next.responds c else go_back m a c)
unfolding get_from_disk_callback at_header matches
header_step m a c p h whole =
    let (pos, _) = offset-pos m a in
    let offset = h.kpt_offset in
    let not_zero : (c.kpt_offset == 0) ≡ false = ground arith in
    let fits : ltb c.available_bytes (size_at m (record_at m a)) ≡ false = ground arith in
    let kpt : record_at m a + c.kpt_offset ≡ a =
      ap (λ x. record_at m a + x) h.kpt_offset ∙ record_at-offset m a p in
    simp (not_zero, h.valid, kpt, fits)

pub header_reads :
    (m : Memory) (a : ℕ) (c : IoContext)
    → AtHeader m a c
    → c.available_bytes < size_at m (record_at m a)
    → get_from_disk_callback m Batch.Status.ok c
      ≡ Next.reads (record_at m a) (size_at m (record_at m a)) c
unfolding get_from_disk_callback at_header
header_reads m a c h short =
    let (pos, _) = offset-pos m a in
    let offset = h.kpt_offset in
    let not_zero : (c.kpt_offset == 0) ≡ false = ground arith in
    let lacks : ltb c.available_bytes (size_at m (record_at m a)) ≡ true = ground arith in
    simp (not_zero, h.valid, h.address, lacks)

pub record_at-low : (m : Memory) (a : ℕ) → Placed m a → record_at m a < 2 ^ 48
record_at-low m a p = let sum = record_at-offset m a p in let low = p.low in omega arith

-- The context once its address is that of the record.
abbrev pub moved : Memory → ℕ → IoContext → IoContext
moved m a c = record c { address = record_at m a }

module _ (m : Memory) (a : ℕ) (c : IoContext) (p : Placed m a) (h : AtKey m a c) where
  is_zero : (c.kpt_offset == 0) ≡ true
  is_zero = let e = h.kpt_offset in ground arith

  head_address : (a + u64 - offset_at m a) % u64 ≡ record_at m a
  head_address = let sum = record_at-offset m a p in let low = p.low in omega arith

  pub key_lost :
      c.valid_offset < offset_at m a
      → get_from_disk_callback m Batch.Status.ok c
        ≡ Next.reads
            (record_at m a)
            (min_io_request_size + offset_at m a)
            (record (moved m a c) { kpt_offset = offset_at m a })
  unfolding get_from_disk_callback at_key_pointer
  key_lost lost =
      let (_, small) = offset-pos m a in
      let yes_lost : ltb c.valid_offset (offset_at m a) ≡ true = ground arith in
      let fits : (min_io_request_size + offset_at m a) % u32 ≡ min_io_request_size + offset_at m a =
        omega arith in
      simp (is_zero, h.valid, h.address, head_address, yes_lost, fits)

  pub key_short :
      offset_at m a ≤ c.valid_offset
      → ltb ((offset_at m a + c.available_bytes) % u32) (size_at m (record_at m a)) ≡ true
      → get_from_disk_callback m Batch.Status.ok c
        ≡ Next.reads
            (record_at m a)
            (size_at m (record_at m a))
            (record (moved m a c) { kpt_offset = offset_at m a })
  unfolding get_from_disk_callback at_key_pointer record_at
  key_short there short =
      let not_lost : ltb c.valid_offset (offset_at m a) ≡ false = ground arith in
      simp (is_zero, h.valid, h.address, head_address, not_lost, short)

  pub key_step :
      offset_at m a ≤ c.valid_offset
      → ltb ((offset_at m a + c.available_bytes) % u32) (size_at m (record_at m a)) ≡ false
      → get_from_disk_callback m Batch.Status.ok c
        ≡ (if matches m a then Next.responds (moved m a c) else go_back m a (moved m a c))
  unfolding get_from_disk_callback at_key_pointer record_at matches
  key_step there whole =
      let not_lost : ltb c.valid_offset (offset_at m a) ≡ false = ground arith in
      simp (is_zero, h.valid, h.address, head_address, not_lost, whole)
