-- ===== src/Clean.antt =====
-- core/fishstore.h: CleanHashTableBuckets, which takes the entries of truncated records out of the hash index,
-- and core/gc_state.h. A call runs on its own: no entry changes between its load and its exchange.
pub mod Entries
pub mod Cover
use fish_store.Base.{
  ℕ, zero, suc, ◌+◌, ◌*◌, ◌-◌, ◌%◌, ◌^◌, Bool, true, false, not, ◌&&◌, ltb, leb, ◌==◌,
  if◌then◌else◌, List, [], ◌∷◌,
}
use fish_store.Address.{u64, invalid_address}
use fish_store.Bucket.{Entry, invalid_entry, unused, address}

-- `GcState`, the count of chunks of `GrowState`, the begin address, and the table: its size, and the
-- chain of each bucket. What lies past the size is other memory.
pub record Gc : Type 0 where
  pub num_chunks : ℕ
  pub next_chunk : ℕ
  pub grow_num_chunks : ℕ
  pub begin_address : ℕ
  pub size : ℕ
  pub table : ℕ → List Entry

abbrev pub gc_chunk_size : ℕ
gc_chunk_size = 16384

-- Whether the record of the entry was truncated.
unfoldable pub truncated : ℕ → Entry → Bool
truncated begin e =
    not (unused e)
    && (not ((address e).control == invalid_address) && ltb (address e).control begin)

unfoldable pub clean_entries : ℕ → List Entry → List Entry
unfolding truncated
clean_entries begin [] = []
clean_entries begin (e ∷ es) =
    (if truncated begin e then invalid_entry else e) ∷ clean_entries begin es

-- The loop over the first `n` buckets of a chunk that starts at bucket `first`.
unfoldable pub clean_buckets : ℕ → ℕ → ℕ → (ℕ → List Entry) → ℕ → List Entry
unfolding clean_entries
clean_buckets begin first zero table = table
clean_buckets begin first (suc n) table =
    let before = clean_buckets begin first n table in
    λ i. if i == first + n then clean_entries begin (before i) else before i

-- The bound on the buckets of the chunk; it is compared with the chunks of the growth.
unfoldable pub clean_bound : Gc → ℕ → ℕ
clean_bound s chunk =
    if ltb (chunk + 1) s.grow_num_chunks
    then gc_chunk_size
    else (s.size + u64 - chunk * gc_chunk_size) % u64

unfoldable pub clean_hash_table_buckets : Gc → Bool × Gc
unfolding clean_buckets clean_bound
clean_hash_table_buckets s =
    let chunk = s.next_chunk in
    let claimed = record s { next_chunk = (chunk + 1) % u64 } in
    if leb s.num_chunks chunk then (false, claimed) else (
      true,
      record claimed {
        table = clean_buckets s.begin_address (chunk * gc_chunk_size) (clean_bound s chunk) s.table;
      },
    )
