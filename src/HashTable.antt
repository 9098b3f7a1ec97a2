-- ===== src/HashTable.antt =====
-- core/hash_table.h: the buckets of the hash index, and their checkpoint and recovery.
-- The answers of the disk are arguments: the status of each request when it is issued, and the
-- answers with which the callbacks run. A bucket is its slots; a null pointer is `none`.
pub mod Requests
use fish_store.Base.{
  ℕ, zero, suc, ◌+◌, ◌*◌, ◌-◌, ◌/◌, ◌%◌, ◌^◌, Bool, true, false, ◌==◌, if◌then◌else◌, Option, none,
  some, List, [], ◌∷◌, replicate,
}
use fish_store.Address.{u32, u64}
use fish_store.KeyHash.{KeyHash, idx}
use fish_store.Bucket.{Entry, invalid_entry, num_entries}
use fish_store.Batch.{Status, Batch, Answer, begin_batch, callback, callbacks, complete, is_ok}

abbrev pub num_merge_chunks : ℕ
num_merge_chunks = 256

-- `sizeof(HashBucket)`
abbrev pub bucket_size : ℕ
bucket_size = 64

-- `InternalHashTable`
pub record Table : Type 0 where
  pub size : ℕ
  pub buckets : Option (ℕ → List Entry)
  pub checkpoint : Batch
  pub recover : Batch

abbrev pub idle_batch : Batch
idle_batch = record { requests = 0; is_pending = false; failed = false }

abbrev pub no_table : Table
no_table = record { size = 0; buckets = none; checkpoint = idle_batch; recover = idle_batch }

-- The buckets after `memset`.
abbrev pub cleared : ℕ → List Entry
cleared i = replicate num_entries invalid_entry

abbrev pub clear : Option (ℕ → List Entry) → Option (ℕ → List Entry)
clear none = none
clear (some buckets) = some cleared

unfoldable pub initialize : ℕ → Table → Table
initialize new_size s =
    if s.size == new_size
    then record s { buckets = clear s.buckets }
    else record s { size = new_size; buckets = some cleared }

unfoldable pub uninitialize : Table → Table
uninitialize s = record s { size = 0; buckets = none }

unfoldable pub bucket : Table → KeyHash → Option (List Entry)
bucket s hash = elim s.buckets [ none ↦ none | some buckets ↦ some (buckets (idx hash s.size)) ]

-- One read or write: where it is in the file, the first bucket, and the bytes.
pub record Request : Type 0 where
  pub offset : ℕ
  pub first_bucket : ℕ
  pub bytes : ℕ

-- The request of chunk `i`, in the 32-bit arithmetic of the loops.
unfoldable pub request : ℕ → ℕ → ℕ → Request
request chunk_size bytes i = record {
  offset = i * bytes % u32;
  first_bucket = i * chunk_size % u32;
  bytes = bytes;
}

-- The loops over the chunks from `i` on, `n` of them: the requests are issued until one is refused.
unfoldable pub issue : (ℕ → Status) → (ℕ → Request) → ℕ → ℕ → Status × List Request
issue answer make zero i = (Status.ok, [])
issue answer make (suc n) i =
    let (status, rest) = issue answer make n (i + 1) in
    if is_ok (answer i) then (status, make i ∷ rest) else (answer i, make i ∷ [])

unfoldable pub chunk_size_of : ℕ → ℕ
chunk_size_of size = size / num_merge_chunks % u32

-- `Checkpoint`: the status, the size of the checkpoint, the requests, and the table.
unfoldable pub start_checkpoint : (ℕ → Status) → Table → Status × ℕ × List Request × Table
start_checkpoint answer s =
    let chunk_size = chunk_size_of s.size in
    let write_size = chunk_size * bucket_size % u32 in
    let (status, requests) = issue answer (request chunk_size write_size) num_merge_chunks 0 in
    (
      status,
      if is_ok status then s.size * bucket_size % u64 else 0,
      requests,
      record s { checkpoint = begin_batch num_merge_chunks },
    )

-- The callback of `Checkpoint`, and `CheckpointComplete(wait)`.
unfoldable pub checkpoint_callback : Answer → Table → Table
checkpoint_callback a s = record s { checkpoint = callback a s.checkpoint }

abbrev pub put_checkpoint : Table → Option (Status × Batch) → Option (Status × Table)
put_checkpoint s none = none
put_checkpoint s (some (status, b)) = some (status, record s { checkpoint = b })

unfoldable pub checkpoint_complete :
    Bool → List Answer → List (List Answer) → Table → Option (Status × Table)
checkpoint_complete wait first polls s = put_checkpoint s (complete wait first polls s.checkpoint)

-- `Recover`.
unfoldable pub start_recover : (ℕ → Status) → ℕ → Table → Status × List Request × Table
start_recover answer checkpoint_size s =
    let read_size = checkpoint_size / num_merge_chunks % u32 in
    let chunk_size = read_size / bucket_size in
    let t = initialize (checkpoint_size / bucket_size) s in
    let (status, requests) = issue answer (request chunk_size read_size) num_merge_chunks 0 in
    (status, requests, record t { recover = begin_batch num_merge_chunks })

unfoldable pub recover_callback : Answer → Table → Table
recover_callback a s = record s { recover = callback a s.recover }

abbrev pub put_recover : Table → Option (Status × Batch) → Option (Status × Table)
put_recover s none = none
put_recover s (some (status, b)) = some (status, record s { recover = b })

unfoldable pub recover_complete :
    Bool → List Answer → List (List Answer) → Table → Option (Status × Table)
recover_complete wait first polls s = put_recover s (complete wait first polls s.recover)
