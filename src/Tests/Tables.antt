-- ===== src/Tests/Tables.antt =====
-- core/fishstore.h, core/hash_table.h: growth, cleaning, checkpoint and recovery of the table at concrete
-- values.
use fish_store.Base.{
  ℕ, ◌+◌, ◌*◌, ◌/◌, ◌-◌, ◌^◌, ◌<◌, ◌≤◌, ◌≡◌, ◌≢◌, refl, true, false, ltb, if◌then◌else◌, some, List,
  [], ◌∷◌, get_elem?, replicate, arith,
}
use fish_store.Bucket.{Entry, invalid_entry}
use fish_store.Grow.{Source, Growing, chunks_of, initialize}
use fish_store.Grow.Trace.{Backward}
use fish_store.Grow.Other.{Keeps}
use fish_store.Grow.Chunks.{split_chunks, split_chunks-Keeps}
use fish_store.Clean.{Gc, clean_hash_table_buckets}
use fish_store.Clean.Entries.{Cleaned}
use fish_store.Clean.Cover.{clean_calls, clean_calls-cover}
use fish_store.Batch.{Status, Answer, Batch, begin_batch, complete}
use fish_store.Batch.Settle.{all_well, complete-settles}
use fish_store.HashTable
use fish_store.HashTable.{Table, Request, no_table, num_merge_chunks, bucket_size}
use fish_store.HashTable.Requests.{exact, start_recover-start_checkpoint, start_checkpoint_wraps}
use fish_store.Pages.{page_size}
use fish_store.Pages.Spec.{Represents}
use fish_store.Pages.Places.{first, initialize-first}
use fish_store.Pages.Restart.{below}
use fish_store.Pages.Disk
use fish_store.Pages.Disk.{Stored}
use fish_store.Pages.Stored.{item, accepts, start_recover_stored}

-- Key pointers at 300 and 200 in memory, and at 100 on disk; those below 256 hash to the side 1.
abbrev keys : Source
keys = record {
  hash = λ a. record { control = if ltb a 256 then 4 else 0 };
  prev_address = λ a. a - 100;
  old_size = 4;
  new_size = 8;
  head_address = 150;
  begin_address = 64;
}

keys-Backward : Backward keys
keys-Backward a le = omega arith

abbrev old_table : ℕ → List Entry
old_table i = record { control = 5 * 2 ^ 48 + 300 } ∷ replicate 6 invalid_entry

split_chunks-Keeps_example :
    (s : Growing) × (split_chunks (chunks_of 4) (2 ^ 48) keys (initialize 4 old_table) ≡ some s)
    × (s.old_freed ≡ true)
    × ((i : ℕ) → i < 4 → Keeps keys (old_table i) (s.new_table i) (s.new_table (4 + i)))
split_chunks-Keeps_example =
    split_chunks-Keeps (2 ^ 48) keys old_table (omega arith) keys-Backward (omega arith)
      (omega arith)

abbrev collected : Gc
collected = record {
  num_chunks = 2;
  next_chunk = 0;
  grow_num_chunks = 1;
  begin_address = 400;
  size = 32768;
  table = old_table;
}

clean_calls-cover_example :
    (s : Gc) × (clean_calls 2 collected ≡ s)
    × ((i : ℕ) → i < 32768 → Cleaned 400 (old_table i) (s.table i))
    × ((i : ℕ) → 32768 ≤ i → s.table i ≡ old_table i)
    × ((clean_hash_table_buckets s).0 ≡ false)
    × ((clean_hash_table_buckets s).1.table ≡ s.table)
clean_calls-cover_example = clean_calls-cover collected (omega arith) refl (omega arith)

abbrev never_grown : Gc
never_grown = record collected { num_chunks = 1; grow_num_chunks = 77; size = 128 }

abbrev good : Answer
good = record { result = Status.ok; close = Status.ok }

abbrev bad : Answer
bad = record { result = Status.io_error; close = Status.ok }

complete-settles_example :
    (after : Batch) × (complete true (good ∷ []) ((bad ∷ []) ∷ (good ∷ []) ∷ []) (begin_batch 3)
      ≡ some (if all_well (good ∷ bad ∷ good ∷ []) then Status.ok else Status.io_error, after))
    × (1 < 3
        → (c : Batch) × (complete false (good ∷ []) [] (begin_batch 3) ≡ some (Status.pending, c)))
complete-settles_example =
    complete-settles 3 (good ∷ []) ((bad ∷ []) ∷ (good ∷ []) ∷ []) (omega arith) (omega arith) refl

abbrev small_table : Table
small_table = record no_table { size = 1024 }

start_recover-start_checkpoint_example :
    ((HashTable.start_checkpoint (λ k. Status.ok) small_table).0 ≡ Status.ok)
    × (get_elem? (HashTable.start_checkpoint (λ k. Status.ok) small_table).2 3
        ≡ some (exact (1024 / num_merge_chunks) 3))
    × ((HashTable.start_recover
          (λ k. Status.ok)
          (HashTable.start_checkpoint (λ k. Status.ok) small_table).1
          no_table).0
        ≡ Status.ok)
    × (get_elem?
          (HashTable.start_recover
            (λ k. Status.ok)
            (HashTable.start_checkpoint (λ k. Status.ok) small_table).1
            no_table).1
          3
        ≡ get_elem? (HashTable.start_checkpoint (λ k. Status.ok) small_table).2 3)
    × ((HashTable.start_recover
          (λ k. Status.ok)
          (HashTable.start_checkpoint (λ k. Status.ok) small_table).1
          no_table).2.size
        ≡ 1024)
start_recover-start_checkpoint_example =
    start_recover-start_checkpoint small_table no_table 3 refl (omega arith) (omega arith)

abbrev large_table : Table
large_table = record no_table { size = 2 ^ 27 }

start_checkpoint_wraps_example :
    (r : Request) × (get_elem? (HashTable.start_checkpoint (λ k. Status.ok) large_table).2 5
      ≡ some r)
    × (r' : Request) × (get_elem?
          (HashTable.start_checkpoint (λ k. Status.ok) large_table).2
          (5 + 128)
        ≡ some r')
    × (r.offset ≡ r'.offset)
    × (r.first_bucket ≢ r'.first_bucket)
start_checkpoint_wraps_example = start_checkpoint_wraps large_table 5 refl (omega arith)

abbrev stored : Stored
stored = record {
  allocator = first;
  checkpoint = HashTable.idle_batch;
  recovery = HashTable.idle_batch;
}

start_recover_stored_example :
    ((Disk.start_checkpoint accepts item stored).0 ≡ Status.ok)
    × ((i : ℕ)
        → i * page_size < 1
        → get_elem? (Disk.start_checkpoint accepts item stored).2 i
          ≡ some (record { page_index = i; file_offset = i * (page_size * item) }))
    × (t' : Stored) × (Disk.start_recover accepts item
          (Disk.start_checkpoint accepts item stored).1
          first.count
          stored
        ≡ some (Status.ok, (Disk.start_checkpoint accepts item stored).2, t'))
    × Represents t'.allocator (below first.count)
start_recover_stored_example =
    start_recover_stored stored stored 0 1 (initialize-first 0 1) (omega arith) (omega arith)
