-- ===== src/Grow.antt =====
-- core/fishstore.h: SplitHashTableBuckets, which moves the hash index to a table of twice the size, and
-- core/grow_state.h.
-- A chain is the list of the slots of a bucket and of its overflow buckets, as in Index. A chunk is split in
-- one step, as the chunks that several threads split at once share no bucket.
pub mod Build
pub mod Trace
pub mod Other
pub mod Split
pub mod Chunks
use fish_store.Base.{
  ℕ, zero, suc, ◌+◌, ◌*◌, ◌-◌, ◌/◌, ◌%◌, ◌^◌, Bool, true, false, not, ltb, leb, ◌==◌, if◌then◌else◌,
  Option, none, some, List, [], ◌∷◌, ◌++◌, set, replicate,
}
use fish_store.Address.{u64}
use fish_store.KeyHash.{KeyHash, idx}
use fish_store.Bucket.{Entry, invalid_entry, make_entry, unused, address, tag, num_entries}

-- What is read of the log and of the two tables: the hash and the previous address of the key pointer at an
-- address, the sizes of the tables, and the addresses from which the log is in memory and exists.
pub record Source : Type 0 where
  pub hash : ℕ → KeyHash
  pub prev_address : ℕ → ℕ
  pub old_size : ℕ
  pub new_size : ℕ
  pub head_address : ℕ
  pub begin_address : ℕ

-- A new chain under construction: the slots of its full buckets, and its last bucket.
pub record Building : Type 0 where
  pub full : List Entry
  pub bucket : List Entry
  pub next_idx : ℕ

abbrev pub empty_bucket : List Entry
empty_bucket = replicate num_entries invalid_entry

abbrev pub empty_chain : Building
empty_chain = record { full = []; bucket = empty_bucket; next_idx = 0 }

abbrev pub slots : Building → List Entry
slots b = b.full ++ b.bucket

-- `AddHashEntry(bucket, next_idx, version, entry)`; a new bucket is empty.
unfoldable pub add_hash_entry : Building → Entry → Building
add_hash_entry b e =
    let c : Building =
      if b.next_idx == num_entries
      then record { full = b.full ++ b.bucket; bucket = empty_bucket; next_idx = 0 }
      else b in
    record c { bucket = set c.bucket c.next_idx e; next_idx = c.next_idx + 1 }

-- Whether the key pointer at an address hashes to the 0 side of the new table.
unfoldable pub zero_side : Source → ℕ → Bool
zero_side g a = ltb (idx (g.hash a) g.new_size) g.old_size

abbrev pub differ : Bool → Bool → Bool
differ true b = not b
differ false b = b

-- `TraceBackForOtherChainStart(old_size, new_size, from_address, min_address, side)`.
unfoldable pub trace_back : ℕ → Source → ℕ → ℕ → ℕ → Option ℕ
unfolding zero_side
trace_back zero g from min side = none
trace_back (suc rounds) g from min side =
    let earlier = trace_back rounds g (g.prev_address from) min side in
    if leb min from
    then (if differ (zero_side g from) (side == 0) then some from else earlier)
    else some from

-- The two new chains that an old one is split into.
pub record Sides : Type 0 where
  pub side0 : Building
  pub side1 : Building

-- What the trace for the other side came to.
abbrev pub add_other : Source → Entry → Building → Option ℕ → Option Building
add_other g e b none = none
add_other g e b (some other) = some (
    if leb g.begin_address other
    then add_hash_entry b (make_entry (record { control = other }) (tag e) false)
    else b)

abbrev pub with_side1 : Building → Option Building → Option Sides
with_side1 b none = none
with_side1 b (some c) = some (record { side0 = b; side1 = c })

abbrev pub with_side0 : Building → Option Building → Option Sides
with_side0 b none = none
with_side0 b (some c) = some (record { side0 = c; side1 = b })

-- An entry whose key pointer is in memory.
unfoldable pub split_in_memory : ℕ → Source → Entry → Sides → Option Sides
unfolding trace_back zero_side
split_in_memory rounds g e b =
    let a = (address e).control in
    let prev = g.prev_address a in
    let added0 = add_hash_entry b.side0 e in
    let added1 = add_hash_entry b.side1 e in
    if zero_side g a
    then with_side1 added0 (add_other g e b.side1 (trace_back rounds g prev g.head_address 0))
    else with_side0 added1 (add_other g e b.side0 (trace_back rounds g prev g.head_address 1))

unfoldable pub split_entry : ℕ → Source → Entry → Sides → Option Sides
unfolding split_in_memory
split_entry rounds g e b =
    if unused e
    then some b
    else if ltb (address e).control g.head_address
    then some (record { side0 = add_hash_entry b.side0 e; side1 = add_hash_entry b.side1 e })
    else split_in_memory rounds g e b

-- The loops over the buckets of an old chain and their entries.
abbrev pub and_then : (Sides → Option Sides) → Option Sides → Option Sides
and_then f none = none
and_then f (some b) = f b

unfoldable pub split_entries : ℕ → Source → List Entry → Sides → Option Sides
unfolding split_entry
split_entries rounds g [] b = some b
split_entries rounds g (e ∷ es) b = and_then (split_entries rounds g es) (split_entry rounds g e b)

abbrev pub empty_sides : Sides
empty_sides = record { side0 = empty_chain; side1 = empty_chain }

unfoldable pub split_chain : ℕ → Source → List Entry → Option Sides
split_chain rounds g chain = split_entries rounds g chain empty_sides

-- `GrowState` and the tables: bucket numbers to chains.
pub record Growing : Type 0 where
  pub num_chunks : ℕ
  pub num_pending_chunks : ℕ
  pub next_chunk : ℕ
  pub old_table : ℕ → List Entry
  pub new_table : ℕ → List Entry
  pub old_freed : Bool

abbrev pub chunk_size : ℕ
chunk_size = 16384

-- `GrowIndex` and `GrowState::Initialize`: the chunks of the old table.
abbrev pub chunks_of : ℕ → ℕ
chunks_of size = if leb 1 (size / chunk_size) then size / chunk_size else 1

unfoldable pub initialize : ℕ → (ℕ → List Entry) → Growing
initialize old_size table = record {
  num_chunks = chunks_of old_size;
  num_pending_chunks = chunks_of old_size;
  next_chunk = 0;
  old_table = table;
  new_table = λ i. empty_bucket;
  old_freed = false;
}

unfoldable pub upper_bound : ℕ → ℕ → ℕ → ℕ
upper_bound num_chunks size chunk =
    if ltb (chunk + 1) num_chunks then chunk_size else (size + u64 - chunk * chunk_size) % u64

abbrev pub put : (ℕ → List Entry) → ℕ → List Entry → ℕ → List Entry
put table i c j = if j == i then c else table j

abbrev pub put_sides : Source → ℕ → (ℕ → List Entry) → Option Sides → Option (ℕ → List Entry)
put_sides g i table none = none
put_sides g i table (some b) =
    some (put (put table i (slots b.side0)) (g.old_size + i) (slots b.side1))

-- The loop over the first `n` buckets of a chunk that starts at bucket `first`.
abbrev pub and_put :
    ((ℕ → List Entry) → Option (ℕ → List Entry)) → Option (ℕ → List Entry) → Option (ℕ → List Entry)
and_put f none = none
and_put f (some table) = f table

unfoldable pub split_buckets :
    ℕ → Source → (ℕ → List Entry) → ℕ → ℕ → (ℕ → List Entry) → Option (ℕ → List Entry)
unfolding split_chain
split_buckets rounds g old_table first zero table = some table
split_buckets rounds g old_table first (suc n) table =
    and_put (λ t. put_sides g (first + n) t (split_chain rounds g (old_table (first + n))))
      (split_buckets rounds g old_table first n table)

-- One round of the loop of `SplitHashTableBuckets`, by any thread; `none` where a trace is not at its end.
abbrev pub chunk_done : Growing → Option (ℕ → List Entry) → Option Growing
chunk_done s none = none
chunk_done s (some table) = some (record s {
  new_table = table;
  num_pending_chunks = s.num_pending_chunks - 1;
  old_freed = if s.num_pending_chunks - 1 == 0 then true else s.old_freed;
})

unfoldable pub split_chunk : ℕ → Source → Growing → Option Growing
unfolding split_buckets upper_bound
split_chunk rounds g s =
    let chunk = s.next_chunk in
    let claimed = record s { next_chunk = chunk + 1 } in
    let work =
      split_buckets rounds g s.old_table (chunk * chunk_size)
        (upper_bound s.num_chunks g.old_size chunk) s.new_table in
    if ltb chunk s.num_chunks then chunk_done claimed work else some claimed
