-- ===== src/Pages/Disk.antt =====
-- core/malloc_fixed_page_size.h: Checkpoint, Recover and their completion, over an item of `item_size` bytes.
-- The answers of the disk are arguments, as in HashTable.
use fish_store.Base.{
  ℕ, zero, suc, ◌+◌, ◌*◌, ◌/◌, ◌%◌, Bool, if◌then◌else◌, Option, none, some, List, [], ◌∷◌,
}
use fish_store.Address.{u64}
use fish_store.Batch.{Status, is_ok, Batch, Answer, begin_batch, callback, complete}
use fish_store.Pages.{FixedPageAddress, Allocator, page_size, num_levels, recover}

-- One read or write of a whole page.
pub record PageRequest : Type 0 where
  pub page_index : ℕ
  pub file_offset : ℕ

unfoldable pub page_request : ℕ → ℕ → PageRequest
page_request item_size i = record {
  page_index = i;
  file_offset = i * (page_size * item_size) % u64;
}

-- The loops over the levels from `i` on.
unfoldable pub issue_pages : (ℕ → Status) → ℕ → ℕ → ℕ → Status × List PageRequest
issue_pages answer item_size zero i = (Status.ok, [])
issue_pages answer item_size (suc n) i =
    let (status, rest) = issue_pages answer item_size n (i + 1) in
    if is_ok (answer i)
    then (status, page_request item_size i ∷ rest)
    else (answer i, page_request item_size i ∷ [])

-- An allocator with the state of its checkpoint and its recovery.
pub record Stored : Type 0 where
  pub allocator : Allocator
  pub checkpoint : Batch
  pub recovery : Batch

-- `Checkpoint`: the status, the size, the writes and the state.
unfoldable pub start_checkpoint : (ℕ → Status) → ℕ → Stored → Status × ℕ × List PageRequest × Stored
start_checkpoint answer item_size s =
    let count = s.allocator.count in
    let (status, writes) = issue_pages answer item_size (num_levels count) 0 in
    (
      status,
      if is_ok status then count.control * item_size % u64 else 0,
      writes,
      record s { checkpoint = begin_batch (num_levels count) },
    )

unfoldable pub checkpoint_callback : Answer → Stored → Stored
checkpoint_callback a s = record s { checkpoint = callback a s.checkpoint }

abbrev pub put_checkpoint : Stored → Option (Status × Batch) → Option (Status × Stored)
put_checkpoint s none = none
put_checkpoint s (some (status, b)) = some (status, record s { checkpoint = b })

unfoldable pub checkpoint_complete :
    Bool → List Answer → List (List Answer) → Stored → Option (Status × Stored)
checkpoint_complete wait first polls s = put_checkpoint s (complete wait first polls s.checkpoint)

-- `Recover`; `none`: the growth of the array waits for a page.
unfoldable pub file_end : ℕ → ℕ → FixedPageAddress
file_end item_size file_size = record { control = file_size / item_size }

abbrev pub start_reads :
    (ℕ → Status) → ℕ → ℕ → Stored → Option Allocator → Option (Status × List PageRequest × Stored)
start_reads answer item_size levels s none = none
start_reads answer item_size levels s (some a) =
    let (status, reads) = issue_pages answer item_size levels 0 in
    some (status, reads, record s { allocator = a; recovery = begin_batch levels })

unfoldable pub start_recover :
    (ℕ → Status) → ℕ → ℕ → FixedPageAddress → Stored → Option (Status × List PageRequest × Stored)
start_recover answer item_size file_size count s =
    let last = file_end item_size file_size in
    start_reads answer item_size (num_levels last) s (recover last count s.allocator)

unfoldable pub recover_callback : Answer → Stored → Stored
recover_callback a s = record s { recovery = callback a s.recovery }

abbrev pub put_recovery : Stored → Option (Status × Batch) → Option (Status × Stored)
put_recovery s none = none
put_recovery s (some (status, b)) = some (status, record s { recovery = b })

unfoldable pub recover_complete :
    Bool → List Answer → List (List Answer) → Stored → Option (Status × Stored)
recover_complete wait first polls s = put_recovery s (complete wait first polls s.recovery)
