-- ===== src/Query/Disk.antt =====
-- core/fishstore.h: AsyncGetFromDiskCallback, which follows a hash chain on disk, and InternalContinuePendingRead; and
-- AsyncGetFromDisk of core/persistent_memory_malloc.h, whose buffer is given by the address that was asked for. What
-- is on disk is read as what is in memory. The count of pending IOs and the result that is kept are left out.
use fish_store.Base.{
  ℕ, zero, suc, ◌+◌, ◌-◌, ◌%◌, Bool, not, ◌&&◌, ltb, leb, ◌==◌, if◌then◌else◌, Option, none, some,
}
use fish_store.Address.{u32, u64}
use fish_store.Batch.{is_ok}
use fish_store.Batch
use fish_store.Log.{get_file_read_boundaries}
use fish_store.Record.{
  ptr_cnt, payload_size, optional_size, kpt_size, kpt_ptr_offset, ptr_offset, get_record, invalid,
}
use fish_store.Record
use fish_store.Query.{Memory, OperationStatus, prev_address}

-- `AsyncIOContext`, with the address at which the valid part of its buffer begins.
pub record IoContext : Type 0 where
  pub address : ℕ
  pub kpt_offset : ℕ
  pub valid : ℕ
  pub valid_offset : ℕ
  pub available_bytes : ℕ

-- `AsyncGetFromDisk(address, num_records, …)`, when the read is done.
unfoldable pub fetch : ℕ → ℕ → ℕ → IoContext → IoContext
fetch sector address num_records c =
    let b = get_file_read_boundaries (record { control = address }) num_records sector in
    record c {
      valid = address;
      valid_offset = b.from;
      available_bytes = (b.size + u32 - b.from) % u32;
    }

abbrev pub min_io_request_size : ℕ
min_io_request_size = kpt_size

-- `record->size()` at the address of a header.
unfoldable pub size_at : Memory → ℕ → ℕ
size_at m here = let h = m.header here in Record.size (ptr_cnt h) (payload_size h) (optional_size h)

-- `record_t::ptr_offset(kpt->ptr_offset)`
unfoldable pub offset_at : Memory → ℕ → ℕ
offset_at m kpt = ptr_offset (kpt_ptr_offset (m.word kpt))

-- What the callback does: it issues a read, pushes the context to the thread's responses, or does nothing more.
pub data Next : Type 0 where
  reads : (address num_records : ℕ) → IoContext → Next
  responds : IoContext → Next
  drops : Next

-- Past a key pointer that does not match.
unfoldable pub go_back : Memory → ℕ → IoContext → Next
go_back m kpt c =
    let d = record c { address = prev_address m kpt; kpt_offset = 0 } in
    if leb m.begin_address (prev_address m kpt)
    then Next.reads (prev_address m kpt) min_io_request_size d
    else Next.responds (record c { address = prev_address m kpt })

-- The buffer begins at a key pointer.
unfoldable pub at_key_pointer : Memory → IoContext → Next
at_key_pointer m c =
    let offset = offset_at m c.valid in
    let head = (c.address + u64 - offset) % u64 in
    let here = get_record c.valid (m.word c.valid) in
    let moved = record c { address = head } in
    if ltb c.valid_offset offset
    then Next.reads head ((min_io_request_size + offset) % u32)
        (record moved { kpt_offset = offset })
    else if ltb ((offset + c.available_bytes) % u32) (size_at m here)
    then Next.reads head (size_at m here) (record moved { kpt_offset = offset })
    else if not (invalid (m.header here)) && m.check c.valid
    then Next.responds moved
    else go_back m c.valid moved

-- The buffer begins at the header of a record.
unfoldable pub at_header : Memory → IoContext → Next
at_header m c =
    let kpt = c.valid + c.kpt_offset in
    if ltb c.available_bytes (size_at m c.valid)
    then Next.reads c.address (size_at m c.valid) c
    else if not (invalid (m.header c.valid)) && m.check kpt
    then Next.responds c
    else go_back m kpt c

unfoldable pub get_from_disk_callback : Memory → Batch.Status → IoContext → Next
get_from_disk_callback m result c =
    if is_ok result
    then (if c.kpt_offset == 0 then at_key_pointer m c else at_header m c)
    else Next.drops

-- `InternalContinuePendingRead`: the status, and the address of the record that is passed to `Get`. `moved` says
-- whether the thread's version is above the context's.
unfoldable pub continue_pending_read : Memory → Bool → IoContext → OperationStatus × Option ℕ
continue_pending_read m moved c =
    if leb m.begin_address c.address
    then (if moved then OperationStatus.success_unmark else OperationStatus.success, some c.valid)
    else (if moved then OperationStatus.not_found_unmark else OperationStatus.not_found, none)

-- How the reads of a request end: the context is pushed, or it is dropped, which nothing answers.
pub data Ending : Type 0 where
  pushed : IoContext → Ending
  dropped : Ending

-- The reads of a request one after another, from the one that was just issued, the `i`th, on; `answer` gives the result of each
-- read.
abbrev pub follow_next : ℕ → (IoContext → Option Ending) → Next → Option Ending
follow_next sector again (Next.reads address num_records c) =
    again (fetch sector address num_records c)
follow_next sector again (Next.responds c) = some (Ending.pushed c)
follow_next sector again Next.drops = some Ending.dropped

unfoldable pub follow : ℕ → (ℕ → Batch.Status) → ℕ → ℕ → Memory → IoContext → Option Ending
follow sector answer i zero m c = none
follow sector answer i (suc rounds) m c =
    follow_next sector (follow sector answer (i + 1) rounds m)
      (get_from_disk_callback m (answer i) c)
