-- ===== src/Log/Flush.antt =====
-- core/persistent_memory_malloc.h: the construction of the log, the flush of its pages and its recovery. The
-- disk answers each request when it is issued, which is an argument, and later runs its callback. A callback
-- and an epoch action run on their own here; Log.Page has their interleavings on one page. A page that is
-- cleared with zeros is listed in the result.
use fish_store.Base.{
  ℕ, zero, suc, ◌+◌, ◌*◌, ◌-◌, ◌/◌, ◌%◌, Bool, true, false, ltb, leb, ◌==◌, if◌then◌else◌, Option,
  none, some, List, [], ◌∷◌, ◌++◌,
}
use fish_store.Address.{Address, u32, u64, page, offset, make, ge, min_address}
use fish_store.Batch.{is_ok}
use fish_store.Batch
use fish_store.Log.{
  Log, FlushStatus, CloseStatus, PageStatus, page_size, num_head_pages, make_page_offset,
  to_address, allocate, status_at, monotonic_update,
}

-- Why the constructor throws.
pub data Refused : Type 0 where
  not_multiple too_few_pages : Refused

pub data Made : Type 0 where
  made : Log → Made
  refused : Refused → Made

-- `FullPageStatus()`, then `AllocatePage`.
abbrev pub allocated : PageStatus
allocated = record {
  last_flushed_until = record { control = 0 };
  status = record { flush = FlushStatus.flushed; close = CloseStatus.is_open };
}

-- A word of the tail that stands for an address.
unfoldable pub store_tail : Address → ℕ
unfolding make_page_offset
store_tail a = make_page_offset (page a) (offset a)

abbrev pub log_from : ℕ → Address → Log
log_from buffer_size start = record {
  buffer_size = buffer_size;
  tail = store_tail start;
  read_only_address = start;
  safe_read_only_address = start;
  head_address = start;
  safe_head_address = start;
  flushed_until_address = start;
  begin_address = start;
  page_status = λ i. allocated;
}

-- The constructor with a start address. Its second test compares `log_size % kPageSize`, which is 0 there.
unfoldable pub make_log : ℕ → Address → Made
make_log log_size start =
    let buffer_size = log_size / page_size % u32 in
    if log_size % page_size == 0
    then (if leb buffer_size (num_head_pages + 1)
        then Made.refused Refused.too_few_pages
        else Made.made (log_from buffer_size start))
    else Made.refused Refused.not_multiple

abbrev pub cache_line_bytes : ℕ
cache_line_bytes = 64

-- The rest of the constructor of a new log, which moves the addresses past the invalid page.
abbrev pub skip_invalid : ℕ → Made → Made
skip_invalid tail (Made.refused r) = Made.refused r
skip_invalid tail (Made.made l) = Made.made (record l {
  tail = tail;
  begin_address = to_address tail;
  read_only_address = to_address tail;
  safe_read_only_address = to_address tail;
  head_address = to_address tail;
  safe_head_address = to_address tail;
})

unfoldable pub new_log : ℕ → Made
unfolding store_tail allocate
new_log log_size =
    let start : Address = record { control = 0 } in
    let (address, closed_page, tail) = allocate (store_tail start) cache_line_bytes in
    skip_invalid tail (make_log log_size start)

unfoldable pub put_status : ℕ → PageStatus → Log → Log
put_status p s l = record l {
  page_status = λ i. if i == p % l.buffer_size then s else l.page_status i;
}

-- A write of a page to the log's file, with the context of its callback.
pub record Write : Type 0 where
  pub page : ℕ
  pub until_address : Address
  pub file_offset : ℕ

-- `until_address.page() - start_page`, and one more for a part of a page.
unfoldable pub num_pages : ℕ → Address → ℕ
num_pages start until =
    let whole = (page until + u32 - start) % u32 in
    if ltb 0 (offset until) then (whole + 1) % u32 else whole

unfoldable pub begin_page_flush : ℕ → Log → Log
begin_page_flush p l =
    let before = status_at l p in
    put_status p
      (record before {
        last_flushed_until = record { control = 0 };
        status = record before.status { flush = FlushStatus.in_progress };
      })
      l

unfoldable pub page_write : ℕ → Address → Write
page_write p until = record {
  page = p;
  until_address = min_address (make (p + 1) 0) until;
  file_offset = page_size * p % u64;
}

-- The loop of `AsyncFlushPages`, for some pages from `p` on; it ends at a write that is not taken.
unfoldable pub flush_pages :
    (ℕ → Batch.Status) → ℕ → ℕ → Address → Log → Batch.Status × List Write × Log
flush_pages answer zero p until l = (Batch.Status.ok, [], l)
flush_pages answer (suc n) p until l =
    let (status, writes, l') = flush_pages answer n (p + 1) until (begin_page_flush p l) in
    if is_ok (answer p)
    then (status, page_write p until ∷ writes, l')
    else (answer p, [], begin_page_flush p l)

unfoldable pub async_flush_pages :
    (ℕ → Batch.Status) → ℕ → Address → Log → Batch.Status × List Write × Log
async_flush_pages answer start until l = flush_pages answer (num_pages start until) start until l

-- `OnPagesMarkedReadOnly`; the status of the flush is dropped.
unfoldable pub on_pages_marked_read_only : (ℕ → Batch.Status) → Address → Log → List Write × Log
on_pages_marked_read_only answer new_safe_read_only_address l =
    let (moved, address) = monotonic_update l.safe_read_only_address new_safe_read_only_address in
    let (status, writes, l') =
      async_flush_pages answer (page l.safe_read_only_address) new_safe_read_only_address
        (record l { safe_read_only_address = address }) in
    if moved then (writes, l') else ([], l)

-- The loop of `ShiftFlushedUntilAddress` from a page on; `none`: the rounds ran out.
unfoldable pub flushed_pages : ℕ → Log → ℕ → Bool → Address → Option (Bool × Address)
flushed_pages zero l p update current = none
flushed_pages (suc rounds) l p update current =
    let last = (status_at l p).last_flushed_until in
    let again = flushed_pages rounds l ((p + 1) % u32) true last in
    if ge last current then again else some (update, current)

abbrev pub put_flushed_until : Log → Option (Bool × Address) → Option Log
put_flushed_until l none = none
put_flushed_until l (some (false, address)) = some l
put_flushed_until l (some (true, address)) =
    some (record l { flushed_until_address = (monotonic_update l.flushed_until_address address).1 })

unfoldable pub shift_flushed_until_address : ℕ → Log → Option Log
shift_flushed_until_address rounds l =
    put_flushed_until l
      (flushed_pages rounds l (page l.flushed_until_address) false l.flushed_until_address)

-- The page, cleared and opened again where `ready` says so.
unfoldable pub reopen : Bool → ℕ → Log → List ℕ × Log
reopen false p l = ([], l)
reopen true p l = (
  p ∷ [],
  put_status p
      (record (status_at l p) {
        status = record { flush = FlushStatus.flushed; close = CloseStatus.is_open };
      })
      l,
)

abbrev pub is_closed : CloseStatus → Bool
is_closed CloseStatus.closed = true
is_closed CloseStatus.is_open = false

abbrev pub is_flushed : FlushStatus → Bool
is_flushed FlushStatus.flushed = true
is_flushed FlushStatus.in_progress = false

unfoldable pub end_page_flush : Write → Log → Log
end_page_flush w l =
    put_status w.page
      (record (status_at l w.page) {
        last_flushed_until = w.until_address;
        status = record (status_at l w.page).status { flush = FlushStatus.flushed };
      })
      l

abbrev pub with_cleared : List ℕ → Option Log → Option (List ℕ × Log)
with_cleared cleared none = none
with_cleared cleared (some l) = some (cleared, l)

-- The callback of `AsyncFlushPages`; a result that is an error is only printed.
unfoldable pub flush_callback : ℕ → Write → Log → Option (List ℕ × Log)
flush_callback rounds w l =
    let (cleared, l') =
      reopen (is_closed (status_at l w.page).status.close) w.page (end_page_flush w l) in
    with_cleared cleared (shift_flushed_until_address rounds l')

-- The loop of `OnPagesClosed`, over some pages from `p` on.
unfoldable pub close_pages : ℕ → ℕ → Log → List ℕ × Log
close_pages zero p l = ([], l)
close_pages (suc n) p l =
    let before = status_at l p in
    let closed =
      put_status p (record before { status = record before.status { close = CloseStatus.closed } })
        l in
    let (cleared, l') = reopen (is_flushed before.status.flush) p closed in
    let (later, l'') = close_pages n (p + 1) l' in (cleared ++ later, l'')

unfoldable pub on_pages_closed : Address → Log → List ℕ × Log
on_pages_closed new_safe_head_address l =
    let (moved, address) = monotonic_update l.safe_head_address new_safe_head_address in
    if moved
    then close_pages (page new_safe_head_address - page l.safe_head_address)
        (page l.safe_head_address) (record l { safe_head_address = address })
    else ([], l)

-- `RecoveryReset`: every page is there, so none is allocated.
unfoldable pub recovery_reset : Address → Address → Address → Log → Log
recovery_reset begin_address head_address tail_address l = record l {
  begin_address = begin_address;
  tail = store_tail tail_address;
  head_address = head_address;
  safe_head_address = head_address;
  flushed_until_address = make (page tail_address) 0;
  read_only_address = tail_address;
  safe_read_only_address = tail_address;
  page_status = λ i. record (l.page_status i) {
    status = record { flush = FlushStatus.flushed; close = CloseStatus.is_open };
  };
}
