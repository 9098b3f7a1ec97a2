-- ===== src/Query/Full.antt =====
-- core/fishstore.h: InternalFullScan, the scan of the whole log, AsyncFullScanFromDiskCallback, which goes on with the
-- pages on disk, and InternalContinuePendingScan. The answer of the context's `check` is asked for a record here, by its
-- address.
use mathlib.Core.List.{◌++◌}
use fish_store.Base.{
  ℕ, zero, suc, ◌+◌, ◌-◌, ◌%◌, Bool, true, false, not, ◌&&◌, ◌||◌, ltb, leb, ◌==◌, if◌then◌else◌,
  Option, none, some, List, [], ◌∷◌,
}
use fish_store.Address.{u32, max_offset, make, page, offset}
use fish_store.Batch.{is_ok}
use fish_store.Batch
use fish_store.Record.{info_size, invalid, is_null}
use fish_store.Query.{Memory, OperationStatus, Outcome, and_then}
use fish_store.Query.Disk.{size_at}

unfoldable pub hits : Memory → ℕ → Bool
hits m a = not (invalid (m.header a)) && m.check a

abbrev pub keep : ℕ → Option (List ℕ) → Option (List ℕ)
keep a none = none
keep a (some records) = some (a ∷ records)

-- The loop over the records of a page, up to an address; a null word is no record.
unfoldable pub scan_records : ℕ → Memory → ℕ → ℕ → ℕ → Option (List ℕ)
scan_records zero m start to a = none
scan_records (suc rounds) m start to a =
    let later =
      scan_records rounds m start to
        (a + (if is_null (m.header a) then info_size else size_at m a)) in
    if leb a to
    then (if is_null (m.header a) || ltb a start
        then later
        else if hits m a
        then keep a later
        else later)
    else some []

unfoldable pub is_last_page : Memory → ℕ → ℕ → Bool
is_last_page m start p =
    p == page (record { control = start }) || p == page (record { control = m.begin_address })

-- `--current_page`
unfoldable pub page_below : ℕ → ℕ
page_below p = (p + u32 - 1) % u32

abbrev pub before : List ℕ → Option (List ℕ × Option ℕ) → Option (List ℕ × Option ℕ)
before records none = none
before records (some (later, next)) = some (records ++ later, next)

-- The loop over the pages: the records that it touches, and the page where it stops because that is on disk. `heads` gives the
-- page of the head address when the loop comes to a page; a refresh may move it.
unfoldable pub scan_pages : ℕ → ℕ → Memory → (ℕ → ℕ) → ℕ → ℕ → ℕ → Option (List ℕ × Option ℕ)
scan_pages words zero m heads start p to = none
scan_pages words (suc rounds) m heads start p to =
    let later =
      scan_pages words rounds m heads start (page_below p)
        (make (page_below p) max_offset).control in
    if ltb p (heads p)
    then some ([], some p)
    else and_then (scan_records words m start to (make p 0).control)
        (λ records. if is_last_page m start p then some (records, none) else before records later)

abbrev pub full_outcome : Option (List ℕ × Option ℕ) → Option Outcome
full_outcome none = none
full_outcome (some (records, none)) =
    some (record {
      status = OperationStatus.success;
      touched = records;
      finalized = true;
      async = none;
    })
full_outcome (some (records, some p)) = some (record {
  status = OperationStatus.scan_in_progress;
  touched = records;
  finalized = false;
  async = some (make p 0).control;
})

abbrev pub scan_to : ℕ → ℕ → ℕ
scan_to tail end_addr = if ltb end_addr tail then end_addr else tail

unfoldable pub internal_full_scan : ℕ → ℕ → Memory → (ℕ → ℕ) → ℕ → ℕ → ℕ → Option Outcome
internal_full_scan words rounds m heads tail begin_addr end_addr = full_outcome (
    scan_pages words rounds m heads begin_addr (page (record { control = scan_to tail end_addr }))
      (scan_to tail end_addr))

-- Where the records begin and end in a page that was read.
unfoldable pub from_address : ℕ → ℕ → ℕ
from_address start p =
    if p == page (record { control = start })
    then (make p 0).control + offset (record { control = start })
    else (make p 0).control

unfoldable pub to_address : ℕ → ℕ → ℕ
to_address end_addr p =
    if p == page (record { control = end_addr })
    then (make p 0).control + offset (record { control = end_addr })
    else (make p 0).control + max_offset

-- What the callback of a page does, with the records that it touched: it reads the page below, pushes the context, or
-- does nothing more.
pub data PageNext : Type 0 where
  reads : List ℕ → (p : ℕ) → PageNext
  pushes : List ℕ → PageNext
  drops : PageNext

-- `AsyncFullScanFromDiskCallback` for a page and the result of its read. The loop has no test for the start.
unfoldable pub full_scan_callback : ℕ → Memory → Batch.Status → ℕ → ℕ → ℕ → Option PageNext
full_scan_callback words m result start end_addr p =
    let scanned =
      and_then (scan_records words m 0 (to_address end_addr p) (from_address start p)) (λ records.
        some (
          if is_last_page m start p
          then PageNext.pushes records
          else PageNext.reads records (page_below p))) in
    if is_ok result then scanned else some PageNext.drops

abbrev pub with_records : List ℕ → Option (List ℕ × Bool) → Option (List ℕ × Bool)
with_records records none = none
with_records records (some (later, pushed)) = some (records ++ later, pushed)

abbrev pub next_page : (ℕ → Option (List ℕ × Bool)) → Option PageNext → Option (List ℕ × Bool)
next_page again none = none
next_page again (some (PageNext.reads records p)) = with_records records (again p)
next_page again (some (PageNext.pushes records)) = some (records, true)
next_page again (some PageNext.drops) = some ([], false)

-- The callbacks of the pages, one after another, from one page on, whose read is the `i`th: the records that they touch, and
-- whether the context is pushed in the end. `answer` gives the result of each read.
unfoldable pub follow_pages :
    ℕ → (ℕ → Batch.Status) → ℕ → ℕ → Memory → ℕ → ℕ → ℕ → Option (List ℕ × Bool)
follow_pages words answer i zero m start end_addr p = none
follow_pages words answer i (suc rounds) m start end_addr p =
    next_page (follow_pages words answer (i + 1) rounds m start end_addr)
      (full_scan_callback words m (answer i) start end_addr p)

-- `InternalContinuePendingScan`: the status, after `Finalize`. `moved` says whether the thread's version is above the
-- context's, `full` whether it is a full scan.
unfoldable pub continue_pending_scan : Bool → Bool → OperationStatus × Bool
continue_pending_scan full moved =
    if not full && moved
    then (OperationStatus.success_unmark, true)
    else (OperationStatus.success, true)
