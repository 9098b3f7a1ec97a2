-- ===== src/Log.antt =====
-- core/persistent_memory_malloc.h: the log allocator, its tail, its pages and its addresses. What an
-- epoch action does later is `Scheduled` here; the disk is not modelled.
pub mod Tail
pub mod Page
pub mod Shift
pub mod Reads
pub mod Flush
pub mod Issued
pub mod Rounds
pub mod Flushing
pub mod Window
pub mod Marked
pub mod Ended
pub mod Flushed
pub mod Early
use Prim.Native.Nat.{bit_and}
use fish_store.Base.{
  ℕ, zero, suc, ◌+◌, ◌*◌, ◌-◌, ◌/◌, ◌%◌, ◌^◌, min, Bool, true, false, not, ltb, leb, ◌==◌, ◌&&◌,
  if◌then◌else◌, Option, none, some, List, [], ◌∷◌, ◌++◌,
}
use fish_store.Address.{
  Address, u32, u64, max_offset, invalid_address, page, offset, make, lt, ge, min_address,
}
use fish_store.Bucket.{compare_exchange}

abbrev pub page_size : ℕ
page_size = max_offset + 1

abbrev pub num_head_pages : ℕ
num_head_pages = 4

abbrev pub num_mutable_pages : ℕ
num_mutable_pages = 2

-- `PageOffset`: 41 bits of offset below 23 bits of page.
unfoldable pub make_page_offset : ℕ → ℕ → ℕ
make_page_offset p o = o % 2 ^ 41 + p % 2 ^ 23 * 2 ^ 41

unfoldable pub tail_offset : ℕ → ℕ
tail_offset word = word % 2 ^ 41

unfoldable pub tail_page : ℕ → ℕ
tail_page word = word / 2 ^ 41 % 2 ^ 23

-- The conversion to an address.
unfoldable pub to_address : ℕ → Address
unfolding make tail_page tail_offset
to_address word = make (tail_page word) (tail_offset word)

-- `AtomicPageOffset::Reserve`: the word before, and the word afterwards.
unfoldable pub reserve : ℕ → ℕ → ℕ × ℕ
unfolding make_page_offset
reserve word num_slots = (word, (word + make_page_offset 0 num_slots) % u64)

-- `AtomicPageOffset::NewPage`: `seen` is the word at the load, `word` at the compare-exchange. The
-- answer, whether this thread won, and the word afterwards.
unfoldable pub tail_new_page : ℕ → ℕ → ℕ → Bool × Bool × ℕ
unfolding make_page_offset tail_page compare_exchange
tail_new_page seen word old_page =
    if not (old_page == tail_page seen)
    then (true, false, word)
    else (let (won, expected, word') =
          compare_exchange word seen (make_page_offset ((old_page + 1) % u32) 0) in
        (ltb old_page (tail_page expected), won, word'))

-- `Allocate`: the address, the closed page or the largest 32-bit number, and the tail afterwards.
unfoldable pub allocate : ℕ → ℕ → Address × ℕ × ℕ
unfolding reserve to_address
allocate word num_slots =
    let (before, after) = reserve word num_slots in
    if ltb page_size (tail_offset before + num_slots)
    then (record { control = invalid_address }, tail_page before, after)
    else (to_address before, u32 - 1, after)

-- `GetTailAddress`: the offset is cut to 32 bits before it is compared.
unfoldable pub get_tail_address : ℕ → Address
unfolding make tail_page tail_offset
get_tail_address word = make (tail_page word) (min max_offset (tail_offset word % u32))

pub data FlushStatus : Type 0 where
  flushed in_progress : FlushStatus

pub data CloseStatus : Type 0 where
  closed is_open : CloseStatus

-- `FlushCloseStatus`, and `FullPageStatus`
pub record Status : Type 0 where
  pub flush : FlushStatus
  pub close : CloseStatus

unfoldable pub ready : Status → Bool
ready s = ready_of s.flush s.close
  where
    ready_of : FlushStatus → CloseStatus → Bool
    ready_of FlushStatus.flushed CloseStatus.is_open = true
    ready_of FlushStatus.flushed CloseStatus.closed = false
    ready_of FlushStatus.in_progress c = false

pub record PageStatus : Type 0 where
  pub last_flushed_until : Address
  pub status : Status

pub data Scheduled : Type 0 where
  pages_closed : (new_safe_head_address : Address) → Scheduled
  pages_marked_read_only : (new_safe_read_only_address : Address) → Scheduled

pub record Log : Type 0 where
  pub buffer_size : ℕ
  pub tail : ℕ
  pub read_only_address : Address
  pub safe_read_only_address : Address
  pub head_address : Address
  pub safe_head_address : Address
  pub flushed_until_address : Address
  pub begin_address : Address
  pub page_status : ℕ → PageStatus

-- `PageStatus(page)`: the buffer is circular.
unfoldable pub status_at : Log → ℕ → PageStatus
status_at l p = l.page_status (p % l.buffer_size)

-- The loop of `MonotonicUpdate`. The list holds what the variable is at each compare-exchange. A
-- result is the answer and the variable afterwards; `none`: the list ends first.
unfoldable pub monotonic_update_loop : Address → Address → List Address → Option (Bool × Address)
unfolding lt
monotonic_update_loop old new [] = if lt old new then none else some (false, old)
monotonic_update_loop old new (now ∷ later) =
    let again = monotonic_update_loop now new later in
    if lt old new
    then (if now.control == old.control then some (true, new) else again)
    else some (false, old)

-- `MonotonicUpdate` with no other thread in between.
unfoldable pub monotonic_update : Address → Address → Bool × Address
unfolding lt
monotonic_update variable new = if lt variable new then (true, new) else (false, variable)

unfoldable pub page_aligned_shift_head_address : Log → ℕ → Log × List Scheduled
unfolding monotonic_update make page
page_aligned_shift_head_address l p =
    if leb p (l.buffer_size - num_head_pages)
    then (l, [])
    else (let wished = make (p - (l.buffer_size - num_head_pages)) 0 in
        let desired =
          if lt l.flushed_until_address wished
          then make (page l.flushed_until_address) 0
          else wished in
        let (moved, head) = monotonic_update l.head_address desired in
        (
          record l { head_address = head },
          if moved then Scheduled.pages_closed desired ∷ [] else [],
        ))

unfoldable pub page_aligned_shift_read_only_address : Log → ℕ → Log × List Scheduled
unfolding monotonic_update make
page_aligned_shift_read_only_address l p =
    if leb p num_mutable_pages
    then (l, [])
    else (let desired = make (p - num_mutable_pages) 0 in
        let (moved, address) = monotonic_update l.read_only_address desired in
        (
          record l { read_only_address = address },
          if moved then Scheduled.pages_marked_read_only desired ∷ [] else [],
        ))

-- Both shifts, as `NewPage` makes them, one after the other.
unfoldable pub shift_both : Log → ℕ → Log × List Scheduled
unfolding page_aligned_shift_head_address page_aligned_shift_read_only_address
shift_both l p =
    let (l₁, s₁) = page_aligned_shift_read_only_address l p in
    let (l₂, s₂) = page_aligned_shift_head_address l₁ p in (l₂, s₁ ++ s₂)

-- `NewPage`, where `seen` is the tail at the load of the inner `NewPage`. Every page of the buffer
-- is allocated from the start.
unfoldable pub new_page : Log → ℕ → ℕ → Bool × Log × List Scheduled
new_page l seen old_page =
    let (l₁, s₁) = shift_both l (old_page + 1) in
    let (moved, won, tail) = tail_new_page seen l.tail old_page in
    let (l₂, s₂) = shift_both (record l { tail = tail }) (old_page + 1) in
    if leb (page l.safe_head_address + l.buffer_size) (old_page + 2)
    then (false, l₁, s₁)
    else if not (ready (status_at l (old_page + 1)).status)
    then (false, l₁, s₁)
    else if won
    then (moved, l₂, s₂)
    else (moved, record l { tail = tail }, [])

unfoldable pub shift_read_only_to_tail : Log → Address × Log × List Scheduled
unfolding get_tail_address monotonic_update
shift_read_only_to_tail l =
    let tail = get_tail_address l.tail in
    let (moved, address) = monotonic_update l.read_only_address tail in
    (
      tail,
      record l { read_only_address = address },
      if moved then Scheduled.pages_marked_read_only tail ∷ [] else [],
    )

-- `Truncate`: the offset at which the file is cut.
unfoldable pub truncate_offset : Address → ℕ → ℕ
truncate_offset begin sector_size = bit_and begin.control (u64 - 1 - (sector_size - 1))

pub record Boundaries : Type 0 where
  pub begin_read : ℕ
  pub end_read : ℕ
  pub from : ℕ
  pub size : ℕ

unfoldable pub get_file_read_boundaries : Address → ℕ → ℕ → Boundaries
get_file_read_boundaries read_offset read_length sector_size =
    let mask = sector_size - 1 in
    let begin_read = bit_and read_offset.control (u64 - 1 - mask) in
    let end_read = bit_and ((read_offset.control + read_length + mask) % u64) (u64 - 1 - mask) in
    record {
      begin_read = begin_read;
      end_read = end_read;
      from = bit_and read_offset.control mask % u32;
      size = (end_read + u64 - begin_read) % u64 % u32;
    }
