-- ===== src/Pages.antt =====
-- core/malloc_fixed_page_size.h: the allocator of overflow buckets, in pages of a fixed size, between
-- its Initialize and its Uninitialize; and core/auto_ptr.h: rounding up to a power of two.
-- A call runs on its own. `Thread::id()` and the epoch that is safe to reclaim are arguments. A page is
-- the number of the block of memory that it was allocated as.
pub mod Power
pub mod Array
pub mod Spec
pub mod Room
pub mod Refines
pub mod Places
pub mod Restart
pub mod Disk
pub mod Stored
use fish_store.Base.{
  ℕ, zero, suc, ◌+◌, ◌*◌, ◌-◌, ◌/◌, ◌%◌, ◌^◌, Bool, true, false, ◌&&◌, ltb, leb, ◌==◌,
  if◌then◌else◌, Option, none, some, List, [], ◌∷◌, ◌++◌,
}
use fish_store.Address.{u64}

-- `_BitScanReverse64`: whether a bit is set, and the index of the highest one; `rounds` of them are
-- looked at.
unfoldable pub highest_bit : ℕ → ℕ → ℕ
highest_bit zero mask = 0
highest_bit (suc rounds) mask =
    let above = highest_bit rounds (mask / 2) in if mask / 2 == 0 then 0 else suc above

unfoldable pub bit_scan_reverse : ℕ → Bool × ℕ
bit_scan_reverse mask = (ltb 0 mask, highest_bit 63 mask)

unfoldable pub next_power_of_two : ℕ → ℕ
next_power_of_two size =
    let (found, k) = bit_scan_reverse ((size + u64 - 1) % u64) in
    2 ^ (if found then k + 1 else 0) % u64

-- `FixedPageAddress`: 20 bits of offset, 28 bits of page.
pub record FixedPageAddress : Type 0 where
  pub control : ℕ

abbrev pub page_size : ℕ
page_size = 2 ^ 20

unfoldable pub offset : FixedPageAddress → ℕ
offset a = a.control % 2 ^ 20

unfoldable pub page : FixedPageAddress → ℕ
page a = a.control / 2 ^ 20 % 2 ^ 28

-- What `operator++` of the atomic address leaves there.
unfoldable pub increment : FixedPageAddress → FixedPageAddress
increment a = record { control = (a.control + 1) % u64 }

pub record FreeAddress : Type 0 where
  pub removed_addr : FixedPageAddress
  pub removal_epoch : ℕ

-- `FixedPageArray`; `none` stands for the null pointer.
pub record FixedPageArray : Type 0 where
  pub size : ℕ
  pub pages : ℕ → Option ℕ

abbrev pub is_some : Option ℕ → Bool
is_some none = false
is_some (some block) = true

-- Whether the first pages are all there.
unfoldable pub all_there : (ℕ → Option ℕ) → ℕ → Bool
all_there pages zero = true
all_there pages (suc n) = is_some (pages n) && all_there pages n

-- `Create(alignment, size, old_array)` and the constructor. `none`: it waits for another thread to add
-- a page of the old array.
unfoldable pub create : ℕ → Option FixedPageArray → Option FixedPageArray
unfolding all_there
create size none = some (record { size = size; pages = λ i. none })
create size (some old) =
    if all_there old.pages old.size
    then some (record { size = size; pages = λ i. if ltb i old.size then old.pages i else none })
    else none

-- `MallocFixedPageSize`: `blocks` numbers the pages that were allocated, `deleting` are the arrays that
-- were handed to the epoch framework for their deletion.
pub record Allocator : Type 0 where
  pub free_list : ℕ → List FreeAddress
  pub count : FixedPageAddress
  pub page_array : FixedPageArray
  pub blocks : ℕ
  pub deleting : List FixedPageArray

-- The array with page `i` set, if it was null.
abbrev pub install : FixedPageArray → ℕ → ℕ → Option ℕ → FixedPageArray
install array i block (some old) = array
install array i block none = record array {
  pages = λ j. if j == i then some block else array.pages j;
}

-- `AddPage(page_idx)` on the allocator's array.
unfoldable pub add_page : ℕ → Allocator → Allocator
add_page i s = record s {
  page_array = install s.page_array i s.blocks (s.page_array.pages i);
  blocks = s.blocks + 1;
}

-- `GetOrAdd(page_idx)` on the allocator's array.
unfoldable pub get_or_add : ℕ → Allocator → Allocator
unfolding add_page
get_or_add i s = if is_some (s.page_array.pages i) then s else add_page i s

-- `ExpandArray(expected, new_size)`, where the exchange wins, as no other thread writes the array.
abbrev pub replace_array : Allocator → Option FixedPageArray → Option Allocator
replace_array s none = none
replace_array s (some array) =
    some (record s { page_array = array; deleting = s.page_array ∷ s.deleting })

unfoldable pub expand_array : ℕ → Allocator → Option Allocator
unfolding create
expand_array new_size s = replace_array s (create new_size (some s.page_array))

-- `Allocate`, once the free list has nothing: first the array gets large enough for the address, then
-- the pages are added.
unfoldable pub make_room : FixedPageAddress → Allocator → Option Allocator
make_room addr s =
    if leb s.page_array.size (page addr)
    then expand_array (next_power_of_two (page addr + 1)) s
    else some s

unfoldable pub add_pages : FixedPageAddress → Allocator → Allocator
unfolding add_page get_or_add page offset
add_pages addr s =
    let early =
      if offset addr == 0 && ltb (page addr + 1) s.page_array.size
      then add_page (page addr + 1) s
      else s in
    get_or_add (page addr) early

abbrev pub finish_allocate :
    FixedPageAddress → Option Allocator → Option (FixedPageAddress × Allocator)
finish_allocate addr none = none
finish_allocate addr (some s) = some (addr, add_pages addr s)

unfoldable pub allocate_new : Allocator → Option (FixedPageAddress × Allocator)
unfolding make_room increment
allocate_new s =
    finish_allocate s.count (make_room s.count (record s { count = increment s.count }))

abbrev pub put_list : (ℕ → List FreeAddress) → ℕ → List FreeAddress → ℕ → List FreeAddress
put_list lists t l u = if u == t then l else lists u

-- `Allocate`, by the thread `t`, whose free list is given.
unfoldable pub allocate_from :
    List FreeAddress → ℕ → ℕ → Allocator → Option (FixedPageAddress × Allocator)
unfolding allocate_new
allocate_from [] safe t s = allocate_new s
allocate_from (f ∷ fs) safe t s =
    if leb f.removal_epoch safe
    then some (f.removed_addr, record s { free_list = put_list s.free_list t fs })
    else allocate_new s

unfoldable pub allocate : ℕ → ℕ → Allocator → Option (FixedPageAddress × Allocator)
unfolding allocate_from
allocate safe t s = allocate_from (s.free_list t) safe t s

unfoldable pub free_at_epoch : FixedPageAddress → ℕ → ℕ → Allocator → Allocator
free_at_epoch addr removed_epoch t s = record s {
  free_list =
      put_list s.free_list t
        (s.free_list t ++ (record { removed_addr = addr; removal_epoch = removed_epoch } ∷ []));
}

-- `Initialize`: two page slots, the first page, and the null address. The free lists are left as they
-- are: empty, after construction.
unfoldable pub initialize : ℕ → ℕ → (ℕ → List FreeAddress) → Option Allocator
unfolding create add_page allocate
initialize safe t lists =
    let empty : FixedPageArray → Allocator = λ array. record {
      free_list = lists;
      count = record { control = 0 };
      page_array = array;
      blocks = 0;
      deleting = [];
    } in
    elim (create 2 none) [
      | none ↦ none
      | some array ↦ elim (allocate safe t (add_page 0 (empty array))) [
        | none ↦ none
        | some (addr, s) ↦ some s
      ]
    ]

-- `Get(address)`: the block and the offset in it at which the item is.
unfoldable pub get : Allocator → FixedPageAddress → Option (ℕ × ℕ)
unfolding page offset
get s addr = elim (s.page_array.pages (page addr)) [
  | none ↦ none
  | some block ↦ some (block, offset addr)
]

-- `Recover`: the levels of the file and of the count, the room for them, and the pages read into.
unfoldable pub num_levels : FixedPageAddress → ℕ
unfolding page offset
num_levels a = page a + (if ltb 0 (offset a) then 1 else 0)

unfoldable pub add_levels : ℕ → Allocator → Allocator
unfolding get_or_add
add_levels zero s = s
add_levels (suc n) s = get_or_add n (add_levels n s)

abbrev pub finish_recover : FixedPageAddress → ℕ → Option Allocator → Option Allocator
finish_recover count levels none = none
finish_recover count levels (some s) = some (add_levels levels (record s { count = count }))

unfoldable pub recover : FixedPageAddress → FixedPageAddress → Allocator → Option Allocator
recover file_end_addr count s = finish_recover count (num_levels file_end_addr) (
    if ltb s.page_array.size (num_levels count)
    then expand_array (next_power_of_two (num_levels count)) s
    else some s)
