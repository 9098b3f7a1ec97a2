-- ===== src/Tests/Pages.antt =====
-- core/malloc_fixed_page_size.h: the fixed-page allocator at concrete values.
use fish_store.Base.{◌≡◌, ◌≢◌, refl, none, some, arith}
use fish_store.Pages.{
  FixedPageAddress, FreeAddress, Allocator, allocate, free_at_epoch, next_power_of_two, get,
  initialize, recover,
}
use fish_store.Pages.Spec.{Use, put_use}
use fish_store.Pages.Refines.{Allocates, allocate-Refines}
use fish_store.Pages.Places.{
  Run, first, initialize-first, Run-Represents, places-Distinct, only_null,
}

-- The first address is given out and freed again by thread 3 at epoch 7.
abbrev one : FixedPageAddress
one = record { control = 1 }

first-Run : Run first only_null
first-Run = Run.starts 0 1 (initialize-first 0 1)

abbrev null : FixedPageAddress
null = record { control = 0 }

abbrev second : Allocator
second = record first { count = record { control = 2 } }

allocate-second : allocate 0 3 first ≡ some (one, second)
unfolding allocate fish_store.Pages.allocate_from fish_store.Pages.allocate_new
    fish_store.Pages.add_pages fish_store.Pages.page
allocate-second = refl

second-Run : Run second (put_use only_null 1 Use.live)
second-Run = Run.allocates 0 3 first-Run (omega arith) allocate-second

freed-Run :
    Run (free_at_epoch one 7 3 second) (put_use (put_use only_null 1 Use.live) 1 (Use.retired 3 7))
freed-Run = Run.frees one 7 3 second-Run refl (λ e. omega (arith, e))

allocate-Refines_example :
    Allocates 7
      (put_use (put_use only_null 1 Use.live) 1 (Use.retired 3 7))
      (allocate 7 3 (free_at_epoch one 7 3 second))
unfolding free_at_epoch
allocate-Refines_example =
    allocate-Refines 7 3 (free_at_epoch one 7 3 second)
      (put_use (put_use only_null 1 Use.live) 1 (Use.retired 3 7)) (Run-Represents freed-Run)
      (omega arith)

places-Distinct_example :
    (get second one ≢ none) × (get second one ≡ get second null → one.control ≡ null.control)
places-Distinct_example = places-Distinct one null second-Run refl refl

abbrev stale : FreeAddress
stale = record { removed_addr = record { control = 9 }; removal_epoch = 0 }
