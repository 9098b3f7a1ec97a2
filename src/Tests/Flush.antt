-- ===== src/Tests/Flush.antt =====
-- core/persistent_memory_malloc.h: the flush of a page, and the first flush of a new log.
use mathlib.Core.Path.{subst}
use fish_store.Base.{ℕ, ◌+◌, ◌*◌, ◌^◌, ◌<◌, ◌≡◌, inl, refl, some, none, List, [], ◌∷◌, arith}
use fish_store.Address.{make, page, lt, gt, ge, min_address, max_page}
use fish_store.Log.{
  Log, allocate, tail_page, tail_offset, to_address, make_page_offset, page_size, status_at,
  monotonic_update,
}
use fish_store.Log.Flush.{
  Made, Write, allocated, new_log, make_log, log_from, store_tail, on_pages_marked_read_only,
  async_flush_pages, flush_pages, num_pages, begin_page_flush, put_status, page_write,
  flush_callback, end_page_flush, shift_flushed_until_address, flushed_pages, reopen,
}
use fish_store.Log.Issued.{slot_last, takes_all}
use fish_store.Log.Flushing.{Flushing, Step, Reach, enlist, drop_write}
use fish_store.Log.Flushed.{flushed_until-done, flush_callback-ends, flushed_until-all}
use fish_store.Log.Early.{first_page-early}

-- A log of 2 pages that is on disk up to the start of page 2, and whose tail is in page 3.
abbrev on_disk_two : Log
on_disk_two = record {
  buffer_size = 2;
  tail = 3 * 2 ^ 41 + 100;
  read_only_address = make 3 0;
  safe_read_only_address = make 2 0;
  head_address = record { control = 64 };
  safe_head_address = record { control = 64 };
  flushed_until_address = make 2 0;
  begin_address = record { control = 64 };
  page_status = λ i. allocated;
}

abbrev rested : Flushing
rested = record { log = on_disk_two; waiting = λ p. none }

rested-Reach : Reach rested
unfolding slot_last
rested-Reach = Reach.start 2 on_disk_two (record {
  flushed = refl;
  read_only = refl;
  pages = omega arith;
  first = omega arith;
  last = omega arith;
  slots = λ i. inl refl;
})

-- Page 2 is read-only, and its write waits.
abbrev second_write : Write
second_write = page_write 2 (make 3 0)

abbrev marked_log : Log
marked_log = begin_page_flush 2 (record on_disk_two { safe_read_only_address = make 3 0 })

marks : on_pages_marked_read_only takes_all (make 3 0) on_disk_two ≡ (second_write ∷ [], marked_log)
unfolding on_pages_marked_read_only async_flush_pages flush_pages num_pages monotonic_update page
    make fish_store.Address.offset lt gt
marks = refl

abbrev marked : Flushing
marked = record { log = marked_log; waiting = enlist (second_write ∷ []) (λ p. none) }

marked-Reach : Reach marked
unfolding page make
marked-Reach =
    subst (λ x. Reach (record { log = x.1; waiting = enlist x.0 (λ p. none) })) marks
      (Reach.next rested-Reach (Step.mark_read_only 3 (omega arith) (omega arith)))

waits : marked.waiting 2 ≡ some second_write
unfolding page_write
waits = refl

second_flushed : 1 < page marked.log.flushed_until_address
unfolding begin_page_flush put_status page make
second_flushed = omega arith

two_pages : marked.log.buffer_size < 3
unfolding begin_page_flush put_status
two_pages = omega arith

flushed_until-done_example : marked.waiting 1 ≡ none
flushed_until-done_example = flushed_until-done {s = marked} 1 marked-Reach second_flushed

flush_callback-ends_example :
    (cleared : List ℕ) × (l : Log) × (flush_callback 3 second_write marked.log ≡ some (cleared, l))
    × Reach (record { log = l; waiting = drop_write 2 marked.waiting })
flush_callback-ends_example =
    flush_callback-ends {s = marked} 2 3 second_write marked-Reach two_pages waits

-- After its callback.
abbrev ended : Flushing
ended = record {
  log = record (end_page_flush second_write marked.log) { flushed_until_address = make 3 0 };
  waiting = drop_write 2 marked.waiting;
}

ends : flush_callback 3 second_write marked.log ≡ some ([], ended.log)
unfolding flush_callback end_page_flush shift_flushed_until_address flushed_pages reopen status_at
    monotonic_update begin_page_flush put_status page make page_write ge lt min_address
ends = refl

ended-Reach : Reach ended
ended-Reach =
    Reach.next marked-Reach (Step.end_flush 2 3 second_write [] ended.log two_pages waits ends)

nothing_waits : (q : ℕ) → ended.waiting q ≡ none
unfolding page_write
nothing_waits q = ground arith

flushed_until-all_example :
    ended.log.flushed_until_address.control ≡ ended.log.safe_read_only_address.control
flushed_until-all_example = flushed_until-all {s = ended} ended-Reach nothing_waits

-- A new log of 8 pages.
abbrev fresh : Log
fresh = record (log_from 8 (record { control = 0 })) {
  tail = 64;
  begin_address = record { control = 64 };
  read_only_address = record { control = 64 };
  safe_read_only_address = record { control = 64 };
  head_address = record { control = 64 };
  safe_head_address = record { control = 64 };
}

fresh_made : new_log (8 * page_size) ≡ Made.made fresh
unfolding new_log make_log store_tail allocate make_page_offset tail_offset tail_page to_address
    page make fish_store.Address.offset
fresh_made = refl

first_page-early_example :
    (enlist (on_pages_marked_read_only takes_all (make 2 0) fresh).0 (λ p. none) 0
      ≡ some (page_write 0 (make 2 0)))
    × (enlist (on_pages_marked_read_only takes_all (make 2 0) fresh).0 (λ p. none) 1
        ≡ some (page_write 1 (make 2 0)))
    × ((cleared : List ℕ) × (m : Log) × (flush_callback 4
            (page_write 1 (make 2 0))
            (on_pages_marked_read_only takes_all (make 2 0) fresh).1
          ≡ some (cleared, m))
        × (m.flushed_until_address.control ≡ 2 * page_size))
first_page-early_example =
    first_page-early (8 * page_size) 2 1 fresh fresh_made (omega arith) (omega arith)
