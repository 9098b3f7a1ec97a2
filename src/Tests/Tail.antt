-- ===== src/Tests/Tail.antt =====
-- core/persistent_memory_malloc.h: two allocations, a full page and a new one, and the addresses.
use fish_store.Base.{
  ◌<◌, ◌+◌, ◌*◌, ◌%◌, ◌^◌, ◌≤◌, ◌≡◌, ◌≢◌, ◌⊎◌, refl, true, [], ◌∷◌, All, ltb, if◌then◌else◌, arith,
}
use fish_store.Address.{page}
use fish_store.Log.{
  Log, FlushStatus, CloseStatus, Scheduled, ready, status_at, allocate, tail_page, tail_new_page,
  tail_offset, new_page, shift_both, page_aligned_shift_head_address,
  page_aligned_shift_read_only_address,
}
use fish_store.Log.Tail.{Granted, Step, Reach, InPage, Disjoint, ranges-Disjoint}
use fish_store.Log.Page
use fish_store.Log.Shift.{page_aligned_shift_head_address-flushed, new_page-room}

-- 64 bytes at the start of page 0, then 100 bytes.
abbrev once : Granted
once = record { tail = 64; ranges = record { start = 0; bytes = 64 } ∷ [] }

abbrev twice : Granted
twice = record {
  tail = 164;
  ranges = record { start = 64; bytes = 100 } ∷ record { start = 0; bytes = 64 } ∷ [];
}

twice-Reach : Reach twice
unfolding allocate tail_offset
twice-Reach =
    Reach.next {s = once}
      (Reach.next {t = once} (Reach.start 0 (omega arith))
        (Step.grant 64 (omega arith) (omega arith) (omega arith) refl))
      (Step.grant 100 (omega arith) (omega arith) (omega arith) refl)

ranges-Disjoint_example : All InPage twice.ranges × Disjoint twice.ranges
ranges-Disjoint_example = ranges-Disjoint twice-Reach

-- The flush ends, then the page is closed; the closing thread clears it.
abbrev closing : Page.Page
closing = record Page.issued {
  status = Page.close_page (Page.end_flush (Page.issued.status));
  flusher = Page.Pc.ends;
  closer = Page.Pc.clears;
}

closing-Reach : Page.Reach closing
unfolding Page.begin_flush Page.end_flush Page.close_page Page.after_flush Page.after_close
closing-Reach =
    Page.Reach.next (Page.Reach.next Page.Reach.start (Page.Step.flush_done refl))
      (Page.Step.close_done refl)

cleared_once_example :
    (closing.cleared ≡ 0)
    ⊎ ((closing.cleared ≡ 1) × (closing.flusher ≢ Page.Pc.waits) × (closing.closer ≢ Page.Pc.waits))
cleared_once_example = Page.cleared_once closing-Reach

page_reopened_example :
    ((closing.flusher ≡ Page.Pc.ends)
      × (closing.closer ≡ Page.Pc.ends)
      × (closing.cleared ≡ 1)
      × (ready closing.status ≡ true))
    ⊎ ((q : Page.Page) × Page.Step closing q)
page_reopened_example = Page.page_reopened closing-Reach

-- A log of 8 pages whose tail is in page 8, flushed up to the start of page 4.
abbrev log_at_eight : Log
log_at_eight = record {
  buffer_size = 8;
  tail = 8 * 2 ^ 41 + 2 ^ 25;
  read_only_address = record { control = 5 * 2 ^ 25 };
  safe_read_only_address = record { control = 5 * 2 ^ 25 };
  head_address = record { control = 3 * 2 ^ 25 };
  safe_head_address = record { control = 3 * 2 ^ 25 };
  flushed_until_address = record { control = 4 * 2 ^ 25 };
  begin_address = record { control = 64 };
  page_status = λ _. record {
    last_flushed_until = record { control = 0 };
    status = record { flush = FlushStatus.flushed; close = CloseStatus.is_open };
  };
}

page_aligned_shift_head_address-flushed_example :
    (((page_aligned_shift_head_address log_at_eight 9).0.head_address.control ≡ 3 * 2 ^ 25)
      ⊎ ((3 * 2 ^ 25 < (page_aligned_shift_head_address log_at_eight 9).0.head_address.control)
          × ((page_aligned_shift_head_address log_at_eight 9).0.head_address.control ≤ 4 * 2 ^ 25)))
    × ((page_aligned_shift_head_address log_at_eight 9).1 ≡ (
        if ltb (3 * 2 ^ 25) (page_aligned_shift_head_address log_at_eight 9).0.head_address.control
        then Scheduled.pages_closed (page_aligned_shift_head_address log_at_eight 9).0.head_address
          ∷ []
        else []))
page_aligned_shift_head_address-flushed_example =
    page_aligned_shift_head_address-flushed log_at_eight 9 (omega arith) (omega arith)

moved_eight : (new_page log_at_eight log_at_eight.tail 8).1.tail ≢ log_at_eight.tail
unfolding new_page page shift_both page_aligned_shift_head_address
    page_aligned_shift_read_only_address status_at ready tail_new_page
moved_eight = ground arith

new_page-room_example :
    (tail_page log_at_eight.tail ≡ 8)
    × (tail_page (new_page log_at_eight log_at_eight.tail 8).1.tail ≡ 9)
    × (ready (status_at log_at_eight 9).status ≡ true)
    × (4 % 8 ≢ 9 % 8)
unfolding page
new_page-room_example =
    new_page-room log_at_eight log_at_eight.tail 8 4 (omega arith) (omega arith) moved_eight
      (omega arith) (omega arith)
