-- ===== src/Log/Flushing.antt =====
-- core/persistent_memory_malloc.h: sequences of flushes of whole pages, of their callbacks and of closings.
use fish_store.Base.{
  ℕ, ◌+◌, ◌*◌, ◌%◌, ◌<◌, ◌≤◌, ◌≡◌, ◌⊎◌, ◌==◌, if◌then◌else◌, Option, none, some, List, [], ◌∷◌,
}
use fish_store.Address.{Address, max_page, page, make}
use fish_store.Log.{Log, page_size}
use fish_store.Log.Flush.{Write, on_pages_marked_read_only, on_pages_closed, flush_callback}
use fish_store.Log.Issued.{slot_last, takes_all}

-- The log, and the writes whose callback has not run, by their page.
pub record Flushing : Type 0 where
  pub log : Log
  pub waiting : ℕ → Option Write

abbrev pub enlist : List Write → (ℕ → Option Write) → ℕ → Option Write
enlist [] waiting p = waiting p
enlist (w ∷ writes) waiting p =
    let rest = enlist writes waiting p in if p == w.page then some w else rest

abbrev pub drop_write : ℕ → (ℕ → Option Write) → ℕ → Option Write
drop_write p waiting q = if q == p then none else waiting q

-- A log that is flushed up to the start of the page `f`, which is not the first one; what its pages keep is older.
pub record Start (f : ℕ) (l : Log) : Type 0 where
  pub flushed : l.flushed_until_address ≡ make f 0
  pub read_only : l.safe_read_only_address ≡ make f 0
  pub pages : 2 ≤ l.buffer_size
  pub first : 0 < f
  pub last : f ≤ max_page
  pub slots :
      (i : ℕ)
      → (slot_last l i ≡ 0)
        ⊎ ((q : ℕ) × (q < f) × (q % l.buffer_size ≡ i) × (slot_last l i ≡ (q + 1) * page_size))

-- `OnPagesMarkedReadOnly` for whole pages, which are no more than the buffer has beyond the page up to which the log is on
-- disk; the callback of a write; and `OnPagesClosed` up to an address that is on disk.
pub data Step (s : Flushing) : Flushing → Type 0 where
  mark_read_only :
      (e : ℕ)
      → e ≤ page s.log.flushed_until_address + s.log.buffer_size
      → e ≤ max_page
      → Step s (record {
        log = (on_pages_marked_read_only takes_all (make e 0) s.log).1;
        waiting = enlist (on_pages_marked_read_only takes_all (make e 0) s.log).0 s.waiting;
      })
  end_flush :
      (p rounds : ℕ) (w : Write) (cleared : List ℕ) (l : Log)
      → s.log.buffer_size < rounds
      → s.waiting p ≡ some w
      → flush_callback rounds w s.log ≡ some (cleared, l)
      → Step s (record { log = l; waiting = drop_write p s.waiting })
  close :
      (a : Address)
      → a.control ≤ s.log.flushed_until_address.control
      → Step s (record { log = (on_pages_closed a s.log).1; waiting = s.waiting })

pub data Reach : Flushing → Type 0 where
  start : (f : ℕ) (l : Log) → Start f l → Reach (record { log = l; waiting = λ p. none })
  next : {s t : Flushing} → Reach s → Step s t → Reach t
