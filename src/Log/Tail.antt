-- ===== src/Log/Tail.antt =====
-- core/persistent_memory_malloc.h: allocations at the tail, by any threads in any order.
use fish_store.Base.{
  ℕ, ◌+◌, ◌*◌, ◌-◌, ◌%◌, ◌^◌, min, ◌<◌, ◌≤◌, ◌≡◌, ◌≢◌, ◌⊎◌, inl, inr, true, false, ◌==◌, List, [],
  ◌∷◌, All, All-map, Bool-cases, arith,
}
use fish_store.Address.{u32, u64, max_page, max_offset}
use fish_store.Log.{page_size, tail_page, tail_offset, tail_new_page, allocate}

-- A range of the log that an allocation granted.
pub record Range : Type 0 where
  pub start : ℕ
  pub bytes : ℕ

-- The tail and the ranges granted so far, the latest first.
pub record Granted : Type 0 where
  pub tail : ℕ
  pub ranges : List Range

-- One atomic access of some thread: an allocation of one byte up to less than a page, while the
-- 41 bits of the offset have room for it, that is granted or meets a full page; or an attempt to move from a page that is
-- not the last, where the tail was loaded at any time before.
pub data Step (s : Granted) : Granted → Type 0 where
  grant :
      (n : ℕ)
      → 0 < n
      → n ≤ max_offset
      → tail_offset s.tail + n < 2 ^ 41
      → (allocate s.tail n).1 ≡ u32 - 1
      → Step s (record {
        tail = (allocate s.tail n).2;
        ranges = record { start = (allocate s.tail n).0.control; bytes = n } ∷ s.ranges;
      })
  refuse :
      (n : ℕ)
      → 0 < n
      → n ≤ max_offset
      → tail_offset s.tail + n < 2 ^ 41
      → (allocate s.tail n).1 ≢ u32 - 1
      → Step s (record s { tail = (allocate s.tail n).2 })
  move :
      (seen old_page : ℕ)
      → old_page < max_page
      → Step s (record s { tail = (tail_new_page seen s.tail old_page).2 })

pub data Reach : Granted → Type 0 where
  start : (word : ℕ) → word < u64 → Reach (record { tail = word; ranges = [] })
  next : {s t : Granted} → Reach s → Step s t → Reach t

-- Where the log ends, as an address; a full page ends where the next one starts.
abbrev pub log_end : ℕ → ℕ
log_end word = tail_page word * page_size + min page_size (tail_offset word)

abbrev pub EndsBy : ℕ → Range → Type 0
EndsBy e r = r.start + r.bytes ≤ e

-- Each range ends where the later ones start or before.
abbrev pub Disjoint : List Range → Type 0
Disjoint [] = Unit
Disjoint (r ∷ rs) = All (EndsBy r.start) rs × Disjoint rs

-- Each range lies in one page.
abbrev pub InPage : Range → Type 0
InPage r = r.start % page_size + r.bytes ≤ page_size

record Inv (s : Granted) : Type 0 where
  word : s.tail < u64
  before : All (EndsBy (log_end s.tail)) s.ranges
  disjoint : Disjoint s.ranges
  in_page : All InPage s.ranges

-- A reservation moves the offset alone.
module _ (word n : ℕ) (fits : word < u64) (pos : 0 < n) (small : n ≤ max_offset)
    (room : tail_offset word + n < 2 ^ 41) where
  reserved :
      (tail_offset (allocate word n).2 ≡ tail_offset word + n)
      × (tail_page (allocate word n).2 ≡ tail_page word)
      × ((allocate word n).2 < u64)
  unfolding allocate
  reserved = (ground arith, ground arith, ground arith)

  -- A granted range starts where the log ended, lies in the page, and ends where the log now ends.
  granted :
      (allocate word n).1 ≡ u32 - 1
      → ((allocate word n).0.control ≡ log_end word)
        × ((allocate word n).0.control + n ≡ log_end (allocate word n).2)
        × InPage (record { start = (allocate word n).0.control; bytes = n })
  unfolding allocate
  granted e = (ground arith, ground arith, ground arith)

-- A thread that wins moves the tail to the start of the next page, and no other attempt changes it.
pub tail_new_page-moves :
    (seen word old_page : ℕ)
    → word < u64
    → old_page < max_page
    → ((tail_new_page seen word old_page).2 ≡ word)
      ⊎ (((tail_new_page seen word old_page).2 < u64)
          × (tail_page word ≡ old_page)
          × (tail_page (tail_new_page seen word old_page).2 ≡ old_page + 1)
          × (tail_offset (tail_new_page seen word old_page).2 ≡ 0))
unfolding tail_new_page tail_offset
tail_new_page-moves seen word old_page hw hp = elim (Bool-cases (old_page == tail_page seen)) [
  | inr other ↦ inl (rw other)
  | inl here ↦ elim (Bool-cases (word == seen)) [
    | inr lost ↦ inl (ground arith)
    | inl won ↦ inr (ground arith, ground arith, ground arith, ground arith)
  ]
]

later_end : (rs : List Range) {e f : ℕ} → e ≤ f → All (EndsBy e) rs → All (EndsBy f) rs
later_end rs le h = All-map rs (λ r p. omega arith) h

Step-Inv : {s t : Granted} → Step s t → Inv s → Inv t
Step-Inv {s} (grant n pos small room e) inv =
    let (off, pg, fits) = reserved s.tail n inv.word pos small room in
    let (begins, ends, within) = granted s.tail n inv.word pos small room e in
    record {
      word = fits;
      before = (omega (arith, ends), later_end s.ranges (omega (arith, off, pg)) inv.before);
      disjoint = (later_end s.ranges (omega (arith, begins)) inv.before, inv.disjoint);
      in_page = (within, inv.in_page);
    }
Step-Inv {s} (refuse n pos small room e) inv =
    let (off, pg, fits) = reserved s.tail n inv.word pos small room in
    record {
      word = fits;
      before = later_end s.ranges (omega (arith, off, pg)) inv.before;
      disjoint = inv.disjoint;
      in_page = inv.in_page;
    }
Step-Inv {s} (move seen old_page hp) inv =
    elim (tail_new_page-moves seen s.tail old_page inv.word hp) [
      | inl same ↦ rw same inv
      | inr (fits, from, to, zero_offset) ↦ record {
        word = fits;
        before = later_end s.ranges (omega (arith, from, to, zero_offset)) inv.before;
        disjoint = inv.disjoint;
        in_page = inv.in_page;
      }
    ]

Reach-Inv : {s : Granted} → Reach s → Inv s
Reach-Inv (start word h) = record { word = h; before = tt; disjoint = tt; in_page = tt }
Reach-Inv (next r st) = Step-Inv st (Reach-Inv r)

-- From any tail, whatever allocations of at least one byte and less than a page any threads make,
-- while the 41 bits of the offset have room for them, and whatever moves to new pages from pages
-- before the last, in any order: each granted range lies in one page, and ends where the ranges
-- granted after it start or before, so that no two overlap.
pub ranges-Disjoint : {s : Granted} → Reach s → All InPage s.ranges × Disjoint s.ranges
ranges-Disjoint r = let inv = Reach-Inv r in (inv.in_page, inv.disjoint)

-- The thread that moves the tail is answered that the page did not advance: only the others are
-- told that it did.
pub tail_new_page-won :
    (seen word old_page : ℕ)
    → (tail_new_page seen word old_page).1 ≡ true
    → (tail_new_page seen word old_page).0 ≡ false
unfolding tail_new_page
tail_new_page-won seen word old_page won = ground arith
