-- ===== src/Log/Early.antt =====
-- core/persistent_memory_malloc.h: the flush of the first pages of a new log.
use fish_store.Base.{
  ℕ, suc, ◌+◌, ◌*◌, ◌/◌, ◌%◌, ◌<◌, ◌≤◌, ◌≡◌, ◌≢◌, ◌⊎◌, inl, inr, refl, sym, ap, ◌∙◌, Bool, true,
  false, leb, ◌==◌, Bool-cases, none, some, List, arith,
}
use fish_store.Address.{Address, u32, max_page, page, offset, make, ge}
use fish_store.Log.{Log, page_size, status_at}
use fish_store.Log.Shift.{slots_differ}
use fish_store.Log.Flush.{
  page_write, num_pages, flush_pages, async_flush_pages, on_pages_marked_read_only,
  shift_flushed_until_address, flush_callback, with_cleared,
}
use fish_store.Log.Issued.{
  slot_last, page_last, takes_all, Same, flush_pages-Same, flush_pages-slot,
}
use fish_store.Log.Flushing.{enlist}
use fish_store.Log.Marked.{page_at}
use fish_store.Log.{num_head_pages, to_address, make_page_offset, reserve, tail_page, tail_offset}
use fish_store.Log.Flush.{
  Made, Refused, make_log, new_log, log_from, skip_invalid, flushed_pages, put_flushed_until,
}
use fish_store.Log.Marked.{updates, enlist-here, page_write-until}
use fish_store.Log.Ended.{ended, ended-here, ended-other, ended-Same}

-- The log that the constructor makes.
abbrev skipped : Address
skipped = record { control = 64 }

abbrev fresh : ℕ → Log
fresh buffer_size = record (log_from buffer_size (record { control = 0 })) {
  tail = 64;
  begin_address = skipped;
  read_only_address = skipped;
  safe_read_only_address = skipped;
  head_address = skipped;
  safe_head_address = skipped;
}

make_log-cases :
    (log_size : ℕ) (start : Address)
    → ((why : Refused) × (make_log log_size start ≡ Made.refused why))
      ⊎ ((make_log log_size start ≡ Made.made (log_from (log_size / page_size % u32) start))
          × (5 < log_size / page_size % u32))
unfolding make_log
make_log-cases log_size start = elim (Bool-cases (log_size % page_size == 0)) [
  | inr not_whole ↦ inl (Refused.not_multiple, rw not_whole refl)
  | inl whole ↦ elim (Bool-cases (leb (log_size / page_size % u32) (num_head_pages + 1))) [
    | inl few ↦ inl (Refused.too_few_pages, rw (whole, few) refl)
    | inr enough ↦ inr (rw (whole, enough) refl, ground arith)
  ]
]

made_injective : {l m : Log} → Made.made l ≡ Made.made m → l ≡ m
made_injective e = cc

refused-made : {why : Refused} {l : Log} → Made.refused why ≡ Made.made l → ⊥
refused-made e = absurd (ground arith)

new_log-made :
    (log_size : ℕ) (l : Log)
    → new_log log_size ≡ Made.made l
    → (l ≡ fresh (log_size / page_size % u32)) × (5 < log_size / page_size % u32)
unfolding new_log make_page_offset tail_page tail_offset to_address reserve page offset make
new_log-made log_size l e = elim (make_log-cases log_size (record { control = 0 })) [
  | inl (why, refuses) ↦ absurd (refused-made (sym (ap (skip_invalid 64) refuses) ∙ e))
  | inr (makes, enough) ↦ (sym (made_injective (sym (ap (skip_invalid 64) makes) ∙ e)), enough)
]

pages_to : (k : ℕ) → 0 < k → k ≤ max_page → num_pages 0 (make k 0) ≡ k
unfolding num_pages page make offset
pages_to k pos le = ground arith

marks_first :
    (b k : ℕ)
    → 0 < k
    → k ≤ max_page
    → on_pages_marked_read_only takes_all (make k 0) (fresh b) ≡ (
      (flush_pages takes_all k 0
          (make k 0)
          (record (fresh b) { safe_read_only_address = make k 0 })).1,
      (flush_pages takes_all k 0
          (make k 0)
          (record (fresh b) { safe_read_only_address = make k 0 })).2,
    )
unfolding on_pages_marked_read_only async_flush_pages page
marks_first b k pos le =
    let (_, control_k, _) = page_at k le in
    rw (updates skipped (make k 0) (omega arith), pages_to k pos le) refl

-- Three pages at the start, of which only the second one keeps an address.
module _ (m : Log) (at_0 : m.flushed_until_address.control ≡ 0) (last_0 : page_last m 0 ≡ 0)
    (last_1 : page_last m 1 ≡ 2 * page_size) (last_2 : page_last m 2 ≡ 0) where
  walks :
      (rounds : ℕ)
      → flushed_pages (suc (suc (suc rounds))) m 0 false m.flushed_until_address
        ≡ some (true, (status_at m 1).last_flushed_until)
  unfolding flushed_pages status_at ge
  walks rounds =
      let skips : leb m.flushed_until_address.control (page_last m 0) ≡ true = ground arith in
      let takes : leb (page_last m 0) (page_last m 1) ≡ true = ground arith in
      let stops : leb (page_last m 1) (page_last m 2) ≡ false = ground arith in
      rw (skips, takes, stops) refl

  skips_first :
      (rounds : ℕ)
      → (a : Address) × (shift_flushed_until_address (suc (suc (suc rounds))) m
          ≡ some (record m { flushed_until_address = a }))
        × (a.control ≡ 2 * page_size)
  unfolding shift_flushed_until_address page status_at
  skips_first rounds =
      let page_0 : page m.flushed_until_address ≡ 0 = omega arith in
      (
        (status_at m 1).last_flushed_until,
        rw page_0 (
            ap (put_flushed_until m) (walks rounds)
            ∙ ap (λ (x : Bool × Address). some (record m { flushed_until_address = x.1 }))
                (updates m.flushed_until_address (status_at m 1).last_flushed_until (omega arith))),
        last_1,
      )

-- The log after the first flush was issued, and after the callback of page 1 has stored its address.
abbrev start_of : ℕ → ℕ → Log
start_of k b = record (fresh b) { safe_read_only_address = make k 0 }

abbrev second_ended : ℕ → ℕ → Log
second_ended k b =
    ended (page_write 1 (make k 0)) (flush_pages takes_all k 0 (make k 0) (start_of k b)).2

module _ (k b : ℕ) (two : 2 ≤ k) (le : k ≤ max_page) (pages : 5 < b) where
  issued : Same (start_of k b) (flush_pages takes_all k 0 (make k 0) (start_of k b)).2
  issued = flush_pages-Same k 0 (make k 0) (start_of k b)

  second_same : Same (flush_pages takes_all k 0 (make k 0) (start_of k b)).2 (second_ended k b)
  second_same =
      ended-Same (page_write 1 (make k 0)) (flush_pages takes_all k 0 (make k 0) (start_of k b)).2

  zeros : (i : ℕ) → slot_last (flush_pages takes_all k 0 (make k 0) (start_of k b)).2 i ≡ 0
  zeros i = elim (flush_pages-slot k 0 (make k 0) (start_of k b) i) [
    | inl reset ↦ reset
    | inr kept ↦ kept
  ]

  slot_of : (p : ℕ) → page_last (second_ended k b) p ≡ slot_last (second_ended k b) (p % b)
  slot_of p =
      ap (λ x. slot_last (second_ended k b) (p % x)) (second_same.buffer_size ∙ issued.buffer_size)

  others : (p : ℕ) → p % b ≢ 1 % b → page_last (second_ended k b) p ≡ 0
  unfolding page_write
  others p apart =
      slot_of p
      ∙ ended-other (page_write 1 (make k 0))
          (flush_pages takes_all k 0 (make k 0) (start_of k b)).2 (p % b)
          (λ e. apart (e ∙ ap (λ x. 1 % x) issued.buffer_size))
      ∙ zeros (p % b)

  second_last : page_last (second_ended k b) 1 ≡ 2 * page_size
  unfolding page_write
  second_last =
      slot_of 1
      ∙ ap (λ x. slot_last (second_ended k b) (1 % x)) (sym issued.buffer_size)
      ∙ ended-here (page_write 1 (make k 0)) (flush_pages takes_all k 0 (make k 0) (start_of k b)).2
      ∙ page_write-until 1 k (omega arith) le

  early :
      (rounds : ℕ)
      → (cleared : List ℕ) × (m : Log) × (flush_callback
            (suc (suc (suc rounds)))
            (page_write 1 (make k 0))
            (flush_pages takes_all k 0 (make k 0) (start_of k b)).2
          ≡ some (cleared, m))
        × (m.flushed_until_address.control ≡ 2 * page_size)
  unfolding flush_callback
  early rounds =
      let (a, result, at) =
        skips_first (second_ended k b)
          (ap (λ x. x.control) (second_same.flushed_until_address ∙ issued.flushed_until_address))
          (others 0 (slots_differ 0 1 b (omega arith) (omega arith))) second_last
          (others 2 (λ e. slots_differ 1 2 b (omega arith) (omega arith) (sym e))) rounds in
      (_, record (second_ended k b) { flushed_until_address = a }, ap (with_cleared _) result, at)

-- A new log, and the first flush of it, of the pages below `k`, where `k` is at least 2: both its first two writes wait. When the
-- callback of page 1 runs first, the address up to which the log is on disk becomes the start of page 2, although the
-- write of page 0 still waits.
pub first_page-early :
    (log_size k rounds : ℕ) (l : Log)
    → new_log log_size ≡ Made.made l
    → 2 ≤ k
    → k ≤ max_page
    → (enlist (on_pages_marked_read_only takes_all (make k 0) l).0 (λ p. none) 0
        ≡ some (page_write 0 (make k 0)))
      × (enlist (on_pages_marked_read_only takes_all (make k 0) l).0 (λ p. none) 1
          ≡ some (page_write 1 (make k 0)))
      × ((cleared : List ℕ) × (m : Log) × (flush_callback
              (suc (suc (suc rounds)))
              (page_write 1 (make k 0))
              (on_pages_marked_read_only takes_all (make k 0) l).1
            ≡ some (cleared, m))
          × (m.flushed_until_address.control ≡ 2 * page_size))
first_page-early log_size k rounds l made two le =
    let (is_fresh, pages) = new_log-made log_size l made in
    rw (is_fresh, marks_first (log_size / page_size % u32) k (omega arith) le)
      (
        enlist-here k 0 (make k 0) (start_of k (log_size / page_size % u32)) (λ p. none) 0
            (omega arith) (omega arith),
        enlist-here k 0 (make k 0) (start_of k (log_size / page_size % u32)) (λ p. none) 1
            (omega arith) (omega arith),
        early k (log_size / page_size % u32) two le pages rounds,
      )
