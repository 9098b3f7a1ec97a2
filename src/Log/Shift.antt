-- ===== src/Log/Shift.antt =====
-- core/persistent_memory_malloc.h: the addresses of the log, and the move to a new page.
use fish_store.Base.{
  ℕ, ◌⊎◌, ◌+◌, ◌*◌, ◌/◌, ◌%◌, ◌^◌, ◌<◌, ◌≤◌, ◌≡◌, ◌≢◌, inl, inr, refl, Bool, true, false, ltb, leb,
  ◌==◌, if◌then◌else◌, List, [], ◌∷◌, Bool-cases, Option, none, some, arith,
}
use native.Mathlib.Nat.{div-add-mod', mul-le-mul_right}
use fish_store.Log.Tail.{tail_new_page-moves}
use fish_store.Address.{Address, u64, max_page, page, lt}
use fish_store.Log.{
  Log, Scheduled, monotonic_update_loop, page_aligned_shift_head_address, new_page, shift_both,
  status_at, ready, tail_page, tail_new_page,
}

-- What the loop comes to: it replaced a smaller address by the new one, or it met one that is not
-- smaller and changed nothing.
abbrev pub Outcome : Address → Option (Bool × Address) → Type 0
Outcome new none = Unit
Outcome new (some (true, after)) = after ≡ new
Outcome new (some (false, after)) = new.control ≤ after.control

-- Whatever other threads leave in the variable between the attempts, `MonotonicUpdate` that succeeds
-- stores the new address, one that fails has met an address that is not smaller, and one whose first
-- attempt meets the address that it loaded ends there.
pub monotonic_update_loop-Outcome :
    (old new : Address) (seen : List Address)
    → Outcome new (monotonic_update_loop old new seen)
      × (monotonic_update_loop old new (old ∷ seen) ≢ none)
unfolding monotonic_update_loop lt
monotonic_update_loop-Outcome old new [] = elim (Bool-cases (ltb old.control new.control)) [
  | inl smaller ↦ (rw smaller tt, ground arith)
  | inr not_smaller ↦ (rw not_smaller (ground arith), ground arith)
]
monotonic_update_loop-Outcome old new (now ∷ later) =
    elim (Bool-cases (ltb old.control new.control)) [
      | inr not_smaller ↦ (rw not_smaller (ground arith), ground arith)
      | inl smaller ↦ elim (Bool-cases (now.control == old.control)) [
        | inl won ↦ (rw (smaller, won) refl, ground arith)
        | inr lost ↦
            (rw (smaller, lost) (monotonic_update_loop-Outcome now new later).0, ground arith)
      ]
    ]

-- Shifting the head address leaves it, or moves it forward to at most the address up to which the log is flushed; and the
-- closing of pages is scheduled just when the head address moved, up to where it moved.
pub page_aligned_shift_head_address-flushed :
    (l : Log) (p : ℕ)
    → l.flushed_until_address.control < 2 ^ 48
    → p ≤ max_page
    → (((page_aligned_shift_head_address l p).0.head_address.control ≡ l.head_address.control)
        ⊎ ((l.head_address.control < (page_aligned_shift_head_address l p).0.head_address.control)
            × ((page_aligned_shift_head_address l p).0.head_address.control
                ≤ l.flushed_until_address.control)))
      × ((page_aligned_shift_head_address l p).1 ≡ (
          if ltb l.head_address.control (page_aligned_shift_head_address l p).0.head_address.control
          then Scheduled.pages_closed (page_aligned_shift_head_address l p).0.head_address ∷ []
          else []))
unfolding page_aligned_shift_head_address
page_aligned_shift_head_address-flushed l p hf hp = (ground arith, ground arith)

-- Two pages less than a buffer apart stand in different slots.
pub slots_differ : (q r b : ℕ) → q < r → r < q + b → q % b ≢ r % b
slots_differ q r b lt near same =
    let low = div-add-mod' q b in
    let high = div-add-mod' r b in
    elim (Bool-cases (leb (r / b) (q / b))) [
      | inl not_after ↦
          let le : r / b * b ≤ q / b * b = mul-le-mul_right b (ground arith) in
          omega (arith, low, high)
      | inr after ↦
          let le : (q / b + 1) * b ≤ r / b * b = mul-le-mul_right b (ground arith) in
          omega (arith, low, high)
    ]

shift_both-tail : (l : Log) (p : ℕ) → (shift_both l p).0.tail ≡ l.tail
unfolding shift_both
shift_both-tail l p = ground arith

-- `NewPage` moves the tail only from the given page to the next one, only when that page is ready,
-- and only into a slot of the circular buffer that no page from the safe head address up to the
-- given page stands in.
pub new_page-room :
    (l : Log) (seen old_page q : ℕ)
    → l.tail < u64
    → old_page < max_page
    → (new_page l seen old_page).1.tail ≢ l.tail
    → page l.safe_head_address ≤ q
    → q ≤ old_page
    → (tail_page l.tail ≡ old_page)
      × (tail_page (new_page l seen old_page).1.tail ≡ old_page + 1)
      × (ready (status_at l (old_page + 1)).status ≡ true)
      × (q % l.buffer_size ≢ (old_page + 1) % l.buffer_size)
unfolding new_page
new_page-room l seen old_page q fits small moved lo hi =
    let step = tail_new_page-moves seen l.tail old_page fits small in
    let before = shift_both-tail l (old_page + 1) in
    let after =
      shift_both-tail (record l { tail = (tail_new_page seen l.tail old_page).2 }) (old_page + 1) in
    let differ = slots_differ q (old_page + 1) l.buffer_size (omega arith) in
    (
      ground (arith, step, before, after),
      ground (arith, step, before, after),
      ground (arith, before),
      differ (ground (arith, before)),
    )
