-- ===== src/Log/Issued.antt =====
-- core/persistent_memory_malloc.h: what `AsyncFlushPages` does to the addresses that the pages keep.
use fish_store.Base.{
  ℕ, zero, suc, ◌+◌, ◌%◌, ◌<◌, ◌≤◌, ◌≡◌, ◌≢◌, ◌⊎◌, inl, inr, refl, sym, ap, ◌∙◌, ◌==◌, Bool-cases,
  arith,
}
use fish_store.Address.{Address, lt}
use fish_store.Batch.{is_ok}
use fish_store.Batch
use fish_store.Log.{Log, PageStatus}
use fish_store.Log.Flush.{put_status, begin_page_flush, flush_pages}

-- The address that a slot of the buffer keeps, and the one of a page.
abbrev pub slot_last : Log → ℕ → ℕ
slot_last l i = (l.page_status i).last_flushed_until.control

abbrev pub page_last : Log → ℕ → ℕ
page_last l p = slot_last l (p % l.buffer_size)

pub put_status-here :
    (p : ℕ) (l : Log) (s : PageStatus)
    → slot_last (put_status p s l) (p % l.buffer_size) ≡ s.last_flushed_until.control
unfolding put_status
put_status-here p l s = ground arith

pub put_status-other :
    (p : ℕ) (l : Log) (s : PageStatus) (i : ℕ)
    → i ≢ p % l.buffer_size
    → slot_last (put_status p s l) i ≡ slot_last l i
unfolding put_status
put_status-other p l s i ne = ground arith

begin_page_flush-here : (p : ℕ) (l : Log) → slot_last (begin_page_flush p l) (p % l.buffer_size) ≡ 0
unfolding begin_page_flush
begin_page_flush-here p l = put_status-here p l _

begin_page_flush-other :
    (p : ℕ) (l : Log) (i : ℕ)
    → i ≢ p % l.buffer_size
    → slot_last (begin_page_flush p l) i ≡ slot_last l i
unfolding begin_page_flush
begin_page_flush-other p l i ne = put_status-other p l _ i ne

-- The disk takes all writes.
abbrev pub takes_all : ℕ → Batch.Status
takes_all p = Batch.Status.ok

-- The rest of the log stays.
pub record Same (l m : Log) : Type 0 where
  pub buffer_size : m.buffer_size ≡ l.buffer_size
  pub flushed_until_address : m.flushed_until_address ≡ l.flushed_until_address
  pub safe_read_only_address : m.safe_read_only_address ≡ l.safe_read_only_address

abbrev log_after : ℕ → ℕ → Address → Log → Log
log_after n p until l = (flush_pages takes_all n p until l).2

pub flush_pages-Same :
    (n p : ℕ) (until : Address) (l : Log) → Same l (flush_pages takes_all n p until l).2
unfolding flush_pages begin_page_flush put_status
flush_pages-Same zero p until l = record {
  buffer_size = refl;
  flushed_until_address = refl;
  safe_read_only_address = refl;
}
flush_pages-Same (suc n) p until l =
    let same = flush_pages-Same n (p + 1) until (begin_page_flush p l) in
    record {
      buffer_size = same.buffer_size;
      flushed_until_address = same.flushed_until_address;
      safe_read_only_address = same.safe_read_only_address;
    }

-- A slot is reset or stays.
pub flush_pages-slot :
    (n p : ℕ) (until : Address) (l : Log) (i : ℕ)
    → (slot_last (flush_pages takes_all n p until l).2 i ≡ 0)
      ⊎ (slot_last (flush_pages takes_all n p until l).2 i ≡ slot_last l i)
unfolding flush_pages
flush_pages-slot zero p until l i = inr refl
flush_pages-slot (suc n) p until l i =
    elim (flush_pages-slot n (p + 1) until (begin_page_flush p l) i) [
      | inl reset ↦ inl reset
      | inr kept ↦ elim (Bool-cases (i == p % l.buffer_size)) [
        | inl here ↦
            let at : i ≡ p % l.buffer_size = ground arith in
            inl (kept ∙ ap (slot_last (begin_page_flush p l)) at ∙ begin_page_flush-here p l)
        | inr other ↦ inr (kept ∙ begin_page_flush-other p l i (ground arith))
      ]
    ]

-- A slot of none of the pages stays.
pub flush_pages-kept :
    (n p : ℕ) (until : Address) (l : Log) (i : ℕ)
    → ((q : ℕ) → p ≤ q → q < p + n → i ≢ q % l.buffer_size)
    → slot_last (flush_pages takes_all n p until l).2 i ≡ slot_last l i
unfolding flush_pages begin_page_flush put_status
flush_pages-kept zero p until l i apart = refl
flush_pages-kept (suc n) p until l i apart =
    flush_pages-kept n (p + 1) until (begin_page_flush p l) i
      (λ q le lt. apart q (omega arith) (omega arith))
    ∙ begin_page_flush-other p l i (apart p (omega arith) (omega arith))

-- The pages that are flushed are reset.
pub flush_pages-reset :
    (n p : ℕ) (until : Address) (l : Log) (q : ℕ)
    → p ≤ q
    → q < p + n
    → slot_last (flush_pages takes_all n p until l).2 (q % l.buffer_size) ≡ 0
unfolding flush_pages begin_page_flush put_status
flush_pages-reset zero p until l q le lt = absurd (omega arith)
flush_pages-reset (suc n) p until l q le lt = elim (Bool-cases (p == q)) [
  | inr later ↦
      flush_pages-reset n (p + 1) until (begin_page_flush p l) q (ground arith) (omega arith)
  | inl first ↦
      let at : p ≡ q = ground arith in
      elim (flush_pages-slot n (p + 1) until (begin_page_flush p l) (q % l.buffer_size)) [
        | inl reset ↦ reset
        | inr kept ↦
            kept
            ∙ ap (λ x. slot_last (begin_page_flush p l) (x % l.buffer_size)) (sym at)
            ∙ begin_page_flush-here p l
      ]
]
