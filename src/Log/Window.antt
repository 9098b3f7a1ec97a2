-- ===== src/Log/Window.antt =====
-- core/persistent_memory_malloc.h: the pages that are being flushed, and what does not change them.
use fish_store.Base.{
  ℕ, zero, suc, ◌+◌, ◌*◌, ◌%◌, ◌<◌, ◌≤◌, ◌≡◌, ◌⊎◌, inl, inr, refl, sym, ap, ◌∙◌, Bool, true, false,
  ltb, ◌==◌, Bool-cases, Option, none, some, arith,
}
use fish_store.Address.{Address, max_page, make, lt}
use fish_store.Log.{Log, PageStatus, page_size, status_at, monotonic_update}
use fish_store.Log.Shift.{slots_differ}
use fish_store.Log.Flush.{Write, put_status, on_pages_closed, close_pages, reopen}
use fish_store.Log.Issued.{slot_last, page_last, put_status-here, put_status-other}
use fish_store.Log.Flushing.{Flushing, Start}

-- The pages from `f` up to `r` are being flushed: a page keeps 0 while its write waits, and its end afterwards.
pub record Window (f r : ℕ) (s : Flushing) : Type 0 where
  pub flushed : s.log.flushed_until_address.control ≡ f * page_size
  pub read_only : s.log.safe_read_only_address.control ≡ r * page_size
  pub two : 2 ≤ s.log.buffer_size
  pub first : 0 < f
  pub order : f ≤ r
  pub window : r ≤ f + s.log.buffer_size
  pub last : r ≤ max_page
  pub waits :
      (p : ℕ)
      → (s.waiting p ≡ none)
        ⊎ ((f ≤ p)
            × (p < r)
            × ((w : Write) × (s.waiting p ≡ some w)
                × (w.page ≡ p)
                × (w.until_address.control ≡ (p + 1) * page_size))
            × (page_last s.log p ≡ 0))
  pub done : (p : ℕ) → f ≤ p → p < r → s.waiting p ≡ none → page_last s.log p ≡ (p + 1) * page_size
  pub slots :
      (i : ℕ)
      → (slot_last s.log i ≡ 0)
        ⊎ ((q : ℕ) × (q < r)
            × (q % s.log.buffer_size ≡ i)
            × (slot_last s.log i ≡ (q + 1) * page_size))

pub Start-Window :
    (f : ℕ) (l : Log) → Start f l → Window f f (record { log = l; waiting = λ p. none })
unfolding make
Start-Window f l s =
    let small = s.last in
    record {
      flushed = ap (λ a. a.control) s.flushed ∙ omega arith;
      read_only = ap (λ a. a.control) s.read_only ∙ omega arith;
      two = s.pages;
      first = s.first;
      order = omega arith;
      window = omega arith;
      last = s.last;
      waits = λ p. inl refl;
      done = λ p le lt. absurd (omega arith);
      slots = s.slots;
    }

-- A page of the window, from what its write does.
pub Window-page :
    (f r : ℕ) (s : Flushing)
    → Window f r s
    → (p : ℕ) → f ≤ p
    → p < r
    → (page_last s.log p ≡ 0) ⊎ (page_last s.log p ≡ (p + 1) * page_size)
Window-page f r s inv p le lt = elim (inv.waits p) [
  | inl none_waits ↦ inr (inv.done p le lt none_waits)
  | inr (_, _, _, zero_at) ↦ inl zero_at
]

-- The page after the window keeps an older address.
pub top_page : (f r : ℕ) (s : Flushing) → Window f r s → page_last s.log r < r * page_size
top_page f r s inv =
    let pos = inv.first in
    let le = inv.order in
    elim (inv.slots (r % s.log.buffer_size)) [
      | inl zero_at ↦ omega arith
      | inr (q, lt, same, at) ↦ elim (Bool-cases (ltb r (q + s.log.buffer_size))) [
        | inl near ↦ absurd (slots_differ q r s.log.buffer_size lt (ground arith) same)
        | inr far ↦ let two = inv.two in let older : q + 1 < r = ground arith in omega arith
      ]
    ]

-- What keeps the window.
pub record Kept (l m : Log) : Type 0 where
  pub buffer_size : m.buffer_size ≡ l.buffer_size
  pub flushed_until_address : m.flushed_until_address ≡ l.flushed_until_address
  pub safe_read_only_address : m.safe_read_only_address ≡ l.safe_read_only_address
  pub slot : (i : ℕ) → slot_last m i ≡ slot_last l i

pub Kept-refl : (l : Log) → Kept l l
Kept-refl l = record {
  buffer_size = refl;
  flushed_until_address = refl;
  safe_read_only_address = refl;
  slot = λ i. refl;
}

pub Kept-trans : {l m n : Log} → Kept l m → Kept m n → Kept l n
Kept-trans k h = record {
  buffer_size = h.buffer_size ∙ k.buffer_size;
  flushed_until_address = h.flushed_until_address ∙ k.flushed_until_address;
  safe_read_only_address = h.safe_read_only_address ∙ k.safe_read_only_address;
  slot = λ i. h.slot i ∙ k.slot i;
}

pub put_status-Kept :
    (p : ℕ) (l : Log) (s : PageStatus)
    → s.last_flushed_until.control ≡ page_last l p
    → Kept l (put_status p s l)
unfolding put_status
put_status-Kept p l s e = record {
  buffer_size = refl;
  flushed_until_address = refl;
  safe_read_only_address = refl;
  slot = λ i. elim (Bool-cases (i == p % l.buffer_size)) [
    | inl here ↦
        let at : i ≡ p % l.buffer_size = ground arith in
        ap (slot_last (put_status p s l)) at ∙ put_status-here p l s ∙ e ∙ ap (slot_last l) (sym at)
    | inr other ↦ put_status-other p l s i (ground arith)
  ];
}

pub reopen-Kept : (b : Bool) (p : ℕ) (l : Log) → Kept l (reopen b p l).1
unfolding reopen status_at
reopen-Kept false p l = Kept-refl l
reopen-Kept true p l = put_status-Kept p l _ refl

close_pages-Kept : (n p : ℕ) (l : Log) → Kept l (close_pages n p l).1
unfolding close_pages status_at
close_pages-Kept zero p l = Kept-refl l
close_pages-Kept (suc n) p l =
    Kept-trans (put_status-Kept p l _ refl)
      (Kept-trans (reopen-Kept _ p _) (close_pages-Kept n (p + 1) _))

pub on_pages_closed-Kept : (a : Address) (l : Log) → Kept l (on_pages_closed a l).1
unfolding on_pages_closed monotonic_update
on_pages_closed-Kept a l = elim (Bool-cases (lt l.safe_head_address a)) [
  | inr not_moved ↦ rw not_moved (Kept-refl l)
  | inl moved ↦ rw moved (
      Kept-trans
        (record {
          buffer_size = refl;
          flushed_until_address = refl;
          safe_read_only_address = refl;
          slot = λ i. refl;
        })
        (close_pages-Kept _ _ (record l { safe_head_address = a })))
]

pub page_last-Kept : {l m : Log} → Kept l m → (p : ℕ) → page_last m p ≡ page_last l p
page_last-Kept {l} {m} k p =
    k.slot (p % m.buffer_size) ∙ ap (λ b. slot_last l (p % b)) k.buffer_size

pub Kept-Window :
    {l m : Log} {f r : ℕ} {waiting : ℕ → Option Write}
    → Kept l m
    → Window f r (record { log = l; waiting = waiting })
    → Window f r (record { log = m; waiting = waiting })
Kept-Window k v = record {
  flushed = ap (λ a. a.control) k.flushed_until_address ∙ v.flushed;
  read_only = ap (λ a. a.control) k.safe_read_only_address ∙ v.read_only;
  two = rw k.buffer_size v.two;
  first = v.first;
  order = v.order;
  window = rw k.buffer_size v.window;
  last = v.last;
  waits = λ p. elim (v.waits p) [
    | inl none_waits ↦ inl none_waits
    | inr (from, to, write, zero_at) ↦ inr (from, to, write, page_last-Kept k p ∙ zero_at)
  ];
  done = λ p from to none_waits. page_last-Kept k p ∙ v.done p from to none_waits;
  slots = λ i. elim (v.slots i) [
    | inl zero_at ↦ inl (k.slot i ∙ zero_at)
    | inr (q, lt, same, at) ↦ inr (q, lt, ap (λ b. q % b) k.buffer_size ∙ same, k.slot i ∙ at)
  ];
}
