-- ===== src/Log/Marked.antt =====
-- core/persistent_memory_malloc.h: the pages that `OnPagesMarkedReadOnly` adds to those that are being flushed.
use fish_store.Base.{
  ℕ, zero, suc, ◌+◌, ◌*◌, ◌-◌, ◌%◌, ◌<◌, ◌≤◌, ◌≡◌, ◌≢◌, ◌⊎◌, inl, inr, refl, sym, ap, ◌∙◌, true,
  false, ltb, leb, ◌&&◌, ◌==◌, Bool-cases, Option, none, some, none-some, [], arith,
}
use fish_store.Address.{Address, max_page, page, offset, make, lt, min_address}
use fish_store.Log.{Log, page_size, monotonic_update}
use fish_store.Log.Shift.{slots_differ}
use fish_store.Log.Flush.{
  Write, begin_page_flush, page_write, num_pages, flush_pages, async_flush_pages,
  on_pages_marked_read_only,
}
use fish_store.Log.Issued.{
  slot_last, page_last, takes_all, Same, flush_pages-Same, flush_pages-slot, flush_pages-kept,
  flush_pages-reset,
}
use fish_store.Log.Flushing.{Flushing, enlist}
use fish_store.Log.Window.{Window}

pub page_at :
    (e : ℕ)
    → e ≤ max_page
    → (page (make e 0) ≡ e) × ((make e 0).control ≡ e * page_size) × (offset (make e 0) ≡ 0)
unfolding page make offset
page_at e le = omega arith

pub page_write-until :
    (q e : ℕ)
    → q < e
    → e ≤ max_page
    → (page_write q (make e 0)).until_address.control ≡ (q + 1) * page_size
unfolding page_write make min_address lt
page_write-until q e lt le = ground arith

page_write-page : (q : ℕ) (until : Address) → (page_write q until).page ≡ q
unfolding page_write
page_write-page q until = refl

-- The writes wait, and no others come.
pub enlist-here :
    (n p : ℕ) (until : Address) (l : Log) (waiting : ℕ → Option Write) (q : ℕ)
    → p ≤ q
    → q < p + n
    → enlist (flush_pages takes_all n p until l).1 waiting q ≡ some (page_write q until)
unfolding flush_pages page_write
enlist-here zero p until l waiting q le lt' = absurd (omega arith)
enlist-here (suc n) p until l waiting q le lt' = elim (Bool-cases (q == p)) [
  | inl here ↦
      let at : q ≡ p = ground arith in rw here (ap (λ x. some (page_write x until)) (sym at))
  | inr other ↦
      rw other
        (enlist-here n (p + 1) until (begin_page_flush p l) waiting q (ground arith) (omega arith))
]

enlist-other :
    (n p : ℕ) (until : Address) (l : Log) (waiting : ℕ → Option Write) (q : ℕ)
    → (q < p) ⊎ (p + n ≤ q)
    → enlist (flush_pages takes_all n p until l).1 waiting q ≡ waiting q
unfolding flush_pages page_write
enlist-other zero p until l waiting q out = refl
enlist-other (suc n) p until l waiting q out =
    let other : (q == p) ≡ false = ground arith in
    rw other (enlist-other n (p + 1) until (begin_page_flush p l) waiting q (ground arith))

pub updates : (a b : Address) → a.control < b.control → monotonic_update a b ≡ (true, b)
unfolding monotonic_update lt
updates a b below = let yes_lt : ltb a.control b.control ≡ true = ground arith in rw yes_lt refl

pub from_page : (a : Address) (r : ℕ) → a.control ≡ r * page_size → r ≤ max_page → page a ≡ r
unfolding page
from_page a r e le = omega arith

whole_pages : (r e : ℕ) → r < e → e ≤ max_page → num_pages r (make e 0) ≡ e - r
unfolding num_pages page make offset
whole_pages r e below le = ground arith

-- `OnPagesMarkedReadOnly` for pages that are whole.
pub marks :
    (l : Log) (r e : ℕ)
    → l.safe_read_only_address.control ≡ r * page_size
    → r < e
    → e ≤ max_page
    → on_pages_marked_read_only takes_all (make e 0) l ≡ (
      (flush_pages takes_all
          (e - r)
          r
          (make e 0)
          (record l { safe_read_only_address = make e 0 })).1,
      (flush_pages takes_all
          (e - r)
          r
          (make e 0)
          (record l { safe_read_only_address = make e 0 })).2,
    )
unfolding on_pages_marked_read_only async_flush_pages
marks l r e at below le =
    let (_, control_e, _) = page_at e le in
    let page_r : page l.safe_read_only_address ≡ r =
      from_page l.safe_read_only_address r at (omega arith) in
    rw (updates l.safe_read_only_address (make e 0) (omega arith), page_r, whole_pages r e below le)
      refl

pub marks_nothing :
    (l : Log) (r e : ℕ)
    → l.safe_read_only_address.control ≡ r * page_size
    → e ≤ r
    → e ≤ max_page
    → on_pages_marked_read_only takes_all (make e 0) l ≡ ([], l)
unfolding on_pages_marked_read_only async_flush_pages monotonic_update lt
marks_nothing l r e at le le' =
    let (_, control_e, _) = page_at e le' in
    let stays : ltb l.safe_read_only_address.control (make e 0).control ≡ false = ground arith in
    rw stays refl

abbrev pub moved : ℕ → Log → Log
moved e l = record l { safe_read_only_address = make e 0 }

-- The same where the flush is known to go from `r` to `e`.
abbrev pub flushing : ℕ → ℕ → Flushing → Flushing
flushing r e s = record {
  log = (flush_pages takes_all (e - r) r (make e 0) (moved e s.log)).2;
  waiting = enlist (flush_pages takes_all (e - r) r (make e 0) (moved e s.log)).1 s.waiting;
}

module _ (f r e : ℕ) (s : Flushing) (v : Window f r s) (more : r < e)
    (near : e ≤ f + s.log.buffer_size) (small : e ≤ max_page) where
  same_rest : Same (moved e s.log) (flushing r e s).log
  same_rest = flush_pages-Same (e - r) r (make e 0) (moved e s.log)

  slot_of :
      (p : ℕ)
      → page_last (flushing r e s).log p ≡ slot_last (flushing r e s).log (p % s.log.buffer_size)
  slot_of p = ap (λ b. slot_last (flushing r e s).log (p % b)) same_rest.buffer_size

  -- A page of the old window keeps its slot.
  old_slot : (p : ℕ) → f ≤ p → p < r → page_last (flushing r e s).log p ≡ page_last s.log p
  old_slot p from to =
      slot_of p
      ∙ flush_pages-kept (e - r) r (make e 0) (moved e s.log) (p % s.log.buffer_size)
          (λ q le lt'. slots_differ p q s.log.buffer_size (omega arith) (omega arith))

  new_slot : (p : ℕ) → r ≤ p → p < e → page_last (flushing r e s).log p ≡ 0
  new_slot p from to =
      slot_of p ∙ flush_pages-reset (e - r) r (make e 0) (moved e s.log) p from (omega arith)

  old_waiting : (p : ℕ) → (p < r) ⊎ (e ≤ p) → (flushing r e s).waiting p ≡ s.waiting p
  old_waiting p out = enlist-other (e - r) r (make e 0) (moved e s.log) s.waiting p (ground arith)

  new_waiting :
      (p : ℕ) → r ≤ p → p < e → (flushing r e s).waiting p ≡ some (page_write p (make e 0))
  new_waiting p from to =
      enlist-here (e - r) r (make e 0) (moved e s.log) s.waiting p from (omega arith)

  abbrev Waits : ℕ → Type 0
  Waits p =
      ((flushing r e s).waiting p ≡ none)
      ⊎ ((f ≤ p)
          × (p < e)
          × ((w : Write) × ((flushing r e s).waiting p ≡ some w)
              × (w.page ≡ p)
              × (w.until_address.control ≡ (p + 1) * page_size))
          × (page_last (flushing r e s).log p ≡ 0))

  kept_wait : (p : ℕ) → (p < r) ⊎ (e ≤ p) → Waits p
  kept_wait p out = elim (v.waits p) [
    | inl none_waits ↦ inl (old_waiting p out ∙ none_waits)
    | inr (from, to, (w, there, at, until), zero_at) ↦
        inr (
          from,
          omega arith,
          (w, old_waiting p out ∙ there, at, until),
          old_slot p from to ∙ zero_at,
        )
  ]

  new_wait : (p : ℕ) → r ≤ p → p < e → Waits p
  new_wait p from to =
      let order = v.order in
      inr (
        omega arith,
        to,
        (
          page_write p (make e 0),
          new_waiting p from to,
          page_write-page p (make e 0),
          page_write-until p e to small,
        ),
        new_slot p from to,
      )

  pub flushing-Window : Window f e (flushing r e s)
  flushing-Window =
      let order = v.order in
      record {
        flushed = ap (λ a. a.control) same_rest.flushed_until_address ∙ v.flushed;
        read_only = ap (λ a. a.control) same_rest.safe_read_only_address ∙ (page_at e small).1;
        two = rw same_rest.buffer_size v.two;
        first = v.first;
        order = omega arith;
        window = rw same_rest.buffer_size near;
        last = small;
        waits = λ p. elim (Bool-cases (leb r p && ltb p e)) [
          | inl inside ↦ new_wait p (ground arith) (ground arith)
          | inr outside ↦ kept_wait p (ground arith)
        ];
        done = λ p from to none_waits. elim (Bool-cases (ltb p r)) [
          | inl old ↦
              let below : p < r = ground arith in
              old_slot p from below
              ∙ v.done p from below (sym (old_waiting p (inl below)) ∙ none_waits)
          | inr new ↦ absurd (none-some (sym none_waits ∙ new_waiting p (ground arith) to))
        ];
        slots = λ i. elim (flush_pages-slot (e - r) r (make e 0) (moved e s.log) i) [
          | inl reset ↦ inl reset
          | inr kept ↦ elim (v.slots i) [
            | inl zero_at ↦ inl (kept ∙ zero_at)
            | inr (q, below, at, last) ↦
                inr (q, omega arith, ap (λ b. q % b) same_rest.buffer_size ∙ at, kept ∙ last)
          ]
        ];
      }

  pub flushing-stops : (f < r → s.waiting f ≢ none) → f < e → (flushing r e s).waiting f ≢ none
  flushing-stops stops below none_waits = elim (Bool-cases (ltb f r)) [
    | inl old ↦
        let lower : f < r = ground arith in
        stops lower (sym (old_waiting f (inl lower)) ∙ none_waits)
    | inr new ↦
        let order = v.order in
        absurd (none-some (sym none_waits ∙ new_waiting f (ground arith) below))
  ]
