-- ===== src/Log/Flushed.antt =====
-- core/persistent_memory_malloc.h: the address up to which the log is on disk.
use fish_store.Base.{
  ℕ, ◌+◌, ◌*◌, ◌%◌, ◌<◌, ◌≤◌, ◌≡◌, ◌≢◌, inl, inr, sym, ap, ◌∙◌, ltb, Bool-cases, Option, none, some,
  none-some, some-injective, List, arith,
}
use mathlib.Core.Path.{subst}
use fish_store.Address.{page}
use fish_store.Log.{Log, PageStatus, page_size}
use fish_store.Log.Flush.{Write, flush_callback, with_cleared}
use fish_store.Log.Issued.{slot_last, page_last}
use fish_store.Log.Rounds.{Shifted, shift_flushed_until_address-Shifted}
use fish_store.Log.Flushing.{Flushing, Step, Reach, drop_write}
use fish_store.Log.Window.{
  Window, Start-Window, Window-page, top_page, Kept-Window, on_pages_closed-Kept,
}
use fish_store.Log.Marked.{marks, marks_nothing, flushing-Window, flushing-stops, from_page}
use fish_store.Log.Ended.{ended, after, after-Window}

-- The pages that are being flushed once the address was shifted; its page waits.
record Inv (s : Flushing) : Type 0 where
  from : ℕ
  to : ℕ
  window : Window from to s
  stops : from < to → s.waiting from ≢ none

shifted-Inv :
    (f r : ℕ) (s : Flushing) (o : Option Log)
    → Window f r s
    → (h : Shifted s.log r f o) → Inv (record { log = h.log; waiting = s.waiting })
shifted-Inv f r s o v h =
    let up = h.from in
    let first = v.first in
    let near = v.window in
    record {
      from = h.at;
      to = r;
      window = record {
        flushed = h.flushed;
        read_only = ap (λ a. a.control) h.safe_read_only_address ∙ v.read_only;
        two = rw h.buffer_size v.two;
        first = omega arith;
        order = h.to;
        window = rw h.buffer_size (omega arith);
        last = v.last;
        waits = λ q. elim (v.waits q) [
          | inl none_waits ↦ inl none_waits
          | inr (from, to, write, zero_at) ↦ elim (Bool-cases (ltb q h.at)) [
            | inl passed ↦ let full = h.passed q from (ground arith) in absurd (omega arith)
            | inr ahead ↦ inr (ground arith, to, write, last_same q ∙ zero_at)
          ]
        ];
        done = λ q from to none_waits. last_same q ∙ v.done q (omega arith) to none_waits;
        slots = λ i. elim (v.slots i) [
          | inl zero_at ↦ inl (slot_same i ∙ zero_at)
          | inr (q, below, at, last) ↦
              inr (q, below, ap (λ b. q % b) h.buffer_size ∙ at, slot_same i ∙ last)
        ];
      };
      stops = λ below none_waits.
          let full = v.done h.at up below none_waits in
          let zero_at = h.stopped below in absurd (omega arith);
    }
  where
    slot_same : (i : ℕ) → slot_last h.log i ≡ slot_last s.log i
    slot_same i = ap (λ (g : ℕ → PageStatus). (g i).last_flushed_until.control) h.page_status

    last_same : (q : ℕ) → page_last h.log q ≡ page_last s.log q
    last_same q =
        slot_same (q % h.log.buffer_size) ∙ ap (λ b. slot_last s.log (q % b)) h.buffer_size

-- With more rounds than the buffer has pages the callback returns.
callback :
    (f r p rounds : ℕ) (s : Flushing) (w : Write)
    → Window f r s
    → s.log.buffer_size < rounds
    → s.waiting p ≡ some w
    → (cleared : List ℕ) × (l : Log) × (flush_callback rounds w s.log ≡ some (cleared, l))
      × Inv (record { log = l; waiting = drop_write p s.waiting })
unfolding flush_callback
callback f r p rounds s w v enough there = elim (v.waits p) [
  | inl none_waits ↦ absurd (none-some (sym none_waits ∙ there))
  | inr (from, to, (w', there', at, until), zero_at) ↦
      let same_write : w' ≡ w = some-injective (sym there' ∙ there) in
      let at_w : w.page ≡ p = ap (λ (x : Write). x.page) (sym same_write) ∙ at in
      let until_w : w.until_address.control ≡ (p + 1) * page_size =
        ap (λ (x : Write). x.until_address.control) (sym same_write) ∙ until in
      let v' = after-Window f r p s v w from to at_w until_w in
      let near = v.window in
      let h =
        shift_flushed_until_address-Shifted (ended w s.log) r f v'.flushed rounds v.first v.order
          (omega arith) v.last (Window-page f r (after f r p s v w from to at_w until_w) v')
          (top_page f r (after f r p s v w from to at_w until_w) v') in
      (
        _,
        h.log,
        ap (with_cleared _) h.result,
        shifted-Inv f r (after f r p s v w from to at_w until_w) _ v' h,
      )
]

second :
    {a b : List ℕ} {l m : Log} → ◌≡◌ {A = Option (List ℕ × Log)} (some (a, l)) (some (b, m)) → l ≡ m
second e = ap (λ (x : List ℕ × Log). x.1) (some-injective e)

Step-Inv : {s t : Flushing} → Step s t → Inv s → Inv t
Step-Inv {s} (Step.mark_read_only e near small) inv =
    let v = inv.window in
    let page_f =
      from_page s.log.flushed_until_address inv.from v.flushed (omega (arith, v.order, v.last)) in
    elim (Bool-cases (ltb inv.to e)) [
      | inl more ↦
          let lt' : inv.to < e = ground arith in
          let near' : e ≤ inv.from + s.log.buffer_size = omega arith in
          rw (marks s.log inv.to e v.read_only lt' small) (record {
            from = inv.from;
            to = e;
            window = flushing-Window inv.from inv.to e s v lt' near' small;
            stops = flushing-stops inv.from inv.to e s v lt' near' small inv.stops;
          })
      | inr not_more ↦
          rw (marks_nothing s.log inv.to e v.read_only (ground arith) small)
            (record { from = inv.from; to = inv.to; window = v; stops = inv.stops })
    ]
Step-Inv {s} (Step.end_flush p rounds w cleared l enough there result) inv =
    let (cleared', l', result', inv') =
      callback inv.from inv.to p rounds s w inv.window enough there in
    subst (λ x. Inv (record { log = x; waiting = drop_write p s.waiting }))
      (second (sym result' ∙ result)) inv'
Step-Inv {s} (Step.close a below) inv = record {
  from = inv.from;
  to = inv.to;
  window = Kept-Window (on_pages_closed-Kept a s.log) inv.window;
  stops = inv.stops;
}

Reach-Inv : {s : Flushing} → Reach s → Inv s
Reach-Inv (Reach.start f l h) = record {
  from = f;
  to = f;
  window = Start-Window f l h;
  stops = λ lt. absurd (omega arith);
}
Reach-Inv (Reach.next r st) = Step-Inv st (Reach-Inv r)

-- From a log that is flushed up to the start of a page that is not the first one, and in any sequence of flushes of whole pages,
-- no more than the buffer has beyond that address and whose writes the disk accepts, of callbacks in any order and of
-- closings: a page below `flushed_until_address` has no write whose callback has not run.
pub flushed_until-done :
    {s : Flushing} (p : ℕ) → Reach s → p < page s.log.flushed_until_address → s.waiting p ≡ none
flushed_until-done {s} p reach below =
    let inv = Reach-Inv reach in
    let v = inv.window in
    let page_f =
      from_page s.log.flushed_until_address inv.from v.flushed (omega (arith, v.order, v.last)) in
    elim (v.waits p) [ inl none_waits ↦ none_waits | inr (from, _, _, _) ↦ absurd (omega arith) ]

-- In such a sequence (from the start of a page that is not the first one; whole pages; accepted writes), with more rounds than
-- the buffer has pages: the callback of a write that waits returns, and what it
-- leaves is again a state of such a sequence.
pub flush_callback-ends :
    {s : Flushing} (p rounds : ℕ) (w : Write)
    → Reach s
    → s.log.buffer_size < rounds
    → s.waiting p ≡ some w
    → (cleared : List ℕ) × (l : Log) × (flush_callback rounds w s.log ≡ some (cleared, l))
      × Reach (record { log = l; waiting = drop_write p s.waiting })
flush_callback-ends {s} p rounds w reach enough there =
    let inv = Reach-Inv reach in
    let (cleared, l, result, _) = callback inv.from inv.to p rounds s w inv.window enough there in
    (cleared, l, result, Reach.next reach (Step.end_flush p rounds w cleared l enough there result))

-- In such a sequence (from the start of a page that is not the first one; whole pages; accepted writes), when the callback of each
-- write has run, with whatever result: the flushed address has come up to the address up to which pages were marked
-- read-only.
pub flushed_until-all :
    {s : Flushing}
    → Reach s
    → ((q : ℕ) → s.waiting q ≡ none)
    → s.log.flushed_until_address.control ≡ s.log.safe_read_only_address.control
flushed_until-all {s} reach all =
    let inv = Reach-Inv reach in
    let v = inv.window in
    elim (Bool-cases (ltb inv.from inv.to)) [
      | inl some_left ↦ absurd (inv.stops (ground arith) (all inv.from))
      | inr none_left ↦
          let order = v.order in
          let e : inv.from ≡ inv.to = ground arith in
          v.flushed ∙ ap (λ x. x * page_size) e ∙ sym v.read_only
    ]
