-- ===== src/Log/Ended.antt =====
-- core/persistent_memory_malloc.h: the state after the callback of a write, before ShiftFlushedUntilAddress.
use fish_store.Base.{
  ℕ, ◌+◌, ◌*◌, ◌%◌, ◌<◌, ◌≤◌, ◌≡◌, ◌≢◌, inl, inr, refl, sym, ap, ◌∙◌, false, ltb, ◌==◌, Bool-cases,
  arith,
}
use fish_store.Log.{Log, page_size, status_at}
use fish_store.Log.Shift.{slots_differ}
use fish_store.Log.Flush.{Write, put_status, end_page_flush, reopen, is_closed}
use fish_store.Log.Issued.{slot_last, page_last, put_status-here, put_status-other, Same}
use fish_store.Log.Flushing.{Flushing, drop_write}
use fish_store.Log.Window.{Window, reopen-Kept}

-- The log after the callback has stored the page's address.
abbrev pub ended : Write → Log → Log
ended w l = (reopen (is_closed (status_at l w.page).status.close) w.page (end_page_flush w l)).1

pub ended-here :
    (w : Write) (l : Log) → slot_last (ended w l) (w.page % l.buffer_size) ≡ w.until_address.control
unfolding end_page_flush
ended-here w l =
    (reopen-Kept _ w.page (end_page_flush w l)).slot (w.page % l.buffer_size)
    ∙ put_status-here w.page l _

pub ended-other :
    (w : Write) (l : Log) (i : ℕ)
    → i ≢ w.page % l.buffer_size
    → slot_last (ended w l) i ≡ slot_last l i
unfolding end_page_flush
ended-other w l i ne =
    (reopen-Kept _ w.page (end_page_flush w l)).slot i ∙ put_status-other w.page l _ i ne

-- The rest stays.
pub ended-Same : (w : Write) (l : Log) → Same l (ended w l)
unfolding end_page_flush put_status
ended-Same w l =
    let kept =
      reopen-Kept (is_closed (status_at l w.page).status.close) w.page (end_page_flush w l) in
    record {
      buffer_size = kept.buffer_size;
      flushed_until_address = kept.flushed_until_address;
      safe_read_only_address = kept.safe_read_only_address;
    }

not_same : {a b : ℕ} → (a == b) ≡ false → a ≢ b
not_same e same = ground arith

module _ (f r p : ℕ) (s : Flushing) (v : Window f r s) (w : Write) (from_p : f ≤ p) (to_p : p < r)
    (at_p : w.page ≡ p) (until_p : w.until_address.control ≡ (p + 1) * page_size) where
  abbrev pub after : Flushing
  after = record { log = ended w s.log; waiting = drop_write p s.waiting }

  same : Same s.log after.log
  same = ended-Same w s.log

  slot_of : (q : ℕ) → page_last after.log q ≡ slot_last after.log (q % s.log.buffer_size)
  slot_of q = ap (λ b. slot_last after.log (q % b)) same.buffer_size

  slot_here : slot_last after.log (p % s.log.buffer_size) ≡ (p + 1) * page_size
  slot_here =
      ap (λ x. slot_last after.log (x % s.log.buffer_size)) (sym at_p)
      ∙ ended-here w s.log
      ∙ until_p

  here : page_last after.log p ≡ (p + 1) * page_size
  here = slot_of p ∙ slot_here

  stays : (q : ℕ) → (q == p) ≡ false → drop_write p s.waiting q ≡ s.waiting q
  stays q e = rw e refl

  other : (q : ℕ) → f ≤ q → q < r → q ≢ p → page_last after.log q ≡ page_last s.log q
  other q from to ne =
      let near = v.window in
      slot_of q
      ∙ ended-other w s.log (q % s.log.buffer_size) (λ e. elim (Bool-cases (ltb q p)) [
        | inl below ↦
            slots_differ q p s.log.buffer_size (ground arith) (omega arith)
              (e ∙ ap (λ x. x % s.log.buffer_size) at_p)
        | inr above ↦
            slots_differ p q s.log.buffer_size (ground arith) (omega arith)
              (sym (e ∙ ap (λ x. x % s.log.buffer_size) at_p))
      ])

  pub after-Window : Window f r after
  after-Window = record {
    flushed = ap (λ a. a.control) same.flushed_until_address ∙ v.flushed;
    read_only = ap (λ a. a.control) same.safe_read_only_address ∙ v.read_only;
    two = rw same.buffer_size v.two;
    first = v.first;
    order = v.order;
    window = rw same.buffer_size v.window;
    last = v.last;
    waits = λ q. elim (Bool-cases (q == p)) [
      | inl dropped ↦ inl (rw dropped refl)
      | inr apart ↦ elim (v.waits q) [
        | inl none_waits ↦ inl (stays q apart ∙ none_waits)
        | inr (from, to, (w', there, at, until), zero_at) ↦ inr (
          from,
          to,
          (w', stays q apart ∙ there, at, until),
          other q from to (ground arith) ∙ zero_at,
        )
      ]
    ];
    done = λ q from to none_waits. elim (Bool-cases (q == p)) [
      | inl dropped ↦ let e : q ≡ p = ground arith in rw e here
      | inr apart ↦
          other q from to (ground arith) ∙ v.done q from to (sym (stays q apart) ∙ none_waits)
    ];
    slots = λ i. elim (Bool-cases (i == p % s.log.buffer_size)) [
      | inl at_slot ↦
          let e : i ≡ p % s.log.buffer_size = ground arith in
          inr (
            p,
            to_p,
            ap (λ b. p % b) same.buffer_size ∙ sym e,
            ap (slot_last after.log) e ∙ slot_here,
          )
      | inr apart ↦
          let kept =
            ended-other w s.log i
              (λ e. absurd (not_same apart (e ∙ ap (λ x. x % s.log.buffer_size) at_p))) in
          elim (v.slots i) [
            | inl zero_at ↦ inl (kept ∙ zero_at)
            | inr (q, below, at, last) ↦
                inr (q, below, ap (λ b. q % b) same.buffer_size ∙ at, kept ∙ last)
          ]
    ];
  }
