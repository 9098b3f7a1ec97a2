-- ===== src/Log/Page.antt =====
-- core/persistent_memory_malloc.h: the life of a buffer page, between the callback of its flush in
-- `AsyncFlushPages` and the closing of the page in `OnPagesClosed`.
use fish_store.Base.{ℕ, ◌+◌, ◌≡◌, ◌≢◌, ◌⊎◌, refl, true, arith, inl, inr}
use fish_store.Log.{Status, FlushStatus, CloseStatus, ready}

-- What a compare-exchange loop on the status sets; each loop writes one half and keeps the other.
unfoldable pub begin_flush : Status → Status
begin_flush s = record s { flush = FlushStatus.in_progress }

unfoldable pub end_flush : Status → Status
end_flush s = record s { flush = FlushStatus.flushed }

unfoldable pub close_page : Status → Status
close_page s = record s { close = CloseStatus.closed }

abbrev pub reopened : Status
reopened = record { flush = FlushStatus.flushed; close = CloseStatus.is_open }

-- Where the flush callback, or `OnPagesClosed`, stands: it has not updated the status; it is
-- responsible for clearing and reopening the page; it has cleared it; it has nothing left to do.
pub data Pc : Type 0 where
  waits clears reopens ends : Pc

pub record Page : Type 0 where
  pub status : Status
  pub flusher : Pc
  pub closer : Pc
  -- how often the page was cleared
  pub cleared : ℕ

-- The loop of the callback, and of `OnPagesClosed`: the status that was replaced decides who clears.
unfoldable pub after_flush : CloseStatus → Pc
after_flush CloseStatus.closed = Pc.clears
after_flush CloseStatus.is_open = Pc.ends

unfoldable pub after_close : FlushStatus → Pc
after_close FlushStatus.flushed = Pc.clears
after_close FlushStatus.in_progress = Pc.ends

pub data Step (p : Page) : Page → Type 0 where
  flush_done :
      p.flusher ≡ Pc.waits
      → Step p (record p { status = end_flush p.status; flusher = after_flush p.status.close })
  flush_clear :
      p.flusher ≡ Pc.clears → Step p (record p { flusher = Pc.reopens; cleared = p.cleared + 1 })
  flush_reopen : p.flusher ≡ Pc.reopens → Step p (record p { flusher = Pc.ends; status = reopened })
  close_done :
      p.closer ≡ Pc.waits
      → Step p (record p { status = close_page p.status; closer = after_close p.status.flush })
  close_clear :
      p.closer ≡ Pc.clears → Step p (record p { closer = Pc.reopens; cleared = p.cleared + 1 })
  close_reopen : p.closer ≡ Pc.reopens → Step p (record p { closer = Pc.ends; status = reopened })

-- An open page whose flush was issued.
abbrev pub issued : Page
issued = record {
  status = begin_flush reopened;
  flusher = Pc.waits;
  closer = Pc.waits;
  cleared = 0;
}

pub data Reach : Page → Type 0 where
  start : Reach issued
  next : {p q : Page} → Reach p → Step p q → Reach q

-- The reachable combinations of the two, with the status and the count.
abbrev Inv : Page → Type 0
Inv p = at p.flusher p.closer p.status p.cleared
  where
    at : Pc → Pc → Status → ℕ → Type 0
    at Pc.waits Pc.waits s c =
        (s.flush ≡ FlushStatus.in_progress) × (s.close ≡ CloseStatus.is_open) × (c ≡ 0)
    at Pc.waits Pc.ends s c =
        (s.flush ≡ FlushStatus.in_progress) × (s.close ≡ CloseStatus.closed) × (c ≡ 0)
    at Pc.ends Pc.waits s c =
        (s.flush ≡ FlushStatus.flushed) × (s.close ≡ CloseStatus.is_open) × (c ≡ 0)
    at Pc.clears Pc.ends s c =
        (s.flush ≡ FlushStatus.flushed) × (s.close ≡ CloseStatus.closed) × (c ≡ 0)
    at Pc.ends Pc.clears s c =
        (s.flush ≡ FlushStatus.flushed) × (s.close ≡ CloseStatus.closed) × (c ≡ 0)
    at Pc.reopens Pc.ends s c =
        (s.flush ≡ FlushStatus.flushed) × (s.close ≡ CloseStatus.closed) × (c ≡ 1)
    at Pc.ends Pc.reopens s c =
        (s.flush ≡ FlushStatus.flushed) × (s.close ≡ CloseStatus.closed) × (c ≡ 1)
    at Pc.ends Pc.ends s c =
        (s.flush ≡ FlushStatus.flushed) × (s.close ≡ CloseStatus.is_open) × (c ≡ 1)
    at _ _ s c = ⊥

Step-Inv : {p q : Page} → Step p q → Inv p → Inv q
unfolding end_flush close_page after_flush after_close
Step-Inv (flush_done e) h = ground arith
Step-Inv (flush_clear e) h = ground arith
Step-Inv (flush_reopen e) h = ground arith
Step-Inv (close_done e) h = ground arith
Step-Inv (close_clear e) h = ground arith
Step-Inv (close_reopen e) h = ground arith

Reach-Inv : {p : Page} → Reach p → Inv p
unfolding begin_flush
Reach-Inv start = (refl, refl, refl)
Reach-Inv (next r st) = Step-Inv st (Reach-Inv r)

-- In any interleaving of the callback of a flush with the closing of the page, the page is cleared at
-- most once, and only after both have updated the status: the page is then on disk and closed.
pub cleared_once :
    {p : Page}
    → Reach p
    → (p.cleared ≡ 0) ⊎ ((p.cleared ≡ 1) × (p.flusher ≢ Pc.waits) × (p.closer ≢ Pc.waits))
cleared_once {p} r = from p.flusher p.closer refl refl (Reach-Inv r)
  where
    from :
        (f c : Pc)
        → p.flusher ≡ f
        → p.closer ≡ c
        → Inv p
        → (p.cleared ≡ 0) ⊎ ((p.cleared ≡ 1) × (p.flusher ≢ Pc.waits) × (p.closer ≢ Pc.waits))
    from Pc.waits Pc.waits e d h = ground arith
    from f c e d h = ground arith

-- When both have come to their end, in whichever order, the page was cleared once and is ready for
-- use; and until then one of them can go on.
pub page_reopened :
    {p : Page}
    → Reach p
    → ((p.flusher ≡ Pc.ends) × (p.closer ≡ Pc.ends) × (p.cleared ≡ 1) × (ready p.status ≡ true))
      ⊎ ((q : Page) × Step p q)
unfolding ready
page_reopened {p} r = from p.flusher p.closer refl refl (Reach-Inv r)
  where
    from :
        (f c : Pc)
        → p.flusher ≡ f
        → p.closer ≡ c
        → Inv p
        → ((p.flusher ≡ Pc.ends) × (p.closer ≡ Pc.ends) × (p.cleared ≡ 1) × (ready p.status ≡ true))
          ⊎ ((q : Page) × Step p q)
    from Pc.waits c e d h = inr (_, flush_done e)
    from Pc.clears c e d h = inr (_, flush_clear e)
    from Pc.reopens c e d h = inr (_, flush_reopen e)
    from Pc.ends Pc.waits e d h = inr (_, close_done d)
    from Pc.ends Pc.clears e d h = inr (_, close_clear d)
    from Pc.ends Pc.reopens e d h = inr (_, close_reopen d)
    from Pc.ends Pc.ends e d h = inl (ground arith)
