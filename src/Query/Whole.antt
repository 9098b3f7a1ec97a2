-- ===== src/Query/Whole.antt =====
-- core/fishstore.h: the full scan against what the pages of the log hold.
use fish_store.Base.{
  ℕ, zero, suc, ◌+◌, ◌-◌, ◌^◌, ◌<◌, ◌≤◌, ◌≡◌, refl, ap, true, false, ◌&&◌, ltb, leb, Option, none,
  some, List, ◌++◌, arith,
}
use mathlib.Core.Path.{subst}
use mathlib.Core.List.{append-nil}
use fish_store.Address.{max_offset, max_page, make, page}
use fish_store.Query.{Memory}
use fish_store.Query.Traced.{select}
use fish_store.Query.Full.{
  hits, scan_records, is_last_page, page_below, scan_pages, full_outcome, scan_to,
  internal_full_scan,
}
use fish_store.Query.Paged.{Laid, scan_records-Laid}

-- The lists of the pages from one downwards, of one page and `n` more.
unfoldable pub collect : ℕ → (ℕ → List ℕ) → ℕ → List ℕ
collect zero f p = f p
collect (suc n) f p = f p ++ collect n f (p - 1)

-- Where the scan in memory stops after a page.
pub data Stops (m : Memory) (heads : ℕ → ℕ) (start q : ℕ) : Option ℕ → Type 0 where
  finished : is_last_page m start q ≡ true → Stops m heads start q none
  on_disk :
      is_last_page m start q ≡ false
      → 0 < q
      → q - 1 < heads (q - 1)
      → Stops m heads start q (some (q - 1))

page_end : (p : ℕ) → p ≤ max_page → (make p max_offset).control < (make p 0).control + 2 ^ 25
unfolding make
page_end p le = omega arith

pub below_is : (p : ℕ) → 0 < p → p ≤ max_page → page_below p ≡ p - 1
unfolding page_below
below_is p pos le = omega arith

last_page :
    (words rounds : ℕ) (m : Memory) (heads : ℕ → ℕ) (start p to : ℕ) (records : List ℕ)
    (next : Option ℕ)
    → p ≤ max_page
    → heads p ≤ p
    → scan_records words m start to (make p 0).control ≡ some records
    → Stops m heads start p next
    → scan_pages words (suc (suc rounds)) m heads start p to ≡ some (records, next)
unfolding scan_pages
last_page words rounds m heads start p to records next le in_memory scanned (Stops.finished last) =
    let within : ltb p (heads p) ≡ false = ground arith in rw (within, scanned, last) refl
last_page words rounds m heads start p to records next le in_memory scanned
      (Stops.on_disk more pos out) =
    let within : ltb p (heads p) ≡ false = ground arith in
    let outside : ltb (p - 1) (heads (p - 1)) ≡ true = ground arith in
    rw (within, scanned, more, below_is p pos le, outside)
      (ap (λ xs. some (xs, some (p - 1))) (append-nil records))

module _ (m : Memory) (heads : ℕ → ℕ) (start : ℕ) (records : ℕ → List ℕ) where
  scan_pages-collect :
      (words rounds n p to : ℕ) (next : Option ℕ)
      → p ≤ max_page
      → n ≤ p
      → n < rounds
      → to < (make p 0).control + words
      → 2 ^ 25 ≤ words
      → Laid m to (make p 0).control (records p)
      → ((x : ℕ)
          → x < p
          → p ≤ x + n
          → Laid m (make x max_offset).control (make x 0).control (records x))
      → ((x : ℕ) → x ≤ p → p ≤ x + n → heads x ≤ x)
      → ((x : ℕ) → x ≤ p → p < x + n → is_last_page m start x ≡ false)
      → Stops m heads start (p - n) next
      → scan_pages (suc words) (suc rounds) m heads start p to
        ≡ some (collect n (λ x. select (λ r. leb start r && hits m r) (records x)) p, next)
  unfolding collect scan_pages
  scan_pages-collect words zero n p to next le n_le enough room large top lower in_memory passes
        stops =
      absurd (omega arith)
  scan_pages-collect words (suc rounds) zero p to next le n_le enough room large top lower in_memory
        passes stops =
      let same : p - 0 ≡ p = omega arith in
      last_page (suc words) rounds m heads start p to _ next le
        (in_memory p (omega arith) (omega arith)) (scan_records-Laid words start room top)
        (subst (λ x. Stops m heads start x next) same stops)
  scan_pages-collect words (suc rounds) (suc n) p to next le n_le enough room large top lower
        in_memory passes stops =
      let here = in_memory p (omega arith) (omega arith) in
      let within : ltb p (heads p) ≡ false = ground arith in
      let less : p - suc n ≡ p - 1 - n = omega arith in
      let later =
        scan_pages-collect words rounds n (p - 1) (make (p - 1) max_offset).control next
          (omega arith) (omega arith) (omega arith)
          (let e = page_end (p - 1) (omega arith) in omega arith) large
          (lower (p - 1) (omega arith) (omega arith))
          (λ x lt within_n. lower x (omega arith) (omega arith))
          (λ x lt within_n. in_memory x (omega arith) (omega arith))
          (λ x lt within_n. passes x (omega arith) (omega arith))
          (subst (λ x. Stops m heads start x next) less stops) in
      rw
        (
          within,
          scan_records-Laid words start room top,
          passes p (omega arith) (omega arith),
          below_is p (omega arith) le,
          later,
        )
        refl

page_of :
    (a : ℕ)
    → a < 2 ^ 48
    → (page (record { control = a }) ≤ max_page)
      × (a < (make (page (record { control = a })) 0).control + 2 ^ 25)
unfolding page make
page_of a low = (omega arith, omega arith)

-- A full scan begins with the page that holds the lower one of its end and the tail. Its `n + 1` pages from there on down are laid
-- out in null words and records, each is in memory when the loop comes to it, and only the last one may be the page of the
-- start or of the beginning of the log. Then the scan returns, with more rounds than pages and than addresses in a page: it
-- touches the records that are not invalid, pass the check and do not lie before the start, from the newest page
-- down and in order within a page; and after the last page it is finished, or goes on from the page below, which is on disk.
pub internal_full_scan-collect :
    (words rounds n p to : ℕ) (m : Memory) (heads : ℕ → ℕ) (records : ℕ → List ℕ)
    (tail begin_addr end_addr : ℕ) (next : Option ℕ)
    → scan_to tail end_addr ≡ to
    → page (record { control = to }) ≡ p
    → to < 2 ^ 48
    → n ≤ p
    → n < rounds
    → 2 ^ 25 ≤ words
    → Laid m to (make p 0).control (records p)
    → ((x : ℕ)
        → x < p
        → p ≤ x + n
        → Laid m (make x max_offset).control (make x 0).control (records x))
    → ((x : ℕ) → x ≤ p → p ≤ x + n → heads x ≤ x)
    → ((x : ℕ) → x ≤ p → p < x + n → is_last_page m begin_addr x ≡ false)
    → Stops m heads begin_addr (p - n) next
    → internal_full_scan (suc words) (suc rounds) m heads tail begin_addr end_addr
      ≡ full_outcome
          (some (collect n (λ x. select (λ r. leb begin_addr r && hits m r) (records x)) p, next))
unfolding internal_full_scan
internal_full_scan-collect words rounds n p to m heads records tail begin_addr end_addr next at_to
      at_p low n_le enough large top lower in_memory passes stops =
    let (le, room) = page_of to low in
    let (le', room') =
      subst (λ x. (x ≤ max_page) × (to < (make x 0).control + 2 ^ 25)) at_p (le, room) in
    rw (at_to, at_p)
      (ap full_outcome (
        scan_pages-collect m heads begin_addr records words rounds n p to next le' n_le enough
          (omega arith) large top lower in_memory passes stops))
