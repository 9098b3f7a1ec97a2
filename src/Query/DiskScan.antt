-- ===== src/Query/DiskScan.antt =====
-- core/fishstore.h: the callbacks of a full scan on disk against what the pages of the log hold.
use fish_store.Base.{
  ℕ, zero, suc, ◌+◌, ◌-◌, ◌^◌, ◌<◌, ◌≤◌, ◌≡◌, refl, ap, true, false, ◌&&◌, leb, Option, some, List,
  [], ◌++◌, arith,
}
use mathlib.Core.Path.{subst}
use fish_store.Address.{max_page, make, page}
use fish_store.Query.{Memory}
use fish_store.Query.Traced.{select}
use fish_store.Query.Full.{
  hits, scan_records, is_last_page, page_below, from_address, to_address, full_scan_callback,
  follow_pages,
}
use fish_store.Query.Paged.{Laid}
use fish_store.Base.{inl, inr, sym, ◌∙◌, Bool, ◌==◌, if◌then◌else◌, Bool-cases}
use fish_store.Batch.{is_ok}
use fish_store.Batch
use fish_store.Query.Visited.{Fails}
use fish_store.Query.Whole.{collect, below_is}
use fish_store.Query.Full.{PageNext, with_records}
use fish_store.Query.Reached.{Reaches, counted, page_scanned}

-- The lists of `j` pages, from one page downwards.
unfoldable pub first_pages : ℕ → (ℕ → List ℕ) → ℕ → List ℕ
first_pages zero f p = []
first_pages (suc j) f p = f p ++ first_pages j f (p - 1)

-- `n + 1` reads from the `i`th on succeed.
pub record Succeeds (answer : ℕ → Batch.Status) (i n : ℕ) : Type 0 where
  pub reads : (x : ℕ) → i ≤ x → x ≤ i + n → is_ok (answer x) ≡ true

-- How the reads of the pages end: all succeed and the context is pushed, or one fails, and it is dropped.
pub data Ends (answer : ℕ → Batch.Status) (i n : ℕ) (f : ℕ → List ℕ) (p : ℕ)
    (o : Option (List ℕ × Bool)) : Type 0 where
  done : Succeeds answer i n → o ≡ some (collect n f p, true) → Ends answer i n f p o
  fails :
      (e : Fails answer i)
      → e.read ≤ i + n
      → o ≡ some (first_pages (e.read - i) f p, false)
      → Ends answer i n f p o

full_scan_callback-scanned :
    (words : ℕ) (m : Memory) (s : Batch.Status) (start end_addr p : ℕ) (records : List ℕ)
    → is_ok s ≡ true
    → scan_records words m 0 (to_address end_addr p) (from_address start p) ≡ some records
    → full_scan_callback words m s start end_addr p
      ≡ some (
          if is_last_page m start p
          then PageNext.pushes records
          else PageNext.reads records (page_below p))
unfolding full_scan_callback
full_scan_callback-scanned words m s start end_addr p records fine e = rw (fine, e) refl

full_scan_callback-drops :
    (words : ℕ) (m : Memory) (s : Batch.Status) (start end_addr p : ℕ)
    → is_ok s ≡ false
    → full_scan_callback words m s start end_addr p ≡ some PageNext.drops
unfolding full_scan_callback
full_scan_callback-drops words m s start end_addr p bad = rw bad refl

fails_first :
    (answer : ℕ → Batch.Status) (i n p : ℕ) (f : ℕ → List ℕ) (o : Option (List ℕ × Bool))
    → is_ok (answer i) ≡ false
    → o ≡ some ([], false)
    → Ends answer i n f p o
unfolding first_pages
fails_first answer i n p f o bad e =
    let none_left : i - i ≡ 0 = omega arith in
    Ends.fails
      (record {
        read = i;
        later = omega arith;
        before = λ x le lt. absurd (omega arith);
        fails = bad;
      })
      (omega arith) (e ∙ ap (λ j. some (first_pages j f p, false)) (sym none_left))

one_more :
    (answer : ℕ → Batch.Status) (i n p : ℕ) (f : ℕ → List ℕ) (o : Option (List ℕ × Bool))
    → is_ok (answer i) ≡ true
    → Ends answer (i + 1) n f (p - 1) o
    → Ends answer i (suc n) f p (with_records (f p) o)
unfolding collect first_pages
one_more answer i n p f o fine (Ends.done s e) =
    Ends.done
      (record {
        reads = λ x lo hi. elim (Bool-cases (x == i)) [
          | inl first ↦ ap (λ y. is_ok (answer y)) (ground arith) ∙ fine
          | inr other ↦ s.reads x (ground arith) (omega arith)
        ];
      })
      (ap (with_records (f p)) e)
one_more answer i n p f o fine (Ends.fails g le e) =
    let later = g.later in
    let more : g.read - i ≡ suc (g.read - (i + 1)) = omega arith in
    Ends.fails
      (record {
        read = g.read;
        later = omega arith;
        before = λ x lo lt. elim (Bool-cases (x == i)) [
          | inl first ↦ ap (λ y. is_ok (answer y)) (ground arith) ∙ fine
          | inr other ↦ g.before x (ground arith) lt
        ];
        fails = g.fails;
      })
      (omega arith)
      (ap (with_records (f p)) e ∙ ap (λ j. some (first_pages j f p, false)) (sym more))

follow_pages-Ends :
    (words rounds n i : ℕ) (answer : ℕ → Batch.Status) (m : Memory) (f : ℕ → List ℕ)
    (start end_addr p : ℕ)
    → p ≤ max_page
    → n ≤ p
    → n < rounds
    → ((x : ℕ)
        → x ≤ p
        → p ≤ x + n
        → scan_records words m 0 (to_address end_addr x) (from_address start x) ≡ some (f x))
    → ((x : ℕ) → x ≤ p → p < x + n → is_last_page m start x ≡ false)
    → is_last_page m start (p - n) ≡ true
    → Ends answer i n f p (follow_pages words answer i rounds m start end_addr p)
unfolding follow_pages collect
follow_pages-Ends words zero n i answer m f start end_addr p le n_le enough scanned passes last =
    absurd (omega arith)
follow_pages-Ends words (suc rounds) zero i answer m f start end_addr p le n_le enough scanned
      passes last =
    let same : p - 0 ≡ p = omega arith in
    let there : is_last_page m start p ≡ true =
      subst (λ x. is_last_page m start x ≡ true) same last in
    elim (Bool-cases (is_ok (answer i))) [
      | inr bad ↦
          fails_first answer i 0 p f _ bad
            (rw (full_scan_callback-drops words m (answer i) start end_addr p bad) refl)
      | inl fine ↦
          rw
            (
              full_scan_callback-scanned words m (answer i) start end_addr p (f p) fine
                  (scanned p (omega arith) (omega arith)),
              there,
            )
            (Ends.done
              (record { reads = λ x lo hi. ap (λ y. is_ok (answer y)) (omega arith) ∙ fine }) refl)
    ]
follow_pages-Ends words (suc rounds) (suc n) i answer m f start end_addr p le n_le enough scanned
      passes last =
    let less : p - suc n ≡ p - 1 - n = omega arith in
    let later =
      follow_pages-Ends words rounds n (i + 1) answer m f start end_addr (p - 1) (omega arith)
        (omega arith) (omega arith) (λ x lt within. scanned x (omega arith) (omega arith))
        (λ x lt within. passes x (omega arith) (omega arith))
        (subst (λ x. is_last_page m start x ≡ true) less last) in
    elim (Bool-cases (is_ok (answer i))) [
      | inr bad ↦
          fails_first answer i (suc n) p f _ bad
            (rw (full_scan_callback-drops words m (answer i) start end_addr p bad) refl)
      | inl fine ↦
          rw
            (
              full_scan_callback-scanned words m (answer i) start end_addr p (f p) fine
                  (scanned p (omega arith) (omega arith)),
              passes p (omega arith) (omega arith),
              below_is p (omega arith) le,
            )
            (one_more answer i n p f _ fine later)
    ]

start_below :
    (m : Memory) (start n p : ℕ)
    → n ≤ p
    → page (record { control = start }) ≤ p
    → ((x : ℕ) → x ≤ p → p < x + n → is_last_page m start x ≡ false)
    → page (record { control = start }) ≤ p - n
unfolding is_last_page
start_below m start n p n_le le passes =
    elim (Bool-cases (leb (page (record { control = start })) (p - n))) [
      | inl low ↦ ground arith
      | inr high ↦
          let no = passes (page (record { control = start })) le (ground arith) in
          absurd (ground arith)
    ]

-- The callbacks of a full scan on disk, from a page `p` on, whose read is the `i`th, with any results of the reads. The page of the
-- start is `p` or one below it; each of the `n + 1` pages from `p` on down is laid out, from its beginning, in null words and records; the
-- last of them is the first one that is the page of the start or of the beginning of the log; and where it is that of the
-- start, the start is where a null word or a record of it begins. With more rounds than pages and than addresses in a
-- page, the callbacks end. If the reads succeed, the context is pushed, and the records were touched that are not
-- invalid, pass the check and do not lie before the start, from the newest page down and in order within a page. If
-- one fails, the context is dropped, with the records of the pages before touched, and nothing answers the scan.
pub follow_pages-collect :
    (words rounds n i : ℕ) (answer : ℕ → Batch.Status) (m : Memory) (records : ℕ → List ℕ)
    (start end_addr p : ℕ)
    → p ≤ max_page
    → n ≤ p
    → n < rounds
    → 2 ^ 25 ≤ words
    → start < 2 ^ 48
    → page (record { control = start }) ≤ p
    → ((x : ℕ) → x ≤ p → p ≤ x + n → Laid m (to_address end_addr x) (make x 0).control (records x))
    → (page (record { control = start }) ≡ p - n → Reaches m start (make (p - n) 0).control)
    → ((x : ℕ) → x ≤ p → p < x + n → is_last_page m start x ≡ false)
    → is_last_page m start (p - n) ≡ true
    → Ends answer i n
        (λ x. select (λ r. leb start r && hits m r) (records x))
        p
        (follow_pages (suc words) answer i rounds m start end_addr p)
follow_pages-collect words rounds n i answer m records start end_addr p le n_le enough large low
      start_le laid reaches passes last =
    let below = start_below m start n p n_le start_le passes in
    follow_pages-Ends (suc words) rounds n i answer m (λ x. counted m start (records x)) start
      end_addr p le n_le enough
      (λ x lo hi.
        page_scanned words m records start end_addr x large low (omega arith) (omega arith)
          (laid x lo hi)
          (λ at.
            subst (λ y. Reaches m start (make y 0).control) (omega (arith, at))
              (reaches (omega (arith, at)))))
      passes last
