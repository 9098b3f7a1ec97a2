-- ===== src/Query/Reached.antt =====
-- core/fishstore.h: the records of one page that a full scan on disk touches.
use fish_store.Base.{
  ℕ, suc, ◌+◌, ◌^◌, ◌<◌, ◌≤◌, ◌≡◌, refl, ap, true, false, ◌&&◌, leb, some, List, [], ◌∷◌, arith,
}
use fish_store.Address.{max_page, make, page, offset}
use fish_store.Query.{Memory}
use fish_store.Query.Traced.{select}
use fish_store.Query.Full.{hits, scan_records, from_address, to_address}
use fish_store.Query.Paged.{Laid, scan_records-Laid}
use fish_store.Base.{inl, inr, sym, ◌∙◌, ◌==◌, Bool-cases}
use fish_store.Record.{info_size, is_null}
use fish_store.Query.Disk.{size_at}
use fish_store.Query.Paged.{size_at-pos}

-- A walk over the null words and records of a page comes to an address.
pub data Reaches (m : Memory) (b : ℕ) : ℕ → Type 0 where
  there : Reaches m b b
  past_null : (a : ℕ) → is_null (m.header a) ≡ true → Reaches m b (a + info_size) → Reaches m b a
  past_record :
      (a : ℕ) → is_null (m.header a) ≡ false → Reaches m b (a + size_at m a) → Reaches m b a

Reaches-le : {m : Memory} {b a : ℕ} → Reaches m b a → a ≤ b
Reaches-le there = omega arith
Reaches-le (past_null a e more) = let le = Reaches-le more in omega arith
Reaches-le (past_record a e more) = let le = Reaches-le more in omega arith

-- The records that a scan from a start on is to touch.
abbrev pub counted : Memory → ℕ → List ℕ → List ℕ
counted m start rs = select (λ r. leb start r && hits m r) rs

from_above :
    {m : Memory} {to a : ℕ} {rs : List ℕ} (start : ℕ)
    → start ≤ a
    → Laid m to a rs
    → counted m 0 rs ≡ counted m start rs
unfolding select
from_above start le (Laid.ends a lt) = refl
from_above start le (Laid.null a rs le' e more) = from_above start (omega arith) more
from_above {m} start le (Laid.here a rs le' e more) =
    let rest = from_above start (omega arith) more in
    let low : leb 0 a ≡ true = ground arith in
    let high : leb start a ≡ true = ground arith in
    elim (Bool-cases (hits m a)) [
      | inl hit ↦ rw (low, high, hit) (ap (λ xs. a ∷ xs) rest)
      | inr miss ↦ rw (low, high, miss) rest
    ]

-- From an address that the walk comes to, the page is laid out in the records that do not lie before it.
from_reached :
    {m : Memory} {to b a : ℕ} {rs : List ℕ}
    → Reaches m b a
    → Laid m to a rs
    → (later : List ℕ) × Laid m to b later × (counted m b later ≡ counted m b rs)
unfolding select
from_reached {rs = rs} there laid = (rs, laid, refl)
from_reached {b = b} (past_null a e more) (Laid.ends _ lt) =
    let le = Reaches-le more in ([], Laid.ends b (omega arith), refl)
from_reached (past_null a e more) (Laid.null _ rs le e' laid) = from_reached more laid
from_reached (past_null a e more) (Laid.here _ rs le e' laid) = absurd (cc (e, e'))
from_reached {b = b} (past_record a e more) (Laid.ends _ lt) =
    let le = Reaches-le more in ([], Laid.ends b (omega arith), refl)
from_reached (past_record a e more) (Laid.null _ rs le e' laid) = absurd (cc (e, e'))
from_reached {m} {b = b} (past_record a e more) (Laid.here _ rs le e' laid) =
    let (later, laid', same) = from_reached more laid in
    let up = Reaches-le more in
    let pos = size_at-pos m a in
    let low : leb b a ≡ false = ground arith in (later, laid', same ∙ rw low refl)

page_room :
    (start end_addr x : ℕ) → x ≤ max_page → to_address end_addr x < from_address start x + 2 ^ 25
unfolding to_address from_address make offset
page_room start end_addr x le = ground arith

at_start :
    (start : ℕ) → start < 2 ^ 48 → from_address start (page (record { control = start })) ≡ start
unfolding from_address make page offset
at_start start low =
    let same : (page (record { control = start }) == page (record { control = start })) ≡ true =
      ground arith in
    rw same (omega arith)

after_start :
    (start x : ℕ)
    → start < 2 ^ 48
    → x ≤ max_page
    → page (record { control = start }) < x
    → (from_address start x ≡ (make x 0).control) × (start ≤ (make x 0).control)
unfolding from_address make page
after_start start x low le later = (ground arith, omega arith)

pub page_scanned :
    (words : ℕ) (m : Memory) (records : ℕ → List ℕ) (start end_addr x : ℕ)
    → 2 ^ 25 ≤ words
    → start < 2 ^ 48
    → x ≤ max_page
    → page (record { control = start }) ≤ x
    → Laid m (to_address end_addr x) (make x 0).control (records x)
    → (page (record { control = start }) ≡ x → Reaches m start (make x 0).control)
    → scan_records (suc words) m 0 (to_address end_addr x) (from_address start x)
      ≡ some (counted m start (records x))
page_scanned words m records start end_addr x large low le from laid reaches =
    let room = page_room start end_addr x le in
    elim (Bool-cases (page (record { control = start }) == x)) [
      | inl here ↦
          let at : page (record { control = start }) ≡ x = ground arith in
          let begins : from_address start x ≡ start =
            ap (from_address start) (sym at) ∙ at_start start low in
          let (later, laid', same) = from_reached (reaches at) laid in
          ap (scan_records (suc words) m 0 (to_address end_addr x)) begins
          ∙ scan_records-Laid words 0 (omega arith) laid'
          ∙ ap some (from_above start (omega arith) laid' ∙ same)
      | inr other ↦
          let (begins, above) = after_start start x low le (ground arith) in
          ap (scan_records (suc words) m 0 (to_address end_addr x)) begins
          ∙ scan_records-Laid words 0 (omega arith) laid
          ∙ ap some (from_above start above laid)
    ]
