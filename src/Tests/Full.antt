-- ===== src/Tests/Full.antt =====
-- core/fishstore.h: full scans of a log with one record, in memory and on disk.
use mathlib.Core.Path.{subst}
use fish_store.Base.{
  ℕ, zero, suc, ◌+◌, ◌*◌, ◌-◌, ◌^◌, ◌<◌, ◌≤◌, ◌≡◌, refl, sym, inl, inr, true, false, Bool-cases,
  ◌&&◌, leb, ◌==◌, if◌then◌else◌, some, none, List, [], ◌∷◌, arith,
}
use fish_store.Address.{make, page, offset}
use fish_store.Record.{is_null, ptr_cnt, payload_size, optional_size, pad_alignment}
use fish_store.Record
use fish_store.Query.{Memory}
use fish_store.Query.Disk.{size_at}
use fish_store.Query.Traced.{select}
use fish_store.Query.Full.{
  hits, internal_full_scan, full_outcome, follow_pages, to_address, is_last_page,
}
use fish_store.Batch
use fish_store.Query.Reached.{Reaches}
use fish_store.Query.DiskScan.{Ends, follow_pages-collect}
use fish_store.Query.Paged.{Laid}
use fish_store.Query.Whole.{collect, Stops, internal_full_scan-collect}

-- A record with 5 bytes at 64, and null words.
abbrev one_record : Memory
one_record = record {
  word = λ a. 0;
  header = λ a. record { control = if a == 64 then 5 * 2 ^ 15 else 0 };
  check = λ a. true;
  begin_address = 64;
  head_address = 64;
}

sixteen : size_at one_record 64 ≡ 16
unfolding size_at Record.size ptr_cnt payload_size optional_size pad_alignment
sixteen = refl

nulls_after : (words to a : ℕ) → to < a + 8 * words → 64 < a → Laid one_record to a []
unfolding is_null
nulls_after zero to a enough above = Laid.ends a (omega arith)
nulls_after (suc words) to a enough above = elim (Bool-cases (leb a to)) [
  | inl within ↦
      Laid.null a [] (ground arith) (ground arith)
        (nulls_after words to (a + 8) (omega arith) (omega arith))
  | inr past ↦ Laid.ends a (ground arith)
]

from_record : (to : ℕ) → 64 ≤ to → to < 2 ^ 25 → Laid one_record to 64 (64 ∷ [])
unfolding is_null
from_record to le small = Laid.here 64 [] le refl (
    subst (λ x. Laid one_record to (64 + x) []) (sym sixteen)
      (nulls_after (2 ^ 22) to 80 (omega arith) (omega arith)))

from_start : (k to : ℕ) → k ≤ 8 → 64 ≤ to → to < 2 ^ 25 → Laid one_record to (64 - 8 * k) (64 ∷ [])
unfolding is_null
from_start zero to k_le le small = from_record to le small
from_start (suc k) to k_le le small =
    let same : 64 - 8 * k ≡ 64 - 8 * suc k + 8 = omega arith in
    Laid.null (64 - 8 * suc k) _ (omega arith) (ground arith)
      (subst (λ x. Laid one_record to x (64 ∷ [])) same (from_start k to (omega arith) le small))

abbrev records_of : ℕ → List ℕ
records_of x = if x == 0 then 64 ∷ [] else []

full_first : Laid one_record 200 (make 0 0).control (records_of 0)
unfolding make
full_first = from_start 8 200 (omega arith) (omega arith) (omega arith)

first_page : page (record { control = 200 }) ≡ 0
unfolding page
first_page = refl

is_first : is_last_page one_record 64 0 ≡ true
unfolding is_last_page page
is_first = refl

internal_full_scan-collect_example :
    internal_full_scan (suc (2 ^ 25)) 2 one_record (λ x. 0) 200 64 (2 ^ 40)
    ≡ full_outcome
        (some (collect 0 (λ x. select (λ r. leb 64 r && hits one_record r) (records_of x)) 0, none))
internal_full_scan-collect_example =
    internal_full_scan-collect (2 ^ 25) 1 0 0 200 one_record (λ x. 0) records_of 200 64 (2 ^ 40)
      none refl first_page (omega arith) (omega arith) (omega arith) (omega arith) full_first
      (λ x lt within. absurd (omega arith)) (λ x le within. omega arith)
      (λ x le within. absurd (omega arith)) (Stops.finished is_first)

-- Page 1 has no record.
laid_out :
    (x : ℕ)
    → x ≤ 1
    → 1 ≤ x + 1
    → Laid one_record (to_address (2 ^ 25 + 100) x) (make x 0).control (records_of x)
unfolding to_address make page offset
laid_out zero le within = from_start 8 (2 ^ 25 - 1) (omega arith) (omega arith) (omega arith)
laid_out (suc zero) le within = nulls_after 100 (2 ^ 25 + 100) (2 ^ 25) (omega arith) (omega arith)
laid_out (suc (suc x)) le within = absurd (omega arith)

to_start : (k : ℕ) → k ≤ 8 → Reaches one_record 64 (64 - 8 * k)
unfolding is_null
to_start zero le = Reaches.there
to_start (suc k) le =
    let same : 64 - 8 * k ≡ 64 - 8 * suc k + 8 = omega arith in
    Reaches.past_null (64 - 8 * suc k) (ground arith)
      (subst (Reaches one_record 64) same (to_start k (omega arith)))

walk_to_start : page (record { control = 64 }) ≡ 1 - 1 → Reaches one_record 64 (make 0 0).control
unfolding make
walk_to_start at = to_start 8 (omega arith)

starts_in_first : page (record { control = 64 }) ≤ 1
unfolding page
starts_in_first = omega arith

is_not_first : (x : ℕ) → x ≤ 1 → 1 < x + 1 → is_last_page one_record 64 x ≡ false
unfolding is_last_page page
is_not_first x le within = ground arith

-- The second read fails.
abbrev second_fails : ℕ → Batch.Status
second_fails j = if j == 1 then Batch.Status.io_error else Batch.Status.ok

follow_pages-collect_example :
    Ends second_fails 0 1
      (λ x. select (λ r. leb 64 r && hits one_record r) (records_of x))
      1
      (follow_pages (suc (2 ^ 25)) second_fails 0 2 one_record 64 (2 ^ 25 + 100) 1)
follow_pages-collect_example =
    follow_pages-collect (2 ^ 25) 2 1 0 second_fails one_record records_of 64 (2 ^ 25 + 100) 1
      (omega arith) (omega arith) (omega arith) (omega arith) (omega arith) starts_in_first laid_out
      walk_to_start is_not_first is_first
