-- ===== src/Query/Paged.antt =====
-- core/fishstore.h: the loop over the records of a page.
use fish_store.Base.{
  ℕ, zero, suc, ◌+◌, ◌*◌, ◌/◌, ◌%◌, ◌^◌, ◌<◌, ◌≤◌, ◌≡◌, inl, inr, refl, ap, true, false, ◌&&◌, ltb,
  leb, Bool-cases, some, List, [], ◌∷◌, arith,
}
use fish_store.Address.{u64}
use fish_store.Record.{
  info_size, kpt_size, invalid, is_null, ptr_cnt, payload_size, optional_size, pad_alignment,
}
use fish_store.Record
use fish_store.Record.Layout.{pad_alignment-eight}
use fish_store.Query.{Memory}
use fish_store.Query.Disk.{size_at}
use fish_store.Query.Traced.{select}
use fish_store.Query.Full.{hits, keep, scan_records}

-- What stands from an address to the end of a page: null words and records, which are listed.
pub data Laid (m : Memory) (to : ℕ) : ℕ → List ℕ → Type 0 where
  ends : (a : ℕ) → to < a → Laid m to a []
  null :
      (a : ℕ) (rs : List ℕ)
      → a ≤ to
      → is_null (m.header a) ≡ true
      → Laid m to (a + info_size) rs
      → Laid m to a rs
  here :
      (a : ℕ) (rs : List ℕ)
      → a ≤ to
      → is_null (m.header a) ≡ false
      → Laid m to (a + size_at m a) rs
      → Laid m to a (a ∷ rs)

pub size_at-pos : (m : Memory) (a : ℕ) → 0 < size_at m a
unfolding size_at Record.size ptr_cnt payload_size optional_size
size_at-pos m a =
    let h = (m.header a).control in
    let n = (8 + 16 * (h % 2 ^ 15) + h / 2 ^ 15 % 2 ^ 25 + h / 2 ^ 40 % 2 ^ 8) % u64 in
    let e = pad_alignment-eight n (omega arith) in rw e (omega arith)

-- With as many rounds as there are addresses, the loop touches the records from the start on that pass, in order.
pub scan_records-Laid :
    {m : Memory} {to a : ℕ} {rs : List ℕ} (rounds start : ℕ)
    → to < a + rounds
    → Laid m to a rs
    → scan_records (suc rounds) m start to a ≡ some (select (λ r. leb start r && hits m r) rs)
unfolding scan_records select
scan_records-Laid {m} {to} rounds start enough (Laid.ends a lt) =
    let past : leb a to ≡ false = ground arith in rw past refl
scan_records-Laid {m} {to} zero start enough (Laid.null a rs le e more) = absurd (omega arith)
scan_records-Laid {m} {to} (suc rounds) start enough (Laid.null a rs le e more) =
    let within : leb a to ≡ true = ground arith in
    rw (within, e) (scan_records-Laid rounds start (omega arith) more)
scan_records-Laid {m} {to} zero start enough (Laid.here a rs le e more) = absurd (omega arith)
scan_records-Laid {m} {to} (suc rounds) start enough (Laid.here a rs le e more) =
    let within : leb a to ≡ true = ground arith in
    let pos = size_at-pos m a in
    let later = scan_records-Laid rounds start (omega arith) more in
    elim (Bool-cases (ltb a start)) [
      | inl low ↦ let under : leb start a ≡ false = ground arith in rw (within, e, low, under) later
      | inr high ↦
          let over : leb start a ≡ true = ground arith in
          elim (Bool-cases (hits m a)) [
            | inl hit ↦ rw (within, e, high, over, hit) (ap (keep a) later)
            | inr miss ↦ rw (within, e, high, over, miss) later
          ]
    ]
