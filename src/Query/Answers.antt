-- ===== src/Query/Answers.antt =====
-- core/fishstore.h: InternalRead and InternalScan against the hash chain.
use mathlib.Core.List.{map}
use fish_store.Base.{
  ℕ, zero, suc, ◌<◌, ◌≤◌, ◌≡◌, ◌⊎◌, inl, inr, refl, sym, ap, ◌∙◌, Bool, true, false, not, ◌&&◌,
  ◌||◌, ltb, leb, if◌then◌else◌, Bool-cases, none, some, List, arith,
}
use fish_store.Bucket.{Entry, address}
use fish_store.Query.{
  Memory, Thread, Outcome, OperationStatus, prev_address, record_at, matches, cpr_shift, is_prepare,
  answer_scan, internal_scan, scan_from,
}
use fish_store.Query.Traced.{
  chain, chain_end, select, Backward, chain-below, first_match-Passed, skip_above-Passed,
}
use fish_store.Query.Explored.{explore-touches}

-- The key pointers that a scan is to find.
unfoldable pub wanted : Memory → ℕ → ℕ → ℕ → Bool
wanted m start_addr end_addr x = leb start_addr x && leb x end_addr && matches m x

wanted-no_match :
    (m : Memory) (start_addr end_addr x : ℕ)
    → matches m x ≡ false
    → wanted m start_addr end_addr x ≡ false
unfolding wanted
wanted-no_match m start_addr end_addr x e = ground arith

wanted-low :
    (m : Memory) (start_addr end_addr x : ℕ)
    → x < start_addr
    → wanted m start_addr end_addr x ≡ false
unfolding wanted
wanted-low m start_addr end_addr x lt = ground arith

wanted-high :
    (m : Memory) (start_addr end_addr x : ℕ) → end_addr < x → wanted m start_addr end_addr x ≡ false
unfolding wanted
wanted-high m start_addr end_addr x lt = ground arith

wanted-in_range :
    (m : Memory) (start_addr end_addr x : ℕ)
    → start_addr ≤ x
    → x ≤ end_addr
    → matches m x ≡ true
    → wanted m start_addr end_addr x ≡ true
unfolding wanted
wanted-in_range m start_addr end_addr x low high match = ground arith

-- What a scan of a chain in memory, whose end is `last`, is to answer: it is in progress while the chain goes on in the
-- range and in the log.
unfoldable pub scan_of : Memory → ℕ → ℕ → List ℕ → ℕ → Outcome
scan_of m start_addr end_addr keys last = record {
  status =
      if leb start_addr last && leb m.begin_address last
      then OperationStatus.scan_in_progress
      else OperationStatus.success;
  touched = map (record_at m) (select (wanted m start_addr end_addr) keys);
  finalized = not (leb start_addr last && leb m.begin_address last);
  async = if leb start_addr last && leb m.begin_address last then some last else none;
}

answer_scan-scan_of :
    (m : Memory) (start_addr end_addr f last : ℕ) (keys found : List ℕ)
    → select (wanted m start_addr end_addr) keys ≡ found
    → last ≤ f
    → (f < start_addr) ⊎ (f ≡ last)
    → answer_scan m start_addr (map (record_at m) found) f ≡ scan_of m start_addr end_addr keys last
unfolding answer_scan scan_of
answer_scan-scan_of m start_addr end_addr f last keys found same le stops =
    elim (Bool-cases (leb start_addr last && leb m.begin_address last)) [
      | inl on ↦
          let going : (ltb f start_addr || ltb f m.begin_address) ≡ false = ground arith in
          let e : f ≡ last = ground arith in rw (on, going, same, e) refl
      | inr over ↦
          let ends : (ltb f start_addr || ltb f m.begin_address) ≡ true = ground arith in
          rw (over, ends, same) refl
    ]

chain_end-le : (m : Memory) (n a : ℕ) → Backward m → chain_end n m a ≤ a
unfolding chain_end
chain_end-le m zero a backward = omega arith
chain_end-le m (suc n) a backward = elim (Bool-cases (leb m.head_address a)) [
  | inr below ↦ rw below (omega arith)
  | inl within ↦
      let lower = backward a (ground arith) in
      let le = chain_end-le m n (prev_address m a) backward in rw within (omega arith)
]

lower_of :
    (b a head end_addr : ℕ) → b ≤ a → (a < head) ⊎ (a ≤ end_addr) → (b < head) ⊎ (b ≤ end_addr)
lower_of b a head end_addr le (inl below) = inl (omega arith)
lower_of b a head end_addr le (inr low) = inr (omega arith)

stops_at :
    (m : Memory) (n start_addr f : ℕ)
    → (f < start_addr) ⊎ (f < m.head_address)
    → (f < start_addr) ⊎ (f ≡ chain_end n m f)
stops_at m n start_addr f (inl under) = inl under
stops_at m n start_addr f (inr below) = inr (sym (chain-below m n f below).1)

no_shift : (t : Thread) (m : Memory) (a : ℕ) → is_prepare t.phase ≡ false → cpr_shift t m a ≡ false
unfolding cpr_shift
no_shift t m a e = rw e refl

-- Outside of the PREPARE phase, on a chain whose key pointers in memory point to lower addresses, and with more rounds than the
-- entry's address: InternalScan returns, and it passes to `Touch` exactly the records of the chain in memory whose key pointers
-- are from `start_addr` to `end_addr` and match, each once and in the order of the chain. It is finished if the chain
-- leaves the range or the log, and else goes on from the first key pointer that is on disk.
pub internal_scan-scan_of :
    (rounds : ℕ) (t : Thread) (m : Memory) (e : Entry) (start_addr end_addr : ℕ)
    → Backward m
    → is_prepare t.phase ≡ false
    → (address e).control < rounds
    → internal_scan rounds t m (some e) start_addr end_addr
      ≡ some (
          scan_of m start_addr end_addr
            (chain rounds m (address e).control)
            (chain_end rounds m (address e).control))
unfolding internal_scan scan_from
internal_scan-scan_of rounds t m e start_addr end_addr backward not_prepare enough =
    let counts = wanted m start_addr end_addr in
    let (a, skips, p, low) =
      skip_above-Passed m rounds counts backward rounds end_addr (address e).control
        (wanted-high m start_addr end_addr) enough enough in
    let le = p.le in
    let (b, first, q, ends) =
      first_match-Passed m rounds counts backward rounds a (wanted-no_match m start_addr end_addr)
        (omega arith) (omega arith) in
    let le' = q.le in
    let (f, explored, stops, up_to, end) =
      explore-touches m rounds start_addr end_addr counts backward
        (wanted-no_match m start_addr end_addr) (wanted-low m start_addr end_addr)
        (wanted-in_range m start_addr end_addr) rounds rounds b (omega arith) (omega arith)
        (omega arith) (lower_of b a m.head_address end_addr le' low) ends in
    let last : chain_end rounds m (address e).control ≡ chain_end rounds m f =
      p.same_end ∙ q.same_end ∙ sym end in
    rw (skips, first, no_shift t m a not_prepare, explored, last)
      (ap some (
        answer_scan-scan_of m start_addr end_addr f (chain_end rounds m f) _ _ (p.same ∙ q.same)
          (chain_end-le m rounds f backward) (stops_at m rounds start_addr f stops)))
