-- ===== src/Query/Reads.antt =====
-- core/fishstore.h: InternalRead against the hash chain.
use fish_store.Base.{
  ℕ, ◌<◌, ◌≤◌, ◌≡◌, ◌⊎◌, inl, inr, refl, ap, true, false, leb, if◌then◌else◌, Bool-cases, none,
  some, List, [], ◌∷◌, arith,
}
use fish_store.Bucket.{Entry, address}
use fish_store.Query.{
  Memory, Thread, Outcome, OperationStatus, record_at, matches, cpr_shift, is_prepare, answer_read,
  internal_read,
}
use fish_store.Query.Traced.{
  chain, chain_end, select, Backward, chain-within, chain-below, first_match-Passed,
}

-- What a read of the matches of a chain in memory, whose end is `last`, is to answer: the first match; else the
-- chain's end, where that is on disk; else that there is none.
unfoldable pub read_of : Memory → List ℕ → ℕ → Outcome
read_of m (k ∷ rest) last = record {
  status = OperationStatus.success;
  touched = record_at m k ∷ [];
  finalized = false;
  async = none;
}
read_of m [] last = record {
  status =
      if leb m.begin_address last
      then OperationStatus.record_on_disk
      else OperationStatus.not_found;
  touched = [];
  finalized = false;
  async = if leb m.begin_address last then some last else none;
}

answer_hit :
    (m : Memory) (b last : ℕ) (rest : List ℕ)
    → m.head_address ≤ b
    → answer_read m b ≡ read_of m (b ∷ rest) last
unfolding answer_read read_of
answer_hit m b last rest within =
    let inside : leb m.head_address b ≡ true = ground arith in rw inside refl

answer_miss : (m : Memory) (b : ℕ) → b < m.head_address → answer_read m b ≡ read_of m [] b
unfolding answer_read read_of
answer_miss m b below =
    let outside : leb m.head_address b ≡ false = ground arith in
    elim (Bool-cases (leb m.begin_address b)) [
      | inl there ↦ rw (outside, there) refl
      | inr gone ↦ rw (outside, gone) refl
    ]

-- Outside of the PREPARE phase, on a chain whose key pointers in memory point to lower addresses, and with more rounds than the
-- entry's address: InternalRead returns. It passes to `Get` the record of the first key pointer of the chain in memory that
-- matches; where none does, it goes on from the first key pointer on disk, or answers that there is no such record.
pub internal_read-read_of :
    (rounds : ℕ) (t : Thread) (m : Memory) (e : Entry)
    → Backward m
    → is_prepare t.phase ≡ false
    → (address e).control < rounds
    → internal_read rounds t m (some e)
      ≡ some (
          read_of m
            (select (matches m) (chain rounds m (address e).control))
            (chain_end rounds m (address e).control))
unfolding internal_read cpr_shift select
internal_read-read_of rounds t m e backward not_prepare enough =
    let (b, first, p, ends) =
      first_match-Passed m rounds (matches m) backward rounds (address e).control (λ x h. h) enough
        enough in
    let le = p.le in
    rw (first, not_prepare, p.same, p.same_end)
      (elim (Bool-cases (leb m.head_address b)) [
        | inr outside ↦
            let below : b < m.head_address = ground arith in
            let (none_left, last) = chain-below m rounds b below in
            rw (none_left, last) (ap some (answer_miss m b below))
        | inl inside ↦
            let within : m.head_address ≤ b = ground arith in
            let (same, _) = chain-within m rounds b backward (omega arith) within in
            let match : matches m b ≡ true = is_match m b within ends in
            rw (same, match) (ap some (answer_hit m b _ _ within))
      ])
  where
    is_match :
        (m : Memory) (b : ℕ)
        → m.head_address ≤ b
        → (b < m.head_address) ⊎ (matches m b ≡ true)
        → matches m b ≡ true
    is_match m b within (inl below) = absurd (omega arith)
    is_match m b within (inr match) = match
