-- ===== src/HashTable/Requests.antt =====
-- core/hash_table.h: the requests of a checkpoint and of a recovery.
use fish_store.Base.{
  ℕ, zero, suc, ◌+◌, ◌*◌, ◌/◌, ◌%◌, ◌^◌, ◌<◌, ◌≤◌, ◌≡◌, ◌≢◌, refl, sym, ap, ◌∙◌, ◌==◌, some,
  get_elem?, inl, inr, Bool-cases, arith,
}
use native.Mathlib.Nat.{mul_assoc, mul-le-mul_right, mod-eq_of_lt}
use fish_store.Address.{u32, u64}
use fish_store.Batch.{Status}
use fish_store.HashTable.{
  Table, Request, num_merge_chunks, bucket_size, request, issue, chunk_size_of, start_checkpoint,
  start_recover, initialize,
}

-- Where all requests are accepted, they are issued in order.
issue-all :
    (make : ℕ → Request) (n i j : ℕ)
    → j < n
    → ((issue (λ k. Status.ok) make n i).0 ≡ Status.ok)
      × (get_elem? (issue (λ k. Status.ok) make n i).1 j ≡ some (make (i + j)))
unfolding issue
issue-all make zero i j lt = absurd (omega arith)
issue-all make (suc zero) i zero lt =
    let e : i ≡ i + 0 = omega arith in (refl, ap (λ k. some (make k)) e)
issue-all make (suc zero) i (suc j) lt = absurd (omega arith)
issue-all make (suc (suc n)) i zero lt =
    let e : i ≡ i + 0 = omega arith in
    ((issue-all make (suc n) (i + 1) 0 (omega arith)).0, ap (λ k. some (make k)) e)
issue-all make (suc (suc n)) i (suc j) lt =
    let (fine, at) = issue-all make (suc n) (i + 1) j (omega arith) in
    let e : i + 1 + j ≡ i + suc j = omega arith in (fine, at ∙ ap (λ k. some (make k)) e)

abbrev pub exact : ℕ → ℕ → Request
exact c i = record { offset = i * (c * bucket_size); first_bucket = i * c; bytes = c * bucket_size }

initialize-size : (size : ℕ) (t : Table) → (initialize size t).size ≡ size
unfolding initialize
initialize-size size t = elim (Bool-cases (t.size == size)) [
  | inl same ↦ rw same (ground arith)
  | inr other ↦ rw other refl
]

same_place :
    (i : ℕ)
    → i < 128
    → ((request (2 ^ 19) (2 ^ 25) i).offset ≡ (request (2 ^ 19) (2 ^ 25) (i + 128)).offset)
      × ((request (2 ^ 19) (2 ^ 25) i).first_bucket
          ≢ (request (2 ^ 19) (2 ^ 25) (i + 128)).first_bucket)
unfolding request
same_place i lt = (omega arith, λ e. omega (arith, e))

-- A chunk's request, where 32 bits are enough for the file.
request-exact :
    (c i : ℕ) → c ≤ 2 ^ 18 → i < num_merge_chunks → request c (c * bucket_size) i ≡ exact c i
unfolding request
request-exact c i small lt =
    let most : i * c ≤ 255 * c = mul-le-mul_right c (omega arith) in
    let assoc : i * (c * bucket_size) ≡ i * c * bucket_size = sym (mul_assoc i c bucket_size) in
    let offset : i * (c * bucket_size) % u32 ≡ i * (c * bucket_size) =
      mod-eq_of_lt (omega (arith, most, assoc)) in
    let first : i * c % u32 ≡ i * c = mod-eq_of_lt (omega (arith, most)) in rw (offset, first) refl

issued :
    (make : ℕ → Request) (r : Request) (i : ℕ)
    → i < num_merge_chunks
    → make i ≡ r
    → get_elem? (issue (λ k. Status.ok) make num_merge_chunks 0).1 i ≡ some r
issued make r i lt e =
    let zero_up : 0 + i ≡ i = omega arith in
    (issue-all make num_merge_chunks 0 i lt).1 ∙ ap (λ k. some (make k)) zero_up ∙ ap some e

chunk_size_of-exact : (size : ℕ) → size ≤ 2 ^ 26 → chunk_size_of size ≡ size / num_merge_chunks
unfolding chunk_size_of
chunk_size_of-exact size small = omega arith

all_fine : (make : ℕ → Request) → (issue (λ k. Status.ok) make num_merge_chunks 0).0 ≡ Status.ok
all_fine make = (issue-all make num_merge_chunks 0 0 (omega arith)).0

-- What a checkpoint of such a table writes.
checkpoint_requests :
    (s : Table) (i : ℕ)
    → s.size ≤ 2 ^ 26
    → i < num_merge_chunks
    → ((start_checkpoint (λ k. Status.ok) s).0 ≡ Status.ok)
      × ((start_checkpoint (λ k. Status.ok) s).1 ≡ s.size * bucket_size)
      × (get_elem? (start_checkpoint (λ k. Status.ok) s).2 i
          ≡ some (exact (s.size / num_merge_chunks) i))
unfolding start_checkpoint
checkpoint_requests s i small lt =
    let c = s.size / num_merge_chunks in
    let chunk = chunk_size_of-exact s.size small in
    let width : c * bucket_size % u32 ≡ c * bucket_size = omega arith in
    let total : s.size * bucket_size % u64 ≡ s.size * bucket_size = omega arith in
    let make = request c (c * bucket_size) in
    rw (chunk, width, all_fine make)
      (refl, total, issued make (exact c i) i lt (request-exact c i (omega arith) lt))

-- What a recovery from a file of this size reads.
recover_requests :
    (t : Table) (size bytes i : ℕ)
    → bytes ≡ size * bucket_size
    → size % num_merge_chunks ≡ 0
    → size ≤ 2 ^ 26
    → i < num_merge_chunks
    → ((start_recover (λ k. Status.ok) bytes t).0 ≡ Status.ok)
      × (get_elem? (start_recover (λ k. Status.ok) bytes t).1 i
          ≡ some (exact (size / num_merge_chunks) i))
      × ((start_recover (λ k. Status.ok) bytes t).2.size ≡ size)
unfolding start_recover
recover_requests t size bytes i e whole small lt =
    let c = size / num_merge_chunks in
    let reads : bytes / num_merge_chunks % u32 ≡ c * bucket_size = omega arith in
    let back : c * bucket_size / bucket_size ≡ c = omega arith in
    let same : bytes / bucket_size ≡ size = omega arith in
    let make = request c (c * bucket_size) in
    (
      all_fine _,
      rw (reads, back) (issued make (exact c i) i lt (request-exact c i (omega arith) lt)),
      rw same (initialize-size size t),
    )

-- For a table of at most 2^26 buckets, a multiple of the number of chunks, as the disk accepts all requests:
-- the checkpoint writes chunk `i` where the chunks before it end, the recovery from the size that the checkpoint returns reads the
-- same bytes into the same buckets, and the recovered table has the size of the table.
pub start_recover-start_checkpoint :
    (s t : Table) (i : ℕ)
    → s.size % num_merge_chunks ≡ 0
    → s.size ≤ 2 ^ 26
    → i < num_merge_chunks
    → ((start_checkpoint (λ k. Status.ok) s).0 ≡ Status.ok)
      × (get_elem? (start_checkpoint (λ k. Status.ok) s).2 i
          ≡ some (exact (s.size / num_merge_chunks) i))
      × ((start_recover (λ k. Status.ok) (start_checkpoint (λ k. Status.ok) s).1 t).0 ≡ Status.ok)
      × (get_elem? (start_recover (λ k. Status.ok) (start_checkpoint (λ k. Status.ok) s).1 t).1 i
          ≡ get_elem? (start_checkpoint (λ k. Status.ok) s).2 i)
      × ((start_recover (λ k. Status.ok) (start_checkpoint (λ k. Status.ok) s).1 t).2.size ≡ s.size)
start_recover-start_checkpoint s t i whole small lt =
    let (fine, bytes, writes) = checkpoint_requests s i small lt in
    let (fine', reads, size) = recover_requests t s.size _ i bytes whole small lt in
    (fine, writes, fine', reads ∙ sym writes, size)

-- For a table of 2^27 buckets the offset in the file wraps at 2^32: chunks `i` and `i` + 128 are written to the same
-- place of the file, though they are of different buckets.
pub start_checkpoint_wraps :
    (s : Table) (i : ℕ)
    → s.size ≡ 2 ^ 27
    → i < 128
    → (r : Request) × (get_elem? (start_checkpoint (λ k. Status.ok) s).2 i ≡ some r)
      × (r' : Request) × (get_elem? (start_checkpoint (λ k. Status.ok) s).2 (i + 128) ≡ some r')
      × (r.offset ≡ r'.offset)
      × (r.first_bucket ≢ r'.first_bucket)
unfolding start_checkpoint chunk_size_of
start_checkpoint_wraps s i e lt =
    let make = request (2 ^ 19) (2 ^ 25) in
    let (same, differ) = same_place i lt in
    rw e (
      make i,
      issued make (make i) i (omega arith) refl,
      make (i + 128),
      issued make (make (i + 128)) (i + 128) (omega arith) refl,
      same,
      differ,
    )
