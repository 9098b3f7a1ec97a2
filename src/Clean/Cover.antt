-- ===== src/Clean/Cover.antt =====
-- core/fishstore.h: which buckets the calls of CleanHashTableBuckets clean.
use fish_store.Base.{
  ℕ, zero, suc, ◌+◌, ◌*◌, ◌-◌, ◌/◌, ◌%◌, ◌<◌, ◌≤◌, ◌≡◌, ◌⊎◌, inl, inr, refl, sym, ap, ◌∙◌, true,
  false, ◌&&◌, ltb, leb, if◌then◌else◌, List, Bool-cases, arith,
}
use mathlib.Core.Path.{subst}
use fish_store.Address.{u64}
use fish_store.Bucket.{Entry}
use fish_store.Grow.{chunks_of}
use fish_store.Grow.Chunks.{chunks_cover}
use fish_store.Clean.{
  Gc, gc_chunk_size, clean_entries, clean_buckets, clean_bound, clean_hash_table_buckets,
}
use fish_store.Clean.Entries.{
  Cleaned, clean_entries-Cleaned, clean_entries-twice, clean_buckets-outside, clean_buckets-inside,
}

-- Calls, one after another.
unfoldable pub clean_calls : ℕ → Gc → Gc
clean_calls zero s = s
clean_calls (suc n) s = (clean_hash_table_buckets (clean_calls n s)).1

abbrev reached : ℕ → ℕ → ℕ
reached size c = if ltb c (chunks_of size) then c * gc_chunk_size else size

module _ (s : Gc) (c : ℕ) (small : s.size < u64) (lt : c < chunks_of s.size)
    (grown : s.grow_num_chunks ≤ chunks_of s.size) where
  -- A call stays within the table, and leaves no gap before the next chunk.
  clean_bound_covers :
      (c * gc_chunk_size + clean_bound s c ≤ s.size)
      × (reached s.size (c + 1) ≤ c * gc_chunk_size + clean_bound s c)
      × (reached s.size c ≡ c * gc_chunk_size)
  unfolding clean_bound
  clean_bound_covers =
      let here : ltb c (chunks_of s.size) ≡ true = ground arith in
      elim (chunks_cover s.size c small lt) [
        | inl (more, fits) ↦
            let next : ltb (c + 1) (chunks_of s.size) ≡ true = ground arith in
            elim (Bool-cases (ltb (c + 1) s.grow_num_chunks)) [
              | inl whole ↦ rw (here, next, whole) (omega arith, omega arith, refl)
              | inr rest ↦ rw (here, next, rest) (omega arith, omega arith, refl)
            ]
        | inr (last, fits) ↦
            let next : ltb (c + 1) (chunks_of s.size) ≡ false = ground arith in
            let rest : ltb (c + 1) s.grow_num_chunks ≡ false = ground arith in
            rw (here, next, rest) (omega arith, omega arith, refl)
      ]

-- The table after `c` calls.
record After (begun : Gc) (c : ℕ) (table : ℕ → List Entry) : Type 0 where
  cleaned :
      (i : ℕ)
      → i < reached begun.size c
      → table i ≡ clean_entries begun.begin_address (begun.table i)
  perhaps :
      (i : ℕ)
      → (table i ≡ begun.table i) ⊎ (table i ≡ clean_entries begun.begin_address (begun.table i))
  outside : (i : ℕ) → begun.size ≤ i → table i ≡ begun.table i

clean_either :
    (begin : ℕ) {es fs : List Entry}
    → (es ≡ fs) ⊎ (es ≡ clean_entries begin fs)
    → clean_entries begin es ≡ clean_entries begin fs
clean_either begin (inl e) = ap (clean_entries begin) e
clean_either begin {fs} (inr e) = ap (clean_entries begin) e ∙ clean_entries-twice begin fs

-- A range of buckets is cleaned that starts where the calls have come to.
range-After :
    (begun : Gc) (c n : ℕ) (table : ℕ → List Entry)
    → c * gc_chunk_size + n ≤ begun.size
    → reached begun.size (c + 1) ≤ c * gc_chunk_size + n
    → reached begun.size c ≡ c * gc_chunk_size
    → After begun c table
    → After begun (c + 1) (clean_buckets begun.begin_address (c * gc_chunk_size) n table)
range-After begun c n table within covers from h = record {
  cleaned = λ i lt. elim (Bool-cases (ltb i (c * gc_chunk_size))) [
    | inl before ↦
        clean_buckets-outside begin first table n i (inl (ground arith))
        ∙ h.cleaned i (ground (arith, from))
    | inr now ↦
        clean_buckets-inside begin first table n i (ground arith) (omega arith)
        ∙ clean_either begin (h.perhaps i)
  ];
  perhaps = λ i. elim (Bool-cases (leb first i && ltb i (first + n))) [
    | inl now ↦ inr (
        clean_buckets-inside begin first table n i (ground arith) (ground arith)
        ∙ clean_either begin (h.perhaps i))
    | inr not_now ↦
        subst (λ t. (t ≡ begun.table i) ⊎ (t ≡ clean_entries begin (begun.table i)))
          (sym (clean_buckets-outside begin first table n i (ground arith))) (h.perhaps i)
  ];
  outside =
      λ i le. clean_buckets-outside begin first table n i (inr (omega arith)) ∙ h.outside i le;
}
  where
    begin : ℕ
    begin = begun.begin_address

    first : ℕ
    first = c * gc_chunk_size

-- The state after `c` calls.
abbrev state : Gc → ℕ → (ℕ → List Entry) → Gc
state begun c table = record begun { next_chunk = c; table = table }

chunks_small : (size : ℕ) → size < u64 → chunks_of size < u64 - 1
chunks_small size small = elim (Bool-cases (leb 1 (size / gc_chunk_size))) [
  | inl many ↦ rw many (omega arith)
  | inr one ↦ rw one (omega arith)
]

call-state :
    (begun : Gc) (c : ℕ) (table : ℕ → List Entry)
    → c < begun.num_chunks
    → c + 1 < u64
    → clean_hash_table_buckets (state begun c table) ≡ (
      true,
      state begun (c + 1) (
          clean_buckets begun.begin_address
            (c * gc_chunk_size)
            (clean_bound (state begun c table) c)
            table),
    )
unfolding clean_hash_table_buckets
call-state begun c table lt small =
    let goes : leb begun.num_chunks c ≡ false = ground arith in
    let next : (c + 1) % u64 ≡ c + 1 = omega arith in rw (goes, next) refl

clean_calls-After :
    (begun : Gc) (c : ℕ)
    → begun.size < u64
    → begun.num_chunks ≡ chunks_of begun.size
    → begun.grow_num_chunks ≤ begun.num_chunks
    → c ≤ begun.num_chunks
    → (table : ℕ → List Entry) × (clean_calls c (record begun { next_chunk = 0 })
        ≡ state begun c table)
      × After begun c table
unfolding clean_calls
clean_calls-After begun zero small chunks grown le =
    let begins : ltb 0 (chunks_of begun.size) ≡ true = ground arith in
    (
      begun.table,
      refl,
      record {
        cleaned = λ i lt. absurd (omega (arith, rw begins at lt));
        perhaps = λ i. inl refl;
        outside = λ i le. refl;
      },
    )
clean_calls-After begun (suc c) small chunks grown le =
    let (t, e, h) = clean_calls-After begun c small chunks grown (omega arith) in
    let (within, covers, from) =
      clean_bound_covers (state begun c t) c small (omega (arith, chunks))
        (omega (arith, chunks)) in
    let few = chunks_small begun.size small in
    let call = call-state begun c t (omega arith) (omega (arith, few, chunks)) in
    let n = clean_bound (state begun c t) c in
    let t' = clean_buckets begun.begin_address (c * gc_chunk_size) n t in
    let up : c + 1 ≡ suc c = omega arith in
    (
      t',
      ap (λ s. (clean_hash_table_buckets s).1) e
          ∙ ap (λ r. r.1) call
          ∙ ap (λ m. state begun m t') up,
      subst (λ m. After begun m t') up (range-After begun c n t within covers from h),
    )

-- For a table of any size below 2^64, where there are as many chunks to collect as the table has, and where the chunks that the
-- growth of the index counts are no more than that, which the store does not see to:
-- after as many calls as there are chunks, every bucket of the table
-- is cleaned, nothing past the table is changed, and a further call does nothing and says so.
pub clean_calls-cover :
    (begun : Gc)
    → begun.size < u64
    → begun.num_chunks ≡ chunks_of begun.size
    → begun.grow_num_chunks ≤ begun.num_chunks
    → (s : Gc) × (clean_calls begun.num_chunks (record begun { next_chunk = 0 }) ≡ s)
      × ((i : ℕ) → i < begun.size → Cleaned begun.begin_address (begun.table i) (s.table i))
      × ((i : ℕ) → begun.size ≤ i → s.table i ≡ begun.table i)
      × ((clean_hash_table_buckets s).0 ≡ false)
      × ((clean_hash_table_buckets s).1.table ≡ s.table)
unfolding clean_hash_table_buckets
clean_calls-cover begun small chunks grown =
    let (t, e, h) = clean_calls-After begun begun.num_chunks small chunks grown (omega arith) in
    let past : ltb begun.num_chunks (chunks_of begun.size) ≡ false = ground (arith, chunks) in
    let all : reached begun.size begun.num_chunks ≡ begun.size = rw past refl in
    let over : leb begun.num_chunks begun.num_chunks ≡ true = ground arith in
    (
      state begun begun.num_chunks t,
      e,
      λ i lt.
          subst (Cleaned begun.begin_address (begun.table i))
            (sym (h.cleaned i (omega (arith, lt, all))))
            (clean_entries-Cleaned begun.begin_address (begun.table i)),
      h.outside,
      rw over refl,
      rw over refl,
    )

-- In a table of fewer buckets than a chunk, the one chunk runs past the table where the count of chunks
-- of the growth is more than 1, as before the first growth it may be: the bucket just past the table is
-- cleaned.
pub clean_overruns :
    (s : Gc)
    → s.num_chunks ≡ chunks_of s.size
    → s.next_chunk ≡ 0
    → s.size < gc_chunk_size
    → 1 < s.grow_num_chunks
    → ((clean_hash_table_buckets s).0 ≡ true)
      × ((clean_hash_table_buckets s).1.table s.size
          ≡ clean_entries s.begin_address (s.table s.size))
unfolding clean_hash_table_buckets clean_bound
clean_overruns s chunks starts few grown =
    let goes : leb s.num_chunks 0 ≡ false = ground arith in
    let whole : ltb (0 + 1) s.grow_num_chunks ≡ true = ground arith in
    rw (starts, goes, whole)
      (
        refl,
        clean_buckets-inside s.begin_address 0 s.table gc_chunk_size s.size (omega arith)
            (omega arith),
      )
