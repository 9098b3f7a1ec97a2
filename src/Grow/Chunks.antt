-- ===== src/Grow/Chunks.antt =====
-- core/fishstore.h: the chunks of SplitHashTableBuckets cover the table.
use fish_store.Base.{
  ℕ, zero, suc, ◌+◌, ◌*◌, ◌/◌, ◌-◌, ◌^◌, ◌<◌, ◌≤◌, ◌≡◌, ◌⊎◌, inl, inr, refl, sym, ap, ◌∙◌, ◌==◌,
  if◌then◌else◌, true, false, Bool, ltb, leb, Option, none, some, List, Bool-cases, arith,
}
use mathlib.Core.Path.{subst}
use fish_store.Address.{u64}
use fish_store.Bucket.{Entry}
use fish_store.Grow.{
  Source, Sides, slots, split_chain, Growing, chunk_size, chunks_of, initialize, upper_bound, put,
  split_buckets, split_chunk,
}
use fish_store.Grow.Trace.{Backward}
use fish_store.Grow.Other.{Keeps}
use fish_store.Grow.Split.{split_chain-Keeps}

-- Rounds of the loop, one after another, by any threads.
unfoldable pub split_chunks : ℕ → ℕ → Source → Growing → Option Growing
split_chunks zero rounds g s = some s
split_chunks (suc n) rounds g s = elim (split_chunks n rounds g s) [
  | none ↦ none
  | some t ↦ split_chunk rounds g t
]

freed_after :
    (pending : ℕ) (freed : Bool)
    → 0 < pending
    → freed ≡ (pending == 0)
    → (if pending - 1 == 0 then true else freed) ≡ (pending - 1 == 0)
freed_after pending freed pos e = elim (Bool-cases (pending - 1 == 0)) [
  | inl last ↦ rw last refl
  | inr more ↦ let not_yet : (pending == 0) ≡ false = ground arith in rw more (e ∙ not_yet)
]

-- The chunks of a table: each but the last one is whole, and the last one takes what is left.
pub chunks_cover :
    (size c : ℕ)
    → size < u64
    → c < chunks_of size
    → ((c + 1 < chunks_of size) × (c * chunk_size + chunk_size ≤ size))
      ⊎ ((c + 1 ≡ chunks_of size) × (c * chunk_size ≤ size))
chunks_cover size c small lt = elim (Bool-cases (leb 1 (size / chunk_size))) [
  | inl many ↦
      let n : chunks_of size ≡ size / chunk_size = rw many refl in
      elim (Bool-cases (ltb (c + 1) (chunks_of size))) [
        | inl more ↦ inl (ground arith, ground (arith, n))
        | inr last ↦ inr (ground arith, ground (arith, n))
      ]
  | inr one ↦ let n : chunks_of size ≡ 1 = rw one refl in inr (omega (arith, n), omega (arith, n))
]

module _ (rounds : ℕ) (g : Source) (old : ℕ → List Entry) (done : ℕ → Sides)
    (splits : (i : ℕ) → split_chain rounds g (old i) ≡ some (done i)) where
  -- The buckets below `m` are split.
  abbrev Split : (ℕ → List Entry) → ℕ → Type 0
  Split table m =
      (i : ℕ)
      → i < m
      → (table i ≡ slots (done i).side0) × (table (g.old_size + i) ≡ slots (done i).side1)

  put_sides-Split :
      (table : ℕ → List Entry) (m : ℕ)
      → m < g.old_size
      → Split table m
      → Split
          (put (put table m (slots (done m).side0)) (g.old_size + m) (slots (done m).side1))
          (m + 1)
  put_sides-Split table m lt h i below = elim (Bool-cases (i == m)) [
    | inl at ↦
        let e : m ≡ i = ground arith in
        let a : (i == g.old_size + i) ≡ false = ground arith in
        let b : (i == i) ≡ true = ground arith in
        let c : (g.old_size + i == g.old_size + i) ≡ true = ground arith in
        rw e ((rw (a, b) refl), (rw c refl))
    | inr before ↦
        let (at0, at1) = h i (ground arith) in
        let a : (i == g.old_size + m) ≡ false = ground arith in
        let c : (g.old_size + i == g.old_size + m) ≡ false = ground arith in
        let d : (g.old_size + i == m) ≡ false = ground arith in
        ((rw (a, before) at0), (rw (c, d) at1))
  ]

  split_buckets-Split :
      (first n : ℕ) (table : ℕ → List Entry)
      → first + n ≤ g.old_size
      → Split table first
      → (t : ℕ → List Entry) × (split_buckets rounds g old first n table ≡ some t)
        × Split t (first + n)
  unfolding split_buckets
  split_buckets-Split first zero table le h = (table, refl, λ i lt. h i (omega arith))
  split_buckets-Split first (suc n) table le h =
      let (t, e, so_far) = split_buckets-Split first n table (omega arith) h in
      let b = done (first + n) in
      let last = put_sides-Split t (first + n) (omega arith) so_far in
      (
        put (put t (first + n) (slots b.side0)) (g.old_size + (first + n)) (slots b.side1),
        rw (e, splits (first + n)) refl,
        λ i lt. last i (omega arith),
      )

  -- The buckets that the first `c` chunks hold.
  abbrev reached : ℕ → ℕ
  reached c = if ltb c (chunks_of g.old_size) then c * chunk_size else g.old_size

  record After (c : ℕ) (s : Growing) : Type 0 where
    counted : s.num_chunks ≡ chunks_of g.old_size
    claimed : s.next_chunk ≡ c
    pending : s.num_pending_chunks + c ≡ chunks_of g.old_size
    same : s.old_table ≡ old
    split : Split s.new_table (reached c)
    freed : s.old_freed ≡ (s.num_pending_chunks == 0)

  reached_more :
      (c : ℕ)
      → g.old_size < u64
      → c < chunks_of g.old_size
      → reached c + upper_bound (chunks_of g.old_size) g.old_size c ≡ reached (c + 1)
        × (reached c ≡ c * chunk_size)
        × (reached (c + 1) ≤ g.old_size)
  unfolding upper_bound
  reached_more c small lt =
      let here : ltb c (chunks_of g.old_size) ≡ true = ground arith in
      elim (chunks_cover g.old_size c small lt) [
        | inl (more, fits) ↦
            let next : ltb (c + 1) (chunks_of g.old_size) ≡ true = ground arith in
            rw (here, next) (omega arith, refl, omega arith)
        | inr (last, fits) ↦
            let next : ltb (c + 1) (chunks_of g.old_size) ≡ false = ground arith in
            rw (here, next) (omega arith, refl, omega arith)
      ]

  split_chunk-After :
      (c : ℕ) (s : Growing)
      → g.old_size < u64
      → c < chunks_of g.old_size
      → After c s
      → (s' : Growing) × (split_chunk rounds g s ≡ some s') × After (c + 1) s'
  unfolding split_chunk
  split_chunk-After c s small lt h =
      let (more, from, within) = reached_more c small lt in
      let n = upper_bound (chunks_of g.old_size) g.old_size c in
      let (t, e, split) =
        split_buckets-Split (c * chunk_size) n s.new_table (omega (arith, more, from, within))
          (subst (Split s.new_table) from h.split) in
      let claim : ltb c (chunks_of g.old_size) ≡ true = ground arith in
      (
        record s {
          next_chunk = c + 1;
          new_table = t;
          num_pending_chunks = s.num_pending_chunks - 1;
          old_freed = if s.num_pending_chunks - 1 == 0 then true else s.old_freed;
        },
        rw (h.claimed, h.counted, h.same, claim, e) refl,
        record {
          counted = h.counted;
          claimed = refl;
          pending = omega (arith, h.pending);
          same = h.same;
          split = subst (Split t) (ap (λ x. x + n) (sym from) ∙ more) split;
          freed = freed_after s.num_pending_chunks s.old_freed (omega (arith, h.pending)) h.freed;
        },
      )

  split_chunks-After :
      (c : ℕ)
      → g.old_size < u64
      → c ≤ chunks_of g.old_size
      → (s : Growing) × (split_chunks c rounds g (initialize g.old_size old) ≡ some s) × After c s
  unfolding split_chunks initialize
  split_chunks-After zero small le =
      let some_chunk : 0 < chunks_of g.old_size = ground arith in
      let begins : ltb 0 (chunks_of g.old_size) ≡ true = ground arith in
      (
        initialize g.old_size old,
        refl,
        record {
          counted = refl;
          claimed = refl;
          pending = omega arith;
          same = refl;
          split = λ i lt. absurd (omega (arith, (rw begins at lt)));
          freed = ground arith;
        },
      )
  split_chunks-After (suc c) small le =
      let (s, e, h) = split_chunks-After c small (omega arith) in
      let (s', e', h') = split_chunk-After c s small (omega arith) h in
      (s', rw e e', subst (λ n. After n s') (omega arith) h')

-- For an old table of any size below 2^64, where key pointers in memory point to lower addresses and the begin address is not 0,
-- with 2^48 rounds for each trace: once as many chunks are split as there are, the old table is freed,
-- and each old bucket's two new buckets lead to all that it led to: to each key pointer in memory from the bucket of its side,
-- to each one on disk from both.
pub split_chunks-Keeps :
    (rounds : ℕ) (g : Source) (table : ℕ → List Entry)
    → g.old_size < u64
    → Backward g
    → 0 < g.begin_address
    → 2 ^ 48 ≤ rounds
    → (s : Growing) × (split_chunks (chunks_of g.old_size) rounds g (initialize g.old_size table)
        ≡ some s)
      × (s.old_freed ≡ true)
      × ((i : ℕ)
          → i < g.old_size
          → Keeps g (table i) (s.new_table i) (s.new_table (g.old_size + i)))
split_chunks-Keeps rounds g table small backward positive enough =
    let split : (i : ℕ) → _ = λ i. split_chain-Keeps rounds g (table i) backward positive enough in
    let (s, e, h) =
      split_chunks-After rounds g table (λ i. (split i).0) (λ i. (split i).1) (chunks_of g.old_size)
        small (omega arith) in
    let past : ltb (chunks_of g.old_size) (chunks_of g.old_size) ≡ false = ground arith in
    let all : reached rounds g table _ (λ i. (split i).1) (chunks_of g.old_size) ≡ g.old_size =
      rw past refl in
    let pending : (s.num_pending_chunks == 0) ≡ true = ground (arith, h.pending) in
    (
      s,
      e,
      h.freed ∙ pending,
      λ i lt. let (at0, at1) = h.split i (omega (arith, lt, all)) in rw (at0, at1) (split i).2,
    )
