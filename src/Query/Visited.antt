-- ===== src/Query/Visited.antt =====
-- core/fishstore.h: the callbacks of AsyncGetFromDiskCallback at one key pointer.
use fish_store.Base.{
  ℕ, suc, ◌+◌, ◌%◌, ◌^◌, ◌<◌, ◌≤◌, ◌≡◌, inl, inr, refl, ap, ◌∙◌, ltb, if◌then◌else◌, Bool-cases,
  Option, none, some, ◌⊎◌, ◌==◌, true, false, zero, arith,
}
use fish_store.Batch.{is_ok}
use fish_store.Batch
use fish_store.Address.{u32}
use fish_store.Query.{Memory, record_at, matches}
use fish_store.Query.Disk.{
  IoContext, Next, Ending, fetch, size_at, offset_at, go_back, get_from_disk_callback, follow,
  follow_next, min_io_request_size,
}
use fish_store.Query.Followed.{
  fetch-Fetched, Placed, offset-pos, AtKey, AtHeader, moved, header_step, header_reads,
  record_at-low, key_lost, key_short, key_step,
}

-- The reads of a request where all of them succeed.
unfoldable pub follow_ok : ℕ → ℕ → Memory → IoContext → Option Ending
follow_ok sector zero m c = none
follow_ok sector (suc rounds) m c =
    follow_next sector (follow_ok sector rounds m) (get_from_disk_callback m Batch.Status.ok c)

-- The first read that fails ends a request: before it, all read well.
pub record Fails (answer : ℕ → Batch.Status) (i : ℕ) : Type 0 where
  pub read : ℕ
  pub later : i ≤ read
  pub before : (x : ℕ) → i ≤ x → x < read → is_ok (answer x) ≡ true
  pub fails : is_ok (answer read) ≡ false

get_from_disk_callback-answers :
    (m : Memory) (s : Batch.Status) (c : IoContext)
    → get_from_disk_callback m s c
      ≡ (if is_ok s then get_from_disk_callback m Batch.Status.ok c else Next.drops)
unfolding get_from_disk_callback
get_from_disk_callback-answers m s c = elim (Bool-cases (is_ok s)) [
  | inl fine ↦ rw fine refl
  | inr bad ↦ rw bad refl
]

-- Either a read fails and the context is dropped, or the request goes as if all reads succeed.
pub follow-answers :
    (sector : ℕ) (answer : ℕ → Batch.Status) (i rounds : ℕ) (m : Memory) (c : IoContext)
    → (Fails answer i × (follow sector answer i rounds m c ≡ some Ending.dropped))
      ⊎ (follow sector answer i rounds m c ≡ follow_ok sector rounds m c)
unfolding follow follow_ok
follow-answers sector answer i zero m c = inr refl
follow-answers sector answer i (suc rounds) m c = elim (Bool-cases (is_ok (answer i))) [
  | inr bad ↦ inl (
    record { read = i; later = omega arith; before = λ x le lt. absurd (omega arith); fails = bad },
    rw (get_from_disk_callback-answers m (answer i) c, bad) refl,
  )
  | inl fine ↦
      rw (get_from_disk_callback-answers m (answer i) c, fine)
        (rest (λ d. follow-answers sector answer (i + 1) rounds m d)
          (get_from_disk_callback m Batch.Status.ok c) fine)
]
  where
    rest :
        ((d : IoContext)
          → (Fails answer (i + 1) × (follow sector answer (i + 1) rounds m d ≡ some Ending.dropped))
            ⊎ (follow sector answer (i + 1) rounds m d ≡ follow_ok sector rounds m d))
        → (n : Next) → is_ok (answer i) ≡ true
        → (Fails answer i
            × (follow_next sector (follow sector answer (i + 1) rounds m) n ≡ some Ending.dropped))
          ⊎ (follow_next sector (follow sector answer (i + 1) rounds m) n
              ≡ follow_next sector (follow_ok sector rounds m) n)
    rest again (Next.responds d) fine = inr refl
    rest again Next.drops fine = inr refl
    rest again (Next.reads address num_records d) fine =
        elim (again (fetch sector address num_records d)) [
          | inr same ↦ inr same
          | inl (f, dropped) ↦
              let later = f.later in
              inl (
                record {
                  read = f.read;
                  later = omega arith;
                  before = λ x le lt. elim (Bool-cases (x == i)) [
                    | inl first ↦ ap (λ y. is_ok (answer y)) (ground arith) ∙ fine
                    | inr other ↦ f.before x (ground arith) lt
                  ];
                  fails = f.fails;
                },
                dropped,
              )
        ]

-- What the callbacks at one key pointer come to: a response with the record's address, or the way back.
pub record Visited (sector rounds : ℕ) (m : Memory) (a : ℕ) (o : Option Ending) : Type 0 where
  pub rest : ℕ
  pub context : IoContext
  pub enough : rounds ≤ rest
  pub address : context.address ≡ record_at m a
  pub result :
      o
      ≡ follow_next sector
          (follow_ok sector rest m)
          (if matches m a then Next.responds context else go_back m a context)

module _ (k : ℕ) (hk : k ≤ 16) (m : Memory) (a : ℕ) (p : Placed m a) where
  -- With the whole record, the header decides.
  whole_record :
      (rounds : ℕ) (c : IoContext)
      → AtHeader m a c
      → size_at m (record_at m a) ≤ c.available_bytes
      → Visited (2 ^ k) rounds m a (follow_ok (2 ^ k) (suc rounds) m c)
  unfolding follow_ok
  whole_record rounds c h whole = record {
    rest = rounds;
    context = c;
    enough = omega arith;
    address = h.address;
    result = ap (follow_next (2 ^ k) (follow_ok (2 ^ k) rounds m)) (header_step m a c p h whole);
  }

  AtHeader-Visited :
      (rounds : ℕ) (c : IoContext)
      → AtHeader m a c
      → Visited (2 ^ k) rounds m a (follow_ok (2 ^ k) (suc (suc rounds)) m c)
  unfolding follow_ok
  AtHeader-Visited rounds c h =
      elim (Bool-cases (ltb c.available_bytes (size_at m (record_at m a)))) [
        | inr whole ↦ larger (whole_record (suc rounds) c h (ground arith))
        | inl short ↦
            let f =
              fetch-Fetched k (record_at m a) (size_at m (record_at m a)) c hk (record_at-low m a p)
                p.small in
            again
              (ap (follow_next (2 ^ k) (follow_ok (2 ^ k) (suc rounds) m))
                (header_reads m a c h (ground arith)))
              (whole_record rounds (fetch (2 ^ k) (record_at m a) (size_at m (record_at m a)) c)
                (record {
                  valid = f.valid;
                  address = f.kept ∙ h.address;
                  kpt_offset = f.kept_offset ∙ h.kpt_offset;
                })
                f.enough)
      ]
    where
      larger :
          {o : Option Ending} → Visited (2 ^ k) (suc rounds) m a o → Visited (2 ^ k) rounds m a o
      larger v =
          let le = v.enough in
          record {
            rest = v.rest;
            context = v.context;
            enough = omega arith;
            address = v.address;
            result = v.result;
          }

      again :
          {o o' : Option Ending}
          → o ≡ o'
          → Visited (2 ^ k) rounds m a o'
          → Visited (2 ^ k) rounds m a o
      again e v = record {
        rest = v.rest;
        context = v.context;
        enough = v.enough;
        address = v.address;
        result = e ∙ v.result;
      }

  -- From a key pointer on, at most three callbacks decide.
  pub AtKey-Visited :
      (rounds : ℕ) (c : IoContext)
      → AtKey m a c
      → Visited (2 ^ k) rounds m a (follow_ok (2 ^ k) (suc (suc (suc rounds))) m c)
  unfolding follow_ok
  AtKey-Visited rounds c h =
      let (_, small) = offset-pos m a in
      let next = follow_next (2 ^ k) (follow_ok (2 ^ k) (suc (suc rounds)) m) in
      let headed : IoContext = record (moved m a c) { kpt_offset = offset_at m a } in
      elim (Bool-cases (ltb c.valid_offset (offset_at m a))) [
        | inl lost ↦ reached (ap next (key_lost m a c p h (ground arith))) (
            AtHeader-Visited rounds _
              (header_of (min_io_request_size + offset_at m a) headed (omega arith) refl refl))
        | inr there ↦
            elim (Bool-cases
              (ltb ((offset_at m a + c.available_bytes) % u32) (size_at m (record_at m a)))) [
                | inl short ↦ reached (ap next (key_short m a c p h (ground arith) short)) (
                    AtHeader-Visited rounds _
                      (header_of (size_at m (record_at m a)) headed p.small refl refl))
                | inr whole ↦ record {
                  rest = suc (suc rounds);
                  context = moved m a c;
                  enough = omega arith;
                  address = refl;
                  result = ap next (key_step m a c p h (ground arith) whole);
                }
              ]
      ]
    where
      header_of :
          (n : ℕ) (d : IoContext)
          → n < 2 ^ 30
          → d.address ≡ record_at m a
          → d.kpt_offset ≡ offset_at m a
          → AtHeader m a (fetch (2 ^ k) (record_at m a) n d)
      header_of n d low at off =
          let f = fetch-Fetched k (record_at m a) n d hk (record_at-low m a p) low in
          record { valid = f.valid; address = f.kept ∙ at; kpt_offset = f.kept_offset ∙ off }

      reached :
          {o o' : Option Ending}
          → o ≡ o'
          → Visited (2 ^ k) rounds m a o'
          → Visited (2 ^ k) rounds m a o
      reached e v = record {
        rest = v.rest;
        context = v.context;
        enough = v.enough;
        address = v.address;
        result = e ∙ v.result;
      }
