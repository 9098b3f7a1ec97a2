-- ===== src/Query/Target.antt =====
-- core/fishstore.h: where AsyncGetFromDiskCallback ends, and what InternalContinuePendingRead takes from it.
use fish_store.Base.{
  ℕ, zero, suc, ◌+◌, ◌*◌, ◌-◌, ◌%◌, ◌^◌, ◌<◌, ◌≤◌, ◌≡◌, ◌⊎◌, inl, inr, refl, ap, ◌∙◌, Bool, true,
  false, ltb, leb, Bool-cases, some, List, [], ◌∷◌, arith,
}
use fish_store.Address.{u32}
use fish_store.Batch
use fish_store.Query.{Memory, prev_address, record_at, matches}
use fish_store.Query.Disk.{
  IoContext, Next, fetch, size_at, offset_at, go_back, get_from_disk_callback,
  continue_pending_read, Ending, follow, min_io_request_size,
}
use fish_store.Query.Traced.{chain, chain_end, select, Backward, chain-within, chain-below}
use fish_store.Query.Followed.{
  fetch-Fetched, Placed, record_at-offset, offset-pos, AtKey, moved, key_step,
}
use fish_store.Query.Visited.{follow_ok, Fails, follow-answers, AtKey-Visited}

-- Where a request is to end: at the record of the first match, or where the chain ends.
abbrev pub target : Memory → List ℕ → ℕ → ℕ
target m [] last = last
target m (a ∷ rest) last = record_at m a

-- The read of a key pointer, which a request begins with.
abbrev pub request : ℕ → ℕ → IoContext → IoContext
request sector a c = fetch sector a min_io_request_size (record c { address = a; kpt_offset = 0 })

request-AtKey :
    (k : ℕ) (m : Memory) (a : ℕ) (c : IoContext)
    → k ≤ 16
    → a < 2 ^ 48
    → AtKey m a (request (2 ^ k) a c)
request-AtKey k m a c hk low =
    let f =
      fetch-Fetched k a min_io_request_size (record c { address = a; kpt_offset = 0 }) hk low
        (omega arith) in
    record { valid = f.valid; address = f.kept; kpt_offset = f.kept_offset }

module _ (k : ℕ) (hk : k ≤ 16) (m : Memory) (all_on_disk : m.head_address ≡ m.begin_address)
    (backward : Backward m) (placed : (a : ℕ) → m.begin_address ≤ a → a < 2 ^ 48 → Placed m a) where
  on_disk :
      (bound rounds n a : ℕ) (c : IoContext)
      → a < bound
      → a < n
      → 3 * a + 3 ≤ rounds
      → m.begin_address ≤ a
      → a < 2 ^ 48
      → AtKey m a c
      → (r : IoContext) × (follow_ok (2 ^ k) rounds m c ≡ some (Ending.pushed r))
        × (r.address ≡ target m (select (matches m) (chain n m a)) (chain_end n m a))
  unfolding select go_back
  on_disk zero rounds n a c lt lt' enough from low h = absurd (omega arith)
  on_disk (suc bound) rounds n a c lt lt' enough from low h =
      let three : rounds ≡ suc (suc (suc (rounds - 3))) = omega arith in
      let inside : m.head_address ≤ a = omega (arith, all_on_disk) in
      let (same, same_end) = chain-within m n a backward lt' inside in
      let lower = backward a inside in
      let v = AtKey-Visited k hk m a (placed a from low) (rounds - 3) c h in
      let more = v.enough in
      let start = ap (λ x. follow_ok (2 ^ k) x m c) three ∙ v.result in
      elim (Bool-cases (matches m a)) [
        | inl match ↦ (v.context, start ∙ rw match refl, rw (same, match) v.address)
        | inr differs ↦ elim (Bool-cases (leb m.begin_address (prev_address m a))) [
          | inl there ↦
              let (r, e, at) =
                on_disk bound v.rest n (prev_address m a)
                  (request (2 ^ k) (prev_address m a) v.context) (omega arith) (omega arith)
                  (omega arith) (ground arith) (omega arith)
                  (request-AtKey k m (prev_address m a) v.context hk (omega arith)) in
              (r, start ∙ rw (differs, there) e, rw (same, differs, same_end) at)
          | inr gone ↦
              let (none_left, last) =
                chain-below m n (prev_address m a) (ground (arith, all_on_disk)) in
              (
                record v.context { address = prev_address m a },
                start ∙ rw (differs, gone) refl,
                rw (same, differs, same_end, none_left, last) refl,
              )
        ]
      ]

-- A request for the key pointer at `a`, within the log, on a disk whose whole chain points to lower addresses and is placed
-- within 2^48 bytes, with three reads for each address, and with any results of the reads: it ends in one of two ways. Either
-- the context is pushed to the thread's responses, with the address of the record of the first key pointer of the chain
-- from `a` on that matches, or where none does, the address where the chain leaves the log; or a read fails, all before it
-- succeeded, and the context is dropped, so that nothing answers the request. If all reads succeed, it is pushed.
pub follow-target :
    (k rounds n : ℕ) (m : Memory) (a : ℕ) (c : IoContext) (answer : ℕ → Batch.Status)
    → k ≤ 16
    → m.head_address ≡ m.begin_address
    → Backward m
    → ((x : ℕ) → m.begin_address ≤ x → x < 2 ^ 48 → Placed m x)
    → a < n
    → 3 * a + 3 ≤ rounds
    → m.begin_address ≤ a
    → a < 2 ^ 48
    → ((r : IoContext) × (follow (2 ^ k) answer 0 rounds m (request (2 ^ k) a c)
          ≡ some (Ending.pushed r))
        × (r.address ≡ target m (select (matches m) (chain n m a)) (chain_end n m a)))
      ⊎ (Fails answer 0
          × (follow (2 ^ k) answer 0 rounds m (request (2 ^ k) a c) ≡ some Ending.dropped))
follow-target k rounds n m a c answer hk all_on_disk backward placed lt enough from low =
    let (r, e, at) =
      on_disk k hk m all_on_disk backward placed (suc a) rounds n a (request (2 ^ k) a c)
        (omega arith) lt enough from low (request-AtKey k m a c hk low) in
    elim (follow-answers (2 ^ k) answer 0 rounds m (request (2 ^ k) a c)) [
      | inl failing ↦ inr failing
      | inr same ↦ inl (r, same ∙ e, at)
    ]

-- The first read of a request, where it holds the whole record of a key pointer that matches: the context is pushed with the
-- address of the record, but its buffer is valid from the key pointer on, and that place, which is above the record,
-- is what InternalContinuePendingRead passes to `Get`.
pub continue_pending_read-misplaced :
    (m : Memory) (a : ℕ) (c : IoContext) (newer : Bool)
    → Placed m a
    → AtKey m a c
    → offset_at m a ≤ c.valid_offset
    → ltb ((offset_at m a + c.available_bytes) % u32) (size_at m (record_at m a)) ≡ false
    → matches m a ≡ true
    → m.begin_address ≤ record_at m a
    → (d : IoContext) × (get_from_disk_callback m Batch.Status.ok c ≡ Next.responds d)
      × (d.address ≡ record_at m a)
      × ((continue_pending_read m newer d).1 ≡ some a)
      × (record_at m a < a)
unfolding continue_pending_read
continue_pending_read-misplaced m a c newer p h there whole match from =
    let (pos, _) = offset-pos m a in
    let sum = record_at-offset m a p in
    let within : leb m.begin_address (record_at m a) ≡ true = ground arith in
    (
      moved m a c,
      key_step m a c p h there whole ∙ rw match refl,
      refl,
      rw within (ap some h.valid),
      omega arith,
    )
