-- ===== src/Thread/Reserve.antt =====
-- core/thread.h: `ReserveEntry` and its loop over the ids.
use fish_store.Base.{
  ℕ, zero, suc, ◌+◌, ◌-◌, ◌*◌, ◌%◌, ◌<◌, ◌≡◌, refl, Bool, true, false, ltb, ◌==◌, if◌then◌else◌,
  Bool-cases, lt→ltb, inl, inr, some, arith,
}
use fish_store.Address.{u32}
use fish_store.Thread.{Ids, max_num_threads, mark, reserve_loop, reserve_entry}

-- What reserving gives: an id in range that was free, and that alone is taken.
pub record Reserves (used : ℕ → Bool) (r : ℕ × (ℕ → Bool)) : Type 0 where
  pub small : r.0 < max_num_threads
  pub free : used r.0 ≡ false
  pub taken : (j : ℕ) → r.1 j ≡ (if j == r.0 then true else used j)

reserve_loop-Reserves :
    (used : ℕ → Bool) (rounds id k : ℕ)
    → k < rounds
    → used ((id + k) % max_num_threads) ≡ false
    → (r : ℕ × (ℕ → Bool)) × (reserve_loop used rounds id ≡ some r) × Reserves used r
unfolding reserve_loop
reserve_loop-Reserves used zero id k h free = absurd (omega arith)
reserve_loop-Reserves used (suc rounds) id k h free =
    elim (Bool-cases (used (id % max_num_threads))) [
      | inr here ↦ (
        (id % max_num_threads, mark used (id % max_num_threads) true),
        rw here refl,
        record { small = omega arith; free = here; taken = λ j. refl },
      )
      | inl busy ↦ elim (Bool-cases (k == 0)) [
        | inl first ↦
            let same : (id + k) % max_num_threads ≡ id % max_num_threads = ground arith in
            absurd (cc same)
        | inr later ↦
            let same : id + 1 + (k - 1) ≡ id + k = ground arith in
            rw busy
              (reserve_loop-Reserves used rounds (id + 1) (k - 1) (ground arith) (rw same free))
      ]
    ]

-- Before the index counter nears 2^32, reserving succeeds whenever an id is free: it gives an id that
-- was free, marks it as taken, and leaves the other ids as they were.
pub reserve_entry-Reserves :
    (s : Ids) (f : ℕ)
    → f < max_num_threads
    → s.id_used f ≡ false
    → s.next_index + 2 * max_num_threads < u32
    → (r : ℕ × Ids) × (reserve_entry s ≡ some r) × Reserves s.id_used (r.0, r.1.id_used)
unfolding reserve_entry
reserve_entry-Reserves s f small free room =
    let k = (f + max_num_threads - s.next_index % max_num_threads) % max_num_threads in
    let at : (s.next_index + k) % max_num_threads ≡ f = omega arith in
    let (r, e, reserves) =
      reserve_loop-Reserves s.id_used 192 s.next_index k (omega arith) (rw at free) in
    let rounds : ltb s.next_index ((s.next_index + 192) % u32) ≡ true =
      lt→ltb s.next_index ((s.next_index + 192) % u32) (omega arith) in
    (
      (r.0, record { next_index = (s.next_index + 1) % u32; id_used = r.1 }),
      rw (rounds, e, reserve_entry) refl,
      reserves,
    )
