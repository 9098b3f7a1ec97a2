-- ===== src/Query/Explored.antt =====
-- core/fishstore.h: the loop of InternalScan against the hash chain.
use mathlib.Core.List.{map}
use fish_store.Base.{
  ℕ, zero, suc, ◌<◌, ◌≤◌, ◌≡◌, ◌⊎◌, inl, inr, refl, sym, ap, ◌∙◌, Bool, true, false, ◌&&◌, leb,
  Bool-cases, some, [], arith,
}
use fish_store.Query.{
  Memory, prev_address, record_at, matches, trace_back_for_match, touch, and_then, explore,
}
use fish_store.Query.Traced.{
  chain, chain_end, select, Backward, chain-within, chain-below, trace_back-Passed,
}

-- Every key pointer of a chain is at most where it starts.
select-above :
    (m : Memory) (n a bound : ℕ) (counts : ℕ → Bool)
    → Backward m
    → a < bound
    → ((x : ℕ) → x < bound → counts x ≡ false)
    → select counts (chain n m a) ≡ []
unfolding select chain
select-above m zero a bound counts backward lt none_counts = refl
select-above m (suc n) a bound counts backward lt none_counts =
    elim (Bool-cases (leb m.head_address a)) [
      | inr below ↦ rw below refl
      | inl within ↦
          let lower = backward a (ground arith) in
          rw (within, none_counts a lt)
            (select-above m n (prev_address m a) bound counts backward (omega arith) none_counts)
    ]

is_match :
    (m : Memory) (t : ℕ)
    → m.head_address ≤ t
    → (t < m.head_address) ⊎ (matches m t ≡ true)
    → matches m t ≡ true
is_match m t within (inl below) = absurd (omega arith)
is_match m t within (inr match) = match

explore_on :
    (traces rounds : ℕ) (m : Memory) (start_addr t : ℕ)
    → (leb start_addr t && leb m.head_address t) ≡ true
    → explore traces (suc rounds) m start_addr t
      ≡ touch (record_at m t) (
          and_then
            (trace_back_for_match traces m (prev_address m t) m.head_address)
            (λ b. explore traces rounds m start_addr b))
unfolding explore
explore_on traces rounds m start_addr t e = rw e refl

explore_stops :
    (traces rounds : ℕ) (m : Memory) (start_addr t : ℕ)
    → (leb start_addr t && leb m.head_address t) ≡ false
    → explore traces (suc rounds) m start_addr t ≡ some ([], t)
unfolding explore
explore_stops traces rounds m start_addr t e = rw e refl

module _ (m : Memory) (n start_addr end_addr : ℕ) (counts : ℕ → Bool) (backward : Backward m)
    (no_match : (x : ℕ) → matches m x ≡ false → counts x ≡ false)
    (too_low : (x : ℕ) → x < start_addr → counts x ≡ false)
    (in_range : (x : ℕ)
      → start_addr ≤ x
      → x ≤ end_addr
      → matches m x ≡ true
      → counts x ≡ true) where
  -- The loop touches all that counts from a match on.
  pub explore-touches :
      (traces rounds t : ℕ)
      → t < traces
      → t < rounds
      → t < n
      → (t < m.head_address) ⊎ (t ≤ end_addr)
      → (t < m.head_address) ⊎ (matches m t ≡ true)
      → (f : ℕ) × (explore traces rounds m start_addr t
          ≡ some (map (record_at m) (select counts (chain n m t)), f))
        × ((f < start_addr) ⊎ (f < m.head_address))
        × (f ≤ t)
        × (chain_end n m f ≡ chain_end n m t)
  unfolding select
  explore-touches traces zero t lt lt' low le match = absurd (omega arith)
  explore-touches traces (suc rounds) t lt lt' low le match = elim (Bool-cases (leb start_addr t)) [
    | inr under ↦
        let below : t < start_addr = ground arith in
        (
          t,
          explore_stops traces rounds m start_addr t (ground arith)
              ∙ ap (λ xs. some (map (record_at m) xs, t))
                  (sym (select-above m n t start_addr counts backward below too_low)),
          inl below,
          omega arith,
          refl,
        )
    | inl above ↦ elim (Bool-cases (leb m.head_address t)) [
      | inr outside ↦
          let below : t < m.head_address = ground arith in
          (
            t,
            explore_stops traces rounds m start_addr t (ground arith)
                ∙ ap (λ xs. some (map (record_at m) (select counts xs), t))
                    (sym (chain-below m n t below).0),
            inr below,
            omega arith,
            refl,
          )
      | inl within ↦
          let inside : m.head_address ≤ t = ground arith in
          let lower = backward t inside in
          let high : t ≤ end_addr = ground arith in
          let (same, same_end) = chain-within m n t backward low inside in
          let (b, e, p, ends) =
            trace_back-Passed m n counts backward traces (prev_address m t) no_match (omega arith)
              (omega arith) in
          let less = p.le in
          let (f, e', stops, up_to, end) =
            explore-touches traces rounds b (omega arith) (omega arith) (omega arith)
              (inr (omega arith)) ends in
          let counted = in_range t (ground arith) high (is_match m t inside match) in
          (
            f,
            explore_on traces rounds m start_addr t (ground arith)
                ∙ rw (e, e', same, counted, p.same) refl,
            stops,
            omega arith,
            end ∙ sym p.same_end ∙ sym same_end,
          )
    ]
  ]
