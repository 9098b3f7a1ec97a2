-- ===== src/Query/Traced.antt =====
-- core/fishstore.h: what TraceBackForMatch finds on a hash chain.
use fish_store.Base.{
  ℕ, zero, suc, ◌<◌, ◌≤◌, ◌≡◌, ◌⊎◌, inl, inr, refl, ap, ◌∙◌, Bool, true, false, ltb, leb,
  if◌then◌else◌, Bool-cases, some, List, [], ◌∷◌, arith,
}
use fish_store.Query.{Memory, prev_address, matches, trace_back_for_match, first_match, skip_above}

-- The key pointers of a hash chain that are in memory, and the first address that is not.
unfoldable pub chain : ℕ → Memory → ℕ → List ℕ
chain zero m a = []
chain (suc n) m a =
    let rest = chain n m (prev_address m a) in if leb m.head_address a then a ∷ rest else []

unfoldable pub chain_end : ℕ → Memory → ℕ → ℕ
chain_end zero m a = a
chain_end (suc n) m a =
    let rest = chain_end n m (prev_address m a) in if leb m.head_address a then rest else a

unfoldable pub select : (ℕ → Bool) → List ℕ → List ℕ
select p [] = []
select p (x ∷ xs) = let rest = select p xs in if p x then x ∷ rest else rest

-- Key pointers in memory point to lower addresses.
abbrev pub Backward : Memory → Type 0
Backward m = (a : ℕ) → m.head_address ≤ a → prev_address m a < a

-- The bound on the chain's length does not matter.
pub chain-rounds :
    (m : Memory) (n n' a : ℕ)
    → Backward m
    → a < n
    → a < n'
    → (chain n m a ≡ chain n' m a) × (chain_end n m a ≡ chain_end n' m a)
unfolding chain chain_end
chain-rounds m zero n' a backward lt lt' = absurd (omega arith)
chain-rounds m (suc n) zero a backward lt lt' = absurd (omega arith)
chain-rounds m (suc n) (suc n') a backward lt lt' = elim (Bool-cases (leb m.head_address a)) [
  | inr below ↦ rw below (refl, refl)
  | inl within ↦
      let lower = backward a (ground arith) in
      let (same, same_end) =
        chain-rounds m n n' (prev_address m a) backward (omega arith) (omega arith) in
      rw within (ap (λ xs. a ∷ xs) same, same_end)
]

pub chain-within :
    (m : Memory) (n a : ℕ)
    → Backward m
    → a < n
    → m.head_address ≤ a
    → (chain n m a ≡ a ∷ chain n m (prev_address m a))
      × (chain_end n m a ≡ chain_end n m (prev_address m a))
unfolding chain chain_end
chain-within m zero a backward lt within = absurd (omega arith)
chain-within m (suc n) a backward lt within =
    let lower = backward a within in
    let above : leb m.head_address a ≡ true = ground arith in
    let (same, same_end) =
      chain-rounds m n (suc n) (prev_address m a) backward (omega arith) (omega arith) in
    rw above (ap (λ xs. a ∷ xs) same, same_end)

pub chain-below :
    (m : Memory) (n a : ℕ) → a < m.head_address → (chain n m a ≡ []) × (chain_end n m a ≡ a)
unfolding chain chain_end
chain-below m zero a below = (refl, refl)
chain-below m (suc n) a below =
    let under : leb m.head_address a ≡ false = ground arith in rw under (refl, refl)

-- From `a` to `t` the chain has no key pointer that counts.
pub record Passed (n : ℕ) (m : Memory) (counts : ℕ → Bool) (a t : ℕ) : Type 0 where
  pub le : t ≤ a
  pub same : select counts (chain n m a) ≡ select counts (chain n m t)
  pub same_end : chain_end n m a ≡ chain_end n m t

Passed-refl : (n : ℕ) (m : Memory) (counts : ℕ → Bool) (a : ℕ) → Passed n m counts a a
Passed-refl n m counts a = record { le = omega arith; same = refl; same_end = refl }

module _ (m : Memory) (n : ℕ) (counts : ℕ → Bool) (backward : Backward m) where
  -- One step back, past a key pointer that does not count.
  step_back :
      (a t : ℕ)
      → a < n
      → m.head_address ≤ a
      → counts a ≡ false
      → Passed n m counts (prev_address m a) t
      → Passed n m counts a t
  unfolding select
  step_back a t lt within not_counted p =
      let (same, same_end) = chain-within m n a backward lt within in
      let lower = backward a within in
      let le = p.le in
      record {
        le = omega arith;
        same = rw (same, not_counted) p.same;
        same_end = same_end ∙ p.same_end;
      }

  -- What a trace finds: a match, or an address that is not in memory.
  pub trace_back-Passed :
      (rounds a : ℕ)
      → ((x : ℕ) → matches m x ≡ false → counts x ≡ false)
      → a < rounds
      → a < n
      → (t : ℕ) × (trace_back_for_match rounds m a m.head_address ≡ some t)
        × Passed n m counts a t
        × ((t < m.head_address) ⊎ (matches m t ≡ true))
  unfolding trace_back_for_match
  trace_back-Passed zero a none_counts lt lt' = absurd (omega arith)
  trace_back-Passed (suc rounds) a none_counts lt lt' = elim (Bool-cases (leb m.head_address a)) [
    | inr below ↦ rw below (a, refl, Passed-refl n m counts a, inl (ground arith))
    | inl within ↦ elim (Bool-cases (matches m a)) [
      | inl match ↦ rw (within, match) (a, refl, Passed-refl n m counts a, inr match)
      | inr differs ↦
          let lower = backward a (ground arith) in
          let (t, e, p, ends) =
            trace_back-Passed rounds (prev_address m a) none_counts (omega arith) (omega arith) in
          rw (within, differs)
            (t, e, step_back a t lt' (ground arith) (none_counts a differs) p, ends)
    ]
  ]

  pub first_match-Passed :
      (rounds a : ℕ)
      → ((x : ℕ) → matches m x ≡ false → counts x ≡ false)
      → a < rounds
      → a < n
      → (t : ℕ) × (first_match rounds m a ≡ some t)
        × Passed n m counts a t
        × ((t < m.head_address) ⊎ (matches m t ≡ true))
  unfolding first_match trace_back_for_match
  first_match-Passed rounds a none_counts lt lt' =
      trace_back-Passed (suc rounds) a none_counts (omega arith) lt'

  pub skip_above-Passed :
      (rounds end_addr a : ℕ)
      → ((x : ℕ) → end_addr < x → counts x ≡ false)
      → a < rounds
      → a < n
      → (t : ℕ) × (skip_above rounds m end_addr a ≡ some t)
        × Passed n m counts a t
        × ((t < m.head_address) ⊎ (t ≤ end_addr))
  unfolding skip_above
  skip_above-Passed zero end_addr a none_counts lt lt' = absurd (omega arith)
  skip_above-Passed (suc rounds) end_addr a none_counts lt lt' =
      elim (Bool-cases (ltb end_addr a)) [
        | inr low ↦ rw low (a, refl, Passed-refl n m counts a, inr (ground arith))
        | inl high ↦ elim (Bool-cases (leb m.head_address a)) [
          | inr below ↦ rw (high, below) (a, refl, Passed-refl n m counts a, inl (ground arith))
          | inl within ↦
              let lower = backward a (ground arith) in
              let (t, e, p, ends) =
                skip_above-Passed rounds end_addr (prev_address m a) none_counts (omega arith)
                  (omega arith) in
              rw (high, within)
                (t, e, step_back a t lt' (ground arith) (none_counts a (ground arith)) p, ends)
        ]
      ]
