-- ===== src/Chain/Alone.antt =====
-- core/fishstore.h, `InternalInsert`: an insertion that runs while the others rest.
use fish_store.Base.{
  ℕ, zero, suc, ◌+◌, ◌<◌, ◌≤◌, ◌≡◌, ◌≢◌, ◌⊎◌, inl, inr, refl, ap, sym, ◌∙◌, true, ltb, ◌==◌,
  Bool-cases, arith,
}
use mathlib.Core.Path.{subst}
use fish_store.Chain.{Pc, Insertions, inspect, access, advance}
use fish_store.Chain.Moves.{Reach, Stands, put-same, put-other}
use fish_store.Chain.Backward.{Reach-Inv}

-- The next accesses of the insertion of `k`, one after another.
unfoldable pub run : ℕ → Insertions → ℕ → Insertions
run zero s k = s
run (suc n) s k = run n (advance s k) k

-- Within some accesses the insertion ends.
abbrev Ends : ℕ → Insertions → ℕ → Type 0
Ends bound s k = (n : ℕ) × (n ≤ bound) × ((run n s k).pc k ≡ Pc.linked)

Ends-later :
    (bound : ℕ) (s : Insertions) (k : ℕ) → Ends bound (advance s k) k → Ends (bound + 1) s k
unfolding run
Ends-later bound s k (n, small, done) = (suc n, omega arith, done)

Ends-more :
    (bound more : ℕ) (s : Insertions) (k : ℕ) → bound ≤ more → Ends bound s k → Ends more s k
Ends-more bound more s k le (n, small, done) = (n, omega arith, done)

advance-at : (s : Insertions) (k : ℕ) (p : Pc) → s.pc k ≡ p → advance s k ≡ access p s k
unfolding advance
advance-at s k p at = ap (λ q. access q s k) at

-- A key pointer whose word is as expected is altered at once.
holding-Ends : (s : Insertions) (k a : ℕ) → s.pc k ≡ Pc.holding a (s.prev a) → Ends 1 s k
unfolding run access
holding-Ends s k a at =
    let won : (s.prev a == s.prev a) ≡ true = ground arith in
    (
      1,
      omega arith,
      ap (λ (t : Insertions). t.pc k) (advance-at s k _ at) ∙ rw won (put-same s.pc k Pc.linked),
    )

-- What the inner loop comes to at a key pointer above `k`: it has found where to link, or it goes on
-- to a lower key pointer.
inspect-cases :
    (s : Insertions) (k a : ℕ)
    → k < a
    → ((inspect s k a).pc k ≡ Pc.holding a ((inspect s k a).prev a))
      ⊎ (((inspect s k a).pc k ≡ Pc.reads (s.prev a)))
unfolding inspect
inspect-cases s k a lt = elim (Bool-cases (ltb k (s.prev a))) [
  | inl beyond ↦ inr (rw beyond (put-same s.pc k _))
  | inr before ↦
      let differs : a ≢ k = omega arith in
      let word = put-other s.prev k a (s.prev a) differs in
      inl (rw before (put-same s.pc k _ ∙ ap (Pc.holding a) (sym word)))
]

inspected-Ends :
    {base : ℕ} (m : ℕ) {s : Insertions} (k a : ℕ)
    → Reach base s
    → a ≤ m
    → k < a
    → s.pc a ≡ Pc.linked
    → advance s k ≡ inspect s k a
    → Ends (m + 2) s k
unfolding access
inspected-Ends zero k a r le lt l e = absurd (omega arith)
inspected-Ends {base} (suc m) {s} k a r le lt l e =
    let (_, _, lower, _) = subst (Stands base s a) l ((Reach-Inv r).stands a) in
    let r' : Reach base (advance s k) = Reach.advances k r in
    elim (inspect-cases s k a lt) [
      | inl found ↦
          let at : (advance s k).pc k ≡ Pc.holding a ((advance s k).prev a) =
            subst (λ t. t.pc k ≡ Pc.holding a (t.prev a)) (sym e) found in
          Ends-more 2 (suc m + 2) s k (omega arith)
            (Ends-later 1 s k (holding-Ends (advance s k) k a at))
      | inr further ↦
          let at : (advance s k).pc k ≡ Pc.reads (s.prev a) = ap (λ t. t.pc k) e ∙ further in
          let (_, l', lt') = subst (Stands base (advance s k) k) at ((Reach-Inv r').stands k) in
          Ends-more (m + 2 + 1) (suc m + 2) s k (omega arith) (
            Ends-later (m + 2) s k
              (inspected-Ends m k (s.prev a) r' (omega arith) lt' l' (advance-at _ k _ at)))
    ]

-- From any reachable state, an insertion that has begun ends when it runs while the others rest: the
-- loops over the entry and over the chain come to their ends.
pub insertion_ends :
    {base : ℕ} {s : Insertions} (k : ℕ)
    → Reach base s
    → s.pc k ≢ Pc.absent
    → (n : ℕ) × ((run n s k).pc k ≡ Pc.linked)
unfolding run access
insertion_ends {base} {s} k r begun = from (s.pc k) refl
  where
    reading : {t : Insertions} (a : ℕ) → Reach base t → t.pc k ≡ Pc.reads a → Ends (a + 2) t k
    reading {t} a q at =
        let (_, l, lt) = subst (Stands base t k) at ((Reach-Inv q).stands k) in
        inspected-Ends a k a q (omega arith) lt l (advance-at _ k _ at)

    retrying : {t : Insertions} (e : ℕ) → Reach base t → t.pc k ≡ Pc.trying t.head → Ends 1 t k
    retrying {t} e q at =
        let won : (t.head == t.head) ≡ true = ground arith in
        (
          1,
          omega arith,
          ap (λ (u : Insertions). u.pc k) (advance-at t k _ at)
              ∙ rw won (put-same t.pc k Pc.linked),
        )

    from : (p : Pc) → s.pc k ≡ p → (n : ℕ) × ((run n s k).pc k ≡ Pc.linked)
    from Pc.absent at = absurd (begun at)
    from (Pc.trying e) at =
        let r' : Reach base (advance s k) = Reach.advances k r in
        let step = advance-at s k _ at in
        elim (Bool-cases (s.head == e)) [
          | inl won ↦ (1, ap (λ (u : Insertions). u.pc k) step ∙ rw won (put-same s.pc k Pc.linked))
          | inr lost ↦ elim (Bool-cases (ltb s.head k)) [
            | inl below ↦
                let head : (advance s k).head ≡ s.head =
                  ap (λ (u : Insertions). u.head) step ∙ rw (lost, below) refl in
                let at' : (advance s k).pc k ≡ Pc.trying s.head =
                  ap (λ (u : Insertions). u.pc k) step ∙ rw (lost, below) (put-same s.pc k _) in
                let (n, _, done) = retrying e r' (at' ∙ ap Pc.trying (sym head)) in (suc n, done)
            | inr beyond ↦
                let at' : (advance s k).pc k ≡ Pc.reads s.head =
                  ap (λ (u : Insertions). u.pc k) step ∙ rw (lost, beyond) (put-same s.pc k _) in
                let (n, _, done) = reading s.head r' at' in (suc n, done)
          ]
        ]
    from (Pc.reads a) at = let (n, _, done) = reading a r at in (n, done)
    from (Pc.holding a e) at =
        let step = advance-at s k _ at in
        let (_, l, lt, _, _) = subst (Stands base s k) at ((Reach-Inv r).stands k) in
        elim (Bool-cases (s.prev a == e)) [
          | inl won ↦ (1, ap (λ (u : Insertions). u.pc k) step ∙ rw won (put-same s.pc k Pc.linked))
          | inr lost ↦
              let (n, _, done) = inspected-Ends a k a r (omega arith) lt l (step ∙ rw lost refl) in
              (n, done)
        ]
    from Pc.linked at = (0, at)
