-- ===== src/Chain/Moves.antt =====
-- core/fishstore.h, `InternalInsert`: the reachable states of a hash chain, and how a step changes it.
use fish_store.Base.{ℕ, ◌<◌, ◌≡◌, ◌≢◌, ◌⊎◌, inl, inr, ap, sym, ◌∙◌, ◌==◌, Bool-cases, arith}
use mathlib.Core.Path.{subst}
use fish_store.Chain.{Pc, Insertions, put, begin, advance}

-- A chain that starts at the address `base`, which is below those of all key pointers; insertions
-- begin with an address below their own, since their space is allocated afterwards, and take their
-- steps in any order.
pub data Reach (base : ℕ) : Insertions → Type 0 where
  start : Reach base (record { head = base; prev = λ _. 0; pc = λ _. Pc.absent })
  begins :
      {s : Insertions} (k expected : ℕ)
      → Reach base s
      → s.pc k ≡ Pc.absent
      → base < k
      → expected < k
      → Reach base (begin s k expected)
  advances : {s : Insertions} (k : ℕ) → Reach base s → Reach base (advance s k)

-- The addresses met from the entry on.
pub data On (s : Insertions) : ℕ → Type 0 where
  top : On s s.head
  down : {a : ℕ} → On s a → s.pc a ≡ Pc.linked → On s (s.prev a)

abbrev pub Ok : ℕ → Insertions → ℕ → Type 0
Ok base s a = (a ≡ base) ⊎ (s.pc a ≡ Pc.linked)

-- What holds of a key pointer, by where its insertion stands.
abbrev pub Stands : ℕ → Insertions → ℕ → Pc → Type 0
Stands base s k Pc.absent = Unit
Stands base s k (Pc.trying e) = (base < k) × (s.prev k ≡ e) × (e < k)
Stands base s k (Pc.reads a) = (base < k) × (s.pc a ≡ Pc.linked) × (k < a)
Stands base s k (Pc.holding a e) =
    (base < k) × (s.pc a ≡ Pc.linked) × (k < a) × (s.prev k ≡ e) × (e < k)
Stands base s k Pc.linked = (base < k) × On s k × (s.prev k < k) × Ok base s (s.prev k)

pub record Inv (base : ℕ) (s : Insertions) : Type 0 where
  pub entry : Ok base s s.head
  pub stands : (k : ℕ) → Stands base s k (s.pc k)

-- What is on the chain stays on it, where the entry and each step back do.
pub On-stays :
    {s t : Insertions}
    → On t s.head
    → ((a : ℕ) → On t a → s.pc a ≡ Pc.linked → On t (s.prev a))
    → {a : ℕ} → On s a
    → On t a
On-stays h step top = h
On-stays h step (down {a} o l) = step a (On-stays h step o) l

module _ (base : ℕ) (s t : Insertions) (on : (a : ℕ) → On s a → On t a)
    (linked : (a : ℕ) → s.pc a ≡ Pc.linked → t.pc a ≡ Pc.linked) where
  pub Ok-stays : (a : ℕ) → Ok base s a → Ok base t a
  Ok-stays a (inl e) = inl e
  Ok-stays a (inr l) = inr (linked a l)

  -- A key pointer whose word does not change stands as before.
  Stands-stays : (j : ℕ) (p : Pc) → t.prev j ≡ s.prev j → Stands base s j p → Stands base t j p
  Stands-stays j Pc.absent e h = tt
  Stands-stays j (Pc.trying x) e (b, points, lt) = (b, e ∙ points, lt)
  Stands-stays j (Pc.reads a) e (b, l, lt) = (b, linked a l, lt)
  Stands-stays j (Pc.holding a x) e (b, l, lt, points, low) = (b, linked a l, lt, e ∙ points, low)
  Stands-stays j Pc.linked e (b, o, lt, ok) =
      (b, on j o, omega (arith, e), subst (Ok base t) (sym e) (Ok-stays (s.prev j) ok))

pub put-same {ℓ} : {A : Type ℓ} (f : ℕ → A) (k : ℕ) (v : A) → put f k v k ≡ v
put-same f k v = ground arith

pub put-other {ℓ} : {A : Type ℓ} (f : ℕ → A) (k j : ℕ) (v : A) → j ≢ k → put f k v j ≡ f j
put-other f k j v h = ground (arith, h)

-- A step that changes only the word and the position of a key pointer that is not linked.
module _ (base : ℕ) (s t : Insertions) (k : ℕ) (unlinked : s.pc k ≢ Pc.linked)
    (head : t.head ≡ s.head) (same_pc : (j : ℕ) → j ≢ k → t.pc j ≡ s.pc j)
    (same_prev : (j : ℕ) → j ≢ k → t.prev j ≡ s.prev j) (inv : Inv base s) where
  linked-apart : (a : ℕ) → s.pc a ≡ Pc.linked → a ≢ k
  linked-apart a l e = unlinked (ap s.pc (sym e) ∙ l)

  linked-moved : (a : ℕ) → s.pc a ≡ Pc.linked → t.pc a ≡ Pc.linked
  linked-moved a l = same_pc a (linked-apart a l) ∙ l

  On-moved : (a : ℕ) → On s a → On t a
  On-moved a o =
      On-stays (subst (On t) head top)
        (λ x here l. subst (On t) (same_prev x (linked-apart x l)) (down here (linked-moved x l))) o

  pub moved-Inv : Stands base t k (t.pc k) → Inv base t
  moved-Inv h = record {
    entry = subst (Ok base t) (sym head) (Ok-stays base s t On-moved linked-moved s.head inv.entry);
    stands = λ j. elim (Bool-cases (j == k)) [
      | inl here ↦ let e : k ≡ j = ground (arith, here) in subst (λ x. Stands base t x (t.pc x)) e h
      | inr other ↦
          let apart : j ≢ k = ground (arith, other) in
          subst (Stands base t j) (sym (same_pc j apart)) (
            Stands-stays base s t On-moved linked-moved j (s.pc j) (same_prev j apart)
              (inv.stands j))
    ];
  }

-- A step that links a key pointer `k` behind the entry or behind a linked key pointer.
module _ (base : ℕ) (s t : Insertions) (k : ℕ) (unlinked : s.pc k ≢ Pc.linked) (above : base < k)
    (low : s.prev k < k) (now : t.pc k ≡ Pc.linked) (same_word : t.prev k ≡ s.prev k)
    (same_pc : (j : ℕ) → j ≢ k → t.pc j ≡ s.pc j) (on : (a : ℕ) → On s a → On t a)
    (reached : On t k) (ok : Ok base s (s.prev k)) (inv : Inv base s) where
  linked-joined : (a : ℕ) → s.pc a ≡ Pc.linked → t.pc a ≡ Pc.linked
  linked-joined a l = same_pc a (λ e. unlinked (ap s.pc (sym e) ∙ l)) ∙ l

  pub joined-Inv :
      Ok base t t.head
      → ((j : ℕ)
          → j ≢ k
          → (t.prev j ≡ s.prev j) ⊎ ((s.pc j ≡ Pc.linked) × (t.prev j ≡ k) × (k < j)))
      → Inv base t
  joined-Inv entry words = record {
    entry = entry;
    stands = λ j. elim (Bool-cases (j == k)) [
      | inl here ↦
          let e : k ≡ j = ground (arith, here) in
          subst (λ x. Stands base t x (t.pc x)) e
            (subst (Stands base t k) (sym now) (
              above,
              reached,
              omega (arith, same_word),
              subst (Ok base t) (sym same_word) (Ok-stays base s t on linked-joined (s.prev k) ok),
            ))
      | inr other ↦
          let apart : j ≢ k = ground (arith, other) in
          elim (words j apart) [
            | inl same ↦
                subst (Stands base t j) (sym (same_pc j apart))
                  (Stands-stays base s t on linked-joined j (s.pc j) same (inv.stands j))
            | inr (l, e, lt) ↦
                let (b, o, _, _) = subst (Stands base s j) l (inv.stands j) in
                subst (Stands base t j) (sym (linked-joined j l))
                  (b, on j o, omega (arith, e), inr (ap t.pc e ∙ now))
          ]
    ];
  }
