-- ===== src/Chain/Backward.antt =====
-- core/fishstore.h, `InternalInsert`: the order of a hash chain, and what it holds.
use fish_store.Base.{ℕ, ◌<◌, ◌≡◌, ◌≢◌, inl, inr, refl, ap, sym, ◌∙◌, ltb, ◌==◌, Bool-cases, arith}
use mathlib.Core.Path.{subst}
use fish_store.Chain.{Pc, Insertions, put, begin, inspect, access, advance}
use fish_store.Chain.Moves.{
  Reach, On, Ok, Stands, Inv, On-stays, Ok-stays, put-same, put-other, moved-Inv, joined-Inv,
}

inspect-Inv :
    (base : ℕ) (s : Insertions) (k a : ℕ)
    → s.pc k ≢ Pc.linked
    → base < k
    → s.pc a ≡ Pc.linked
    → k < a
    → Inv base s
    → Inv base (inspect s k a)
unfolding inspect
inspect-Inv base s k a unlinked above l lt inv =
    let (_, o, _, ok) = subst (Stands base s a) l (inv.stands a) in
    let differs : s.prev a ≢ k = λ e. elim ok [
      | inl bottom ↦ omega (arith, bottom, e, above)
      | inr further ↦ unlinked (ap s.pc (sym e) ∙ further)
    ] in
    elim (Bool-cases (ltb k (s.prev a))) [
      | inl beyond ↦
          let p = Pc.reads (s.prev a) in
          let next_linked : s.pc (s.prev a) ≡ Pc.linked = elim ok [
            | inl bottom ↦ absurd (ground (arith, bottom, beyond, above))
            | inr further ↦ further
          ] in
          let t : Insertions = record s { pc = put s.pc k p } in
          rw beyond (
            moved-Inv base s t k unlinked refl (λ j. put-other s.pc k j p) (λ j _. refl) inv
              (subst (Stands base t k) (sym (put-same s.pc k p))
                (above, put-other s.pc k (s.prev a) p differs ∙ next_linked, ground arith)))
      | inr before ↦
          let p = Pc.holding a (s.prev a) in
          let t : Insertions = record s { prev = put s.prev k (s.prev a); pc = put s.pc k p } in
          rw before (
            moved-Inv base s t k unlinked refl (λ j. put-other s.pc k j p)
              (λ j. put-other s.prev k j (s.prev a)) inv
              (subst (Stands base t k) (sym (put-same s.pc k p)) (
                above,
                put-other s.pc k a p (omega arith) ∙ l,
                lt,
                put-same s.prev k (s.prev a),
                ground (arith, before, differs),
              )))
    ]

begin-Inv :
    (base : ℕ) (s : Insertions) (k expected : ℕ)
    → s.pc k ≡ Pc.absent
    → base < k
    → expected < k
    → Inv base s
    → Inv base (begin s k expected)
unfolding begin
begin-Inv base s k expected out above low inv =
    let p = Pc.trying expected in
    let t = begin s k expected in
    moved-Inv base s t k (λ e. cc (e, out)) refl (λ j. put-other s.pc k j p)
      (λ j. put-other s.prev k j expected) inv
      (subst (Stands base t k) (sym (put-same s.pc k p)) (above, put-same s.prev k expected, low))

trying-Inv :
    (base : ℕ) (s : Insertions) (k expected : ℕ)
    → s.pc k ≡ Pc.trying expected
    → Inv base s
    → Inv base (access (Pc.trying expected) s k)
unfolding access
trying-Inv base s k expected at inv =
    let (above, points, low) = subst (Stands base s k) at (inv.stands k) in
    let unlinked : s.pc k ≢ Pc.linked = λ e. cc (e, at) in
    elim (Bool-cases (s.head == expected)) [
      | inl won ↦
          let found : s.prev k ≡ s.head = ground (arith, won, points) in
          let t : Insertions = record s { head = k; pc = put s.pc k Pc.linked } in
          let now = put-same s.pc k Pc.linked in
          let old_head : On t s.head = subst (On t) found (On.down On.top now) in
          let on : (a : ℕ) → On s a → On t a = λ a o.
            On-stays old_head
              (λ x here l.
                On.down here
                  (put-other s.pc k x Pc.linked (λ e. unlinked (ap s.pc (sym e) ∙ l)) ∙ l))
              o in
          rw won (
            joined-Inv base s t k unlinked above (omega (arith, points)) now refl
              (λ j. put-other s.pc k j Pc.linked) on On.top
              (subst (Ok base s) (sym found) inv.entry) inv (inr now) (λ j _. inl refl))
      | inr lost ↦ elim (Bool-cases (ltb s.head k)) [
        | inl below ↦
            let p = Pc.trying s.head in
            let t : Insertions = record s { prev = put s.prev k s.head; pc = put s.pc k p } in
            rw (lost, below)
              (moved-Inv base s t k unlinked refl (λ j. put-other s.pc k j p)
                (λ j. put-other s.prev k j s.head) inv
                (subst (Stands base t k) (sym (put-same s.pc k p))
                  (above, put-same s.prev k s.head, ground arith)))
        | inr beyond ↦
            let p = Pc.reads s.head in
            let t : Insertions = record s { pc = put s.pc k p } in
            let head_linked : s.pc s.head ≡ Pc.linked = elim inv.entry [
              | inl bottom ↦ absurd (ground (arith, bottom, beyond, above))
              | inr l ↦ l
            ] in
            let differs : s.head ≢ k = λ e. unlinked (ap s.pc (sym e) ∙ head_linked) in
            rw (lost, beyond)
              (moved-Inv base s t k unlinked refl (λ j. put-other s.pc k j p) (λ j _. refl) inv
                (subst (Stands base t k) (sym (put-same s.pc k p)) (
                  above,
                  put-other s.pc k s.head p differs ∙ head_linked,
                  ground (arith, beyond, differs),
                )))
      ]
    ]

holding-Inv :
    (base : ℕ) (s : Insertions) (k a expected : ℕ)
    → s.pc k ≡ Pc.holding a expected
    → Inv base s
    → Inv base (access (Pc.holding a expected) s k)
unfolding access
holding-Inv base s k a expected at inv =
    let (above, l, lt, points, low) = subst (Stands base s k) at (inv.stands k) in
    let unlinked : s.pc k ≢ Pc.linked = λ e. cc (e, at) in
    let (_, o, _, ok) = subst (Stands base s a) l (inv.stands a) in
    elim (Bool-cases (s.prev a == expected)) [
      | inr lost ↦ rw lost (inspect-Inv base s k a unlinked above l lt inv)
      | inl won ↦
          let found : s.prev k ≡ s.prev a = ground (arith, won, points) in
          let t : Insertions = record s { prev = put s.prev a k; pc = put s.pc k Pc.linked } in
          let now = put-same s.pc k Pc.linked in
          let apart : k ≢ a = omega arith in
          let word : t.prev k ≡ s.prev k = put-other s.prev a k k apart in
          let keeps : (x : ℕ) → s.pc x ≡ Pc.linked → t.pc x ≡ Pc.linked =
            λ x m. put-other s.pc k x Pc.linked (λ e. unlinked (ap s.pc (sym e) ∙ m)) ∙ m in
          let past : (x : ℕ) → On t x → s.pc x ≡ Pc.linked → On t (s.prev x) = λ x here m.
            elim (Bool-cases (x == a)) [
              | inl same ↦
                  let e : x ≡ a = ground (arith, same) in
                  let to_k : On t k =
                    subst (On t) (ap t.prev e ∙ put-same s.prev a k) (On.down here (keeps x m)) in
                  subst (On t) (word ∙ found ∙ ap s.prev (sym e)) (On.down to_k now)
              | inr other ↦
                  subst (On t) (put-other s.prev a x k (ground (arith, other)))
                    (On.down here (keeps x m))
            ] in
          let on : (x : ℕ) → On s x → On t x = λ x q. On-stays On.top past q in
          rw won (
            joined-Inv base s t k unlinked above (omega (arith, points)) now word
              (λ j. put-other s.pc k j Pc.linked) on
              (subst (On t) (put-same s.prev a k) (On.down (on a o) (keeps a l)))
              (subst (Ok base s) (sym found) ok) inv (Ok-stays base s t on keeps s.head inv.entry)
              (λ j _. elim (Bool-cases (j == a)) [
                | inl same ↦
                    let e : j ≡ a = ground (arith, same) in
                    inr (ap s.pc e ∙ l, ap t.prev e ∙ put-same s.prev a k, omega arith)
                | inr other ↦ inl (put-other s.prev a j k (ground (arith, other)))
              ]))
    ]

access-Inv :
    (base : ℕ) (s : Insertions) (k : ℕ) (p : Pc) → s.pc k ≡ p → Inv base s → Inv base (access p s k)
unfolding access
access-Inv base s k Pc.absent at inv = inv
access-Inv base s k (Pc.trying e) at inv = trying-Inv base s k e at inv
access-Inv base s k (Pc.reads a) at inv =
    let (above, l, lt) = subst (Stands base s k) at (inv.stands k) in
    inspect-Inv base s k a (λ e. cc (e, at)) above l lt inv
access-Inv base s k (Pc.holding a e) at inv = holding-Inv base s k a e at inv
access-Inv base s k Pc.linked at inv = inv

pub Reach-Inv : {base : ℕ} {s : Insertions} → Reach base s → Inv base s
unfolding advance
Reach-Inv Reach.start = record { entry = inl refl; stands = λ k. tt }
Reach-Inv {base} (Reach.begins {s} k e r out above low) =
    begin-Inv base s k e out above low (Reach-Inv r)
Reach-Inv {base} (Reach.advances {s} k r) = access-Inv base s k (s.pc k) refl (Reach-Inv r)

-- Whatever insertions of one chain any threads make at once, in any order of their accesses, a key
-- pointer whose insertion has ended is met on the way from the entry, and it points back: to a lower
-- address, which is that of a key pointer in the chain or the one at which the chain began.
pub linked_backward :
    {base : ℕ} {s : Insertions} (k : ℕ)
    → Reach base s
    → s.pc k ≡ Pc.linked
    → On s k × (s.prev k < k) × Ok base s (s.prev k)
linked_backward {base} {s} k r l =
    let (_, o, lt, ok) = subst (Stands base s k) l ((Reach-Inv r).stands k) in (o, lt, ok)
