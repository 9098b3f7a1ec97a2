-- ===== src/Epoch/Register.antt =====
-- core/light_epoch.h: the loop of `BumpCurrentEpoch(callback, context)` that finds a slot.
use fish_store.Base.{
  ℕ, zero, suc, ◌+◌, ◌≤◌, ◌<◌, ◌≡◌, refl, true, false, leb, Bool, ◌==◌, Bool-cases, inl, inr, ◌⊎◌,
  List, [], ◌∷◌, length, All, Option, Option-cases, none, some, arith,
}
use fish_store.Bucket.{bit}
use fish_store.Epoch.{Slot, free_epoch, register, register_pass}
use fish_store.Epoch.Drain.{count_occupied}

-- An action that waits was registered before the current epoch.
abbrev pub IsPast : ℕ → Slot → Type 0
IsPast current a = (a.epoch ≡ free_epoch) ⊎ (a.epoch < current)

-- What taking a slot does to the list.
pub record Takes (safe current : ℕ) (as' : List Slot) (r : List Slot × Bool × List Slot)
    : Type 0 where
  pub width : length r.0 ≡ length as'
  pub occupied : count_occupied r.0 ≡ count_occupied as' + bit r.1
  pub past : All (IsPast current) r.0
  pub ready : All (λ a. a.epoch ≤ safe) r.2

abbrev pub Post : ℕ → ℕ → List Slot → Option (List Slot × Bool × List Slot) → Type 0
Post safe current as' none = Unit
Post safe current as' (some r) = Takes safe current as' r

prepended : Slot → Option (List Slot × Bool × List Slot) → Option (List Slot × Bool × List Slot)
prepended a none = none
prepended a (some (bs, pushed, fired)) = some (a ∷ bs, pushed, fired)

module _ (safe prior context current : ℕ) (small : safe < free_epoch) (le : prior < current)
    (bound : current < free_epoch) where
  prepended-Post :
      (a : Slot) (as' : List Slot) (o : Option (List Slot × Bool × List Slot))
      → IsPast current a
      → Post safe current as' o
      → Post safe current (a ∷ as') (prepended a o)
  unfolding prepended
  prepended-Post a as' none h p = tt
  prepended-Post a as' (some r) h p = record {
    width = omega (arith, p.width);
    occupied = ground (arith, p.occupied);
    past = (h, p.past);
    ready = p.ready;
  }

  pub register_pass-Post :
      (as' : List Slot)
      → All (IsPast current) as'
      → Post safe current as' (register_pass safe prior context as')
  unfolding register_pass prepended
  register_pass-Post [] past = tt
  register_pass-Post (a ∷ as') past =
      let later = prepended-Post a as' _ past.0 (register_pass-Post as' past.1) in
      elim (Bool-cases (a.epoch == free_epoch)) [
        | inl free ↦
            rw free (record {
              width = refl;
              occupied = ground arith;
              past = (inr le, past.1);
              ready = tt;
            })
        | inr taken ↦ elim (Bool-cases (leb a.epoch safe)) [
          | inl ready ↦
              let self : (a.epoch == a.epoch) ≡ true = ground arith in
              rw (taken, ready, self)
                (record {
                  width = refl;
                  occupied = ground arith;
                  past = (inr le, past.1);
                  ready = (ground arith, tt);
                })
          | inr waits ↦ rw (taken, waits) later
        ]
      ]

  pub register-Post :
      (passes : ℕ) (as' : List Slot)
      → All (IsPast current) as'
      → Post safe current as' (register passes safe prior context as')
  unfolding register
  register-Post zero as' past = tt
  register-Post (suc passes) as' past = elim (Option-cases (register_pass safe prior context as')) [
    | inl nothing ↦ rw (nothing, register) (register-Post passes as' past)
    | inr (r, found) ↦ rw (found, register) (rw found at (register_pass-Post as' past))
  ]

-- An action stands in some slot.
abbrev pub Holds : Slot → List Slot → Type 0
Holds b [] = ⊥
Holds b (a ∷ as') = (a ≡ b) ⊎ Holds b as'

-- With a free slot, a pass takes one.
pub register_pass-some :
    (safe prior context : ℕ) (as' : List Slot)
    → count_occupied as' < length as'
    → (r : List Slot × Bool × List Slot) × (register_pass safe prior context as' ≡ some r)
      × Holds (record { epoch = prior; context = context }) r.0
unfolding register_pass
register_pass-some safe prior context [] h = absurd (omega arith)
register_pass-some safe prior context (a ∷ as') h = elim (Bool-cases (a.epoch == free_epoch)) [
  | inl free ↦
      ((record { epoch = prior; context = context } ∷ as', true, []), rw free refl, inl refl)
  | inr taken ↦
      let (r, found, holds) = register_pass-some safe prior context as' (ground arith) in
      elim (Bool-cases (leb a.epoch safe)) [
        | inl ready ↦
            let self : (a.epoch == a.epoch) ≡ true = ground arith in
            (
              (record { epoch = prior; context = context } ∷ as', false, a ∷ []),
              rw (taken, ready, self) refl,
              inl refl,
            )
        | inr waits ↦ ((a ∷ r.0, r.1, r.2), rw (taken, waits, found) refl, inr holds)
      ]
]
