-- ===== src/Grow/Other.antt =====
-- core/fishstore.h: the entry that SplitHashTableBuckets makes for the other side of a chain.
use fish_store.Base.{
  ℕ, ◌^◌, ◌<◌, ◌≤◌, ◌≡◌, inl, inr, refl, sym, ap, ◌∙◌, ◌==◌, true, false, Bool, not, leb, some,
  List, [], ◌∷◌, ◌++◌, Any, Bool-cases, arith,
}
use mathlib.Core.Path.{subst}
use fish_store.Address.{Address}
use fish_store.Bucket.{Entry, make_entry, unused, address, tag}
use fish_store.Bucket.Packing.{make_entry-fields}
use fish_store.Grow.{Source, Building, Sides, add_hash_entry, trace_back, add_other}
use fish_store.Grow.Build.{Holds, add_hash_entry-Holds}
use fish_store.Grow.Trace.{Leads, Belongs, Backward, Leads-begin, trace_back-Found}

-- An entry in use of the tag that leads to `k`.
pub record LeadsTo (g : Source) (t k : ℕ) (e : Entry) : Type 0 where
  pub used : unused e ≡ false
  pub tagged : tag e ≡ t
  pub leads : Leads g (address e).control k

abbrev pub pick {ℓ} : {A : Type ℓ} → Bool → A → A → A
pick true a b = a
pick false a b = b

-- What the old entries lead to of a side, the new entries of that side lead to.
abbrev pub Keeps : Source → List Entry → List Entry → List Entry → Type 0
Keeps g es xs ys =
    (side : Bool) (t k : ℕ)
    → Belongs g side k
    → Any (LeadsTo g t k) es
    → Any (LeadsTo g t k) (pick side xs ys)

-- How one step goes on from two chains: what it adds, and that this keeps what the entries lead to.
pub record Grows (g : Source) (es : List Entry) (b b' : Sides) : Type 0 where
  pub added0 : List Entry
  pub added1 : List Entry
  pub holds0 : (l : List Entry) → Holds b.side0 l → Holds b'.side0 (l ++ added0)
  pub holds1 : (l : List Entry) → Holds b.side1 l → Holds b'.side1 (l ++ added1)
  pub keeps : Keeps g es added0 added1

module _ (g : Source) (e : Entry) (used : unused e ≡ false) where
  pub self : (t k : ℕ) → Any (LeadsTo g t k) (e ∷ []) → (tag e ≡ t) × Leads g (address e).control k
  self t k (Any.at_head h) = (h.tagged, h.leads)
  self t k (Any.in_tail h) = elim h [ ]

-- The entry that is made for the other side.
other_entry :
    (g : Source) (e : Entry) (a t k : ℕ)
    → 0 < g.begin_address
    → a < 2 ^ 48
    → tag e ≡ t
    → Leads g a k
    → Any (LeadsTo g t k) (make_entry (record { control = a }) (tag e) false ∷ [])
unfolding tag
other_entry g e a t k positive small at l =
    let (field, kind, _, used) =
      make_entry-fields (record { control = a }) (tag e) false small
        (omega (arith, positive, Leads-begin l)) (omega arith) in
    Any.at_head (record {
      used = used;
      tagged = kind ∙ at;
      leads = subst (λ (x : Address). Leads g x.control k) (sym field) l;
    })

pub append-nil : (xs : List Entry) → xs ++ [] ≡ xs
append-nil [] = refl
append-nil (x ∷ xs) = ap (λ ys. x ∷ ys) (append-nil xs)

-- The chain of the other side after an entry in memory.
pub record Other (g : Source) (e : Entry) (other : Bool) (b c : Building) : Type 0 where
  pub added : List Entry
  pub holds : (l : List Entry) → Holds b l → Holds c (l ++ added)
  pub keeps :
      (t k : ℕ)
      → tag e ≡ t
      → Belongs g other k
      → Leads g (g.prev_address (address e).control) k
      → Any (LeadsTo g t k) added

abbrev pub Usable : ℕ → Source → Type 0
Usable rounds g = Backward g × (0 < g.begin_address) × (2 ^ 48 ≤ rounds)

pub add_other-Other :
    (rounds : ℕ) (g : Source) (e : Entry) (b : Building) (side : ℕ)
    → Usable rounds g
    → g.head_address ≤ (address e).control
    → (c : Building) × (add_other g e b
          (trace_back rounds g (g.prev_address (address e).control) g.head_address side)
        ≡ some c)
      × Other g e (not (side == 0)) b c
unfolding address
add_other-Other rounds g e b side (backward, positive, enough) le =
    let a = (address e).control in
    let lower : g.prev_address a < a = backward a le in
    let (o, found, small, leads) =
      trace_back-Found rounds g (g.prev_address a) side backward (omega (arith, lower)) in
    let made = make_entry (record { control = o }) (tag e) false in
    elim (Bool-cases (leb g.begin_address o)) [
      | inl exists ↦ (
        add_hash_entry b made,
        rw (found, exists) refl,
        record {
          added = made ∷ [];
          holds = λ l h. add_hash_entry-Holds b l made h;
          keeps = λ t k at side' l.
              other_entry g e o t k positive (omega (arith, small, lower)) at (leads k l side');
        },
      )
      | inr gone ↦ (
        b,
        rw (found, gone) refl,
        record {
          added = [];
          holds = λ l h. subst (Holds b) (sym (append-nil l)) h;
          keeps = λ t k at side' l. absurd (ground (arith, Leads-begin (leads k l side')));
        },
      )
    ]
