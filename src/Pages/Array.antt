-- ===== src/Pages/Array.antt =====
-- core/malloc_fixed_page_size.h: the page array keeps its pages, through additions and growth.
use fish_store.Base.{
  ℕ, zero, suc, ◌+◌, ◌<◌, ◌≤◌, ◌≡◌, refl, ap, sym, ◌∙◌, ◌==◌, ltb, true, false, inl, inr,
  if◌then◌else◌, Option, none, some, ◌∷◌, some-injective, none-some, Bool-cases, arith,
}
use fish_store.Pages.{
  FixedPageArray, Allocator, is_some, install, all_there, create, add_page, get_or_add,
  expand_array,
}

-- Page `i` has its place in the array, and is there.
abbrev pub Present : Allocator → ℕ → Type 0
Present s i = (i < s.page_array.size) × (block : ℕ) × (s.page_array.pages i ≡ some block)

-- The pages are different blocks, that have been allocated.
pub record Apart (s : Allocator) : Type 0 where
  pub numbered : (i block : ℕ) → s.page_array.pages i ≡ some block → block < s.blocks
  pub single :
      (i j block : ℕ)
      → s.page_array.pages i ≡ some block
      → s.page_array.pages j ≡ some block
      → i ≡ j

-- What an operation on the array leaves as it was, and what it may add.
pub record Extends (s s' : Allocator) : Type 0 where
  pub same_lists : s'.free_list ≡ s.free_list
  pub same_count : s'.count ≡ s.count
  pub grown : s.page_array.size ≤ s'.page_array.size
  pub kept :
      (i block : ℕ)
      → i < s.page_array.size
      → s.page_array.pages i ≡ some block
      → s'.page_array.pages i ≡ some block
  pub apart : Apart s → Apart s'

pub Extends-refl : (s : Allocator) → Extends s s
Extends-refl s = record {
  same_lists = refl;
  same_count = refl;
  grown = omega arith;
  kept = λ i block lt e. e;
  apart = λ h. h;
}

pub Extends-trans : {s t u : Allocator} → Extends s t → Extends t u → Extends s u
Extends-trans a b = record {
  same_lists = b.same_lists ∙ a.same_lists;
  same_count = b.same_count ∙ a.same_count;
  grown = omega (arith, a.grown, b.grown);
  kept = λ i block lt e. b.kept i block (omega (arith, a.grown)) (a.kept i block lt e);
  apart = λ h. b.apart (a.apart h);
}

is_some-block : (o : Option ℕ) → is_some o ≡ true → (block : ℕ) × (o ≡ some block)
is_some-block none e = absurd (cc e)
is_some-block (some block) e = (block, refl)

-- The allocator after `AddPage` at a place that holds `o`.
after_add : Allocator → ℕ → Option ℕ → Allocator
after_add s i o = record s { page_array = install s.page_array i s.blocks o; blocks = s.blocks + 1 }

module _ (s : Allocator) (i : ℕ) where
  after_add-same :
      (j : ℕ) → (j == i) ≡ true → (after_add s i none).page_array.pages j ≡ some s.blocks
  unfolding after_add
  after_add-same j e = rw e

  after_add-other :
      (j : ℕ) → (j == i) ≡ false → (after_add s i none).page_array.pages j ≡ s.page_array.pages j
  unfolding after_add
  after_add-other j e = rw e

  after_add-Apart : Apart s → Apart (after_add s i none)
  unfolding after_add
  after_add-Apart h = record {
    numbered = λ j block e. elim (Bool-cases (j == i)) [
      | inl same ↦ omega (arith, some-injective (sym e ∙ after_add-same j same))
      | inr other ↦ omega (arith, h.numbered j block (sym (after_add-other j other) ∙ e))
    ];
    single = λ j k block e f. elim (Bool-cases (j == i)) [
      | inl a ↦ elim (Bool-cases (k == i)) [
        | inl b ↦ ground arith
        | inr b ↦ absurd (fresh j k block e f a b)
      ]
      | inr a ↦ elim (Bool-cases (k == i)) [
        | inl b ↦ absurd (fresh k j block f e b a)
        | inr b ↦ h.single j k block (sym (after_add-other j a) ∙ e) (sym (after_add-other k b) ∙ f)
      ]
    ];
  }
    where
      fresh :
          (j k block : ℕ)
          → (after_add s i none).page_array.pages j ≡ some block
          → (after_add s i none).page_array.pages k ≡ some block
          → (j == i) ≡ true
          → (k == i) ≡ false
          → ⊥
      fresh j k block e f a b =
          let old = h.numbered k block (sym (after_add-other k b) ∙ f) in
          let new = some-injective (sym e ∙ after_add-same j a) in omega (arith, old, new)

  after_add-Extends : (o : Option ℕ) → s.page_array.pages i ≡ o → Extends s (after_add s i o)
  unfolding after_add
  after_add-Extends none vacant = record {
    same_lists = refl;
    same_count = refl;
    grown = omega arith;
    kept = λ j block lt e. elim (Bool-cases (j == i)) [
      | inl a ↦
          let j_i : j ≡ i = ground arith in
          absurd (none-some (sym vacant ∙ ap s.page_array.pages (sym j_i) ∙ e))
      | inr b ↦ after_add-other j b ∙ e
    ];
    apart = after_add-Apart;
  }
  after_add-Extends (some old) there = record {
    same_lists = refl;
    same_count = refl;
    grown = omega arith;
    kept = λ j block lt e. e;
    apart = λ h. record {
      numbered = λ j block e. omega (arith, h.numbered j block e);
      single = h.single;
    };
  }

  add_page-Extends : Extends s (add_page i s)
  unfolding add_page after_add
  add_page-Extends = after_add-Extends (s.page_array.pages i) refl

  after_add-Present :
      (o : Option ℕ)
      → s.page_array.pages i ≡ o
      → i < s.page_array.size
      → Present (after_add s i o) i
  unfolding after_add
  after_add-Present none e lt = (lt, s.blocks, after_add-same i (ground arith))
  after_add-Present (some old) e lt = (lt, old, e)

  add_page-Present : i < s.page_array.size → Present (add_page i s) i
  unfolding add_page after_add
  add_page-Present lt = after_add-Present (s.page_array.pages i) refl lt

  -- `GetOrAdd` gives a page, and keeps all others.
  pub get_or_add-adds :
      i < s.page_array.size → Present (get_or_add i s) i × Extends s (get_or_add i s)
  unfolding get_or_add
  get_or_add-adds lt = elim (Bool-cases (is_some (s.page_array.pages i))) [
    | inl there ↦
        let (block, e) = is_some-block _ there in rw there ((lt, block, e), Extends-refl s)
    | inr vacant ↦ rw vacant (add_page-Present lt, add_page-Extends)
  ]

-- `AddPage` keeps the pages.
pub add_page-keeps : (i : ℕ) (s : Allocator) → Extends s (add_page i s)
add_page-keeps i s = add_page-Extends s i

-- Where the pages of the array are all there, a larger array takes them over.
all_there-true :
    (pages : ℕ → Option ℕ) (n : ℕ)
    → ((i : ℕ) → i < n → (block : ℕ) × (pages i ≡ some block))
    → all_there pages n ≡ true
unfolding all_there
all_there-true pages zero h = refl
all_there-true pages (suc n) h =
    let (block, e) = h n (omega arith) in
    rw (e, all_there-true pages n (λ i lt. h i (omega arith))) refl

pub expand_array-Extends :
    (new_size : ℕ) (s : Allocator)
    → ((i : ℕ) → i < s.page_array.size → Present s i)
    → s.page_array.size ≤ new_size
    → (s' : Allocator) × (expand_array new_size s ≡ some s')
      × Extends s s'
      × (s'.page_array.size ≡ new_size)
unfolding expand_array create
expand_array-Extends new_size s full le =
    let there =
      all_there-true s.page_array.pages s.page_array.size
        (λ i lt. let (_, block, e) = full i lt in (block, e)) in
    (s', rw there refl, extends, refl)
  where
    copied : FixedPageArray
    copied = record {
      size = new_size;
      pages = λ i. if ltb i s.page_array.size then s.page_array.pages i else none;
    }

    s' : Allocator
    s' = record s { page_array = copied; deleting = s.page_array ∷ s.deleting }

    below : (i block : ℕ) → copied.pages i ≡ some block → s.page_array.pages i ≡ some block
    below i block e = elim (Bool-cases (ltb i s.page_array.size)) [
      | inl lt ↦ rw lt at e
      | inr ge ↦ absurd (none-some (rw ge at e))
    ]

    extends : Extends s s'
    extends = record {
      same_lists = refl;
      same_count = refl;
      grown = le;
      kept = λ i block lt e. let l : ltb i s.page_array.size ≡ true = ground arith in rw l e;
      apart = λ h. record {
        numbered = λ i block e. h.numbered i block (below i block e);
        single = λ i j block e f. h.single i j block (below i block e) (below j block f);
      };
    }
