-- ===== src/Pages/Restart.antt =====
-- core/malloc_fixed_page_size.h: Initialize after an earlier use, and Recover.
use fish_store.Base.{
  ℕ, zero, suc, ◌*◌, ◌%◌, ◌^◌, ◌<◌, ◌≤◌, ◌≡◌, refl, sym, ◌∙◌, ap, ◌==◌, ltb, leb, if◌then◌else◌,
  inl, inr, true, false, none, some, List, [], ◌∷◌, Bool-cases, some-injective, arith,
}
use mathlib.Core.Path.{subst}
use fish_store.Pages.{
  FreeAddress, FixedPageAddress, FixedPageArray, Allocator, page_size, page, offset, allocate,
  allocate_from, add_page, initialize, create, put_list, num_levels, add_levels, recover,
  expand_array, next_power_of_two, get_or_add,
}
use fish_store.Pages.Power.{next_power_of_two-least}
use fish_store.Pages.Array.{
  Present, Extends, Extends-refl, Extends-trans, get_or_add-adds, expand_array-Extends,
}
use fish_store.Pages.Room.{Present-kept}
use fish_store.Pages.Spec.{Use, Represents}
use fish_store.Pages.Places.{no_lists, initialize-first, first, first-Represents}

-- The allocator in which `Initialize` makes its call of `Allocate`.
abbrev begun : (ℕ → List FreeAddress) → Allocator
begun lists = record {
  free_list = lists;
  count = record { control = 0 };
  page_array = record { size = 2; pages = λ i. if i == 0 then some 0 else none };
  blocks = 1;
  deleting = [];
}

initialize-begun :
    (lists : ℕ → List FreeAddress) (safe t : ℕ) (a : FixedPageAddress) (s : Allocator)
    → allocate safe t (begun lists) ≡ some (a, s)
    → initialize safe t lists ≡ some s
unfolding initialize create add_page
initialize-begun lists safe t a s e = rw e refl

allocate-pops :
    (f : FreeAddress) (fs : List FreeAddress) (safe t : ℕ) (s : Allocator)
    → s.free_list t ≡ f ∷ fs
    → f.removal_epoch ≤ safe
    → allocate safe t s ≡ some (f.removed_addr, record s { free_list = put_list s.free_list t fs })
unfolding allocate allocate_from
allocate-pops f fs safe t s e old =
    let now : leb f.removal_epoch safe ≡ true = ground arith in rw e (rw now refl)

allocate-begun :
    (lists : ℕ → List FreeAddress) (safe t : ℕ)
    → lists t ≡ []
    → (s' : Allocator) × (allocate safe t (begun lists) ≡ some (record { control = 0 }, s'))
unfolding allocate allocate_from fish_store.Pages.allocate_new fish_store.Pages.add_pages page
allocate-begun lists safe t e = rw e (_, refl)

-- Where the free list of the thread has one address, freed at an epoch that is safe, when `Initialize` runs again, the
-- null address is not set aside: the next `Allocate` of the thread returns it.
pub initialize_stale :
    (f : FreeAddress) (lists : ℕ → List FreeAddress) (safe t : ℕ)
    → lists t ≡ f ∷ []
    → f.removal_epoch ≤ safe
    → (s : Allocator) × (initialize safe t lists ≡ some s)
      × (s' : Allocator) × (allocate safe t s ≡ some (record { control = 0 }, s'))
initialize_stale f lists safe t e old =
    let self : (t == t) ≡ true = ground arith in
    let left : put_list lists t [] t ≡ [] = rw self refl in
    let (s', again) = allocate-begun (put_list lists t []) safe t left in
    (
      begun (put_list lists t []),
      initialize-begun lists safe t f.removed_addr (begun (put_list lists t []))
          (allocate-pops f [] safe t (begun lists) e old),
      s',
      again,
    )

add_levels-adds :
    (n : ℕ) (s : Allocator)
    → n ≤ s.page_array.size
    → Extends s (add_levels n s) × ((i : ℕ) → i < n → Present (add_levels n s) i)
unfolding add_levels
add_levels-adds zero s le = (Extends-refl s, (λ i lt. absurd (omega arith)))
add_levels-adds (suc n) s le =
    let (ext, below) = add_levels-adds n s (omega arith) in
    let (last, ext') = get_or_add-adds (add_levels n s) n (omega (arith, ext.grown)) in
    (
      Extends-trans ext ext',
      λ i lt. elim (Bool-cases (i == n)) [
        | inl at ↦
            let e : n ≡ i = ground arith in subst (Present (get_or_add n (add_levels n s))) e last
        | inr before ↦ Present-kept ext' (below i (ground arith))
      ],
    )

-- The levels of a count reach as far as its addresses.
pub num_levels_bounds :
    (a : FixedPageAddress)
    → a.control < 2 ^ 48
    → (num_levels a ≤ 2 ^ 28) × ((i : ℕ) → i * page_size < a.control → i < num_levels a)
unfolding num_levels page offset
num_levels_bounds a h = elim (Bool-cases (ltb 0 (a.control % 2 ^ 20))) [
  | inl more ↦ rw more (omega arith, (λ i lt. ground arith))
  | inr whole ↦ rw whole (omega arith, (λ i lt. ground arith))
]

abbrev pub below : FixedPageAddress → ℕ → Use
below count a = if ltb a count.control then Use.live else Use.unused

-- The array that `Recover` reads into.
room_for :
    (levels : ℕ) (s : Allocator)
    → ((i : ℕ) → i < s.page_array.size → Present s i)
    → levels ≤ 2 ^ 28
    → 0 < levels
    → (t : Allocator) × ((if ltb s.page_array.size levels
          then expand_array (next_power_of_two levels) s
          else some s)
        ≡ some t)
      × Extends s t
      × (levels ≤ t.page_array.size)
room_for levels s full small pos = elim (Bool-cases (ltb s.page_array.size levels)) [
  | inl short ↦
      let (_, enough, _) = next_power_of_two-least levels pos (omega arith) in
      let (t, e, ext, size) =
        expand_array-Extends (next_power_of_two levels) s full (ground (arith, enough)) in
      (t, rw short e, ext, omega (arith, size, enough))
  | inr fits ↦ (s, rw fits refl, Extends-refl s, ground arith)
]

first_full : (i : ℕ) → i < 2 → Present first i
first_full i lt = elim (Bool-cases (i == 1)) [
  | inl one ↦ (lt, 1, rw one refl)
  | inr other ↦ let null : (i == 0) ≡ true = ground arith in (lt, 0, rw (other, null) refl)
]

-- After `Initialize`, with a count of at least 1 and less than 2^48 whose last page is that of the file's
-- end, `Recover` waits for no page, and the allocator then stands for all addresses below the count
-- being live.
pub recover-Represents :
    {s : Allocator} (safe t : ℕ) (file_end_addr count : FixedPageAddress)
    → initialize safe t no_lists ≡ some s
    → 0 < count.control
    → count.control < 2 ^ 48
    → num_levels file_end_addr ≡ num_levels count
    → (s' : Allocator) × (recover file_end_addr count s ≡ some s') × Represents s' (below count)
unfolding recover
recover-Represents {s} safe t file_end_addr count e given narrow levels =
    let first_s : first ≡ s = some-injective (sym (initialize-first safe t) ∙ e) in
    subst
      (λ u.
        (s' : Allocator) × (recover file_end_addr count u ≡ some s') × Represents s' (below count))
      first_s from_first
  where
    from_first :
        (s' : Allocator) × (recover file_end_addr count first ≡ some s')
        × Represents s' (below count)
    from_first =
        let (small, reaches) = num_levels_bounds count narrow in
        let (t, e, ext, fits) =
          room_for (num_levels count) first first_full small (reaches 0 (omega arith)) in
        let r = add_levels (num_levels file_end_addr) (record t { count = count }) in
        let (ext', there) =
          add_levels-adds (num_levels file_end_addr) (record t { count = count })
            (omega (arith, fits, levels)) in
        let apart = ext.apart first-Represents.apart in
        let counted = ap (λ a. a.control) ext'.same_count in
        let lists : (u : ℕ) → r.free_list u ≡ [] =
          λ u. ap (λ l. l u) (ext'.same_lists ∙ ext.same_lists) in
        (
          r,
          rw e refl,
          record {
            given = omega (arith, counted, given);
            narrow = omega (arith, counted, narrow);
            beyond = λ a le.
                let ge : ltb a count.control ≡ false = ground (arith, counted) in rw ge refl;
            null = let lt : ltb 0 count.control ≡ true = ground arith in rw lt refl;
            lists = λ u. rw (lists u) tt;
            single = λ u. rw (lists u) tt;
            there = λ i lt. there i (omega (arith, levels, reaches i (omega (arith, counted, lt))));
            apart = ext'.apart (record { numbered = apart.numbered; single = apart.single });
          },
        )
