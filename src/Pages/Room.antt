-- ===== src/Pages/Room.antt =====
-- core/malloc_fixed_page_size.h: Allocate makes room for the next address.
use fish_store.Base.{
  ℕ, ◌+◌, ◌*◌, ◌/◌, ◌^◌, ◌<◌, ◌≡◌, refl, ◌==◌, ltb, leb, inl, inr, ◌&&◌, some, Bool-cases, arith,
}
use fish_store.Pages.{
  FixedPageAddress, Allocator, page_size, page, offset, increment, allocate_new, make_room,
  add_pages, add_page, next_power_of_two,
}
use fish_store.Pages.Power.{next_power_of_two-least}
use fish_store.Pages.Array.{
  Present, Extends, Extends-refl, Extends-trans, get_or_add-adds, add_page-keeps,
  expand_array-Extends,
}

pub increment-narrow :
    (a : FixedPageAddress) → a.control + 1 < 2 ^ 48 → (increment a).control ≡ a.control + 1
unfolding increment
increment-narrow a h = omega arith

-- The page of an address of 48 bits.
pub page-narrow : (a : FixedPageAddress) → a.control < 2 ^ 48 → page a ≡ a.control / page_size
unfolding page
page-narrow a h = omega arith

pub Present-kept : {s t : Allocator} {i : ℕ} → Extends s t → Present s i → Present t i
Present-kept {i} ext (lt, block, e) = (omega (arith, ext.grown), block, ext.kept i block lt e)

-- `Allocate` finds or makes room for the next address.
make_room-Extends :
    (addr : FixedPageAddress) (s : Allocator)
    → addr.control < 2 ^ 48
    → ((i : ℕ) → i * page_size < addr.control → Present s i)
    → (t : Allocator) × (make_room addr s ≡ some t) × Extends s t × (page addr < t.page_array.size)
unfolding make_room
make_room-Extends addr s narrow there =
    let p = page-narrow addr narrow in
    elim (Bool-cases (leb s.page_array.size (page addr))) [
      | inl full ↦
          let (_, enough, _) =
            next_power_of_two-least (page addr + 1) (omega arith) (omega (arith, p)) in
          let (t, e, ext, size) =
            expand_array-Extends (next_power_of_two (page addr + 1)) s
              (λ i lt. there i (ground (arith, p))) (ground (arith, enough)) in
          (t, rw full e, ext, omega (arith, size, enough))
      | inr room ↦ (s, rw room refl, Extends-refl s, ground arith)
    ]

add_pages-adds :
    (addr : FixedPageAddress) (s : Allocator)
    → page addr < s.page_array.size
    → Present (add_pages addr s) (page addr) × Extends s (add_pages addr s)
unfolding add_pages
add_pages-adds addr s room =
    elim (Bool-cases (offset addr == 0 && ltb (page addr + 1) s.page_array.size)) [
      | inl early ↦
          let before = add_page-keeps (page addr + 1) s in
          let (there, ext) =
            get_or_add-adds (add_page (page addr + 1) s) (page addr)
              (omega (arith, before.grown)) in
          rw early (there, Extends-trans before ext)
      | inr late ↦ let (there, ext) = get_or_add-adds s (page addr) room in rw late (there, ext)
    ]

-- The pages up to that of the address, and the ones before it.
pages_up_to :
    (addr : FixedPageAddress) (s : Allocator)
    → addr.control < 2 ^ 48
    → Present s (page addr)
    → ((i : ℕ) → i * page_size < addr.control → Present s i)
    → (i : ℕ) → i * page_size < addr.control + 1
    → Present s i
pages_up_to addr s narrow last there i lt = elim (Bool-cases (ltb (i * page_size) addr.control)) [
  | inl before ↦ there i (ground arith)
  | inr at ↦ let same : page addr ≡ i = ground (arith, page-narrow addr narrow) in rw same at last
]

-- `Allocate` past the free list: the next address, with its page.
pub allocate_new-Extends :
    (s : Allocator)
    → s.count.control + 1 < 2 ^ 48
    → ((i : ℕ) → i * page_size < s.count.control → Present s i)
    → (t : Allocator) × (allocate_new s ≡ some (s.count, t))
      × Extends (record s { count = increment s.count }) t
      × ((i : ℕ) → i * page_size < s.count.control + 1 → Present t i)
unfolding allocate_new
allocate_new-Extends s narrow there =
    let s' : Allocator = record s { count = increment s.count } in
    let (t, e, ext, room) = make_room-Extends s.count s' (omega arith) there in
    let (last, ext') = add_pages-adds s.count t room in
    let both = Extends-trans ext ext' in
    (
      add_pages s.count t,
      rw e refl,
      both,
      pages_up_to s.count (add_pages s.count t) (omega arith) last
          (λ i lt. Present-kept both (there i lt)),
    )
