-- ===== src/Pages/Places.antt =====
-- core/malloc_fixed_page_size.h: any calls from Initialize on, and where the items of the addresses are.
use fish_store.Base.{
  ℕ, ◌+◌, ◌^◌, ◌<◌, ◌≡◌, ◌≢◌, refl, sym, ◌∙◌, ap, ◌==◌, ltb, leb, if◌then◌else◌, inl, inr, false,
  none, some, List, [], ◌∷◌, some-injective, none-some, Bool-cases, arith,
}
use mathlib.Core.Path.{subst}
use fish_store.Pages.{
  FreeAddress, FixedPageAddress, FixedPageArray, Allocator, page_size, page, offset, allocate,
  allocate_from, allocate_new, add_page, initialize, create, free_at_epoch, get,
}
use fish_store.Pages.Array.{Present}
use fish_store.Pages.Room.{page-narrow, allocate_new-Extends}
use fish_store.Pages.Spec.{Use, put_use, Represents, live-unused}
use fish_store.Pages.Refines.{allocate-Refines, free_at_epoch-Refines}

abbrev pub only_null : ℕ → Use
only_null a = if a == 0 then Use.live else Use.unused

abbrev pub no_lists : ℕ → List FreeAddress
no_lists t = []

-- The states from an `Initialize` with empty free lists on, after calls that free only live addresses, with the uses of the
-- addresses; each call has its own epoch that is safe.
pub data Run : Allocator → (ℕ → Use) → Type 0 where
  starts : (safe t : ℕ) {s : Allocator} → initialize safe t no_lists ≡ some s → Run s only_null
  allocates :
      (safe t : ℕ) {s s' : Allocator} {use_of : ℕ → Use} {a : FixedPageAddress}
      → Run s use_of
      → s.count.control + 1 < 2 ^ 48
      → allocate safe t s ≡ some (a, s')
      → Run s' (put_use use_of a.control Use.live)
  frees :
      (a : FixedPageAddress) (epoch t : ℕ) {s : Allocator} {use_of : ℕ → Use}
      → Run s use_of
      → use_of a.control ≡ Use.live
      → a.control ≢ 0
      → Run (free_at_epoch a epoch t s) (put_use use_of a.control (Use.retired t epoch))

abbrev pub first : Allocator
first = record {
  free_list = no_lists;
  count = record { control = 1 };
  page_array = record {
    size = 2;
    pages = λ i. if i == 1 then some 1 else if i == 0 then some 0 else none;
  };
  blocks = 2;
  deleting = [];
}

pub initialize-first : (safe t : ℕ) → initialize safe t no_lists ≡ some first
unfolding initialize create add_page allocate page fish_store.Pages.add_pages
initialize-first safe t = refl

pub first-block : (i block : ℕ) → first.page_array.pages i ≡ some block → (block ≡ i) × (i < 2)
first-block i block e = elim (Bool-cases (i == 1)) [
  | inl one ↦ let e' : some 1 ≡ some block = rw one at e in ground (arith, some-injective e')
  | inr other ↦ elim (Bool-cases (i == 0)) [
    | inl null ↦
        let e' : some 0 ≡ some block = rw (other, null) at e in ground (arith, some-injective e')
    | inr past ↦ absurd (none-some (rw (other, past) at e))
  ]
]

pub first-Represents : Represents first only_null
first-Represents = record {
  given = omega arith;
  narrow = omega arith;
  beyond = λ a le. let e : (a == 0) ≡ false = ground arith in rw e refl;
  null = refl;
  lists = λ t. tt;
  single = λ t. tt;
  there = λ i lt. let e : i ≡ 0 = omega arith in rw e (omega arith, 0, refl);
  apart = record {
    numbered = λ i block e. let (at, lt) = first-block i block e in omega (arith, at, lt);
    single = λ i j block e f.
        let (at, _) = first-block i block e in
        let (at', _) = first-block j block f in omega (arith, at, at');
  };
}

-- Every state stands for the uses of its addresses.
pub Run-Represents : {s : Allocator} {use_of : ℕ → Use} → Run s use_of → Represents s use_of
Run-Represents (starts safe t {s} e) =
    let same : first ≡ s = cc (e, initialize-first safe t) in
    subst (λ u. Represents u only_null) same first-Represents
Run-Represents (allocates safe t {s} {s'} {use_of} {a} r room e) =
    let done = allocate-Refines safe t s use_of (Run-Represents r) room in (rw e at done).2
Run-Represents (frees a epoch t {s} {use_of} r live ne) =
    free_at_epoch-Refines a epoch t s use_of (Run-Represents r) live ne

live-given :
    {s : Allocator} {use_of : ℕ → Use} (a : ℕ)
    → Represents s use_of
    → use_of a ≡ Use.live
    → a < s.count.control
live-given {s} a h live = elim (Bool-cases (ltb a s.count.control)) [
  | inl lt ↦ ground arith
  | inr ge ↦ absurd (live-unused (sym live ∙ h.beyond a (ground arith)))
]

-- The place of an address that was given out.
get-at :
    (s : Allocator) (a : FixedPageAddress) (block : ℕ)
    → s.page_array.pages (page a) ≡ some block
    → get s a ≡ some (block, offset a)
unfolding get
get-at s a block e = rw (e, get)

get-Present :
    (s : Allocator) (a : FixedPageAddress)
    → Present s (page a)
    → (block : ℕ) × (get s a ≡ some (block, offset a)) × (s.page_array.pages (page a) ≡ some block)
get-Present s a (lt, block, e) = (block, get-at s a block e, e)

address_parts :
    (a b : FixedPageAddress)
    → a.control < 2 ^ 48
    → b.control < 2 ^ 48
    → page a ≡ page b
    → offset a ≡ offset b
    → a.control ≡ b.control
unfolding page offset
address_parts a b h k e f = omega arith

-- After one `Initialize` with empty free lists and any calls of `Allocate` and `FreeAtEpoch` that free only live addresses, while the
-- addresses do not run out, and with no second `Initialize`: the item of every live address has its place in a page that is there, and two live addresses that have the
-- same place are one address.
pub places-Distinct :
    {s : Allocator} {use_of : ℕ → Use} (a b : FixedPageAddress)
    → Run s use_of
    → use_of a.control ≡ Use.live
    → use_of b.control ≡ Use.live
    → (get s a ≢ none) × (get s a ≡ get s b → a.control ≡ b.control)
places-Distinct {s} {use_of} a b r live_a live_b =
    let h = Run-Represents r in
    let lt_a = live-given a.control h live_a in
    let lt_b = live-given b.control h live_b in
    let narrow = h.narrow in
    let p = page-narrow a (omega arith) in
    let q = page-narrow b (omega arith) in
    let (k, get_a, at_a) = get-Present s a (h.there (page a) (omega (arith, p))) in
    let (l, get_b, at_b) = get-Present s b (h.there (page b) (omega (arith, q))) in
    (
      (λ z. none-some (sym z ∙ get_a)),
      (λ e.
          let places : some (k, offset a) ≡ some (l, offset b) = sym get_a ∙ e ∙ get_b in
          let k_l : k ≡ l = cc places in
          let o : offset a ≡ offset b = cc places in
          address_parts a b (omega arith) (omega arith)
            (h.apart.single (page a) (page b) l (rw k_l at at_a) at_b) o),
    )

-- What `Allocate` leaves in the array.
abbrev Keeps : Allocator → Allocator → Type 0
Keeps s s' =
    (i block : ℕ)
    → i < s.page_array.size
    → s.page_array.pages i ≡ some block
    → s'.page_array.pages i ≡ some block

module _ (s : Allocator) (use_of : ℕ → Use) (h : Represents s use_of)
    (room : s.count.control + 1 < 2 ^ 48) where
  allocate_new-Keeps : {r : FixedPageAddress × Allocator} → allocate_new s ≡ some r → Keeps s r.1
  allocate_new-Keeps {r} e i block lt at =
      let (s', e', ext, _) = allocate_new-Extends s room h.there in
      ap (λ p. p.1.page_array.pages i) (some-injective (sym e ∙ e')) ∙ ext.kept i block lt at

  allocate_from-Keeps :
      (l : List FreeAddress) (safe t : ℕ) {r : FixedPageAddress × Allocator}
      → allocate_from l safe t s ≡ some r
      → Keeps s r.1
  unfolding allocate_from
  allocate_from-Keeps [] safe t e i block lt at = allocate_new-Keeps e i block lt at
  allocate_from-Keeps (f ∷ fs) safe t e i block lt at =
      elim (Bool-cases (leb f.removal_epoch safe)) [
        | inl old ↦ ap (λ p. p.1.page_array.pages i) (sym (some-injective (rw old at e))) ∙ at
        | inr young ↦ allocate_new-Keeps (rw young at e) i block lt at
      ]

-- Through any `Allocate`, though it may replace the array, each address that was given out keeps its place.
pub allocate-keeps_places :
    {s s' : Allocator} {use_of : ℕ → Use} (safe t : ℕ) (a b : FixedPageAddress)
    → Run s use_of
    → s.count.control + 1 < 2 ^ 48
    → allocate safe t s ≡ some (b, s')
    → a.control < s.count.control
    → get s' a ≡ get s a
unfolding allocate
allocate-keeps_places {s} {s'} {use_of} safe t a b r room e given =
    let h = Run-Represents r in
    let p = page-narrow a (omega arith) in
    let present = h.there (page a) (omega (arith, p)) in
    let (lt, block, at) = present in
    let kept = allocate_from-Keeps s use_of h room (s.free_list t) safe t e (page a) block lt at in
    get-at s' a block kept ∙ sym (get-at s a block at)
