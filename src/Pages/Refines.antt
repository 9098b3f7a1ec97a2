-- ===== src/Pages/Refines.antt =====
-- core/malloc_fixed_page_size.h: Allocate and FreeAtEpoch against the promises of the allocator.
use fish_store.Base.{
  ℕ, ◌+◌, ◌^◌, ◌<◌, ◌≡◌, ◌≢◌, refl, sym, ◌∙◌, ap, ◌==◌, leb, inl, inr, Option, none, some, List, [],
  ◌∷◌, Bool-cases, All-append, arith,
}
use mathlib.Core.Path.{subst}
use fish_store.Pages.{
  FreeAddress, FixedPageAddress, Allocator, allocate, allocate_from, allocate_new, free_at_epoch,
  put_list,
}
use fish_store.Pages.Spec.{
  Use, put_use, Takes, Retired, Lacks, Distinct, Represents, put_use-same, put_use-other,
  Retired-put, Retired-Lacks, unused-retired, live-retired, live-unused, retired-thread,
  Distinct-append,
}
use fish_store.Pages.Room.{increment-narrow, allocate_new-Extends}

-- What `Allocate` comes to: an address that may be given out, and the state that stands for its use.
abbrev pub Allocates : ℕ → (ℕ → Use) → Option (FixedPageAddress × Allocator) → Type 0
Allocates safe use_of none = ⊥
Allocates safe use_of (some (a, s)) =
    Takes safe use_of a.control × (a.control ≢ 0) × Represents s (put_use use_of a.control Use.live)

module _ (s : Allocator) (use_of : ℕ → Use) (h : Represents s use_of) where
  -- Addresses that are not given out are on no list.
  outside : (t : ℕ) → Lacks s.count.control (s.free_list t)
  outside t =
      let e = h.beyond s.count.control (omega arith) in
      Retired-Lacks use_of t s.count.control (s.free_list t) (λ epoch r. unused-retired (sym e ∙ r))
        (h.lists t)

  allocate_new-Allocates :
      (safe : ℕ) → s.count.control + 1 < 2 ^ 48 → Allocates safe use_of (allocate_new s)
  allocate_new-Allocates safe room =
      let (t, e, ext, there) = allocate_new-Extends s room h.there in
      let given = h.given in
      let u = h.beyond s.count.control (omega arith) in
      let next : t.count.control ≡ s.count.control + 1 =
        ap (λ a. a.control) ext.same_count ∙ increment-narrow s.count room in
      rw e (
        inl u,
        (λ z. omega (arith, z, given)),
        record {
          given = omega (arith, next);
          narrow = omega (arith, next);
          beyond = λ a le.
              put_use-other use_of s.count.control Use.live a (λ z. omega (arith, z, next))
              ∙ h.beyond a (omega (arith, next));
          null =
              put_use-other use_of s.count.control Use.live 0 (λ z. omega (arith, z, given))
              ∙ h.null;
          lists = λ u. rw ext.same_lists (
              Retired-put use_of s.count.control Use.live u (s.free_list u) (outside u)
                (h.lists u));
          single = λ u. rw ext.same_lists (h.single u);
          there = λ i lt. there i (omega (arith, next));
          apart = ext.apart (record { numbered = h.apart.numbered; single = h.apart.single });
        },
      )

  -- The head of a free list, freed at an epoch that is safe, is given out again.
  popped :
      (t : ℕ) (f : FreeAddress) (fs : List FreeAddress)
      → s.free_list t ≡ f ∷ fs
      → Represents
          (record s { free_list = put_list s.free_list t fs })
          (put_use use_of f.removed_addr.control Use.live)
  popped t f fs e =
      let a = f.removed_addr.control in
      let (r, rs) : Retired use_of t (f ∷ fs) = subst (Retired use_of t) e (h.lists t) in
      let (lacks, distinct) : Distinct (f ∷ fs) = subst Distinct e (h.single t) in
      record {
        given = h.given;
        narrow = h.narrow;
        beyond = λ b le.
            put_use-other use_of a Use.live b
              (λ z. unused-retired (sym (h.beyond b le) ∙ ap use_of z ∙ r))
            ∙ h.beyond b le;
        null =
            put_use-other use_of a Use.live 0 (λ z. live-retired (sym h.null ∙ ap use_of z ∙ r))
            ∙ h.null;
        lists = λ u. elim (Bool-cases (u == t)) [
          | inl same ↦
              let u_t : u ≡ t = ground arith in
              rw (same, u_t) (Retired-put use_of a Use.live t fs lacks rs)
          | inr other ↦
              let lacks' =
                Retired-Lacks use_of u a (s.free_list u)
                  (λ epoch z. absurd (ground (arith, retired-thread (sym r ∙ z)))) (h.lists u) in
              rw other (Retired-put use_of a Use.live u (s.free_list u) lacks' (h.lists u))
        ];
        single = λ u. elim (Bool-cases (u == t)) [
          | inl same ↦ rw same distinct
          | inr other ↦ rw other (h.single u)
        ];
        there = h.there;
        apart = record { numbered = h.apart.numbered; single = h.apart.single };
      }

  allocate_from-Allocates :
      (safe t : ℕ) (l : List FreeAddress)
      → s.free_list t ≡ l
      → s.count.control + 1 < 2 ^ 48
      → Allocates safe use_of (allocate_from l safe t s)
  unfolding allocate_from
  allocate_from-Allocates safe t [] e room = allocate_new-Allocates safe room
  allocate_from-Allocates safe t (f ∷ fs) e room = elim (Bool-cases (leb f.removal_epoch safe)) [
    | inl old ↦
        let (r, rs) : Retired use_of t (f ∷ fs) = subst (Retired use_of t) e (h.lists t) in
        rw old (
          inr (t, f.removal_epoch, r, ground arith),
          (λ z. live-retired (sym h.null ∙ ap use_of (sym z) ∙ r)),
          popped t f fs e,
        )
    | inr young ↦ rw young (allocate_new-Allocates safe room)
  ]

-- `Allocate` refines the promise: while the count of addresses has not reached its last value, it
-- returns an address other than the null address that was never given out or was freed at an epoch that is safe, and
-- the state then stands for the uses with this address live.
pub allocate-Refines :
    (safe t : ℕ) (s : Allocator) (use_of : ℕ → Use)
    → Represents s use_of
    → s.count.control + 1 < 2 ^ 48
    → Allocates safe use_of (allocate safe t s)
unfolding allocate
allocate-Refines safe t s use_of h room =
    allocate_from-Allocates s use_of h safe t (s.free_list t) refl room

-- Freeing a live address other than the null address.
pub free_at_epoch-Refines :
    (a : FixedPageAddress) (epoch t : ℕ) (s : Allocator) (use_of : ℕ → Use)
    → Represents s use_of
    → use_of a.control ≡ Use.live
    → a.control ≢ 0
    → Represents (free_at_epoch a epoch t s) (put_use use_of a.control (Use.retired t epoch))
unfolding free_at_epoch
free_at_epoch-Refines a epoch t s use_of h live ne =
    let gone = Use.retired t epoch in
    let lacks : (u : ℕ) → Lacks a.control (s.free_list u) = λ u.
      Retired-Lacks use_of u a.control (s.free_list u) (λ e r. live-retired (sym live ∙ r))
        (h.lists u) in
    let kept : (u : ℕ) → Retired (put_use use_of a.control gone) u (s.free_list u) =
      λ u. Retired-put use_of a.control gone u (s.free_list u) (lacks u) (h.lists u) in
    record {
      given = h.given;
      narrow = h.narrow;
      beyond = λ b le.
          put_use-other use_of a.control gone b
            (λ z. live-unused (sym live ∙ ap use_of (sym z) ∙ h.beyond b le))
          ∙ h.beyond b le;
      null = put_use-other use_of a.control gone 0 (λ z. ne (sym z)) ∙ h.null;
      lists = λ u. elim (Bool-cases (u == t)) [
        | inl same ↦
            let u_t : u ≡ t = ground arith in
            rw (same, u_t)
              (All-append
                (λ f.
                  put_use use_of a.control gone f.removed_addr.control
                  ≡ Use.retired t f.removal_epoch)
                (s.free_list t) _ (kept t) (put_use-same use_of a.control gone, tt))
        | inr other ↦ rw other (kept u)
      ];
      single = λ u. elim (Bool-cases (u == t)) [
        | inl same ↦ rw same (Distinct-append (s.free_list t) _ (h.single t) (lacks t))
        | inr other ↦ rw other (h.single u)
      ];
      there = h.there;
      apart = record { numbered = h.apart.numbered; single = h.apart.single };
    }
