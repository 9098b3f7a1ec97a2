-- ===== src/Index/Create.antt =====
-- core/fishstore.h: `FindOrCreateEntry` on a chain that no other thread changes.
use fish_store.Base.{
  ℕ, zero, suc, ◌+◌, ◌^◌, ◌<◌, ◌≡◌, ◌≢◌, ◌⊎◌, inl, inr, refl, ap, ◌∙◌, sym, true, false, ◌==◌, none,
  some, List, [], ◌∷◌, ◌++◌, length, set, get_or, get_elem?, replicate, All, All-append,
  get_elem?-set_self, get_elem?-set_ne, length-set, Bool-cases, arith,
}
use mathlib.Core.Path.{subst}
use fish_store.Address.{Address, invalid_address}
use fish_store.Bucket.{
  Entry, invalid_entry, make_entry, entry_eq, unused, tag, tentative, num_entries,
}
use fish_store.Bucket.Packing.{make_entry-fields}
use fish_store.Index.{
  Scan, scan, offered, find_tentative_entry, has_conflicting_entry, find_or_create_entry,
}
use fish_store.Index.Find.{IsFinal, Lacks, Scans, scan-Scans}

abbrev pub Settled : List Entry → Type 0
Settled = All (λ e. tentative e ≡ false)

-- Every slot but `own` is free or has another tag.
abbrev Clear : ℕ → ℕ → List Entry → ℕ → Type 0
Clear t own [] i = Unit
Clear t own (e ∷ es) i = ((unused e ≡ true) ⊎ (tag e ≢ t) ⊎ (own ≡ i)) × Clear t own es (i + 1)

Clear-has_conflicting_entry :
    (t own : ℕ) (es : List Entry) (i : ℕ)
    → Clear t own es i
    → has_conflicting_entry t own es i ≡ false
unfolding has_conflicting_entry entry_eq unused
Clear-has_conflicting_entry t own [] i h = refl
Clear-has_conflicting_entry t own (e ∷ es) i (h, hs) =
    ground (arith, h, Clear-has_conflicting_entry t own es (i + 1) hs)

Lacks-Clear : (t own : ℕ) (es : List Entry) (i : ℕ) → Lacks t es → Settled es → Clear t own es i
Lacks-Clear t own [] i lacks settled = tt
Lacks-Clear t own (e ∷ es) i (lack, lacks) (final, settled) = (
  elim (Bool-cases (unused e)) [
    | inl free ↦ inl free
    | inr used ↦ inr (inl (λ same. lack (record { used = used; tagged = same; final = final })))
  ],
  Lacks-Clear t own es (i + 1) lacks settled,
)

set-Clear :
    (t : ℕ) (es : List Entry) (i k : ℕ) (v : Entry)
    → Lacks t es
    → Settled es
    → Clear t (i + k) (set es k v) i
set-Clear t [] i k v lacks settled = tt
set-Clear t (e ∷ es) i zero v lacks settled =
    (inr (inr (omega arith)), Lacks-Clear t (i + 0) es (i + 1) lacks.1 settled.1)
set-Clear t (e ∷ es) i (suc k) v lacks settled = (
  (Lacks-Clear t (i + suc k) (e ∷ es) i lacks settled).0,
  subst (λ o. Clear t o (set es k v) (i + 1)) (omega arith)
      (set-Clear t es (i + 1) k v lacks.1 settled.1),
)

abbrev Extends : List Entry → List Entry → Type 0
Extends c d = (j : ℕ) (f : Entry) → get_elem? c j ≡ some f → get_elem? d j ≡ some f

-- What `FindTentativeEntry` hands to `FindOrCreateEntry`.
abbrev Offers : ℕ → List Entry → ℕ × Entry × List Entry → Type 0
Offers t c (i, expected, d) =
    (IsFinal t expected × (get_elem? c i ≡ some expected) × (d ≡ c))
    ⊎ ((expected ≡ invalid_entry)
        × (get_elem? d i ≡ some invalid_entry)
        × Lacks t d
        × Settled d
        × Extends c d)

unused-invalid : (e : Entry) → unused e ≡ true → e ≡ invalid_entry
unfolding unused
unused-invalid e h = ap (λ c. record { control = c }) (ground (arith, h))

append-Extends : (c d : List Entry) → Extends c (c ++ d)
append-Extends [] d j f there = absurd (ground (arith, there))
append-Extends (e ∷ c) d zero f there = there
append-Extends (e ∷ c) d (suc j) f there = append-Extends c d j f there

Lacks-append : (t : ℕ) (c d : List Entry) → Lacks t c → Lacks t d → Lacks t (c ++ d)
Lacks-append t [] d h k = k
Lacks-append t (e ∷ c) d h k = (h.0, Lacks-append t c d h.1 k)

get_elem?-append_length :
    (c : List Entry) (e : Entry) (d : List Entry) → get_elem? (c ++ (e ∷ d)) (length c) ≡ some e
get_elem?-append_length [] e d = refl
get_elem?-append_length (x ∷ c) e d = get_elem?-append_length c e d

invalid-differs : (t : ℕ) → ¬ IsFinal t invalid_entry
unfolding unused
invalid-differs t f = absurd (ground (arith, f.used))

new_bucket-Settled : Settled (replicate num_entries invalid_entry)
unfolding tentative
new_bucket-Settled = (refl, (refl, (refl, (refl, (refl, (refl, (refl, tt)))))))

offered-Offers :
    (t : ℕ) (c : List Entry) (s : Scan) → Scans t c 0 none s → Settled c → Offers t c (offered c s)
offered-Offers t c (Scan.found i e) (k, at, there, final) settled =
    let same : k ≡ i = omega arith in
    inl (final, subst (λ j. get_elem? c j ≡ some e) same there, refl)
offered-Offers t c (Scan.vacant none) (lacks, _) settled =
    let lack = invalid-differs t in
    inr (
      refl,
      get_elem?-append_length c invalid_entry _,
      Lacks-append t c _ lacks (lack, (lack, (lack, (lack, (lack, (lack, (lack, tt))))))),
      All-append (λ e. tentative e ≡ false) c _ settled new_bucket-Settled,
      append-Extends c _,
    )
offered-Offers t c (Scan.vacant (some i)) (lacks, inl same) settled = absurd (ground (arith, same))
offered-Offers t c (Scan.vacant (some i)) (lacks, inr (k, e, at, there, free)) settled =
    let same : k ≡ i = ground (arith, at) in
    inr (
      refl,
      subst (λ j. get_elem? c j ≡ some invalid_entry) same
          (there ∙ ap some (unused-invalid e free)),
      lacks,
      settled,
      λ j f h. h,
    )

find_tentative_entry-Offers :
    (t : ℕ) (c : List Entry) → Settled c → Offers t c (find_tentative_entry t c)
unfolding find_tentative_entry
find_tentative_entry-Offers t c = offered-Offers t c (scan t c 0 none) (scan-Scans t c 0 none)

get_or-at : (c : List Entry) (i : ℕ) (e d : Entry) → get_elem? c i ≡ some e → get_or c i d ≡ e
get_or-at [] i e d h = absurd (ground (arith, h))
get_or-at (x ∷ c) zero e d h = ground (arith, h)
get_or-at (x ∷ c) (suc i) e d h = get_or-at c i e d h

at-bounded : (c : List Entry) (i : ℕ) (e : Entry) → get_elem? c i ≡ some e → i < length c
at-bounded [] i e h = absurd (ground (arith, h))
at-bounded (x ∷ c) zero e h = omega arith
at-bounded (x ∷ c) (suc i) e h = omega (arith, at-bounded c i e h)

-- What a call returns: the entry at its slot, final and with the tag, in a chain that keeps all the
-- entries in use.
pub record Created (t : ℕ) (c : List Entry) (i : ℕ) (e : Entry) (d : List Entry) : Type 0 where
  pub final : IsFinal t e
  pub there : get_elem? d i ≡ some e
  pub kept :
      (j : ℕ) (f : Entry) → unused f ≡ false → get_elem? c j ≡ some f → get_elem? d j ≡ some f

abbrev invalid : Address
invalid = record { control = invalid_address }

same_entry : (a b : Entry) → a ≡ b → entry_eq a b ≡ true
unfolding entry_eq
same_entry a b h = let e : a.control ≡ b.control = ap (λ x. x.control) h in ground (arith, e)

used_entry : (a : Entry) → unused a ≡ false → entry_eq a invalid_entry ≡ false
unfolding entry_eq unused
used_entry a h = h

created :
    (t : ℕ) (c d : List Entry) (i : ℕ) (v w : Entry)
    → IsFinal t w
    → get_elem? d i ≡ some invalid_entry
    → Extends c d
    → Created t c i w (set (set d i v) i w)
unfolding unused
created t c d i v w final there extends =
    let bound : i < length (set d i v) =
      rw (length-set d i v) (at-bounded d i invalid_entry there) in
    record {
      final = final;
      there = get_elem?-set_self (set d i v) i w bound;
      kept = λ j f used at. elim (Bool-cases (i == j)) [
        | inl same ↦
            let here : i ≡ j = ground (arith, same) in
            let gone : some f ≡ some invalid_entry =
              sym (extends j f at) ∙ sym (ap (get_elem? d) here) ∙ there in
            absurd (ground (arith, gone, used))
        | inr other ↦
            let apart : i ≢ j = ground (arith, other) in
            get_elem?-set_ne (set d i v) w apart ∙ get_elem?-set_ne d v apart ∙ extends j f at
      ];
    }

-- On a chain without tentative entries, one round of `FindOrCreateEntry` with a 14-bit tag returns.
-- The entry it returns is final, has the tag and stands in the chain at the slot returned, and every
-- entry in use is where it was.
pub find_or_create_entry-Created :
    (rounds t : ℕ) (c : List Entry)
    → t < 2 ^ 14
    → Settled c
    → (i : ℕ) × (e : Entry) × (d : List Entry) × (find_or_create_entry (suc rounds) t c
        ≡ some (i, e, d))
      × Created t c i e d
unfolding find_or_create_entry
find_or_create_entry-Created rounds t c small settled =
    let o = find_tentative_entry t c in
    elim (find_tentative_entry-Offers t c settled) [
      | inl (final, there, same) ↦ rw (used_entry o.1 final.used) (
        o.0,
        o.1,
        o.2,
        refl,
        record {
          final = final;
          there = ap (λ d. get_elem? d o.0) same ∙ there;
          kept = λ j f used at. ap (λ d. get_elem? d j) same ∙ at;
        },
      )
      | inr (fresh, there, lacks, young, extends) ↦
          let (_, made, _, _) =
            make_entry-fields invalid t true (omega arith) (omega arith) small in
          let (_, tagged, final, used) =
            make_entry-fields invalid t false (omega arith) (omega arith) small in
          let here = get_or-at o.2 o.0 invalid_entry invalid_entry there in
          let at_own : 0 + o.0 ≡ o.0 = omega arith in
          let clear : has_conflicting_entry t o.0 (set o.2 o.0 (make_entry invalid t true)) 0
              ≡ false =
            Clear-has_conflicting_entry t o.0 _ 0 (
              subst (λ own. Clear t own (set o.2 o.0 (make_entry invalid t true)) 0) at_own
                (set-Clear t o.2 0 o.0 (make_entry invalid t true) lacks young)) in
          rw (same_entry o.1 invalid_entry fresh) (
            rw (same_entry (get_or o.2 o.0 invalid_entry) o.1 (here ∙ sym fresh)) (
              rw made (
                rw clear (
                  o.0,
                  _,
                  _,
                  refl,
                  created t c o.2 o.0 _ _ (record { used = used; tagged = tagged; final = final })
                      there extends,
                ))))
    ]
