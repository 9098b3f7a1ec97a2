-- ===== src/Index/Find.antt =====
-- core/fishstore.h: what the loops over a chain find.
use fish_store.Base.{
  ℕ, suc, ◌+◌, ◌≡◌, ◌⊎◌, inl, inr, refl, true, false, ◌==◌, Option, none, some, List, [], ◌∷◌,
  get_elem?, Bool-cases, arith,
}
use fish_store.Bucket.{Entry, unused, tag, tentative}
use fish_store.Index.{find_entry, Scan, first_free, scan}

-- A final entry with the tag.
pub record IsFinal (t : ℕ) (e : Entry) : Type 0 where
  pub used : unused e ≡ false
  pub tagged : tag e ≡ t
  pub final : tentative e ≡ false

-- No slot holds a final entry with the tag.
abbrev pub Lacks : ℕ → List Entry → Type 0
Lacks t [] = Unit
Lacks t (e ∷ es) = ¬ IsFinal t e × Lacks t es

abbrev pub Finds : ℕ → List Entry → ℕ → Option ℕ → Type 0
Finds t es i none = Lacks t es
Finds t es i (some j) =
    (k : ℕ) × (e : Entry) × (j ≡ i + k) × (get_elem? es k ≡ some e) × IsFinal t e

Finds-later :
    (t : ℕ) (e : Entry) (es : List Entry) (i : ℕ) (o : Option ℕ)
    → ¬ IsFinal t e
    → Finds t es (i + 1) o
    → Finds t (e ∷ es) i o
Finds-later t e es i none differs h = (differs, h)
Finds-later t e es i (some j) differs (k, f, at, there, final) =
    (suc k, f, omega arith, there, final)

-- `FindEntry` finds a slot with a final entry of the tag if the chain has one, and otherwise none.
pub find_entry-Finds : (t : ℕ) (es : List Entry) (i : ℕ) → Finds t es i (find_entry t es i)
unfolding find_entry
find_entry-Finds t [] i = tt
find_entry-Finds t (e ∷ es) i =
    let later =
      λ (differs : ¬ IsFinal t e). Finds-later t e es i _ differs (find_entry-Finds t es (i + 1)) in
    elim (Bool-cases (unused e)) [
      | inl free ↦ rw free (later (λ f. cc f.used))
      | inr used ↦ elim (Bool-cases (t == tag e)) [
        | inr other ↦ rw (used, other) (later (λ f. ground (arith, f.tagged)))
        | inl same ↦ elim (Bool-cases (tentative e)) [
          | inl young ↦ rw (used, same, young) (later (λ f. cc f.final))
          | inr final ↦
              rw (used, same, final)
                (
                  0,
                  e,
                  omega arith,
                  refl,
                  record { used = used; tagged = ground arith; final = final },
                )
        ]
      ]
    ]

-- What a scan for the tag comes to.
abbrev pub Scans : ℕ → List Entry → ℕ → Option ℕ → Scan → Type 0
Scans t es i free (Scan.found j f) = (k : ℕ) × (j ≡ i + k) × (get_elem? es k ≡ some f) × IsFinal t f
Scans t es i free (Scan.vacant o) =
    Lacks t es
    × ((o ≡ free)
        ⊎ ((k : ℕ) × (e : Entry) × (o ≡ some (i + k))
            × (get_elem? es k ≡ some e)
            × (unused e ≡ true)))

Scans-later :
    (t : ℕ) (e : Entry) (es : List Entry) (i : ℕ) (free : Option ℕ) (s : Scan)
    → ¬ IsFinal t e
    → Scans t es (i + 1) free s
    → Scans t (e ∷ es) i free s
Scans-later t e es i free (Scan.found j f) differs (k, at, there, final) =
    (suc k, omega arith, there, final)
Scans-later t e es i free (Scan.vacant o) differs (lacks, inl same) = ((differs, lacks), inl same)
Scans-later t e es i free (Scan.vacant o) differs (lacks, inr (k, f, at, there, free_there)) =
    ((differs, lacks), inr (suc k, f, ground (arith, at), there, free_there))

-- The slot of an entry that is not used, where no earlier one was kept.
Scans-taken :
    (t : ℕ) (e : Entry) (es : List Entry) (i : ℕ) (free : Option ℕ) (s : Scan)
    → unused e ≡ true
    → ¬ IsFinal t e
    → Scans t es (i + 1) (first_free free i) s
    → Scans t (e ∷ es) i free s
Scans-taken t e es i (some f) s taken differs h = Scans-later t e es i (some f) s differs h
Scans-taken t e es i none (Scan.found j f) taken differs (k, at, there, final) =
    (suc k, omega arith, there, final)
Scans-taken t e es i none (Scan.vacant o) taken differs (lacks, inl same) =
    ((differs, lacks), inr (0, e, ground (arith, same), refl, taken))
Scans-taken t e es i none (Scan.vacant o) taken differs (lacks, inr (k, f, at, there, free_there)) =
    ((differs, lacks), inr (suc k, f, ground (arith, at), there, free_there))

-- What `FindTentativeEntry` scans for: it finds the final entry with the tag if the chain has one,
-- and otherwise the first free slot or none.
pub scan-Scans :
    (t : ℕ) (es : List Entry) (i : ℕ) (free : Option ℕ) → Scans t es i free (scan t es i free)
unfolding scan
scan-Scans t [] i free = (tt, inl refl)
scan-Scans t (e ∷ es) i free =
    let later = λ (differs : ¬ IsFinal t e).
      Scans-later t e es i free _ differs (scan-Scans t es (i + 1) free) in
    elim (Bool-cases (unused e)) [
      | inl taken ↦ rw taken (
          Scans-taken t e es i free _ taken (λ f. cc f.used)
            (scan-Scans t es (i + 1) (first_free free i)))
      | inr used ↦ elim (Bool-cases (t == tag e)) [
        | inr other ↦ rw (used, other) (later (λ f. ground (arith, f.tagged)))
        | inl same ↦ elim (Bool-cases (tentative e)) [
          | inl young ↦ rw (used, same, young) (later (λ f. cc f.final))
          | inr final ↦
              rw (used, same, final)
                (0, omega arith, refl, record { used = used; tagged = ground arith; final = final })
        ]
      ]
    ]
