-- ===== src/Clean/Entries.antt =====
-- core/fishstore.h: what cleaning does to a range of buckets.
use fish_store.Base.{
  ℕ, zero, suc, ◌+◌, ◌<◌, ◌≤◌, ◌≡◌, ◌≢◌, ◌⊎◌, inl, inr, refl, ap, true, false, ◌==◌, if◌then◌else◌,
  List, [], ◌∷◌, some, ltb, Option, some-injective, none-some, get_elem?, Bool-cases, arith,
}
use mathlib.Core.Path.{subst}
use fish_store.Address.{invalid_address}
use fish_store.Bucket.{Entry, invalid_entry, unused, address}
use fish_store.Clean.{truncated, clean_entries, clean_buckets}

-- The entry of a slot before and after: out, where it leads below the begin address, and kept, where it is
-- free, leads nowhere, or leads to the log.
abbrev pub Treated : ℕ → Entry → Option Entry → Type 0
Treated begin e now =
    ((now ≡ some invalid_entry)
      × ((address e).control ≢ invalid_address)
      × ((address e).control < begin))
    ⊎ ((now ≡ some e)
        × ((unused e ≡ true)
            ⊎ ((address e).control ≡ invalid_address)
            ⊎ (begin ≤ (address e).control)))

-- Cleaning treats each slot so.
abbrev pub Cleaned : ℕ → List Entry → List Entry → Type 0
Cleaned begin es fs =
    (j : ℕ) (e : Entry) → get_elem? es j ≡ some e → Treated begin e (get_elem? fs j)

Treated-head :
    (begin : ℕ) (e : Entry)
    → Treated begin e (some (if truncated begin e then invalid_entry else e))
unfolding truncated
Treated-head begin e = elim (Bool-cases (unused e)) [
  | inl free ↦ rw free (inr (refl, inl refl))
  | inr used ↦ elim (Bool-cases ((address e).control == invalid_address)) [
    | inl nowhere ↦ rw (used, nowhere) (inr (refl, inr (inl (ground arith))))
    | inr somewhere ↦ elim (Bool-cases (ltb (address e).control begin)) [
      | inl below ↦
          rw (used, somewhere, below) (inl (refl, (λ z. absurd (ground (arith, z))), ground arith))
      | inr within ↦ rw (used, somewhere, within) (inr (refl, inr (inr (ground arith))))
    ]
  ]
]

pub clean_entries-Cleaned :
    (begin : ℕ) (es : List Entry) → Cleaned begin es (clean_entries begin es)
unfolding clean_entries
clean_entries-Cleaned begin [] j e h = absurd (none-some h)
clean_entries-Cleaned begin (e ∷ es) zero f h =
    subst (λ x. Treated begin x (some (if truncated begin e then invalid_entry else e)))
      (some-injective h) (Treated-head begin e)
clean_entries-Cleaned begin (e ∷ es) (suc j) f h = clean_entries-Cleaned begin es j f h

invalid_kept : (begin : ℕ) → truncated begin invalid_entry ≡ false
unfolding truncated unused
invalid_kept begin = refl

pub clean_entries-twice :
    (begin : ℕ) (es : List Entry)
    → clean_entries begin (clean_entries begin es) ≡ clean_entries begin es
unfolding clean_entries
clean_entries-twice begin [] = refl
clean_entries-twice begin (e ∷ es) = elim (Bool-cases (truncated begin e)) [
  | inl gone ↦
      rw (gone, invalid_kept begin) (ap (λ l. invalid_entry ∷ l) (clean_entries-twice begin es))
  | inr kept ↦ rw (kept, kept) (ap (λ l. e ∷ l) (clean_entries-twice begin es))
]

module _ (begin first : ℕ) (table : ℕ → List Entry) where
  pub clean_buckets-outside :
      (n i : ℕ) → (i < first) ⊎ (first + n ≤ i) → clean_buckets begin first n table i ≡ table i
  unfolding clean_buckets
  clean_buckets-outside zero i h = refl
  clean_buckets-outside (suc n) i h =
      let ne : (i == first + n) ≡ false = ground (arith, h) in
      rw ne (clean_buckets-outside n i (ground (arith, h)))

  pub clean_buckets-inside :
      (n i : ℕ)
      → first ≤ i
      → i < first + n
      → clean_buckets begin first n table i ≡ clean_entries begin (table i)
  unfolding clean_buckets
  clean_buckets-inside zero i le lt = absurd (omega arith)
  clean_buckets-inside (suc n) i le lt = elim (Bool-cases (i == first + n)) [
    | inl at ↦ rw at (ap (clean_entries begin) (clean_buckets-outside n i (inr (ground arith))))
    | inr before ↦ rw before (clean_buckets-inside n i le (ground arith))
  ]
