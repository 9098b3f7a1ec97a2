-- ===== src/Grow/Build.antt =====
-- core/fishstore.h: `AddHashEntry` appends to the chain that is built.
use fish_store.Base.{
  ℕ, zero, suc, ◌+◌, ◌-◌, ◌≤◌, ◌≡◌, inl, inr, refl, sym, ap, ◌∙◌, ◌==◌, List, [], ◌∷◌, ◌++◌, set,
  replicate, length, Bool-cases, arith,
}
use mathlib.Core.List.{append_assoc}
use fish_store.Bucket.{Entry, invalid_entry, num_entries}
use fish_store.Grow.{Building, slots, add_hash_entry, empty_chain}

-- The chain holds these entries, and then free slots up to the end of its last bucket.
pub record Holds (b : Building) (es : List Entry) : Type 0 where
  pub some_bucket : List Entry
  pub within : b.next_idx ≤ num_entries
  pub last : b.bucket ≡ some_bucket ++ replicate (num_entries - b.next_idx) invalid_entry
  pub filled : length some_bucket ≡ b.next_idx
  pub all : b.full ++ some_bucket ≡ es

-- A write into the first free slot.
set-append :
    (xs : List Entry) (n k : ℕ) (e : Entry)
    → length xs ≡ n
    → set (xs ++ replicate (suc k) invalid_entry) n e
      ≡ (xs ++ (e ∷ [])) ++ replicate k invalid_entry
set-append [] zero k e h = refl
set-append [] (suc n) k e h = absurd (omega (arith, h))
set-append (x ∷ xs) zero k e h = absurd (omega (arith, h))
set-append (x ∷ xs) (suc n) k e h = ap (λ ys. x ∷ ys) (set-append xs n k e (omega (arith, h)))

append-nil : (xs : List Entry) → xs ++ [] ≡ xs
append-nil [] = refl
append-nil (x ∷ xs) = ap (λ ys. x ∷ ys) (append-nil xs)

length-snoc : (xs : List Entry) (e : Entry) → length (xs ++ (e ∷ [])) ≡ length xs + 1
length-snoc [] e = refl
length-snoc (x ∷ xs) e = omega (arith, length-snoc xs e)

pub empty_chain-Holds : Holds empty_chain []
empty_chain-Holds = record {
  some_bucket = [];
  within = omega arith;
  last = refl;
  filled = refl;
  all = refl;
}

-- The entry added goes after those that the chain holds.
pub add_hash_entry-Holds :
    (b : Building) (es : List Entry) (e : Entry)
    → Holds b es
    → Holds (add_hash_entry b e) (es ++ (e ∷ []))
unfolding add_hash_entry
add_hash_entry-Holds b es e h = elim (Bool-cases (b.next_idx == num_entries)) [
  | inl full ↦
      let at : num_entries - b.next_idx ≡ 0 = ground arith in
      let whole : b.bucket ≡ h.some_bucket =
        h.last
        ∙ ap (λ k. h.some_bucket ++ replicate k invalid_entry) at
        ∙ append-nil h.some_bucket in
      rw full (record {
        some_bucket = e ∷ [];
        within = omega arith;
        last = refl;
        filled = refl;
        all = ap (λ l. (b.full ++ l) ++ (e ∷ [])) whole ∙ ap (λ l. l ++ (e ∷ [])) h.all;
      })
  | inr room ↦
      let left : num_entries - b.next_idx ≡ suc (num_entries - (b.next_idx + 1)) =
        ground (arith, h.within) in
      let written : set b.bucket b.next_idx e
          ≡ (h.some_bucket ++ (e ∷ []))
            ++ replicate (num_entries - (b.next_idx + 1)) invalid_entry =
        ap (λ l. set l b.next_idx e)
          (h.last ∙ ap (λ k. h.some_bucket ++ replicate k invalid_entry) left)
        ∙ set-append h.some_bucket b.next_idx _ e h.filled in
      rw room (record {
        some_bucket = h.some_bucket ++ (e ∷ []);
        within = ground (arith, h.within);
        last = written;
        filled = omega (arith, length-snoc h.some_bucket e, h.filled);
        all = sym (append_assoc b.full h.some_bucket (e ∷ [])) ∙ ap (λ l. l ++ (e ∷ [])) h.all;
      })
]

-- The slots are the entries and some free ones.
pub Holds-slots :
    (b : Building) (es : List Entry)
    → Holds b es
    → (n : ℕ) × (slots b ≡ es ++ replicate n invalid_entry)
Holds-slots b es h = (
  num_entries - b.next_idx,
  ap (λ l. b.full ++ l) h.last
      ∙ sym (append_assoc b.full h.some_bucket _)
      ∙ ap (λ l. l ++ replicate (num_entries - b.next_idx) invalid_entry) h.all,
)
