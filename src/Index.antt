-- ===== src/Index.antt =====
-- core/fishstore.h: finding and creating entries of the hash index.
-- A chain is the entries of a bucket and of its overflow buckets, seven to a bucket, in the order in
-- which the loops visit them; the end of the list is the overflow entry that is not used. A call runs
-- on its own: no other thread writes to the chain during it, though tentative entries that others
-- left may stand there.
pub mod Find
pub mod Create
use fish_store.Base.{
  ℕ, zero, suc, ◌+◌, Bool, true, false, not, ◌==◌, ◌&&◌, if◌then◌else◌, Option, none, some, List,
  [], ◌∷◌, ◌++◌, length, set, get_or, replicate,
}
use fish_store.Address.{Address, invalid_address}
use fish_store.Bucket.{
  Entry, invalid_entry, make_entry, entry_eq, unused, tag, tentative, num_entries, compare_exchange,
}

-- The loops of `FindEntry` from the slot `i` on: the slot of the final entry with the tag.
unfoldable pub find_entry : ℕ → List Entry → ℕ → Option ℕ
find_entry t [] i = none
find_entry t (e ∷ es) i =
    let rest = find_entry t es (i + 1) in
    if unused e
    then rest
    else if t == tag e
    then (if not (tentative e) then some i else rest)
    else rest

-- What the loops of `FindTentativeEntry` find: the tag, or a free slot if there is one.
pub data Scan : Type 0 where
  found : (slot : ℕ) (entry : Entry) → Scan
  vacant : (free : Option ℕ) → Scan

abbrev pub first_free : Option ℕ → ℕ → Option ℕ
first_free none i = some i
first_free (some j) i = some j

unfoldable pub scan : ℕ → List Entry → ℕ → Option ℕ → Scan
scan t [] i free = Scan.vacant free
scan t (e ∷ es) i free =
    let taken = scan t es (i + 1) (first_free free i) in
    let rest = scan t es (i + 1) free in
    if unused e then taken else if t == tag e && not (tentative e) then Scan.found i e else rest

-- What the scan comes to: the slot, `expected_entry`, and the chain, with a new bucket if it was full.
abbrev pub offered : List Entry → Scan → ℕ × Entry × List Entry
offered c (Scan.found i e) = (i, e, c)
offered c (Scan.vacant (some i)) = (i, invalid_entry, c)
offered c (Scan.vacant none) = (length c, invalid_entry, c ++ replicate num_entries invalid_entry)

-- `FindTentativeEntry`.
unfoldable pub find_tentative_entry : ℕ → List Entry → ℕ × Entry × List Entry
find_tentative_entry t c = offered c (scan t c 0 none)

-- `HasConflictingEntry`, from the slot `i` on, for the entry in the slot `own`.
unfoldable pub has_conflicting_entry : ℕ → ℕ → List Entry → ℕ → Bool
has_conflicting_entry t own [] i = false
has_conflicting_entry t own (e ∷ es) i =
    let rest = has_conflicting_entry t own es (i + 1) in
    if not (entry_eq e invalid_entry) && tag e == t && not (own == i) then true else rest

-- `FindOrCreateEntry`: the slot, `expected_entry` and the chain; `none` where the rounds run out.
unfoldable pub find_or_create_entry : ℕ → ℕ → List Entry → Option (ℕ × Entry × List Entry)
find_or_create_entry zero t c = none
find_or_create_entry (suc rounds) t c =
    let (i, expected, c₁) = find_tentative_entry t c in
    let entry = make_entry (record { control = invalid_address }) t true in
    let settled = make_entry (record { control = invalid_address }) t false in
    let c₂ = set c₁ i entry in
    let lost = find_or_create_entry rounds t c₁ in
    let back_off = find_or_create_entry rounds t (set c₂ i invalid_entry) in
    if not (entry_eq expected invalid_entry)
    then some (i, expected, c₁)
    else if entry_eq (get_or c₁ i invalid_entry) expected
    then (if has_conflicting_entry (tag entry) i c₂ 0
        then back_off
        else some (i, settled, set c₂ i settled))
    else lost
