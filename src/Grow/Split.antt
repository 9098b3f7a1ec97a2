-- ===== src/Grow/Split.antt =====
-- core/fishstore.h: SplitHashTableBuckets keeps what an old chain leads to.
use fish_store.Base.{
  ℕ, ◌^◌, ◌<◌, ◌≤◌, ◌≡◌, ◌≢◌, inl, inr, refl, sym, ◌∙◌, true, false, Bool, not, ltb, some, List, [],
  ◌∷◌, ◌++◌, Any, Any-left, Any-right, Bool-cases, arith,
}
use mathlib.Core.List.{append_assoc}
use mathlib.Core.Path.{subst}
use fish_store.Bucket.{Entry, unused, address}
use fish_store.Grow.{
  Source, Building, Sides, slots, add_hash_entry, zero_side, split_in_memory, split_entry,
  split_entries, split_chain, empty_sides,
}
use fish_store.Grow.Build.{Holds, empty_chain-Holds, add_hash_entry-Holds, Holds-slots}
use fish_store.Grow.Trace.{Belongs, Backward, Leads-past}
use fish_store.Grow.Other.{
  LeadsTo, pick, Keeps, Grows, self, append-nil, Other, Usable, add_other-Other,
}

not_self : (own : Bool) → own ≢ not own
not_self true z = absurd (cc z)
not_self false z = absurd (cc z)

module _ (rounds : ℕ) (g : Source) (usable : Usable rounds g) (e : Entry)
    (used : unused e ≡ false) where
  -- The side of the entry's own key pointer gets the entry, the other one what the trace found.
  far_side :
      (own : Bool) {b c : Building}
      → g.head_address ≤ (address e).control
      → zero_side g (address e).control ≡ own
      → (o : Other g e (not own) b c) → (t k : ℕ) → Belongs g (not own) k
      → Any (LeadsTo g t k) (e ∷ [])
      → Any (LeadsTo g t k) o.added
  far_side own le at o t k belongs h =
      let (tagged, l) = self g e used t k h in
      o.keeps t k tagged belongs
        (Leads-past (not own) le (λ z. not_self own (sym at ∙ z)) l belongs)

  side0-Keeps :
      {b c : Building}
      → g.head_address ≤ (address e).control
      → zero_side g (address e).control ≡ true
      → (o : Other g e false b c) → Keeps g (e ∷ []) (e ∷ []) o.added
  side0-Keeps le at o true t k belongs h = h
  side0-Keeps le at o false t k belongs h = far_side true le at o t k belongs h

  side1-Keeps :
      {b c : Building}
      → g.head_address ≤ (address e).control
      → zero_side g (address e).control ≡ false
      → (o : Other g e true b c) → Keeps g (e ∷ []) o.added (e ∷ [])
  side1-Keeps le at o true t k belongs h = far_side false le at o t k belongs h
  side1-Keeps le at o false t k belongs h = h

  split_in_memory-Grows :
      (b : Sides)
      → g.head_address ≤ (address e).control
      → (b' : Sides) × (split_in_memory rounds g e b ≡ some b') × Grows g (e ∷ []) b b'
  unfolding split_in_memory
  split_in_memory-Grows b le = elim (Bool-cases (zero_side g (address e).control)) [
    | inl low ↦
        let (c, found, o) = add_other-Other rounds g e b.side1 0 usable le in
        (
          record { side0 = add_hash_entry b.side0 e; side1 = c },
          rw (low, found) refl,
          record {
            added0 = e ∷ [];
            added1 = o.added;
            holds0 = λ l h. add_hash_entry-Holds b.side0 l e h;
            holds1 = o.holds;
            keeps = side0-Keeps le low o;
          },
        )
    | inr high ↦
        let (c, found, o) = add_other-Other rounds g e b.side0 1 usable le in
        (
          record { side0 = c; side1 = add_hash_entry b.side1 e },
          rw (high, found) refl,
          record {
            added0 = o.added;
            added1 = e ∷ [];
            holds0 = o.holds;
            holds1 = λ l h. add_hash_entry-Holds b.side1 l e h;
            keeps = side1-Keeps le high o;
          },
        )
  ]

both-Keeps : (g : Source) (e : Entry) → Keeps g (e ∷ []) (e ∷ []) (e ∷ [])
both-Keeps g e true t k belongs h = h
both-Keeps g e false t k belongs h = h

free-Keeps : (g : Source) (e : Entry) → unused e ≡ true → Keeps g (e ∷ []) [] []
free-Keeps g e free side t k belongs (Any.at_head h) = absurd (cc (sym free ∙ h.used))
free-Keeps g e free side t k belongs (Any.in_tail h) = elim h [ ]

same-Grows : (g : Source) (es : List Entry) (b : Sides) → Keeps g es [] [] → Grows g es b b
same-Grows g es b keeps = record {
  added0 = [];
  added1 = [];
  holds0 = λ l h. subst (Holds b.side0) (sym (append-nil l)) h;
  holds1 = λ l h. subst (Holds b.side1) (sym (append-nil l)) h;
  keeps = keeps;
}

split_entry-Grows :
    (rounds : ℕ) (g : Source) (e : Entry) (b : Sides)
    → Usable rounds g
    → (b' : Sides) × (split_entry rounds g e b ≡ some b') × Grows g (e ∷ []) b b'
unfolding split_entry
split_entry-Grows rounds g e b usable = elim (Bool-cases (unused e)) [
  | inl free ↦ (b, rw free refl, same-Grows g (e ∷ []) b (free-Keeps g e free))
  | inr used ↦ elim (Bool-cases (ltb (address e).control g.head_address)) [
    | inl disk ↦ (
      record { side0 = add_hash_entry b.side0 e; side1 = add_hash_entry b.side1 e },
      rw (used, disk) refl,
      record {
        added0 = e ∷ [];
        added1 = e ∷ [];
        holds0 = λ l h. add_hash_entry-Holds b.side0 l e h;
        holds1 = λ l h. add_hash_entry-Holds b.side1 l e h;
        keeps = both-Keeps g e;
      },
    )
    | inr memory ↦
        let (b', found, grows) = split_in_memory-Grows rounds g usable e used b (ground arith) in
        (b', rw (used, memory) found, grows)
  ]
]

pick-left :
    (side : Bool) {P : Entry → Type 0} (xs ys xs' ys' : List Entry)
    → Any P (pick side xs ys)
    → Any P (pick side (xs ++ xs') (ys ++ ys'))
pick-left true xs ys xs' ys' h = Any-left xs' h
pick-left false xs ys xs' ys' h = Any-left ys' h

pick-right :
    (side : Bool) {P : Entry → Type 0} (xs ys xs' ys' : List Entry)
    → Any P (pick side xs' ys')
    → Any P (pick side (xs ++ xs') (ys ++ ys'))
pick-right true xs ys xs' ys' h = Any-right xs h
pick-right false xs ys xs' ys' h = Any-right ys h

-- Two steps, one after another.
Grows-then :
    {g : Source} {e : Entry} {es : List Entry} {b b' b'' : Sides}
    → Grows g (e ∷ []) b b'
    → Grows g es b' b''
    → Grows g (e ∷ es) b b''
Grows-then {g} {e} {es} {b} {b'} {b''} first then_all = record {
  added0 = first.added0 ++ then_all.added0;
  added1 = first.added1 ++ then_all.added1;
  holds0 = λ l h.
      subst (Holds b''.side0) (append_assoc l first.added0 then_all.added0)
        (then_all.holds0 _ (first.holds0 l h));
  holds1 = λ l h.
      subst (Holds b''.side1) (append_assoc l first.added1 then_all.added1)
        (then_all.holds1 _ (first.holds1 l h));
  keeps = keeps;
}
  where
    keeps : Keeps g (e ∷ es) (first.added0 ++ then_all.added0) (first.added1 ++ then_all.added1)
    keeps side t k belongs (Any.at_head h) =
        pick-left side first.added0 first.added1 then_all.added0 then_all.added1
          (first.keeps side t k belongs (Any.at_head h))
    keeps side t k belongs (Any.in_tail h) =
        pick-right side first.added0 first.added1 then_all.added0 then_all.added1
          (then_all.keeps side t k belongs h)

split_entries-Grows :
    (rounds : ℕ) (g : Source) (es : List Entry) (b : Sides)
    → Usable rounds g
    → (b' : Sides) × (split_entries rounds g es b ≡ some b') × Grows g es b b'
unfolding split_entries
split_entries-Grows rounds g [] b usable =
    (b, refl, same-Grows g [] b (λ side t k belongs h. elim h [ ]))
split_entries-Grows rounds g (e ∷ es) b usable =
    let (b', found, first) = split_entry-Grows rounds g e b usable in
    let (b'', found', rest) = split_entries-Grows rounds g es b' usable in
    (b'', rw found found', Grows-then first rest)

-- Where key pointers in memory point to lower addresses and the begin address is not 0, 2^48 rounds of
-- each trace are enough to split a chain. A key pointer from the begin address on that an
-- entry in use leads to is then led to by an entry of the same tag in the new chain of its side; if it
-- is on disk, in the new chains of both sides.
pub split_chain-Keeps :
    (rounds : ℕ) (g : Source) (chain : List Entry)
    → Backward g
    → 0 < g.begin_address
    → 2 ^ 48 ≤ rounds
    → (b : Sides) × (split_chain rounds g chain ≡ some b)
      × Keeps g chain (slots b.side0) (slots b.side1)
unfolding split_chain
split_chain-Keeps rounds g chain backward positive enough =
    let (b, found, grows) =
      split_entries-Grows rounds g chain empty_sides (backward, positive, enough) in
    let (n, slots0) = Holds-slots b.side0 grows.added0 (grows.holds0 [] empty_chain-Holds) in
    let (m, slots1) = Holds-slots b.side1 grows.added1 (grows.holds1 [] empty_chain-Holds) in
    (
      b,
      found,
      λ side t k belongs h.
          rw (slots0, slots1)
            (pick-left side grows.added0 grows.added1 _ _ (grows.keeps side t k belongs h)),
    )
