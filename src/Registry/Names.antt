-- ===== src/Registry/Names.antt =====
-- core/fishstore.h: field ids and field names.
use fish_store.Registry.Types.{can_inline}
use fish_store.Base.{
  ℕ, zero, suc, ◌-◌, ◌%◌, ◌^◌, ◌<◌, ◌≡◌, ◌⊎◌, refl, sym, ap, ◌∙◌, true, false, ltb, ◌==◌, inl, inr,
  Option, none, some, List, [], ◌∷◌, ◌++◌, length, get_elem?, some-injective, none-some, Bool-cases,
  arith,
}
use mathlib.Core.Path.{subst}
use fish_store.Registry.{
  Registry, Psf, PsfInfo, PsfType, Library, find, found_or_new, acquire_field_id, acquire_fields,
  make_ez_psf, add_general_psf,
}

-- The map and the list of names agree: an id of the map is the place of its name.
pub record Agrees (r : Registry) : Type 0 where
  pub placed :
      (name id : ℕ)
      → find r.field_lookup_map name ≡ some id
      → get_elem? r.field_names id ≡ some name
  pub known :
      (name i : ℕ) → get_elem? r.field_names i ≡ some name → find r.field_lookup_map name ≡ some i

get_elem?-append :
    (xs ys : List ℕ) (i x : ℕ) → get_elem? xs i ≡ some x → get_elem? (xs ++ ys) i ≡ some x
get_elem?-append [] ys i x e = absurd (none-some e)
get_elem?-append (z ∷ xs) ys zero x e = e
get_elem?-append (z ∷ xs) ys (suc i) x e = get_elem?-append xs ys i x e

get_elem?-last : (xs : List ℕ) (x : ℕ) → get_elem? (xs ++ (x ∷ [])) (length xs) ≡ some x
get_elem?-last [] x = refl
get_elem?-last (z ∷ xs) x = get_elem?-last xs x

psf_last : (xs : List Psf) (x : Psf) → get_elem? (xs ++ (x ∷ [])) (length xs) ≡ some x
psf_last [] x = refl
psf_last (z ∷ xs) x = psf_last xs x

-- An element of the longer list is the last one or one of the list.
get_elem?-snoc :
    (xs : List ℕ) (x i y : ℕ)
    → get_elem? (xs ++ (x ∷ [])) i ≡ some y
    → ((i ≡ length xs) × (y ≡ x)) ⊎ (get_elem? xs i ≡ some y)
get_elem?-snoc [] x zero y e = inl (refl, sym (some-injective e))
get_elem?-snoc [] x (suc i) y e = absurd (none-some e)
get_elem?-snoc (z ∷ xs) x zero y e = inr e
get_elem?-snoc (z ∷ xs) x (suc i) y e = elim (get_elem?-snoc xs x i y e) [
  | inl (at, same) ↦ inl (ap suc at, same)
  | inr old ↦ inr old
]

-- What the call does: the id is the place of the name, other names keep their places, and the call again changes nothing.
pub record Acquired (name : ℕ) (r : Registry) (id : ℕ) (s : Registry) : Type 0 where
  pub agrees : Agrees s
  pub at : get_elem? s.field_names id ≡ some name
  pub kept : (i x : ℕ) → get_elem? r.field_names i ≡ some x → get_elem? s.field_names i ≡ some x
  pub again : acquire_field_id name s ≡ (id, s)

-- The registry with a new name.
abbrev with_name : ℕ → ℕ → Registry → Registry
with_name name id r = record r {
  field_names = r.field_names ++ (name ∷ []);
  field_lookup_map = (name, id) ∷ r.field_lookup_map;
}

find-same : (name id : ℕ) (entries : List (ℕ × ℕ)) → find ((name, id) ∷ entries) name ≡ some id
unfolding find
find-same name id entries = let e : (name == name) ≡ true = ground arith in rw e refl

find-other :
    (name id x : ℕ) (entries : List (ℕ × ℕ))
    → (name == x) ≡ false
    → find ((name, id) ∷ entries) x ≡ find entries x
unfolding find
find-other name id x entries e = rw e refl

with_name-Agrees :
    (name : ℕ) (r : Registry)
    → Agrees r
    → find r.field_lookup_map name ≡ none
    → Agrees (with_name name (length r.field_names) r)
with_name-Agrees name r agrees new = record {
  placed = λ x id h. elim (Bool-cases (name == x)) [
    | inl same ↦
        let name_x : name ≡ x = ground arith in
        let at : length r.field_names ≡ id = some-injective (
          sym (find-same name (length r.field_names) r.field_lookup_map)
          ∙ ap (find ((name, length r.field_names) ∷ r.field_lookup_map)) name_x
          ∙ h) in
        subst (λ i. get_elem? (r.field_names ++ (name ∷ [])) i ≡ some x) at
          (get_elem?-last r.field_names name ∙ ap some name_x)
    | inr other ↦ get_elem?-append r.field_names (name ∷ []) id x (
        agrees.placed x id
          (sym (find-other name (length r.field_names) x r.field_lookup_map other) ∙ h))
  ];
  known = λ x i h. elim (get_elem?-snoc r.field_names name i x h) [
    | inl (at, same) ↦
        ap (find ((name, length r.field_names) ∷ r.field_lookup_map)) same
        ∙ find-same name (length r.field_names) r.field_lookup_map
        ∙ ap some (sym at)
    | inr old ↦ elim (Bool-cases (name == x)) [
      | inl same ↦
          let name_x : name ≡ x = ground arith in
          absurd (none-some (sym new ∙ ap (find r.field_lookup_map) name_x ∙ agrees.known x i old))
      | inr other ↦
          find-other name (length r.field_names) x r.field_lookup_map other ∙ agrees.known x i old
    ]
  ];
}

added :
    (name : ℕ) (r : Registry)
    → Agrees r
    → find r.field_lookup_map name ≡ none
    → Acquired name r (length r.field_names) (with_name name (length r.field_names) r)
unfolding acquire_field_id
added name r agrees new = record {
  agrees = with_name-Agrees name r agrees new;
  at = get_elem?-last r.field_names name;
  kept = λ i x h. get_elem?-append r.field_names (name ∷ []) i x h;
  again =
      ap (found_or_new name (with_name name (length r.field_names) r))
        (find-same name (length r.field_names) r.field_lookup_map);
}

acquired :
    (name : ℕ) (r : Registry) (o : Option ℕ)
    → Agrees r
    → length r.field_names < 2 ^ 16
    → find r.field_lookup_map name ≡ o
    → Acquired name r (found_or_new name r o).0 (found_or_new name r o).1
unfolding acquire_field_id
acquired name r (some id) agrees room e = record {
  agrees = agrees;
  at = agrees.placed name id e;
  kept = λ i x h. h;
  again = ap (found_or_new name r) e;
}
acquired name r none agrees room e =
    let small : length r.field_names % 2 ^ 16 ≡ length r.field_names = omega arith in
    subst (λ id. Acquired name r id (with_name name id r)) (sym small) (added name r agrees e)

-- While there are fewer than 2^16 names and the map agrees with the list of names: a name gets the id that is its place, ids
-- are kept, the map still agrees, and the name gets the same id again with no change.
pub acquire_field_id-Acquired :
    (name : ℕ) (r : Registry)
    → Agrees r
    → length r.field_names < 2 ^ 16
    → Acquired name r (acquire_field_id name r).0 (acquire_field_id name r).1
unfolding acquire_field_id
acquire_field_id-Acquired name r agrees room =
    acquired name r (find r.field_lookup_map name) agrees room refl

-- With 2^16 names, a name that the map does not have gets the id 0, and the name at that place stays the
-- first one.
pub acquire_field_id_wraps :
    (name first : ℕ) (r : Registry)
    → length r.field_names ≡ 2 ^ 16
    → get_elem? r.field_names 0 ≡ some first
    → find r.field_lookup_map name ≡ none
    → ((acquire_field_id name r).0 ≡ 0)
      × (get_elem? (acquire_field_id name r).1.field_names 0 ≡ some first)
unfolding acquire_field_id
acquire_field_id_wraps name first r full at new =
    rw (new, full) (refl, get_elem?-append r.field_names (name ∷ []) 0 first at)

add_general_psf-room :
    (psf : Psf) (r : Registry)
    → length r.general_psf_map < 2 ^ 14
    → add_general_psf psf r
      ≡ (length r.general_psf_map, record r { general_psf_map = r.general_psf_map ++ (psf ∷ []) })
unfolding add_general_psf
add_general_psf-room psf r room =
    let fits : ltb (2 ^ 14 - 1) (length r.general_psf_map) ≡ false = ground arith in rw fits refl

-- An EzPsf that cannot be inline, with room for it: it becomes a general PSF, but the
-- lookup that is returned says that it is an inline one.
pub make_ez_psf_inline :
    (info : PsfInfo) (r : Registry)
    → can_inline info.type ≡ false
    → length (acquire_fields info.fields r).1.general_psf_map < 2 ^ 14
    → ((make_ez_psf info r).0 ≡ record {
      id = length (acquire_fields info.fields r).1.general_psf_map;
      type = PsfType.inline;
    })
      × ((make_ez_psf info r).1.inline_psf_map ≡ (acquire_fields info.fields r).1.inline_psf_map)
      × (get_elem?
            (make_ez_psf info r).1.general_psf_map
            (length (acquire_fields info.fields r).1.general_psf_map)
          ≡ some (record {
            fields = (acquire_fields info.fields r).0;
            lib_id = Library.ez_psf;
            func_name = info.name;
          }))
unfolding make_ez_psf
make_ez_psf_inline info r general room =
    let s = (acquire_fields info.fields r).1 in
    let fits : ltb (2 ^ 14 - 1) (length s.general_psf_map) ≡ false = ground arith in
    let added =
      add_general_psf-room
        (record {
          fields = (acquire_fields info.fields r).0;
          lib_id = Library.ez_psf;
          func_name = info.name;
        })
        s room in
    rw (general, fits, added) (refl, refl, psf_last s.general_psf_map _)
