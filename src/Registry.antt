-- ===== src/Registry.antt =====
-- core/fishstore.h and core/psf.h: the names of fields, the PSFs, and the states of the parsers. A string is a number
-- that stands for it, as strings are only compared here. What the loader of a library and the compiler of
-- EzPsf return is an argument; the mutex makes a call run on its own.
pub mod Names
pub mod Sets
pub mod Shift
pub mod Types
use fish_store.Base.{
  ℕ, zero, suc, ◌+◌, ◌-◌, ◌%◌, ◌^◌, Bool, true, false, not, ◌||◌, ltb, leb, ◌==◌, if◌then◌else◌,
  Option, none, some, List, [], ◌∷◌, ◌++◌, length, get_elem?,
}
use fish_store.Address.{u32}
use fish_store.Registry.Types.{DataType, can_inline}

pub data Library : Type 0 where
  external : (lib_id : ℕ) → Library
  projection : Library
  ez_psf : Library

pub data PsfType : Type 0 where
  inline general : PsfType

-- `InlinePSF` and `GeneralPSF`, without the compiled function.
pub record Psf : Type 0 where
  pub fields : List ℕ
  pub lib_id : Library
  pub func_name : ℕ

pub record PsfLookup : Type 0 where
  pub id : ℕ
  pub type : PsfType

pub record Registry : Type 0 where
  pub field_names : List ℕ
  pub field_lookup_map : List (ℕ × ℕ)
  pub libs : ℕ
  pub inline_psf_map : List Psf
  pub general_psf_map : List Psf
  pub named_psfs : List (ℕ × PsfLookup)

-- `find` in the map.
unfoldable pub find : List (ℕ × ℕ) → ℕ → Option ℕ
find [] name = none
find (entry ∷ entries) name =
    let later = find entries name in if entry.0 == name then some entry.1 else later

-- What `find` came to: the id that is there, or a new one.
abbrev pub found_or_new : ℕ → Registry → Option ℕ → ℕ × Registry
found_or_new name r (some id) = (id, r)
found_or_new name r none =
    let id = length r.field_names % 2 ^ 16 in
    (
      id,
      record r {
        field_names = r.field_names ++ (name ∷ []);
        field_lookup_map = (name, id) ∷ r.field_lookup_map;
      },
    )

unfoldable pub acquire_field_id : ℕ → Registry → ℕ × Registry
acquire_field_id name r = found_or_new name r (find r.field_lookup_map name)

-- The loop over the fields of a PSF.
unfoldable pub acquire_fields : List ℕ → Registry → List ℕ × Registry
acquire_fields [] r = ([], r)
acquire_fields (name ∷ names) r =
    let (id, s) = acquire_field_id name r in let (ids, t) = acquire_fields names s in (id ∷ ids, t)

-- The ids that the calls return on failure, -1 in 32 and in 16 bits.
abbrev pub no_inline_psf : ℕ
no_inline_psf = 2 ^ 32 - 1

abbrev pub no_general_psf : ℕ
no_general_psf = 2 ^ 16 - 1

-- `inline_psf_map` and `general_psf_map` up to their limits.
unfoldable pub add_inline_psf : Psf → Registry → ℕ × Registry
add_inline_psf psf r =
    let id = length r.inline_psf_map in
    if ltb (2 ^ 32 - 1) id
    then (no_inline_psf, r)
    else (id, record r { inline_psf_map = r.inline_psf_map ++ (psf ∷ []) })

unfoldable pub add_general_psf : Psf → Registry → ℕ × Registry
add_general_psf psf r =
    let id = length r.general_psf_map in
    if ltb (2 ^ 14 - 1) id
    then (no_general_psf, r)
    else (id, record r { general_psf_map = r.general_psf_map ++ (psf ∷ []) })

-- `MakeInlinePSF(fields, lib_id, func_name)`, where `exists` says whether the library has the function.
unfoldable pub make_inline_psf : List ℕ → ℕ → ℕ → Bool → Registry → ℕ × Registry
make_inline_psf names lib_id func_name exists r =
    let (ids, s) = acquire_fields names r in
    let made =
      add_inline_psf
        (record { fields = ids; lib_id = Library.external lib_id; func_name = func_name }) s in
    if leb r.libs lib_id || not exists then (no_inline_psf, r) else made

unfoldable pub make_general_psf : List ℕ → ℕ → ℕ → Bool → Registry → ℕ × Registry
make_general_psf names lib_id func_name exists r =
    let (ids, s) = acquire_fields names r in
    let made =
      add_general_psf
        (record { fields = ids; lib_id = Library.external lib_id; func_name = func_name }) s in
    if leb r.libs lib_id || not exists then (no_general_psf, r) else made

-- The string "proj".
abbrev pub proj : ℕ
proj = 0

unfoldable pub make_projection : ℕ → Registry → ℕ × Registry
make_projection name r =
    let (id, s) = acquire_field_id name r in
    add_general_psf (record { fields = id ∷ []; lib_id = Library.projection; func_name = proj }) s

-- What the compiler says of an EzPsf; the code and its text, which goes into
-- `psf_irs`, are left out.
pub record PsfInfo : Type 0 where
  pub name : ℕ
  pub fields : List ℕ
  pub type : DataType

-- `insert` in a map, which keeps what is there.
unfoldable pub put_new : ℕ → PsfLookup → List (ℕ × PsfLookup) → List (ℕ × PsfLookup)
put_new name lookup [] = (name, lookup) ∷ []
put_new name lookup (entry ∷ entries) =
    let rest = put_new name lookup entries in
    if entry.0 == name then entry ∷ entries else entry ∷ rest

abbrev pub name_psf : ℕ → PsfLookup → Registry → PsfLookup × Registry
name_psf name lookup r = (lookup, record r { named_psfs = put_new name lookup r.named_psfs })

unfoldable pub make_ez_psf : PsfInfo → Registry → PsfLookup × Registry
make_ez_psf info r =
    let (ids, s) = acquire_fields info.fields r in
    let psf : Psf = record { fields = ids; lib_id = Library.ez_psf; func_name = info.name } in
    let (i, si) = add_inline_psf psf s in
    let (g, sg) = add_general_psf psf s in
    if can_inline info.type
    then (if ltb (2 ^ 32 - 1) (length s.inline_psf_map)
        then (record { id = u32 - 1; type = PsfType.inline }, s)
        else name_psf info.name (record { id = i; type = PsfType.inline }) si)
    else (if ltb (2 ^ 14 - 1) (length s.general_psf_map)
        then (record { id = u32 - 1; type = PsfType.general }, s)
        else name_psf info.name (record { id = g; type = PsfType.inline }) sg)

-- A set as the list of its members.
unfoldable pub has : List ℕ → ℕ → Bool
has [] x = false
has (y ∷ ys) x = y == x || has ys x

unfoldable pub insert : ℕ → List ℕ → List ℕ
insert x ys = if has ys x then ys else x ∷ ys

unfoldable pub erase : ℕ → List ℕ → List ℕ
erase x [] = []
erase x (y ∷ ys) = let rest = erase x ys in if y == x then rest else y ∷ rest

pub record ParserState : Type 0 where
  pub ptr_general_psf : List ℕ
  pub ptr_inline_psf : List ℕ
  pub main_parser_fields : List ℕ
  pub main_parser_field_ids : List ℕ

pub data ParserActionType : Type 0 where
  register_inline_psf deregister_inline_psf register_general_psf deregister_general_psf :
      ParserActionType

pub record ParserAction : Type 0 where
  pub type : ParserActionType
  pub id : ℕ

-- The switch over the type of the action.
unfoldable pub change : ParserActionType → ℕ → ParserState → ParserState
change ParserActionType.register_inline_psf id s = record s {
  ptr_inline_psf = insert id s.ptr_inline_psf;
}
change ParserActionType.register_general_psf id s = record s {
  ptr_general_psf = insert (id % 2 ^ 16) s.ptr_general_psf;
}
change ParserActionType.deregister_inline_psf id s = record s {
  ptr_inline_psf = erase id s.ptr_inline_psf;
}
change ParserActionType.deregister_general_psf id s = record s {
  ptr_general_psf = erase (id % 2 ^ 16) s.ptr_general_psf;
}

unfoldable pub change_all : List ParserAction → ParserState → ParserState
change_all [] s = s
change_all (a ∷ actions) s = change_all actions (change a.type a.id s)

unfoldable pub insert_all : List ℕ → List ℕ → List ℕ
insert_all [] ids = ids
insert_all (x ∷ xs) ids = insert_all xs (insert x ids)

-- The fields of the PSFs of a set, added to some ids; `none` where there is no such PSF.
unfoldable pub gather : List Psf → List ℕ → List ℕ → Option (List ℕ)
gather psfs [] ids = some ids
gather psfs (p ∷ ps) ids = elim (get_elem? psfs p) [
  | none ↦ none
  | some psf ↦ gather psfs ps (insert_all psf.fields ids)
]

-- The names of some fields; `none` where a field has none.
unfoldable pub names_of : List ℕ → List ℕ → Option (List ℕ)
names_of names [] = some []
names_of names (id ∷ ids) = elim (get_elem? names id) [
  | none ↦ none
  | some name ↦ elim (names_of names ids) [ none ↦ none | some rest ↦ some (name ∷ rest) ]
]

-- The fields of the general PSFs after those of the inline ones, and then the names.
abbrev pub gather_general : Registry → ParserState → Option (List ℕ) → Option (List ℕ)
gather_general r s none = none
gather_general r s (some ids) = gather r.general_psf_map s.ptr_general_psf ids

abbrev pub put_names : ParserState → List ℕ → Option (List ℕ) → Option ParserState
put_names s ids none = none
put_names s ids (some names) =
    some (record s { main_parser_fields = names; main_parser_field_ids = ids })

abbrev pub put_fields : Registry → ParserState → Option (List ℕ) → Option ParserState
put_fields r s none = none
put_fields r s (some ids) = put_names s ids (names_of r.field_names ids)

-- `ParserStateApplyActions(state, actions)`
unfoldable pub parser_state_apply_actions :
    Registry → List ParserAction → ParserState → Option ParserState
parser_state_apply_actions r actions s =
    let t = change_all actions s in
    put_fields r t (gather_general r t (gather r.inline_psf_map t.ptr_inline_psf []))
