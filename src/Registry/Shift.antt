-- ===== src/Registry/Shift.antt =====
-- core/fishstore.h: ParserStateApplyActions.
use fish_store.Base.{
  ℕ, zero, suc, ◌≡◌, ◌⊎◌, refl, sym, ap, ◌∙◌, Bool, true, false, ◌||◌, ◌==◌, inl, inr, Option, none,
  some, List, [], ◌∷◌, All, get_elem?, some-injective, none-some, Bool-cases, arith,
}
use fish_store.Registry.{
  Registry, Psf, ParserState, ParserAction, has, insert, change_all, insert_all, gather, names_of,
  gather_general, put_names, put_fields, parser_state_apply_actions,
}
use fish_store.Registry.Sets.{
  inline_after, general_after, has-insert, change_all-inline, change_all-general,
}

-- Whether some PSF of the set has the field.
abbrev pub field_of : Option Psf → ℕ → Bool
field_of none f = false
field_of (some psf) f = has psf.fields f

unfoldable pub used : List Psf → List ℕ → ℕ → Bool
used psfs [] f = false
used psfs (p ∷ ps) f = field_of (get_elem? psfs p) f || used psfs ps f

or-or : (a b c : Bool) → (a || b) || c ≡ b || (a || c)
or-or true true c = refl
or-or true false c = refl
or-or false b c = refl

or_assoc : (a b c : Bool) → (a || b) || c ≡ a || (b || c)
or_assoc true b c = refl
or_assoc false b c = refl

or-false : (a : Bool) → a || false ≡ a
or-false true = refl
or-false false = refl

has-insert_all : (xs ids : List ℕ) (f : ℕ) → has (insert_all xs ids) f ≡ has ids f || has xs f
unfolding insert_all has
has-insert_all [] ids f = sym (or-false (has ids f))
has-insert_all (x ∷ xs) ids f =
    has-insert_all xs (insert x ids) f
    ∙ ap (λ b. b || has xs f) (has-insert x f ids)
    ∙ or-or (x == f) (has ids f) (has xs f)

-- The PSFs of the set are there.
abbrev pub Known : List Psf → List ℕ → Type 0
Known psfs = All (λ p. (psf : Psf) × (get_elem? psfs p ≡ some psf))

gather-used :
    (psfs : List Psf) (ps ids : List ℕ)
    → Known psfs ps
    → (out : List ℕ) × (gather psfs ps ids ≡ some out)
      × ((f : ℕ) → has out f ≡ has ids f || used psfs ps f)
unfolding gather used
gather-used psfs [] ids known = (ids, refl, λ f. sym (or-false (has ids f)))
gather-used psfs (p ∷ ps) ids ((psf, there), known) =
    let (out, e, uses) = gather-used psfs ps (insert_all psf.fields ids) known in
    (
      out,
      rw (gather, there) e,
      λ f.
          uses f
          ∙ ap (λ b. b || used psfs ps f) (has-insert_all psf.fields ids f)
          ∙ or_assoc (has ids f) (has psf.fields f) (used psfs ps f)
          ∙ ap (λ o. has ids f || (field_of o f || used psfs ps f)) (sym there),
    )

-- Fields that have names.
abbrev Named : List ℕ → List ℕ → Type 0
Named names = All (λ id. (name : ℕ) × (get_elem? names id ≡ some name))

-- Each id has its name at its own place.
abbrev pub NamedBy : List ℕ → List ℕ → List ℕ → Type 0
NamedBy names ids ns = (i id : ℕ) → get_elem? ids i ≡ some id → get_elem? ns i ≡ get_elem? names id

NamedBy-cons :
    (names ids ns : List ℕ) (x name : ℕ)
    → get_elem? names x ≡ some name
    → NamedBy names ids ns
    → NamedBy names (x ∷ ids) (name ∷ ns)
NamedBy-cons names ids ns x name there rest zero id h =
    sym there ∙ ap (get_elem? names) (some-injective h)
NamedBy-cons names ids ns x name there rest (suc i) id h = rest i id h

names_of-Named :
    (names ids : List ℕ)
    → Named names ids
    → (ns : List ℕ) × (names_of names ids ≡ some ns) × NamedBy names ids ns
unfolding names_of
names_of-Named names [] known = ([], refl, λ i id e. absurd (none-some e))
names_of-Named names (x ∷ ids) ((name, there), known) =
    let (ns, e, same) = names_of-Named names ids known in
    (name ∷ ns, rw (names_of, there, e) refl, NamedBy-cons names ids ns x name there same)

All-has : (P : ℕ → Type 0) (ids : List ℕ) → ((x : ℕ) → has ids x ≡ true → P x) → All P ids
unfolding has
All-has P [] h = tt
All-has P (y ∷ ids) h = (
  h y (let e : (y == y) ≡ true = ground arith in rw e refl),
  All-has P ids (λ x e. h x (rw e (or-true (y == x)))),
)
  where
    or-true : (b : Bool) → b || true ≡ true
    or-true true = refl
    or-true false = refl

has-nil : (f : ℕ) (b : Bool) → (has [] f || b) ≡ b
unfolding has
has-nil f b = refl

-- A field of a PSF that is there.
used-field :
    (psfs : List Psf) (ps : List ℕ) (f : ℕ)
    → Known psfs ps
    → used psfs ps f ≡ true
    → (p : ℕ) × (psf : Psf) × (get_elem? psfs p ≡ some psf) × (has psf.fields f ≡ true)
unfolding used
used-field psfs [] f known e = absurd (cc e)
used-field psfs (p ∷ ps) f ((psf, there), known) e = elim (Bool-cases (has psf.fields f)) [
  | inl here ↦ (p, psf, there, here)
  | inr later ↦ used-field psfs ps f known (
      sym (ap (λ o. field_of o f || used psfs ps f) there ∙ ap (λ b. b || used psfs ps f) later)
      ∙ e)
]

-- The fields of the PSFs of a list have names.
abbrev pub AllNamed : Registry → List Psf → Type 0
AllNamed r psfs =
    (p : ℕ) (psf : Psf) (f : ℕ)
    → get_elem? psfs p ≡ some psf
    → has psf.fields f ≡ true
    → (name : ℕ) × (get_elem? r.field_names f ≡ some name)

named_field :
    (r : Registry) (psfs : List Psf) (ps : List ℕ) (f : ℕ)
    → AllNamed r psfs
    → Known psfs ps
    → used psfs ps f ≡ true
    → (name : ℕ) × (get_elem? r.field_names f ≡ some name)
named_field r psfs ps f named known e =
    let (p, psf, there, has_it) = used-field psfs ps f known e in named p psf f there has_it

or-cases : (a b : Bool) → (a || b) ≡ true → (a ≡ true) ⊎ (b ≡ true)
or-cases true b e = inl refl
or-cases false b e = inr e

-- Where the PSFs that are then registered are there and their fields have names, the call returns: exactly those PSFs
-- are registered for which the last action that names them says so, or which were and no action names; the parser's
-- field ids are exactly the fields of the registered PSFs, and its fields are their names in the same order.
pub parser_state_apply_actions-NamedBy :
    (r : Registry) (actions : List ParserAction) (s : ParserState)
    → Known r.inline_psf_map (change_all actions s).ptr_inline_psf
    → Known r.general_psf_map (change_all actions s).ptr_general_psf
    → AllNamed r r.inline_psf_map
    → AllNamed r r.general_psf_map
    → (t : ParserState) × (parser_state_apply_actions r actions s ≡ some t)
      × ((x : ℕ) → has t.ptr_inline_psf x ≡ inline_after actions x (has s.ptr_inline_psf x))
      × ((x : ℕ) → has t.ptr_general_psf x ≡ general_after actions x (has s.ptr_general_psf x))
      × ((f : ℕ)
          → has t.main_parser_field_ids f
            ≡ used r.inline_psf_map t.ptr_inline_psf f
              || used r.general_psf_map t.ptr_general_psf f)
      × NamedBy r.field_names t.main_parser_field_ids t.main_parser_fields
unfolding parser_state_apply_actions
parser_state_apply_actions-NamedBy r actions s known_inline known_general named_inline
      named_general =
    let u = change_all actions s in
    let (inline_ids, e, uses) = gather-used r.inline_psf_map u.ptr_inline_psf [] known_inline in
    let (ids, e', uses') =
      gather-used r.general_psf_map u.ptr_general_psf inline_ids known_general in
    let all : (f : ℕ)
        → has ids f
          ≡ used r.inline_psf_map u.ptr_inline_psf f || used r.general_psf_map u.ptr_general_psf f =
      λ f.
        uses' f
        ∙ ap (λ b. b || used r.general_psf_map u.ptr_general_psf f) (uses f ∙ has-nil f _) in
    let named : Named r.field_names ids = All-has _ ids (λ f h.
      elim (or-cases _ _ (sym (all f) ∙ h)) [
        | inl i ↦ named_field r r.inline_psf_map u.ptr_inline_psf f named_inline known_inline i
        | inr g ↦ named_field r r.general_psf_map u.ptr_general_psf f named_general known_general g
      ]) in
    let (names, e'', by) = names_of-Named r.field_names ids named in
    (
      record u { main_parser_fields = names; main_parser_field_ids = ids },
      ap (λ o. put_fields r u (gather_general r u o)) e
          ∙ ap (put_fields r u) e'
          ∙ ap (put_names u ids) e'',
      (λ x. change_all-inline actions x s),
      (λ x. change_all-general actions x s),
      all,
      by,
    )
