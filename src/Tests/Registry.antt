-- ===== src/Tests/Registry.antt =====
-- core/fishstore.h: names, PSFs and parser states at concrete values.
use fish_store.Base.{
  ℕ, zero, suc, ◌^◌, ◌<◌, ◌≡◌, refl, sym, ap, ◌∙◌, true, false, ◌||◌, none, some, List, [], ◌∷◌,
  length, replicate, length-replicate, ◌-◌, get_elem?, none-some, some-injective, arith,
}
use fish_store.Registry.{
  Registry, Psf, PsfInfo, Library, ParserState, ParserAction, ParserActionType, find,
  acquire_field_id, acquire_fields, has, insert, change, change_all, parser_state_apply_actions,
}
use fish_store.Registry.Types.{DataType, can_inline, has_flag, type_code}
use fish_store.Registry.Names.{Agrees, Acquired, acquire_field_id-Acquired}
use fish_store.Registry.Sets.{inline_after, general_after}
use fish_store.Registry.Shift.{AllNamed, NamedBy, used, parser_state_apply_actions-NamedBy}

abbrev empty : Registry
empty = record {
  field_names = [];
  field_lookup_map = [];
  libs = 0;
  inline_psf_map = [];
  general_psf_map = [];
  named_psfs = [];
}

empty-Agrees : Agrees empty
unfolding find
empty-Agrees = record {
  placed = λ name id e. absurd (none-some e);
  known = λ name i e. absurd (none-some e);
}

acquire_field_id-Acquired_example :
    Acquired 71 empty (acquire_field_id 71 empty).0 (acquire_field_id 71 empty).1
acquire_field_id-Acquired_example = acquire_field_id-Acquired 71 empty empty-Agrees (omega arith)

-- A registry that is full of names.
abbrev full : Registry
full = record empty { field_names = 70 ∷ replicate (2 ^ 16 - 1) 70 }

length-full : length full.field_names ≡ 2 ^ 16
length-full = ap suc (length-replicate {A = ℕ} (2 ^ 16 - 1) 70)

first-full : get_elem? full.field_names 0 ≡ some 70
first-full = refl

new_name : find full.field_lookup_map 71 ≡ none
unfolding find
new_name = refl

abbrev filter_psf : PsfInfo
filter_psf = record { name = 5; fields = []; type = DataType.str_t }

general_psf : can_inline filter_psf.type ≡ false
unfolding can_inline has_flag type_code
general_psf = refl

empty_room : length (acquire_fields filter_psf.fields empty).1.general_psf_map < 2 ^ 14
unfolding acquire_fields
empty_room = omega arith

-- One PSF over the one field, which the action registers.
abbrev one_psf : Psf
one_psf = record { fields = 0 ∷ []; lib_id = Library.external 0; func_name = 3 }

abbrev one_field : Registry
one_field = record empty {
  field_names = 70 ∷ [];
  field_lookup_map = (70, 0) ∷ [];
  inline_psf_map = one_psf ∷ [];
}

abbrev registration : List ParserAction
registration = record { type = ParserActionType.register_inline_psf; id = 0 } ∷ []

abbrev new_parser : ParserState
new_parser = record {
  ptr_general_psf = [];
  ptr_inline_psf = [];
  main_parser_fields = [];
  main_parser_field_ids = [];
}

has-zero : (f : ℕ) → has (0 ∷ []) f ≡ true → 0 ≡ f
unfolding has
has-zero f e = ground arith

one_field-AllNamed : AllNamed one_field one_field.inline_psf_map
one_field-AllNamed zero psf f e h = (
  70,
  ap (get_elem? (70 ∷ [])) (sym (has-zero f (ap (λ p. has p.fields f) (some-injective e) ∙ h))),
)
one_field-AllNamed (suc p) psf f e h = absurd (none-some e)

none-AllNamed : AllNamed one_field one_field.general_psf_map
none-AllNamed p psf f e h = absurd (none-some e)

registered : (change_all registration new_parser) ≡ record new_parser { ptr_inline_psf = 0 ∷ [] }
unfolding change_all change insert has
registered = refl

parser_state_apply_actions-NamedBy_example :
    (t : ParserState) × (parser_state_apply_actions one_field registration new_parser ≡ some t)
    × ((x : ℕ)
        → has t.ptr_inline_psf x ≡ inline_after registration x (has new_parser.ptr_inline_psf x))
    × ((x : ℕ)
        → has t.ptr_general_psf x ≡ general_after registration x (has new_parser.ptr_general_psf x))
    × ((f : ℕ)
        → has t.main_parser_field_ids f
          ≡ used one_field.inline_psf_map t.ptr_inline_psf f
            || used one_field.general_psf_map t.ptr_general_psf f)
    × NamedBy one_field.field_names t.main_parser_field_ids t.main_parser_fields
unfolding change_all change insert has
parser_state_apply_actions-NamedBy_example =
    parser_state_apply_actions-NamedBy one_field registration new_parser ((one_psf, refl), tt) tt
      one_field-AllNamed none-AllNamed
