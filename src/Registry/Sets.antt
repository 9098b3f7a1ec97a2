-- ===== src/Registry/Sets.antt =====
-- core/fishstore.h: the sets of PSFs that ParserStateApplyActions changes.
use fish_store.Base.{
  ℕ, ◌%◌, ◌^◌, ◌≡◌, refl, sym, ap, ◌∙◌, Bool, not, ◌||◌, ◌&&◌, ◌==◌, inl, inr, List, [], ◌∷◌,
  Bool-cases, arith,
}
use fish_store.Registry.{
  ParserState, ParserAction, ParserActionType, has, insert, erase, change, change_all,
}

-- What an action says of the inline PSF `x`, and what the last of some actions says.
abbrev pub inline_said : ParserActionType → ℕ → ℕ → Bool → Bool
inline_said ParserActionType.register_inline_psf id x before = (id == x) || before
inline_said ParserActionType.deregister_inline_psf id x before = not (id == x) && before
inline_said _ id x before = before

unfoldable pub inline_after : List ParserAction → ℕ → Bool → Bool
inline_after [] x before = before
inline_after (a ∷ actions) x before = inline_after actions x (inline_said a.type a.id x before)

-- The same for general PSFs, whose ids have 16 bits.
abbrev pub general_said : ParserActionType → ℕ → ℕ → Bool → Bool
general_said ParserActionType.register_general_psf id x before = (id % 2 ^ 16 == x) || before
general_said ParserActionType.deregister_general_psf id x before = not (id % 2 ^ 16 == x) && before
general_said _ id x before = before

unfoldable pub general_after : List ParserAction → ℕ → Bool → Bool
general_after [] x before = before
general_after (a ∷ actions) x before = general_after actions x (general_said a.type a.id x before)

pub has-insert : (x y : ℕ) (ys : List ℕ) → has (insert x ys) y ≡ (x == y) || has ys y
unfolding has insert
has-insert x y ys = elim (Bool-cases (has ys x)) [
  | inl there ↦ elim (Bool-cases (x == y)) [
    | inl same ↦ let e : x ≡ y = ground arith in rw (there, same) (ap (has ys) (sym e) ∙ there)
    | inr other ↦ rw (there, other) refl
  ]
  | inr missing ↦ rw missing refl
]

has-erase : (x y : ℕ) (ys : List ℕ) → has (erase x ys) y ≡ not (x == y) && has ys y
unfolding has erase
has-erase x y [] = ground arith
has-erase x y (z ∷ ys) = elim (Bool-cases (z == x)) [
  | inl same ↦ ground (arith, has-erase x y ys)
  | inr other ↦ ground (arith, has-erase x y ys)
]

change-inline :
    (a : ParserActionType) (id x : ℕ) (s : ParserState)
    → has (change a id s).ptr_inline_psf x ≡ inline_said a id x (has s.ptr_inline_psf x)
unfolding change
change-inline ParserActionType.register_inline_psf id x s = has-insert id x s.ptr_inline_psf
change-inline ParserActionType.deregister_inline_psf id x s = has-erase id x s.ptr_inline_psf
change-inline _ id x s = refl

change-general :
    (a : ParserActionType) (id x : ℕ) (s : ParserState)
    → has (change a id s).ptr_general_psf x ≡ general_said a id x (has s.ptr_general_psf x)
unfolding change
change-general ParserActionType.register_general_psf id x s =
    has-insert (id % 2 ^ 16) x s.ptr_general_psf
change-general ParserActionType.deregister_general_psf id x s =
    has-erase (id % 2 ^ 16) x s.ptr_general_psf
change-general _ id x s = refl

pub change_all-inline :
    (actions : List ParserAction) (x : ℕ) (s : ParserState)
    → has (change_all actions s).ptr_inline_psf x ≡ inline_after actions x (has s.ptr_inline_psf x)
unfolding change_all inline_after
change_all-inline [] x s = refl
change_all-inline (a ∷ actions) x s =
    change_all-inline actions x (change a.type a.id s)
    ∙ ap (inline_after actions x) (change-inline a.type a.id x s)

pub change_all-general :
    (actions : List ParserAction) (x : ℕ) (s : ParserState)
    → has (change_all actions s).ptr_general_psf x
      ≡ general_after actions x (has s.ptr_general_psf x)
unfolding change_all general_after
change_all-general [] x s = refl
change_all-general (a ∷ actions) x s =
    change_all-general actions x (change a.type a.id s)
    ∙ ap (general_after actions x) (change-general a.type a.id x s)
