-- ===== src/Expr/Typed.antt =====
-- jit/ast/expr_ast.h: the instructions of binary operators and their operands.
use fish_store.Base.{
  ◌≡◌, refl, sym, ap, ◌∙◌, Bool, true, false, not, ◌||◌, List, [], ◌∷◌, All, ◌&&◌, Option, none,
  some,
}
use fish_store.Registry.Types.{
  DataType, type_code, has_flag, is_num_type, is_int_type, is_float_type,
}
use fish_store.Expr.{
  Operator, Code, Instruction, get_return_type, is_type, int_type, double_if_type, string_if_type,
  from_op, cast_to_target, args_type, ints_or_floats, instruction, binary_code,
}

-- Whether an instruction takes operands of a type.
unfoldable pub fits : Instruction → DataType → Bool
fits Instruction.on_ints t = has_flag t is_int_type
fits Instruction.on_floats t = has_flag t is_float_type
fits Instruction.on_strings t = is_type t DataType.str_t

abbrev pub fits_code : Option Code → Bool
fits_code none = true
fits_code (some c) = fits c.result c.args

-- The tests for equality.
abbrev pub is_equality : Operator → Bool
is_equality Operator.eq = true
is_equality Operator.neq = true
is_equality _ = false

unfoldable holds : (DataType → Bool) → List DataType → Bool
holds p [] = true
holds p (t ∷ ts) = p t && holds p ts

abbrev types : List DataType
types =
    DataType.str_t ∷ DataType.int8_t ∷ DataType.int32_t ∷ DataType.int64_t ∷ DataType.uint32_t
    ∷ DataType.uint64_t ∷ DataType.float_t ∷ DataType.double_t ∷ DataType.bool_t ∷ DataType.error_t
    ∷ []

unfoldable all_types : (DataType → Bool) → Bool
all_types p = holds p types

both_true : (a b : Bool) → (a && b) ≡ true → (a ≡ true) × (b ≡ true)
both_true true b e = (refl, e)
both_true false b e = absurd (cc e)

holds-All :
    (p : DataType → Bool) (ts : List DataType) → holds p ts ≡ true → All (λ t. p t ≡ true) ts
unfolding holds
holds-All p [] e = tt
holds-All p (t ∷ ts) e =
    let (here, rest) = both_true (p t) (holds p ts) e in (here, holds-All p ts rest)

All-types : (P : DataType → Type 0) → All P types → (t : DataType) → P t
All-types P (p, _) DataType.str_t = p
All-types P (_, (p, _)) DataType.int8_t = p
All-types P (_, (_, (p, _))) DataType.int32_t = p
All-types P (_, (_, (_, (p, _)))) DataType.int64_t = p
All-types P (_, (_, (_, (_, (p, _))))) DataType.uint32_t = p
All-types P (_, (_, (_, (_, (_, (p, _)))))) DataType.uint64_t = p
All-types P (_, (_, (_, (_, (_, (_, (p, _))))))) DataType.float_t = p
All-types P (_, (_, (_, (_, (_, (_, (_, (p, _)))))))) DataType.double_t = p
All-types P (_, (_, (_, (_, (_, (_, (_, (_, (p, _))))))))) DataType.bool_t = p
All-types P (_, (_, (_, (_, (_, (_, (_, (_, (_, (p, _)))))))))) DataType.error_t = p

test_all : (p : DataType → Bool) → all_types p ≡ true → (t : DataType) → p t ≡ true
unfolding all_types
test_all p e = All-types (λ t. p t ≡ true) (holds-All p types e)

-- The test of an operator on two types: numbers get code that fits.
abbrev fits_numbers : Operator → DataType → DataType → Bool
fits_numbers op t1 t2 =
    not (has_flag t1 is_num_type && has_flag t2 is_num_type) || fits_code (binary_code op t1 t2)

fits_all :
    (op : Operator)
    → is_equality op ≡ false
    → all_types (λ t1. all_types (λ t2. fits_numbers op t1 t2)) ≡ true
unfolding all_types holds binary_code from_op get_return_type args_type cast_to_target instruction
    ints_or_floats is_type has_flag type_code int_type double_if_type string_if_type fits
fits_all Operator.eq e = sym e
fits_all Operator.neq e = sym e
fits_all _ e = refl

implied : (a b c : Bool) → a ≡ true → b ≡ true → (not (a && b) || c) ≡ true → c ≡ true
implied true true c e e' h = h
implied true false c e e' h = absurd (cc e')
implied false b c e e' h = absurd (cc e)

-- For an operator other than the tests for equality, and two types of numbers: where code is generated, its
-- instruction takes operands of the type that both sides are cast to.
pub binary_code-fits :
    (op : Operator) (t1 t2 : DataType) (c : Code)
    → is_equality op ≡ false
    → has_flag t1 is_num_type ≡ true
    → has_flag t2 is_num_type ≡ true
    → binary_code op t1 t2 ≡ some c
    → fits c.result c.args ≡ true
binary_code-fits op t1 t2 c other num1 num2 e =
    ap fits_code (sym e)
    ∙ implied _ _ _ num1 num2 (
        test_all (fits_numbers op t1)
          (test_all (λ t. all_types (fits_numbers op t)) (fits_all op other) t1) t2)

-- The test for equality of an integer and a double casts the integer to a double and then compares the two
-- doubles with an instruction on integers.
pub binary_code_mixed :
    (t : DataType)
    → has_flag t is_int_type ≡ true
    → (c : Code) × (binary_code Operator.eq t DataType.double_t ≡ some c)
      × (is_type c.args DataType.double_t ≡ true)
      × (fits c.result c.args ≡ false)
unfolding binary_code from_op get_return_type args_type cast_to_target instruction ints_or_floats
    is_type has_flag type_code int_type double_if_type string_if_type fits
binary_code_mixed DataType.int32_t e = (_, refl, refl, refl)
binary_code_mixed DataType.int64_t e = (_, refl, refl, refl)
binary_code_mixed DataType.uint32_t e = (_, refl, refl, refl)
binary_code_mixed DataType.uint64_t e = (_, refl, refl, refl)
binary_code_mixed DataType.error_t e = (_, refl, refl, refl)
binary_code_mixed _ e = absurd (cc e)
