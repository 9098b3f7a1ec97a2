-- ===== src/Tests/Expr.antt =====
-- jit/ast/expr_ast.h: operators on two types.
use fish_store.Base.{◌≡◌, refl, true, some}
use fish_store.Registry.Types.{DataType, type_code, has_flag, is_num_type, is_int_type}
use fish_store.Expr.{
  Operator, Cast, Code, Instruction, get_return_type, is_type, int_type, double_if_type, from_op,
  cast_to_target, args_type, ints_or_floats, instruction, binary_code,
}
use fish_store.Expr.Typed.{fits, binary_code-fits}

-- The product of an integer and a double.
abbrev product : Code
product = record {
  args = DataType.double_t;
  left = Cast.si_to_fp;
  right = Cast.unchanged;
  result = Instruction.on_floats;
}

int32_t_number : has_flag DataType.int32_t is_num_type ≡ true
unfolding has_flag type_code
int32_t_number = refl

double_t_number : has_flag DataType.double_t is_num_type ≡ true
unfolding has_flag type_code
double_t_number = refl

int32_t_integer : has_flag DataType.int32_t is_int_type ≡ true
unfolding has_flag type_code
int32_t_integer = refl

product_code : binary_code Operator.multi DataType.int32_t DataType.double_t ≡ some product
unfolding binary_code from_op get_return_type args_type cast_to_target instruction ints_or_floats
    is_type has_flag type_code int_type double_if_type
product_code = refl

binary_code-fits_example : fits product.result product.args ≡ true
binary_code-fits_example =
    binary_code-fits Operator.multi DataType.int32_t DataType.double_t product refl int32_t_number
      double_t_number product_code
