-- ===== src/Expr.antt =====
-- jit/ast/expr_ast.h: the types of operators, the automatic casts, and the instructions of binary operators. The
-- instructions are only told apart by the kind of their operands. `none` is LOG_RET, or a cast that fails, whose null
-- goes into the builder of LLVM; ASSERT only logs.
pub mod Typed
use fish_store.Base.{
  ℕ, ◌^◌, Bool, true, false, not, ◌||◌, ◌&&◌, ◌==◌, if◌then◌else◌, Option, none, some,
}
use fish_store.Registry.Types.{DataType, type_code, has_flag, is_int_type, is_float_type, unsigned}

-- `modulo`, `both` and `either` are MOD, AND and OR.
pub data Operator : Type 0 where
  error_op pre_minus pre_not multi div_int div_float modulo plus minus bit_and bit_xor bit_or eq neq
        lt gt lt_eq gt_eq both either bar :
      Operator

pub data OperatorFlags : Type 0 where
  same bool int double double_if string_if : OperatorFlags

-- The flag in the code of an operator; ERROR_OP has all of them, which is no case of the switch.
unfoldable pub get_return_type : Operator → Option OperatorFlags
get_return_type Operator.error_op = none
get_return_type Operator.pre_minus = some OperatorFlags.same
get_return_type Operator.pre_not = some OperatorFlags.bool
get_return_type Operator.multi = some OperatorFlags.double_if
get_return_type Operator.div_int = some OperatorFlags.int
get_return_type Operator.div_float = some OperatorFlags.double
get_return_type Operator.modulo = some OperatorFlags.int
get_return_type Operator.plus = some OperatorFlags.string_if
get_return_type Operator.minus = some OperatorFlags.double_if
get_return_type Operator.bit_and = some OperatorFlags.int
get_return_type Operator.bit_xor = some OperatorFlags.int
get_return_type Operator.bit_or = some OperatorFlags.int
get_return_type Operator.bar = some OperatorFlags.int
get_return_type _ = some OperatorFlags.bool

unfoldable pub is_type : DataType → DataType → Bool
is_type t u = type_code t == type_code u

unfoldable pub int_type : DataType → DataType → DataType
int_type t1 t2 =
    if is_type t1 DataType.int64_t || is_type t2 DataType.int64_t
    then DataType.int64_t
    else DataType.int32_t

unfoldable pub double_if_type : DataType → DataType → DataType
double_if_type t1 t2 =
    if is_type t1 DataType.double_t || is_type t2 DataType.double_t
    then DataType.double_t
    else int_type t1 t2

unfoldable pub string_if_type : DataType → DataType → DataType
string_if_type t1 t2 =
    if is_type t1 DataType.str_t || is_type t2 DataType.str_t
    then DataType.str_t
    else double_if_type t1 t2

abbrev pub from_flag : DataType → DataType → Option OperatorFlags → DataType
from_flag t1 t2 none = DataType.error_t
from_flag t1 t2 (some OperatorFlags.same) = t1
from_flag t1 t2 (some OperatorFlags.bool) = DataType.bool_t
from_flag t1 t2 (some OperatorFlags.int) = int_type t1 t2
from_flag t1 t2 (some OperatorFlags.double) = DataType.double_t
from_flag t1 t2 (some OperatorFlags.double_if) = double_if_type t1 t2
from_flag t1 t2 (some OperatorFlags.string_if) = string_if_type t1 t2

unfoldable pub from_op : DataType → DataType → Operator → DataType
from_op t1 t2 op = from_flag t1 t2 (get_return_type op)

pub data Cast : Type 0 where
  unchanged si_to_fp ui_to_fp fp_to_si fp_to_ui int_cast fp_cast : Cast

unfoldable pub cast_to_target : DataType → DataType → Option Cast
cast_to_target current target =
    if is_type current target
    then some Cast.unchanged
    else if has_flag current is_int_type && has_flag target is_float_type
    then some (if has_flag current unsigned then Cast.ui_to_fp else Cast.si_to_fp)
    else if has_flag current is_float_type && has_flag target is_int_type
    then some (if has_flag target unsigned then Cast.fp_to_ui else Cast.fp_to_si)
    else if has_flag current is_int_type && has_flag target is_int_type
    then some Cast.int_cast
    else if has_flag current is_float_type && has_flag target is_float_type
    then some Cast.fp_cast
    else none

-- The type that both sides are cast to.
unfoldable pub args_type : DataType → DataType → DataType → Option DataType
args_type DataType.int32_t t1 t2 = some DataType.int32_t
args_type DataType.int64_t t1 t2 = some DataType.int64_t
args_type DataType.bool_t t1 t2 = some (from_op t1 t2 Operator.plus)
args_type DataType.double_t t1 t2 = some DataType.double_t
args_type _ t1 t2 = none

pub data Instruction : Type 0 where
  on_ints on_floats on_strings : Instruction

-- `builderCreateFI` and `builderCreateCmp`
unfoldable pub ints_or_floats : DataType → Instruction
ints_or_floats t = if has_flag t is_int_type then Instruction.on_ints else Instruction.on_floats

-- The switch over the operator.
unfoldable pub instruction :
    Operator → DataType → DataType → DataType → DataType → Option Instruction
instruction Operator.multi return args t1 t2 = some (ints_or_floats return)
instruction Operator.div_int return args t1 t2 = some Instruction.on_ints
instruction Operator.div_float return args t1 t2 = some Instruction.on_floats
instruction Operator.modulo return args t1 t2 = some Instruction.on_ints
instruction Operator.plus return args t1 t2 = some (ints_or_floats return)
instruction Operator.minus return args t1 t2 = some (ints_or_floats return)
instruction Operator.eq return args t1 t2 =
    some (if is_type t1 DataType.str_t then Instruction.on_strings else ints_or_floats t1)
instruction Operator.neq return args t1 t2 =
    some (if is_type t1 DataType.str_t then Instruction.on_strings else ints_or_floats t1)
instruction Operator.lt return args t1 t2 = some (ints_or_floats args)
instruction Operator.gt return args t1 t2 = some (ints_or_floats args)
instruction Operator.lt_eq return args t1 t2 = some (ints_or_floats args)
instruction Operator.gt_eq return args t1 t2 = some (ints_or_floats args)
instruction Operator.bit_and return args t1 t2 = some Instruction.on_ints
instruction Operator.bit_xor return args t1 t2 = some Instruction.on_ints
instruction Operator.bit_or return args t1 t2 = some Instruction.on_ints
instruction _ return args t1 t2 = none

-- What a binary operator comes to: the type its sides are cast to, the casts and the instruction.
pub record Code : Type 0 where
  pub args : DataType
  pub left : Cast
  pub right : Cast
  pub result : Instruction

abbrev pub put_code : DataType → Option Cast → Option Cast → Option Instruction → Option Code
put_code args (some left) (some right) (some result) =
    some (record { args = args; left = left; right = right; result = result })
put_code args _ _ _ = none

abbrev pub code_for : Operator → DataType → DataType → Option DataType → Option Code
code_for op t1 t2 none = none
code_for op t1 t2 (some args) =
    put_code args (cast_to_target t1 args) (cast_to_target t2 args)
      (instruction op (from_op t1 t2 op) args t1 t2)

-- `BinaryOpExprAst::code()`
unfoldable pub binary_code : Operator → DataType → DataType → Option Code
binary_code op t1 t2 = code_for op t1 t2 (args_type (from_op t1 t2 op) t1 t2)
