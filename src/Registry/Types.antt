-- ===== src/Registry/Types.antt =====
-- jit/datatypes/types.h: the types of expressions, with their flags.
use fish_store.Base.{ℕ, ◌+◌, ◌-◌, ◌/◌, ◌%◌, ◌^◌, Bool, ◌==◌}

pub data DataType : Type 0 where
  str_t int8_t int32_t int64_t uint32_t uint64_t float_t double_t bool_t error_t : DataType

-- The flags are bits, none of which stands twice in a code.
abbrev pub is_num_type : ℕ
is_num_type = 2 ^ 10

abbrev pub is_int_type : ℕ
is_int_type = 2 ^ 11

abbrev pub is_float_type : ℕ
is_float_type = 2 ^ 12

abbrev pub unsigned : ℕ
unsigned = 2 ^ 13

abbrev inline_able : ℕ
inline_able = 2 ^ 14

unfoldable pub type_code : DataType → ℕ
type_code DataType.str_t = 0
type_code DataType.int8_t = 10 + is_num_type + inline_able
type_code DataType.int32_t = 20 + is_num_type + is_int_type + inline_able
type_code DataType.int64_t = 21 + is_num_type + is_int_type
type_code DataType.uint32_t = 30 + is_num_type + is_int_type + unsigned + inline_able
type_code DataType.uint64_t = 31 + is_num_type + is_int_type + unsigned
type_code DataType.float_t = 40 + is_num_type + is_float_type + inline_able
type_code DataType.double_t = 41 + is_num_type + is_float_type
type_code DataType.bool_t = 50 + inline_able
type_code DataType.error_t = 2 ^ 32 - 1

-- `type & flag`
unfoldable pub has_flag : DataType → ℕ → Bool
has_flag type flag = type_code type / flag % 2 == 1

unfoldable pub can_inline : DataType → Bool
can_inline type = has_flag type inline_able
