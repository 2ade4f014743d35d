-- ===== src/Wrapper/Values.antt =====
-- `PyConnectData<T>`: the values of the supported C++ types as bytes, with the errors of both ways.
use pyconnect.Base.{
  Bool, Bytes, Option, [], false, if◌then◌else◌, is_negative, leb, length, ltb, minus, negsuc, none,
  not, pos, some, true, ℕ, ℤ, ◌%◌, ◌+◌, ◌-◌, ◌==◌, ◌^◌, ◌∷◌,
}
use pyconnect.Common.Types.{
  PyConnectMsgStatus, PyConnectType, bool, composite, double, float, index_mismatch, int,
  max_str_length, metd_exception, msg_corrupted, no_attr_metd, no_errors, no_pyconnect_object,
  py_void, str_too_long, string, unlisted,
}
use pyconnect.Common.Reader.{Reader, bind, consumed, next_byte, pure, ◌>>=◌}
use pyconnect.Common.Pack.{
  pack_string, pack_to_le_number, packed_int_len, unpack_le_number, unpack_string,
}

-- A C++ value; numbers are bit patterns of 4, 4 and 8 bytes.
pub data Value : Type 0 where
  int_value float_value double_value : ℕ → Value
  string_value : Bytes → Value
  bool_value : Bool → Value

-- `getVarType`.
abbrev pub value_type : Value → PyConnectType
value_type (int_value n) = int
value_type (float_value n) = float
value_type (double_value n) = double
value_type (string_value s) = string
value_type (bool_value b) = bool

-- `setData`: the buffer that is sent and the status after it. A status that is not `no_errors` gives
-- a null pointer and the length 0. `none` is a write past the end of the buffer: a text that is too
-- long is written in full into a buffer made for the length 0.
unfoldable pub set_string : Bytes → Option (Bytes × PyConnectMsgStatus)
set_string s =
    let too_long = ltb max_str_length (length s) in
    let data_length = if too_long then 0 else length s in
    let packed = pack_string true s in
    if leb (length packed) (data_length + packed_int_len (pos data_length))
    then some (packed, (if too_long then str_too_long else no_errors))
    else none

unfoldable pub set_value : Value → Option (Bytes × PyConnectMsgStatus)
set_value (int_value n) = some (pack_to_le_number 4 n, no_errors)
set_value (float_value n) = some (pack_to_le_number 4 n, no_errors)
set_value (double_value n) = some (pack_to_le_number 8 n, no_errors)
set_value (string_value s) = set_string s
set_value (bool_value b) = some ((if b then 1 else 0) ∷ [], no_errors)

unfoldable pub set_data : Value → PyConnectMsgStatus → Option (Bytes × PyConnectMsgStatus)
set_data v no_errors = set_value v
set_data v no_attr_metd = some ([], no_attr_metd)
set_data v str_too_long = some ([], str_too_long)
set_data v index_mismatch = some ([], index_mismatch)
set_data v no_pyconnect_object = some ([], no_pyconnect_object)
set_data v metd_exception = some ([], metd_exception)
set_data v msg_corrupted = some ([], msg_corrupted)

-- `getData` without a default value, at a status of `no_errors`: the value and the status after it.
-- The numeric test subtracts a `size_t`, so its difference is an unsigned number of 64 bits.
unfoldable pub size_difference : ℤ → ℕ → ℕ
size_difference (pos r) size = (r + 2 ^ 64 - size) % 2 ^ 64
size_difference (negsuc r) size = (2 ^ 64 - (r + 1) + 2 ^ 64 - size) % 2 ^ 64

unfoldable pub get_number : ℕ → (ℕ → Value) → Reader (Value × PyConnectMsgStatus)
get_number size make c =
    if ltb (size_difference c.remaining size) 0
    then some ((make 0, msg_corrupted), c)
    else bind (unpack_le_number size c) λ n. pure (make n, no_errors)

unfoldable pub get_bool : Reader (Value × PyConnectMsgStatus)
get_bool c =
    if is_negative (minus c.remaining 1)
    then some ((bool_value false, msg_corrupted), c)
    else bind (next_byte c)
        λ b c'. bind (consumed 1 c') λ _. pure (bool_value (not (b == 0)), no_errors)

-- A type without a `getData` of its own gives `none`.
unfoldable pub get_value : PyConnectType → Reader (Value × PyConnectMsgStatus)
get_value int = get_number 4 int_value
get_value float = get_number 4 float_value
get_value double = get_number 8 double_value
get_value string = unpack_string true >>= λ s. pure (string_value s, no_errors)
get_value bool = get_bool
get_value composite = λ _. none
get_value py_void = λ _. none
get_value (unlisted n) = λ _. none

-- The value that a failed `getData` returns.
abbrev pub zero_value : PyConnectType → Value
zero_value int = int_value 0
zero_value float = float_value 0
zero_value double = double_value 0
zero_value string = string_value []
zero_value bool = bool_value false
zero_value composite = int_value 0
zero_value py_void = int_value 0
zero_value (unlisted n) = int_value 0

-- `getData`: nothing is read once the status shows an error.
unfoldable pub get_data : PyConnectType → PyConnectMsgStatus → Reader (Value × PyConnectMsgStatus)
get_data type no_errors = get_value type
get_data type no_attr_metd = pure (zero_value type, no_attr_metd)
get_data type str_too_long = pure (zero_value type, str_too_long)
get_data type index_mismatch = pure (zero_value type, index_mismatch)
get_data type no_pyconnect_object = pure (zero_value type, no_pyconnect_object)
get_data type metd_exception = pure (zero_value type, metd_exception)
get_data type msg_corrupted = pure (zero_value type, msg_corrupted)
