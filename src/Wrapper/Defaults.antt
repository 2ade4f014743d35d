-- ===== src/Wrapper/Defaults.antt =====
-- The overloads of `PyConnectData<T>::getData` that take a default value for a message that has no
-- bytes left. Nothing in the repository calls them.
use pyconnect.Base.{
  Bool, Bytes, [], arith, false, if◌then◌else◌, is_negative, ltb, minus, negsuc, not, pos, refl,
  some, suc, true, ℕ, ℤ, ◌==◌, ◌||◌, ◌≡◌,
}
use pyconnect.Common.Types.{
  PyConnectMsgStatus, index_mismatch, metd_exception, msg_corrupted, no_attr_metd, no_errors,
  no_pyconnect_object, str_too_long,
}
use pyconnect.Common.Reader.{Reader, bind, consumed, next_byte, pure}
use pyconnect.Common.Pack.{unpack_le_number, unpack_string}
use pyconnect.Wrapper.Values.{
  Value, bool_value, double_value, float_value, get_bool, get_number, get_value, int_value,
  size_difference, string_value, value_type,
}

abbrev none_left : ℤ → Bool
none_left (pos n) = n == 0
none_left (negsuc n) = false

unfoldable get_number_or : ℕ → (ℕ → Value) → ℕ → Reader (Value × PyConnectMsgStatus)
get_number_or size make default c =
    if none_left c.remaining
    then some ((make default, no_errors), c)
    else if ltb (size_difference c.remaining size) 0
    then some ((make default, msg_corrupted), c)
    else bind (unpack_le_number size c) λ n. pure (make n, no_errors)

unfoldable get_string_or : Bytes → Reader (Value × PyConnectMsgStatus)
get_string_or default c =
    if none_left c.remaining || is_negative c.remaining
    then some ((string_value default, no_errors), c)
    else bind (unpack_string true c) λ s. pure (string_value s, no_errors)

unfoldable get_bool_or : Bool → Reader (Value × PyConnectMsgStatus)
get_bool_or default c =
    if none_left c.remaining
    then some ((bool_value default, no_errors), c)
    else if is_negative (minus c.remaining 1)
    then some ((bool_value default, msg_corrupted), c)
    else bind (next_byte c)
        λ b c'. bind (consumed 1 c') λ _. pure (bool_value (not (b == 0)), no_errors)

-- At a status of `no_errors`.
unfoldable get_value_or : Value → Reader (Value × PyConnectMsgStatus)
get_value_or (int_value default) = get_number_or 4 int_value default
get_value_or (float_value default) = get_number_or 4 float_value default
get_value_or (double_value default) = get_number_or 8 double_value default
get_value_or (string_value default) = get_string_or default
get_value_or (bool_value default) = get_bool_or default

-- The value at a status that shows an error: only a number's default is given back.
abbrev given_up : Value → Value
given_up (int_value default) = int_value default
given_up (float_value default) = float_value default
given_up (double_value default) = double_value default
given_up (string_value default) = string_value []
given_up (bool_value default) = bool_value false

unfoldable get_data_or : Value → PyConnectMsgStatus → Reader (Value × PyConnectMsgStatus)
get_data_or default no_errors = get_value_or default
get_data_or default no_attr_metd = pure (given_up default, no_attr_metd)
get_data_or default str_too_long = pure (given_up default, str_too_long)
get_data_or default index_mismatch = pure (given_up default, index_mismatch)
get_data_or default no_pyconnect_object = pure (given_up default, no_pyconnect_object)
get_data_or default metd_exception = pure (given_up default, metd_exception)
get_data_or default msg_corrupted = pure (given_up default, msg_corrupted)

-- With no bytes left, the default is the value.
get_value_or-nothing :
    (v : Value) (bytes : Bytes)
    → get_value_or v (record { bytes = bytes; remaining = pos 0 })
      ≡ some ((v, no_errors), record { bytes = bytes; remaining = pos 0 })
unfolding get_value_or get_number_or get_string_or get_bool_or
get_value_or-nothing (int_value n) bytes = refl
get_value_or-nothing (float_value n) bytes = refl
get_value_or-nothing (double_value n) bytes = refl
get_value_or-nothing (string_value s) bytes = refl
get_value_or-nothing (bool_value b) bytes = refl

-- A number is read in the same way: the test for too few bytes never holds.
get_number_or-get_number :
    (size : ℕ) (make : ℕ → Value) (default n : ℕ) (bytes : Bytes)
    → get_number_or size make default (record { bytes = bytes; remaining = pos (suc n) })
      ≡ get_number size make (record { bytes = bytes; remaining = pos (suc n) })
unfolding get_number_or get_number
get_number_or-get_number size make default n bytes = ground arith

-- With bytes left, the default has no part in the result.
get_value_or-get_value :
    (v : Value) (n : ℕ) (bytes : Bytes)
    → get_value_or v (record { bytes = bytes; remaining = pos (suc n) })
      ≡ get_value (value_type v) (record { bytes = bytes; remaining = pos (suc n) })
unfolding get_value_or get_value get_string_or get_bool_or get_bool
get_value_or-get_value (int_value d) n bytes = get_number_or-get_number 4 int_value d n bytes
get_value_or-get_value (float_value d) n bytes = get_number_or-get_number 4 float_value d n bytes
get_value_or-get_value (double_value d) n bytes = get_number_or-get_number 8 double_value d n bytes
get_value_or-get_value (string_value s) n bytes = ground arith
get_value_or-get_value (bool_value b) n bytes = ground arith
