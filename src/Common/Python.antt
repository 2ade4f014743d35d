-- ===== src/Common/Python.antt =====
-- `PyConnectType`'s conversions between Python objects and bytes, over the part of the Python C API
-- that they call. An `int`, a `float` and a `double` are their bit patterns of 4, 4 and 8 bytes.
use pyconnect.Base.{
  All, Bool, Bytes, Option, [], false, if◌then◌else◌, length, none, not, pos, some, true, ℕ, ◌%◌,
  ◌+◌, ◌<◌, ◌==◌, ◌^◌, ◌∷◌, ◌≢◌,
}
use pyconnect.Common.Types.{
  PyConnectType, bool, composite, double, float, int, py_void, string, unlisted,
}
use pyconnect.Common.Reader.{Reader, next_byte, pure, ◌>>=◌}
use pyconnect.Common.Pack.{
  pack_string, pack_to_le_number, packed_int_len, unpack_le_number, unpack_string,
}

pub record Python : Type 1 where
  pub Obj : Type 0
  -- `PyLong_Check`, `PyFloat_Check`, `PyUnicode_Check`, `PyBool_Check`, `obj == Py_True` and
  -- `obj == Py_None`
  pub int_check : Obj → Bool
  pub float_check : Obj → Bool
  pub unicode_check : Obj → Bool
  pub bool_check : Obj → Bool
  pub is_true : Obj → Bool
  pub is_none : Obj → Bool
  -- `(int)PyLong_AsLong`, `(float)PyFloat_AsDouble`, `PyFloat_AsDouble`, `PyUnicode_AsUTF8`
  pub as_int : Obj → ℕ
  pub as_float : Obj → ℕ
  pub as_double : Obj → ℕ
  pub as_utf8 : Obj → Bytes
  -- `PyLong_FromLong` of an int, `PyFloat_FromDouble` of a float and of a double,
  -- `PyUnicode_FromString`, `Py_True` or `Py_False`, `Py_None`
  pub from_int : ℕ → Obj
  pub from_float : ℕ → Obj
  pub from_double : ℕ → Obj
  pub from_string : Bytes → Obj
  pub from_bool : Bool → Obj
  pub none_object : Obj

module _ (py : Python) where
  open py use {
    Obj, int_check, float_check, unicode_check, bool_check, is_true, as_int, as_float, as_double,
    as_utf8, from_int, from_float, from_double, from_string, from_bool, none_object,
  }

  -- `validateTypeAndSize`: 0 if the object is not of the type.
  unfoldable pub validate_type_and_size : Option Obj → PyConnectType → ℕ
  unfolding packed_int_len
  validate_type_and_size none type = 0
  validate_type_and_size (some obj) int = if int_check obj then 4 else 0
  validate_type_and_size (some obj) float = if float_check obj then 4 else 0
  validate_type_and_size (some obj) double = if float_check obj then 8 else 0
  validate_type_and_size (some obj) string =
      let size = length (as_utf8 obj) in
      if unicode_check obj then size + packed_int_len (pos size) else 0
  validate_type_and_size (some obj) bool = if bool_check obj then 1 else 0
  validate_type_and_size (some obj) composite = 0
  validate_type_and_size (some obj) py_void = 0
  validate_type_and_size (some obj) (unlisted n) = 0

  -- `defaultValue`.
  unfoldable pub default_value : PyConnectType → Obj
  default_value int = from_int 0
  default_value float = from_double 0
  default_value double = from_double 0
  default_value string = from_string []
  default_value bool = from_bool false
  default_value composite = none_object
  default_value py_void = none_object
  default_value (unlisted n) = none_object

  -- `packToStr`.
  unfoldable pub pack_to_str : Obj → PyConnectType → Bytes
  unfolding pack_to_le_number pack_string
  pack_to_str arg int = pack_to_le_number 4 (as_int arg)
  pack_to_str arg float = pack_to_le_number 4 (as_float arg)
  pack_to_str arg double = pack_to_le_number 8 (as_double arg)
  pack_to_str arg string = pack_string true (as_utf8 arg)
  pack_to_str arg bool = (if is_true arg then 1 else 0) ∷ []
  pack_to_str arg composite = []
  pack_to_str arg py_void = []
  pack_to_str arg (unlisted n) = []

  -- `unpackStr`: a boolean does not count as read.
  unfoldable pub unpack_str : PyConnectType → Reader Obj
  unfolding unpack_le_number unpack_string next_byte
  unpack_str int = unpack_le_number 4 >>= λ n. pure (from_int n)
  unpack_str float = unpack_le_number 4 >>= λ n. pure (from_float n)
  unpack_str double = unpack_le_number 8 >>= λ n. pure (from_double n)
  unpack_str string = unpack_string true >>= λ s. pure (from_string s)
  unpack_str bool = next_byte >>= λ b. pure (from_bool (not (b % 16 == 0)))
  unpack_str composite = pure none_object
  unpack_str py_void = pure none_object
  unpack_str (unlisted n) = pure none_object

-- What CPython documents of the objects that it makes and of what it reads off an object: bit
-- patterns are of their size, and a text from `PyUnicode_AsUTF8`, taken as a C string, has no zero.
pub record PythonLaws (py : Python) : Type 0 where
  pub int_range : (o : py.Obj) → py.as_int o < 256 ^ 4
  pub float_range : (o : py.Obj) → py.as_float o < 256 ^ 4
  pub double_range : (o : py.Obj) → py.as_double o < 256 ^ 8
  pub utf8_non_zero : (o : py.Obj) → All (λ b. b ≢ 0) (py.as_utf8 o)

module _ (py : Python) where
  -- What the other side makes of an object that is sent at a type.
  unfoldable pub sent_as : PyConnectType → py.Obj → py.Obj
  sent_as int o = py.from_int (py.as_int o)
  sent_as float o = py.from_float (py.as_float o)
  sent_as double o = py.from_double (py.as_double o)
  sent_as string o = py.from_string (py.as_utf8 o)
  sent_as bool o = py.from_bool (py.is_true o)
  sent_as composite o = py.none_object
  sent_as py_void o = py.none_object
  sent_as (unlisted n) o = py.none_object

  abbrev pub TextFits : PyConnectType → py.Obj → Type 0
  TextFits string o = length (py.as_utf8 o) < 32768
  TextFits _ o = Unit {0}
