-- ===== src/Protocol/Arguments.antt =====
-- The arguments of a call: `pyCall` of the stub packs them, `custom_bind` of the wrapper reads them.
use pyconnect.Base.{
  Bool, Bool-cases, Bytes, List, [], ap, append_assoc, arith, drop-append_length, false,
  if◌then◌else◌, inl, inr, length, length-append, le→ltb, ltb, ltb→le, ltb→lt, map, minus-pos,
  ne→==, none, pos, refl, some, suc, sym, take-append_length, true, ℕ, ◌++◌, ◌+◌, ◌-◌, ◌<◌, ◌==◌,
  ◌^◌, ◌∙◌, ◌∷◌, ◌≡◌, ◌≢◌, ◌≤◌,
}
use pyconnect.Common.Types.{
  PyConnectType, bool, call_attr_metd, call_attr_metd_nocb, composite, double, float, int,
  no_errors, py_void, string, unlisted,
}
use pyconnect.Common.Reader.{Reader, consumed, copy_bytes, next_byte, pure, ◌>>=◌}
use pyconnect.Common.Pack.{
  pack_int_to_str, pack_string, pack_to_le_number, unpack_chars, unpack_le_number, unpack_length,
  unpack_str_to_int, unpack_string,
}
use pyconnect.Common.RoundTrip.{
  NonZero, c_string-NonZero, le_number-pack_to_le_number, length-pack_to_le_number,
  pack_int_to_str-lt_128, pack_int_to_str-lt_32768,
}
use pyconnect.Common.Python.{Python, PythonLaws, TextFits, pack_to_str, validate_type_and_size}
use pyconnect.Wrapper.Values.{
  Value, bool_value, double_value, float_value, get_bool, get_data, get_number, get_value,
  int_value, size_difference, string_value,
}
use pyconnect.Wrapper.Module.{Argument}
use pyconnect.Wrapper.State.{read_backwards, read_forwards}
use pyconnect.Stub.Object.{PyMethod, PyObject}
use pyconnect.Stub.Messages.{call_message}
use pyconnect.Stub.Registry.{Effect}
use pyconnect.Stub.Attributes.{called, mismatch, pack_backwards, pack_forwards, py_call}
use pyconnect.Protocol.Exposure.{argument_of}

-- `p` reads `a` off `bs`, whatever follows, and the count falls by the number of bytes.
abbrev pub Spends {ℓ} : {A : Type ℓ} → Reader A → Bytes → A → Type ℓ
Spends p bs a =
    (rest : Bytes) (k : ℕ)
    → p (record { bytes = bs ++ rest; remaining = pos (length bs + k) })
      ≡ some (a, record { bytes = rest; remaining = pos k })

module _ {ℓ} {A : Type ℓ} where
  Spends-pure : (a : A) → Spends (pure a) [] a
  Spends-pure a rest k =
      let e : 0 + k ≡ k = omega arith in
      ap (λ n. some (a, record { bytes = rest; remaining = pos n })) e

module _ {ℓ κ} {A : Type ℓ} {B : Type κ} where
  Spends-bind :
      (p : Reader A) (f : A → Reader B) (xs ys : Bytes) (a : A) (b : B)
      → Spends p xs a
      → Spends (f a) ys b
      → Spends (p >>= f) (xs ++ ys) b
  Spends-bind p f xs ys a b h g rest k =
      let n : length (xs ++ ys) + k ≡ length xs + (length ys + k) =
        omega (arith, length-append {0} xs ys) in
      rw (append_assoc xs ys rest, n, h (ys ++ rest) (length ys + k)) (g rest k)

  Spends-map :
      (p : Reader A) (f : A → B) (bs : Bytes) (a : A)
      → Spends p bs a
      → Spends (p >>= λ x. pure (f x)) bs (f a)
  Spends-map p f bs a h rest k = rw (h rest k) refl

Spends-le_number :
    (size v : ℕ) → v < 256 ^ size → Spends (unpack_le_number size) (pack_to_le_number size v) v
unfolding unpack_le_number copy_bytes consumed
Spends-le_number size v h rest k =
    let bs = pack_to_le_number size v in
    let n = length-pack_to_le_number size v in
    ground (
      arith,
      n,
      take-append_length bs rest,
      drop-append_length bs rest,
      length-append bs rest,
      le_number-pack_to_le_number size v h,
      minus-pos size k,
    )

pub Spends-int : (n : ℕ) → n < 32768 → Spends unpack_str_to_int (pack_int_to_str (pos n)) n
unfolding unpack_str_to_int next_byte consumed
Spends-int n h = elim (Bool-cases (ltb n 128)) [
  | inl lo ↦
      rw (pack_int_to_str-lt_128 n (ltb→lt n 128 lo))
        (λ rest k. ground (arith, ltb→lt n 128 lo, minus-pos 1 k))
  | inr hi ↦
      rw (pack_int_to_str-lt_32768 n (ltb→le n 128 hi) h)
        (λ rest k. ground (arith, ltb→le n 128 hi, minus-pos 2 k))
]

Spends-chars : (s : Bytes) → NonZero s → Spends (unpack_chars (length s)) s s
unfolding unpack_chars copy_bytes consumed
Spends-chars s z rest k = ground (
  arith,
  take-append_length s rest,
  drop-append_length s rest,
  length-append s rest,
  c_string-NonZero s z,
  minus-pos (length s) k,
)

Spends-body :
    (s : Bytes)
    → NonZero s
    → Spends (if length s == 0 then pure [] else unpack_chars (length s)) s s
Spends-body [] z = Spends-pure []
Spends-body (b ∷ s) z = rw (ne→== (suc (length s)) 0 (omega arith)) (Spends-chars (b ∷ s) z)

Spends-string :
    (s : Bytes) → NonZero s → length s < 32768 → Spends (unpack_string true) (pack_string true s) s
unfolding unpack_string unpack_length pack_string
Spends-string s z h =
    Spends-bind (unpack_length true) _ (pack_int_to_str (pos (length s))) s (length s) s
      (Spends-int (length s) h) (Spends-body s z)

Spends-get_number :
    (size : ℕ) (make : ℕ → Value) (v : ℕ)
    → v < 256 ^ size
    → Spends (get_number size make) (pack_to_le_number size v) (make v, no_errors)
unfolding get_number
Spends-get_number size make v h rest k =
    rw
      (
        le→ltb (size_difference (pos (length (pack_to_le_number size v) + k)) size) 0 (omega arith),
        Spends-le_number size v h rest k,
      )
      refl

Spends-get_bool : (b : Bool) → Spends get_bool ((if b then 1 else 0) ∷ []) (bool_value b, no_errors)
unfolding get_bool next_byte consumed
Spends-get_bool true rest k = ground (arith, minus-pos 1 k)
Spends-get_bool false rest k = ground (arith, minus-pos 1 k)

module _ (py : Python) where
  -- The C++ value that a Python object is sent as.
  unfoldable pub argument_value : PyConnectType → py.Obj → Value
  argument_value int o = int_value (py.as_int o)
  argument_value float o = float_value (py.as_float o)
  argument_value double o = double_value (py.as_double o)
  argument_value string o = string_value (py.as_utf8 o)
  argument_value bool o = bool_value (py.is_true o)
  argument_value composite o = int_value 0
  argument_value py_void o = int_value 0
  argument_value (unlisted n) o = int_value 0

  unfoldable pub argument_values : List py.Obj → List Argument → List Value
  argument_values [] args = []
  argument_values (x ∷ xs) [] = []
  argument_values (x ∷ xs) (a ∷ args) = argument_value a.type x ∷ argument_values xs args

  -- There is an object for each argument, accepted at its type, with a text that fits.
  abbrev pub AreAccepted : List py.Obj → List Argument → Type 0
  AreAccepted [] [] = Unit
  AreAccepted [] (a ∷ args) = ⊥
  AreAccepted (x ∷ xs) [] = ⊥
  AreAccepted (x ∷ xs) (a ∷ args) =
      (validate_type_and_size py (some x) a.type ≢ 0) × TextFits py a.type x × AreAccepted xs args

  -- An accepted object is sent as its C++ value.
  pub Spends-argument :
      (laws : PythonLaws py) (o : py.Obj) (type : PyConnectType)
      → validate_type_and_size py (some o) type ≢ 0
      → TextFits py type o
      → Spends (get_data type no_errors) (pack_to_str py o type) (argument_value type o, no_errors)
  unfolding get_data get_value pack_to_str argument_value validate_type_and_size
  Spends-argument laws o int a h = Spends-get_number 4 int_value (py.as_int o) (laws.int_range o)
  Spends-argument laws o float a h =
      Spends-get_number 4 float_value (py.as_float o) (laws.float_range o)
  Spends-argument laws o double a h =
      Spends-get_number 8 double_value (py.as_double o) (laws.double_range o)
  Spends-argument laws o string a h =
      Spends-map (unpack_string true) _ (pack_string true (py.as_utf8 o)) (py.as_utf8 o)
        (Spends-string (py.as_utf8 o) (laws.utf8_non_zero o) h)
  Spends-argument laws o bool a h = Spends-get_bool (py.is_true o)
  Spends-argument laws o composite a h = absurd (a refl)
  Spends-argument laws o py_void a h = absurd (a refl)
  Spends-argument laws o (unlisted n) a h = absurd (a refl)

  Spends-forwards :
      (laws : PythonLaws py) (xs : List py.Obj) (args : List Argument)
      → AreAccepted xs args
      → Spends
          (read_forwards args no_errors)
          (pack_forwards py xs (map argument_of args))
          (argument_values xs args, no_errors)
  unfolding read_forwards pack_forwards argument_values
  Spends-forwards laws [] [] h = Spends-pure ([], no_errors)
  Spends-forwards laws [] (a ∷ args) h = absurd h
  Spends-forwards laws (x ∷ xs) [] h = absurd h
  Spends-forwards laws (x ∷ xs) (a ∷ args) (v, t, h) =
      Spends-bind (get_data a.type no_errors) _ (pack_to_str py x a.type)
        (pack_forwards py xs (map argument_of args)) (argument_value a.type x, no_errors) _
        (Spends-argument laws x a.type v t)
        (Spends-map (read_forwards args no_errors) _ (pack_forwards py xs (map argument_of args))
          (argument_values xs args, no_errors) (Spends-forwards laws xs args h))

  Spends-backwards :
      (laws : PythonLaws py) (xs : List py.Obj) (args : List Argument)
      → AreAccepted xs args
      → Spends
          (read_backwards args no_errors)
          (pack_backwards py xs (map argument_of args))
          (argument_values xs args, no_errors)
  unfolding read_backwards pack_backwards argument_values
  Spends-backwards laws [] [] h = Spends-pure ([], no_errors)
  Spends-backwards laws [] (a ∷ args) h = absurd h
  Spends-backwards laws (x ∷ xs) [] h = absurd h
  Spends-backwards laws (x ∷ xs) (a ∷ args) (v, t, h) =
      Spends-bind (read_backwards args no_errors) _ (pack_backwards py xs (map argument_of args))
        (pack_to_str py x a.type) (argument_values xs args, no_errors) _
        (Spends-backwards laws xs args h)
        (Spends-map (get_data a.type no_errors) _ (pack_to_str py x a.type)
          (argument_value a.type x, no_errors) (Spends-argument laws x a.type v t))

  length-AreAccepted :
      (xs : List py.Obj) (args : List Argument)
      → AreAccepted xs args
      → length xs ≡ length (map argument_of args)
  length-AreAccepted [] [] h = refl
  length-AreAccepted [] (a ∷ args) h = absurd h
  length-AreAccepted (x ∷ xs) [] h = absurd h
  length-AreAccepted (x ∷ xs) (a ∷ args) (v, t, h) = ap suc (length-AreAccepted xs args h)

  mismatch-AreAccepted :
      (i : ℕ) (xs : List py.Obj) (args : List Argument)
      → AreAccepted xs args
      → mismatch py i xs (map argument_of args) ≡ none
  unfolding mismatch
  mismatch-AreAccepted i [] [] h = refl
  mismatch-AreAccepted i [] (a ∷ args) h = absurd h
  mismatch-AreAccepted i (x ∷ xs) [] h = absurd h
  mismatch-AreAccepted i (x ∷ xs) (a ∷ args) (v, t, h) =
      let accepted : (validate_type_and_size py (some x) a.type == 0) ≡ false =
        ne→== (validate_type_and_size py (some x) a.type) 0 v in
      ground (arith, accepted, mismatch-AreAccepted (suc i) xs args h)

  -- The bytes of the arguments, in the order that the object's flag chooses.
  abbrev pub packed_arguments : PyMethod → List py.Obj → PyObject py → Bytes
  packed_arguments metd xs o =
      if o.arg_eval_reversed then pack_forwards py xs metd.args else pack_backwards py xs metd.args

  pub py_call-accepted :
      (server_id : ℕ) (metd : PyMethod) (xs : List py.Obj) (args : List Argument) (o : PyObject py)
      → metd.args ≡ map argument_of args
      → metd.opt_args ≤ length metd.args
      → AreAccepted xs args
      → py_call py server_id metd xs o
        ≡ called (
            Effect.dispatch
              (call_message
                (if o.no_callback then call_attr_metd_nocb else call_attr_metd)
                server_id
                o.id
                (length o.attrs + metd.id)
                (packed_arguments metd xs o))
              false)
  unfolding py_call
  py_call-accepted server_id metd xs args o same few h =
      let size : length xs ≡ length metd.args =
        length-AreAccepted xs args h ∙ ap (length {0}) (sym same) in
      let right : mismatch py 1 xs metd.args ≡ none =
        ap (mismatch py 1 xs) same ∙ mismatch-AreAccepted 1 xs args h in
      let lo : ltb (length xs) (length metd.args - metd.opt_args) ≡ false = ground arith in
      let hi : ltb (length metd.args - metd.opt_args + metd.opt_args) (length xs) ≡ false =
        ground arith in
      rw (lo, py_call) (rw (hi, py_call) (rw (right, py_call) refl))

  pub Spends-packed_arguments :
      (laws : PythonLaws py) (clang : Bool) (metd : PyMethod) (xs : List py.Obj)
      (args : List Argument) (o : PyObject py)
      → metd.args ≡ map argument_of args
      → o.arg_eval_reversed ≡ clang
      → AreAccepted xs args
      → Spends
          (if clang then read_forwards args no_errors else read_backwards args no_errors)
          (packed_arguments metd xs o)
          (argument_values xs args, no_errors)
  Spends-packed_arguments laws true metd xs args o same order h =
      rw (order, same) (Spends-forwards laws xs args h)
  Spends-packed_arguments laws false metd xs args o same order h =
      rw (order, same) (Spends-backwards laws xs args h)
