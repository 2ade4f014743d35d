-- ===== src/Common/Objects.antt =====
-- Python objects on the wire: the size that is announced, and what the other side reads.
use pyconnect.Base.{arith, length, refl, some, subst, true, ◌≡◌, ◌≢◌}
use pyconnect.Common.Types.{
  PyConnectType, bool, composite, double, float, int, py_void, string, unlisted,
}
use pyconnect.Common.Reader.{Reads, Reads-map}
use pyconnect.Common.Pack.{pack_string, pack_to_le_number, unpack_le_number, unpack_string}
use pyconnect.Common.RoundTrip.{
  Reads-pack_string, Reads-pack_to_le_number, length-pack_string, length-pack_to_le_number,
}
use pyconnect.Common.Python.{
  Python, PythonLaws, TextFits, pack_to_str, sent_as, unpack_str, validate_type_and_size,
}

module _ (py : Python) where
  -- If `validateTypeAndSize` accepts an object, its result is the number of bytes that `packToStr`
  -- writes for that object at that type.
  pub validate_type_and_size_exact :
      (o : py.Obj) (type : PyConnectType)
      → validate_type_and_size py (some o) type ≢ 0
      → length (pack_to_str py o type) ≡ validate_type_and_size py (some o) type
  unfolding validate_type_and_size pack_to_str
  validate_type_and_size_exact o int h = ground (arith, length-pack_to_le_number 4 (py.as_int o))
  validate_type_and_size_exact o float h =
      ground (arith, length-pack_to_le_number 4 (py.as_float o))
  validate_type_and_size_exact o double h =
      ground (arith, length-pack_to_le_number 8 (py.as_double o))
  validate_type_and_size_exact o string h = ground (arith, length-pack_string (py.as_utf8 o))
  validate_type_and_size_exact o bool h = ground arith
  validate_type_and_size_exact o composite h = absurd (h refl)
  validate_type_and_size_exact o py_void h = absurd (h refl)
  validate_type_and_size_exact o (unlisted n) h = absurd (h refl)

  -- An object packed at a type is unpacked at that type to the object for the C value that was sent.
  pub Reads-pack_to_str :
      (laws : PythonLaws py) (o : py.Obj) (type : PyConnectType)
      → TextFits py type o
      → Reads (unpack_str py type) (pack_to_str py o type) (sent_as py type o)
  unfolding unpack_str pack_to_str sent_as
  Reads-pack_to_str laws o int h =
      Reads-map (unpack_le_number 4) py.from_int (pack_to_le_number 4 (py.as_int o)) (py.as_int o)
        (Reads-pack_to_le_number 4 (py.as_int o) (laws.int_range o))
  Reads-pack_to_str laws o float h =
      Reads-map (unpack_le_number 4) py.from_float (pack_to_le_number 4 (py.as_float o))
        (py.as_float o) (Reads-pack_to_le_number 4 (py.as_float o) (laws.float_range o))
  Reads-pack_to_str laws o double h =
      Reads-map (unpack_le_number 8) py.from_double (pack_to_le_number 8 (py.as_double o))
        (py.as_double o) (Reads-pack_to_le_number 8 (py.as_double o) (laws.double_range o))
  Reads-pack_to_str laws o string h =
      Reads-map (unpack_string true) py.from_string (pack_string true (py.as_utf8 o)) (py.as_utf8 o)
        (Reads-pack_string true (py.as_utf8 o) (laws.utf8_non_zero o) h)
  Reads-pack_to_str laws o bool h = λ rest n. (n, ground arith)
  Reads-pack_to_str laws o composite h = λ rest n. (n, refl)
  Reads-pack_to_str laws o py_void h = λ rest n. (n, refl)
  Reads-pack_to_str laws o (unlisted k) h = λ rest n. (n, refl)

  -- An object that Python makes again from the C value of the type: a number that the C type holds
  -- without rounding, a text without zero bytes, a truth value.
  abbrev pub IsExact : PyConnectType → py.Obj → Type 0
  IsExact int o = py.from_int (py.as_int o) ≡ o
  IsExact float o = py.from_float (py.as_float o) ≡ o
  IsExact double o = py.from_double (py.as_double o) ≡ o
  IsExact string o = py.from_string (py.as_utf8 o) ≡ o
  IsExact bool o = py.from_bool (py.is_true o) ≡ o
  IsExact composite o = ⊥
  IsExact py_void o = ⊥
  IsExact (unlisted n) o = ⊥

  sent_as-IsExact : (o : py.Obj) (type : PyConnectType) → IsExact type o → sent_as py type o ≡ o
  unfolding sent_as
  sent_as-IsExact o int h = h
  sent_as-IsExact o float h = h
  sent_as-IsExact o double h = h
  sent_as-IsExact o string h = h
  sent_as-IsExact o bool h = h
  sent_as-IsExact o composite h = absurd h
  sent_as-IsExact o py_void h = absurd h
  sent_as-IsExact o (unlisted n) h = absurd h

  -- An object comes back as itself: packed at the type of an int, a float, a double, a text or a truth
  -- value, it is unpacked at that type to the object that was packed, whatever stands behind it, if
  -- Python makes it again from its C value, and its text, if it is one, has fewer than 32768 bytes.
  pub Reads-IsExact :
      (laws : PythonLaws py) (o : py.Obj) (type : PyConnectType)
      → TextFits py type o
      → IsExact type o
      → Reads (unpack_str py type) (pack_to_str py o type) o
  Reads-IsExact laws o type h exact =
      subst (Reads (unpack_str py type) (pack_to_str py o type)) (sent_as-IsExact o type exact)
        (Reads-pack_to_str laws o type h)
