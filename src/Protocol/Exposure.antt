-- ===== src/Protocol/Exposure.antt =====
-- `declareModuleAttrMetd` of the wrapper against the stub's handling of `ATTR_METD_EXPOSE`.
use pyconnect.Stub.Expose.{
  AttributeEntry, MethodEntry, PyArgument, read_argument, read_arguments, read_attribute,
  read_attributes, read_expose, read_method, read_methods,
}
use pyconnect.Base.{
  All, Bool, Bytes, List, [], ap, append_assoc, arith, false, length, map, not, not-not, pos, refl,
  some, subst, suc, sym, true, ℕ, ◌%◌, ◌++◌, ◌/◌, ◌<◌, ◌==◌, ◌^◌, ◌∙◌, ◌∷◌, ◌≡◌,
}
use pyconnect.Common.Types.{
  PyConnectType, bool, composite, double, float, int, no_errors, py_void, string, type_code,
  type_of_code, unlisted,
}
use pyconnect.Common.Reader.{Reads, Reads-bind, Reads-map, Reads-next_byte, Reads-pure, next_byte}
use pyconnect.Common.Pack.{
  pack_int_to_str, pack_string, pack_to_le_number, unpack_le_number, unpack_str_to_int,
  unpack_string,
}
use pyconnect.Common.RoundTrip.{
  NonZero, Reads-pack_int_to_str, Reads-pack_string, Reads-pack_to_le_number,
}
use pyconnect.Common.Python.{Python, unpack_str}
use pyconnect.Wrapper.Bounds.{set_string_fits}
use pyconnect.Wrapper.Values.{
  Value, bool_value, double_value, float_value, int_value, set_data, set_value, string_value,
  value_type,
}
use pyconnect.Wrapper.Module.{Argument, Attribute, Method, PyConnectModule}
use pyconnect.Wrapper.Messages.{
  argument_entries, attribute_entries, expose_body, method_entries, raw_value, type_byte,
}

-- What a module must satisfy for its exposure to arrive: C++ values in range and without zero bytes in
-- texts, at the declared type; names of at most 255 bytes without zero bytes; fewer than 16 arguments;
-- types that have six bits.
abbrev pub ValueIsSendable : Value → Type 0
ValueIsSendable (int_value n) = n < 256 ^ 4
ValueIsSendable (float_value n) = n < 256 ^ 4
ValueIsSendable (double_value n) = n < 256 ^ 8
ValueIsSendable (string_value s) = NonZero s × (length s < 32768)
ValueIsSendable (bool_value b) = Unit {0}

abbrev pub NameIsSendable : Bytes → Type 0
NameIsSendable name = NonZero name × (length name < 256)

-- A type that the header names.
abbrev pub TypeIsListed : PyConnectType → Type 0
TypeIsListed (unlisted n) = ⊥
TypeIsListed _ = Unit {0}

abbrev pub AttributeIsSendable : Bytes × Attribute → Type 0
AttributeIsSendable (name, a) =
    NameIsSendable name × (a.type ≡ value_type a.value) × ValueIsSendable a.value

abbrev pub MethodIsSendable : Bytes × Method → Type 0
MethodIsSendable (name, m) =
    NameIsSendable name
    × TypeIsListed m.type
    × (length m.args < 16)
    × All (λ (a : Argument). TypeIsListed a.type) m.args

pub record IsSendable (m : PyConnectModule) : Type 0 where
  pub attributes_sendable : All AttributeIsSendable m.attributes
  pub methods_sendable : All MethodIsSendable m.methods
  pub few_attributes : length m.attributes < 32768
  pub few_methods : length m.methods < 32768

type_of_code-type_code :
    (flag : Bool) (t : PyConnectType)
    → TypeIsListed t
    → (type_of_code (type_byte flag t % 64) ≡ t) × ((type_byte flag t / 64 == 0) ≡ not flag)
unfolding type_of_code
type_of_code-type_code true int h = (refl, refl)
type_of_code-type_code false int h = (refl, refl)
type_of_code-type_code true float h = (refl, refl)
type_of_code-type_code false float h = (refl, refl)
type_of_code-type_code true double h = (refl, refl)
type_of_code-type_code false double h = (refl, refl)
type_of_code-type_code true string h = (refl, refl)
type_of_code-type_code false string h = (refl, refl)
type_of_code-type_code true bool h = (refl, refl)
type_of_code-type_code false bool h = (refl, refl)
type_of_code-type_code true composite h = (refl, refl)
type_of_code-type_code false composite h = (refl, refl)
type_of_code-type_code true py_void h = (refl, refl)
type_of_code-type_code false py_void h = (refl, refl)
type_of_code-type_code _ (unlisted n) h = absurd h

module _ (py : Python) where
  -- The Python object for a C++ value.
  unfoldable pub object_of : Value → py.Obj
  object_of (int_value n) = py.from_int n
  object_of (float_value n) = py.from_float n
  object_of (double_value n) = py.from_double n
  object_of (string_value s) = py.from_string s
  object_of (bool_value b) = py.from_bool b

  -- A value in range is sent in full, and is read at its type to the object for it.
  pub value_sent :
      (v : Value)
      → ValueIsSendable v
      → (raw : Bytes) × (set_data v no_errors ≡ some (raw, no_errors))
        × Reads (unpack_str py (value_type v)) raw (object_of v)
  unfolding set_data set_value unpack_str object_of
  value_sent (int_value n) h =
      let bs = pack_to_le_number 4 n in
      (bs, refl, Reads-map (unpack_le_number 4) py.from_int bs n (Reads-pack_to_le_number 4 n h))
  value_sent (float_value n) h =
      let bs = pack_to_le_number 4 n in
      (bs, refl, Reads-map (unpack_le_number 4) py.from_float bs n (Reads-pack_to_le_number 4 n h))
  value_sent (double_value n) h =
      let bs = pack_to_le_number 8 n in
      (bs, refl, Reads-map (unpack_le_number 8) py.from_double bs n (Reads-pack_to_le_number 8 n h))
  value_sent (string_value s) (z, h) =
      let bs = pack_string true s in
      (
        bs,
        set_string_fits s h,
        Reads-map (unpack_string true) py.from_string bs s (Reads-pack_string true s z h),
      )
  value_sent (bool_value true) h = (1 ∷ [], refl, λ rest n. (n, unfold next_byte in refl))
  value_sent (bool_value false) h = (0 ∷ [], refl, λ rest n. (n, unfold next_byte in refl))

  -- What the server should know of an attribute.
  unfoldable pub entry_of : Bytes × Attribute → AttributeEntry py
  entry_of (name, a) = record {
    name = name;
    type = a.type;
    read_only = not a.writable;
    value = object_of a.value;
  }

  Reads-attribute :
      (name : Bytes) (a : Attribute) (raw : Bytes)
      → NameIsSendable name
      → TypeIsListed a.type
      → Reads (unpack_str py a.type) raw (object_of a.value)
      → Reads
          (read_attribute py)
          (type_byte a.writable a.type ∷ (pack_string false name ++ raw))
          (entry_of (name, a))
  unfolding read_attribute entry_of
  Reads-attribute name a raw (z, l) t value =
      let (code, flag) = type_of_code-type_code a.writable a.type t in
      subst (Reads (read_attribute py) (b ∷ (pack_string false name ++ raw)))
        (λ i. record { name = name; type = code i; read_only = flag i; value = object_of a.value })
        (Reads-bind next_byte _ (b ∷ []) (pack_string false name ++ raw) b _ (Reads-next_byte b) (
          Reads-bind (unpack_string false) _ (pack_string false name) raw name _
            (Reads-pack_string false name z l)
            (Reads-map (unpack_str py (type_of_code (b % 64))) _ raw (object_of a.value)
              (subst (λ u. Reads (unpack_str py u) raw (object_of a.value)) (sym code) value))))
    where
      b : ℕ
      b = type_byte a.writable a.type

  TypeIsListed-value_type : (v : Value) → TypeIsListed (value_type v)
  TypeIsListed-value_type (int_value n) = tt
  TypeIsListed-value_type (float_value n) = tt
  TypeIsListed-value_type (double_value n) = tt
  TypeIsListed-value_type (string_value s) = tt
  TypeIsListed-value_type (bool_value b) = tt

  raw_value_sent :
      (a : Attribute) {raw : Bytes}
      → set_data a.value no_errors ≡ some (raw, no_errors)
      → raw_value a ≡ some raw
  unfolding raw_value
  raw_value_sent a e = rw e

  attribute_entries_step :
      (name : Bytes) (a : Attribute) (rest : List (Bytes × Attribute)) {raw more : Bytes}
      → raw_value a ≡ some raw
      → attribute_entries rest ≡ some more
      → attribute_entries ((name, a) ∷ rest)
        ≡ some (type_byte a.writable a.type ∷ (pack_string false name ++ (raw ++ more)))
  unfolding attribute_entries
  attribute_entries_step name a rest e e' = rw (e, e', attribute_entries)

  Reads-attributes :
      (attrs : List (Bytes × Attribute))
      → All AttributeIsSendable attrs
      → (bs : Bytes) × (attribute_entries attrs ≡ some bs)
        × Reads (read_attributes py (length attrs)) bs (map entry_of attrs)
  unfolding attribute_entries read_attributes
  Reads-attributes [] h = ([], refl, Reads-pure [])
  Reads-attributes ((name, a) ∷ rest) ((n, t, s), hs) =
      let (raw, sent, value) = value_sent a.value s in
      let (more, e, r) = Reads-attributes rest hs in
      let head = type_byte a.writable a.type ∷ (pack_string false name ++ raw) in
      (
        type_byte a.writable a.type ∷ (pack_string false name ++ (raw ++ more)),
        attribute_entries_step name a rest (raw_value_sent a sent) e,
        subst
            (λ bs.
              Reads (read_attributes py (suc (length rest))) bs (map entry_of ((name, a) ∷ rest)))
            (ap (λ bs. type_byte a.writable a.type ∷ bs)
              (append_assoc (pack_string false name) raw more))
            (Reads-bind (read_attribute py) _ head more (entry_of (name, a)) _
              (Reads-attribute name a raw n
                (subst TypeIsListed (sym t) (TypeIsListed-value_type a.value))
                (subst (λ u. Reads (unpack_str py u) raw (object_of a.value)) (sym t) value))
              (Reads-map (read_attributes py (length rest)) _ more (map entry_of rest) r)),
      )

abbrev pub argument_of : Argument → PyArgument
argument_of a = record { type = a.type; optional = a.is_optional }

Reads-argument :
    (a : Argument)
    → TypeIsListed a.type
    → Reads read_argument (type_byte a.is_optional a.type ∷ []) (argument_of a)
unfolding read_argument next_byte
Reads-argument a t rest n =
    let (code, flag) = type_of_code-type_code a.is_optional a.type t in
    (
      n,
      λ i. some (
        record { type = code i; optional = (ap not flag ∙ not-not a.is_optional) i },
        record { bytes = rest; remaining = n },
      ),
    )

Reads-arguments :
    (args : List Argument)
    → All (λ (a : Argument). TypeIsListed a.type) args
    → Reads (read_arguments (length args)) (argument_entries args) (map argument_of args)
unfolding read_arguments argument_entries
Reads-arguments [] h = Reads-pure []
Reads-arguments (a ∷ args) (t, ts) =
    Reads-bind read_argument _ (type_byte a.is_optional a.type ∷ []) (argument_entries args)
      (argument_of a) _ (Reads-argument a t)
      (Reads-map (read_arguments (length args)) _ (argument_entries args) (map argument_of args)
        (Reads-arguments args ts))

-- What the server should know of a method.
unfoldable pub method_entry_of : Bytes × Method → MethodEntry
method_entry_of (name, m) = record { name = name; ret_type = m.type; args = map argument_of m.args }

Reads-method :
    (name : Bytes) (m : Method)
    → MethodIsSendable (name, m)
    → Reads read_method
        ((type_code m.type % 64)
          ∷ (pack_string false name ++ ((length m.args % 256) ∷ argument_entries m.args)))
        (method_entry_of (name, m))
unfolding read_method method_entry_of
Reads-method name m ((z, l), t, few, ts) =
    let same : type_code m.type % 64 % 64 ≡ type_byte false m.type % 64 = omega arith in
    let code = ap type_of_code same ∙ (type_of_code-type_code false m.type t).0 in
    let k : length m.args ≡ length m.args % 256 % 16 = omega arith in
    subst (Reads read_method (b ∷ (pack_string false name ++ (n ∷ argument_entries m.args))))
      (λ i. record { name = name; ret_type = code i; args = map argument_of m.args })
      (Reads-bind next_byte _ (b ∷ []) (pack_string false name ++ (n ∷ argument_entries m.args)) b _
        (Reads-next_byte b)
        (Reads-bind (unpack_string false) _ (pack_string false name) (n ∷ argument_entries m.args)
          name _ (Reads-pack_string false name z l)
          (Reads-bind next_byte _ (n ∷ []) (argument_entries m.args) n _ (Reads-next_byte n) (
            Reads-map (read_arguments (n % 16)) _ (argument_entries m.args) (map argument_of m.args)
              (subst
                (λ u. Reads (read_arguments u) (argument_entries m.args) (map argument_of m.args)) k
                (Reads-arguments m.args ts))))))
  where
    b : ℕ
    b = type_code m.type % 64

    n : ℕ
    n = length m.args % 256

Reads-methods :
    (metds : List (Bytes × Method))
    → All MethodIsSendable metds
    → Reads (read_methods (length metds)) (method_entries metds) (map method_entry_of metds)
unfolding read_methods method_entries
Reads-methods [] h = Reads-pure []
Reads-methods ((name, m) ∷ rest) (h, hs) =
    subst
      (λ bs. Reads (read_methods (suc (length rest))) bs (map method_entry_of ((name, m) ∷ rest)))
      (ap (λ bs. b ∷ bs)
        (append_assoc (pack_string false name) (n ∷ argument_entries m.args) (method_entries rest)))
      (Reads-bind read_method _ (b ∷ (pack_string false name ++ (n ∷ argument_entries m.args)))
        (method_entries rest) (method_entry_of (name, m)) _ (Reads-method name m h)
        (Reads-map (read_methods (length rest)) _ (method_entries rest) (map method_entry_of rest)
          (Reads-methods rest hs)))
  where
    b : ℕ
    b = type_code m.type % 64

    n : ℕ
    n = length m.args % 256

-- The server reads from the exposure of a sendable module exactly its attributes, in order, with
-- their names, types, access and values, and its methods, in order, with their names, result types
-- and arguments.
pub Reads-expose_body :
    (py : Python) (m : PyConnectModule)
    → IsSendable m
    → (body : Bytes) × (expose_body m ≡ some body)
      × Reads (read_expose py) body (map (entry_of py) m.attributes, map method_entry_of m.methods)
unfolding read_expose expose_body
Reads-expose_body py m h =
    let (entries, e, r) = Reads-attributes py m.attributes h.attributes_sendable in
    let nattrs = length m.attributes in
    let nmetds = length m.methods in
    let metds = method_entries m.methods in
    (
      pack_int_to_str (pos nattrs) ++ (entries ++ (pack_int_to_str (pos nmetds) ++ metds)),
      rw e,
      Reads-bind unpack_str_to_int _ (pack_int_to_str (pos nattrs))
          (entries ++ (pack_int_to_str (pos nmetds) ++ metds)) nattrs _
          (Reads-pack_int_to_str nattrs h.few_attributes)
          (Reads-bind (read_attributes py nattrs) _ entries (pack_int_to_str (pos nmetds) ++ metds)
            (map (entry_of py) m.attributes) _ r
            (Reads-bind unpack_str_to_int _ (pack_int_to_str (pos nmetds)) metds nmetds _
              (Reads-pack_int_to_str nmetds h.few_methods)
              (Reads-map (read_methods nmetds) _ metds (map method_entry_of m.methods)
                (Reads-methods m.methods h.methods_sendable)))),
    )
