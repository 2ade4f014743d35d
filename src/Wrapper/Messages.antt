-- ===== src/Wrapper/Messages.antt =====
-- The messages that the wrapper sends, with the sizes that it allocates for them.
use mathlib.Core.Option
use pyconnect.Base.{
  Bool, Bytes, List, Option, [], false, if◌then◌else◌, length, map, negsuc, none, pos, some, true,
  ℕ, ℤ, ◌%◌, ◌*◌, ◌++◌, ◌+◌, ◌-◌, ◌∷◌,
}
use pyconnect.Common.Types.{
  PyConnectMsg, PyConnectType, attr_metd_desc, attr_metd_expose, module_declare, module_shutdown,
  msg_code, msg_end, no_errors, type_code,
}
use pyconnect.Common.Pack.{pack_int_to_str, pack_string, pack_to_le_number, packed_int_len}
use pyconnect.Wrapper.Values.{set_data}
use pyconnect.Wrapper.Module.{Argument, Attribute, Method, PyConnectModule}

-- `msgType << 4 | (id & 0xf)`.
abbrev pub header_byte : PyConnectMsg → ℕ → ℕ
header_byte msg id = msg_code msg * 16 + id % 16

-- `(unsigned char)id` of an `int`.
abbrev pub byte_of : ℤ → ℕ
byte_of (pos n) = n % 256
byte_of (negsuc n) = 255 - n % 256

-- `declarePyConnectModule`. The second byte says in which order the program's compiler evaluates
-- the arguments of a call: 1 stands for the first one first.
unfoldable pub declare_message : Bool → ℕ → PyConnectModule → Bytes
declare_message clang server_id m =
    header_byte module_declare server_id
    ∷ (if clang then 1 else 0)
    ∷ (pack_string false m.name ++ (pack_string true m.desc ++ msg_end ∷ []))

unfoldable pub declare_size : PyConnectModule → ℕ
declare_size m =
    let name_len = length m.name in
    let desc_len = length m.desc in 4 + (name_len + desc_len + packed_int_len (pos desc_len))

-- `getRawValue` of an attribute, `none` where it faults.
unfoldable pub raw_value : Attribute → Option Bytes
raw_value a = Option.map (λ r. r.0) (set_data a.value no_errors)

-- A flag in bit 6 over a type in six bits.
abbrev pub type_byte : Bool → PyConnectType → ℕ
type_byte flag type = (if flag then 64 else 0) + type_code type % 64

-- The attribute loop of `declareModuleAttrMetd`.
unfoldable pub attribute_entries : List (Bytes × Attribute) → Option Bytes
attribute_entries [] = some []
attribute_entries ((name, attr) ∷ rest) = elim (raw_value attr) [
  | none ↦ none
  | some raw ↦
      Option.map
        (λ more. type_byte attr.writable attr.type ∷ (pack_string false name ++ (raw ++ more)))
        (attribute_entries rest)
]

unfoldable pub argument_entries : List Argument → Bytes
argument_entries [] = []
argument_entries (a ∷ rest) = type_byte a.is_optional a.type ∷ argument_entries rest

-- The method loop of `declareModuleAttrMetd`.
unfoldable pub method_entries : List (Bytes × Method) → Bytes
method_entries [] = []
method_entries ((name, metd) ∷ rest) =
    (type_code metd.type % 64)
    ∷ (pack_string false name
        ++ ((length metd.args % 256) ∷ (argument_entries metd.args ++ method_entries rest)))

-- What follows the two header bytes.
unfoldable pub expose_body : PyConnectModule → Option Bytes
expose_body m =
    Option.map
      (λ entries.
        pack_int_to_str (pos (length m.attributes))
        ++ (entries ++ (pack_int_to_str (pos (length m.methods)) ++ method_entries m.methods)))
      (attribute_entries m.attributes)

-- `declareModuleAttrMetd`, at the identifier that the server assigned.
unfoldable pub expose_message : ℕ → ℤ → PyConnectModule → Option Bytes
expose_message server_id module_id m =
    Option.map
      (λ body. header_byte attr_metd_expose server_id ∷ byte_of module_id ∷ (body ++ msg_end ∷ []))
      (expose_body m)

-- Its sizes: `attrlens + attrValueLens` and `metdlens`, computed in loops of their own.
unfoldable pub attribute_lens : List (Bytes × Attribute) → Option ℕ
attribute_lens [] = some 0
attribute_lens ((name, attr) ∷ rest) = elim (raw_value attr) [
  | none ↦ none
  | some raw ↦ Option.map (λ n. length name + length raw + n) (attribute_lens rest)
]

unfoldable pub method_lens : List (Bytes × Method) → ℕ
method_lens [] = 0
method_lens ((name, metd) ∷ rest) = length name + length metd.args + method_lens rest

unfoldable pub expose_size : PyConnectModule → Option ℕ
expose_size m =
    let nofattrs = length m.attributes in
    let nofmethods = length m.methods in
    Option.map
      (λ lens.
        3
        + packed_int_len (pos nofattrs)
        + packed_int_len (pos nofmethods)
        + (lens + nofattrs * 2)
        + (method_lens m.methods + nofmethods * 3))
      (attribute_lens m.attributes)

-- `declareModuleAttrMetdDesc`.
unfoldable pub descriptions : List Bytes → Bytes
descriptions [] = []
descriptions (d ∷ rest) = pack_string true d ++ descriptions rest

abbrev pub attribute_descs : PyConnectModule → List Bytes
attribute_descs m = map (λ e. e.1.desc) m.attributes

abbrev pub method_descs : PyConnectModule → List Bytes
method_descs m = map (λ e. e.1.desc) m.methods

unfoldable pub desc_body : PyConnectModule → Bytes
desc_body m =
    pack_int_to_str (pos (length m.attributes))
    ++ (descriptions (attribute_descs m)
        ++ (pack_int_to_str (pos (length m.methods)) ++ descriptions (method_descs m)))

unfoldable pub desc_message : ℕ → ℤ → PyConnectModule → Bytes
desc_message server_id module_id m =
    header_byte attr_metd_desc server_id ∷ byte_of module_id ∷ (desc_body m ++ msg_end ∷ [])

unfoldable pub desc_lens : List Bytes → ℕ
desc_lens [] = 0
desc_lens (d ∷ rest) = length d + packed_int_len (pos (length d)) + desc_lens rest

unfoldable pub desc_size : PyConnectModule → ℕ
desc_size m =
    3
    + packed_int_len (pos (length m.attributes))
    + packed_int_len (pos (length m.methods))
    + desc_lens (attribute_descs m)
    + desc_lens (method_descs m)

-- `sendAttrMetdResponse`, with the data of `length` bytes.
unfoldable pub response_message : PyConnectMsg → ℕ → ℤ → ℕ → ℤ → Bytes → Bytes
response_message msg server_id module_id err index response =
    header_byte msg server_id
    ∷ byte_of module_id
    ∷ (err % 256)
    ∷ (pack_to_le_number 4 (length response + packed_int_len index)
        ++ (pack_int_to_str index ++ (response ++ msg_end ∷ [])))

unfoldable pub response_size : ℤ → Bytes → ℕ
response_size index response = 4 + 4 + (length response + packed_int_len index)

-- `moduleShutdown`'s message to one server.
unfoldable pub module_shutdown_message : ℕ → ℤ → Bytes
module_shutdown_message server_id module_id =
    header_byte module_shutdown server_id ∷ byte_of module_id ∷ msg_end ∷ []
