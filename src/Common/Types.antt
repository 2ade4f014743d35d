-- ===== src/Common/Types.antt =====
-- The enumerations of PyConnectCommon.h, with the numbers that stand for them in a message.
use Prim.Native.Char.{code}
use Prim.Native.String.{String}
use pyconnect.Base.{Bool, Bytes, [], bytes_eq, false, if◌then◌else◌, true, ℕ, ◌==◌, ◌∷◌}

-- The bytes of an ASCII text.
abbrev pub codes : String → Bytes
codes String.[] = []
codes (String.◌∷◌ c s) = code c ∷ codes s

-- `PYCONNECT_MSG_INIT`, `PYCONNECT_MSG_END` and `PYCONNECT_MSG_BUFFER_SIZE`.
abbrev pub msg_init : ℕ
msg_init = b'#'

abbrev pub msg_end : ℕ
msg_end = b'@'

abbrev pub msg_buffer_size : ℕ
msg_buffer_size = 10240

abbrev pub max_str_length : ℕ
max_str_length = 32767

pub data PyConnectMsg : Type 0 where
  module_discovery module_declare module_assign_id attr_metd_expose : PyConnectMsg
  call_attr_metd call_attr_metd_nocb attr_metd_resp attr_value_update : PyConnectMsg
  get_attr_metd_desc attr_metd_desc module_shutdown server_shutdown : PyConnectMsg
  peer_server_discovery peer_server_msg : PyConnectMsg

abbrev pub msg_code : PyConnectMsg → ℕ
msg_code module_discovery = 0x1
msg_code module_declare = 0x2
msg_code module_assign_id = 0x3
msg_code attr_metd_expose = 0x4
msg_code call_attr_metd = 0x5
msg_code call_attr_metd_nocb = 0x6
msg_code attr_metd_resp = 0x7
msg_code attr_value_update = 0x8
msg_code get_attr_metd_desc = 0x9
msg_code attr_metd_desc = 0xa
msg_code module_shutdown = 0xb
msg_code server_shutdown = 0xc
msg_code peer_server_discovery = 0xd
msg_code peer_server_msg = 0xe

pub data PyConnectMsgStatus : Type 0 where
  no_errors no_attr_metd str_too_long index_mismatch : PyConnectMsgStatus
  no_pyconnect_object metd_exception msg_corrupted : PyConnectMsgStatus

abbrev pub status_code : PyConnectMsgStatus → ℕ
status_code no_errors = 0x0
status_code no_attr_metd = 0x1
status_code str_too_long = 0x2
status_code index_mismatch = 0x4
status_code no_pyconnect_object = 0x8
status_code metd_exception = 0xa
status_code msg_corrupted = 0xf

-- `unlisted n` is an enumerator value that a message carries and the header does not name.
pub data PyConnectType : Type 0 where
  int float double string bool composite py_void : PyConnectType
  unlisted : ℕ → PyConnectType

abbrev pub type_code : PyConnectType → ℕ
type_code int = 0
type_code float = 1
type_code double = 2
type_code string = 3
type_code bool = 4
type_code composite = 5
type_code py_void = 6
type_code (unlisted n) = n

-- The cast `(PyConnectType::Type)n`.
unfoldable pub type_of_code : ℕ → PyConnectType
type_of_code n =
    if n == 0
    then int
    else if n == 1
    then float
    else if n == 2
    then double
    else if n == 3
    then string
    else if n == 4
    then bool
    else if n == 5
    then composite
    else if n == 6
    then py_void
    else unlisted n

-- `PyConnectType::typeName(Type)`.
unfoldable pub type_name : PyConnectType → Bytes
type_name int = codes "integer"
type_name float = codes "float"
type_name double = codes "double"
type_name string = codes "string"
type_name bool = codes "boolean"
type_name composite = codes "composite object"
type_name py_void = codes "unknown"
type_name (unlisted n) = codes "unknown"

unfoldable pub starts_with : Bytes → Bytes → Bool
starts_with [] ys = true
starts_with (x ∷ xs) [] = false
starts_with (x ∷ xs) (y ∷ ys) = let rest = starts_with xs ys in if x == y then rest else false

-- `strstr(text, word)`, as a test.
unfoldable pub contains : Bytes → Bytes → Bool
unfolding starts_with
contains [] word = starts_with word []
contains (x ∷ text) word =
    let rest = contains text word in if starts_with word (x ∷ text) then true else rest

-- `PyConnectType::typeName(const char *)`.
unfoldable pub type_of_name : Bytes → PyConnectType
unfolding contains bytes_eq
type_of_name name =
    if contains name (codes "string")
    then string
    else if bytes_eq (codes "int") name
    then int
    else if bytes_eq (codes "float") name
    then float
    else if bytes_eq (codes "double") name
    then double
    else if bytes_eq (codes "bool") name
    then bool
    else if bytes_eq (codes "void") name
    then py_void
    else composite

-- `AF_INET` or not, the port and the printed address of a `sockaddr_in`.
pub record SockAddr : Type 0 where
  pub is_inet : Bool
  pub port : ℕ
  pub ip : Bytes

-- `MesgProcessResult`.
pub data MesgProcessResult : Type 0 where
  mesg_processed_ok mesg_processed_failed mesg_to_shutdown : MesgProcessResult
