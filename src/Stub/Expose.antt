-- ===== src/Stub/Expose.antt =====
-- The parts of `PyConnectStub::processInput` that read what a module exposes.
use pyconnect.Base.{Bool, Bytes, List, [], false, not, suc, zero, ℕ, ◌%◌, ◌/◌, ◌==◌, ◌∷◌}
use pyconnect.Common.Types.{PyConnectType, type_of_code}
use pyconnect.Common.Reader.{Reader, next_byte, pure, ◌>>=◌}
use pyconnect.Common.Pack.{unpack_str_to_int, unpack_string}
use pyconnect.Common.Python.{Python, unpack_str}

-- A `PyConnectArgument` of a method.
pub record PyArgument : Type 0 where
  pub type : PyConnectType
  pub optional : Bool

-- A method as it is announced.
pub record MethodEntry : Type 0 where
  pub name : Bytes
  pub ret_type : PyConnectType
  pub args : List PyArgument

unfoldable pub read_argument : Reader PyArgument
read_argument = do
  b ← next_byte
  pure (record { type = type_of_code (b % 64); optional = not (b / 64 == 0) })

-- The argument loop: `n` arguments are left.
unfoldable pub read_arguments : ℕ → Reader (List PyArgument)
read_arguments zero = pure []
read_arguments (suc n) = do a ← read_argument; rest ← read_arguments n; pure (a ∷ rest)

unfoldable pub read_method : Reader MethodEntry
read_method = do
  b ← next_byte
  name ← unpack_string false
  nofargs ← next_byte
  args ← read_arguments (nofargs % 16)
  pure (record { name = name; ret_type = type_of_code (b % 64); args = args })

unfoldable pub read_methods : ℕ → Reader (List MethodEntry)
read_methods zero = pure []
read_methods (suc n) = do m ← read_method; rest ← read_methods n; pure (m ∷ rest)

module _ (py : Python) where
  -- An attribute as it is announced, with its value.
  pub record AttributeEntry : Type 0 where
    pub name : Bytes
    pub type : PyConnectType
    pub read_only : Bool
    pub value : py.Obj

  unfoldable pub read_attribute : Reader AttributeEntry
  read_attribute = do
    b ← next_byte
    name ← unpack_string false
    value ← unpack_str py (type_of_code (b % 64))
    pure (record {
      name = name;
      type = type_of_code (b % 64);
      read_only = b / 64 == 0;
      value = value;
    })

  unfoldable pub read_attributes : ℕ → Reader (List AttributeEntry)
  read_attributes zero = pure []
  read_attributes (suc n) = do a ← read_attribute; rest ← read_attributes n; pure (a ∷ rest)

  -- The body of an `ATTR_METD_EXPOSE` message.
  unfoldable pub read_expose : Reader (List AttributeEntry × List MethodEntry)
  read_expose = do
    nofattrs ← unpack_str_to_int
    attrs ← read_attributes nofattrs
    nofmetds ← unpack_str_to_int
    metds ← read_methods nofmetds
    pure (attrs, metds)
