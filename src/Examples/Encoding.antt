-- ===== src/Examples/Encoding.antt =====
-- Encodings and the sizes of messages, at the lamp.
use pyconnect.Examples.{hello, lamp, sample_py, sample_py-PythonLaws, text}
use mathlib.Core.Option
use pyconnect.Common.Reader.{Reads}
use pyconnect.Common.Pack.{packed_int_len}
use pyconnect.Common.Objects.{Reads-IsExact, validate_type_and_size_exact}
use pyconnect.Wrapper.Messages.{
  declare_message, declare_size, expose_message, expose_size, response_message, response_size,
}
use pyconnect.Wrapper.Bounds.{
  declare_size_exact, expose_size_exact, response_size_exact, set_string_overflow_iff,
}
use pyconnect.Stub.Messages.{
  call_and_peer_size_exact, call_message, call_size, peer_message, peer_size,
}
use pyconnect.Base.{arith, length, none, pos, refl, some, true, ◌<◌, ◌↔◌, ◌≡◌}
use pyconnect.Common.Types.{PyConnectType, attr_metd_resp, call_attr_metd, max_str_length}
use pyconnect.Common.Python.{pack_to_str, unpack_str, validate_type_and_size}
use pyconnect.Wrapper.Values.{set_string}

Reads-IsExact_example :
    Reads
      (unpack_str sample_py PyConnectType.string)
      (pack_to_str sample_py text PyConnectType.string)
      text
Reads-IsExact_example =
    Reads-IsExact sample_py sample_py-PythonLaws text PyConnectType.string (omega arith) refl

validate_type_and_size_exact_example :
    length (pack_to_str sample_py text PyConnectType.string)
    ≡ validate_type_and_size sample_py (some text) PyConnectType.string
unfolding validate_type_and_size packed_int_len
validate_type_and_size_exact_example =
    validate_type_and_size_exact sample_py text PyConnectType.string (λ e. ground arith)

set_string_overflow_iff_example : (set_string hello ≡ none) ↔ (max_str_length < length hello)
set_string_overflow_iff_example = set_string_overflow_iff hello

declare_size_exact_example : length (declare_message true 3 lamp) ≡ declare_size lamp
declare_size_exact_example = declare_size_exact true 3 lamp

response_size_exact_example :
    length (response_message attr_metd_resp 3 (pos 1) 0 (pos 200) hello)
    ≡ response_size (pos 200) hello
response_size_exact_example = response_size_exact attr_metd_resp 3 (pos 1) 0 200 hello

expose_size_exact_example : Option.map length (expose_message 3 (pos 1) lamp) ≡ expose_size lamp
expose_size_exact_example = expose_size_exact 3 (pos 1) lamp

call_and_peer_size_exact_example :
    (length (call_message call_attr_metd 1 1 2 hello) ≡ call_size 2 hello)
    × (length (peer_message 1 hello) ≡ peer_size hello)
call_and_peer_size_exact_example = call_and_peer_size_exact call_attr_metd 1 1 2 hello
