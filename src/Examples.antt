-- ===== src/Examples.antt =====
-- A lamp with two attributes and a method, Python objects of four kinds, and the theorems at them.
pub mod Stream
pub mod Encoding
pub mod Exchange
pub mod Network
pub mod Broadcast
pub mod Update
pub mod Calls
pub mod Arrival
use pyconnect.Base.{
  Bool, Bytes, [], arith, false, if◌then◌else◌, length, refl, true, ◌&&◌, ◌<◌, ◌==◌, ◌∷◌, ◌≡◌,
}
use pyconnect.Common.Types.{PyConnectType, SockAddr, codes}
use pyconnect.Common.RoundTrip.{NonZero}
use pyconnect.Common.Python.{Python, PythonLaws}
use pyconnect.Wrapper.Values.{Value}
use pyconnect.Wrapper.Module.{Attribute, Method, PyConnectModule}
use pyconnect.Wrapper.State.{CallResult, Program, Wrapper}
use pyconnect.Stub.Object.{PyObject, new_object}
use pyconnect.Stub.Registry.{Stub}
use pyconnect.Protocol.Exposure.{IsSendable, NameIsSendable}

abbrev pub lamp_name : Bytes
lamp_name = codes "Lamp"

abbrev pub level : Bytes × Attribute
level = (
  codes "level",
  record {
    desc = codes "brightness";
    type = PyConnectType.int;
    writable = true;
    value = Value.int_value 300;
  },
)

abbrev place : Bytes × Attribute
place = (
  codes "place",
  record {
    desc = codes "room";
    type = PyConnectType.string;
    writable = false;
    value = Value.string_value (codes "hall");
  },
)

abbrev pub blink : Bytes × Method
blink = (
  codes "blink",
  record {
    desc = codes "blinks";
    type = PyConnectType.py_void;
    args = record { type = PyConnectType.int; is_optional = false } ∷ [];
  },
)

abbrev pub lamp : PyConnectModule
lamp = record {
  name = lamp_name;
  desc = codes "a lamp";
  attributes = level ∷ place ∷ [];
  methods = blink ∷ [];
}

abbrev all_set : Bytes → Bool
all_set [] = true
all_set (b ∷ s) = (if b == 0 then false else true) && all_set s

pub all_set-NonZero : (s : Bytes) → all_set s ≡ true → NonZero s
all_set-NonZero [] h = tt
all_set-NonZero (b ∷ s) h = (λ e. ground arith, all_set-NonZero s (ground arith))

name_is_sendable : (s : Bytes) → all_set s ≡ true → length s < 256 → NameIsSendable s
name_is_sendable s h l = (all_set-NonZero s h, l)

pub lamp_name-IsSendable : NameIsSendable lamp_name
lamp_name-IsSendable = name_is_sendable lamp_name refl (omega arith)

pub lamp-IsSendable : IsSendable lamp
lamp-IsSendable = record {
  attributes_sendable = (
    (name_is_sendable (codes "level") refl (omega arith), refl, omega arith),
    (
      (
        name_is_sendable (codes "place") refl (omega arith),
        refl,
        (all_set-NonZero (codes "hall") refl, omega arith),
      ),
      tt,
    ),
  );
  methods_sendable =
      ((name_is_sendable (codes "blink") refl (omega arith), tt, omega arith, (tt, tt)), tt);
  few_attributes = omega arith;
  few_methods = omega arith;
}

-- Python objects of five kinds.
pub data SampleObj : Type 0 where
  number text : SampleObj
  truth : Bool → SampleObj
  no_object : SampleObj

abbrev is_number : SampleObj → Bool
is_number number = true
is_number _ = false

abbrev is_text : SampleObj → Bool
is_text text = true
is_text _ = false

abbrev is_truth : SampleObj → Bool
is_truth (truth b) = true
is_truth _ = false

abbrev truth_of : SampleObj → Bool
truth_of (truth b) = b
truth_of _ = false

abbrev is_nothing : SampleObj → Bool
is_nothing no_object = true
is_nothing _ = false

abbrev pub sample_py : Python
sample_py = record {
  Obj = SampleObj;
  int_check = is_number;
  float_check = λ _. false;
  unicode_check = is_text;
  bool_check = is_truth;
  is_true = truth_of;
  is_none = is_nothing;
  as_int = λ _. 70000;
  as_float = λ _. 0;
  as_double = λ _. 0;
  as_utf8 = λ _. codes "hall";
  from_int = λ _. number;
  from_float = λ _. number;
  from_double = λ _. number;
  from_string = λ _. text;
  from_bool = truth;
  none_object = no_object;
}

pub sample_py-PythonLaws : PythonLaws sample_py
sample_py-PythonLaws = record {
  int_range = λ _. omega arith;
  float_range = λ _. omega arith;
  double_range = λ _. omega arith;
  utf8_non_zero = λ _. all_set-NonZero (codes "hall") refl;
}

abbrev pub home : SockAddr
home = record { is_inet = true; port = 37251; ip = codes "10.0.0.2" }

abbrev pub lamp_object : PyObject sample_py
lamp_object = new_object sample_py lamp_name 1 (codes "a lamp") 0 home

abbrev pub one_lamp : Stub sample_py
one_lamp = record { server_id = 1; next_obj_id = 2; modules = lamp_object ∷ [] }

abbrev pub lamp_program : Program
lamp_program name values m = (m, CallResult.returned_void)

abbrev pub fresh_wrapper : Wrapper
fresh_wrapper = record { pyconnect_module = lamp; server_map = []; no_response = false }

abbrev pub hello : Bytes
hello = codes "hello"
