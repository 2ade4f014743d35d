-- ===== src/Examples/Calls.antt =====
-- A script calls the lamp's method and sets its level.
use pyconnect.Base.{
  Bytes, List, [], arith, bytes_eq, false, map, map_find, pos, refl, set, some, true, ◌++◌, ◌∷◌,
  ◌≡◌,
}
use pyconnect.Common.Types.{PyConnectType, mesg_processed_ok}
use pyconnect.Common.Reader.{Cursor}
use pyconnect.Common.Python.{pack_to_str, validate_type_and_size}
use pyconnect.Wrapper.State.{Event, ServerInfo, Wrapper, index_of}
use pyconnect.Wrapper.Input.{process_message}
use pyconnect.Stub.Object.{PyMethod, PyObject}
use pyconnect.Stub.Registry.{Effect}
use pyconnect.Stub.Attributes.{set_done, set_module_attribute}
use pyconnect.Protocol.Exposure.{argument_of}
use pyconnect.Protocol.Setting.{assignment_of_value_arrives}
use pyconnect.Protocol.Arguments.{argument_value}
use pyconnect.Wrapper.Values.{int_value}
use pyconnect.Examples.{
  blink, home, lamp, lamp_name, lamp_program, level, number, sample_py, sample_py-PythonLaws,
}
use pyconnect.Examples.Exchange.{level_attribute}

abbrev known_lamp : PyObject sample_py
known_lamp = record {
  id = 1;
  name = lamp_name;
  desc = [];
  no_callback = false;
  arg_eval_reversed = true;
  attrs = level_attribute ∷ level_attribute ∷ [];
  metds = [];
  dict = [];
}

abbrev blink_method : PyMethod
blink_method = record {
  name = blink.0;
  desc = [];
  ret_type = PyConnectType.py_void;
  args = map argument_of blink.1.args;
  opt_args = 0;
  id = 0;
}

abbrev server_info : ServerInfo
server_info = record { assigned_module_id = pos 1; attribute_update = true; addr = home }

abbrev calling_wrapper : Wrapper
calling_wrapper = record {
  pyconnect_module = lamp;
  server_map = (1, server_info) ∷ [];
  no_response = false;
}

assignment_of_value_arrives_example :
    (msg : Bytes) × (set_module_attribute sample_py 1 0 level_attribute number known_lamp
      ≡ (known_lamp, Effect.dispatch msg false ∷ [], set_done))
    × (events : List Event) × (c : Cursor) × (process_message true lamp_program
          (msg ++ [])
          home
          calling_wrapper
        ≡ some (
          (
            record calling_wrapper {
              pyconnect_module = record lamp {
                attributes =
                    set lamp.attributes 0 (level.0, record level.1 { value = int_value 70000 });
              };
            },
            events,
            mesg_processed_ok,
          ),
          c,
        ))
unfolding index_of bytes_eq map_find validate_type_and_size argument_value pack_to_str
assignment_of_value_arrives_example =
    assignment_of_value_arrives sample_py sample_py-PythonLaws true lamp_program level.0 level.1
      level_attribute 0 number known_lamp 1 server_info calling_wrapper home [] refl refl refl
      (λ e. ground arith) tt (omega arith) refl refl (omega arith) refl refl
