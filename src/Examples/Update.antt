-- ===== src/Examples/Update.antt =====
-- The lamp's level on its way to the server.
use pyconnect.Base.{Bytes, [], arith, get_elem?, map_find, pos, refl, some, true, ◌++◌, ◌∷◌, ◌≡◌}
use pyconnect.Common.Types.{attr_value_update, codes, mesg_processed_ok, no_errors}
use pyconnect.Common.Reader.{Cursor}
use pyconnect.Wrapper.Values.{int_value}
use pyconnect.Wrapper.State.{Event, Wrapper, module_id_of, post_attr_metd_data}
use pyconnect.Stub.Object.{PyObject, new_object, value_arg}
use pyconnect.Stub.Changes.{ChangesOnly}
use pyconnect.Stub.Registry.{Effect, Stub, find_by_id, object_callback}
use pyconnect.Protocol.Exposure.{object_of}
use pyconnect.Protocol.Update.{update_arrives}
use pyconnect.Examples.{fresh_wrapper, home, lamp_object, one_lamp, sample_py}
use pyconnect.Examples.Exchange.{level_attribute}

abbrev lit_lamp : PyObject sample_py
lit_lamp = record lamp_object { attrs = level_attribute ∷ [] }

abbrev relit_lamp : PyObject sample_py
relit_lamp = record lamp_object {
  attrs = record level_attribute { value = object_of sample_py (int_value 300) } ∷ [];
}

abbrev one_lit_lamp : Stub sample_py
one_lit_lamp = record one_lamp { modules = lit_lamp ∷ [] }

abbrev known_wrapper : Wrapper
known_wrapper = record fresh_wrapper {
  server_map =
      (1, record { assigned_module_id = pos 1; attribute_update = true; addr = home }) ∷ [];
}

update_arrives_example :
    (msg : Bytes) × (post_attr_metd_data attr_value_update no_errors 0
        (int_value 300)
        1
        known_wrapper
      ≡ some (Event.dispatch msg))
    × (s' : Stub sample_py) × ChangesOnly sample_py 1 relit_lamp one_lit_lamp s'
    × (get_elem? relit_lamp.attrs 0
        ≡ some (record level_attribute { value = object_of sample_py (int_value 300) }))
    × (c : Cursor) × (pyconnect.Stub.Input.process_message sample_py (msg ++ []) home one_lit_lamp
        ≡ some (
          (
            s',
            Effect.gil_ensure
                ∷ object_callback 1
                    (codes "onlevelUpdate")
                    (value_arg (object_of sample_py (int_value 300)))
                ∷ Effect.gil_release
                ∷ [],
            mesg_processed_ok,
          ),
          c,
        ))
unfolding find_by_id new_object module_id_of map_find
update_arrives_example =
    update_arrives sample_py 0 (int_value 300) level_attribute lit_lamp (omega arith) refl refl 1 1
      home known_wrapper one_lit_lamp [] (omega arith) refl refl
