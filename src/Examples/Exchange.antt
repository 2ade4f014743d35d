-- ===== src/Examples/Exchange.antt =====
-- The exchanges between the two sides, at the lamp.
use pyconnect.Wrapper.Isolation.{OthersStay, dispatch_type-OthersStay}
use pyconnect.Stub.Object.{PyAttribute, PyObject, new_object}
use pyconnect.Common.Types.{PyConnectType, mesg_processed_ok}
use pyconnect.Examples.{
  all_set-NonZero, fresh_wrapper, hello, home, lamp, lamp-IsSendable, lamp_name,
  lamp_name-IsSendable, lamp_object, lamp_program, level, number, one_lamp, sample_py,
}
use pyconnect.Wrapper.Input
use pyconnect.Common.Reader.{Always, Cursor, Reads, Result}
use pyconnect.Wrapper.Messages.{declare_message, desc_message, expose_body, expose_message}
use pyconnect.Stub.Messages.{assign_message}
use pyconnect.Stub.Keys.{IsRegistry}
use pyconnect.Stub.Invariant.{process_input-IsRegistry}
use pyconnect.Stub.Lock.{
  Balanced, LeavesLock, dispatch_type-LeavesLock, registry_operations-Balanced,
}
use pyconnect.Protocol.Handshake.{IsDeclared, declare_arrives, expose_arrives}
use pyconnect.Protocol.Assignment.{assignment_arrives}
use pyconnect.Base.{
  Bytes, Option, [], arith, false, map, none, pos, refl, some, true, ◌++◌, ◌∷◌, ◌≡◌,
}
use pyconnect.Wrapper.State.{Event, Wrapper, module_id_of}
use pyconnect.Stub.Expose.{read_expose}
use pyconnect.Stub.Input.{dispatch_type, process_input, process_message}
use pyconnect.Stub.Changes.{ChangesOnly, IsExposed}
use pyconnect.Stub.Registry.{
  Effect, Stub, add_new_module, delete_module_by_id, find_by_id, find_by_name, new_stub,
  shutdown_module_by_ref,
}
use pyconnect.Protocol.Exposure.{Reads-expose_body, entry_of, method_entry_of}
use pyconnect.ObjComm.Channels.{ObjectComm, cpp_module, find_or_add, python_server}
use pyconnect.ObjComm.Routing.{assigned_channel_is_used, declared_channel_is_used}

Reads-expose_body_example :
    (body : Bytes) × (expose_body lamp ≡ some body)
    × Reads
        (read_expose sample_py)
        body
        (map (entry_of sample_py) lamp.attributes, map method_entry_of lamp.methods)
Reads-expose_body_example = Reads-expose_body sample_py lamp lamp-IsSendable

one_lamp-IsRegistry : IsRegistry sample_py one_lamp
unfolding new_object
one_lamp-IsRegistry = ((omega arith, tt, omega arith), omega arith)

abbrev no_cipher : Bytes → Option Bytes
no_cipher m = some m

process_input-IsRegistry_example :
    Result
      (λ r. IsRegistry sample_py r.0)
      (process_input sample_py no_cipher (declare_message true 1 lamp) true home one_lamp)
process_input-IsRegistry_example =
    process_input-IsRegistry sample_py no_cipher (declare_message true 1 lamp) true home one_lamp
      one_lamp-IsRegistry

dispatch_type-LeavesLock_example :
    Result
      (LeavesLock sample_py true)
      (dispatch_type sample_py 49 3 home one_lamp (record { bytes = 1 ∷ []; remaining = pos 0 }))
unfolding find_by_id new_object
dispatch_type-LeavesLock_example =
    dispatch_type-LeavesLock sample_py 49 3 home one_lamp 1 [] (pos 0)

registry_operations-Balanced_example :
    Balanced sample_py (add_new_module sample_py hello [] 0 home one_lamp).1
    × Balanced sample_py (delete_module_by_id sample_py 1 one_lamp).1
    × Balanced sample_py (shutdown_module_by_ref sample_py 1 one_lamp).1
registry_operations-Balanced_example =
    registry_operations-Balanced sample_py hello [] 0 1 home one_lamp

declare_arrives_example :
    (o : PyObject sample_py) × IsDeclared sample_py true 1 lamp o
    × (c : Cursor) × (process_message sample_py
          (declare_message true 1 lamp ++ [])
          home
          (new_stub sample_py)
        ≡ some (
          (
            record (new_stub sample_py) { modules = o ∷ []; next_obj_id = 2 },
            Effect.gil_ensure
                ∷ Effect.publish lamp_name
                ∷ Effect.gil_release
                ∷ Effect.dispatch (assign_message 1 lamp_name 1) false
                ∷ [],
            mesg_processed_ok,
          ),
          c,
        ))
unfolding new_stub find_by_name
declare_arrives_example =
    declare_arrives sample_py true 1 lamp home (new_stub sample_py) [] lamp_name-IsSendable
      (omega arith) (omega arith) (all_set-NonZero lamp.desc refl) (omega arith) refl

expose_arrives_example :
    (msg : Bytes) × (expose_message 1 (pos 1) lamp ≡ some msg)
    × (s' : Stub sample_py) × (new : PyObject sample_py) × ChangesOnly sample_py 1 new one_lamp s'
    × IsExposed sample_py
        (map (entry_of sample_py) lamp.attributes)
        (map method_entry_of lamp.methods)
        lamp_object
        new
    × (c : Cursor) × (process_message sample_py (msg ++ []) home one_lamp
        ≡ some (
          (
            s',
            Effect.gil_ensure ∷ Effect.created_callback 1 ∷ Effect.gil_release ∷ [],
            mesg_processed_ok,
          ),
          c,
        ))
unfolding find_by_id new_object
expose_arrives_example =
    expose_arrives sample_py 1 1 lamp home one_lamp lamp_object [] lamp-IsSendable refl

assignment_arrives_example :
    (let w = pyconnect.Wrapper.Input.assigned 1 1 home fresh_wrapper in
      (module_id_of 1 w ≡ pos 1)
      × (msg : Bytes) × (expose_message 1 (pos 1) lamp ≡ some msg)
      × (c : Cursor) × (pyconnect.Wrapper.Input.process_message true lamp_program
            (assign_message 1 lamp_name 1 ++ [])
            home
            fresh_wrapper
          ≡ some (
            (
              w,
              Event.client_connected 1
                  ∷ Event.dispatch msg
                  ∷ Event.dispatch (desc_message 1 (pos 1) lamp)
                  ∷ [],
              mesg_processed_ok,
            ),
            c,
          )))
assignment_arrives_example =
    assignment_arrives true lamp_program 1 1 home fresh_wrapper [] lamp_name-IsSendable
      lamp-IsSendable

abbrev one_channel : ObjectComm
one_channel = record { obj_comm_map = (1, 7) ∷ (2, 8) ∷ []; active_channel = some 9 }

assigned_channel_is_used_example :
    (let (c, used) = find_or_add python_server 49 3 one_channel in
      (used ≡ some 9)
      × (c.active_channel ≡ none)
      × (find_or_add python_server 81 3 c ≡ (c, some 9)))
assigned_channel_is_used_example =
    assigned_channel_is_used 81 3 9 one_channel refl (λ e. ground arith) (λ e. ground arith) 1

declared_channel_is_used_example :
    (let (c, used) = find_or_add cpp_module 33 0 one_channel in
      (used ≡ some 9) × (c.active_channel ≡ none) × (find_or_add cpp_module 113 0 c ≡ (c, some 9)))
declared_channel_is_used_example =
    declared_channel_is_used 113 0 1 9 one_channel refl (λ e. ground arith) (λ e. ground arith)
      (omega arith)

abbrev served_wrapper : Wrapper
served_wrapper = record {
  pyconnect_module = lamp;
  server_map =
      (2, record { assigned_module_id = pos 4; attribute_update = true; addr = home }) ∷ [];
  no_response = false;
}

dispatch_type-OthersStay_example :
    Always
      (OthersStay 1 served_wrapper)
      (pyconnect.Wrapper.Input.dispatch_type true lamp_program 3 1 home served_wrapper)
dispatch_type-OthersStay_example =
    dispatch_type-OthersStay true lamp_program 3 1 home served_wrapper

abbrev pub level_attribute : PyAttribute sample_py
level_attribute = record {
  name = level.0;
  desc = [];
  type = PyConnectType.int;
  read_only = false;
  value = number;
}
