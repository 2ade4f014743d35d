-- ===== src/Stub/Invariant.antt =====
-- Every message leaves the list of modules in order.
use pyconnect.Base.{
  Bool, Bytes, List, Option, Option-cases, [], bytes_eq, false, get_elem?, if_elim, inl, inr,
  length, ltb, none, refl, some, subst, sym, tests, true, ℕ, ◌%◌, ◌-◌, ◌/◌, ◌==◌, ◌∙◌, ◌∷◌, ◌≡◌,
}
use pyconnect.Common.Types.{
  SockAddr, attr_metd_desc, attr_metd_expose, attr_metd_resp, attr_value_update, module_declare,
  module_shutdown, msg_code, peer_server_discovery, peer_server_msg,
}
use pyconnect.Common.Reader.{
  Always, Always-bind, Always-bind_of, Reader, Result, Result-bind, next_byte,
}
use pyconnect.Common.Pack.{unpack_le_number, unpack_str_to_int, unpack_string}
use pyconnect.Common.Python.{Python, unpack_str}
use pyconnect.Stub.Expose.{AttributeEntry, MethodEntry, read_expose}
use pyconnect.Stub.Object.{
  PyAttribute, PyMethod, PyObject, Response, add_attribute, add_attributes, add_method, add_methods,
  describe_attributes, describe_methods, get_attr_resp, metd_resp, new_object, on_get_attr_resp,
  on_set_attr_metd_desc, on_set_attr_metd_resp, set_attr_resp, set_attr_value,
}
use pyconnect.Stub.Registry.{
  Effect, Stub, add_new_module, delete_module_by_id, find_by_id, find_by_name,
  shutdown_module_by_ref,
}
use pyconnect.Stub.Keys.{
  AreKeys, AreKeys-erase_id, AreKeys-snoc, HasKeyOf, IsRegistry, key, keys-replace_id,
}
use pyconnect.Stub.Input.{
  Processed, declare_found, dispatch_type, find_and_process, for_module, in_module, index_within,
  on_description, on_expose, on_module_declare, on_module_shutdown, on_peer_msg, on_response,
  process_input, process_message,
}

module _ (py : Python) where
  -- `addNewModule` keeps the list in order, for a name that no module has.
  pub add_new_module-IsRegistry :
      (name desc : Bytes) (options : ℕ) (addr : SockAddr) (s : Stub py)
      → IsRegistry py s
      → find_by_name py name s.modules ≡ none
      → IsRegistry py (add_new_module py name desc options addr s).0
  unfolding add_new_module new_object
  add_new_module-IsRegistry name desc options addr s (h, b) e =
      if_elim (λ (r : Stub py × List (Effect py)). IsRegistry py r.0) (bytes_eq name []) _ _
        (λ _. (h, b))
        λ _.
          if_elim (λ (r : Stub py × List (Effect py)). IsRegistry py r.0) (ltb 0xff s.next_obj_id) _
            _ (λ _. (h, b)) λ l. (AreKeys-snoc py 1 s.modules s.next_obj_id _ h e refl, omega tests)

  -- Both removals keep the list in order.
  pub delete_module_by_id-IsRegistry :
      (id : ℕ) (s : Stub py) → IsRegistry py s → IsRegistry py (delete_module_by_id py id s).0
  unfolding delete_module_by_id
  delete_module_by_id-IsRegistry id s (h, b) = elim (Option-cases (find_by_id py id s.modules)) [
    | inl e ↦ rw (e, delete_module_by_id) (h, b)
    | inr (o, e) ↦
        rw (e, delete_module_by_id) (AreKeys-erase_id py 1 id s.modules s.next_obj_id h, b)
  ]

  pub shutdown_module_by_ref-IsRegistry :
      (id : ℕ) (s : Stub py) → IsRegistry py s → IsRegistry py (shutdown_module_by_ref py id s).0
  unfolding shutdown_module_by_ref
  shutdown_module_by_ref-IsRegistry id s (h, b) = elim (Option-cases (find_by_id py id s.modules)) [
    | inl e ↦ rw (e, shutdown_module_by_ref) (h, b)
    | inr (o, e) ↦
        rw (e, shutdown_module_by_ref) (AreKeys-erase_id py 1 id s.modules s.next_obj_id h, b)
  ]

  add_attributes-HasKeyOf :
      (es : List (AttributeEntry py)) (o : PyObject py) → key py (add_attributes py es o) ≡ key py o
  unfolding add_attributes add_attribute
  add_attributes-HasKeyOf [] o = refl
  add_attributes-HasKeyOf (e ∷ es) o = add_attributes-HasKeyOf es (add_attribute py e o)

  add_methods-HasKeyOf :
      (es : List MethodEntry) (o : PyObject py) → key py (add_methods py es o) ≡ key py o
  unfolding add_methods add_method
  add_methods-HasKeyOf [] o = refl
  add_methods-HasKeyOf (e ∷ es) o = add_methods-HasKeyOf es (add_method py e o)

  abbrev Keeps : PyObject py → Reader (PyObject py × List (Effect py)) → Type 0
  Keeps o p = Always (λ r. HasKeyOf py o r.0) p

  abbrev Answers : PyObject py → Reader (Response py) → Type 0
  Answers o p = Always (λ r. HasKeyOf py o r.0) p

  set_attr_resp-Keeps :
      (i : ℕ) (a : PyAttribute py) (err : ℕ) (o : PyObject py)
      → Answers o (set_attr_resp py i a err o)
  unfolding set_attr_resp set_attr_value
  set_attr_resp-Keeps i a err o =
      if_elim (Answers o) (err == 0) _ _ (λ _. Always-bind _ (unpack_str py a.type) _ (λ v c. refl))
        (λ _ c. refl)

  metd_resp-Keeps : (m : PyMethod) (err : ℕ) (o : PyObject py) → Answers o (metd_resp py m err o)
  unfolding metd_resp
  metd_resp-Keeps m err o =
      if_elim (Answers o) (err == 0) _ _
        (λ _. Always-bind _ (unpack_str py m.ret_type) _ (λ v c. refl)) (λ _ c. refl)

  get_attr_resp-Keeps :
      (i : ℕ) (a : PyAttribute py) (err : ℕ) (o : PyObject py)
      → Answers o (get_attr_resp py i a err o)
  unfolding get_attr_resp set_attr_value
  get_attr_resp-Keeps i a err o =
      if_elim (Answers o) (err == 0) _ _ (λ _. Always-bind _ (unpack_str py a.type) _ (λ v c. refl))
        (λ _ c. refl)

  on_set_attr_metd_resp-Keeps :
      (i err : ℕ) (o : PyObject py) → Answers o (on_set_attr_metd_resp py i err o)
  unfolding on_set_attr_metd_resp
  on_set_attr_metd_resp-Keeps i err o = elim (Option-cases (get_elem? o.attrs i)) [
    | inr (a, e) ↦ rw (e, on_set_attr_metd_resp) (set_attr_resp-Keeps i a err o)
    | inl e ↦ elim (Option-cases (get_elem? o.metds (i - length o.attrs))) [
      | inr (m, e') ↦ rw (e, e', on_set_attr_metd_resp) (metd_resp-Keeps m err o)
      | inl e' ↦ rw (e, e', on_set_attr_metd_resp) (λ c. refl)
    ]
  ]

  on_get_attr_resp-Keeps : (i err : ℕ) (o : PyObject py) → Answers o (on_get_attr_resp py i err o)
  unfolding on_get_attr_resp
  on_get_attr_resp-Keeps i err o = elim (Option-cases (get_elem? o.attrs i)) [
    | inr (a, e) ↦ rw (e, on_get_attr_resp) (get_attr_resp-Keeps i a err o)
    | inl e ↦ rw (e, on_get_attr_resp) (λ c. refl)
  ]

  on_expose-Keeps : (o : PyObject py) → Keeps o (on_expose py o)
  unfolding on_expose
  on_expose-Keeps o =
      Always-bind _ (read_expose py) _
        λ e c. add_methods-HasKeyOf e.1 (add_attributes py e.0 o) ∙ add_attributes-HasKeyOf e.0 o

  on_response-Keeps :
      (handler : ℕ → ℕ → PyObject py → Reader (Response py)) (o : PyObject py)
      → ((i err : ℕ) → Answers o (handler i err o))
      → Keeps o (on_response py handler o)
  unfolding on_response
  on_response-Keeps handler o h = Always-bind _ next_byte _ λ err.
      Always-bind _ (unpack_le_number 4) _ λ datalen.
        Always-bind _ (index_within datalen) _
          λ amind. Always-bind_of _ (handler amind (err % 16) o) _ (h amind (err % 16)) (λ r k c. k)

  on_description-Keeps : (o : PyObject py) → Keeps o (on_description py o)
  unfolding on_description on_set_attr_metd_desc
  on_description-Keeps o = Always-bind_of _ (on_set_attr_metd_desc py o) _ described (λ r k c. k)
    where
      described : Always (λ r. HasKeyOf py o r) (on_set_attr_metd_desc py o)
      described = Always-bind _ unpack_str_to_int _ λ n.
          Always-bind _ (describe_attributes py n o.attrs) _ λ attrs.
            Always-bind _ unpack_str_to_int _
              λ k. Always-bind _ (describe_methods py k o.metds) _ λ metds c. refl

  abbrev InOrder : Reader (Processed py) → Type 0
  InOrder p = Always (λ r. IsRegistry py r.0) p

  in_module-InOrder :
      (id : ℕ) (o : PyObject py) (s : Stub py) (p : Reader (PyObject py × List (Effect py)))
      → IsRegistry py s
      → find_by_id py id s.modules ≡ some o
      → Keeps o p
      → InOrder (in_module py id o s p)
  unfolding in_module
  in_module-InOrder id o s p (h, b) e k = Always-bind_of _ p _ k λ r same.
      Always-bind _ next_byte _ λ _ c. (
        subst (λ ks. AreKeys 1 ks s.next_obj_id)
            (sym (keys-replace_id py id o r.0 s.modules e same)) h,
        b,
      )

  for_module-InOrder :
      (msg_type id : ℕ) (o : PyObject py) (s : Stub py)
      → IsRegistry py s
      → find_by_id py id s.modules ≡ some o
      → InOrder (for_module py msg_type id o s)
  unfolding for_module
  for_module-InOrder msg_type id o s h e =
      if_elim InOrder (msg_type == msg_code attr_metd_expose) _ _
        (λ _. in_module-InOrder id o s _ h e (on_expose-Keeps o))
        λ _.
          if_elim InOrder (msg_type == msg_code attr_metd_resp) _ _
            (λ _. in_module-InOrder id o s _ h e (
              on_response-Keeps (on_set_attr_metd_resp py) o
                (λ i err. on_set_attr_metd_resp-Keeps i err o)))
            λ _.
              if_elim InOrder (msg_type == msg_code attr_value_update) _ _
                (λ _. in_module-InOrder id o s _ h e (
                  on_response-Keeps (on_get_attr_resp py) o
                    (λ i err. on_get_attr_resp-Keeps i err o)))
                λ _.
                  if_elim InOrder (msg_type == msg_code attr_metd_desc) _ _
                    (λ _. in_module-InOrder id o s _ h e (on_description-Keeps o)) (λ _ c. h)

  find_and_process-InOrder :
      (msg_type id : ℕ) (s : Stub py)
      → IsRegistry py s
      → InOrder (find_and_process py msg_type id s)
  unfolding find_and_process
  find_and_process-InOrder msg_type id s h = elim (Option-cases (find_by_id py id s.modules)) [
    | inl e ↦ rw (e, find_and_process) (λ c. h)
    | inr (o, e) ↦ rw (e, find_and_process) (for_module-InOrder msg_type id o s h e)
  ]

  declare_found-InOrder :
      (name : Bytes) (options : ℕ) (addr : SockAddr) (s : Stub py)
      → IsRegistry py s
      → InOrder (declare_found py name options addr s)
  unfolding declare_found
  declare_found-InOrder name options addr s h =
      elim (Option-cases (find_by_name py name s.modules)) [
        | inl e ↦
            rw (e, declare_found)
              (Always-bind _ (unpack_string true) _
                λ desc c. add_new_module-IsRegistry name desc options addr s h e)
        | inr (o, e) ↦ rw (e, declare_found) (λ c. h)
      ]

  dispatch_type-InOrder :
      (header msg_type : ℕ) (addr : SockAddr) (s : Stub py)
      → IsRegistry py s
      → InOrder (dispatch_type py header msg_type addr s)
  unfolding dispatch_type on_module_declare on_module_shutdown on_peer_msg
  dispatch_type-InOrder header msg_type addr s h =
      if_elim InOrder (msg_type == 0) _ _ (λ _ c. h)
        λ _.
          if_elim InOrder (msg_type == msg_code module_declare) _ _
            (λ _. Always-bind _ next_byte _ λ options.
              Always-bind _ (unpack_string false) _
                λ name. declare_found-InOrder name options addr s h)
            λ _.
              if_elim InOrder (msg_type == msg_code module_shutdown) _ _
                (λ _. Always-bind _ next_byte _ λ b c. delete_module_by_id-IsRegistry (b % 16) s h)
                λ _.
                  if_elim InOrder (msg_type == msg_code peer_server_msg) _ _
                    (λ _. Always-bind _ (unpack_string true) _ λ mesg c. h)
                    λ _.
                      if_elim InOrder (msg_type == msg_code peer_server_discovery) _ _ (λ _ c. h)
                        (λ _.
                          Always-bind _ next_byte _
                            λ b. find_and_process-InOrder msg_type (b % 16) s h)

  -- Whatever bytes arrive, from whatever address, encrypted or not: a message that is processed leaves
  -- the modules with identifiers that rise, were given before and fit a byte, and with names that
  -- differ, if they were so before.
  pub process_input-IsRegistry :
      (decrypt : Bytes → Option Bytes) (rec_data : Bytes) (skipdecrypt : Bool) (addr : SockAddr)
      (s : Stub py)
      → IsRegistry py s
      → Result (λ r. IsRegistry py r.0) (process_input py decrypt rec_data skipdecrypt addr s)
  unfolding process_input process_message
  process_input-IsRegistry decrypt rec_data skipdecrypt addr s h =
      if_elim (Result (λ r. IsRegistry py r.0)) (length rec_data == 0) _ _ (λ _. h)
        λ _.
          if_elim (Result (λ r. IsRegistry py r.0)) skipdecrypt _ _ (λ _. plain rec_data)
            λ _. elim (Option-cases (decrypt rec_data)) [
              | inl e ↦ rw e h
              | inr (m, e) ↦ rw e (plain m)
            ]
    where
      plain : (memory : Bytes) → Result (λ r. IsRegistry py r.0) (process_message py memory addr s)
      plain memory =
          Result-bind _ (next_byte _) _
            λ header. dispatch_type-InOrder header (header / 16 % 16) addr s h
