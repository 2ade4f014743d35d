-- ===== src/Stub/Registry.antt =====
-- The server's list of modules: `addNewModule`, the searches, and the two ways to remove one.
use pyconnect.Base.{
  Bool, Bytes, List, Option, [], bytes_eq, false, if◌then◌else◌, ltb, none, some, ℕ, ◌++◌, ◌+◌,
  ◌==◌, ◌∷◌,
}
use pyconnect.Common.Types.{SockAddr, codes}
use pyconnect.Common.Python.{Python}
use pyconnect.Stub.Messages.{assign_message, server_shutdown_message}
use pyconnect.Stub.Object.{CallbackArg, PyObject, new_object}

-- What an operation does besides changing the state, in order: a message for the communication
-- objects, a call of a Python function of the main script (or else of the PyConnect module), the
-- attributes of the PyConnect module, and the lock of the interpreter.
pub data Effect (py : Python) : Type 0 where
  dispatch : Bytes → Bool → Effect py
  callback : Bytes → Bytes → ℕ → Effect py
  object_callback : ℕ → Bytes → CallbackArg py → Effect py
  created_callback : ℕ → Effect py
  peer_callback : ℕ → Bytes → Effect py
  publish : Bytes → Effect py
  withdraw : Bytes → Effect py
  set_server_id : ℕ → Effect py
  gil_ensure gil_release : Effect py

module _ (py : Python) where
  pub record Stub : Type 0 where
    pub server_id : ℕ
    pub next_obj_id : ℕ
    pub modules : List (PyObject py)

  -- The constructor; `PYCONNECT_DEFAULT_SERVER_ID` is 1.
  unfoldable pub new_stub : Stub
  new_stub = record { server_id = 1; next_obj_id = 1; modules = [] }

  -- `updateMPID`.
  unfoldable pub update_mpid : ℕ → Stub → Stub × List (Effect py)
  update_mpid id s = (record s { server_id = id }, set_server_id id ∷ [])

  unfoldable pub find_by_id : ℕ → List (PyObject py) → Option (PyObject py)
  find_by_id id [] = none
  find_by_id id (o ∷ os) = let rest = find_by_id id os in if o.id == id then some o else rest

  unfoldable pub find_by_name : Bytes → List (PyObject py) → Option (PyObject py)
  find_by_name name [] = none
  find_by_name name (o ∷ os) =
      let rest = find_by_name name os in if bytes_eq o.name name then some o else rest

  -- `modules_.erase` of the first object with the identifier.
  unfoldable pub erase_id : ℕ → List (PyObject py) → List (PyObject py)
  erase_id id [] = []
  erase_id id (o ∷ os) = let rest = o ∷ erase_id id os in if o.id == id then os else rest

  -- The object with this identifier is changed in place.
  unfoldable pub replace_id : ℕ → PyObject py → List (PyObject py) → List (PyObject py)
  replace_id id new [] = []
  replace_id id new (o ∷ os) =
      let rest = o ∷ replace_id id new os in if o.id == id then new ∷ os else rest

  -- `addNewModule`, with `assignModuleID` at its end.
  unfoldable pub add_new_module : Bytes → Bytes → ℕ → SockAddr → Stub → Stub × List (Effect py)
  add_new_module name desc options addr s =
      if bytes_eq name [] then (s, []) else if ltb 0xff s.next_obj_id then (s, []) else (
        record s {
          modules = s.modules ++ (new_object py name s.next_obj_id desc options addr ∷ []);
          next_obj_id = s.next_obj_id + 1;
        },
        gil_ensure
            ∷ publish name
            ∷ gil_release
            ∷ dispatch (assign_message s.server_id name s.next_obj_id) false
            ∷ [],
      )

  -- What both removals do once the object is found.
  unfoldable pub destroy_effects : PyObject py → List (Effect py)
  destroy_effects o =
      gil_ensure
      ∷ callback (codes "onModuleDestroyed") o.name o.id
      ∷ withdraw o.name
      ∷ gil_release
      ∷ []

  -- `deleteModuleByID`.
  unfoldable pub delete_module_by_id : ℕ → Stub → Stub × List (Effect py)
  delete_module_by_id id s = elim (find_by_id id s.modules) [
    | none ↦ (s, [])
    | some o ↦ (record s { modules = erase_id id s.modules }, destroy_effects o)
  ]

  -- `shutdownModuleByRef`, where the identifier stands for the reference.
  unfoldable pub shutdown_module_by_ref : ℕ → Stub → Stub × List (Effect py)
  shutdown_module_by_ref id s = elim (find_by_id id s.modules) [
    | none ↦ (s, [])
    | some o ↦ (
      record s { modules = erase_id id s.modules },
      dispatch (server_shutdown_message s.server_id o.id) false ∷ destroy_effects o,
    )
  ]

  -- `~PyConnectStub`.
  unfoldable pub shutdown_effects : ℕ → List (PyObject py) → List (Effect py)
  shutdown_effects server_id [] = []
  shutdown_effects server_id (o ∷ os) =
      dispatch (server_shutdown_message server_id o.id) false ∷ shutdown_effects server_id os

  -- `PyConnect_disconnect` with a name; `none` is the Python error that nothing has the name.
  unfoldable pub disconnect : Bytes → Stub → Option (Stub × List (Effect py))
  disconnect name s = elim (find_by_name name s.modules) [
    | none ↦ none
    | some o ↦ some (shutdown_module_by_ref o.id s)
  ]
