-- ===== src/Stub/Lock.antt =====
-- The interpreter's lock: every call into Python is made under it, and it is given back.
use pyconnect.Base.{
  Bool, Bytes, List, Option, Option-cases, [], arith, bytes_eq, false, if_elim, inl, inr, ltb, none,
  not, refl, some, subst, sym, true, ℕ, ℤ, ◌%◌, ◌&&◌, ◌++◌, ◌==◌, ◌||◌, ◌∷◌, ◌≡◌,
}
use pyconnect.Common.Types.{
  SockAddr, attr_metd_desc, attr_metd_expose, attr_metd_resp, attr_value_update,
  mesg_processed_failed, mesg_processed_ok, module_declare, module_shutdown, msg_code,
  peer_server_discovery, peer_server_msg,
}
use pyconnect.Common.Reader.{
  Always, Always-bind, Always-bind_of, Cursor, Reader, Result, next_byte, pure,
}
use pyconnect.Common.Pack.{unpack_le_number, unpack_string}
use pyconnect.Common.Python.{Python}
use pyconnect.Stub.Expose.{read_expose}
use pyconnect.Stub.Object.{
  PyObject, Response, on_get_attr_resp, on_set_attr_metd_desc, on_set_attr_metd_resp,
}
use pyconnect.Stub.Registry.{
  Effect, Stub, add_new_module, callback, created_callback, delete_module_by_id, destroy_effects,
  dispatch, find_by_id, find_by_name, gil_ensure, gil_release, object_callback, peer_callback,
  publish, set_server_id, shutdown_module_by_ref, withdraw,
}
use pyconnect.Stub.Input.{
  Processed, declare_found, dispatch_type, find_and_process, for_module, in_module, index_within,
  on_description, on_expose, on_module_declare, on_module_shutdown, on_peer_msg, on_response,
}

module _ (py : Python) where
  -- The lock after an effect. A call into Python without it, and taking it twice, are errors.
  unfoldable pub lock_step : Bool → Effect py → Option Bool
  lock_step held (dispatch m b) = some held
  lock_step true (callback f name id) = some true
  lock_step true (object_callback id f v) = some true
  lock_step true (created_callback id) = some true
  lock_step true (peer_callback id m) = some true
  lock_step true (publish name) = some true
  lock_step true (withdraw name) = some true
  lock_step true (set_server_id id) = some true
  lock_step false gil_ensure = some true
  lock_step true gil_release = some false
  lock_step _ _ = none

  unfoldable pub run_lock : Bool → List (Effect py) → Option Bool
  run_lock held [] = some held
  run_lock held (e ∷ es) = elim (lock_step held e) [ none ↦ none | some held' ↦ run_lock held' es ]

  run_lock-append :
      (b b' : Bool) (xs ys : List (Effect py))
      → run_lock b xs ≡ some b'
      → run_lock b (xs ++ ys) ≡ run_lock b' ys
  unfolding run_lock
  run_lock-append b b' [] ys h = ground arith
  run_lock-append b b' (x ∷ xs) ys h = elim (Option-cases (lock_step b x)) [
    | inl e ↦ ground arith
    | inr (b₁, e) ↦ ground (arith, run_lock-append b₁ b' xs ys)
  ]

  -- The lock is free before and after, and every call is made while it is held.
  abbrev pub Balanced : List (Effect py) → Type 0
  Balanced es = run_lock false es ≡ some false

  abbrev pub is_module_message : ℕ → Bool
  is_module_message t =
      (t == msg_code attr_metd_expose)
      || (t == msg_code attr_metd_resp)
      || (t == msg_code attr_value_update)
      || (t == msg_code attr_metd_desc)

  -- The types that `processInput` has a case for.
  abbrev pub is_handled : ℕ → Bool
  is_handled t =
      (t == 0)
      || (t == msg_code module_declare)
      || (t == msg_code module_shutdown)
      || (t == msg_code peer_server_msg)
      || (t == msg_code peer_server_discovery)
      || is_module_message t

  abbrev is_there : Option (PyObject py) → Bool
  is_there none = false
  is_there (some o) = true

  -- Whether the lock is held after the effects, all of which were allowed.
  abbrev pub LeavesLock : Bool → Processed py → Type 0
  LeavesLock held r = run_lock false r.1 ≡ some held

  abbrev Calls : Reader (PyObject py × List (Effect py)) → Type 0
  Calls p = Always (λ r. run_lock true r.1 ≡ some true) p

  in_module-LeavesLock :
      (id : ℕ) (o : PyObject py) (s : Stub py) (p : Reader (PyObject py × List (Effect py)))
      → Calls p
      → Always (LeavesLock false) (in_module py id o s p)
  unfolding in_module run_lock lock_step
  in_module-LeavesLock id o s p h =
      Always-bind_of _ p _ h
        λ r e. Always-bind _ next_byte _ λ _ c. run_lock-append true true r.1 (gil_release ∷ []) e

  on_expose-Calls : (o : PyObject py) → Calls (on_expose py o)
  unfolding on_expose run_lock lock_step
  on_expose-Calls o = Always-bind _ (read_expose py) _ λ e c. refl

  on_response-Calls :
      (handler : ℕ → ℕ → PyObject py → Reader (Response py)) (o : PyObject py)
      → Calls (on_response py handler o)
  unfolding on_response run_lock lock_step
  on_response-Calls handler o = Always-bind _ next_byte _ λ err.
      Always-bind _ (unpack_le_number 4) _ λ datalen.
        Always-bind _ (index_within datalen) _
          λ amind. Always-bind _ (handler amind (err % 16) o) _ (λ r c. refl)

  on_description-Calls : (o : PyObject py) → Calls (on_description py o)
  unfolding on_description run_lock
  on_description-Calls o = Always-bind _ (on_set_attr_metd_desc py o) _ (λ r c. refl)

  -- A branch that leaves the lock free, for a type that is known.
  known :
      (b : Bool) (p : Reader (Processed py))
      → b ≡ true
      → Always (LeavesLock false) p
      → Always (LeavesLock (not b)) p
  known b p e h = subst (λ k. Always (LeavesLock (not k)) p) (sym e) h

  for_module-LeavesLock :
      (t id : ℕ) (o : PyObject py) (s : Stub py)
      → Always (LeavesLock (not (is_module_message t))) (for_module py t id o s)
  unfolding for_module run_lock lock_step
  for_module-LeavesLock t id o s =
      let P : Reader (Processed py) → Type 0 = Always (LeavesLock (not (is_module_message t))) in
      let leaves : (p : Reader (PyObject py × List (Effect py)))
          → is_module_message t ≡ true
          → Calls p
          → Always (LeavesLock (not (is_module_message t))) (in_module py id o s p) =
        λ p e h.
          known (is_module_message t) (in_module py id o s p) e (in_module-LeavesLock id o s p h) in
      if_elim P (t == msg_code attr_metd_expose) _ _
        (λ a. leaves _ (ground (arith, a)) (on_expose-Calls o))
        λ a.
          if_elim P (t == msg_code attr_metd_resp) _ _
            (λ b. leaves _ (ground (arith, b)) (on_response-Calls (on_set_attr_metd_resp py) o))
            λ b.
              if_elim P (t == msg_code attr_value_update) _ _
                (λ d. leaves _ (ground (arith, d)) (on_response-Calls (on_get_attr_resp py) o))
                λ d.
                  if_elim P (t == msg_code attr_metd_desc) _ _
                    (λ e. leaves _ (ground (arith, e)) (on_description-Calls o))
                    (λ e c. rw (a, b, d, e) refl)

  find_and_process-LeavesLock :
      (t id : ℕ) (s : Stub py)
      → Always
          (LeavesLock (not (is_module_message t) && is_there (find_by_id py id s.modules)))
          (find_and_process py t id s)
  unfolding find_and_process run_lock
  find_and_process-LeavesLock t id s = elim (Option-cases (find_by_id py id s.modules)) [
    | inl e ↦ rw (e, find_and_process) (λ c. ground arith)
    | inr (o, e) ↦
        rw (e, find_and_process)
          (let same : not (is_module_message t) ≡ (not (is_module_message t) && true) =
              ground arith in
            subst (λ k. Always (LeavesLock k) (for_module py t id o s)) same
              (for_module-LeavesLock t id o s))
  ]

  -- `addNewModule` and both removals take the lock around what they publish and call.
  pub registry_operations-Balanced :
      (name desc : Bytes) (options id : ℕ) (addr : SockAddr) (s : Stub py)
      → Balanced (add_new_module py name desc options addr s).1
        × Balanced (delete_module_by_id py id s).1
        × Balanced (shutdown_module_by_ref py id s).1
  unfolding add_new_module delete_module_by_id shutdown_module_by_ref destroy_effects run_lock
      lock_step
  registry_operations-Balanced name desc options id addr s = (
    if_elim (λ (r : Stub py × List (Effect py)). Balanced r.1) (bytes_eq name []) _ _ (λ _. refl)
        λ _.
          if_elim (λ (r : Stub py × List (Effect py)). Balanced r.1) (ltb 0xff s.next_obj_id) _ _
            (λ _. refl) (λ _. refl),
    elim (Option-cases (find_by_id py id s.modules)) [
      | inl e ↦ rw (e, delete_module_by_id) refl
      | inr (o, e) ↦ rw (e, delete_module_by_id) refl
    ],
    elim (Option-cases (find_by_id py id s.modules)) [
      | inl e ↦ rw (e, shutdown_module_by_ref) refl
      | inr (o, e) ↦ rw (e, shutdown_module_by_ref) refl
    ],
  )

  declare_found-LeavesLock :
      (name : Bytes) (options : ℕ) (addr : SockAddr) (s : Stub py)
      → Always (LeavesLock false) (declare_found py name options addr s)
  unfolding declare_found run_lock
  declare_found-LeavesLock name options addr s =
      elim (Option-cases (find_by_name py name s.modules)) [
        | inl e ↦
            rw (e, declare_found)
              (Always-bind _ (unpack_string true) _
                λ desc c. (registry_operations-Balanced name desc options 0 addr s).0)
        | inr (o, e) ↦ rw (e, declare_found) (λ c. refl)
      ]

  -- Whatever message arrives with a byte behind its header: every call into Python is made while the
  -- interpreter's lock is held, and the lock is free afterwards, except exactly when `processInput`
  -- has no case for the message's type and an object has the identifier in the four low bits of that
  -- byte; then the lock stays taken.
  pub dispatch_type-LeavesLock :
      (header t : ℕ) (addr : SockAddr) (s : Stub py) (b : ℕ) (bytes : Bytes) (n : ℤ)
      → Result
          (LeavesLock (not (is_handled t) && is_there (find_by_id py (b % 16) s.modules)))
          (dispatch_type py header t addr s (record { bytes = b ∷ bytes; remaining = n }))
  unfolding dispatch_type on_module_declare on_module_shutdown on_peer_msg run_lock lock_step
      next_byte
  dispatch_type-LeavesLock header t addr s b bytes n =
      let c : Cursor = record { bytes = b ∷ bytes; remaining = n } in
      let there : Bool = is_there (find_by_id py (b % 16) s.modules) in
      let P : Reader (Processed py) → Type 0 =
        λ p. Result (LeavesLock (not (is_handled t) && there)) (p c) in
      let leaves : (p : Reader (Processed py))
          → is_handled t ≡ true
          → Always (LeavesLock false) p
          → P p =
        λ p e h. subst (λ k. Result (LeavesLock (not k && there)) (p c)) (sym e) (h c) in
      if_elim P (t == 0) _ _
        (λ a. leaves (pure (s, [], mesg_processed_failed)) (ground (arith, a)) (λ c. refl))
        λ a₀.
          if_elim P (t == msg_code module_declare) _ _
            (λ a. leaves _ (ground (arith, a)) (
              Always-bind _ next_byte _ λ options.
                Always-bind _ (unpack_string false) _
                  λ name. declare_found-LeavesLock name options addr s))
            λ a₁.
              if_elim P (t == msg_code module_shutdown) _ _
                (λ a. leaves (on_module_shutdown py s) (ground (arith, a)) (
                  Always-bind _ next_byte _
                    λ b c. (registry_operations-Balanced [] [] 0 (b % 16) addr s).1))
                λ a₂.
                  if_elim P (t == msg_code peer_server_msg) _ _
                    (λ a.
                      leaves _ (ground (arith, a))
                        (Always-bind _ (unpack_string true) _ λ mesg c. refl))
                    λ a₃.
                      if_elim P (t == msg_code peer_server_discovery) _ _
                        (λ a.
                          leaves (pure (s, [], mesg_processed_ok)) (ground (arith, a)) (λ c. refl))
                        (λ a₄.
                          let same : is_handled t ≡ is_module_message t = ground arith in
                          subst
                            (λ k. Result (LeavesLock (not k && there)) (
                              find_and_process py t (b % 16) s
                                (record { bytes = bytes; remaining = n })))
                            (sym same)
                            (find_and_process-LeavesLock t (b % 16) s
                              (record { bytes = bytes; remaining = n })))
