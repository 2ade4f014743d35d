-- ===== src/Wrapper/Isolation.antt =====
-- What a message from one server leaves of what the wrapper knows of the others.
use pyconnect.Common.Types.{
  SockAddr, attr_value_update, call_attr_metd, call_attr_metd_nocb, get_attr_metd_desc,
  index_mismatch, module_assign_id, module_discovery, msg_code, no_errors, server_shutdown,
}
use pyconnect.Common.Pack.{unpack_str_to_int, unpack_string}
use pyconnect.Wrapper.Input.{
  Processed, assign_named, assigned, call_index, describe, dispatch_type, ended, expose_events,
  finish, for_known_server, for_server, is_assigned, on_assign_id, on_call, on_discovery,
  on_get_desc, on_get_value, on_server_shutdown, read_index,
}
use mathlib.Core.Option
use pyconnect.Base.{
  Bool, Bool-cases, Bytes, List, Option, Option-cases, [], ap, arith, bytes_eq, false, get_elem?,
  if_elim, if◌then◌else◌, inl, inr, length, map_find, map_find-map_assign, map_find-map_erase,
  ne→==, none, pos, refl, some, true, ℕ, ◌+◌, ◌-◌, ◌==◌, ◌∷◌, ◌≡◌, ◌≢◌, ◌⊎◌,
}
use pyconnect.Common.Reader.{
  Always, Always-bind, Always-bind_of, Reader, Result, Result-bind, next_byte,
}
use pyconnect.Wrapper.Values.{Value, get_data}
use pyconnect.Wrapper.Module.{Attribute, Method}
use pyconnect.Wrapper.State.{
  Event, Handled, Program, Wrapper, call_method, index_of, read_backwards, read_forwards,
  result_events, run_method, set_attr, store_value, update_attribute, validate_index,
}

-- The servers that are known, and what is known of them, stay.
abbrev Keeps : Wrapper → Reader Handled → Type 0
Keeps w p = Always (λ h. h.0.server_map ≡ w.server_map) p

abbrev Kept : Wrapper → Handled → Type 0
Kept w h = h.0.server_map ≡ w.server_map

set_attr-Keeps :
    (index : ℕ) (name : Bytes) (a : Attribute) (w : Wrapper) → Keeps w (set_attr index name a w)
unfolding set_attr store_value
set_attr-Keeps index name a w c =
    if_elim (Result (Kept w)) a.writable _ _
      (λ _.
        Result-bind (Kept w)
          (get_data a.type (validate_index index name w.pyconnect_module.attributes) c) _
          λ r c'. elim (Option-cases (update_attribute name r.0 (store_value index name a r.0 w))) [
            | inl e ↦ rw e tt
            | inr (es, e) ↦ rw e refl
          ])
      (λ _. tt)

run_method-server_map :
    (program : Program) (index : ℕ) (name : Bytes) (m : Method) (values : List Value) (id : ℕ)
    (w : Wrapper) (h : Handled)
    → run_method program index name m values id w ≡ some h
    → Kept w h
unfolding run_method
run_method-server_map program index name m values id w h e =
    let r = program name values w.pyconnect_module in
    let w' = record w { pyconnect_module = r.0 } in
    elim (Option-cases (result_events r.1 index id w')) [
      | inl n ↦ ground (arith, n)
      | inr (es, n) ↦ ground (arith, n)
    ]

pub validate_index-cases :
    {V : Type 0} (index : ℕ) (name : Bytes) (m : List (Bytes × V))
    → (validate_index index name m ≡ no_errors) ⊎ (validate_index index name m ≡ index_mismatch)
unfolding validate_index
validate_index-cases index name m = elim (Bool-cases (index_of name m == index)) [
  | inl e ↦ inl (rw e refl)
  | inr e ↦ inr (rw e refl)
]

call_method-Keeps :
    (clang : Bool) (program : Program) (id : ℕ) (name : Bytes) (m : Method) (server_id : ℕ)
    (w : Wrapper)
    → Keeps w (call_method clang program id name m server_id w)
unfolding call_method
call_method-Keeps clang program id name m server_id w c =
    let index = length w.pyconnect_module.attributes + id in
    elim (validate_index-cases id name w.pyconnect_module.methods) [
      | inl e ↦
          rw (e, call_method)
            (Result-bind (Kept w)
              (if clang
                then read_forwards m.args no_errors c
                else read_backwards m.args no_errors c)
              _
              λ r c'. elim (Option-cases (run_method program index name m r.0 server_id w)) [
                | inl n ↦ rw n tt
                | inr (h, n) ↦ rw n (run_method-server_map program index name m r.0 server_id w h n)
              ])
      | inr e ↦ rw (e, call_method) refl
    ]

call_index-Keeps :
    (clang : Bool) (program : Program) (index server_id : ℕ) (w : Wrapper)
    → Keeps w (call_index clang program index server_id w)
unfolding call_index
call_index-Keeps clang program index server_id w =
    elim (Option-cases (get_elem? w.pyconnect_module.attributes index)) [
      | inr ((name, a), e) ↦ rw (e, call_index) (set_attr-Keeps index name a w)
      | inl e ↦
          let metd_id = index - length w.pyconnect_module.attributes in
          elim (Option-cases (get_elem? w.pyconnect_module.methods metd_id)) [
            | inr ((name, m), e') ↦
                rw (e, e', call_index) (call_method-Keeps clang program metd_id name m server_id w)
            | inl e' ↦ rw (e, e', call_index) (λ c. tt)
          ]
    ]

finish-Keeps : (w : Wrapper) (o : Option Event) → Keeps w (finish (Option.map (λ e. (w, e ∷ [])) o))
unfolding finish
finish-Keeps w none c = tt
finish-Keeps w (some e) c = refl

on_get_value-Keeps : (server_id : ℕ) (w : Wrapper) → Keeps w (on_get_value server_id w)
unfolding on_get_value
on_get_value-Keeps server_id w = Always-bind (Kept w) read_index _ λ index.
    elim (Option-cases (get_elem? w.pyconnect_module.attributes index)) [
      | inl e ↦ rw (e, on_get_value) (λ c. refl)
      | inr ((name, a), e) ↦ rw (e, on_get_value) (finish-Keeps w _)
    ]

on_call-Keeps :
    (clang : Bool) (program : Program) (nocb : Bool) (server_id : ℕ) (w : Wrapper)
    → Keeps w (on_call clang program nocb server_id w)
unfolding on_call
on_call-Keeps clang program nocb server_id w = Always-bind (Kept w) read_index _ λ index.
    let w' = record w { no_response = nocb } in
    Always-bind_of (Kept w) (call_index clang program index server_id w') _
      (call_index-Keeps clang program index server_id w') (λ h k c. k)

on_get_desc-Keeps : (server_id : ℕ) (w : Wrapper) → Keeps w (on_get_desc server_id w)
unfolding on_get_desc
on_get_desc-Keeps server_id w =
    Always-bind (Kept w) (λ c. unpack_str_to_int (record c { remaining = pos 1 })) _
      λ index. finish-Keeps w (describe index server_id w)

-- What is known of each other server stays.
abbrev pub OthersStay : ℕ → Wrapper → Processed → Type 0
OthersStay server_id w r =
    (other : ℕ) → other ≢ server_id → map_find r.0.server_map other ≡ map_find w.server_map other

ended-OthersStay :
    (server_id : ℕ) (w : Wrapper) (p : Reader Handled)
    → Keeps w p
    → Always (OthersStay server_id w) (ended p)
unfolding ended
ended-OthersStay server_id w p h = Always-bind_of (OthersStay server_id w) p _ h λ r k.
    Always-bind (OthersStay server_id w) next_byte _ λ _ c other n. ap (λ m. map_find m other) k

for_server-OthersStay :
    (clang : Bool) (program : Program) (t server_id : ℕ) (w : Wrapper)
    → Always (OthersStay server_id w) (for_server clang program t server_id w)
unfolding for_server
for_server-OthersStay clang program t server_id w =
    let P = Always (OthersStay server_id w) in
    if_elim P (t == msg_code call_attr_metd) _ _
      (λ _. ended-OthersStay server_id w _ (on_call-Keeps clang program false server_id w))
      λ _.
        if_elim P (t == msg_code call_attr_metd_nocb) _ _
          (λ _. ended-OthersStay server_id w _ (on_call-Keeps clang program true server_id w))
          λ _.
            if_elim P (t == msg_code attr_value_update) _ _
              (λ _. ended-OthersStay server_id w _ (on_get_value-Keeps server_id w))
              λ _.
                if_elim P (t == msg_code get_attr_metd_desc) _ _
                  (λ _. ended-OthersStay server_id w _ (on_get_desc-Keeps server_id w))
                  (λ _ c other n. refl)

for_known_server-OthersStay :
    (clang : Bool) (program : Program) (t server_id : ℕ) (w : Wrapper)
    → Always (OthersStay server_id w) (for_known_server clang program t server_id w)
unfolding for_known_server
for_known_server-OthersStay clang program t server_id w =
    elim (Option-cases (map_find w.server_map server_id)) [
      | inl e ↦ rw (e, for_known_server) (λ c other n. refl)
      | inr (info, e) ↦
          rw (e, for_known_server)
            (Always-bind (OthersStay server_id w) next_byte _ λ b.
              if_elim (Always (OthersStay server_id w)) (is_assigned info b) _ _
                (λ _. for_server-OthersStay clang program t server_id w) (λ _ c other n. refl))
    ]

on_discovery-OthersStay :
    (clang : Bool) (server_id : ℕ) (addr : SockAddr) (w : Wrapper)
    → OthersStay server_id w (on_discovery clang server_id addr w)
unfolding on_discovery
on_discovery-OthersStay clang server_id addr w other n =
    elim (Option-cases (map_find w.server_map server_id)) [
      | inr (info, e) ↦ rw (e, on_discovery) refl
      | inl e ↦
          rw
            (
              e,
              on_discovery,
              map_find-map_assign w.server_map server_id other _,
              ne→== other server_id n,
            )
            refl
    ]

on_server_shutdown-OthersStay :
    (server_id : ℕ) (w : Wrapper) → OthersStay server_id w (on_server_shutdown server_id w)
unfolding on_server_shutdown
on_server_shutdown-OthersStay server_id w other n =
    elim (Option-cases (map_find w.server_map server_id)) [
      | inl e ↦ rw (e, on_server_shutdown) refl
      | inr (info, e) ↦
          rw
            (
              e,
              on_server_shutdown,
              map_find-map_erase w.server_map server_id other,
              ne→== other server_id n,
            )
            refl
    ]

assign_named-OthersStay :
    (name : Bytes) (id server_id : ℕ) (addr : SockAddr) (w : Wrapper)
    → Always (OthersStay server_id w) (finish (assign_named name id server_id addr w))
unfolding assign_named finish assigned
assign_named-OthersStay name id server_id addr w =
    if_elim (λ o. Always (OthersStay server_id w) (finish o))
      (bytes_eq name w.pyconnect_module.name) _ _
      (λ _. elim (Option-cases (expose_events server_id (assigned id server_id addr w))) [
        | inl e ↦ rw e (λ c. tt)
        | inr (es, e) ↦ rw e λ c other n.
            rw (map_find-map_assign w.server_map server_id other _, ne→== other server_id n) refl
      ])
      (λ _ c other n. refl)

-- Whatever message comes from a server, and whatever the program's methods do: what the wrapper knows of
-- every other server, the identifier that it assigned included, stays as it was.
pub dispatch_type-OthersStay :
    (clang : Bool) (program : Program) (t server_id : ℕ) (addr : SockAddr) (w : Wrapper)
    → Always (OthersStay server_id w) (dispatch_type clang program t server_id addr w)
unfolding dispatch_type on_assign_id
dispatch_type-OthersStay clang program t server_id addr w =
    let P = Always (OthersStay server_id w) in
    if_elim P (t == 0) _ _ (λ _ c other n. refl)
      λ _.
        if_elim P (t == msg_code module_discovery) _ _
          (λ _ c. on_discovery-OthersStay clang server_id addr w)
          λ _.
            if_elim P (t == msg_code server_shutdown) _ _
              (λ _ c. on_server_shutdown-OthersStay server_id w)
              λ _.
                if_elim P (t == msg_code module_assign_id) _ _
                  (λ _. Always-bind (OthersStay server_id w) next_byte _ λ id.
                    Always-bind (OthersStay server_id w) (unpack_string false) _
                      λ name. assign_named-OthersStay name id server_id addr w)
                  (λ _. for_known_server-OthersStay clang program t server_id w)
