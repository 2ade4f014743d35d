-- ===== src/Stub/Changes.antt =====
-- What a message does to the registry when it concerns one object, and the dictionary of an object.
use pyconnect.Base.{
  ==→eq, Bool-cases, Bytes, List, Option, [], ap, append-nil, append_assoc, arith, bytes_eq,
  bytes_eq_self, bytes_eq→eq, if◌then◌else◌, inl, inr, length, length-append, map, refl, some, sym,
  true, ℕ, ◌++◌, ◌+◌, ◌==◌, ◌∙◌, ◌∷◌, ◌≡◌,
}
use pyconnect.Common.Python.{Python}
use pyconnect.Stub.Expose.{AttributeEntry, MethodEntry, PyArgument}
use pyconnect.Stub.Object.{
  DictItem, PyAttribute, PyMethod, PyObject, add_attribute, add_attributes, add_method, add_methods,
  count_optional, dict_get, dict_set, method_item, method_of, object_item,
}
use pyconnect.Stub.Registry.{Stub, find_by_id, replace_id}

-- How many of the arguments are optional.
abbrev pub optional_count : List PyArgument → ℕ
optional_count [] = 0
optional_count (a ∷ args) = if a.optional then 1 + optional_count args else optional_count args

module _ (py : Python) where
  -- The object with the identifier is the new one, and nothing else is changed.
  pub record ChangesOnly (id : ℕ) (new : PyObject py) (s s' : Stub py) : Type 0 where
    pub lookups :
        (other : ℕ)
        → find_by_id py other s'.modules
          ≡ (if other == id then some new else find_by_id py other s.modules)
    pub server_stays : s'.server_id ≡ s.server_id
    pub counter_stays : s'.next_obj_id ≡ s.next_obj_id

  find_by_id-id :
      (id : ℕ) (o : PyObject py) (os : List (PyObject py))
      → find_by_id py id os ≡ some o
      → o.id ≡ id
  unfolding find_by_id
  find_by_id-id id o [] e = ground arith
  find_by_id-id id o (p ∷ os) e = elim (Bool-cases (p.id == id)) [
    | inl same ↦
        let found : some p ≡ some o = ground arith in
        let this : p ≡ o = cc in ap (λ (q : PyObject py). q.id) (sym this) ∙ ==→eq p.id id same
    | inr different ↦ find_by_id-id id o os (ground arith)
  ]

  find_by_id-replace_id :
      (id other : ℕ) (o new : PyObject py) (os : List (PyObject py))
      → find_by_id py id os ≡ some o
      → new.id ≡ id
      → find_by_id py other (replace_id py id new os)
        ≡ (if other == id then some new else find_by_id py other os)
  unfolding find_by_id replace_id
  find_by_id-replace_id id other o new [] e n = ground arith
  find_by_id-replace_id id other o new (p ∷ os) e n = elim (Bool-cases (p.id == id)) [
    | inl same ↦ ground arith
    | inr different ↦
        let later = find_by_id-replace_id id other o new os (ground arith) n in
        ground (arith, later)
  ]

  -- Changing an object in place.
  pub replace_id-ChangesOnly :
      (id : ℕ) (o new : PyObject py) (s : Stub py)
      → find_by_id py id s.modules ≡ some o
      → new.id ≡ o.id
      → ChangesOnly id new s (record s { modules = replace_id py id new s.modules })
  replace_id-ChangesOnly id o new s e same = record {
    lookups = λ other.
        find_by_id-replace_id id other o new s.modules e (same ∙ find_by_id-id id o s.modules e);
    server_stays = refl;
    counter_stays = refl;
  }

  -- A dictionary after items were put in, one after the other, by what is found in it.
  abbrev pub latest :
      Bytes → List (Bytes × DictItem py) → Option (DictItem py) → Option (DictItem py)
  latest k [] found = found
  latest k ((name, v) ∷ items) found = latest k items (if bytes_eq name k then some v else found)

  dict_get-dict_set :
      (k name : Bytes) (v : DictItem py) (d : List (Bytes × DictItem py))
      → dict_get py k (dict_set py name v d) ≡ (if bytes_eq name k then some v else dict_get py k d)
  unfolding dict_get dict_set
  dict_get-dict_set k name v [] = ground arith
  dict_get-dict_set k name v ((j, w) ∷ d) = elim (Bool-cases (bytes_eq j name)) [
    | inl same ↦
        let equal : bytes_eq j k ≡ bytes_eq name k =
          ap (λ l. bytes_eq l k) (bytes_eq→eq j name same) in
        ground (arith, equal)
    | inr different ↦
        let later = dict_get-dict_set k name v d in
        let apart : bytes_eq j k ≡ true → bytes_eq name k ≡ true → bytes_eq j name ≡ true = λ a b.
          ap (λ l. bytes_eq l name) (bytes_eq→eq j k a ∙ sym (bytes_eq→eq name k b))
          ∙ bytes_eq_self name in
        ground (arith, later, apart)
  ]

  -- Where a script finds what the exposure put in: attributes with their values, and methods with the
  -- numbers from `id` on.
  abbrev pub attribute_item : AttributeEntry py → Bytes × DictItem py
  attribute_item e = (e.name, object_item e.value)

  abbrev pub numbered : ℕ → List MethodEntry → List PyMethod
  numbered id [] = []
  numbered id (e ∷ es) =
      record {
        name = e.name;
        desc = [];
        ret_type = e.ret_type;
        args = e.args;
        opt_args = optional_count e.args;
        id = id;
      }
      ∷ numbered (id + 1) es

  abbrev pub method_items : List PyMethod → List (Bytes × DictItem py)
  method_items [] = []
  method_items (m ∷ ms) = (m.name, method_item m) ∷ method_items ms

  abbrev pub announced : AttributeEntry py → PyAttribute py
  announced e = record {
    name = e.name;
    desc = [];
    type = e.type;
    read_only = e.read_only;
    value = e.value;
  }

  -- The object after an exposure: new attributes and methods behind those that were there, each to be
  -- found in the dictionary under its name, and the rest as it was.
  pub record IsExposed (attributes : List (AttributeEntry py)) (methods : List MethodEntry)
      (o new : PyObject py) : Type 0 where
    pub attributes_added : new.attrs ≡ o.attrs ++ map announced attributes
    pub methods_added : new.metds ≡ o.metds ++ numbered (length o.metds) methods
    pub lookups :
        (k : Bytes)
        → dict_get py k new.dict
          ≡ latest k
              (map attribute_item attributes ++ method_items (numbered (length o.metds) methods))
              (dict_get py k o.dict)
    pub key_stays : (new.id ≡ o.id) × (new.name ≡ o.name) × (new.desc ≡ o.desc)
    pub flags_stay :
        (new.no_callback ≡ o.no_callback) × (new.arg_eval_reversed ≡ o.arg_eval_reversed)

  IsExposed-nothing : (o : PyObject py) → IsExposed [] [] o o
  IsExposed-nothing o = record {
    attributes_added = sym (append-nil o.attrs);
    methods_added = sym (append-nil o.metds);
    lookups = λ k. refl;
    key_stays = (refl, refl, refl);
    flags_stay = (refl, refl);
  }

  count_optional_lem : (args : List PyArgument) → count_optional args ≡ optional_count args
  unfolding count_optional
  count_optional_lem [] = refl
  count_optional_lem (a ∷ args) = ground (arith, count_optional_lem args)

  latest-append :
      (k : Bytes) (xs ys : List (Bytes × DictItem py)) (found : Option (DictItem py))
      → latest k (xs ++ ys) found ≡ latest k ys (latest k xs found)
  latest-append k [] ys found = refl
  latest-append k ((name, v) ∷ xs) ys found =
      latest-append k xs ys (if bytes_eq name k then some v else found)

  add_attributes-IsExposed :
      (es : List (AttributeEntry py)) (o : PyObject py) → IsExposed es [] o (add_attributes py es o)
  unfolding add_attributes add_attribute
  add_attributes-IsExposed [] o = IsExposed-nothing o
  add_attributes-IsExposed (e ∷ es) o =
      let h = add_attributes-IsExposed es (add_attribute py e o) in
      record {
        attributes_added =
            h.attributes_added ∙ append_assoc o.attrs (announced e ∷ []) (map announced es);
        methods_added = h.methods_added;
        lookups = λ k.
            h.lookups k
            ∙ ap (latest k (map attribute_item es ++ []))
                (dict_get-dict_set k e.name (object_item e.value) o.dict);
        key_stays = h.key_stays;
        flags_stay = h.flags_stay;
      }

  method_of-numbered : (e : MethodEntry) (id : ℕ) → (method_of py e id ∷ []) ≡ numbered id (e ∷ [])
  unfolding method_of
  method_of-numbered e id =
      ap {A = ℕ} {B = List PyMethod}
        (λ n.
          record {
            name = e.name;
            desc = [];
            ret_type = e.ret_type;
            args = e.args;
            opt_args = n;
            id = id;
          }
          ∷ [])
        (count_optional_lem e.args)

  add_methods-IsExposed :
      (es : List MethodEntry) (o : PyObject py) → IsExposed [] es o (add_methods py es o)
  unfolding add_methods add_method method_of
  add_methods-IsExposed [] o = IsExposed-nothing o
  add_methods-IsExposed (e ∷ es) o =
      let m = method_of py e (length o.metds) in
      let h = add_methods-IsExposed es (add_method py e o) in
      let size : length (o.metds ++ (m ∷ [])) ≡ length o.metds + 1 =
        length-append o.metds (m ∷ []) in
      let this : (m ∷ []) ≡ numbered (length o.metds) (e ∷ []) =
        method_of-numbered e (length o.metds) in
      record {
        attributes_added = h.attributes_added;
        methods_added =
            h.methods_added
            ∙ ap (λ n. (o.metds ++ (m ∷ [])) ++ numbered n es) size
            ∙ append_assoc o.metds (m ∷ []) (numbered (length o.metds + 1) es)
            ∙ ap (λ l. o.metds ++ (l ++ numbered (length o.metds + 1) es)) this;
        lookups = λ k.
            h.lookups k
            ∙ ap
                (λ n.
                  latest k (method_items (numbered n es)) (dict_get py k (add_method py e o).dict))
                size
            ∙ ap (latest k (method_items (numbered (length o.metds + 1) es)))
                (dict_get-dict_set k e.name (method_item m) o.dict)
            ∙ ap
                (λ l.
                  latest k (method_items (l ++ numbered (length o.metds + 1) es))
                    (dict_get py k o.dict))
                this;
        key_stays = h.key_stays;
        flags_stay = h.flags_stay;
      }

  -- What the two loops of an exposure do.
  pub exposure-IsExposed :
      (es : List (AttributeEntry py)) (ms : List MethodEntry) (o : PyObject py)
      → IsExposed es ms o (add_methods py ms (add_attributes py es o))
  exposure-IsExposed es ms o =
      let n = add_attributes py es o in
      let a = add_attributes-IsExposed es o in
      let b = add_methods-IsExposed ms n in
      let old : n.metds ≡ o.metds = a.methods_added ∙ append-nil o.metds in
      let none_new : map attribute_item es ++ [] ≡ map attribute_item es =
        append-nil (map attribute_item es) in
      record {
        attributes_added = b.attributes_added ∙ append-nil n.attrs ∙ a.attributes_added;
        methods_added = b.methods_added ∙ ap (λ l. l ++ numbered (length l) ms) old;
        lookups = λ k.
            b.lookups k
            ∙ ap (λ l. latest k (method_items (numbered (length l) ms)) (dict_get py k n.dict)) old
            ∙ ap (latest k (method_items (numbered (length o.metds) ms)))
                (a.lookups k ∙ ap (λ l. latest k l (dict_get py k o.dict)) none_new)
            ∙ sym (
                latest-append k (map attribute_item es)
                  (method_items (numbered (length o.metds) ms)) (dict_get py k o.dict));
        key_stays = (
          b.key_stays.0 ∙ a.key_stays.0,
          b.key_stays.1 ∙ a.key_stays.1,
          b.key_stays.2 ∙ a.key_stays.2,
        );
        flags_stay = (b.flags_stay.0 ∙ a.flags_stay.0, b.flags_stay.1 ∙ a.flags_stay.1);
      }
