-- ===== src/Wrapper/Bounds.antt =====
-- The buffers that the wrapper allocates against what it writes into them.
use mathlib.Core.Option
use pyconnect.Wrapper.Module.{Argument, Attribute, Method, PyConnectModule}
use pyconnect.Wrapper.Messages.{
  argument_entries, attribute_descs, attribute_entries, attribute_lens, byte_of, declare_message,
  declare_size, desc_body, desc_lens, desc_message, desc_size, descriptions, expose_body,
  expose_message, expose_size, header_byte, method_descs, method_entries, method_lens, raw_value,
  response_message, response_size, type_byte,
}
use pyconnect.Base.{
  Bool, Bytes, List, Option, [], ap, arith, false, length, length-append, none, pos, refl, some,
  suc, true, ℕ, ℤ, ◌%◌, ◌*◌, ◌++◌, ◌+◌, ◌<◌, ◌↔◌, ◌∷◌, ◌≡◌,
}
use pyconnect.Common.Types.{PyConnectMsg, attr_metd_expose, max_str_length, msg_end, no_errors}
use pyconnect.Common.Pack.{pack_int_to_str, pack_string, pack_to_le_number, packed_int_len}
use pyconnect.Common.RoundTrip.{
  length-pack_int_to_str, length-pack_string, length-pack_to_le_number,
}
use pyconnect.Wrapper.Values.{set_string}

pub set_string_fits :
    (s : Bytes) → length s < 32768 → set_string s ≡ some (pack_string true s, no_errors)
unfolding set_string
set_string_fits s h = ground (arith, length-pack_string s)

-- `setData` of a text writes past the end of its buffer exactly when the text has more than 32767
-- bytes, the length for which it means to report `STR_TOO_LONG`.
pub set_string_overflow_iff : (s : Bytes) → (set_string s ≡ none) ↔ (max_str_length < length s)
unfolding set_string packed_int_len
set_string_overflow_iff s =
    (λ h. ground (arith, length-pack_string s), λ h. ground (arith, length-pack_string s))

length-pack_short_string : (s : Bytes) → length (pack_string false s) ≡ length s + 1
unfolding pack_string
length-pack_short_string s = omega arith

length-argument_entries : (args : List Argument) → length (argument_entries args) ≡ length args
unfolding argument_entries
length-argument_entries [] = refl
length-argument_entries (a ∷ args) = ap suc (length-argument_entries args)

-- `declarePyConnectModule` allocates exactly the bytes that it writes.
pub declare_size_exact :
    (clang : Bool) (server_id : ℕ) (m : PyConnectModule)
    → length (declare_message clang server_id m) ≡ declare_size m
unfolding declare_message declare_size
declare_size_exact clang server_id m = omega (
  arith,
  length-append {0} (pack_string false m.name) (pack_string true m.desc ++ msg_end ∷ []),
  length-append {0} (pack_string true m.desc) (msg_end ∷ []),
  length-pack_string m.desc,
  length-pack_short_string m.name,
)

-- The attribute part of an exposure has two bytes for each attribute besides its name and value.
attribute_entries_size :
    (attrs : List (Bytes × Attribute))
    → Option.map length (attribute_entries attrs)
      ≡ Option.map (λ n. n + length attrs * 2) (attribute_lens attrs)
unfolding attribute_entries attribute_lens
attribute_entries_size [] = refl
attribute_entries_size ((name, a) ∷ rest) =
    one (raw_value a) (attribute_entries rest) (attribute_lens rest) (attribute_entries_size rest)
  where
    b : ℕ
    b = type_byte a.writable a.type

    one :
        (r es : Option Bytes) (ls : Option ℕ)
        → Option.map length es ≡ Option.map (λ n. n + length rest * 2) ls
        → Option.map length (elim r [
          | none ↦ none
          | some raw ↦ Option.map (λ more. b ∷ (pack_string false name ++ (raw ++ more))) es
        ])
          ≡ Option.map
              (λ n. n + suc (length rest) * 2)
              (elim r [
                | none ↦ none
                | some raw ↦ Option.map (λ n. length name + length raw + n) ls
              ])
    one none es ls h = refl
    one (some raw) none none h = refl
    one (some raw) none (some n) h = cc
    one (some raw) (some more) none h = cc
    one (some raw) (some more) (some n) h =
        let size : length more ≡ n + length rest * 2 = cc in
        ap some (
          omega (
            arith,
            length-append {0} (pack_string false name) (raw ++ more),
            length-append {0} raw more,
            length-pack_short_string name,
          ))

method_entries_size :
    (metds : List (Bytes × Method))
    → length (method_entries metds) ≡ method_lens metds + length metds * 3
unfolding method_entries method_lens
method_entries_size [] = refl
method_entries_size ((name, m) ∷ rest) = omega (
  arith,
  length-append {0} (pack_string false name)
      ((length m.args % 256) ∷ (argument_entries m.args ++ method_entries rest)),
  length-append {0} (argument_entries m.args) (method_entries rest),
  length-pack_short_string name,
  length-argument_entries m.args,
  method_entries_size rest,
)

descriptions_size : (ds : List Bytes) → length (descriptions ds) ≡ desc_lens ds
unfolding descriptions desc_lens
descriptions_size [] = refl
descriptions_size (d ∷ ds) = omega (
  arith,
  length-append {0} (pack_string true d) (descriptions ds),
  length-pack_string d,
  descriptions_size ds,
)

-- `declareModuleAttrMetdDesc` allocates exactly the bytes that it writes.
pub desc_size_exact :
    (server_id : ℕ) (module_id : ℤ) (m : PyConnectModule)
    → length (desc_message server_id module_id m) ≡ desc_size m
unfolding desc_message desc_body desc_size
desc_size_exact server_id module_id m =
    let attrs = attribute_descs m in
    let metds = method_descs m in
    let nattrs = pack_int_to_str (pos (length m.attributes)) in
    let nmetds = pack_int_to_str (pos (length m.methods)) in
    omega (
      arith,
      length-append {0} (nattrs ++ (descriptions attrs ++ (nmetds ++ descriptions metds)))
          (msg_end ∷ []),
      length-append {0} nattrs (descriptions attrs ++ (nmetds ++ descriptions metds)),
      length-append {0} (descriptions attrs) (nmetds ++ descriptions metds),
      length-append {0} nmetds (descriptions metds),
      length-pack_int_to_str (length m.attributes),
      length-pack_int_to_str (length m.methods),
      descriptions_size attrs,
      descriptions_size metds,
    )

-- `sendAttrMetdResponse` allocates exactly the bytes that it writes, for an index that is not
-- negative.
pub response_size_exact :
    (msg : PyConnectMsg) (server_id : ℕ) (module_id : ℤ) (err index : ℕ) (response : Bytes)
    → length (response_message msg server_id module_id err (pos index) response)
      ≡ response_size (pos index) response
unfolding response_message response_size
response_size_exact msg server_id module_id err index response =
    let n = pack_to_le_number 4 (length response + packed_int_len (pos index)) in
    let i = pack_int_to_str (pos index) in
    omega (
      arith,
      length-append {0} n (i ++ (response ++ msg_end ∷ [])),
      length-append {0} i (response ++ msg_end ∷ []),
      length-append {0} response (msg_end ∷ []),
      length-pack_to_le_number 4 (length response + packed_int_len (pos index)),
      length-pack_int_to_str index,
    )

-- `declareModuleAttrMetd` allocates exactly the bytes that it writes, whenever no attribute's value
-- faults; and the sizes fault when the message does.
pub expose_size_exact :
    (server_id : ℕ) (module_id : ℤ) (m : PyConnectModule)
    → Option.map length (expose_message server_id module_id m) ≡ expose_size m
unfolding expose_message expose_body expose_size
expose_size_exact server_id module_id m =
    total (attribute_entries m.attributes) (attribute_lens m.attributes)
      (attribute_entries_size m.attributes)
  where
    nattrs : Bytes
    nattrs = pack_int_to_str (pos (length m.attributes))

    nmetds : Bytes
    nmetds = pack_int_to_str (pos (length m.methods))

    metds : Bytes
    metds = method_entries m.methods

    total :
        (es : Option Bytes) (ls : Option ℕ)
        → Option.map length es ≡ Option.map (λ n. n + length m.attributes * 2) ls
        → Option.map length (
            Option.map
              (λ body.
                header_byte attr_metd_expose server_id ∷ byte_of module_id ∷ (body ++ msg_end ∷ []))
              (Option.map (λ entries. nattrs ++ (entries ++ (nmetds ++ metds))) es))
          ≡ Option.map
              (λ lens.
                3
                + packed_int_len (pos (length m.attributes))
                + packed_int_len (pos (length m.methods))
                + (lens + length m.attributes * 2)
                + (method_lens m.methods + length m.methods * 3))
              ls
    total none none h = refl
    total none (some n) h = cc
    total (some es) none h = cc
    total (some es) (some n) h =
        let size : length es ≡ n + length m.attributes * 2 = cc in
        ap some (
          omega (
            arith,
            length-append {0} (nattrs ++ (es ++ (nmetds ++ metds))) (msg_end ∷ []),
            length-append {0} nattrs (es ++ (nmetds ++ metds)),
            length-append {0} es (nmetds ++ metds),
            length-append {0} nmetds metds,
            length-pack_int_to_str (length m.attributes),
            length-pack_int_to_str (length m.methods),
            method_entries_size m.methods,
          ))
