-- ===== src/Stub/CommandLaws.antt =====
-- What the Python functions report of the communication objects' answers.
use Prim.Native.Nat.{bit_or}
use pyconnect.Base.{
  Bool, Bytes, List, Option, [], ap, false, if◌then◌else◌, none, refl, some, true, ℕ, ◌%◌, ◌+◌, ◌∙◌,
  ◌∷◌, ◌≡◌,
}
use pyconnect.ObjComm.Processor.{
  CommObject, CommObjectStat, comm_failed, comm_success, connect_loop, connect_to, dispatch_message,
  invalid_addr_port, not_supported, stat_code,
}
use pyconnect.Stub.Messages.{discovery_message}
use pyconnect.Stub.Commands.{
  Raised, connect, io_error, not_implemented_error, raised_for, send_discovery_msg, value_error,
}

-- The exception for the failures that were seen, the gravest first.
abbrev pub gravest : Bool → Bool → Raised
gravest failed invalid =
    if failed then io_error else if invalid then value_error else not_implemented_error

module _ {S : Type 0} where
  -- The objects are asked in their order until one succeeds.
  unfoldable pub connect_report : Bool → Bool → List (CommObject S) → Bytes → ℕ → S → Option Raised
  connect_report failed invalid [] host port s = some (gravest failed invalid)
  connect_report failed invalid (o ∷ objects) host port s = elim (o.create_talker host port s).1 [
    | comm_success ↦ none
    | comm_failed ↦ connect_report true invalid objects host port (o.create_talker host port s).0
    | invalid_addr_port ↦
        connect_report failed true objects host port (o.create_talker host port s).0
    | not_supported ↦
        connect_report failed invalid objects host port (o.create_talker host port s).0
  ]

module _ {S : Type 0} where
  -- The state behind these attempts.
  abbrev pub reached : List (CommObject S) → Bytes → ℕ → S → S
  reached [] host port s = s
  reached (o ∷ objects) host port s =
      let rest = reached objects host port (o.create_talker host port s).0 in
      elim (o.create_talker host port s).1 [
        | comm_success ↦ (o.create_talker host port s).0
        | comm_failed ↦ rest
        | invalid_addr_port ↦ rest
        | not_supported ↦ rest
      ]

  -- A message handed to every object, in their order, and not as a broadcast.
  abbrev pub sent_by_all : List (CommObject S) → Bytes → S → S
  sent_by_all [] message s = s
  sent_by_all (o ∷ objects) message s =
      sent_by_all objects message (o.data_packet_sender message false s)

  dispatch_message-sent_by_all :
      (objects : List (CommObject S)) (message : Bytes) (s : S)
      → dispatch_message objects message false s ≡ sent_by_all objects message s
  unfolding dispatch_message
  dispatch_message-sent_by_all [] message s = refl
  dispatch_message-sent_by_all (o ∷ objects) message s =
      dispatch_message-sent_by_all objects message (o.data_packet_sender message false s)

-- `retVal` after such failures.
abbrev stat_bits : Bool → Bool → ℕ
stat_bits true true = 7
stat_bits true false = 5
stat_bits false true = 3
stat_bits false false = 1

bit_or-failed : (f i : Bool) → bit_or (stat_bits f i) (stat_code comm_failed) ≡ stat_bits true i
bit_or-failed true true = refl
bit_or-failed true false = refl
bit_or-failed false true = refl
bit_or-failed false false = refl

bit_or-invalid :
    (f i : Bool) → bit_or (stat_bits f i) (stat_code invalid_addr_port) ≡ stat_bits f true
bit_or-invalid true true = refl
bit_or-invalid true false = refl
bit_or-invalid false true = refl
bit_or-invalid false false = refl

bit_or-not_supported :
    (f i : Bool) → bit_or (stat_bits f i) (stat_code not_supported) ≡ stat_bits f i
bit_or-not_supported true true = refl
bit_or-not_supported true false = refl
bit_or-not_supported false true = refl
bit_or-not_supported false false = refl

raised_for-stat_bits : (f i : Bool) → raised_for (stat_bits f i) ≡ some (gravest f i)
unfolding raised_for
raised_for-stat_bits true true = refl
raised_for-stat_bits true false = refl
raised_for-stat_bits false true = refl
raised_for-stat_bits false false = refl

raised_for-success : raised_for (stat_code comm_success) ≡ none
unfolding raised_for
raised_for-success = refl

module _ {S : Type 0} (host : Bytes) (port : ℕ) where
  connect_loop-connect_report :
      (objects : List (CommObject S)) (f i : Bool) (s : S)
      → raised_for (connect_loop objects (stat_bits f i) host port s).1
        ≡ connect_report f i objects host port s
  unfolding connect_loop connect_report
  connect_loop-connect_report [] f i s = raised_for-stat_bits f i
  connect_loop-connect_report (o ∷ objects) f i s =
      at_val (o.create_talker host port s).1 refl
        (λ a b. connect_loop-connect_report objects a b (o.create_talker host port s).0)
    where
      at_val :
          (val : CommObjectStat)
          → (o.create_talker host port s).1 ≡ val
          → ((a b : Bool)
              → raised_for
                  (connect_loop objects (stat_bits a b) host port (o.create_talker host port s).0).1
                ≡ connect_report a b objects host port (o.create_talker host port s).0)
          → raised_for (connect_loop (o ∷ objects) (stat_bits f i) host port s).1
            ≡ connect_report f i (o ∷ objects) host port s
      at_val comm_success e ih = rw (e, connect_loop, connect_report) raised_for-success
      at_val comm_failed e ih =
          rw (e, connect_loop, connect_report) (rw (bit_or-failed f i) (ih true i))
      at_val invalid_addr_port e ih =
          rw (e, connect_loop, connect_report) (rw (bit_or-invalid f i) (ih f true))
      at_val not_supported e ih =
          rw (e, connect_loop, connect_report) (rw (bit_or-not_supported f i) (ih f i))

  connect_loop-reached :
      (objects : List (CommObject S)) (ret_val : ℕ) (s : S)
      → (connect_loop objects ret_val host port s).0 ≡ reached objects host port s
  unfolding connect_loop
  connect_loop-reached [] ret_val s = refl
  connect_loop-reached (o ∷ objects) ret_val s =
      at_val (o.create_talker host port s).1 refl
        (λ r. connect_loop-reached objects r (o.create_talker host port s).0)
    where
      at_val :
          (val : CommObjectStat)
          → (o.create_talker host port s).1 ≡ val
          → ((r : ℕ)
              → (connect_loop objects r host port (o.create_talker host port s).0).0
                ≡ reached objects host port (o.create_talker host port s).0)
          → (connect_loop (o ∷ objects) ret_val host port s).0 ≡ reached (o ∷ objects) host port s
      at_val comm_success e ih = rw (e, connect_loop, reached) refl
      at_val comm_failed e ih = rw (e, connect_loop, reached) (ih _)
      at_val invalid_addr_port e ih = rw (e, connect_loop, reached) (ih _)
      at_val not_supported e ih = rw (e, connect_loop, reached) (ih _)

  -- `PyConnect.connect` reports what the communication objects answered: they are asked in their order
  -- until one connects, which is the success, and no further; if none does, the exception is an IOError
  -- if some object failed to connect, else a ValueError if some object refused the address, else a
  -- NotImplementedError. After a success, and only then, a discovery message of the server is handed to
  -- every object, and not as a broadcast.
  pub connect-connect_report :
      (objects : List (CommObject S)) (server_id : ℕ) (s : S)
      → (let asked = reached objects host port s in
          let report = connect_report false false objects host port s in
          connect objects server_id host port s ≡ (
            elim report as (λ _. S) [
              | none ↦ sent_by_all objects ((0x10 + server_id % 16) ∷ 0x40 ∷ []) asked
              | some e ↦ asked
            ],
            report,
          ))
  unfolding connect connect_to send_discovery_msg discovery_message
  connect-connect_report objects server_id s =
      rw (← connect_loop-connect_report objects false false s) (
        either (connect_loop objects 1 host port s).0 (reached objects host port s)
          (connect_loop-reached objects 1 s) (raised_for (connect_loop objects 1 host port s).1))
    where
      either :
          (found asked : S)
          → found ≡ asked
          → (r : Option Raised)
          → (elim r as (λ _. S × Option Raised) [
            | none ↦ (send_discovery_msg objects server_id false found, none)
            | some e ↦ (found, some e)
          ])
            ≡ (
              elim r as (λ _. S) [
                | none ↦ sent_by_all objects ((0x10 + server_id % 16) ∷ 0x40 ∷ []) asked
                | some e ↦ asked
              ],
              r,
            )
      either found asked same none =
          ap (λ t. (t, none))
            (dispatch_message-sent_by_all objects (discovery_message server_id) found
              ∙ ap (sent_by_all objects ((0x10 + server_id % 16) ∷ 0x40 ∷ [])) same)
      either found asked same (some e) = ap (λ t. (t, some e)) same
