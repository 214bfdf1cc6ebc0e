-- ===== src/Connection/Worker.antt =====
-- smbprotocol/connection.py, `_process_message_thread`: the thread that receives packets.
pub mod Laws
pub mod Delivery
use smbprotocol.Prelude.{
  ℕ, zero, suc, ◌+◌, List, [], ◌∷◌, ◌++◌, map, Bool, true, false, not, ◌&&◌, ◌||◌, Option, none,
  some, Error, Result, ok, err, ◌>>=◌, key_error, smb_connection_closed, ◌==◌, if◌then◌else◌,
  length, take, drop, Dict, lookup, put, remove,
}
use smbprotocol.Bytes.{Bytes, struct_unpack}
use smbprotocol.Structure.{num, has_flag}
use smbprotocol.Structure.Walk.{Structure, unpack, set_item}
use smbprotocol.Structure.Build.{IntField}
use smbprotocol.Header.{
  smb2_header_response, smb2_negotiate, smb2_session_setup, smb2_echo, smb2_flags_async_command,
  status_more_processing_required,
}
use smbprotocol.Connection.{Connection, Message, Request, packet}
use smbprotocol.Connection.Signature.{Crypto, verify_signature, same_bytes, int_of}
use smbprotocol.Connection.Encryption.{Aead, decrypt, smb2_transform_header, transform_protocol_id}
use smbprotocol.Connection.Build.{SendArgs}
use smbprotocol.Connection.Send.{Call, ◌then_call◌, send}

-- The session id of a response: that of the request where the header has none of its own.
session_id_of : ℕ → Request → Option ℕ
session_id_of session_id request =
    if session_id == 0xffff_ffff_ffff_ffff then request.session_id else some session_id

-- The credits that a response grants.
unfoldable pub granted : Connection → ℕ → ℕ
granted c credit_response =
    if credit_response == 0 && not c.supports_multi_credit
    then credit_response + 1
    else credit_response

-- The preauth integrity values of a response.
store_preauth : Connection → ℕ → ℕ → ℕ → Bytes → Connection
store_preauth c command status message_id b_header =
    if command == smb2_negotiate
    then record c {
      preauth_integrity_hash_value = c.preauth_integrity_hash_value ++ (b_header ∷ []);
    }
    else if command == smb2_session_setup && status == status_more_processing_required
    then record c {
      preauth_session_table = put message_id (packet b_header) c.preauth_session_table;
    }
    else c

answered : Request → Bool → Structure → Bytes → Request
answered request is_async header b_header = record request {
  async_id = if is_async then some (take 8 (drop 32 b_header)) else request.async_id;
  response = some header;
  response_event = true;
}

-- An echo of this thread does not linger in the table.
drop_echo : Connection → ℕ → ℕ → Connection
drop_echo c message_id reserved =
    if reserved == 1
    then record c { outstanding_requests = remove message_id c.outstanding_requests }
    else c

-- What the loop reads of a response header.
pub record Fields : Type 0 where
  pub header : Structure
  pub message_id : ℕ
  pub session_id : ℕ
  pub credit_response : ℕ
  pub command : ℕ
  pub status : ℕ
  pub flags : ℕ

fields_of : Structure → Result Fields
unfolding int_of
fields_of header = do
  message_id ← int_of header "message_id"
  session_id ← int_of header "session_id"
  credit_response ← int_of header "credit_response"
  command ← int_of header "command"
  status ← int_of header "status"
  flags ← int_of header "flags"
  ok (record {
    header = header;
    message_id = message_id;
    session_id = session_id;
    credit_response = credit_response;
    command = command;
    status = status;
    flags = flags;
  })

unfoldable pub read_header : Bytes → Result Fields
unfolding smb2_header_response unpack fields_of
read_header b_header = unpack smb2_header_response b_header >>= λ unpacked. fields_of unpacked.0

unfoldable pub find_request : Connection → ℕ → Result Request
find_request c message_id = elim (lookup message_id c.outstanding_requests) [
  | none ↦ err key_error
  | some r ↦ ok r
]

grant : Connection → ℕ → Connection
unfolding granted
grant c credit_response = record c { sequence_high = c.sequence_high + granted c credit_response }

-- The response is handed to its request.
answer : Connection → Fields → Request → Bytes → Connection
unfolding answered
answer c f request b_header = record c {
  outstanding_requests =
      put f.message_id
        (answered request (has_flag f.flags smb2_flags_async_command) f.header b_header)
        c.outstanding_requests;
}

-- The response is counted, stored and handed to its request.
accept : Connection → Fields → Request → Bytes → Connection
unfolding grant store_preauth answer
accept c f request b_header =
    answer (store_preauth (grant c f.credit_response) f.command f.status f.message_id b_header) f
      request b_header

-- `next_command` of the response at the front of a packet.
unfoldable pub next_command_of : Bytes → Result ℕ
unfolding struct_unpack
next_command_of b_msg = struct_unpack true 4 (take 4 (drop 20 b_msg))

module _ (k : Crypto) (a : Aead) where
  check_response : Connection → Bool → Fields → Request → Result (Unit {0})
  unfolding verify_signature session_id_of
  check_response c true f request = ok tt
  check_response c false f request =
      verify_signature k c f.header (session_id_of f.session_id request) false

  -- One response of a packet.
  unfoldable pub process_response : Connection → Bool → Bytes → Call (Unit {0})
  unfolding read_header find_request check_response accept drop_echo int_of
  process_response c is_encrypted b_header = (c, read_header b_header) then_call λ c₁ f.
      (c₁, find_request c₁ f.message_id) then_call λ c₂ request.
      (c₂, check_response c₂ is_encrypted f request) then_call λ c₃ _.
      (accept c₃ f request b_header, int_of request.message "reserved") then_call λ c₄ reserved.
      (drop_echo c₄ f.message_id reserved, ok tt)

  -- `while next_command != 0`. `none` means that the fuel ran out.
  unfoldable pub process_packet : ℕ → Connection → Bool → Bytes → Option (Call (Unit {0}))
  process_packet zero c is_encrypted b_msg = none
  process_packet (suc fuel) c is_encrypted b_msg = elim (next_command_of b_msg) [
    | err e ↦ some (c, err e)
    | ok next_command ↦ elim (next_command == 0) [
      | true ↦ some (process_response c is_encrypted b_msg)
      | false ↦
          let (c', r) = process_response c is_encrypted (take next_command b_msg) in
          elim r [
            | err e ↦ some (c', err e)
            | ok _ ↦ process_packet fuel c' is_encrypted (drop next_command b_msg)
          ]
    ]
  ]

  -- Decrypting a packet that begins with the protocol id of the transform header.
  opened : Connection → Bytes → Result (Bool × Bytes)
  unfolding smb2_transform_header unpack decrypt same_bytes
  opened c b_msg = elim (same_bytes (take 4 b_msg) transform_protocol_id) [
    | false ↦ ok (false, b_msg)
    | true ↦ do
      unpacked ← unpack smb2_transform_header b_msg
      b ← decrypt a c unpacked.0
      ok (true, b)
  ]

  processed : Connection → Result (Bool × Bytes) → Option (Call (Unit {0}))
  unfolding process_packet
  processed c (err e) = some (c, err e)
  processed c (ok (is_encrypted, b)) = process_packet (suc (length b)) c is_encrypted b

  -- One packet that `recv` returned, in the body of the loop.
  unfoldable pub receive_packet : Connection → Bytes → Option (Call (Unit {0}))
  unfolding opened processed
  receive_packet c b_msg = processed c (opened c b_msg)

-- `request.response_event.set()` for every outstanding request.
unfoldable pub set_events : Dict Request → Dict Request
set_events [] = []
set_events ((i, r) ∷ d) = (i, record r { response_event = true }) ∷ set_events d

-- The `except` and `finally` blocks.
unfoldable pub stop_worker : Call (Unit {0}) → Connection
unfolding set_events
stop_worker (c, ok x) = record c { outstanding_requests = set_events c.outstanding_requests }
stop_worker (c, err e) = record c {
  worker_exception = some e;
  transport_connected = false;
  outstanding_requests = set_events c.outstanding_requests;
}
