-- ===== src/Runs.antt =====
-- Runs of the program at concrete inputs: for each result, an input where its conditions hold.
use smbprotocol.Prelude.{
  ℕ, take, drop, ◌*◌, ◌≡◌, ◌≤◌, max, refl, [], ◌∷◌, ◌++◌, true, false, some, ok, arith, length,
  replicate, ◌+◌, ◌-◌, ◌/◌, ◌>>=◌,
}
use smbprotocol.Bytes.{Bytes, le_bytes, from_le, struct_pack, struct_unpack}
use smbprotocol.Bytes.Laws.{struct_unpack-struct_pack, le_bytes-from_le}
use smbprotocol.Structure.{
  int_field, lambda, computed, calculated_value, calculated_size, packed_size, num, bytes, fixed,
  enum_field, parse_value, pack_value, pack_field,
}
use smbprotocol.Structure.Walk.{
  Structure, view, get_value, get_field, view_of, pack_fields, pack, unpack,
}
use smbprotocol.Structure.Build.{IntField, length_of, value_of, BytesField}
use smbprotocol.Structure.FieldLaws.{an_int, a_string}
use smbprotocol.Structure.Idempotent.{parse_value-again}
use smbprotocol.Structure.RoundTrip.{fill, unpack-pack}
use smbprotocol.Structure.Sizes.{length-pack_fields}
use smbprotocol.Transport.{direct_tcp_packet, frame, send_loop, available, recv, returned}
use smbprotocol.Transport.Framing.{send_loop-delivers, frame_lem}
use smbprotocol.Transport.Receive.{recv-frame, open_with}
use smbprotocol.Header.{smb2_echo, smb2_header_request, smb_protocol_id, commands}
use smbprotocol.Header.Layout.{RequestHeader, request, splice-signature}
use smbprotocol.Header.Offsets.{request-offsets}
use smbprotocol.Connection.{Message}
use smbprotocol.Connection.Credits.{
  max_payload_size, payload_size, calculate_credit_charge, calculate_credit_charge_least,
}
use smbprotocol.Connection.Signature.{
  generate_signature, with_signature, generate_signature-with_signature,
}
use smbprotocol.Connection.Steps.{new_connection}
use smbprotocol.Connection.Runs.{test_crypto}
use smbprotocol.Messages.ReadWrite.{smb2_write_request}
use smbprotocol.Messages.SignIn.{smb2_session_setup_request}
use smbprotocol.Messages.Laws.{
  WriteRequest, write_request, write_request-round_trip, SessionSetup, session_setup,
}
use smbprotocol.Messages.Controls.{dfs_request, dfs_head, dfs_request-packed}
use smbprotocol.Messages.Reading.{read, calculate_credit_charge-read}

struct_unpack-struct_pack_example : struct_unpack false 4 (0 ∷ 0 ∷ 1 ∷ 2 ∷ []) ≡ ok 258
struct_unpack-struct_pack_example =
    struct_unpack-struct_pack false 4 258 (unfold struct_pack le_bytes in refl)

le_bytes-from_le_example : le_bytes 2 (from_le (7 ∷ 1 ∷ [])) ≡ (7 ∷ 1 ∷ [])
le_bytes-from_le_example = le_bytes-from_le (7 ∷ 1 ∷ []) (omega arith, (omega arith, tt))

send_loop-delivers_example : send_loop (2 ∷ 1 ∷ 5 ∷ []) (7 ∷ 8 ∷ 9 ∷ []) [] ≡ some (7 ∷ 8 ∷ 9 ∷ [])
send_loop-delivers_example =
    send_loop-delivers (2 ∷ 1 ∷ 5 ∷ []) (7 ∷ 8 ∷ 9 ∷ []) []
      (omega arith, (omega arith, (omega arith, tt))) (omega arith)

frame_2 : frame (7 ∷ 8 ∷ []) ≡ ok (0 ∷ 0 ∷ 0 ∷ 2 ∷ 7 ∷ 8 ∷ [])
unfolding le_bytes
frame_2 = frame_lem (7 ∷ 8 ∷ []) (omega arith)

recv-frame_example :
    (left : _) × (recv (replicate 6 (available 3)) (open_with (0 ∷ 0 ∷ 0 ∷ 2 ∷ 7 ∷ 8 ∷ 9 ∷ []))
      ≡ (returned (some (7 ∷ 8 ∷ [])), open_with (9 ∷ []), left))
recv-frame_example =
    recv-frame (7 ∷ 8 ∷ []) (9 ∷ []) (replicate 6 (available 3)) frame_2
      (omega arith, (omega arith, (omega arith, (omega arith, (omega arith, (omega arith, tt))))))
      (omega arith)

abbrev no_charge : ℕ
no_charge = 0

abbrev read_message : Message
read_message = record {
  command = 8;
  fields = IntField "length" 4 65537 ∷ IntField "read_channel_info_length" 2 0 ∷ [];
}

calculate_credit_charge_least_example :
    (1 ≤ 2) × (65537 ≤ 2 * 65536) × ((units : ℕ) → 1 ≤ units → 65537 ≤ units * 65536 → 2 ≤ units)
unfolding payload_size
calculate_credit_charge_least_example =
    calculate_credit_charge_least read_message refl (unfold payload_size in refl)
      (unfold calculate_credit_charge in refl)

generate_signature-with_signature_example :
    generate_signature test_crypto new_connection
      (with_signature (replicate 65 3) (replicate 16 9))
      []
      4
      false
      1
    ≡ generate_signature test_crypto new_connection (replicate 65 3) [] 4 false 1
generate_signature-with_signature_example =
    generate_signature-with_signature test_crypto new_connection (replicate 65 3) (replicate 16 9)
      [] 4 false 1 (omega arith) refl

parse_value-again_example :
    parse_value (enum_field commands true) true (fixed 2) (view_of []) (num 13) ≡ ok (num 13)
unfolding struct_unpack from_le
parse_value-again_example =
    parse_value-again (enum_field commands true) true (fixed 2) (view_of []) (bytes (13 ∷ 0 ∷ []))
      (unfold parse_value in refl)

length-pack_fields_example : length {A = ℕ} (13 ∷ 0 ∷ 5 ∷ 0 ∷ 0 ∷ 0 ∷ []) ≡ 6
unfolding struct_pack le_bytes
length-pack_fields_example =
    length-pack_fields (view_of []) (IntField "a" 2 13 ∷ IntField "b" 4 5 ∷ []) {n = 6}
      {b = 13 ∷ 0 ∷ 5 ∷ 0 ∷ 0 ∷ 0 ∷ []} refl (unfold pack_fields in refl)

-- A packet that is about to be framed.
abbrev framed : Structure
framed =
    record {
      name = "stream_protocol_length";
      kind = int_field;
      little_endian = false;
      size = fixed 4;
      value = lambda (length_of "smb2_message");
    }
    ∷ BytesField "smb2_message" (computed (value_of "stream_protocol_length")) (7 ∷ 8 ∷ [])
    ∷ []

abbrev packet_of : Bytes → Structure
packet_of b = fill direct_tcp_packet (num (length b) ∷ bytes b ∷ [])

unpack-pack_example :
    unpack direct_tcp_packet (0 ∷ 0 ∷ 0 ∷ 2 ∷ 7 ∷ 8 ∷ 9 ∷ []) ≡ ok (packet_of (7 ∷ 8 ∷ []), 9 ∷ [])
unfolding direct_tcp_packet calculated_value parse_value view_of view get_field pack pack_field
    pack_fields pack_value packed_size calculated_size struct_pack le_bytes
unpack-pack_example =
    unpack-pack framed direct_tcp_packet (num 2 ∷ bytes (7 ∷ 8 ∷ []) ∷ []) (9 ∷ [])
      {b = 0 ∷ 0 ∷ 0 ∷ 2 ∷ 7 ∷ 8 ∷ []} (refl, (refl, tt)) refl (an_int, tt, (a_string, refl, tt))
      refl

abbrev request_header : RequestHeader
request_header = record {
  protocol_id = smb_protocol_id;
  structure_size = 64;
  credit_charge = 1;
  channel_sequence = 0;
  reserved = 0;
  command = smb2_echo;
  credit_request = 1;
  flags = 0;
  next_command = 0;
  message_id = 5;
  process_id = 0;
  tree_id = 0;
  session_id = 0x1234;
  signature = replicate 16 0;
  payload = 4 ∷ 0 ∷ 0 ∷ 0 ∷ [];
}

abbrev header_bytes : Bytes → Bytes
header_bytes signature =
    smb_protocol_id
    ++ (64 ∷ 0 ∷ 1 ∷ 0 ∷ 0 ∷ 0 ∷ 0 ∷ 0 ∷ 13 ∷ 0 ∷ 1 ∷ 0 ∷ [])
    ++ replicate 8 0
    ++ (5 ∷ replicate 7 0)
    ++ replicate 8 0
    ++ (0x34 ∷ 0x12 ∷ replicate 6 0)
    ++ signature
    ++ (4 ∷ 0 ∷ 0 ∷ 0 ∷ [])

header_packs : pack (request request_header) ≡ ok (header_bytes (replicate 16 0))
unfolding request smb2_header_request calculated_value parse_value view_of view get_field pack
    pack_field pack_fields pack_value packed_size calculated_size struct_pack le_bytes
header_packs = refl

request-offsets_example :
    let b = header_bytes (replicate 16 0) in
    (struct_unpack true 2 (take 2 (drop 6 b)) ≡ ok 1)
    × (struct_unpack true 2 (take 2 (drop 14 b)) ≡ ok 1)
    × (struct_unpack true 4 (take 4 (drop 20 b)) ≡ ok 0)
    × (struct_unpack true 8 (take 8 (drop 24 b)) ≡ ok 5)
    × (struct_unpack true 4 (take 4 (drop 36 b)) ≡ ok 0)
    × (struct_unpack true 8 (take 8 (drop 40 b)) ≡ ok 0x1234)
request-offsets_example = request-offsets request_header header_packs

splice-signature_example :
    pack (request (record request_header { signature = replicate 16 7 }))
    ≡ ok (header_bytes (replicate 16 7))
splice-signature_example = splice-signature request_header (replicate 16 7) header_packs refl

abbrev small_write : WriteRequest
small_write = record {
  offset = 7;
  file_id = replicate 16 1;
  channel = 0;
  remaining_bytes = 0;
  write_channel_info_offset = 0;
  flags = 1;
  buffer = 5 ∷ 6 ∷ [];
  buffer_channel_info = [];
}

abbrev small_write_bytes : Bytes
small_write_bytes =
    (49 ∷ 0 ∷ 0x70 ∷ 0 ∷ 2 ∷ 0 ∷ 0 ∷ 0 ∷ 7 ∷ replicate 7 0)
    ++ replicate 16 1
    ++ replicate 12 0
    ++ (1 ∷ 0 ∷ 0 ∷ 0 ∷ 5 ∷ 6 ∷ [])

small_write_packs : pack (write_request small_write) ≡ ok small_write_bytes
unfolding write_request smb2_write_request calculated_value parse_value view_of view get_field pack
    pack_field pack_fields pack_value packed_size calculated_size struct_pack le_bytes
small_write_packs = refl

write_request-round_trip_example :
    unpack smb2_write_request (small_write_bytes ++ (0 ∷ []))
    ≡ ok (write_request small_write, 0 ∷ [])
write_request-round_trip_example = write_request-round_trip small_write (0 ∷ []) small_write_packs

abbrev small_setup : SessionSetup
small_setup = record {
  flags = 0;
  security_mode = 1;
  capabilities = 1;
  channel = 0;
  previous_session_id = 0;
  buffer = 9 ∷ 9 ∷ [];
}

abbrev small_setup_bytes : Bytes
small_setup_bytes =
    (25 ∷ 0 ∷ 0 ∷ 1 ∷ 1 ∷ replicate 7 0) ++ (88 ∷ 0 ∷ 2 ∷ 0 ∷ replicate 8 0) ++ (9 ∷ 9 ∷ [])

small_setup_packs : pack (session_setup small_setup) ≡ ok small_setup_bytes
unfolding session_setup smb2_session_setup_request calculated_value parse_value view_of view
    get_field pack pack_field pack_fields pack_value packed_size calculated_size struct_pack
    le_bytes
small_setup_packs = refl

calculate_credit_charge-read_example :
    (read 65536 0x0311 (replicate 16 1) 0 65536 0 true >>= calculate_credit_charge true)
    ≡ ok ((65536 - 1) / 65536 + 1)
calculate_credit_charge-read_example =
    calculate_credit_charge-read 65536 0x0311 (replicate 16 1) 0 65536 0 true (omega arith)
      (λ e. omega arith)

dfs_request-packed_example :
    (m : Message) × (dfs_request (4 ∷ 0 ∷ []) ≡ ok m)
    × (pack m.fields ≡ ok (dfs_head 2 ++ (4 ∷ 0 ∷ [])))
    × (get_value m.fields "input_offset" ≡ ok (num (64 + length (dfs_head 2))))
    × (get_value m.fields "input_count" ≡ ok (num 2))
    × (calculate_credit_charge true m ≡ ok ((max 2 57344 - 1) / max_payload_size + 1))
dfs_request-packed_example = dfs_request-packed (4 ∷ 0 ∷ []) (omega arith) (omega arith)
