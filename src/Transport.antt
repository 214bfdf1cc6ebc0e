-- ===== src/Transport.antt =====
-- smbprotocol/transport.py: the Direct TCP framing and the socket loops of `Tcp`.
-- The socket is the operating system's. What it does is an argument: the number of bytes that each
-- `send` accepts, and for each round of `_recv` what `select` and `recv` find.
pub mod Framing
pub mod Receive
use smbprotocol.Prelude.{
  ℕ, zero, suc, ◌+◌, ◌-◌, ◌*◌, ◌^◌, ◌<◌, List, [], ◌∷◌, ◌++◌, Bool, true, false, Option, none, some,
  Result, ok, err, ◌>>=◌, ◌>>◌, guard, Error, value_error, timeout_error, os_error, ltb, leb,
  if◌then◌else◌, length, take, drop, replicate, min, ◌==◌,
}
use smbprotocol.Bytes.{Bytes, struct_unpack}
use smbprotocol.Structure.{Value, num, bytes, Size, computed, lambda, Field, int_field, fixed}
use smbprotocol.Structure.Walk.{Structure, set_item, pack}
use smbprotocol.Structure.Build.{value_of, length_of, BytesField}

-- `DirectTCPPacket`
unfoldable pub direct_tcp_packet : Structure
direct_tcp_packet =
    record {
      name = "stream_protocol_length";
      kind = int_field;
      little_endian = false;
      size = fixed 4;
      value = lambda (length_of "smb2_message");
    }
    ∷ BytesField "smb2_message" (computed (value_of "stream_protocol_length")) []
    ∷ []

abbrev pub max_size : ℕ
max_size = 16777215

-- The bytes that `send` hands to the socket.
unfoldable pub frame : Bytes → Result Bytes
unfolding direct_tcp_packet set_item pack
frame b_msg = do
  guard (leb (length b_msg) max_size) value_error
  tcp_packet ← set_item direct_tcp_packet "smb2_message" (bytes b_msg)
  pack tcp_packet

-- The loop `while data` of `send`. `accepted` lists what each call of the socket's `send` returns;
-- `none` means that the next call has not returned.
unfoldable pub send_loop : List ℕ → Bytes → Bytes → Option Bytes
send_loop accepted [] sent = some sent
send_loop [] (b ∷ bs) sent = none
send_loop (n ∷ accepted) (b ∷ bs) sent =
    send_loop accepted (drop n (b ∷ bs)) (sent ++ take n (b ∷ bs))

-- What a round of `_recv` meets: `available n` means that `select` reports data and that n bytes of the
-- stream have arrived (0 once the peer has shut the socket down).
pub data Arrival : Type 0 where
  available : ℕ → Arrival
  timed_out reset broken closed_elsewhere : Arrival

-- The part of `Tcp` that `recv` uses; `stream` is what the peer has sent and is not yet read.
pub record Tcp : Type 0 where
  pub connected : Bool
  pub stream : Bytes

-- How a call ends: it returns bytes or None, raises, or waits for the next arrival.
pub data Outcome : Type 0 where
  returned : Option Bytes → Outcome
  raised : Error → Outcome
  waiting : Outcome

-- `close`, as the receiver calls it.
unfoldable pub close : Tcp → Tcp
close t = record t { connected = false }

-- `buffer[offset : offset + len(b_data)] = b_data`
unfoldable pub write_at : Bytes → ℕ → Bytes → Bytes
write_at buffer offset b_data =
    take offset buffer ++ (b_data ++ drop (offset + length b_data) buffer)

-- The loop of `_recv`, with the arrivals that it has not used.
unfoldable pub recv_loop : ℕ → List Arrival → ℕ → Bytes → Tcp → Outcome × Tcp × List Arrival
unfolding close write_at
recv_loop size [] offset buffer t =
    if ltb offset size then (waiting, t, []) else (returned (some buffer), t, [])
recv_loop size (a ∷ arrivals) offset buffer t = elim (ltb offset size) [
  | false ↦ (returned (some buffer), t, a ∷ arrivals)
  | true ↦ elim t.connected [
    | false ↦ (returned none, t, arrivals)
    | true ↦ elim a [
      | closed_elsewhere ↦ (returned none, close t, arrivals)
      | timed_out ↦ (raised timeout_error, t, arrivals)
      | broken ↦ (raised os_error, t, arrivals)
      | reset ↦ (returned none, close t, arrivals)
      | available n ↦
          let b_data : Bytes = take (min n (size - offset)) t.stream in
          let rest : Tcp = record t { stream = drop (min n (size - offset)) t.stream } in
          let go : Outcome × Tcp × List Arrival =
            recv_loop size arrivals (offset + length b_data) (write_at buffer offset b_data) rest in
          if length b_data == 0 then (returned none, close t, arrivals) else go
    ]
  ]
]

-- `_recv`
unfoldable pub recv_exactly : ℕ → List Arrival → Tcp → Outcome × Tcp × List Arrival
unfolding recv_loop
recv_exactly size arrivals t = recv_loop size arrivals 0 (replicate size 0) t

-- The rest of `recv`, once the first call has ended.
recv_body : Outcome → Tcp → List Arrival → Outcome × Tcp × List Arrival
unfolding recv_exactly struct_unpack
recv_body (returned (some [])) t arrivals = (returned (some []), t, arrivals)
recv_body (returned (some (b ∷ bs))) t arrivals = elim (struct_unpack false 4 (b ∷ bs)) [
  | ok packet_size ↦ recv_exactly packet_size arrivals t
  | err e ↦ (raised e, t, arrivals)
]
recv_body (returned none) t arrivals = (returned (some []), t, arrivals)
recv_body (raised e) t arrivals = (raised e, t, arrivals)
recv_body waiting t arrivals = (waiting, t, arrivals)

-- `recv`
unfoldable pub recv : List Arrival → Tcp → Outcome × Tcp × List Arrival
unfolding recv_exactly recv_body
recv arrivals t = let (o, t', rest) = recv_exactly 4 arrivals t in recv_body o t' rest
