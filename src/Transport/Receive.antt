-- ===== src/Transport/Receive.antt =====
-- smbprotocol/transport.py: what `recv` returns, however the network cuts the stream.
use smbprotocol.Prelude.{
  ℕ, ◌+◌, ◌-◌, ◌≤◌, ◌<◌, ◌^◌, ◌≡◌, refl, sym, ap, ◌∙◌, List, [], ◌∷◌, ◌++◌, append_assoc, false,
  true, some, ok, arith, length, length-append, take, drop, take-append-drop, length-drop,
  length-take, take-append_le, drop-append_le, drop-length_add, take-length_append, All, min,
  lt→ltb, pos→not_zero, ltb_irrefl, ok-injective, nil_of_length, replicate, length-replicate,
}
use smbprotocol.Bytes.{Bytes, le_bytes, struct_unpack}
use smbprotocol.Bytes.Laws.{
  length-reverse, length-le_bytes, struct_unpack-struct_pack, struct_pack-fits,
}
use smbprotocol.Transport.Framing.{frame_lem, frame-eq_ok}
use mathlib.Core.List.{reverse}
use mathlib.Core.Path.{subst}
use smbprotocol.Transport
use smbprotocol.Transport.{
  max_size, Arrival, available, Tcp, Outcome, returned, recv_loop, recv_exactly, recv, write_at,
  frame,
}

-- A round in which some bytes have arrived.
abbrev pub IsData : Arrival → Type 0
IsData (Arrival.available n) = 1 ≤ n
IsData _ = ⊥

abbrev pub open_with : Bytes → Tcp
open_with stream = record { connected = true; stream = stream }

recv_loop_step :
    (size n : ℕ) (arrivals : List Arrival) (offset : ℕ) (buffer stream chunk : Bytes)
    → offset < size
    → take (min n (size - offset)) stream ≡ chunk
    → 0 < length chunk
    → recv_loop size (available n ∷ arrivals) offset buffer (open_with stream)
      ≡ recv_loop size arrivals
          (offset + length chunk)
          (write_at buffer offset chunk)
          (open_with (drop (min n (size - offset)) stream))
unfolding recv_loop
recv_loop_step size n arrivals offset buffer stream chunk h e p =
    rw (recv_loop, lt→ltb offset size h, e, pos→not_zero (length chunk) p) refl

write_at_seam :
    (done zeros chunk : Bytes)
    → write_at (done ++ zeros) (length done) chunk ≡ (done ++ chunk) ++ drop (length chunk) zeros
unfolding write_at
write_at_seam done zeros chunk =
    rw (take-length_append, drop-length_add)
      (sym (append_assoc done chunk (drop (length chunk) zeros)))

-- What the loop returns after `done` bytes are read: the next bytes of the stream, and no more.
abbrev Delivers : ℕ → List Arrival → Bytes → Bytes → Bytes → Bytes → Type 0
Delivers size arrivals done todo zeros more =
    (left : List Arrival) × (recv_loop size arrivals (length done) (done ++ zeros)
        (open_with (todo ++ more))
      ≡ (returned (some (done ++ todo)), open_with more, left))
    × All IsData left
    × (length arrivals ≤ length left + length todo)

recv_loop_done :
    (size : ℕ) (arrivals : List Arrival) (done zeros more : Bytes)
    → length done ≡ size
    → length zeros ≡ 0
    → All IsData arrivals
    → Delivers size arrivals done [] zeros more
unfolding recv_loop
recv_loop_done size [] done zeros more e z h =
    ([], rw (nil_of_length zeros z, ltb_irrefl (length done) size e), tt, omega arith)
recv_loop_done size (a ∷ arrivals) done zeros more e z h = (
  a ∷ arrivals,
  rw (recv_loop, ltb_irrefl (length done) size e, nil_of_length zeros z),
  h,
  omega arith,
)

-- The loop, whatever the sizes of the pieces in which the bytes arrive.
recv_loop-Delivers :
    (size : ℕ) (arrivals : List Arrival) (done todo zeros more : Bytes)
    → length done + length todo ≡ size
    → length zeros ≡ length todo
    → All IsData arrivals
    → length todo ≤ length arrivals
    → Delivers size arrivals done todo zeros more
recv_loop-Delivers size arrivals done [] zeros more e z h k =
    recv_loop_done size arrivals done zeros more (omega arith) z h
recv_loop-Delivers size [] done (b ∷ bs) zeros more e z h k = absurd (omega arith)
recv_loop-Delivers size (Arrival.timed_out ∷ arrivals) done (b ∷ bs) zeros more e z (h, _) k =
    absurd h
recv_loop-Delivers size (Arrival.reset ∷ arrivals) done (b ∷ bs) zeros more e z (h, _) k = absurd h
recv_loop-Delivers size (Arrival.broken ∷ arrivals) done (b ∷ bs) zeros more e z (h, _) k = absurd h
recv_loop-Delivers size (Arrival.closed_elsewhere ∷ arrivals) done (b ∷ bs) zeros more e z (h, _)
      k =
    absurd h
recv_loop-Delivers size (available n ∷ arrivals) done (b ∷ bs) zeros more e z (p, h) k =
    let todo : Bytes = b ∷ bs in
    let m : ℕ = min n (size - length done) in
    let chunk : Bytes = take m todo in
    let chunked : length chunk ≡ m = omega (arith, length-take m todo) in
    let zeros' : Bytes = drop (length chunk) zeros in
    let (left, r, all, count) =
      recv_loop-Delivers size arrivals (done ++ chunk) (drop m todo) zeros' more
        (omega (arith, length-append done chunk, length-drop m todo))
        (omega (arith, length-drop m todo, length-drop (length chunk) zeros)) h
        (omega (arith, length-drop m todo)) in
    let fits : m ≤ length todo = omega arith in
    let step =
      recv_loop_step size n arrivals (length done) (done ++ zeros) (todo ++ more) chunk
        (omega arith) (take-append_le m todo more fits) (omega arith) in
    let joined : (done ++ chunk) ++ drop m todo ≡ done ++ todo =
      append_assoc done chunk (drop m todo) ∙ ap (◌++◌ done) (take-append-drop m todo) in
    let again : recv_loop size arrivals (length done + length chunk)
          (write_at (done ++ zeros) (length done) chunk) (open_with (drop m (todo ++ more)))
        ≡ (returned (some (done ++ todo)), open_with more, left) =
      rw
        (
          write_at_seam done zeros chunk,
          ← length-append done chunk,
          drop-append_le m todo more fits,
          ← joined,
        )
        r in
    (left, step ∙ again, all, omega (arith, length-drop m todo))

recv_exactly-delivers :
    (size : ℕ) (arrivals : List Arrival) (todo more : Bytes)
    → length todo ≡ size
    → All IsData arrivals
    → size ≤ length arrivals
    → (left : List Arrival) × (recv_exactly size arrivals (open_with (todo ++ more))
        ≡ (returned (some todo), open_with more, left))
      × All IsData left
      × (length arrivals ≤ length left + size)
unfolding recv_exactly
recv_exactly-delivers size arrivals todo more e h k =
    let (left, r, all, count) =
      recv_loop-Delivers size arrivals [] todo (replicate size 0) more (omega arith)
        (length-replicate size 0 ∙ sym e) h (omega arith) in
    (left, r, all, omega arith)

-- The bytes of a length make `recv` wait for so many bytes.
recv_body_header :
    (size : ℕ) (b : Bytes) (t : Tcp) (arrivals : List Arrival)
    → 0 < length b
    → struct_unpack false 4 b ≡ ok size
    → Transport.recv_body (returned (some b)) t arrivals ≡ recv_exactly size arrivals t
unfolding Transport.recv_body
recv_body_header size [] t arrivals p h = absurd (omega arith)
recv_body_header size (b ∷ bs) t arrivals p h = rw (h, Transport.recv_body)

recv-header :
    (m more : Bytes) (arrivals : List Arrival)
    → length m ≤ max_size
    → All IsData arrivals
    → 4 + length m ≤ length arrivals
    → (left : List Arrival) × (recv arrivals
          (open_with ((reverse (le_bytes 4 (length m)) ++ m) ++ more))
        ≡ (returned (some m), open_with more, left))
unfolding recv
recv-header m more arrivals fits h k =
    let head : Bytes = reverse (le_bytes 4 (length m)) in
    let counted : length head ≡ 4 =
      length-reverse (le_bytes 4 (length m)) ∙ length-le_bytes 4 (length m) in
    let small : length m < 256 ^ 4 = omega arith in
    let read : struct_unpack false 4 head ≡ ok (length m) =
      struct_unpack-struct_pack false 4 (length m) (struct_pack-fits false 4 (length m) small) in
    let (left, r, all, count) =
      recv_exactly-delivers 4 arrivals head (m ++ more) counted h (omega arith) in
    let (left', r', _, _) = recv_exactly-delivers (length m) left m more refl all (omega arith) in
    (
      left',
      rw (append_assoc head m more, r)
          (recv_body_header (length m) head (open_with (m ++ more)) left (omega arith) read ∙ r'),
    )

-- What `send` hands to the socket, `recv` returns on the other side of an open connection, if the
-- bytes arrive in any number of nonempty pieces, as many as there are bytes or more; the stream is
-- left at the end of the message.
pub recv-frame :
    (m more : Bytes) (arrivals : List Arrival) {b : Bytes}
    → frame m ≡ ok b
    → All IsData arrivals
    → length b ≤ length arrivals
    → (left : List Arrival) × (recv arrivals (open_with (b ++ more))
        ≡ (returned (some m), open_with more, left))
recv-frame m more arrivals {b} e h k =
    let head : Bytes = reverse (le_bytes 4 (length m)) in
    let whole : head ++ m ≡ b = ok-injective (sym (frame_lem m (frame-eq_ok m e)) ∙ e) in
    let total : length b ≡ 4 + length m = omega (
      arith,
      ap (length {A = ℕ}) whole,
      length-append head m,
      length-reverse (le_bytes 4 (length m)),
      length-le_bytes 4 (length m),
    ) in
    subst
      (λ (y : Bytes).
        (left : List Arrival) × (recv arrivals (open_with (y ++ more))
          ≡ (returned (some m), open_with more, left)))
      whole (recv-header m more arrivals (frame-eq_ok m e) h (omega arith))
