-- ===== src/Transport/Framing.antt =====
-- smbprotocol/transport.py: what `send` writes.
use smbprotocol.Prelude.{
  ℕ, ◌≤◌, ◌<◌, ◌^◌, value_error, le→leb, ==_refl, leb, leb→le, leb→gt, Bool-cases, inl, inr, ◌≡◌,
  ap, ◌∙◌, List, [], ◌∷◌, ◌++◌, append-nil, append_assoc, false, some, ok, err, arith, length, take,
  drop, take-append-drop, length-drop, All,
}
use smbprotocol.Bytes.{Bytes, le_bytes}
use smbprotocol.Bytes.Laws.{struct_pack-fits, length-reverse, length-le_bytes}
use smbprotocol.Transport.{max_size, frame, send_loop}
use smbprotocol.Structure.{packed_size, struct_size}
use mathlib.Core.List.{reverse}

-- A message of an admissible size is framed by its length in four bytes, the most significant one
-- first.
pub frame_lem :
    (m : Bytes) → length m ≤ max_size → frame m ≡ ok (reverse (le_bytes 4 (length m)) ++ m)
unfolding frame packed_size struct_size
frame_lem m h =
    let small : length m < 256 ^ 4 = omega arith in
    rw (
      le→leb _ _ h,
      struct_pack-fits false 4 (length m) small,
      length-reverse,
      length-le_bytes,
      ==_refl,
      append-nil,
    )

pub frame_too_long : (m : Bytes) → max_size < length m → frame m ≡ err value_error
unfolding frame
frame_too_long m h = ground arith

pub frame-eq_ok : (m : Bytes) {b : Bytes} → frame m ≡ ok b → length m ≤ max_size
frame-eq_ok m h = elim (Bool-cases (leb (length m) max_size)) [
  | inl fits ↦ leb→le _ _ fits
  | inr long ↦ cc (frame_too_long m (omega (arith, leb→gt _ _ long)))
]

-- A sequence of partial sends that each take a byte or more, as many as there are bytes or more,
-- writes the data once, in order.
pub send_loop-delivers :
    (accepted : List ℕ) (m sent : Bytes)
    → All (λ n. 1 ≤ n) accepted
    → length m ≤ length accepted
    → send_loop accepted m sent ≡ some (sent ++ m)
unfolding send_loop
send_loop-delivers accepted [] sent h k = rw append-nil
send_loop-delivers [] (b ∷ bs) sent h k = absurd (omega arith)
send_loop-delivers (n ∷ accepted) (b ∷ bs) sent (p, h) k =
    send_loop-delivers accepted (drop n (b ∷ bs)) (sent ++ take n (b ∷ bs)) h
      (omega (arith, length-drop n (b ∷ bs)))
    ∙ ap some (append_assoc sent _ _ ∙ ap (◌++◌ sent) (take-append-drop n (b ∷ bs)))
