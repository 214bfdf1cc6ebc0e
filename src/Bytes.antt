-- ===== src/Bytes.antt =====
-- Byte strings as lists of numbers, and the part of Python's `struct` module that the program calls
-- (`struct.pack` and `struct.unpack` of one unsigned integer of 1, 2, 4 or 8 bytes).
pub mod Laws
use smbprotocol.Prelude.{
  ℕ, zero, suc, ◌+◌, ◌*◌, ◌/◌, ◌%◌, ◌^◌, ◌<◌, List, [], ◌∷◌, ◌++◌, Bool, true, false, Result, ok,
  err, struct_error, ltb, ◌==◌, if◌then◌else◌, length,
}
use mathlib.Core.List.{reverse}

abbrev pub Bytes : Type 0
Bytes = List ℕ

abbrev pub IsByte : ℕ → Type 0
IsByte b = b < 256

-- The little-endian bytes of a number, `width` of them.
unfoldable pub le_bytes : ℕ → ℕ → Bytes
le_bytes zero n = []
le_bytes (suc width) n = (n % 256) ∷ le_bytes width (n / 256)

unfoldable pub from_le : Bytes → ℕ
from_le [] = 0
from_le (b ∷ bs) = b + 256 * from_le bs

-- struct.pack("<B", n) and the other unsigned formats: out of range is a `struct.error`.
unfoldable pub struct_pack : Bool → ℕ → ℕ → Result Bytes
struct_pack little_endian size n =
    if ltb n (256 ^ size)
    then ok (if little_endian then le_bytes size n else reverse (le_bytes size n))
    else err struct_error

-- struct.unpack("<B", b)[0] and the others: the length must be that of the format.
unfoldable pub struct_unpack : Bool → ℕ → Bytes → Result ℕ
struct_unpack little_endian size b =
    if length b == size
    then ok (if little_endian then from_le b else from_le (reverse b))
    else err struct_error
