-- ===== src/Bytes/Laws.antt =====
-- Packing and unpacking integers are inverse to one another.
use smbprotocol.Prelude.{
  ℕ, zero, suc, ◌+◌, ◌*◌, ◌/◌, ◌%◌, ◌^◌, ◌<◌, ◌≡◌, refl, ap, [], ◌∷◌, Bool, true, false, ok, arith,
  length, length-append, All, lt→ltb, if◌then◌else◌,
}
use smbprotocol.Bytes.{Bytes, IsByte, le_bytes, from_le, struct_pack, struct_unpack}
use mathlib.Core.List.{reverse, reverse-reverse, reverse-cons}
use native.Mathlib.Nat.{pow-suc}

pub length-le_bytes : (width n : ℕ) → length (le_bytes width n) ≡ width
unfolding le_bytes
length-le_bytes zero n = refl
length-le_bytes (suc width) n = ap suc (length-le_bytes width (n / 256))

pub length-reverse : (bs : Bytes) → length (reverse bs) ≡ length bs
length-reverse [] = refl
length-reverse (b ∷ bs) =
    rw reverse-cons (omega (arith, length-append (reverse bs) (b ∷ []), length-reverse bs))

div_lt_pow : (width n : ℕ) → n < 256 ^ suc width → n / 256 < 256 ^ width
div_lt_pow width n h = omega (arith, pow-suc 256 width)

pub from_le-le_bytes : (width n : ℕ) → n < 256 ^ width → from_le (le_bytes width n) ≡ n
unfolding le_bytes from_le
from_le-le_bytes zero n h = omega arith
from_le-le_bytes (suc width) n h =
    omega (arith, from_le-le_bytes width (n / 256) (div_lt_pow width n h))

pub le_bytes-IsByte : (width n : ℕ) → All IsByte (le_bytes width n)
unfolding le_bytes
le_bytes-IsByte zero n = tt
le_bytes-IsByte (suc width) n = (omega arith, le_bytes-IsByte width (n / 256))

pub le_bytes-from_le : (bs : Bytes) → All IsByte bs → le_bytes (length bs) (from_le bs) ≡ bs
unfolding le_bytes from_le
le_bytes-from_le [] h = refl
le_bytes-from_le (b ∷ bs) (hb, h) =
    let low : (b + 256 * from_le bs) % 256 ≡ b = omega arith in
    let high : (b + 256 * from_le bs) / 256 ≡ from_le bs = omega arith in
    rw (low, high, le_bytes-from_le bs h)

pub from_le-lt : (bs : Bytes) → All IsByte bs → from_le bs < 256 ^ length bs
unfolding from_le
from_le-lt [] h = omega arith
from_le-lt (b ∷ bs) (hb, h) = omega (arith, pow-suc 256 (length bs), from_le-lt bs h)

pub struct_pack-fits :
    (le : Bool) (size n : ℕ)
    → n < 256 ^ size
    → struct_pack le size n ≡ ok (if le then le_bytes size n else reverse (le_bytes size n))
unfolding struct_pack
struct_pack-fits le size n h = rw (lt→ltb _ _ h)

-- What `struct.pack` writes has the length of the format.
pub length-struct_pack :
    (le : Bool) (size n : ℕ) {b : Bytes} → struct_pack le size n ≡ ok b → length b ≡ size
unfolding struct_pack
length-struct_pack true size n h = ground (arith, length-le_bytes size n)
length-struct_pack false size n h =
    ground (arith, length-le_bytes size n, length-reverse (le_bytes size n))

-- `struct.unpack` reads back what `struct.pack` wrote, in either byte order.
pub struct_unpack-struct_pack :
    (le : Bool) (size n : ℕ) {b : Bytes}
    → struct_pack le size n ≡ ok b
    → struct_unpack le size b ≡ ok n
unfolding struct_pack struct_unpack
struct_unpack-struct_pack true size n h =
    ground (arith, length-le_bytes size n, from_le-le_bytes size n)
struct_unpack-struct_pack false size n h = ground (
  arith,
  length-le_bytes size n,
  length-reverse (le_bytes size n),
  reverse-reverse (le_bytes size n),
  from_le-le_bytes size n,
)
