-- ===== src/Structure.antt =====
-- smbprotocol/structure.py: the fields of a message structure and the `Structure` class that packs
-- and unpacks them. `Structure/Walk` has the loops over the fields.
pub mod Walk
pub mod FieldLaws
pub mod Idempotent
pub mod RoundTrip
pub mod Build
pub mod Sizes
use smbprotocol.Prelude.{
  ℕ, zero, suc, ◌+◌, ◌*◌, ◌^◌, ◌<◌, List, [], ◌∷◌, ◌++◌, String, Bool, true, false, ◌&&◌, ◌||◌, not,
  Result, ok, err, ◌>>=◌, ◌>>◌, guard, value_error, type_error, invalid_field_definition, ltb, ◌==◌,
  if◌then◌else◌, length, take, drop, replicate, bit_and, bit_xor,
}
use smbprotocol.Bytes.{Bytes, le_bytes, struct_pack, struct_unpack}
use mathlib.Core.List.{reverse}

-- The Python values that a field takes. A `uuid.UUID` is its 16 bytes in big-endian order.
pub data Value : Type 0 where
  absent : Value
  num : ℕ → Value
  bytes : Bytes → Value
  boolean : Bool → Value
  guid : Bytes → Value

-- What a lambda sees of the structure `s`: `s[key].get_value()` and `len(s[key])`.
pub record View : Type 0 where
  pub get_value : String → Result Value
  pub len : String → Result ℕ

-- The `size` of a field: an int, None or a lambda.
pub data Size : Type 0 where
  fixed : ℕ → Size
  variable : Size
  computed : (View → Result ℕ) → Size

-- The `value` attribute: a parsed value or a lambda.
pub data Stored : Type 0 where
  concrete : Value → Stored
  lambda : (View → Result Value) → Stored

-- The class of a field. The enumerated values and the strictness are its `enum_type` and
-- `enum_strict` (`flag_type` and `flag_strict`).
pub data Kind : Type 0 where
  int_field bytes_field bool_field uuid_field : Kind
  enum_field flag_field : List ℕ → Bool → Kind

pub record Field : Type 0 where
  pub name : String
  pub kind : Kind
  pub little_endian : Bool
  pub size : Size
  pub value : Stored

-- `_get_struct_format`: the size stands for the format character.
unfoldable pub get_struct_format : ℕ → Result ℕ
get_struct_format size =
    if size == 1 || size == 2 || size == 4 || size == 8
    then ok size
    else err invalid_field_definition

unfoldable pub struct_size : Size → View → Result ℕ
unfolding get_struct_format
struct_size (fixed n) view = get_struct_format n
struct_size variable view = err invalid_field_definition
struct_size (computed f) view = f view >>= get_struct_format

-- `uuid.UUID(bytes_le=...)` and `.bytes_le`: the first three parts are byte-swapped.
unfoldable pub swap_guid : Bytes → Bytes
swap_guid b =
    reverse (take 4 b) ++ (reverse (take 2 (drop 4 b)) ++ (reverse (take 2 (drop 6 b)) ++ drop 8 b))

int_of_bool : Bool → ℕ
int_of_bool b = if b then 1 else 0

-- `_parse_value` of IntField.
unfoldable pub parse_int : Bool → Size → View → Value → Result Value
unfolding struct_size int_of_bool
parse_int le size view absent = ok (num 0)
parse_int le size view (num n) = ok (num n)
parse_int le size view (boolean b) = ok (num (int_of_bool b))
parse_int le size view (bytes b) = do
  n ← struct_size size view
  i ← struct_unpack le n b
  ok (num i)
parse_int le size view (guid g) = err type_error

-- `_parse_value` of BytesField.
unfoldable pub parse_bytes : Bool → Size → View → Value → Result Value
unfolding struct_size int_of_bool
parse_bytes le size view absent = ok (bytes [])
parse_bytes le size view (num i) = do
  n ← struct_size size view
  b ← struct_pack le n i
  ok (bytes b)
parse_bytes le size view (boolean t) = do
  n ← struct_size size view
  b ← struct_pack le n (int_of_bool t)
  ok (bytes b)
parse_bytes le size view (bytes b) = ok (bytes b)
parse_bytes le size view (guid g) = err type_error

-- `_parse_value` of BoolField.
unfoldable pub parse_bool : Value → Result Value
parse_bool absent = ok (boolean false)
parse_bool (num n) = err type_error
parse_bool (bytes (b ∷ [])) = ok (boolean (b == 1))
parse_bool (bytes _) = ok (boolean false)
parse_bool (boolean t) = ok (boolean t)
parse_bool (guid g) = err type_error

-- `uuid.UUID(int=...)`.
uuid_of_int : ℕ → Result Value
uuid_of_int n = if ltb n (256 ^ 16) then ok (guid (reverse (le_bytes 16 n))) else err value_error

-- `_parse_value` of UuidField.
unfoldable pub parse_uuid : Bool → Value → Result Value
unfolding uuid_of_int swap_guid int_of_bool
parse_uuid le absent = ok (guid (replicate 16 0))
parse_uuid le (num n) = uuid_of_int n
parse_uuid le (boolean t) = uuid_of_int (int_of_bool t)
parse_uuid le (bytes b) =
    if length b == 16 then ok (guid (if le then b else swap_guid b)) else err value_error
parse_uuid le (guid g) = ok (guid g)

unfoldable pub member : ℕ → List ℕ → Bool
member n [] = false
member n (m ∷ ms) = n == m || member n ms

-- The bits of `n` that no flag covers: `current_val &= ~value` for each flag in turn.
unfoldable pub clear_flags : ℕ → List ℕ → ℕ
clear_flags n [] = n
clear_flags n (m ∷ ms) = clear_flags (bit_xor n (bit_and n m)) ms

-- The check of EnumField's `_parse_value` on the int.
unfoldable pub check_enum : List ℕ → Bool → Value → Result Value
unfolding member
check_enum enum_type strict (num n) =
    if not (member n enum_type) && (not (n == 0) && strict) then err value_error else ok (num n)
check_enum enum_type strict v = ok v

-- The check of FlagField's `_parse_value` on the int.
unfoldable pub check_flags : List ℕ → Bool → Value → Result Value
unfolding clear_flags
check_flags flag_type strict (num n) =
    if not (clear_flags n flag_type == 0) && strict then err value_error else ok (num n)
check_flags flag_type strict v = ok v

-- `_parse_value` of each class.
unfoldable pub parse_value : Kind → Bool → Size → View → Value → Result Value
unfolding parse_int parse_bytes parse_bool parse_uuid check_enum check_flags
parse_value int_field le size view v = parse_int le size view v
parse_value bytes_field le size view v = parse_bytes le size view v
parse_value bool_field le size view v = parse_bool v
parse_value uuid_field le size view v = parse_uuid le v
parse_value (enum_field enum_type strict) le size view v =
    parse_int le size view v >>= check_enum enum_type strict
parse_value (flag_field flag_type strict) le size view v =
    parse_int le size view v >>= check_flags flag_type strict

-- `_pack_value` of IntField; what `struct.pack` says of a value that is no int.
unfoldable pub pack_int : Bool → Size → View → Value → Result Bytes
unfolding struct_size
pack_int le size view (num i) = do n ← struct_size size view; struct_pack le n i
pack_int le size view _ = err type_error

-- `_pack_value` of each class.
unfoldable pub pack_value : Kind → Bool → Size → View → Value → Result Bytes
unfolding pack_int swap_guid
pack_value int_field le size view v = pack_int le size view v
pack_value (enum_field enum_type strict) le size view v = pack_int le size view v
pack_value (flag_field flag_type strict) le size view v = pack_int le size view v
pack_value bytes_field le size view (bytes b) = ok b
pack_value bytes_field le size view _ = err type_error
pack_value bool_field le size view (boolean t) = ok (if t then 1 ∷ [] else 0 ∷ [])
pack_value bool_field le size view _ = err type_error
pack_value uuid_field le size view (guid g) = ok (if le then g else swap_guid g)
pack_value uuid_field le size view _ = err type_error

-- `_get_calculated_value`: a lambda is run and its result parsed.
unfoldable pub calculated_value : Field → View → Stored → Result Value
unfolding parse_value
calculated_value f view (concrete v) = parse_value f.kind f.little_endian f.size view v
calculated_value f view (lambda g) = g view >>= parse_value f.kind f.little_endian f.size view

-- `_get_calculated_size`: None is the length of the data.
unfoldable pub calculated_size : Size → View → Bytes → Result ℕ
calculated_size (fixed n) view b = ok n
calculated_size variable view b = ok (length b)
calculated_size (computed g) view b = g view

-- `self.size` where it is an int.
unfoldable pub int_size : Size → Result ℕ
int_size (fixed n) = ok n
int_size _ = err type_error

length_of_bytes : Value → Result ℕ
length_of_bytes (bytes b) = ok (length b)
length_of_bytes _ = err type_error

-- `_get_packed_size` of each class, which is `len(field)`.
packed_size_as : Kind → Field → View → Result ℕ
unfolding int_size length_of_bytes calculated_value
packed_size_as bytes_field f view = calculated_value f view f.value >>= length_of_bytes
packed_size_as bool_field f view = ok 1
packed_size_as _ f view = int_size f.size

unfoldable pub packed_size : Field → View → Result ℕ
unfolding packed_size_as
packed_size f view = packed_size_as f.kind f view

-- `pack`: the packed value must have the size of the field.
unfoldable pub pack_field : Field → View → Result Bytes
unfolding calculated_value pack_value calculated_size
pack_field f view = do
  v ← calculated_value f view f.value
  b ← pack_value f.kind f.little_endian f.size view v
  n ← calculated_size f.size view b
  guard (length b == n) value_error
  ok b

-- `set_value` with a value that is no lambda.
unfoldable pub set_value : Field → View → Value → Result Field
unfolding parse_value
set_value f view v = do
  w ← parse_value f.kind f.little_endian f.size view v
  ok (record f { value = concrete w })

-- FlagField's `has_flag`.
unfoldable pub has_flag : ℕ → ℕ → Bool
has_flag value flag = bit_and value flag == flag
