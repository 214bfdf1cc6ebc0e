-- ===== src/Structure/Build.antt =====
-- smbprotocol/structure.py: the constructors of the field classes, as the message definitions call
-- them, and the lambdas that they pass. A field is set to its default when the structure is made; the
-- default None parses to 0 or to the empty string.
use smbprotocol.Prelude.{
  ℕ, List, Bool, true, false, String, Result, ok, err, ◌>>=◌, type_error, length, replicate,
}
use smbprotocol.Bytes.{Bytes}
use smbprotocol.Structure.{
  Value, num, bytes, boolean, guid, View, Size, fixed, concrete, lambda, int_field, bytes_field,
  bool_field, uuid_field, enum_field, flag_field, Field,
}

-- `s[key].get_value()` where an int is wanted.
abbrev pub as_int : Value → Result ℕ
as_int (num n) = ok n
as_int _ = err type_error

abbrev pub value_of : String → View → Result ℕ
value_of key v = v.get_value key >>= as_int

-- `len(s[key])` as a default.
abbrev pub length_of : String → View → Result Value
length_of key v = v.len key >>= λ n. ok (num n)

abbrev pub IntField : String → ℕ → ℕ → Field
IntField name size default = record {
  name = name;
  kind = int_field;
  little_endian = true;
  size = fixed size;
  value = concrete (num default);
}

abbrev pub EnumField : String → ℕ → List ℕ → Bool → Field
EnumField name size enum_type strict = record {
  name = name;
  kind = enum_field enum_type strict;
  little_endian = true;
  size = fixed size;
  value = concrete (num 0);
}

abbrev pub FlagField : String → ℕ → List ℕ → Field
FlagField name size flag_type = record {
  name = name;
  kind = flag_field flag_type true;
  little_endian = true;
  size = fixed size;
  value = concrete (num 0);
}

-- A FlagField with `flag_strict=False`.
abbrev pub LooseFlagField : String → ℕ → List ℕ → Field
LooseFlagField name size flag_type = record {
  name = name;
  kind = flag_field flag_type false;
  little_endian = true;
  size = fixed size;
  value = concrete (num 0);
}

-- A BoolField with its default None.
abbrev pub BoolField : String → Field
BoolField name = record {
  name = name;
  kind = bool_field;
  little_endian = true;
  size = fixed 1;
  value = concrete (boolean false);
}

-- A UuidField with its default None.
abbrev pub UuidField : String → Field
UuidField name = record {
  name = name;
  kind = uuid_field;
  little_endian = true;
  size = fixed 16;
  value = concrete (guid (replicate 16 0));
}

abbrev pub BytesField : String → Size → Bytes → Field
BytesField name size default = record {
  name = name;
  kind = bytes_field;
  little_endian = true;
  size = size;
  value = concrete (bytes default);
}

-- An IntField whose default is a lambda.
abbrev pub ComputedInt : String → ℕ → (View → Result Value) → Field
ComputedInt name size default = record {
  name = name;
  kind = int_field;
  little_endian = true;
  size = fixed size;
  value = lambda default;
}

-- `len(s[key].get_value())` for a byte string.
abbrev pub as_length : Value → Result ℕ
as_length (bytes b) = ok (length b)
as_length _ = err type_error
