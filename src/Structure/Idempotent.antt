-- ===== src/Structure/Idempotent.antt =====
-- smbprotocol/structure.py, `_parse_value`: a parsed value is parsed to itself.
use smbprotocol.Prelude.{
  ℕ, ◌≡◌, refl, ap, ◌∙◌, [], ◌∷◌, Bool, true, false, Result, ok, ◌>>=◌, arith, >>=-eq-ok,
  ok-injective, ◌==◌,
}
use smbprotocol.Bytes.{Bytes, struct_pack, struct_unpack}
use smbprotocol.Structure
use smbprotocol.Structure.{
  Value, absent, num, bytes, boolean, guid, View, Size, Kind, int_field, bytes_field, bool_field,
  uuid_field, enum_field, flag_field, parse_value,
}
use smbprotocol.Structure.FieldLaws.{check_enum-num, check_flags-num}

parse_int-num :
    (le : Bool) (size : Size) (v : View) (x : Value) {c : Value}
    → Structure.parse_int le size v x ≡ ok c
    → (i : ℕ) × (c ≡ num i)
unfolding Structure.parse_int
parse_int-num le size v absent h = (0, cc)
parse_int-num le size v (num n) h = (n, cc)
parse_int-num le size v (boolean true) h = (1, cc)
parse_int-num le size v (boolean false) h = (0, cc)
parse_int-num le size v (bytes b) h =
    let (n, p, h₁) = >>=-eq-ok (Structure.struct_size size v) _ h in
    let (i, q, h₂) = >>=-eq-ok (struct_unpack le n b) _ h₁ in (i, cc)
parse_int-num le size v (guid g) h = cc

module _ (check : Value → Result Value)
    (same : (i : ℕ) (v : Value) → check (num i) ≡ ok v → v ≡ num i) where
  checked_again :
      (le : Bool) (size : Size) (v : View) (x : Value) {c : Value}
      → (Structure.parse_int le size v x >>= check) ≡ ok c
      → (Structure.parse_int le size v c >>= check) ≡ ok c
  unfolding Structure.parse_int
  checked_again le size v x {c} h =
      let (y, p, q) = >>=-eq-ok (Structure.parse_int le size v x) check h in
      let (i, e) = parse_int-num le size v x p in
      let q' : check (num i) ≡ ok c = rw e at q in rw (same i c q') (q' ∙ ap ok (same i c q'))

parse_bytes-bytes :
    (le : Bool) (size : Size) (v : View) (x : Value) {c : Value}
    → Structure.parse_bytes le size v x ≡ ok c
    → (b : Bytes) × (c ≡ bytes b)
unfolding Structure.parse_bytes
parse_bytes-bytes le size v absent h = ([], cc)
parse_bytes-bytes le size v (num i) h =
    let (n, p, h₁) = >>=-eq-ok (Structure.struct_size size v) _ h in
    let (b, q, h₂) = >>=-eq-ok (struct_pack le n i) _ h₁ in (b, cc)
parse_bytes-bytes le size v (boolean t) h =
    let (n, p, h₁) = >>=-eq-ok (Structure.struct_size size v) _ h in
    let (b, q, h₂) = >>=-eq-ok (struct_pack le n (Structure.int_of_bool t)) _ h₁ in (b, cc)
parse_bytes-bytes le size v (bytes b) h = (b, cc)
parse_bytes-bytes le size v (guid g) h = cc

parse_bytes-again :
    (le : Bool) (size : Size) (v : View) (x : Value) {c : Value}
    → Structure.parse_bytes le size v x ≡ ok c
    → Structure.parse_bytes le size v c ≡ ok c
unfolding Structure.parse_bytes
parse_bytes-again le size v x h = let (b, e) = parse_bytes-bytes le size v x h in rw e

parse_bool-boolean :
    (x : Value) {c : Value} → Structure.parse_bool x ≡ ok c → (t : Bool) × (c ≡ boolean t)
unfolding Structure.parse_bool
parse_bool-boolean absent h = (false, cc)
parse_bool-boolean (num n) h = cc
parse_bool-boolean (bytes []) h = (false, cc)
parse_bool-boolean (bytes (b ∷ [])) h = (b == 1, cc)
parse_bool-boolean (bytes (a ∷ b ∷ bs)) h = (false, cc)
parse_bool-boolean (boolean t) h = (t, cc)
parse_bool-boolean (guid g) h = cc

parse_bool-again :
    (x : Value) {c : Value} → Structure.parse_bool x ≡ ok c → Structure.parse_bool c ≡ ok c
unfolding Structure.parse_bool
parse_bool-again x h = let (t, e) = parse_bool-boolean x h in rw e

parse_uuid-again :
    (le : Bool) (x : Value) {c : Value}
    → Structure.parse_uuid le x ≡ ok c
    → Structure.parse_uuid le c ≡ ok c
unfolding Structure.parse_uuid
parse_uuid-again le absent h = rw (← ok-injective h)
parse_uuid-again le (num n) {c} h = ground arith
parse_uuid-again le (boolean t) {c} h = ground arith
parse_uuid-again le (bytes b) {c} h = ground arith
parse_uuid-again le (guid g) h = rw (← ok-injective h)

-- Whatever a field of any class parses, it parses the result to itself.
pub parse_value-again :
    (k : Kind) (le : Bool) (size : Size) (v : View) (x : Value) {c : Value}
    → parse_value k le size v x ≡ ok c
    → parse_value k le size v c ≡ ok c
unfolding parse_value
parse_value-again int_field le size v x h =
    let (i, e) = parse_int-num le size v x h in rw e (unfold Structure.parse_int in refl)
parse_value-again bytes_field le size v x h = parse_bytes-again le size v x h
parse_value-again bool_field le size v x h = parse_bool-again x h
parse_value-again uuid_field le size v x h = parse_uuid-again le x h
parse_value-again (enum_field t strict) le size v x h =
    checked_again (Structure.check_enum t strict) (check_enum-num t strict) le size v x h
parse_value-again (flag_field t strict) le size v x h =
    checked_again (Structure.check_flags t strict) (check_flags-num t strict) le size v x h
