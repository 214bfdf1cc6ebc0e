-- ===== src/Structure/FieldLaws.antt =====
-- smbprotocol/structure.py, one field: what it packs is what it unpacks.
use smbprotocol.Prelude.{
  ℕ, ◌≡◌, refl, sym, String, ap, ◌∙◌, List, [], ◌∷◌, Bool, Result, ok, err, ◌>>=◌, ◌>>◌, guard,
  value_error, arith, length, >>=-eq-ok, ◌==◌,
}
use smbprotocol.Bytes.{Bytes, struct_pack}
use smbprotocol.Bytes.Laws.{length-struct_pack, struct_unpack-struct_pack}
use smbprotocol.Structure
use smbprotocol.Structure.{
  Value, absent, num, bytes, boolean, guid, View, Size, fixed, variable, computed, concrete, Kind,
  int_field, bytes_field, bool_field, uuid_field, enum_field, flag_field, Field, get_struct_format,
  parse_value, pack_value, calculated_value, calculated_size, packed_size, pack_field, swap_guid,
}

-- The value that a field of each class holds once it is set, with the sizes that the constructors of
-- the classes insist on.
pub data Holds : Kind → Size → Value → Type 0 where
  an_int : {n i : ℕ} → Holds int_field (fixed n) (num i)
  an_enum : {t : List ℕ} {strict : Bool} {n i : ℕ} → Holds (enum_field t strict) (fixed n) (num i)
  a_flag : {t : List ℕ} {strict : Bool} {n i : ℕ} → Holds (flag_field t strict) (fixed n) (num i)
  a_string : {size : Size} {b : Bytes} → Holds bytes_field size (bytes b)
  a_bool : {t : Bool} → Holds bool_field (fixed 1) (boolean t)
  a_uuid : {g : Bytes} → length g ≡ 16 → Holds uuid_field (fixed 16) (guid g)

-- A field whose value is the parsed value `c`.
abbrev pub field : String → Kind → Bool → Size → Value → Field
field n k le s c = record { name = n; kind = k; little_endian = le; size = s; value = concrete c }

get_struct_format-eq : (n m : ℕ) → get_struct_format n ≡ ok m → m ≡ n
unfolding get_struct_format
get_struct_format-eq n m h = ground arith

-- The integer that `pack_int` wrote is read back by `parse_int`.
pack_int_lem :
    (le : Bool) (n i : ℕ) (v w : View) {b : Bytes}
    → Structure.pack_int le (fixed n) v (num i) ≡ ok b
    → (Structure.parse_int le (fixed n) w (bytes b) ≡ ok (num i)) × (length b ≡ n)
unfolding Structure.pack_int Structure.parse_int
pack_int_lem le n i v w {b} h =
    let (m, e, p) = >>=-eq-ok (get_struct_format n) (λ k. struct_pack le k i) h in
    (
      rw (e, struct_unpack-struct_pack le m i p),
      length-struct_pack le m i p ∙ get_struct_format-eq n m e,
    )

swap_guid_twice : (g : Bytes) → length g ≡ 16 → swap_guid (swap_guid g) ≡ g
unfolding swap_guid
swap_guid_twice (a ∷ b ∷ c ∷ d ∷ e ∷ f ∷ g ∷ h ∷ i ∷ j ∷ k ∷ l ∷ m ∷ n ∷ o ∷ p ∷ []) q = refl
swap_guid_twice _ q = absurd (omega arith)

length-swap_guid : (g : Bytes) → length g ≡ 16 → length (swap_guid g) ≡ 16
unfolding swap_guid
length-swap_guid (a ∷ b ∷ c ∷ d ∷ e ∷ f ∷ g ∷ h ∷ i ∷ j ∷ k ∷ l ∷ m ∷ n ∷ o ∷ p ∷ []) q = refl
length-swap_guid _ q = absurd (omega arith)

pub check_enum-num :
    (t : List ℕ) (strict : Bool) (i : ℕ) (v : Value)
    → Structure.check_enum t strict (num i) ≡ ok v
    → v ≡ num i
unfolding Structure.check_enum
check_enum-num t strict i v h = ground arith

pub check_flags-num :
    (t : List ℕ) (strict : Bool) (i : ℕ) (v : Value)
    → Structure.check_flags t strict (num i) ≡ ok v
    → v ≡ num i
unfolding Structure.check_flags
check_flags-num t strict i v h = ground arith

-- A class whose `_parse_value` is that of IntField and then a check, which lets an int through
-- unchanged or refuses it.
module _ (check : Value → Result Value)
    (same : (i : ℕ) (v : Value) → check (num i) ≡ ok v → v ≡ num i) where
  checked_round :
      (le : Bool) (n i : ℕ) (v w : View) {b : Bytes}
      → (check (num i) >>= Structure.pack_int le (fixed n) v) ≡ ok b
      → ((Structure.parse_int le (fixed n) w (bytes b) >>= check) ≡ ok (num i)) × (length b ≡ n)
  checked_round le n i v w {b} h =
      let (c, e, p) = >>=-eq-ok (check (num i)) (Structure.pack_int le (fixed n) v) h in
      let (r, l) = pack_int_lem le n i v w (rw (same i c e) at p) in
      (rw r (e ∙ ap ok (same i c e)), l)

-- What `_pack_value` writes of a value that the field holds, `_parse_value` reads back.
pub value_round :
    (k : Kind) (le : Bool) (size : Size) (c : Value) (v w : View) {b : Bytes}
    → Holds k size c
    → (parse_value k le size v c >>= pack_value k le size v) ≡ ok b
    → parse_value k le size w (bytes b) ≡ ok c
unfolding parse_value pack_value
value_round int_field le _ _ v w (an_int {n} {i}) h = (pack_int_lem le n i v w h).0
value_round bytes_field le size _ v w a_string h = cc
value_round bool_field le _ _ v w (a_bool {t}) h = ground arith
value_round uuid_field le _ _ v w (a_uuid {g} l) h =
    ground (arith, swap_guid_twice g, length-swap_guid g)
value_round (enum_field t strict) le _ _ v w (an_enum {n = n} {i = i}) h =
    (checked_round (Structure.check_enum t strict) (check_enum-num t strict) le n i v w h).0
value_round (flag_field t strict) le _ _ v w (a_flag {n = n} {i = i}) h =
    (checked_round (Structure.check_flags t strict) (check_flags-num t strict) le n i v w h).0

-- A field that holds `c` has the length of what it packs.
pub packed_round :
    (name : String) (k : Kind) (le : Bool) (size : Size) (c : Value) (v w : View) {b : Bytes}
    → Holds k size c
    → (parse_value k le size v c >>= pack_value k le size v) ≡ ok b
    → packed_size (field name k le size c) w ≡ ok (length b)
unfolding parse_value pack_value packed_size
packed_round name int_field le _ _ v w (an_int {n} {i}) h =
    ap ok (sym (pack_int_lem le n i v w h).1)
packed_round name bytes_field le size _ v w a_string h = cc
packed_round name bool_field le _ _ v w (a_bool {t}) h = ground arith
packed_round name uuid_field le _ _ v w (a_uuid {g} l) h = ground (arith, length-swap_guid g)
packed_round name (enum_field t strict) le _ _ v w (an_enum {n = n} {i = i}) h =
    let check = Structure.check_enum t strict in
    ap ok (sym (checked_round check (check_enum-num t strict) le n i v w h).1)
packed_round name (flag_field t strict) le _ _ v w (a_flag {n = n} {i = i}) h =
    let check = Structure.check_flags t strict in
    ap ok (sym (checked_round check (check_flags-num t strict) le n i v w h).1)

pub sized-eq_ok :
    (m : Result ℕ) (b' : Bytes) {b : Bytes}
    → (m >>= λ n. guard (length b' == n) value_error >> ok b') ≡ ok b
    → (b' ≡ b) × (m ≡ ok (length b))
sized-eq_ok (ok n) b' h = ground arith
sized-eq_ok (err e) b' h = cc

-- Inversion of a successful `pack`: the parts that succeeded, and the size check.
pub pack_field-eq_ok :
    (name : String) (k : Kind) (le : Bool) (size : Size) (c : Value) (v : View) {b : Bytes}
    → pack_field (field name k le size c) v ≡ ok b
    → ((parse_value k le size v c >>= pack_value k le size v) ≡ ok b)
      × (calculated_size size v b ≡ ok (length b))
unfolding pack_field
pack_field-eq_ok name k le size c v {b} h =
    let (x, p, h₁) = >>=-eq-ok (parse_value k le size v c) _ h in
    let (b', q, h₂) = >>=-eq-ok (pack_value k le size v x) _ h₁ in
    let (same, sized) = sized-eq_ok (calculated_size size v b') b' h₂ in
    (rw (p, q) (ap ok same), rw (ap (calculated_size size v) same) at sized)
