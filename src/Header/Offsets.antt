-- ===== src/Header/Offsets.antt =====
-- smbprotocol/header.py: where the numbers of a request header lie, as MS-SMB2 lays it out, and as
-- `_process_message_thread` cuts it.
use smbprotocol.Prelude.{
  ℕ, ◌≡◌, refl, sym, ap, ◌∙◌, List, ◌∷◌, ◌++◌, true, ok, length, take, drop, take-append_eq,
  drop-append_eq, >>=-eq-ok, ok-injective, String,
}
use smbprotocol.Bytes.{Bytes, struct_pack, struct_unpack}
use smbprotocol.Bytes.Laws.{struct_unpack-struct_pack}
use smbprotocol.Structure.{
  View, Field, Value, num, concrete, fixed, int_field, get_struct_format, calculated_value,
  parse_value, pack_value, calculated_size, pack_field,
}
use smbprotocol.Structure.Build.{IntField}
use smbprotocol.Structure.FieldLaws.{sized-eq_ok}
use smbprotocol.Structure.Walk.{pack_fields, pack, view_of}
use smbprotocol.Structure.Sizes.{
  length-pack_field, pack_fields-append, fixed_sizes, length-pack_fields,
}
use smbprotocol.Header.Layout.{RequestHeader, request}

pack_value-int :
    (v : View) (n value : ℕ)
    → get_struct_format n ≡ ok n
    → pack_value int_field true (fixed n) v (num value) ≡ struct_pack true n value
unfolding pack_value
pack_value-int v n value e = rw e refl

value-int :
    (v : View) (name : String) (n value : ℕ)
    → calculated_value (IntField name n value) v (concrete (num value)) ≡ ok (num value)
unfolding calculated_value parse_value
value-int v name n value = refl

size-int :
    (v : View) (n : ℕ) (z : Bytes) → calculated_size (fixed n) v z ≡ ok (length z) → length z ≡ n
unfolding calculated_size
size-int v n z e = sym (ok-injective e)

pack_field-eq_ok :
    (f : Field) (v : View) {z : Bytes}
    → pack_field f v ≡ ok z
    → (x : Value) × (calculated_value f v f.value ≡ ok x)
      × (pack_value f.kind f.little_endian f.size v x ≡ ok z)
unfolding pack_field
pack_field-eq_ok f v p =
    let (x, c, p₁) = >>=-eq-ok (calculated_value f v f.value) _ p in
    let (z', q, p₂) = >>=-eq-ok (pack_value f.kind f.little_endian f.size v x) _ p₁ in
    let (same, _) = sized-eq_ok (calculated_size f.size v z') z' p₂ in (x, c, q ∙ ap ok same)

-- The bytes of an int field.
pack_field-int :
    (v : View) (name : String) (n value : ℕ) {z : Bytes}
    → get_struct_format n ≡ ok n
    → pack_field (IntField name n value) v ≡ ok z
    → (struct_pack true n value ≡ ok z) × (length z ≡ n)
pack_field-int v name n value {z} format p =
    let (x, c, q) = pack_field-eq_ok (IntField name n value) v p in
    let plain : num value ≡ x = ok-injective (sym (value-int v name n value) ∙ c) in
    (
      sym (pack_value-int v n value format)
          ∙ (ap (pack_value int_field true (fixed n) v) plain ∙ q),
      size-int v n z (length-pack_field (IntField name n value) v p),
    )

-- An int field after fields of fixed sizes is read back from their sum on.
int_at :
    (v : View) (before after : List Field) (name : String) (n value : ℕ) {offset : ℕ} {b : Bytes}
    → get_struct_format n ≡ ok n
    → fixed_sizes before ≡ ok offset
    → pack_fields v (before ++ (IntField name n value ∷ after)) ≡ ok b
    → struct_unpack true n (take n (drop offset b)) ≡ ok value
unfolding pack_fields
int_at v before after name n value {offset} {b} format s p =
    let (x, y, px, py, e) = pack_fields-append v before (IntField name n value ∷ after) p in
    let (z, pz, h₁) = >>=-eq-ok (pack_field (IntField name n value) v) _ py in
    let (r, _, h₂) = >>=-eq-ok (pack_fields v after) _ h₁ in
    let (packed, sized) = pack_field-int v name n value format pz in
    let whole : b ≡ x ++ (z ++ r) = e ∙ ap (λ (d : Bytes). x ++ d) (sym (ok-injective h₂)) in
    let front : drop offset b ≡ z ++ r =
      ap (drop offset) whole
      ∙ drop-append_eq offset x (z ++ r) (length-pack_fields v before s px) in
    let cut : take n (drop offset b) ≡ z = ap (take n) front ∙ take-append_eq n z r sized in
    ap (struct_unpack true n) cut ∙ struct_unpack-struct_pack true n value packed

-- In the bytes that a request header packs to, the credit charge is the two bytes from 6, the credits that
-- are requested the two from 14, `next_command` the four from 20, the message id the eight from 24, the tree
-- id the four from 36 and the session id the eight from 40, each little-endian.
pub request-offsets :
    (h : RequestHeader) {b : Bytes}
    → pack (request h) ≡ ok b
    → (struct_unpack true 2 (take 2 (drop 6 b)) ≡ ok h.credit_charge)
      × (struct_unpack true 2 (take 2 (drop 14 b)) ≡ ok h.credit_request)
      × (struct_unpack true 4 (take 4 (drop 20 b)) ≡ ok h.next_command)
      × (struct_unpack true 8 (take 8 (drop 24 b)) ≡ ok h.message_id)
      × (struct_unpack true 4 (take 4 (drop 36 b)) ≡ ok h.tree_id)
      × (struct_unpack true 8 (take 8 (drop 40 b)) ≡ ok h.session_id)
unfolding pack request get_struct_format
request-offsets h {b} p =
    let v = view_of (request h) in
    let fields = request h in
    (
      int_at v (take 2 fields) (drop 3 fields) "credit_charge" 2 h.credit_charge refl refl p,
      int_at v (take 6 fields) (drop 7 fields) "credit_request" 2 h.credit_request refl refl p,
      int_at v (take 8 fields) (drop 9 fields) "next_command" 4 h.next_command refl refl p,
      int_at v (take 9 fields) (drop 10 fields) "message_id" 8 h.message_id refl refl p,
      int_at v (take 11 fields) (drop 12 fields) "tree_id" 4 h.tree_id refl refl p,
      int_at v (take 12 fields) (drop 13 fields) "session_id" 8 h.session_id refl refl p,
    )
