-- ===== src/Structure/Sizes.antt =====
-- smbprotocol/structure.py: how long a packed structure is, and where its fields lie.
use smbprotocol.Prelude.{
  ℕ, ◌+◌, ◌≡◌, refl, sym, ap, ◌∙◌, List, [], ◌∷◌, ◌++◌, append_assoc, Result, ok, err, ◌>>=◌, arith,
  length, length-append, >>=-eq-ok, type_error, ok-injective,
}
use smbprotocol.Bytes.{Bytes}
use smbprotocol.Structure.{
  View, Size, fixed, variable, computed, Field, calculated_value, pack_value, calculated_size,
  pack_field,
}
use smbprotocol.Structure.FieldLaws.{sized-eq_ok}
use smbprotocol.Structure.Walk.{pack_fields}

-- The packed field has the size that the field asks for.
pub length-pack_field :
    (f : Field) (v : View) {b : Bytes}
    → pack_field f v ≡ ok b
    → calculated_size f.size v b ≡ ok (length b)
unfolding pack_field
length-pack_field f v h =
    let (x, p, h₁) = >>=-eq-ok (calculated_value f v f.value) _ h in
    let (b', q, h₂) = >>=-eq-ok (pack_value f.kind f.little_endian f.size v x) _ h₁ in
    let (same, sized) = sized-eq_ok (calculated_size f.size v b') b' h₂ in
    rw (ap (calculated_size f.size v) same) at sized

-- The fields before and after a point of the structure are packed one after the other.
pub pack_fields-append :
    (v : View) (fs gs : List Field) {b : Bytes}
    → pack_fields v (fs ++ gs) ≡ ok b
    → (x : Bytes) × (y : Bytes) × (pack_fields v fs ≡ ok x)
      × (pack_fields v gs ≡ ok y)
      × (b ≡ x ++ y)
unfolding pack_fields
pack_fields-append v [] gs {b} h = ([], b, refl, h, refl)
pack_fields-append v (f ∷ fs) gs {b} h =
    let (a, p, h₁) = >>=-eq-ok (pack_field f v) _ h in
    let (r, q, h₂) = >>=-eq-ok (pack_fields v (fs ++ gs)) _ h₁ in
    let (x, y, px, py, e) = pack_fields-append v fs gs q in
    (a ++ x, y, rw (p, px), py, sym (ok-injective h₂) ∙ rw e (sym (append_assoc a x y)))

abbrev fixed_size : Size → Result ℕ
fixed_size (fixed n) = ok n
fixed_size _ = err type_error

-- The sum of the sizes of fields that all have a fixed one.
abbrev pub fixed_sizes : List Field → Result ℕ
fixed_sizes [] = ok 0
fixed_sizes (f ∷ fs) = do n ← fixed_size f.size; rest ← fixed_sizes fs; ok (n + rest)

fixed_size-eq_ok :
    (size : Size) (v : View) (b : Bytes) {n : ℕ}
    → fixed_size size ≡ ok n
    → calculated_size size v b ≡ ok (length b)
    → length b ≡ n
unfolding calculated_size
fixed_size-eq_ok (fixed m) v b h k = ok-injective (sym k ∙ h)
fixed_size-eq_ok variable v b h k = cc
fixed_size-eq_ok (computed g) v b h k = cc

-- Fields of a fixed size take as many bytes as their sizes say, whatever their values are.
pub length-pack_fields :
    (v : View) (fs : List Field) {n : ℕ} {b : Bytes}
    → fixed_sizes fs ≡ ok n
    → pack_fields v fs ≡ ok b
    → length b ≡ n
unfolding pack_fields
length-pack_fields v [] {n} {b} s h = let e : [] ≡ b = ok-injective h in rw (← e) (ok-injective s)
length-pack_fields v (f ∷ fs) {n} {b} s h =
    let (k, sf, s₁) = >>=-eq-ok (fixed_size f.size) _ s in
    let (r, sr, s₂) = >>=-eq-ok (fixed_sizes fs) _ s₁ in
    let (x, p, h₁) = >>=-eq-ok (pack_field f v) _ h in
    let (xs, q, h₂) = >>=-eq-ok (pack_fields v fs) _ h₁ in
    let e : x ++ xs ≡ b = ok-injective h₂ in
    rw (← e, length-append)
      (omega (
        arith,
        fixed_size-eq_ok f.size v x sf (length-pack_field f v p),
        length-pack_fields v fs sr q,
        ok-injective s₂,
      ))

pub pack_fields-join :
    (v : View) (fs gs : List Field) (x y : Bytes)
    → pack_fields v fs ≡ ok x
    → pack_fields v gs ≡ ok y
    → pack_fields v (fs ++ gs) ≡ ok (x ++ y)
unfolding pack_fields
pack_fields-join v [] gs x y p q = rw (← ok-injective p) q
pack_fields-join v (f ∷ fs) gs x y p q =
    let (a, pa, h₁) = >>=-eq-ok (pack_field f v) _ p in
    let (r, pr, h₂) = >>=-eq-ok (pack_fields v fs) _ h₁ in
    let e : a ++ r ≡ x = ok-injective h₂ in
    rw (pa, pack_fields-join v fs gs r y pr q, ← e, append_assoc)
