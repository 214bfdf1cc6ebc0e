-- ===== src/Structure/Walk.antt =====
-- smbprotocol/structure.py: `Structure`, an ordered dictionary of fields that refer to one another
-- through lambdas. A lambda that asks for a field runs that field's lambda in turn. The nesting is
-- bounded by the number of fields; a deeper one visits a field again and so never ends, which Python
-- answers with RecursionError.
use smbprotocol.Prelude.{
  ℕ, zero, suc, ◌+◌, List, [], ◌∷◌, ◌++◌, String, Result, ok, err, ◌>>=◌, value_error,
  recursion_error, if◌then◌else◌, length, take, drop, str_eq,
}
use smbprotocol.Bytes.{Bytes}
use smbprotocol.Structure.{
  Value, bytes, View, Field, calculated_value, calculated_size, packed_size, pack_field, set_value,
}

abbrev pub Structure : Type 0
Structure = List Field

-- `_get_field`
unfoldable pub get_field : Structure → String → Result Field
get_field [] key = err value_error
get_field (f ∷ fs) key = if str_eq f.name key then ok f else get_field fs key

unfoldable pub view : ℕ → Structure → View
unfolding get_field
view zero s = record { get_value = λ key. err recursion_error; len = λ key. err recursion_error }
view (suc depth) s = record {
  get_value = λ key. get_field s key >>= λ f. calculated_value f (view depth s) f.value;
  len = λ key. get_field s key >>= λ f. packed_size f (view depth s);
}

unfoldable pub view_of : Structure → View
unfolding view
view_of s = view (length s) s

-- `s[key].get_value()`
unfoldable pub get_value : Structure → String → Result Value
unfolding view_of get_field calculated_value
get_value s key = get_field s key >>= λ f. calculated_value f (view_of s) f.value

-- The loop of `pack`.
unfoldable pub pack_fields : View → List Field → Result Bytes
unfolding pack_field
pack_fields v [] = ok []
pack_fields v (f ∷ fs) = do b ← pack_field f v; rest ← pack_fields v fs; ok (b ++ rest)

-- `pack`
unfoldable pub pack : Structure → Result Bytes
unfolding pack_fields view_of
pack s = pack_fields (view_of s) s

-- The loop of `__len__`.
unfoldable pub sum_sizes : View → List Field → Result ℕ
unfolding packed_size
sum_sizes v [] = ok 0
sum_sizes v (f ∷ fs) = do n ← packed_size f v; rest ← sum_sizes v fs; ok (n + rest)

-- `__len__`
unfoldable pub len : Structure → Result ℕ
unfolding sum_sizes view_of
len s = sum_sizes (view_of s) s

-- `__setitem__` with a value that is no lambda.
unfoldable pub set_fields : View → List Field → String → Value → Result (List Field)
unfolding set_value
set_fields view [] key v = err value_error
set_fields view (f ∷ fs) key v =
    if str_eq f.name key
    then (do f' ← set_value f view v; ok (f' ∷ fs))
    else (do fs' ← set_fields view fs key v; ok (f ∷ fs'))

unfoldable pub set_item : Structure → String → Value → Result Structure
unfolding set_fields view_of
set_item s key v = set_fields (view_of s) s key v

-- The loop of `unpack`: `done` holds the fields that are set, and the lambdas see all of them.
unfoldable pub unpack_fields : Structure → List Field → Bytes → Result (Structure × Bytes)
unfolding calculated_size set_value packed_size view_of
unpack_fields done [] mem = ok (done, mem)
unpack_fields done (f ∷ todo) mem = do
  size ← calculated_size f.size (view_of (done ++ (f ∷ todo))) mem
  f' ← set_value f (view_of (done ++ (f ∷ todo))) (bytes (take size mem))
  n ← packed_size f' (view_of (done ++ (f' ∷ todo)))
  unpack_fields (done ++ (f' ∷ [])) todo (drop n mem)

-- `unpack`, with the remaining data.
unfoldable pub unpack : Structure → Bytes → Result (Structure × Bytes)
unfolding unpack_fields
unpack s mem = unpack_fields [] s mem
