-- ===== src/Structure/RoundTrip.antt =====
-- smbprotocol/structure.py, whole structures: `unpack` reads back what `pack` wrote.
use smbprotocol.Prelude.{
  ℕ, ◌≡◌, refl, sym, ap, ◌∙◌, List, [], ◌∷◌, ◌++◌, append-nil, append_assoc, Bool, ok, ◌>>=◌, arith,
  length, length-append, take-length_append, drop-length_append, >>=-eq-ok, ok-injective,
}
use smbprotocol.Bytes.{Bytes}
use smbprotocol.Structure.{
  Value, bytes, View, Size, fixed, variable, computed, Stored, concrete, lambda, Kind, Field,
  parse_value, pack_value, calculated_value, calculated_size, packed_size, pack_field, set_value,
}
use smbprotocol.Structure.FieldLaws.{Holds, a_string, value_round, packed_round, pack_field-eq_ok}
use smbprotocol.Structure.Idempotent.{parse_value-again}
use smbprotocol.Structure.Walk.{Structure, view_of, pack_fields, pack, unpack_fields, unpack}

-- The structure with its fields set to the values, in order.
abbrev pub fill : List Field → List Value → List Field
fill [] cs = []
fill (t ∷ ts) [] = t ∷ ts
fill (t ∷ ts) (c ∷ cs) = record t { value = concrete c } ∷ fill ts cs

abbrev pub string_length : Value → ℕ
string_length (bytes b) = length b
string_length _ = 0

-- The size is right when the field is reached: a fixed one, the rest of the data for the last field,
-- or one that a lambda computes from the fields read before, which is the length of the value.
abbrev pub SizeKnown : Bytes → View → List Field → Value → Size → Type 0
SizeKnown rest w ts c (fixed n) = Unit
SizeKnown rest w ts c variable = (ts ≡ []) × (rest ≡ [])
SizeKnown rest w ts c (computed g) = g w ≡ ok (string_length c)

-- The values `cs` suit the fields `ts`, which are read after `done` and before the data `rest`.
abbrev pub Describes : Bytes → Structure → List Field → List Value → Type 0
Describes rest done [] [] = Unit
Describes rest done (t ∷ ts) (c ∷ cs) =
    Holds t.kind t.size c
    × SizeKnown rest (view_of (done ++ (t ∷ ts))) ts c t.size
    × Describes rest (done ++ (record t { value = concrete c } ∷ [])) ts cs
Describes rest done _ _ = ⊥

-- The fields of a structure that is packed evaluate to the values.
abbrev pub Evaluates : View → List Field → List Value → Type 0
Evaluates v [] [] = Unit
Evaluates v (f ∷ fs) (c ∷ cs) = (calculated_value f v f.value ≡ ok c) × Evaluates v fs cs
Evaluates v _ _ = ⊥

-- The size that `unpack` computes, when the packed value `b` is followed by the rest of the message.
size_known :
    (rest : Bytes) (k : Kind) (le : Bool) (size : Size) (ts : List Field) (c : Value) (v w : View)
    (after : Bytes) {b : Bytes}
    → Holds k size c
    → SizeKnown rest w ts c size
    → (parse_value k le size v c >>= pack_value k le size v) ≡ ok b
    → calculated_size size v b ≡ ok (length b)
    → (ts ≡ [] → after ≡ rest)
    → calculated_size size w (b ++ after) ≡ ok (length b)
unfolding calculated_size
size_known rest k le (fixed n) ts c v w after h s p q a = q
size_known rest k le variable ts c v w after {b} h (s, r) p q a =
    ap ok (length-append b after ∙ rw (a s, r) (omega arith))
size_known rest k le (computed g) ts _ v w after (a_string {b = c}) s p q a =
    unfold parse_value pack_value in cc

pack_fields-nil :
    (v : View) (ts : List Field) (cs : List Value) {b : Bytes}
    → ts ≡ []
    → pack_fields v (fill ts cs) ≡ ok b
    → b ≡ []
unfolding pack_fields
pack_fields-nil v [] cs e h = cc
pack_fields-nil v (t ∷ ts) cs e h = cc

-- One round of the loop over the fields, on data that begins with the packed field.
unpack_step :
    (done : Structure) (t : Field) (ts : List Field) (c : Value) (b after : Bytes)
    → calculated_size t.size (view_of (done ++ (t ∷ ts))) (b ++ after) ≡ ok (length b)
    → parse_value t.kind t.little_endian t.size (view_of (done ++ (t ∷ ts))) (bytes b) ≡ ok c
    → packed_size
        (record t { value = concrete c })
        (view_of (done ++ (record t { value = concrete c } ∷ ts)))
      ≡ ok (length b)
    → unpack_fields done (t ∷ ts) (b ++ after)
      ≡ unpack_fields (done ++ (record t { value = concrete c } ∷ [])) ts after
unfolding unpack_fields set_value
unpack_step done t ts c b after size parse len =
    rw (size, take-length_append b after, parse, len, drop-length_append b after)

unpack_fields-pack_fields :
    (v : View) (rest : Bytes) (done : Structure) (ts : List Field) (cs : List Value) {b : Bytes}
    → Describes rest done ts cs
    → pack_fields v (fill ts cs) ≡ ok b
    → unpack_fields done ts (b ++ rest) ≡ ok (done ++ fill ts cs, rest)
unfolding pack_fields
unpack_fields-pack_fields v rest done [] [] {b} d h =
    let e : [] ≡ b = cc in rw (← e, append-nil) (unfold unpack_fields in refl)
unpack_fields-pack_fields v rest done [] (c ∷ cs) d h = absurd d
unpack_fields-pack_fields v rest done (t ∷ ts) [] d h = absurd d
unpack_fields-pack_fields v rest done (t ∷ ts) (c ∷ cs) {b} (holds, s, d) h =
    let (x, p, h₁) = >>=-eq-ok (pack_field (record t { value = concrete c }) v) _ h in
    let (xs, q, h₂) = >>=-eq-ok (pack_fields v (fill ts cs)) _ h₁ in
    let (r, z) = pack_field-eq_ok t.name t.kind t.little_endian t.size c v p in
    let w = view_of (done ++ (t ∷ ts)) in
    let w' = view_of (done ++ (record t { value = concrete c } ∷ ts)) in
    let whole : x ++ (xs ++ rest) ≡ b ++ rest =
      sym (append_assoc x xs rest) ∙ ap (λ (y : Bytes). y ++ rest) (ok-injective h₂) in
    rw (← whole) (
      unpack_step done t ts c x (xs ++ rest)
        (size_known rest t.kind t.little_endian t.size ts c v w (xs ++ rest) holds s r z
          (λ e. rw (pack_fields-nil v ts cs e q) refl))
        (value_round t.kind t.little_endian t.size c v w holds r)
        (packed_round t.name t.kind t.little_endian t.size c v w' holds r)
      ∙ unpack_fields-pack_fields v rest (done ++ (record t { value = concrete c } ∷ [])) ts cs d q
      ∙ ap (λ (y : Structure). ok (y, rest))
          (append_assoc done (record t { value = concrete c } ∷ []) (fill ts cs)))

-- Packing lambdas packs what they evaluate to.
pack_field-evaluated :
    (v : View) (f : Field) (c : Value)
    → calculated_value f v f.value ≡ ok c
    → calculated_value f v (concrete c) ≡ ok c
    → pack_field f v ≡ pack_field (record f { value = concrete c }) v
unfolding pack_field
pack_field-evaluated v f c e g = rw (e, g)

evaluated-again :
    (v : View) (f : Field) (c : Value)
    → calculated_value f v f.value ≡ ok c
    → calculated_value f v (concrete c) ≡ ok c
unfolding calculated_value
evaluated-again v f c e = again f.kind f.little_endian f.size f.value e
  where
    again :
        (k : Kind) (le : Bool) (size : Size) (st : Stored)
        → calculated_value (record f { kind = k; little_endian = le; size = size }) v st ≡ ok c
        → parse_value k le size v c ≡ ok c
    again k le size (concrete x) h = parse_value-again k le size v x h
    again k le size (lambda g) h =
        let (x, p, q) = >>=-eq-ok (g v) (parse_value k le size v) h in
        parse_value-again k le size v x q

pack_fields-evaluated :
    (v : View) (fs : List Field) (cs : List Value)
    → Evaluates v fs cs
    → pack_fields v fs ≡ pack_fields v (fill fs cs)
unfolding pack_fields
pack_fields-evaluated v [] [] e = refl
pack_fields-evaluated v [] (c ∷ cs) e = absurd e
pack_fields-evaluated v (f ∷ fs) [] e = absurd e
pack_fields-evaluated v (f ∷ fs) (c ∷ cs) (e, es) =
    rw (pack_field-evaluated v f c e (evaluated-again v f c e), pack_fields-evaluated v fs cs es)

-- A structure whose fields evaluate to the values `cs`, lambdas included, is packed. A structure `t`
-- of the same shape, whose field classes and sizes suit `cs`, unpacks the bytes to these values and
-- leaves what follows.
pub unpack-pack :
    (s t : Structure) (cs : List Value) (rest : Bytes) {b : Bytes}
    → Evaluates (view_of s) s cs
    → fill s cs ≡ fill t cs
    → Describes rest [] t cs
    → pack s ≡ ok b
    → unpack t (b ++ rest) ≡ ok (fill t cs, rest)
unfolding pack unpack
unpack-pack s t cs rest e same d h =
    unpack_fields-pack_fields (view_of s) rest [] t cs d
      (ap (pack_fields (view_of s)) (sym same) ∙ sym (pack_fields-evaluated (view_of s) s cs e) ∙ h)

-- The same for a structure whose fields are all set: that it packs says that the values are in range.
pub unpack-pack_filled :
    (t : Structure) (cs : List Value) (rest : Bytes) {b : Bytes}
    → Describes rest [] t cs
    → pack (fill t cs) ≡ ok b
    → unpack t (b ++ rest) ≡ ok (fill t cs, rest)
unfolding pack unpack
unpack-pack_filled t cs rest d h = unpack_fields-pack_fields (view_of (fill t cs)) rest [] t cs d h
