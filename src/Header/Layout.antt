-- ===== src/Header/Layout.antt =====
-- smbprotocol/header.py: where the fields of a request header lie. `Connection._send` and the
-- receiving thread cut headers at the offsets 20, 48 and 64.
use smbprotocol.Prelude.{
  ℕ, ◌≡◌, refl, sym, ap, ◌∙◌, List, [], ◌∷◌, ◌++◌, append-nil, append_assoc, ok, err, arith, length,
  length-append, take, drop, take-append_eq, drop-append_eq, ok-injective, ==_iff, ==_refl, ◌==◌,
  Bool-cases, inl, inr, value_error,
}
use smbprotocol.Bytes.{Bytes}
use smbprotocol.Structure.{Value, num, bytes, View, Field}
use smbprotocol.Structure.FieldLaws.{an_int, an_enum, a_flag, a_string}
use smbprotocol.Structure.Walk.{Structure, view_of, pack_fields, pack, unpack}
use smbprotocol.Structure.RoundTrip.{fill, unpack-pack_filled}
use smbprotocol.Structure.Sizes.{pack_fields-append, length-pack_fields, pack_fields-join}
use smbprotocol.Header.{smb2_header_request}

-- The values of the fields of a request header.
pub record RequestHeader : Type 0 where
  pub protocol_id : Bytes
  pub structure_size : ℕ
  pub credit_charge : ℕ
  pub channel_sequence : ℕ
  pub reserved : ℕ
  pub command : ℕ
  pub credit_request : ℕ
  pub flags : ℕ
  pub next_command : ℕ
  pub message_id : ℕ
  pub process_id : ℕ
  pub tree_id : ℕ
  pub session_id : ℕ
  pub signature : Bytes
  pub payload : Bytes

abbrev pub request_values : RequestHeader → List Value
request_values h =
    bytes h.protocol_id
    ∷ num h.structure_size
    ∷ num h.credit_charge
    ∷ num h.channel_sequence
    ∷ num h.reserved
    ∷ num h.command
    ∷ num h.credit_request
    ∷ num h.flags
    ∷ num h.next_command
    ∷ num h.message_id
    ∷ num h.process_id
    ∷ num h.tree_id
    ∷ num h.session_id
    ∷ bytes h.signature
    ∷ bytes h.payload
    ∷ []

unfoldable pub request : RequestHeader → Structure
unfolding smb2_header_request
request h = fill smb2_header_request (request_values h)

-- A packed request header unpacks to the header.
pub request-round_trip :
    (h : RequestHeader) {b : Bytes}
    → pack (request h) ≡ ok b
    → unpack smb2_header_request b ≡ ok (request h, [])
unfolding request
request-round_trip h {b} p =
    ap (unpack smb2_header_request) (sym (append-nil b))
    ∙ unpack-pack_filled smb2_header_request (request_values h) []
        (
          a_string,
          tt,
          (
            an_int,
            tt,
            (
              an_int,
              tt,
              (
                an_int,
                tt,
                (
                  an_int,
                  tt,
                  (
                    an_enum,
                    tt,
                    (
                      an_int,
                      tt,
                      (
                        a_flag,
                        tt,
                        (
                          an_int,
                          tt,
                          (
                            an_int,
                            tt,
                            (
                              an_int,
                              tt,
                              (
                                an_int,
                                tt,
                                (an_int, tt, (a_string, tt, (a_string, (refl, refl), tt))),
                              ),
                            ),
                          ),
                        ),
                      ),
                    ),
                  ),
                ),
              ),
            ),
          ),
        )
        p

-- The fields before the signature.
unfoldable pub prefix : RequestHeader → List Field
unfolding request
prefix h = take 13 (request h)

suffix : RequestHeader → List Field
unfolding request
suffix h = drop 13 (request h)

suffix_lem :
    (v : View) (h : RequestHeader)
    → length h.signature ≡ 16
    → pack_fields v (suffix h) ≡ ok (h.signature ++ h.payload)
unfolding suffix pack_fields
suffix_lem v h e = rw (e, ==_refl, append-nil)

suffix-eq_ok :
    (v : View) (h : RequestHeader) {b : Bytes}
    → pack_fields v (suffix h) ≡ ok b
    → length h.signature ≡ 16
unfolding suffix pack_fields
suffix-eq_ok v h p = elim (Bool-cases (length h.signature == 16)) [
  | inl e ↦ (==_iff (length h.signature) 16).0 e
  | inr e ↦ let refused : err value_error ≡ ok _ = rw e at p in cc
]

-- The parts of a packed request header: 48 bytes, the signature and the payload.
pub request_parts :
    (h : RequestHeader) {b : Bytes}
    → pack (request h) ≡ ok b
    → (x : Bytes) × ((v : View) → pack_fields v (prefix h) ≡ ok x)
      × (length x ≡ 48)
      × (length h.signature ≡ 16)
      × (b ≡ x ++ (h.signature ++ h.payload))
unfolding pack request prefix suffix
request_parts h {b} p =
    let v = view_of (request h) in
    let (x, y, px, py, e) = pack_fields-append v (prefix h) (suffix h) p in
    let signed = suffix-eq_ok v h py in
    let same : y ≡ h.signature ++ h.payload = ok-injective (sym py ∙ suffix_lem v h signed) in
    (
      x,
      λ w. unfold pack_fields in px,
      length-pack_fields v (prefix h) {n = 48} refl px,
      signed,
      e ∙ ap (◌++◌ x) same,
    )

pub slices :
    (x sig payload : Bytes) {b : Bytes}
    → length x ≡ 48
    → length sig ≡ 16
    → b ≡ x ++ (sig ++ payload)
    → (take 48 b ≡ x) × (take 16 (drop 48 b) ≡ sig) × (drop 64 b ≡ payload)
slices x sig payload p q e =
    let signed : length (x ++ sig) ≡ 64 = omega (arith, length-append x sig) in
    (
      rw e (take-append_eq 48 x _ p),
      rw (e, drop-append_eq 48 x _ p) (take-append_eq 16 sig payload q),
      rw (e, ← append_assoc x sig payload) (drop-append_eq 64 (x ++ sig) payload signed),
    )

-- For a header that packs to `b` and a signature of 16 bytes, writing the signature over the bytes 48
-- to 63 of `b` gives what the header with that signature packs to.
pub splice-signature :
    (h : RequestHeader) (s : Bytes) {b : Bytes}
    → pack (request h) ≡ ok b
    → length s ≡ 16
    → pack (request (record h { signature = s })) ≡ ok (take 48 b ++ (s ++ drop 64 b))
unfolding pack prefix suffix
splice-signature h s {b} p e =
    let (x, px, l, ls, eq) = request_parts h p in
    let (front, _, back) = slices x h.signature h.payload l ls eq in
    let signed = record h { signature = s } in
    let v = view_of (request signed) in
    let rejoined : x ++ (s ++ h.payload) ≡ take 48 b ++ (s ++ drop 64 b) = rw (front, back) in
    pack_fields-join v (prefix signed) (suffix signed) x (s ++ h.payload) (px v)
      (suffix_lem v signed e)
    ∙ ap ok rejoined
