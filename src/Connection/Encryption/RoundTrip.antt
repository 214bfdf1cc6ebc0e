-- ===== src/Connection/Encryption/RoundTrip.antt =====
-- smbprotocol/connection.py: what `_encrypt` makes, `_decrypt` reads on the other side.
use smbprotocol.Prelude.{
  ℕ, ◌-◌, ◌≤◌, ◌<◌, ◌≡◌, refl, sym, ap, ap₂, ◌∙◌, [], ◌∷◌, ◌++◌, append-nil, append_assoc, true,
  Option, none, some, Result, ok, err, smb_exception, ◌>>=◌, ◌==◌, ==_refl, lt→ltb, arith, length,
  take, drop, replicate, lookup, length-append, length-drop, length-replicate, take-append-drop,
  take-append_eq, drop-append_eq,
}
use smbprotocol.Bytes.{Bytes, le_bytes, struct_pack}
use smbprotocol.Structure.{
  num, bytes, calculated_value, parse_value, pack_value, calculated_size, pack_field,
}
use smbprotocol.Structure.Walk.{
  Structure, get_value, set_item, pack, pack_fields, view_of, view, get_field,
}
use smbprotocol.Structure.RoundTrip.{fill}
use smbprotocol.Connection.{Connection, Session}
use smbprotocol.Connection.Encryption
use smbprotocol.Connection.Encryption.{
  Aead, smb2_transform_header, transform_protocol_id, cipher_of, nonce_length, encrypt, decrypt,
}

-- A transform header with its variable parts.
abbrev transform : Bytes → Bytes → ℕ → ℕ → Bytes → Structure
transform signature nonce size session_id encrypted = fill smb2_transform_header (
    bytes transform_protocol_id
    ∷ bytes signature
    ∷ bytes nonce
    ∷ num size
    ∷ num 0
    ∷ num 1
    ∷ num session_id
    ∷ bytes encrypted
    ∷ [])

-- The bytes that are authenticated beside the data.
abbrev associated : Bytes → ℕ → ℕ → Bytes
associated nonce size session_id =
    nonce ++ (le_bytes 4 size ++ (0 ∷ 0 ∷ 1 ∷ 0 ∷ le_bytes 8 session_id))

is_16 : (b : Bytes) → length b ≡ 16 → (length b == 16) ≡ true
is_16 b e = ground arith

pack-transform :
    (signature nonce : Bytes) (size session_id : ℕ) (encrypted : Bytes)
    → length signature ≡ 16
    → length nonce ≡ 16
    → size < 4294967296
    → session_id < 18446744073709551616
    → pack (transform signature nonce size session_id encrypted)
      ≡ ok (
          transform_protocol_id
          ++ (signature
              ++ (nonce
                  ++ ((le_bytes 4 size ++ (0 ∷ 0 ∷ 1 ∷ 0 ∷ le_bytes 8 session_id)) ++ encrypted))))
unfolding smb2_transform_header pack pack_fields pack_field calculated_value parse_value pack_value
    calculated_size struct_pack le_bytes view_of view get_field
pack-transform signature nonce size session_id encrypted s n h k =
    rw
      (
        is_16 signature s,
        is_16 nonce n,
        lt→ltb size 4294967296 h,
        lt→ltb session_id 18446744073709551616 k,
        ==_refl,
      )
      (ap
        (λ d. ok (
          transform_protocol_id
          ++ (signature
              ++ (nonce ++ ((le_bytes 4 size ++ (0 ∷ 0 ∷ 1 ∷ 0 ∷ le_bytes 8 session_id)) ++ d)))))
        (append-nil encrypted))

drop-header :
    (signature rest : Bytes)
    → length signature ≡ 16
    → drop 20 (transform_protocol_id ++ (signature ++ rest)) ≡ rest
drop-header signature rest e = drop-append_eq 16 signature rest e

associated-length :
    (nonce : Bytes) (size session_id : ℕ)
    → length nonce ≡ 16
    → length (associated nonce size session_id) ≡ 32
unfolding le_bytes
associated-length nonce size session_id e =
    omega (arith, length-append nonce (le_bytes 4 size ++ (0 ∷ 0 ∷ 1 ∷ 0 ∷ le_bytes 8 session_id)))

nonce_length-le : (cipher : ℕ) → nonce_length cipher ≤ 16
unfolding nonce_length
nonce_length-le cipher = ground arith

-- The nonce as the header has it.
abbrev padded : ℕ → Bytes → Bytes
padded cipher nonce = nonce ++ replicate (16 - nonce_length cipher) 0

padded-length :
    (cipher : ℕ) (nonce : Bytes)
    → length nonce ≡ nonce_length cipher
    → length (padded cipher nonce) ≡ 16
padded-length cipher nonce e = omega (
  arith,
  nonce_length-le cipher,
  length-append nonce (replicate (16 - nonce_length cipher) 0),
  length-replicate {A = ℕ} (16 - nonce_length cipher) 0,
)

module _ (a : Aead) where
  -- What is sealed, and the header that carries it.
  abbrev sealed : Connection → Bytes → Session → Bytes → Bytes
  sealed c nonce session b_data =
      a.seal (cipher_of c) session.encryption_key nonce b_data
        (associated (padded (cipher_of c) nonce) (length b_data) session.session_id)

  abbrev carries : Bytes → Bytes → ℕ → ℕ → Structure
  carries cipher_text nonce size session_id =
      transform (drop (length cipher_text - 16) cipher_text) nonce size session_id
        (take (length cipher_text - 16) cipher_text)

  encrypt-eq :
      (c : Connection) (nonce : Bytes) (session : Session) (b_data : Bytes)
      → length nonce ≡ nonce_length (cipher_of c)
      → length b_data < 4294967296
      → session.session_id < 18446744073709551616
      → encrypt a c nonce session b_data
        ≡ ok (
            carries
              (sealed c nonce session b_data)
              (padded (cipher_of c) nonce)
              (length b_data)
              session.session_id)
  unfolding encrypt set_item smb2_transform_header parse_value view_of view
  encrypt-eq c nonce session b_data e h k =
      let n16 : Bytes = padded (cipher_of c) nonce in
      let n_length = padded-length (cipher_of c) nonce e in
      ap
        (λ r. r >>= λ b. ok (
          carries (a.seal (cipher_of c) session.encryption_key nonce b_data (drop 20 b)) n16
            (length b_data) session.session_id))
        (pack-transform (replicate 16 0) n16 (length b_data) session.session_id [] refl n_length h
          k)
      ∙ ap
          (λ x. ok (
            carries (a.seal (cipher_of c) session.encryption_key nonce b_data x) n16 (length b_data)
              session.session_id))
          (ap (λ d. n16 ++ d) (append-nil _))

  tag-length :
      (cipher : ℕ) (key nonce b associated_data : Bytes)
      → let cipher_text = a.seal cipher key nonce b associated_data in
        length (drop (length cipher_text - 16) cipher_text) ≡ 16
  tag-length cipher key nonce b associated_data =
      let cipher_text = a.seal cipher key nonce b associated_data in
      omega (
        arith,
        a.length-seal cipher key nonce b associated_data,
        length-drop (length cipher_text - 16) cipher_text,
      )

  -- What `_decrypt` hands to the cipher, for a header of a session that it finds.
  decrypt-eq :
      (d : Connection) (peer : Session) (cipher_text n16 : Bytes) (size session_id : ℕ)
      → length (drop (length cipher_text - 16) cipher_text) ≡ 16
      → length n16 ≡ 16
      → size < 4294967296
      → session_id < 18446744073709551616
      → lookup session_id d.session_table ≡ some peer
      → decrypt a d (carries cipher_text n16 size session_id)
        ≡ Encryption.unsealed a (
            a.unseal
              (cipher_of d)
              peer.decryption_key
              (take (nonce_length (cipher_of d)) n16)
              cipher_text
              (associated n16 size session_id))
  unfolding decrypt get_value get_field view_of view calculated_value parse_value
      smb2_transform_header Encryption.as_bytes
  decrypt-eq d peer cipher_text n16 size session_id t n h k found =
      let tag : Bytes = drop (length cipher_text - 16) cipher_text in
      let body : Bytes = take (length cipher_text - 16) cipher_text in
      let middle : Bytes = le_bytes 4 size ++ (0 ∷ 0 ∷ 1 ∷ 0 ∷ le_bytes 8 session_id) in
      let authenticated : take 32
            (drop 20 (transform_protocol_id ++ (tag ++ (n16 ++ (middle ++ body)))))
          ≡ associated n16 size session_id =
        ap (take 32) (drop-header tag (n16 ++ (middle ++ body)) t)
        ∙ (ap (take 32) (sym (append_assoc n16 middle body))
            ∙ take-append_eq 32 (n16 ++ middle) body (associated-length n16 size session_id n)) in
      ap (λ o. lookup_then o (pack (carries cipher_text n16 size session_id))) found
      ∙ (ap (λ r. r >>= opened_by peer) (pack-transform tag n16 size session_id body t n h k)
          ∙ ap₂
              (λ c x. Encryption.unsealed a (
                a.unseal (cipher_of d) peer.decryption_key (take (nonce_length (cipher_of d)) n16) c
                  x))
              (take-append-drop (length cipher_text - 16) cipher_text) authenticated)
    where
      opened_by : Session → Bytes → Result Bytes
      opened_by session b = Encryption.unsealed a (
          a.unseal (cipher_of d) session.decryption_key (take (nonce_length (cipher_of d)) n16)
            (take (length cipher_text - 16) cipher_text
              ++ drop (length cipher_text - 16) cipher_text)
            (take 32 (drop 20 b)))

      lookup_then : Option Session → Result Bytes → Result Bytes
      lookup_then o packed = elim o [
        | none ↦ err smb_exception
        | some session ↦ packed >>= opened_by session
      ]

  -- What a client encrypts is built, and a peer decrypts it to the data, if it knows the session by the
  -- same id, holds the client's encryption key as its decryption key, and uses the same cipher.
  pub decrypt-encrypt :
      (c d : Connection) (nonce : Bytes) (session peer : Session) (b_data : Bytes)
      → length nonce ≡ nonce_length (cipher_of c)
      → length b_data < 4294967296
      → session.session_id < 18446744073709551616
      → cipher_of d ≡ cipher_of c
      → lookup session.session_id d.session_table ≡ some peer
      → peer.decryption_key ≡ session.encryption_key
      → (message : Structure) × (encrypt a c nonce session b_data ≡ ok message)
        × (decrypt a d message ≡ ok b_data)
  unfolding Encryption.unsealed
  decrypt-encrypt c d nonce session peer b_data e h k same found key =
      let n16 : Bytes = padded (cipher_of c) nonce in
      let extra : Bytes = associated n16 (length b_data) session.session_id in
      (
        carries (sealed c nonce session b_data) n16 (length b_data) session.session_id,
        encrypt-eq c nonce session b_data e h k,
        decrypt-eq d peer (sealed c nonce session b_data) n16 (length b_data) session.session_id
              (tag-length (cipher_of c) session.encryption_key nonce b_data extra)
              (padded-length (cipher_of c) nonce e) h k found
            ∙ ap (Encryption.unsealed a) (
                ap₂
                  (λ cipher dk.
                    a.unseal cipher dk (take (nonce_length cipher) n16)
                      (sealed c nonce session b_data) extra)
                  same key
                ∙ (ap
                      (λ n.
                        a.unseal (cipher_of c) session.encryption_key n
                          (sealed c nonce session b_data) extra)
                      (take-append_eq (nonce_length (cipher_of c)) nonce
                        (replicate (16 - nonce_length (cipher_of c)) 0) e)
                    ∙ a.unseal-seal (cipher_of c) session.encryption_key nonce b_data extra)),
      )
