-- ===== src/Connection/Encryption.antt =====
-- smbprotocol/connection.py, `SMB2TransformHeader`, `_encrypt` and `_decrypt`.
pub mod RoundTrip
use smbprotocol.Prelude.{
  ℕ, ◌+◌, ◌-◌, ◌≡◌, [], ◌∷◌, ◌++◌, ◌||◌, Option, none, some, Result, ok, err, ◌>>=◌, ◌>>◌, guard,
  smb_exception, invalid_tag, ◌==◌, leb, if◌then◌else◌, length, take, drop, replicate, lookup,
}
use smbprotocol.Bytes.{Bytes}
use smbprotocol.Structure.{Value, num, bytes, fixed, variable}
use smbprotocol.Structure.Build.{as_int, IntField, BytesField}
use smbprotocol.Structure.Walk.{Structure, get_value, set_item, pack}
use smbprotocol.Connection.{Connection, Session}
use smbprotocol.Connection.Signature.{smb_3_1_1}

-- b"\xfdSMB"
abbrev pub transform_protocol_id : Bytes
transform_protocol_id = 0xfd ∷ 0x53 ∷ 0x4d ∷ 0x42 ∷ []

-- `SMB2TransformHeader`
unfoldable pub smb2_transform_header : Structure
smb2_transform_header =
    BytesField "protocol_id" (fixed 4) transform_protocol_id
    ∷ BytesField "signature" (fixed 16) (replicate 16 0)
    ∷ BytesField "nonce" (fixed 16) []
    ∷ IntField "original_message_size" 4 0
    ∷ IntField "reserved" 2 0
    ∷ IntField "flags" 2 1
    ∷ IntField "session_id" 8 0
    ∷ BytesField "data" variable []
    ∷ []

-- The authenticated ciphers of the cryptography package, by their id in `Ciphers`: `seal` is
-- `cipher(key).encrypt(nonce, data, associated_data)` and `unseal` is `decrypt`, which raises where the
-- tag does not fit. The laws are the documented ones.
pub record Aead : Type 0 where
  pub seal : ℕ → Bytes → Bytes → Bytes → Bytes → Bytes
  pub unseal : ℕ → Bytes → Bytes → Bytes → Bytes → Option Bytes
  pub unseal-seal :
      (cipher : ℕ) (key nonce b associated : Bytes)
      → unseal cipher key nonce (seal cipher key nonce b associated) associated ≡ some b
  pub length-seal :
      (cipher : ℕ) (key nonce b associated : Bytes)
      → length (seal cipher key nonce b associated) ≡ length b + 16

-- The cipher of the connection.
unfoldable pub cipher_of : Connection → ℕ
cipher_of c = if leb smb_3_1_1 c.dialect then (elim c.cipher_id [ some id ↦ id | none ↦ 0 ]) else 1

-- 12 bytes for the GCM ciphers and 11 for the CCM ones.
unfoldable pub nonce_length : ℕ → ℕ
nonce_length cipher = if cipher == 2 || cipher == 4 then 12 else 11

module _ (a : Aead) where
  -- `_encrypt`, with the bytes that `os.urandom` returns.
  unfoldable pub encrypt : Connection → Bytes → Session → Bytes → Result Structure
  unfolding smb2_transform_header cipher_of nonce_length set_item pack
  encrypt c nonce session b_data = do
    let cipher = cipher_of c
    h₁ ← set_item smb2_transform_header "original_message_size" (num (length b_data))
    h₂ ← set_item h₁ "session_id" (num session.session_id)
    h₃ ← set_item h₂ "nonce" (bytes (nonce ++ replicate (16 - nonce_length cipher) 0))
    b ← pack h₃
    let cipher_text = a.seal cipher session.encryption_key nonce b_data (drop 20 b)
    h₄ ← set_item h₃ "signature" (bytes (drop (length cipher_text - 16) cipher_text))
    set_item h₄ "data" (bytes (take (length cipher_text - 16) cipher_text))

  unfoldable pub as_bytes : Value → Bytes
  as_bytes (bytes b) = b
  as_bytes _ = []

  unfoldable pub unsealed : Option Bytes → Result Bytes
  unsealed (some b) = ok b
  unsealed none = err invalid_tag

  -- `_decrypt`
  unfoldable pub decrypt : Connection → Structure → Result Bytes
  unfolding get_value pack cipher_of nonce_length as_bytes unsealed
  decrypt c message = do
    flags ← (get_value message "flags" >>= as_int)
    guard (flags == 1) smb_exception
    session_id ← (get_value message "session_id" >>= as_int)
    elim (lookup session_id c.session_table) [
      | none ↦ err smb_exception
      | some session ↦ do
        nonce ← get_value message "nonce"
        signature ← get_value message "signature"
        enc_data ← get_value message "data"
        b ← pack message
        unsealed (
            a.unseal (cipher_of c) session.decryption_key
              (take (nonce_length (cipher_of c)) (as_bytes nonce))
              (as_bytes enc_data ++ as_bytes signature) (take 32 (drop 20 b)))
    ]
