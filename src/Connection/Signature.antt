-- ===== src/Connection/Signature.antt =====
-- smbprotocol/connection.py, `_generate_signature` and `verify_signature`.
use smbprotocol.Prelude.{
  ℕ, ◌+◌, ◌≤◌, ◌≡◌, [], ◌∷◌, ◌++◌, append_assoc, Bool, true, false, not, ◌&&◌, ◌||◌, Option, none,
  some, Result, ok, err, ◌>>=◌, guard, smb_exception, arith, ◌==◌, leb, if◌then◌else◌, length,
  length-append, length-take, take, drop, replicate, take-append_eq, drop-append_eq, String,
}
use smbprotocol.Bytes.{Bytes, le_bytes}
use smbprotocol.Structure.{Value, bytes, has_flag}
use smbprotocol.Structure.Build.{as_int}
use smbprotocol.Structure.Walk.{Structure, get_value, pack}
use smbprotocol.Header.{
  smb2_cancel, smb2_session_setup, status_pending, smb2_flags_signed, smb2_flags_server_to_redir,
}
use smbprotocol.Connection.{Connection, find_session}

abbrev pub smb_3_0_0 : ℕ
smb_3_0_0 = 0x0300

abbrev pub smb_3_1_1 : ℕ
smb_3_1_1 = 0x0311

-- `SigningAlgorithms`
abbrev pub hmac_sha256 : ℕ
hmac_sha256 = 0

abbrev pub aes_cmac : ℕ
aes_cmac = 1

abbrev pub aes_gmac : ℕ
aes_gmac = 2

-- What the program calls of the standard library and of the cryptography package. The laws are the
-- documented sizes of a GCM tag, a CMAC over AES and a SHA-256 digest.
pub record Crypto : Type 0 where
  pub gmac : Bytes → Bytes → Bytes → Bytes
  pub cmac : Bytes → Bytes → Bytes
  pub hmac : Bytes → Bytes → Bytes
  pub length-gmac : (key nonce b : Bytes) → length (gmac key nonce b) ≡ 16
  pub length-cmac : (key b : Bytes) → length (cmac key b) ≡ 16
  pub length-hmac : (key b : Bytes) → length (hmac key b) ≡ 32

-- `b_header[:48] + signature + b_header[64:]`
unfoldable pub with_signature : Bytes → Bytes → Bytes
with_signature b_header signature = take 48 b_header ++ (signature ++ drop 64 b_header)

sign_id_of : Option ℕ → ℕ → ℕ
sign_id_of negotiated dialect =
    let fallback : ℕ = if leb smb_3_0_0 dialect then aes_cmac else hmac_sha256 in
    elim negotiated [ some id ↦ if leb smb_3_1_1 dialect then id else fallback | none ↦ fallback ]

pub message_info : Bool → ℕ → ℕ
message_info response command =
    (if response then 1 else 0) + (if command == smb2_cancel then 2 else 0)

unfoldable pub int_of : Structure → String → Result ℕ
unfolding get_value
int_of s key = get_value s key >>= as_int

bytes_of : Value → Bytes
bytes_of (bytes b) = b
bytes_of _ = []

-- The comparison of two byte strings.
unfoldable pub same_bytes : Bytes → Bytes → Bool
same_bytes [] [] = true
same_bytes (a ∷ as_) (b ∷ bs) = a == b && same_bytes as_ bs
same_bytes _ _ = false

-- The responses that `verify_signature` lets pass.
may_skip : ℕ → ℕ → ℕ → ℕ → Bool
may_skip message_id flags status command =
    message_id == 0xffff_ffff_ffff_ffff
    || (not (has_flag flags smb2_flags_signed)
        || (status == status_pending || command == smb2_session_setup))

with_signature_twice :
    (b s z : Bytes)
    → 64 ≤ length b
    → length s ≡ 16
    → with_signature (with_signature b s) z ≡ with_signature b z
unfolding with_signature
with_signature_twice b s z h e =
    let front : length (take 48 b) ≡ 48 = omega (arith, length-take 48 b) in
    let signed : length (take 48 b ++ s) ≡ 64 = omega (arith, length-append (take 48 b) s) in
    let back : drop 64 (take 48 b ++ (s ++ drop 64 b)) ≡ drop 64 b =
      rw (← append_assoc (take 48 b) s (drop 64 b))
        (drop-append_eq 64 (take 48 b ++ s) (drop 64 b) signed) in
    rw (take-append_eq 48 (take 48 b) (s ++ drop 64 b) front, back)

module _ (k : Crypto) where
  -- `_generate_signature`
  unfoldable pub generate_signature : Connection → Bytes → Bytes → ℕ → Bool → ℕ → Bytes
  unfolding with_signature sign_id_of message_info
  generate_signature c b_header signing_key message_id response command =
      let b : Bytes = with_signature b_header (replicate 16 0) in
      let sign_id : ℕ = sign_id_of c.signing_algorithm_id c.dialect in
      if sign_id == aes_gmac
      then k.gmac signing_key (le_bytes 8 message_id ++ le_bytes 4 (message_info response command))
          b
      else if sign_id == aes_cmac
      then k.cmac signing_key b
      else take 16 (k.hmac signing_key b)

  -- `verify_signature` where it does not return at once.
  unfoldable pub check_signature : Connection → Structure → Option ℕ → Result (Unit {0})
  unfolding generate_signature int_of bytes_of same_bytes pack find_session
  check_signature c header session_id = do
    message_id ← int_of header "message_id"
    flags ← int_of header "flags"
    command ← int_of header "command"
    actual ← get_value header "signature"
    elim (find_session c session_id) [
      | none ↦ err smb_exception
      | some session ↦ do
        b ← pack header
        let expected =
            generate_signature c b session.signing_key message_id
              (has_flag flags smb2_flags_server_to_redir) command
        guard (same_bytes (bytes_of actual) expected) smb_exception
    ]

  -- `verify_signature`
  unfoldable pub verify_signature : Connection → Structure → Option ℕ → Bool → Result (Unit {0})
  unfolding check_signature may_skip
  verify_signature c header session_id force = do
    message_id ← int_of header "message_id"
    flags ← int_of header "flags"
    status ← int_of header "status"
    command ← int_of header "command"
    let skip = not force && may_skip message_id flags status command
    if skip then ok tt else check_signature c header session_id

  pub length-generate_signature :
      (c : Connection) (b key : Bytes) (message_id : ℕ) (response : Bool) (command : ℕ)
      → length (generate_signature c b key message_id response command) ≡ 16
  unfolding generate_signature
  length-generate_signature c b key message_id response command =
      let z = with_signature b (replicate 16 0) in
      let nonce = le_bytes 8 message_id ++ le_bytes 4 (message_info response command) in
      ground (
        arith,
        k.length-gmac key nonce z,
        k.length-cmac key z,
        k.length-hmac key z,
        length-take 16 (k.hmac key z),
      )

  -- The signature of a packet of 64 bytes or more is the same after a signature of 16 bytes has been
  -- written into its signature field.
  pub generate_signature-with_signature :
      (c : Connection) (b s key : Bytes) (message_id : ℕ) (response : Bool) (command : ℕ)
      → 64 ≤ length b
      → length s ≡ 16
      → generate_signature c (with_signature b s) key message_id response command
        ≡ generate_signature c b key message_id response command
  unfolding generate_signature
  generate_signature-with_signature c b s key message_id response command h e =
      rw (with_signature_twice b s (replicate 16 0) h e)
