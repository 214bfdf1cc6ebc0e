-- ===== src/Messages/Reading.antt =====
-- smbprotocol/open.py, `Open.read`: the request that it builds.
use smbprotocol.Prelude.{
  ℕ, ◌+◌, ◌-◌, ◌/◌, ◌≤◌, ◌≡◌, refl, [], ◌∷◌, ap, Bool, true, false, Result, ok, ◌>>=◌, ◌>>◌, guard,
  smb_exception, Bool-cases, inl, inr, err, leb→le, sym, ok-injective, leb, le→leb, arith,
}
use smbprotocol.Bytes.{Bytes, struct_unpack, from_le}
use smbprotocol.Structure.{num, bytes, calculated_value, parse_value}
use smbprotocol.Structure.Walk.{Structure, set_item, view_of, view, get_field, get_value}
use smbprotocol.Header.{smb2_read}
use smbprotocol.Connection.{Message}
use smbprotocol.Connection.Build.{set_flag}
use smbprotocol.Connection.Credits.{calculate_credit_charge, payload_size, max_payload_size}
use smbprotocol.Messages.ReadWrite.{smb2_read_request}

abbrev pub smb_3_0_2 : ℕ
smb_3_0_2 = 0x0302

pub guarded-leb :
    {A : Type 0} (a b : ℕ) (rest : Result A) {x : A}
    → (guard (leb a b) smb_exception >> rest) ≡ ok x
    → a ≤ b
guarded-leb a b rest {x} e = elim (Bool-cases (leb a b)) [
  | inl within ↦ leb→le a b within
  | inr over ↦ absurd (refused (rw over at e))
]
  where
    refused : ◌≡◌ {A = Result _} (err smb_exception) (ok x) → ⊥
    refused q = cc

unbuffered_flag : Bool → ℕ → Structure → Result Structure
unfolding set_flag
unbuffered_flag false dialect s = ok s
unbuffered_flag true dialect s = do
  guard (leb smb_3_0_2 dialect) smb_exception
  set_flag s "flags" 0x01

-- `read`, up to the call of `send`: `max_read_size` and `dialect` are those of the connection.
unfoldable pub read : ℕ → ℕ → Bytes → ℕ → ℕ → ℕ → Bool → Result Message
unfolding smb2_read_request set_item unbuffered_flag
read max_read_size dialect file_id offset size min_length unbuffered = do
  guard (leb size max_read_size) smb_exception
  h₁ ← set_item smb2_read_request "length" (num size)
  h₂ ← set_item h₁ "offset" (num offset)
  h₃ ← set_item h₂ "minimum_count" (num min_length)
  h₄ ← set_item h₃ "file_id" (bytes file_id)
  h₅ ← set_item h₄ "padding" (bytes (0x50 ∷ []))
  h₆ ← unbuffered_flag unbuffered dialect h₅
  ok (record { command = smb2_read; fields = h₆ })

pub same_charge :
    (size : ℕ) → ok ((size + 0 - 1) / max_payload_size + 1) ≡ ok ((size - 1) / max_payload_size + 1)
same_charge size = ap (λ (n : ℕ). ok ((n - 1) / max_payload_size + 1)) (omega arith)

-- A read within the size that was negotiated is built, unless it asks for unbuffered data of a dialect
-- before 3.0.2, and is charged for the length that it asks for.
pub calculate_credit_charge-read :
    (max_read_size dialect : ℕ) (file_id : Bytes) (offset size min_length : ℕ) (unbuffered : Bool)
    → size ≤ max_read_size
    → (unbuffered ≡ true → smb_3_0_2 ≤ dialect)
    → (read max_read_size dialect file_id offset size min_length unbuffered
        >>= calculate_credit_charge true)
      ≡ ok ((size - 1) / max_payload_size + 1)
unfolding read calculate_credit_charge payload_size set_item calculated_value parse_value view_of
    view get_field get_value smb2_read_request struct_unpack from_le set_flag
calculate_credit_charge-read max_read_size dialect file_id offset size min_length false h d =
    rw (le→leb _ _ h) (same_charge size)
calculate_credit_charge-read max_read_size dialect file_id offset size min_length true h d =
    rw (le→leb _ _ h, le→leb _ _ (d refl)) (same_charge size)

pub read-command :
    (max_read_size dialect : ℕ) (file_id : Bytes) (offset size min_length : ℕ) {m : Message}
    → size ≤ max_read_size
    → read max_read_size dialect file_id offset size min_length false ≡ ok m
    → m.command ≡ smb2_read
unfolding read set_item calculated_value parse_value view_of view get_field get_value
    smb2_read_request struct_unpack from_le
read-command max_read_size dialect file_id offset size min_length {m} h e =
    ap (λ (m : Message). m.command) (sym (ok-injective (rw (le→leb _ _ h) at e)))

-- A read that was built keeps its offset.
pub read-offset :
    (max_read_size dialect : ℕ) (file_id : Bytes) (offset size min_length : ℕ) {m : Message}
    → size ≤ max_read_size
    → read max_read_size dialect file_id offset size min_length false ≡ ok m
    → get_value m.fields "offset" ≡ ok (num offset)
unfolding read set_item calculated_value parse_value view_of view get_field get_value
    smb2_read_request struct_unpack from_le
read-offset max_read_size dialect file_id offset size min_length {m} h e =
    ap (λ (m : Message). get_value m.fields "offset") (sym (ok-injective (rw (le→leb _ _ h) at e)))

-- A read that was built is within the size that was negotiated.
pub read-fits :
    (max_read_size dialect : ℕ) (file_id : Bytes) (offset size min_length : ℕ) (unbuffered : Bool)
    {m : Message}
    → read max_read_size dialect file_id offset size min_length unbuffered ≡ ok m
    → size ≤ max_read_size
unfolding read
read-fits max_read_size dialect file_id offset size min_length unbuffered {m} e =
    guarded-leb size max_read_size _ e
