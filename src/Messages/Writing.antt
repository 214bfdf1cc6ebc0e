-- ===== src/Messages/Writing.antt =====
-- smbprotocol/open.py, `Open.write`: the request that it builds.
use smbprotocol.Prelude.{
  ℕ, ◌+◌, ◌-◌, ◌/◌, ◌≤◌, ◌≡◌, refl, Bool, true, false, Result, ok, ◌>>=◌, ◌>>◌, guard,
  smb_exception, sym, ap, ok-injective, leb, le→leb, length,
}
use smbprotocol.Bytes.{Bytes, struct_unpack, from_le}
use smbprotocol.Structure.{num, bytes, calculated_value, parse_value, packed_size}
use smbprotocol.Structure.Walk.{Structure, set_item, view_of, view, get_field, get_value}
use smbprotocol.Header.{smb2_write}
use smbprotocol.Connection.{Message}
use smbprotocol.Connection.Build.{set_flag}
use smbprotocol.Connection.Credits.{calculate_credit_charge, payload_size, max_payload_size}
use smbprotocol.Messages.ReadWrite.{smb2_write_request}
use smbprotocol.Messages.Reading.{guarded-leb, smb_3_0_2, same_charge}

abbrev pub smb_2_1_0 : ℕ
smb_2_1_0 = 0x0210

write_through_flag : Bool → ℕ → Structure → Result Structure
unfolding set_flag
write_through_flag false dialect s = ok s
write_through_flag true dialect s = do
  guard (leb smb_2_1_0 dialect) smb_exception
  set_flag s "flags" 0x00000001

unbuffered_flag : Bool → ℕ → Structure → Result Structure
unfolding set_flag
unbuffered_flag false dialect s = ok s
unbuffered_flag true dialect s = do
  guard (leb smb_3_0_2 dialect) smb_exception
  set_flag s "flags" 0x00000002

-- `write`, up to the call of `send`: `max_write_size` and `dialect` are those of the connection.
unfoldable pub write : ℕ → ℕ → Bytes → Bytes → ℕ → Bool → Bool → Result Message
unfolding smb2_write_request set_item write_through_flag unbuffered_flag
write max_write_size dialect file_id b_data offset write_through unbuffered = do
  guard (leb (length b_data) max_write_size) smb_exception
  h₁ ← set_item smb2_write_request "length" (num (length b_data))
  h₂ ← set_item h₁ "offset" (num offset)
  h₃ ← set_item h₂ "file_id" (bytes file_id)
  h₄ ← set_item h₃ "buffer" (bytes b_data)
  h₅ ← write_through_flag write_through dialect h₄
  h₆ ← unbuffered_flag unbuffered dialect h₅
  ok (record { command = smb2_write; fields = h₆ })

-- A write within the size that was negotiated is built, if the dialect has the flags that it asks for,
-- and is charged for its data.
pub calculate_credit_charge-write :
    (max_write_size dialect : ℕ) (file_id b_data : Bytes) (offset : ℕ)
    (write_through unbuffered : Bool)
    → length b_data ≤ max_write_size
    → (write_through ≡ true → smb_2_1_0 ≤ dialect)
    → (unbuffered ≡ true → smb_3_0_2 ≤ dialect)
    → (write max_write_size dialect file_id b_data offset write_through unbuffered
        >>= calculate_credit_charge true)
      ≡ ok ((length b_data - 1) / max_payload_size + 1)
unfolding write calculate_credit_charge payload_size set_item calculated_value parse_value view_of
    view get_field get_value smb2_write_request struct_unpack from_le set_flag packed_size
calculate_credit_charge-write max_write_size dialect file_id b_data offset false false h d e =
    rw (le→leb _ _ h) (same_charge (length b_data))
calculate_credit_charge-write max_write_size dialect file_id b_data offset false true h d e =
    rw (le→leb _ _ h, le→leb _ _ (e refl)) (same_charge (length b_data))
calculate_credit_charge-write max_write_size dialect file_id b_data offset true false h d e =
    rw (le→leb _ _ h, le→leb _ _ (d refl)) (same_charge (length b_data))
calculate_credit_charge-write max_write_size dialect file_id b_data offset true true h d e =
    rw (le→leb _ _ h, le→leb _ _ (d refl), le→leb _ _ (e refl)) (same_charge (length b_data))

pub write-command :
    (max_write_size dialect : ℕ) (file_id b_data : Bytes) (offset : ℕ) {m : Message}
    → length b_data ≤ max_write_size
    → write max_write_size dialect file_id b_data offset false false ≡ ok m
    → m.command ≡ smb2_write
unfolding write set_item calculated_value parse_value view_of view get_field get_value
    smb2_write_request struct_unpack from_le
write-command max_write_size dialect file_id b_data offset {m} h e =
    ap (λ (m : Message). m.command) (sym (ok-injective (rw (le→leb _ _ h) at e)))

-- A write that was built keeps its offset and its data.
pub write-offset_buffer :
    (max_write_size dialect : ℕ) (file_id b_data : Bytes) (offset : ℕ) {m : Message}
    → length b_data ≤ max_write_size
    → write max_write_size dialect file_id b_data offset false false ≡ ok m
    → (get_value m.fields "offset" ≡ ok (num offset))
      × (get_value m.fields "buffer" ≡ ok (bytes b_data))
unfolding write set_item calculated_value parse_value view_of view get_field get_value
    smb2_write_request struct_unpack from_le
write-offset_buffer max_write_size dialect file_id b_data offset {m} h e =
    let same = sym (ok-injective (rw (le→leb _ _ h) at e)) in
    (
      ap (λ (m : Message). get_value m.fields "offset") same,
      ap (λ (m : Message). get_value m.fields "buffer") same,
    )

-- A write that was built is within the size that was negotiated.
pub write-fits :
    (max_write_size dialect : ℕ) (file_id b_data : Bytes) (offset : ℕ)
    (write_through unbuffered : Bool) {m : Message}
    → write max_write_size dialect file_id b_data offset write_through unbuffered ≡ ok m
    → length b_data ≤ max_write_size
unfolding write
write-fits max_write_size dialect file_id b_data offset write_through unbuffered e =
    guarded-leb (length b_data) max_write_size _ e
