-- ===== src/Messages/Controls.antt =====
-- smbclient/_io.py, `ioctl_request`, and smbclient/_pool.py, `dfs_request`: the control requests that are
-- built.
use smbprotocol.Prelude.{
  ℕ, ◌+◌, ◌*◌, ◌-◌, ◌/◌, ◌≤◌, ◌<◌, ◌≡◌, refl, [], ◌∷◌, ◌++◌, true, Result, ok, ◌>>=◌, replicate,
  length, max, ap, append-nil, lt→ltb, ==_refl,
}
use smbprotocol.Bytes.{Bytes, struct_pack, le_bytes, struct_unpack, from_le}
use smbprotocol.Structure.{
  num, bytes, calculated_value, parse_value, pack_value, packed_size, calculated_size, pack_field,
}
use smbprotocol.Structure.Walk.{set_item, pack, pack_fields, get_value, view_of, view, get_field}
use smbprotocol.Header.{smb2_ioctl}
use smbprotocol.Connection.{Message}
use smbprotocol.Connection.Credits.{calculate_credit_charge, payload_size, max_payload_size}
use smbprotocol.Messages.Ioctl.{smb2_ioctl_request}

-- `ioctl_request`, up to the transaction.
unfoldable pub ioctl_request : Bytes → ℕ → ℕ → ℕ → Bytes → Result Message
unfolding smb2_ioctl_request set_item
ioctl_request file_id ctl_code output_size flags input_buffer = do
  r₁ ← set_item smb2_ioctl_request "ctl_code" (num ctl_code)
  r₂ ← set_item r₁ "file_id" (bytes file_id)
  r₃ ← set_item r₂ "max_output_response" (num output_size)
  r₄ ← set_item r₃ "flags" (num flags)
  r₅ ← set_item r₄ "buffer" (bytes input_buffer)
  ok (record { command = smb2_ioctl; fields = r₅ })

abbrev pub fsctl_dfs_get_referrals : ℕ
fsctl_dfs_get_referrals = 0x00060194

-- `dfs_request`, up to the call of `send`, on the packed referral request.
unfoldable pub dfs_request : Bytes → Result Message
unfolding ioctl_request
dfs_request dfs_referral =
    ioctl_request (replicate 16 0xFF) fsctl_dfs_get_referrals (56 * 1024) 1 dfs_referral

-- The fixed part of the request: its lengths and offsets are those of the data.
abbrev pub dfs_head : ℕ → Bytes
dfs_head size =
    (57 ∷ 0 ∷ 0 ∷ 0 ∷ 0x94 ∷ 0x01 ∷ 0x06 ∷ 0x00 ∷ replicate 16 0xFF)
    ++ (120 ∷ 0 ∷ 0 ∷ 0 ∷ le_bytes 4 size)
    ++ (0 ∷ 0 ∷ 0 ∷ 0 ∷ 120 ∷ 0 ∷ 0 ∷ 0 ∷ 0 ∷ 0 ∷ 0 ∷ 0 ∷ 0 ∷ 0xE0 ∷ 0 ∷ 0 ∷ 1 ∷ 0 ∷ 0 ∷ 0 ∷ 0 ∷ 0
        ∷ 0 ∷ 0 ∷ [])

-- The request for the referrals of a path is built. Packed behind a header of 64 bytes its data begins at
-- `input_offset` and has the length of `input_count`, and the request is charged for the larger of its
-- data and the 56 KiB of the answer.
pub dfs_request-packed :
    (b : Bytes)
    → 1 ≤ length b
    → length b < 4294967296
    → (m : Message) × (dfs_request b ≡ ok m)
      × (pack m.fields ≡ ok (dfs_head (length b) ++ b))
      × (get_value m.fields "input_offset" ≡ ok (num (64 + length (dfs_head (length b)))))
      × (get_value m.fields "input_count" ≡ ok (num (length b)))
      × (calculate_credit_charge true m ≡ ok ((max (length b) 57344 - 1) / max_payload_size + 1))
unfolding dfs_request ioctl_request set_item smb2_ioctl_request calculated_value parse_value view_of
    view get_field get_value struct_unpack from_le packed_size pack pack_fields pack_field
    pack_value calculated_size struct_pack le_bytes calculate_credit_charge payload_size
dfs_request-packed b pos small = (
  _,
  refl,
  rw (lt→ltb 0 (length b) pos, lt→ltb (length b) 4294967296 small, ==_refl)
      (ap (λ d. ok (dfs_head (length b) ++ d)) (append-nil b)),
  rw (lt→ltb 0 (length b) pos) refl,
  refl,
  refl,
)
