-- ===== src/Messages/ReadWrite.antt =====
-- smbprotocol/open.py: the messages of reads and writes.
use smbprotocol.Prelude.{ℕ, ◌+◌, ◌-◌, List, [], ◌∷◌, Result, ok, ◌>>=◌, ◌==◌, if◌then◌else◌}
use smbprotocol.Structure.{Value, num, View, fixed, computed}
use smbprotocol.Structure.Walk.{Structure}
use smbprotocol.Structure.Build.{
  value_of, length_of, IntField, FlagField, BytesField, ComputedInt, as_length,
}

-- `ReadFlags`
abbrev pub read_flags : List ℕ
read_flags = 0x01 ∷ []

-- `ReadWriteChannel`
abbrev pub read_write_channel : List ℕ
read_write_channel = 0x0 ∷ 0x1 ∷ 0x2 ∷ []

-- `WriteFlags`
abbrev pub write_flags : List ℕ
write_flags = 0x1 ∷ 0x2 ∷ []

-- `_get_read_channel_info_offset`
abbrev read_channel_info_offset : View → Result Value
read_channel_info_offset s = do
  channel ← value_of "channel" s
  structure_size ← value_of "structure_size" s
  ok (num (if channel == 0 then 0 else 64 + structure_size - 1))

-- `len(structure["buffer"].get_value())`
abbrev buffer_length : View → Result ℕ
buffer_length s = s.get_value "buffer" >>= as_length

-- `_get_read_channel_info_length`
abbrev read_channel_info_length : View → Result Value
read_channel_info_length s =
    let with_channel : Result Value = (buffer_length s >>= λ n. ok (num n)) in
    value_of "channel" s >>= λ channel. if channel == 0 then ok (num 0) else with_channel

-- `_get_buffer_length`
abbrev read_buffer_length : View → Result ℕ
read_buffer_length s =
    let with_channel : Result ℕ = value_of "read_channel_info_length" s in
    value_of "channel" s >>= λ channel. if channel == 0 then ok 1 else with_channel

-- `SMB2ReadRequest`
unfoldable pub smb2_read_request : Structure
smb2_read_request =
    IntField "structure_size" 2 49
    ∷ IntField "padding" 1 0
    ∷ FlagField "flags" 1 read_flags
    ∷ IntField "length" 4 0
    ∷ IntField "offset" 8 0
    ∷ BytesField "file_id" (fixed 16) []
    ∷ IntField "minimum_count" 4 0
    ∷ FlagField "channel" 4 read_write_channel
    ∷ IntField "remaining_bytes" 4 0
    ∷ ComputedInt "read_channel_info_offset" 2 read_channel_info_offset
    ∷ ComputedInt "read_channel_info_length" 2 read_channel_info_length
    ∷ BytesField "buffer" (computed read_buffer_length) (0 ∷ [])
    ∷ []

-- `SMB2ReadResponse`
unfoldable pub smb2_read_response : Structure
smb2_read_response =
    IntField "structure_size" 2 17
    ∷ IntField "data_offset" 1 0
    ∷ IntField "reserved" 1 0
    ∷ ComputedInt "data_length" 4 (length_of "buffer")
    ∷ IntField "data_remaining" 4 0
    ∷ IntField "reserved2" 4 0
    ∷ BytesField "buffer" (computed (value_of "data_length")) []
    ∷ []

-- `_get_write_channel_info_offset`
abbrev write_channel_info_offset : View → Result Value
write_channel_info_offset s = do
  info ← s.len "buffer_channel_info"
  structure_size ← value_of "structure_size" s
  buffer_size ← s.len "buffer"
  ok (num (if info == 0 then 0 else 64 + (structure_size - 1) + buffer_size))

-- `SMB2WriteRequest`
unfoldable pub smb2_write_request : Structure
smb2_write_request =
    IntField "structure_size" 2 49
    ∷ IntField "data_offset" 2 0x70
    ∷ ComputedInt "length" 4 (length_of "buffer")
    ∷ IntField "offset" 8 0
    ∷ BytesField "file_id" (fixed 16) []
    ∷ FlagField "channel" 4 read_write_channel
    ∷ IntField "remaining_bytes" 4 0
    ∷ ComputedInt "write_channel_info_offset" 2 write_channel_info_offset
    ∷ ComputedInt "write_channel_info_length" 2 (length_of "buffer_channel_info")
    ∷ FlagField "flags" 4 write_flags
    ∷ BytesField "buffer" (computed (value_of "length")) []
    ∷ BytesField "buffer_channel_info" (computed (value_of "write_channel_info_length")) []
    ∷ []

-- `SMB2WriteResponse`
unfoldable pub smb2_write_response : Structure
smb2_write_response =
    IntField "structure_size" 2 17
    ∷ IntField "reserved" 2 0
    ∷ IntField "count" 4 0
    ∷ IntField "remaining" 4 0
    ∷ IntField "write_channel_info_offset" 2 0
    ∷ IntField "write_channel_info_length" 2 0
    ∷ []
