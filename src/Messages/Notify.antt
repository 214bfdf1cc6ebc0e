-- ===== src/Messages/Notify.antt =====
-- smbprotocol/change_notify.py: the messages that watch a directory.
use smbprotocol.Prelude.{ℕ, List, [], ◌∷◌}
use smbprotocol.Structure.{fixed, computed}
use smbprotocol.Structure.Walk.{Structure}
use smbprotocol.Structure.Build.{value_of, length_of, IntField, FlagField, BytesField, ComputedInt}

-- `ChangeNotifyFlags`
abbrev pub change_notify_flags : List ℕ
change_notify_flags = 0 ∷ 0x0001 ∷ []

-- `CompletionFilter`
abbrev pub completion_filter : List ℕ
completion_filter =
    0x00000001 ∷ 0x00000002 ∷ 0x00000004 ∷ 0x00000008 ∷ 0x00000010 ∷ 0x00000020 ∷ 0x00000040
    ∷ 0x00000080 ∷ 0x00000100 ∷ 0x00000200 ∷ 0x00000400 ∷ 0x00000800 ∷ []

-- `FileAction`
abbrev pub file_action : List ℕ
file_action =
    0x00000001 ∷ 0x00000002 ∷ 0x00000003 ∷ 0x00000004 ∷ 0x00000005 ∷ 0x00000006 ∷ 0x00000007
    ∷ 0x00000008 ∷ 0x00000009 ∷ 0x0000000A ∷ 0x0000000B ∷ []

-- `SMB2ChangeNotifyRequest`
unfoldable pub smb2_change_notify_request : Structure
smb2_change_notify_request =
    IntField "structure_size" 2 32
    ∷ FlagField "flags" 2 change_notify_flags
    ∷ IntField "output_buffer_length" 4 0
    ∷ BytesField "file_id" (fixed 16) []
    ∷ FlagField "completion_filter" 4 completion_filter
    ∷ IntField "reserved" 4 0
    ∷ []

-- `SMB2ChangeNotifyResponse`
unfoldable pub smb2_change_notify_response : Structure
smb2_change_notify_response =
    IntField "structure_size" 2 9
    ∷ IntField "output_buffer_offset" 2 72
    ∷ ComputedInt "output_buffer_length" 4 (length_of "buffer")
    ∷ BytesField "buffer" (computed (value_of "output_buffer_length")) []
    ∷ []
