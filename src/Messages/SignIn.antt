-- ===== src/Messages/SignIn.antt =====
-- smbprotocol/session.py: the messages that open and close a session.
use smbprotocol.Prelude.{ℕ, List, [], ◌∷◌, true}
use smbprotocol.Structure.{computed}
use smbprotocol.Structure.Walk.{Structure}
use smbprotocol.Structure.Build.{
  value_of, length_of, IntField, EnumField, FlagField, BytesField, ComputedInt,
}

-- `SecurityMode`
abbrev pub security_mode : List ℕ
security_mode = 0x1 ∷ 0x2 ∷ []

-- `Capabilities`
abbrev pub capabilities : List ℕ
capabilities = 0x1 ∷ 0x2 ∷ 0x4 ∷ 0x8 ∷ 0x10 ∷ 0x20 ∷ 0x40 ∷ []

-- `SessionFlags`
abbrev pub session_flags : List ℕ
session_flags = 0x1 ∷ 0x2 ∷ 0x4 ∷ []

-- `SMB2SessionSetupRequest`
unfoldable pub smb2_session_setup_request : Structure
smb2_session_setup_request =
    IntField "structure_size" 2 25
    ∷ IntField "flags" 1 0
    ∷ EnumField "security_mode" 1 security_mode true
    ∷ FlagField "capabilities" 4 capabilities
    ∷ IntField "channel" 4 0
    ∷ IntField "security_buffer_offset" 2 88
    ∷ ComputedInt "security_buffer_length" 2 (length_of "buffer")
    ∷ IntField "previous_session_id" 8 0
    ∷ BytesField "buffer" (computed (value_of "security_buffer_length")) []
    ∷ []

-- `SMB2SessionSetupResponse`
unfoldable pub smb2_session_setup_response : Structure
smb2_session_setup_response =
    IntField "structure_size" 2 9
    ∷ FlagField "session_flags" 2 session_flags
    ∷ IntField "security_buffer_offset" 2 72
    ∷ ComputedInt "security_buffer_length" 2 (length_of "buffer")
    ∷ BytesField "buffer" (computed (value_of "security_buffer_length")) []
    ∷ []

-- `SMB2Logoff`
unfoldable pub smb2_logoff : Structure
smb2_logoff = IntField "structure_size" 2 4 ∷ IntField "reserved" 2 0 ∷ []
