-- ===== src/Messages/Share.antt =====
-- smbprotocol/tree.py: the messages that answer a tree connect and that end it.
use smbprotocol.Prelude.{ℕ, List, [], ◌∷◌, true}
use smbprotocol.Structure.Walk.{Structure}
use smbprotocol.Structure.Build.{IntField, EnumField, FlagField}

-- `ShareType`
abbrev pub share_type : List ℕ
share_type = 0x1 ∷ 0x2 ∷ 0x3 ∷ []

-- `ShareFlags`
abbrev pub share_flags : List ℕ
share_flags =
    0x0 ∷ 0x10 ∷ 0x20 ∷ 0x30 ∷ 0x1 ∷ 0x2 ∷ 0x100 ∷ 0x200 ∷ 0x400 ∷ 0x800 ∷ 0x1000 ∷ 0x2000 ∷ 0x4000
    ∷ 0x8000 ∷ 0x40000 ∷ []

-- `ShareCapabilities`
abbrev pub share_capabilities : List ℕ
share_capabilities = 0x8 ∷ 0x10 ∷ 0x20 ∷ 0x40 ∷ 0x80 ∷ 0x100 ∷ []

-- `SMB2TreeConnectResponse`
unfoldable pub smb2_tree_connect_response : Structure
smb2_tree_connect_response =
    IntField "structure_size" 2 16
    ∷ EnumField "share_type" 1 share_type true
    ∷ IntField "reserved" 1 0
    ∷ FlagField "share_flags" 4 share_flags
    ∷ FlagField "capabilities" 4 share_capabilities
    ∷ IntField "maximal_access" 4 0
    ∷ []

-- `SMB2TreeDisconnect`
unfoldable pub smb2_tree_disconnect : Structure
smb2_tree_disconnect = IntField "structure_size" 2 4 ∷ IntField "reserved" 2 0 ∷ []
