-- ===== src/Header.antt =====
-- smbprotocol/header.py: the SMB2 packet headers.
pub mod Layout
pub mod Offsets
use smbprotocol.Prelude.{ℕ, List, [], ◌∷◌, true, false, replicate}
use smbprotocol.Bytes.{Bytes}
use smbprotocol.Structure.{fixed, variable}
use smbprotocol.Structure.Walk.{Structure}
use smbprotocol.Structure.Build.{IntField, EnumField, FlagField, BytesField}

-- `Commands`
abbrev pub smb2_negotiate : ℕ
smb2_negotiate = 0x0000

abbrev pub smb2_session_setup : ℕ
smb2_session_setup = 0x0001

abbrev pub smb2_logoff : ℕ
smb2_logoff = 0x0002

abbrev pub smb2_tree_connect : ℕ
smb2_tree_connect = 0x0003

abbrev pub smb2_tree_disconnect : ℕ
smb2_tree_disconnect = 0x0004

abbrev pub smb2_create : ℕ
smb2_create = 0x0005

abbrev pub smb2_close : ℕ
smb2_close = 0x0006

abbrev pub smb2_flush : ℕ
smb2_flush = 0x0007

abbrev pub smb2_read : ℕ
smb2_read = 0x0008

abbrev pub smb2_write : ℕ
smb2_write = 0x0009

abbrev pub smb2_lock : ℕ
smb2_lock = 0x000A

abbrev pub smb2_ioctl : ℕ
smb2_ioctl = 0x000B

abbrev pub smb2_cancel : ℕ
smb2_cancel = 0x000C

abbrev pub smb2_echo : ℕ
smb2_echo = 0x000D

abbrev pub smb2_query_directory : ℕ
smb2_query_directory = 0x000E

abbrev pub smb2_change_notify : ℕ
smb2_change_notify = 0x000F

abbrev pub smb2_query_info : ℕ
smb2_query_info = 0x0010

abbrev pub smb2_set_info : ℕ
smb2_set_info = 0x0011

abbrev pub smb2_oplock_break : ℕ
smb2_oplock_break = 0x0012

abbrev pub commands : List ℕ
commands =
    0x0 ∷ 0x1 ∷ 0x2 ∷ 0x3 ∷ 0x4 ∷ 0x5 ∷ 0x6 ∷ 0x7 ∷ 0x8 ∷ 0x9 ∷ 0xa ∷ 0xb ∷ 0xc ∷ 0xd ∷ 0xe ∷ 0xf
    ∷ 0x10 ∷ 0x11 ∷ 0x12 ∷ []

-- The statuses of `NtStatus` that the connection tests for.
abbrev pub status_success : ℕ
status_success = 0x00000000

abbrev pub status_pending : ℕ
status_pending = 0x00000103

abbrev pub status_stopped_on_symlink : ℕ
status_stopped_on_symlink = 0x8000002D

abbrev pub status_more_processing_required : ℕ
status_more_processing_required = 0xC0000016

-- `NtStatus`
abbrev pub nt_status : List ℕ
nt_status =
    0x0 ∷ 0xc0000001 ∷ 0xc00000c9 ∷ 0x103 ∷ 0x10b ∷ 0x10c ∷ 0x80000005 ∷ 0x80000006 ∷ 0xc0000011
    ∷ 0x80000013 ∷ 0x80000014 ∷ 0x8000002d ∷ 0xc0000003 ∷ 0xc0000004 ∷ 0xc000000d ∷ 0xc000000f
    ∷ 0xc0000010 ∷ 0xc0000016 ∷ 0xc0000022 ∷ 0xc0000023 ∷ 0xc0000033 ∷ 0xc0000034 ∷ 0xc0000035
    ∷ 0xc0000039 ∷ 0xc000003a ∷ 0xc000003b ∷ 0xc0000043 ∷ 0xc000004f ∷ 0xc0000050 ∷ 0xc0000051
    ∷ 0xc0000052 ∷ 0xc0000053 ∷ 0xc0000056 ∷ 0xc0000061 ∷ 0xc000006a ∷ 0xc000006d ∷ 0xc0000071
    ∷ 0xc0000073 ∷ 0xc000009a ∷ 0xc00000ac ∷ 0xc00000ae ∷ 0xc00000b0 ∷ 0xc00000b1 ∷ 0xc00000b5
    ∷ 0xc00000ba ∷ 0xc00000bb ∷ 0xc00000cc ∷ 0xc00000d0 ∷ 0xc00000d9 ∷ 0xc00000e5 ∷ 0xc0000101
    ∷ 0xc0000103 ∷ 0xc0000120 ∷ 0xc0000121 ∷ 0xc0000128 ∷ 0xc000014b ∷ 0xc000019c ∷ 0xc0000203
    ∷ 0xc0000205 ∷ 0xc0000225 ∷ 0xc0000257 ∷ 0xc000026d ∷ 0xc0000275 ∷ 0xc0000466 ∷ []

-- `Smb2Flags`
abbrev pub smb2_flags_server_to_redir : ℕ
smb2_flags_server_to_redir = 0x00000001

abbrev pub smb2_flags_async_command : ℕ
smb2_flags_async_command = 0x00000002

abbrev pub smb2_flags_related_operations : ℕ
smb2_flags_related_operations = 0x00000004

abbrev pub smb2_flags_signed : ℕ
smb2_flags_signed = 0x00000008

abbrev pub smb2_flags_priority_mask : ℕ
smb2_flags_priority_mask = 0x00000070

abbrev pub smb2_flags_dfs_operations : ℕ
smb2_flags_dfs_operations = 0x10000000

abbrev pub smb2_flags_replay_operations : ℕ
smb2_flags_replay_operations = 0x20000000

abbrev pub smb2_flags : List ℕ
smb2_flags = 0x1 ∷ 0x2 ∷ 0x4 ∷ 0x8 ∷ 0x70 ∷ 0x10000000 ∷ 0x20000000 ∷ []

-- b"\xfeSMB"
abbrev pub smb_protocol_id : Bytes
smb_protocol_id = 0xfe ∷ 0x53 ∷ 0x4d ∷ 0x42 ∷ []

-- `SMB2HeaderAsync`
unfoldable pub smb2_header_async : Structure
smb2_header_async =
    BytesField "protocol_id" (fixed 4) smb_protocol_id
    ∷ IntField "structure_size" 2 64
    ∷ IntField "credit_charge" 2 0
    ∷ IntField "channel_sequence" 2 0
    ∷ IntField "reserved" 2 0
    ∷ EnumField "command" 2 commands true
    ∷ IntField "credit_request" 2 0
    ∷ FlagField "flags" 4 smb2_flags
    ∷ IntField "next_command" 4 0
    ∷ IntField "message_id" 8 0
    ∷ IntField "async_id" 8 0
    ∷ IntField "session_id" 8 0
    ∷ BytesField "signature" (fixed 16) (replicate 16 0)
    ∷ BytesField "data" variable []
    ∷ []

-- `SMB2HeaderRequest`
unfoldable pub smb2_header_request : Structure
smb2_header_request =
    BytesField "protocol_id" (fixed 4) smb_protocol_id
    ∷ IntField "structure_size" 2 64
    ∷ IntField "credit_charge" 2 0
    ∷ IntField "channel_sequence" 2 0
    ∷ IntField "reserved" 2 0
    ∷ EnumField "command" 2 commands true
    ∷ IntField "credit_request" 2 0
    ∷ FlagField "flags" 4 smb2_flags
    ∷ IntField "next_command" 4 0
    ∷ IntField "message_id" 8 0
    ∷ IntField "process_id" 4 0
    ∷ IntField "tree_id" 4 0
    ∷ IntField "session_id" 8 0
    ∷ BytesField "signature" (fixed 16) (replicate 16 0)
    ∷ BytesField "data" variable []
    ∷ []

-- `SMB2HeaderResponse`
unfoldable pub smb2_header_response : Structure
smb2_header_response =
    BytesField "protocol_id" (fixed 4) smb_protocol_id
    ∷ IntField "structure_size" 2 64
    ∷ IntField "credit_charge" 2 0
    ∷ EnumField "status" 4 nt_status false
    ∷ EnumField "command" 2 commands false
    ∷ IntField "credit_response" 2 0
    ∷ FlagField "flags" 4 smb2_flags
    ∷ IntField "next_command" 4 0
    ∷ IntField "message_id" 8 0
    ∷ IntField "reserved" 4 0
    ∷ IntField "tree_id" 4 0
    ∷ IntField "session_id" 8 0
    ∷ BytesField "signature" (fixed 16) (replicate 16 0)
    ∷ BytesField "data" variable []
    ∷ []
