-- ===== src/Messages/Ioctl.antt =====
-- smbprotocol/ioctl.py: the control requests, and the data of some of them.
use smbprotocol.Prelude.{ℕ, ◌+◌, ◌-◌, List, [], ◌∷◌, true, Result, ok, ◌>>=◌, ltb, if◌then◌else◌}
use smbprotocol.Structure.{Value, num, View, fixed, computed}
use smbprotocol.Structure.Walk.{Structure}
use smbprotocol.Structure.Build.{value_of, length_of, IntField, EnumField, BytesField, ComputedInt}

-- `CtlCode`
abbrev pub ctl_code : List ℕ
ctl_code =
    0x00060194 ∷ 0x0011400C ∷ 0x00110018 ∷ 0x0011C017 ∷ 0x001440F2 ∷ 0x00144064 ∷ 0x00140078
    ∷ 0x001441BB ∷ 0x001480F2 ∷ 0x001401D4 ∷ 0x001401FC ∷ 0x000900A4 ∷ 0x000900A8 ∷ 0x000900AC
    ∷ 0x000900C0 ∷ 0x000900C4 ∷ 0x000940CF ∷ 0x000601B0 ∷ 0x000980C8 ∷ 0x00098208 ∷ 0x00140204 ∷ []

-- `IOCTLFlags`
abbrev pub ioctl_flags : List ℕ
ioctl_flags = 0x0 ∷ 0x1 ∷ []

-- `HashVersion`
abbrev pub hash_version : List ℕ
hash_version = 0x1 ∷ 0x2 ∷ []

-- `HashRetrievalType`
abbrev pub hash_retrieval_type : List ℕ
hash_retrieval_type = 0x1 ∷ 0x2 ∷ []

-- `_buffer_offset_value`
abbrev pub buffer_offset_value : View → Result Value
buffer_offset_value s = do
  n ← s.len "buffer"
  request_size ← value_of "structure_size" s
  ok (num (if ltb 0 n then 64 + request_size - 1 else 0))

-- `SMB2IOCTLRequest`
unfoldable pub smb2_ioctl_request : Structure
smb2_ioctl_request =
    IntField "structure_size" 2 57
    ∷ IntField "reserved" 2 0
    ∷ EnumField "ctl_code" 4 ctl_code true
    ∷ BytesField "file_id" (fixed 16) []
    ∷ ComputedInt "input_offset" 4 buffer_offset_value
    ∷ ComputedInt "input_count" 4 (length_of "buffer")
    ∷ IntField "max_input_response" 4 0
    ∷ ComputedInt "output_offset" 4 buffer_offset_value
    ∷ IntField "output_count" 4 0
    ∷ IntField "max_output_response" 4 0
    ∷ EnumField "flags" 4 ioctl_flags true
    ∷ IntField "reserved2" 4 0
    ∷ BytesField "buffer" (computed (value_of "input_count")) []
    ∷ []

-- `SMB2IOCTLResponse`
unfoldable pub smb2_ioctl_response : Structure
smb2_ioctl_response =
    IntField "structure_size" 2 49
    ∷ IntField "reserved" 2 0
    ∷ EnumField "ctl_code" 4 ctl_code true
    ∷ BytesField "file_id" (fixed 16) []
    ∷ IntField "input_offset" 4 0
    ∷ IntField "input_count" 4 0
    ∷ IntField "output_offset" 4 0
    ∷ IntField "output_count" 4 0
    ∷ IntField "flags" 4 0
    ∷ IntField "reserved2" 4 0
    ∷ BytesField "buffer" (computed (value_of "output_count")) []
    ∷ []

-- `SMB2SrvCopyChunk`
unfoldable pub smb2_srv_copy_chunk : Structure
smb2_srv_copy_chunk =
    IntField "source_offset" 8 0
    ∷ IntField "target_offset" 8 0
    ∷ IntField "length" 4 0
    ∷ IntField "reserved" 4 0
    ∷ []

-- `SMB2SrvReadHashRequest`
unfoldable pub smb2_srv_read_hash_request : Structure
smb2_srv_read_hash_request =
    IntField "hash_type" 4 1
    ∷ EnumField "hash_version" 4 hash_version true
    ∷ EnumField "hash_retrieval_type" 4 hash_retrieval_type true
    ∷ IntField "length" 4 0
    ∷ IntField "offset" 8 0
    ∷ []

-- `SMB2SrvNetworkResiliencyRequest`
unfoldable pub smb2_srv_network_resiliency_request : Structure
smb2_srv_network_resiliency_request = IntField "timeout" 4 0 ∷ IntField "reserved" 4 0 ∷ []

-- `SMB2SrvCopyChunkResponse`
unfoldable pub smb2_srv_copy_chunk_response : Structure
smb2_srv_copy_chunk_response =
    IntField "chunks_written" 4 0
    ∷ IntField "chunk_bytes_written" 4 0
    ∷ IntField "total_bytes_written" 4 0
    ∷ []

-- `SMB2SrvRequestResumeKey`
unfoldable pub smb2_srv_request_resume_key : Structure
smb2_srv_request_resume_key =
    BytesField "resume_key" (fixed 24) []
    ∷ ComputedInt "context_length" 4 (length_of "context")
    ∷ BytesField "context" (computed (value_of "context_length")) []
    ∷ []
