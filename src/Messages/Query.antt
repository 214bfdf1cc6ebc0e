-- ===== src/Messages/Query.antt =====
-- smbprotocol/open.py: the messages that close and flush, list a directory, and query and set information.
use smbprotocol.Prelude.{ℕ, List, [], ◌∷◌, true, Result, ok, ◌>>=◌, ◌==◌, if◌then◌else◌}
use smbprotocol.Structure.{Value, num, View, fixed, computed}
use smbprotocol.Structure.Walk.{Structure}
use smbprotocol.Structure.Build.{
  value_of, length_of, IntField, EnumField, FlagField, BytesField, ComputedInt,
}

-- `CloseFlags`
abbrev pub close_flags : List ℕ
close_flags = 0x1 ∷ []

-- `QueryDirectoryFlags`
abbrev pub query_directory_flags : List ℕ
query_directory_flags = 0x1 ∷ 0x2 ∷ 0x4 ∷ 0x10 ∷ []

-- `QueryInfoFlags`
abbrev pub query_info_flags : List ℕ
query_info_flags = 0x1 ∷ 0x2 ∷ 0x4 ∷ []

-- `InfoAdditionalInformation`
abbrev pub info_additional_information : List ℕ
info_additional_information = 0x1 ∷ 0x2 ∷ 0x4 ∷ 0x8 ∷ 0x10 ∷ 0x20 ∷ 0x40 ∷ 0x10000 ∷ []

-- `InfoType`
abbrev pub info_type : List ℕ
info_type = 0x1 ∷ 0x2 ∷ 0x3 ∷ 0x4 ∷ []

-- `FileInformationClass`
abbrev pub file_information_class : List ℕ
file_information_class =
    0 ∷ 1 ∷ 2 ∷ 3 ∷ 4 ∷ 5 ∷ 6 ∷ 7 ∷ 8 ∷ 10 ∷ 11 ∷ 12 ∷ 13 ∷ 14 ∷ 15 ∷ 16 ∷ 17 ∷ 18 ∷ 19 ∷ 20 ∷ 21
    ∷ 22 ∷ 23 ∷ 24 ∷ 25 ∷ 28 ∷ 32 ∷ 34 ∷ 35 ∷ 37 ∷ 38 ∷ 39 ∷ 40 ∷ 48 ∷ []

-- `SMB2CloseRequest`
unfoldable pub smb2_close_request : Structure
smb2_close_request =
    IntField "structure_size" 2 24
    ∷ FlagField "flags" 2 close_flags
    ∷ IntField "reserved" 4 0
    ∷ BytesField "file_id" (fixed 16) []
    ∷ []

-- `SMB2FlushRequest`
unfoldable pub smb2_flush_request : Structure
smb2_flush_request =
    IntField "structure_size" 2 24
    ∷ IntField "reserved1" 2 0
    ∷ IntField "reserved2" 4 0
    ∷ BytesField "file_id" (fixed 16) []
    ∷ []

-- `SMB2FlushResponse`
unfoldable pub smb2_flush_response : Structure
smb2_flush_response = IntField "structure_size" 2 4 ∷ IntField "reserved" 2 0 ∷ []

-- `0 if len(s["buffer"]) == 0 else 96`
abbrev file_name_offset : View → Result Value
file_name_offset s = s.len "buffer" >>= λ n. ok (num (if n == 0 then 0 else 96))

-- `SMB2QueryDirectoryRequest`
unfoldable pub smb2_query_directory_request : Structure
smb2_query_directory_request =
    IntField "structure_size" 2 33
    ∷ EnumField "file_information_class" 1 file_information_class true
    ∷ FlagField "flags" 1 query_directory_flags
    ∷ IntField "file_index" 4 0
    ∷ BytesField "file_id" (fixed 16) []
    ∷ ComputedInt "file_name_offset" 2 file_name_offset
    ∷ ComputedInt "file_name_length" 2 (length_of "buffer")
    ∷ IntField "output_buffer_length" 4 0
    ∷ BytesField "buffer" (computed (value_of "file_name_length")) []
    ∷ []

-- `SMB2QueryDirectoryResponse`
unfoldable pub smb2_query_directory_response : Structure
smb2_query_directory_response =
    IntField "structure_size" 2 9
    ∷ IntField "output_buffer_offset" 2 72
    ∷ ComputedInt "output_buffer_length" 4 (length_of "buffer")
    ∷ BytesField "buffer" (computed (value_of "output_buffer_length")) []
    ∷ []

-- `0 if s["input_buffer_length"].get_value() == 0 else 104`
abbrev input_buffer_offset : View → Result Value
input_buffer_offset s =
    value_of "input_buffer_length" s >>= λ n. ok (num (if n == 0 then 0 else 104))

-- `SMB2QueryInfoRequest`
unfoldable pub smb2_query_info_request : Structure
smb2_query_info_request =
    IntField "structure_size" 2 41
    ∷ EnumField "info_type" 1 info_type true
    ∷ EnumField "file_info_class" 1 file_information_class true
    ∷ ComputedInt "output_buffer_length" 4 (λ s. ok (num 0))
    ∷ ComputedInt "input_buffer_offset" 2 input_buffer_offset
    ∷ IntField "reserved" 2 0
    ∷ ComputedInt "input_buffer_length" 4 (length_of "buffer")
    ∷ IntField "additional_information" 4 0
    ∷ FlagField "flags" 4 query_info_flags
    ∷ BytesField "file_id" (fixed 16) []
    ∷ BytesField "buffer" (computed (value_of "input_buffer_length")) []
    ∷ []

-- `SMB2QueryInfoResponse`
unfoldable pub smb2_query_info_response : Structure
smb2_query_info_response =
    IntField "structure_size" 2 9
    ∷ IntField "output_buffer_offset" 2 72
    ∷ ComputedInt "output_buffer_length" 4 (length_of "buffer")
    ∷ BytesField "buffer" (computed (value_of "output_buffer_length")) []
    ∷ []

-- `SMB2SetInfoRequest`
unfoldable pub smb2_set_info_request : Structure
smb2_set_info_request =
    IntField "structure_size" 2 33
    ∷ EnumField "info_type" 1 info_type true
    ∷ EnumField "file_info_class" 1 file_information_class true
    ∷ ComputedInt "buffer_length" 4 (length_of "buffer")
    ∷ IntField "buffer_offset" 2 96
    ∷ IntField "reserved" 2 0
    ∷ FlagField "additional_information" 4 info_additional_information
    ∷ BytesField "file_id" (fixed 16) []
    ∷ BytesField "buffer" (computed (value_of "buffer_length")) []
    ∷ []

-- `SMB2SetInfoResponse`
unfoldable pub smb2_set_info_response : Structure
smb2_set_info_response = IntField "structure_size" 2 2 ∷ []
