-- ===== src/Messages/FileInformation.antt =====
-- smbprotocol/file_info.py and reparse_point.py: the information classes without dates, text and signed
-- numbers.
use smbprotocol.Prelude.{ℕ, Bool, ◌==◌, bit_and, List, [], ◌∷◌, true, false, replicate}
use smbprotocol.Structure.{fixed, computed}
use smbprotocol.Structure.Walk.{Structure}
use smbprotocol.Structure.Build.{
  value_of, length_of, IntField, EnumField, FlagField, LooseFlagField, BoolField, UuidField,
  BytesField, ComputedInt,
}

-- `AlignmentRequirement`
abbrev pub alignment_requirement : List ℕ
alignment_requirement =
    0x00000000 ∷ 0x00000001 ∷ 0x00000003 ∷ 0x00000007 ∷ 0x0000000F ∷ 0x0000001F ∷ 0x0000003F
    ∷ 0x0000007F ∷ 0x000000FF ∷ 0x000001FF ∷ []

-- `ModeInformation`
abbrev pub mode_information : List ℕ
mode_information = 0x00000002 ∷ 0x00000004 ∷ 0x00000008 ∷ 0x00000010 ∷ 0x00000020 ∷ 0x00001000 ∷ []

-- `FileAttributes`
abbrev pub file_attributes : List ℕ
file_attributes =
    0x00000020 ∷ 0x00000800 ∷ 0x00000010 ∷ 0x00004000 ∷ 0x00000002 ∷ 0x00000080 ∷ 0x00002000
    ∷ 0x00001000 ∷ 0x00000001 ∷ 0x00000400 ∷ 0x00000200 ∷ 0x00000004 ∷ 0x00000100 ∷ 0x00008000
    ∷ 0x00020000 ∷ 0x00040000 ∷ 0x00080000 ∷ 0x00100000 ∷ 0x00400000 ∷ []

-- `FileSystemInformationClass`
abbrev pub file_system_information_class : List ℕ
file_system_information_class = 1 ∷ 2 ∷ 3 ∷ 4 ∷ 5 ∷ 6 ∷ 7 ∷ 8 ∷ 9 ∷ 10 ∷ 11 ∷ []

-- `ReparseTags`
abbrev pub reparse_tags : List ℕ
reparse_tags =
    0x00000000 ∷ 0x00000001 ∷ 0xA0000003 ∷ 0xC0000004 ∷ 0x80000005 ∷ 0x80000006 ∷ 0x80000007
    ∷ 0x80000008 ∷ 0x80000009 ∷ 0x8000000A ∷ 0x8000000B ∷ 0xA000000C ∷ 0xA0000010 ∷ 0x80000012
    ∷ 0x80000013 ∷ 0x80000014 ∷ 0x80000015 ∷ 0x80000017 ∷ 0x80000018 ∷ 0x90001018 ∷ 0xA0000019
    ∷ 0x9000001A ∷ 0x9000101A ∷ 0x9000201A ∷ 0x9000301A ∷ 0x9000401A ∷ 0x9000501A ∷ 0x9000601A
    ∷ 0x9000701A ∷ 0x9000801A ∷ 0x9000901A ∷ 0x9000A01A ∷ 0x9000B01A ∷ 0x9000C01A ∷ 0x9000D01A
    ∷ 0x9000E01A ∷ 0x9000F01A ∷ 0x0000F000 ∷ 0x8000001B ∷ 0x9000001C ∷ 0xA000001D ∷ 0x8000001E
    ∷ 0xA000001F ∷ 0x80000020 ∷ 0x80000021 ∷ 0xA0000022 ∷ 0x80000023 ∷ []

unfoldable pub is_reparse_tag_microsoft : ℕ → Bool
is_reparse_tag_microsoft tag = bit_and tag 0x80000000 == 0x80000000

unfoldable pub is_reparse_tag_name_surrogate : ℕ → Bool
is_reparse_tag_name_surrogate tag = bit_and tag 0x20000000 == 0x20000000

unfoldable pub is_reparse_tag_directory : ℕ → Bool
is_reparse_tag_directory tag = bit_and tag 0x10000000 == 0x10000000

-- `SymbolicLinkFlags`
abbrev pub symbolic_link_flags : List ℕ
symbolic_link_flags = 0x00000000 ∷ 0x00000001 ∷ []

-- `FileAccessInformation`
unfoldable pub file_access_information : Structure
file_access_information = IntField "access_flags" 4 0 ∷ []

-- `FileAlignmentInformation`
unfoldable pub file_alignment_information : Structure
file_alignment_information = EnumField "alignment_requirement" 4 alignment_requirement true ∷ []

-- `FileAttributeTagInformation`
unfoldable pub file_attribute_tag_information : Structure
file_attribute_tag_information =
    LooseFlagField "file_attributes" 4 file_attributes
    ∷ EnumField "reparse_tag" 4 reparse_tags false
    ∷ []

-- `FileBasicInformation`
unfoldable pub file_basic_information : Structure
file_basic_information =
    IntField "creation_time" 8 0
    ∷ IntField "last_access_time" 8 0
    ∷ IntField "last_write_time" 8 0
    ∷ IntField "change_time" 8 0
    ∷ LooseFlagField "file_attributes" 4 file_attributes
    ∷ IntField "reserved" 4 0
    ∷ []

-- `FileDispositionInformation`
unfoldable pub file_disposition_information : Structure
file_disposition_information = BoolField "delete_pending" ∷ []

-- `FileEaInformation`
unfoldable pub file_ea_information : Structure
file_ea_information = IntField "ea_size" 4 0 ∷ []

-- `FileEndOfFileInformation`
unfoldable pub file_end_of_file_information : Structure
file_end_of_file_information = IntField "end_of_file" 8 0 ∷ []

-- `FileFullEaInformation`
unfoldable pub file_full_ea_information : Structure
file_full_ea_information =
    IntField "next_entry_offset" 4 0
    ∷ IntField "flags" 1 0
    ∷ ComputedInt "ea_name_length" 1 (length_of "ea_name")
    ∷ ComputedInt "ea_value_length" 2 (length_of "ea_value")
    ∷ BytesField "ea_name" (computed (value_of "ea_name_length")) []
    ∷ IntField "ea_name_padding" 1 0
    ∷ BytesField "ea_value" (computed (value_of "ea_value_length")) []
    ∷ []

-- `FileGetEaInformation`
unfoldable pub file_get_ea_information : Structure
file_get_ea_information =
    IntField "next_entry_offset" 4 0
    ∷ ComputedInt "ea_name_length" 1 (length_of "ea_name")
    ∷ BytesField "ea_name" (computed (value_of "ea_name_length")) []
    ∷ IntField "padding" 1 0
    ∷ []

-- `FileInternalInformation`
unfoldable pub file_internal_information : Structure
file_internal_information = IntField "index_number" 8 0 ∷ []

-- `FileModeInformation`
unfoldable pub file_mode_information : Structure
file_mode_information = FlagField "mode" 4 mode_information ∷ []

-- `FileNamesInformation`
unfoldable pub file_names_information : Structure
file_names_information =
    IntField "next_entry_offset" 4 0
    ∷ IntField "file_index" 4 0
    ∷ ComputedInt "file_name_length" 4 (length_of "file_name")
    ∷ BytesField "file_name" (computed (value_of "file_name_length")) []
    ∷ []

-- `FileFsObjectIdInformation`
unfoldable pub file_fs_object_id_information : Structure
file_fs_object_id_information =
    UuidField "object_id" ∷ BytesField "extended_info" (fixed 48) (replicate 48 0) ∷ []

-- `ReparseDataBuffer`
unfoldable pub reparse_data_buffer : Structure
reparse_data_buffer =
    EnumField "reparse_tag" 4 reparse_tags false
    ∷ ComputedInt "reparse_data_length" 2 (length_of "data_buffer")
    ∷ IntField "reserved" 2 0
    ∷ BytesField "data_buffer" (computed (value_of "reparse_data_length")) []
    ∷ []
