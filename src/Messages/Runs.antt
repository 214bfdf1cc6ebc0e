-- ===== src/Messages/Runs.antt =====
-- smbprotocol/file_info.py and reparse_point.py: some information classes, packed and unpacked.
use smbprotocol.Prelude.{◌≡◌, refl, true, false, [], ◌∷◌, ◌++◌, ok, ◌>>=◌, replicate}
use smbprotocol.Bytes.{struct_pack, le_bytes, struct_unpack, from_le}
use smbprotocol.Structure.{
  num, bytes, boolean, calculated_value, calculated_size, parse_value, pack_value, packed_size,
  pack_field, set_value,
}
use smbprotocol.Structure.Walk.{
  view_of, view, get_field, get_value, pack, pack_fields, set_item, set_fields, unpack,
  unpack_fields,
}
use smbprotocol.Messages.FileInformation.{
  file_full_ea_information, file_disposition_information, file_attribute_tag_information,
  is_reparse_tag_name_surrogate, is_reparse_tag_directory,
}

-- An extended attribute: its name is followed by a null byte.
ea_packs :
    (do
      named ← set_item file_full_ea_information "ea_name" (bytes (65 ∷ 66 ∷ []))
      filled ← set_item named "ea_value" (bytes (9 ∷ []))
      pack filled)
    ≡ ok (replicate 5 0 ++ (2 ∷ 1 ∷ 0 ∷ 65 ∷ 66 ∷ 0 ∷ 9 ∷ []))
unfolding file_full_ea_information set_item set_fields set_value calculated_value parse_value
    view_of view get_field pack pack_field pack_fields pack_value packed_size calculated_size
    struct_pack le_bytes
ea_packs = refl

-- A file that is to be deleted.
disposition_packs :
    (set_item file_disposition_information "delete_pending" (boolean true) >>= pack) ≡ ok (1 ∷ [])
unfolding file_disposition_information set_item set_fields set_value calculated_value parse_value
    view_of view get_field pack pack_field pack_fields pack_value packed_size calculated_size
    struct_pack le_bytes
disposition_packs = refl

-- Attributes and tags that the tables do not name are kept.
unknown_tag :
    (do
      (tagged, rest) ←
          unpack file_attribute_tag_information (0 ∷ 0 ∷ 0 ∷ 0x80 ∷ 1 ∷ 2 ∷ 3 ∷ 4 ∷ 5 ∷ [])
      get_value tagged "reparse_tag")
    ≡ ok (num 0x04030201)
unfolding file_attribute_tag_information unpack unpack_fields set_value calculated_value parse_value
    view_of view get_field get_value calculated_size struct_unpack from_le
unknown_tag = refl

symlink_is_surrogate : is_reparse_tag_name_surrogate 0xA000000C ≡ true
unfolding is_reparse_tag_name_surrogate
symlink_is_surrogate = refl

symlink_is_no_directory : is_reparse_tag_directory 0xA000000C ≡ false
unfolding is_reparse_tag_directory
symlink_is_no_directory = refl
