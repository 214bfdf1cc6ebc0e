-- ===== src/Os/Attributes.antt =====
-- smbclient/_os.py: the extended attributes of a file.
pub mod Laws
use smbprotocol.Prelude.{
  ℕ, List, [], ◌∷◌, Bool, true, false, not, ◌&&◌, Option, none, some, Result, ok, err, smb_os_error,
  ◌==◌, if◌then◌else◌, map,
}
use smbprotocol.Bytes.{Bytes}
use smbprotocol.Dfs.{chars_eq}
use smbprotocol.Os.{Location}

abbrev pub xattr_create : ℕ
xattr_create = 1

abbrev pub xattr_replace : ℕ
xattr_replace = 2

-- `STATUS_NO_EAS_ON_FILE`, `STATUS_END_OF_FILE`, `STATUS_OBJECT_NAME_COLLISION` and
-- `STATUS_OBJECT_NAME_NOT_FOUND`
abbrev pub status_no_eas_on_file : ℕ
status_no_eas_on_file = 0xC0000052

abbrev pub status_end_of_file : ℕ
status_end_of_file = 0xC0000011

abbrev pub status_object_name_collision : ℕ
status_object_name_collision = 0xC0000035

abbrev pub status_object_name_not_found : ℕ
status_object_name_not_found = 0xC0000034

abbrev pub Attributes : Type 0
Attributes = List (Bytes × Bytes)

-- The transactions on a file, with links followed or not: the names and values that it has, and a
-- `FileFullEaInformation` that is set.
pub record Attributed : Type 1 where
  pub World : Type 0
  pub query : World → Location → Bool → World × Result Attributes
  pub set_info : World → Location → Bool → Bytes → Bytes → World × Result (Unit {0})

-- `next((b_val for b_name, b_val in attributes if b_name == name), None)`
unfoldable pub find_attribute : Bytes → Attributes → Option Bytes
find_attribute name [] = none
find_attribute name ((b_name, b_val) ∷ rest) =
    if chars_eq b_name name then some b_val else find_attribute name rest

abbrev pub is_set {ℓ} : {A : Type ℓ} → Option A → Bool
is_set none = false
is_set (some a) = true

module _ (server : Attributed) where
  open server use {World, query, set_info}

  abbrev pub without_error : World × Result Attributes → World × Result Attributes
  without_error (w, ok found) = (w, ok found)
  without_error (w, err (smb_os_error status)) =
      if status == status_no_eas_on_file then (w, ok []) else (w, err (smb_os_error status))
  without_error (w, err e) = (w, err e)

  -- `_get_extended_attributes`
  unfoldable pub get_extended_attributes : World → Location → Bool → World × Result Attributes
  get_extended_attributes w path follow_symlinks = without_error (query w path follow_symlinks)

  abbrev pub value_or_error : Option Bytes → Result Bytes
  value_or_error (some b_xattr) = ok b_xattr
  value_or_error none = err (smb_os_error status_end_of_file)

  abbrev found_in : Bytes → World × Result Attributes → World × Result Bytes
  found_in b_attribute (w, ok found) = (w, value_or_error (find_attribute b_attribute found))
  found_in b_attribute (w, err e) = (w, err e)

  unfoldable pub getxattr : World → Location → Bytes → Bool → World × Result Bytes
  unfolding get_extended_attributes find_attribute
  getxattr w path b_attribute follow_symlinks =
      found_in b_attribute (get_extended_attributes w path follow_symlinks)

  abbrev names_in : World × Result Attributes → World × Result (List Bytes)
  names_in (w, ok found) = (w, ok (map (λ a. a.0) found))
  names_in (w, err e) = (w, err e)

  unfoldable pub listxattr : World → Location → Bool → World × Result (List Bytes)
  unfolding get_extended_attributes
  listxattr w path follow_symlinks = names_in (get_extended_attributes w path follow_symlinks)

  -- The test of the flags, on whether the attribute is there.
  abbrev pub check_flags : ℕ → Bool → Result (Unit {0})
  check_flags flags present =
      if flags == xattr_create && present
      then err (smb_os_error status_object_name_collision)
      else if flags == xattr_replace && not present
      then err (smb_os_error status_object_name_not_found)
      else ok tt

  abbrev pub set_if :
      Location → Bool → Bytes → Bytes → World → Result (Unit {0}) → World × Result (Unit {0})
  set_if path follow_symlinks b_attribute b_value w (ok _) =
      set_info w path follow_symlinks b_attribute b_value
  set_if path follow_symlinks b_attribute b_value w (err e) = (w, err e)

  abbrev pub set_checked :
      Location → Bool → Bytes → Bytes → ℕ → World × Result Attributes → World × Result (Unit {0})
  set_checked path follow_symlinks b_attribute b_value flags (w, err e) = (w, err e)
  set_checked path follow_symlinks b_attribute b_value flags (w, ok xattrs) =
      set_if path follow_symlinks b_attribute b_value w
        (check_flags flags (is_set (find_attribute b_attribute xattrs)))

  unfoldable pub setxattr : World → Location → Bytes → Bytes → ℕ → Bool → World × Result (Unit {0})
  unfolding get_extended_attributes find_attribute
  setxattr w path b_attribute b_value flags follow_symlinks =
      if flags == 0
      then set_info w path follow_symlinks b_attribute b_value
      else set_checked path follow_symlinks b_attribute b_value flags
          (get_extended_attributes w path follow_symlinks)

  unfoldable pub removexattr : World → Location → Bytes → Bool → World × Result (Unit {0})
  unfolding setxattr
  removexattr w path b_attribute follow_symlinks =
      setxattr w path b_attribute [] xattr_replace follow_symlinks
