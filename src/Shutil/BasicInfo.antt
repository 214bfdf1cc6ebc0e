-- ===== src/Shutil/BasicInfo.antt =====
-- smbclient/shutil.py, `_set_file_basic_info`, and the read-only flag of `copymode`.
use smbprotocol.Prelude.{
  ℕ, ◌+◌, ◌/◌, Bool, true, false, not, ◌&&◌, ◌||◌, Option, none, some, ◌==◌, if◌then◌else◌, bit_and,
  bit_or, bit_xor,
}
use smbprotocol.Os.Stat.{file_attribute_readonly, epoch_filetime}

abbrev file_attribute_normal : ℕ
file_attribute_normal = 0x80

-- `not (src_mode & S_IWRITE == S_IWRITE and src_mode & S_IREAD == S_IREAD)`
unfoldable pub is_read_only : ℕ → Bool
is_read_only src_mode = not (bit_and src_mode 0x80 == 0x80 && bit_and src_mode 0x100 == 0x100)

-- `new_attributes`, of the attributes that the file has; 0 is no change. `& ~flag` clears the flag.
unfoldable pub new_attributes : Bool → ℕ → ℕ
new_attributes read_only existing_attributes =
    let flag = bit_and existing_attributes file_attribute_readonly in
    let cleared = bit_xor existing_attributes flag in
    if read_only && flag == 0
    then bit_or existing_attributes file_attribute_readonly
    else if not read_only && not (flag == 0)
    then (if cleared == 0 then file_attribute_normal else cleared)
    else 0

-- The `FileBasicInformation` that is set.
pub record BasicInfo : Type 0 where
  pub file_attributes : ℕ
  pub last_access_time : ℕ
  pub last_write_time : ℕ

abbrev filetime : Option ℕ → ℕ
filetime none = 0
filetime (some ns) = ns / 100 + epoch_filetime

abbrev is_given : Option ℕ → Bool
is_given none = false
is_given (some ns) = true

abbrev attributes_for : Option Bool → ℕ → ℕ
attributes_for none existing_attributes = 0
attributes_for (some read_only) existing_attributes = new_attributes read_only existing_attributes

-- What is sent, if anything, of the attributes that the file has where they are asked for.
unfoldable pub set_file_basic_info : Option Bool → Option ℕ → Option ℕ → ℕ → Option BasicInfo
unfolding new_attributes
set_file_basic_info read_only atime_ns mtime_ns existing_attributes =
    let attributes = attributes_for read_only existing_attributes in
    if not (attributes == 0) || (is_given atime_ns || is_given mtime_ns)
    then some (record {
      file_attributes = attributes;
      last_access_time = filetime atime_ns;
      last_write_time = filetime mtime_ns;
    })
    else none
