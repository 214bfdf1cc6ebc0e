-- ===== src/Os/Stat.antt =====
-- smbclient/_os.py, `stat` and `stat_volume`: what they make of the answers, and the tests of `st_mode`.
use smbprotocol.Prelude.{
  ℕ, ◌-◌, ◌*◌, ◌≡◌, refl, Bool, true, false, not, ◌&&◌, ◌==◌, if◌then◌else◌, leb, bit_and, bit_or,
  bit_xor,
}
use smbprotocol.Structure.{has_flag}

-- An integer: `negsuc n` is -(n + 1).
pub data ℤ : Type 0 where
  pos negsuc : ℕ → ℤ

-- The constants of the stat module, `FileAttributes` and `ReparseTags`.
abbrev pub s_ifdir : ℕ
s_ifdir = 0x4000

abbrev pub s_ifreg : ℕ
s_ifreg = 0x8000

abbrev pub s_iflnk : ℕ
s_iflnk = 0xA000

abbrev pub file_attribute_readonly : ℕ
file_attribute_readonly = 0x1

abbrev pub file_attribute_directory : ℕ
file_attribute_directory = 0x10

abbrev pub file_attribute_reparse_point : ℕ
file_attribute_reparse_point = 0x400

abbrev pub io_reparse_tag_symlink : ℕ
io_reparse_tag_symlink = 0xA000000C

-- `stat.S_IFMT` and the tests on it.
abbrev pub s_ifmt : ℕ → ℕ
s_ifmt mode = bit_and mode 0xF000

unfoldable pub s_isdir : ℕ → Bool
s_isdir mode = s_ifmt mode == s_ifdir

unfoldable pub s_isreg : ℕ → Bool
s_isreg mode = s_ifmt mode == s_ifreg

unfoldable pub s_islnk : ℕ → Bool
s_islnk mode = s_ifmt mode == s_iflnk

-- The fields that `stat` reads of the five answers, with times in units of 100 ns since 1601.
pub record StatAnswers : Type 0 where
  pub file_attributes : ℕ
  pub creation_time : ℕ
  pub last_access_time : ℕ
  pub last_write_time : ℕ
  pub change_time : ℕ
  pub volume_serial_number : ℕ
  pub index_number : ℕ
  pub number_of_links : ℕ
  pub end_of_file : ℕ
  pub reparse_tag : ℕ

-- `SMBStatResult`, without the times in seconds, which are floats.
pub record StatResult : Type 0 where
  pub st_mode : ℕ
  pub st_ino : ℕ
  pub st_dev : ℕ
  pub st_nlink : ℕ
  pub st_uid : ℕ
  pub st_gid : ℕ
  pub st_size : ℕ
  pub st_atime_ns : ℤ
  pub st_mtime_ns : ℤ
  pub st_ctime_ns : ℤ
  pub st_chgtime_ns : ℤ
  pub st_file_attributes : ℕ
  pub st_reparse_tag : ℕ

-- `DateTimeField.EPOCH_FILETIME`
abbrev pub epoch_filetime : ℕ
epoch_filetime = 116444736000000000

-- `(time - epoch_ft) * 100`
unfoldable pub nanoseconds : ℕ → ℤ
nanoseconds time =
    if leb epoch_filetime time
    then pos ((time - epoch_filetime) * 100)
    else negsuc ((epoch_filetime - time) * 100 - 1)

-- `st_mode`, of the two attributes and of whether the reparse tag is that of a symbolic link.
abbrev pub mode_from : Bool → Bool → Bool → ℕ
mode_from is_directory is_readonly is_symlink =
    let file_type = if is_directory then bit_or s_ifdir 0x49 else s_ifreg in
    let st_mode = bit_or file_type (if is_readonly then 0x124 else 0x1B6) in
    if is_symlink then bit_or (bit_xor st_mode (s_ifmt st_mode)) s_iflnk else st_mode

unfoldable pub mode_of : ℕ → ℕ → ℕ
mode_of file_attributes reparse_tag =
    mode_from (has_flag file_attributes file_attribute_directory)
      (has_flag file_attributes file_attribute_readonly) (reparse_tag == io_reparse_tag_symlink)

-- The end of `stat`.
unfoldable pub stat_result : StatAnswers → StatResult
unfolding mode_of nanoseconds
stat_result a = record {
  st_mode = mode_of a.file_attributes a.reparse_tag;
  st_ino = a.index_number;
  st_dev = a.volume_serial_number;
  st_nlink = a.number_of_links;
  st_uid = 0;
  st_gid = 0;
  st_size = a.end_of_file;
  st_atime_ns = nanoseconds a.last_access_time;
  st_mtime_ns = nanoseconds a.last_write_time;
  st_ctime_ns = nanoseconds a.creation_time;
  st_chgtime_ns = nanoseconds a.change_time;
  st_file_attributes = a.file_attributes;
  st_reparse_tag = a.reparse_tag;
}

-- `FileFsFullSizeInformation` and `SMBStatVolumeResult`
pub record FullSize : Type 0 where
  pub total_allocation_units : ℕ
  pub caller_available_units : ℕ
  pub actual_available_units : ℕ
  pub sectors_per_unit : ℕ
  pub bytes_per_sector : ℕ

pub record StatVolumeResult : Type 0 where
  pub total_size : ℕ
  pub caller_available_size : ℕ
  pub actual_available_size : ℕ

-- The end of `stat_volume`.
unfoldable pub stat_volume_result : FullSize → StatVolumeResult
stat_volume_result f =
    let unit_in_bytes = f.sectors_per_unit * f.bytes_per_sector in
    record {
      total_size = f.total_allocation_units * unit_in_bytes;
      caller_available_size = f.caller_available_units * unit_in_bytes;
      actual_available_size = f.actual_available_units * unit_in_bytes;
    }

mode_from-kinds :
    (d r l : Bool)
    → (s_islnk (mode_from d r l) ≡ l)
      × (s_isdir (mode_from d r l) ≡ (not l && d))
      × (s_isreg (mode_from d r l) ≡ (not l && not d))
unfolding s_islnk s_isdir s_isreg
mode_from-kinds true true true = (refl, refl, refl)
mode_from-kinds true true false = (refl, refl, refl)
mode_from-kinds true false true = (refl, refl, refl)
mode_from-kinds true false false = (refl, refl, refl)
mode_from-kinds false true true = (refl, refl, refl)
mode_from-kinds false true false = (refl, refl, refl)
mode_from-kinds false false true = (refl, refl, refl)
mode_from-kinds false false false = (refl, refl, refl)

-- The type that `stat` reports is that of a symbolic link by its tag, and of a directory or a file by its
-- attributes where there is no such tag.
pub mode_of-kinds :
    (file_attributes reparse_tag : ℕ)
    → (s_islnk (mode_of file_attributes reparse_tag) ≡ (reparse_tag == io_reparse_tag_symlink))
      × (s_isdir (mode_of file_attributes reparse_tag) ≡ (
          not (reparse_tag == io_reparse_tag_symlink)
          && has_flag file_attributes file_attribute_directory))
      × (s_isreg (mode_of file_attributes reparse_tag) ≡ (
          not (reparse_tag == io_reparse_tag_symlink)
          && not (has_flag file_attributes file_attribute_directory)))
unfolding mode_of
mode_of-kinds file_attributes reparse_tag =
    mode_from-kinds (has_flag file_attributes file_attribute_directory)
      (has_flag file_attributes file_attribute_readonly) (reparse_tag == io_reparse_tag_symlink)
