-- ===== src/Os/DirEntry.antt =====
-- smbclient/_os.py, `SMBDirEntry`: its tests, and the two results that it keeps.
pub mod Laws
use smbprotocol.Prelude.{
  ℕ, Bool, true, false, not, ◌&&◌, Option, none, some, Error, Result, ok, err, ◌==◌, if◌then◌else◌,
}
use smbprotocol.Structure.{has_flag}
use smbprotocol.Exceptions.{Errno, enoent}
use smbprotocol.Os.{Location, errno_of}
use smbprotocol.Os.Stat.{
  StatResult, s_isdir, s_isreg, file_attribute_directory, file_attribute_reparse_point,
  io_reparse_tag_symlink,
}

-- `stat(path, follow_symlinks)` on the server that the world holds.
pub record Stats : Type 1 where
  pub World : Type 0
  pub stat : World → Location → Bool → World × Result StatResult

-- `_smb_raw.name`, two fields of `_dir_info`, `_stat` and `_lstat`.
pub record DirEntry : Type 0 where
  pub path : Location
  pub file_attributes : ℕ
  pub file_id : ℕ
  pub kept_stat : Option StatResult
  pub kept_lstat : Option StatResult

module _ (server : Stats) where
  open server use {World, stat}

  -- The world and the entry afterwards, and what the call returns or raises.
  abbrev pub EntryCall : Type 0 → Type 0
  EntryCall A = World × DirEntry × Result A

  abbrev pub then_with :
      {A B : Type 0} → EntryCall A → (World → DirEntry → A → EntryCall B) → EntryCall B
  then_with (w, entry, err e) next = (w, entry, err e)
  then_with (w, entry, ok a) next = next w entry a

  abbrev keep_lstat : DirEntry → World × Result StatResult → EntryCall StatResult
  keep_lstat entry (w, err e) = (w, entry, err e)
  keep_lstat entry (w, ok s) = (w, record entry { kept_lstat = some s }, ok s)

  abbrev pub keep_stat : DirEntry → World × Result StatResult → EntryCall StatResult
  keep_stat entry (w, err e) = (w, entry, err e)
  keep_stat entry (w, ok s) = (w, record entry { kept_stat = some s }, ok s)

  -- `stat(follow_symlinks=False)`
  unfoldable pub entry_lstat : World → DirEntry → EntryCall StatResult
  entry_lstat w entry = elim entry.kept_lstat [
    | some s ↦ (w, entry, ok s)
    | none ↦ keep_lstat entry (stat w entry.path false)
  ]

  unfoldable pub is_symlink : World → DirEntry → EntryCall Bool
  unfolding entry_lstat
  is_symlink w entry =
      if has_flag entry.file_attributes file_attribute_reparse_point
      then then_with (entry_lstat w entry)
          (λ w' entry' s. (w', entry', ok (s.st_reparse_tag == io_reparse_tag_symlink)))
      else (w, entry, ok false)

  -- `stat(follow_symlinks=True)`
  unfoldable pub entry_stat : World → DirEntry → EntryCall StatResult
  unfolding entry_lstat is_symlink
  entry_stat w entry = elim entry.kept_stat [
    | some s ↦ (w, entry, ok s)
    | none ↦ then_with (is_symlink w entry) (λ w' entry' link.
        if link
        then keep_stat entry' (stat w' entry'.path true)
        else then_with (entry_lstat w' entry')
            (λ w'' entry'' s. (w'', record entry'' { kept_stat = some s }, ok s)))
  ]

  -- The handler of `_link_target_type_check`.
  abbrev pub no_target : Error → Result Bool
  no_target e = elim (errno_of e) [ some enoent ↦ ok false | _ ↦ err e ]

  abbrev pub checked : (ℕ → Bool) → EntryCall StatResult → EntryCall Bool
  checked check (w, entry, ok s) = (w, entry, ok (check s.st_mode))
  checked check (w, entry, err e) = (w, entry, no_target e)

  unfoldable pub link_target_type_check : (ℕ → Bool) → World → DirEntry → EntryCall Bool
  unfolding entry_stat
  link_target_type_check check w entry = checked check (entry_stat w entry)

  unfoldable pub is_dir : Bool → World → DirEntry → EntryCall Bool
  unfolding is_symlink link_target_type_check
  is_dir follow_symlinks w entry = then_with (is_symlink w entry) (λ w' entry' is_lnk.
      if follow_symlinks && is_lnk then link_target_type_check s_isdir w' entry' else (
        w',
        entry',
        ok (not is_lnk && has_flag entry'.file_attributes file_attribute_directory),
      ))

  unfoldable pub is_file : Bool → World → DirEntry → EntryCall Bool
  unfolding is_symlink link_target_type_check
  is_file follow_symlinks w entry = then_with (is_symlink w entry) (λ w' entry' is_lnk.
      if follow_symlinks && is_lnk then link_target_type_check s_isreg w' entry' else (
        w',
        entry',
        ok (not is_lnk && not (has_flag entry'.file_attributes file_attribute_directory)),
      ))

  abbrev from_stat : Location → World × Result StatResult → World × Result DirEntry
  from_stat path (w, err e) = (w, err e)
  from_stat path (w, ok s) = (
    w,
    ok (record {
      path = path;
      file_attributes = s.st_file_attributes;
      file_id = s.st_ino;
      kept_stat = some s;
      kept_lstat = none;
    }),
  )

  unfoldable pub from_path : World → Location → Bool → World × Result DirEntry
  from_path w path follow_symlinks = from_stat path (stat w path follow_symlinks)
