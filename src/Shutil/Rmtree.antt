-- ===== src/Shutil/Rmtree.antt =====
-- smbclient/shutil.py, `rmtree`.
pub mod Laws
pub mod Trees
pub mod Removes
use smbprotocol.Prelude.{
  ℕ, zero, suc, List, [], ◌∷◌, Bool, true, false, not, ◌&&◌, ◌||◌, Option, none, some, Error,
  Result, ok, err, ◌>>=◌, os_error, smb_os_error, if◌then◌else◌,
}
use smbprotocol.Files.Modes.{Chars}
use smbprotocol.Os.{Location}

-- An entry of a directory: its name and its path, which `scandir` makes of the directory's path and the
-- name that the server gives; what `is_symlink` and `is_dir` return or raise; and whether the status that
-- `stat` gives of the entry itself has FILE_ATTRIBUTE_DIRECTORY.
pub record Child : Type 0 where
  pub name : Chars
  pub path : Location
  pub is_symlink : Result Bool
  pub is_dir : Result Bool
  pub has_directory_attribute : Result Bool

-- The calls that are made, on the server that the world holds. `scandir` gives the entries that it yields,
-- and whether an OSError ended them.
pub record Removals : Type 1 where
  pub World : Type 0
  pub islink : World → Location → World × Result Bool
  pub scandir : World → Location → World × List Child × Option Error
  pub rmdir : World → Location → World × Result (Unit {0})
  pub remove : World → Location → World × Result (Unit {0})

-- `onerror`: the default raises what it is called for; another is called with the path and goes on, as
-- with `ignore_errors`.
pub data Handler : Type 0 where
  raises goes_on : Handler

-- `except OSError`
abbrev pub is_os_error : Error → Bool
is_os_error os_error = true
is_os_error (smb_os_error status) = true
is_os_error _ = false

module _ (server : Removals) (onerror : Handler) where
  open server use {World, islink, scandir, rmdir, remove}

  -- The world, the paths that `onerror` went on from, and how the call ended; `none` where the fuel ran
  -- out.
  abbrev pub Ended : Type 0
  Ended = World × List Location × Option (Result (Unit {0}))

  unfoldable pub handle : World → List Location → Location → Error → Ended
  handle w reports path e =
      if is_os_error e
      then elim onerror [
        | raises ↦ (w, reports, some (err e))
        | goes_on ↦ (w, path ∷ reports, some (ok tt))
      ]
      else (w, reports, some (err e))

  abbrev pub tried : List Location → Location → World × Result (Unit {0}) → Ended
  tried reports path (w, ok _) = (w, reports, some (ok tt))
  tried reports path (w, err e) = handle w reports path e

  abbrev pub then_do : Ended → (World → List Location → Ended) → Ended
  then_do (w, reports, some (ok _)) next = next w reports
  then_do (w, reports, other) next = (w, reports, other)

  -- A test of an entry, outside of any `try`.
  abbrev pub asked : World → List Location → Result Bool → (Bool → Ended) → Ended
  asked w reports (ok answer) next = next answer
  asked w reports (err e) next = (w, reports, some (err e))

  -- `dir_entry.is_symlink() and dir_entry.stat(follow_symlinks=False).st_file_attributes & ...`
  abbrev pub directory_link_test : Child → Result Bool
  directory_link_test e =
      e.is_symlink >>= λ link. if link then e.has_directory_attribute else ok false

  -- One round of the loop, with the call of `rmtree` on a subdirectory.
  unfoldable pub remove_entry :
      (World → List Location → Location → Ended) → World → List Location → Child → Ended
  unfolding handle
  remove_entry rmtree w reports e = asked w reports (directory_link_test e) (λ link.
      if link
      then tried reports e.path (rmdir w e.path)
      else asked w reports e.is_dir
          (λ dir. if dir then rmtree w reports e.path else tried reports e.path (remove w e.path)))

  unfoldable pub remove_entries :
      (World → List Location → Location → Ended) → List Child → World → List Location → Ended
  unfolding remove_entry
  remove_entries rmtree [] w reports = (w, reports, some (ok tt))
  remove_entries rmtree (e ∷ entries) w reports =
      then_do (remove_entry rmtree w reports e) (remove_entries rmtree entries)

  -- What an error of `scandir` comes to, after the entries that it gave.
  abbrev pub scan_ended : Location → Option Error → World → List Location → Ended
  scan_ended path none w reports = (w, reports, some (ok tt))
  scan_ended path (some e) w reports = handle w reports path e

  abbrev pub remove_scanned :
      (World → List Location → Location → Ended)
      → List Location
      → Location
      → World × List Child × Option Error
      → Ended
  remove_scanned rmtree reports path (w, entries, failure) =
      then_do (then_do (remove_entries rmtree entries w reports) (scan_ended path failure))
        (λ w' reports'. tried reports' path (rmdir w' path))

  abbrev pub unless_link :
      (World → List Location → Location → Ended)
      → List Location
      → Location
      → World × Result Bool
      → Ended
  unless_link rmtree reports path (w, err e) = (w, reports, some (err e))
  unless_link rmtree reports path (w, ok true) = handle w reports path os_error
  unless_link rmtree reports path (w, ok false) =
      remove_scanned rmtree reports path (scandir w path)

  -- `rmtree`, with fuel for the depth of the tree.
  unfoldable pub rmtree : ℕ → World → List Location → Location → Ended
  unfolding remove_entries handle
  rmtree zero w reports path = (w, reports, none)
  rmtree (suc fuel) w reports path = unless_link (rmtree fuel) reports path (islink w path)
