-- ===== src/Os.antt =====
-- smbclient/_os.py: what its functions share.
-- A path below a share is the list of its names, the innermost first; the empty list is the share's root,
-- which `ntpath.dirname` returns unchanged.
pub mod Directories
pub mod Copy
pub mod Stat
pub mod DirEntry
pub mod Attributes
pub mod Walk
pub mod Runs
use smbprotocol.Prelude.{
  List, [], ◌∷◌, Bool, true, false, Option, none, some, Error, smb_os_error, ◌==◌, if◌then◌else◌,
  ◌||◌,
}
use smbprotocol.Exceptions.{Errno, error_details}
use smbprotocol.Files.Modes.{Chars}
use smbprotocol.Dfs.{chars_eq}

abbrev pub Location : Type 0
Location = List Chars

-- `ntpath.dirname`
abbrev pub dirname : Location → Location
dirname [] = []
dirname (name ∷ parent) = parent

-- `==` of paths.
abbrev pub path_eq : Location → Location → Bool
path_eq [] [] = true
path_eq [] (y ∷ ys) = false
path_eq (x ∷ xs) [] = false
path_eq (x ∷ xs) (y ∷ ys) = if chars_eq x y then path_eq xs ys else false

-- `err.errno`
unfoldable pub errno_of : Error → Option Errno
unfolding error_details
errno_of (smb_os_error status) = error_details status
errno_of _ = none

-- `is_remote_path`
unfoldable pub is_remote_path : Chars → Bool
is_remote_path (x ∷ y ∷ path) =
    (if x == 92 then y == 92 else false) || (if x == 47 then y == 47 else false)
is_remote_path _ = false
