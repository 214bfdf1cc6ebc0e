-- ===== src/Os/Walk.antt =====
-- smbclient/_os.py, `walk`, on a server where nothing changes meanwhile.
pub mod Laws
use smbprotocol.Prelude.{
  ℕ, zero, suc, List, [], ◌∷◌, ◌++◌, Bool, true, false, not, ◌&&◌, ◌||◌, Option, none, some,
  if◌then◌else◌,
}
use smbprotocol.Files.Modes.{Chars}
use smbprotocol.Os.{Location}

-- An entry of a directory: its name, and what `is_dir` and `is_symlink` return; that these raise is not
-- modelled.
pub record Found : Type 0 where
  pub name : Chars
  pub is_dir : Bool
  pub is_symlink : Bool

-- The entries that `scandir` gives of a path, or none where an OSError ends it, and whether `lstat` says
-- that a path is a symbolic link, or none where it raises.
pub record Listing : Type 0 where
  pub scandir : Location → Option (List Found)
  pub is_link : Location → Option Bool

-- What the generator yields, and a call of `onerror`.
pub data Step : Type 0 where
  visited : Location → List Chars → List Chars → Step
  reported : Location → Step

-- How the generator ends: out of fuel, after its last step, or with the exception that `lstat` raises for
-- a path.
pub data Outcome : Type 0 where
  no_fuel : Outcome
  finished : List Step → Outcome
  raised : List Step → Location → Outcome

-- `dirs` and `files`
abbrev pub dirs_of : List Found → List Chars
dirs_of [] = []
dirs_of (e ∷ entries) = if e.is_dir then e.name ∷ dirs_of entries else dirs_of entries

abbrev pub files_of : List Found → List Chars
files_of [] = []
files_of (e ∷ entries) = if e.is_dir then files_of entries else e.name ∷ files_of entries

-- One part of the generator after another.
abbrev pub joined : Outcome → Outcome → Outcome
joined no_fuel rest = no_fuel
joined (raised xs path) rest = raised xs path
joined (finished xs) no_fuel = no_fuel
joined (finished xs) (finished ys) = finished (xs ++ ys)
joined (finished xs) (raised ys path) = raised (xs ++ ys) path

-- The loop over `bottom_up_dirs`.
unfoldable pub walk_all : (Location → Outcome) → List Location → Outcome
walk_all walk [] = finished []
walk_all walk (p ∷ ps) = joined (walk p) (walk_all walk ps)

module _ (listing : Listing) (follow_symlinks : Bool) where
  open listing use {scandir, is_link}

  -- What becomes of a subdirectory top-down, by what `lstat` says of it.
  abbrev pub unless_link : Option Bool → Location → Outcome → Outcome → Outcome
  unless_link none path found rest = raised [] path
  unless_link (some true) path found rest = rest
  unless_link (some false) path found rest = joined found rest

  -- The loop over `dirs`, top-down.
  unfoldable pub walk_dirs : (Location → Outcome) → Location → List Chars → Outcome
  walk_dirs walk top [] = finished []
  walk_dirs walk top (dirname ∷ dirs) =
      let rest = walk_dirs walk top dirs in
      let dirpath : Location = dirname ∷ top in
      unless_link (if follow_symlinks then some false else is_link dirpath) dirpath (walk dirpath)
        rest

  -- `bottom_up_dirs`
  unfoldable pub bottom_up_dirs : Location → List Found → List Location
  bottom_up_dirs top [] = []
  bottom_up_dirs top (e ∷ entries) =
      let rest = bottom_up_dirs top entries in
      if e.is_dir && (follow_symlinks || not e.is_symlink) then (e.name ∷ top) ∷ rest else rest

  -- Either order, with the walk of a subdirectory.
  unfoldable pub walk_found : (Location → Outcome) → Bool → Location → Option (List Found) → Outcome
  unfolding walk_all walk_dirs bottom_up_dirs
  walk_found walk topdown top none = finished (reported top ∷ [])
  walk_found walk true top (some entries) =
      joined (finished (visited top (dirs_of entries) (files_of entries) ∷ []))
        (walk_dirs walk top (dirs_of entries))
  walk_found walk false top (some entries) =
      joined (walk_all walk (bottom_up_dirs top entries))
        (finished (visited top (dirs_of entries) (files_of entries) ∷ []))

  -- `walk`, with fuel for the depth of the tree.
  unfoldable pub walk : Bool → ℕ → Location → Outcome
  unfolding walk_found
  walk topdown zero top = no_fuel
  walk topdown (suc fuel) top = walk_found (walk topdown fuel) topdown top (scandir top)
