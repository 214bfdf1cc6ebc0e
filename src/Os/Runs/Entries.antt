-- ===== src/Os/Runs/Entries.antt =====
-- smbclient/_os.py and shutil.py: entries and their attributes, walks and removals.
use smbprotocol.Prelude.{
  ℕ, ◌+◌, ◌≡◌, refl, List, [], ◌∷◌, true, false, Option, none, some, Result, ok, err, smb_os_error,
  if◌then◌else◌, All,
}
use smbprotocol.Bytes.{Bytes}
use smbprotocol.Structure.{has_flag}
use smbprotocol.Dfs.{chars_eq}
use smbprotocol.Os.{Location}
use smbprotocol.Os.Stat.{StatAnswers, stat_result, negsuc, mode_of, nanoseconds, s_isdir}
use smbprotocol.Os.DirEntry.{Stats, DirEntry, is_dir}
use smbprotocol.Os.DirEntry.Laws.{IsListed, tested, is_dir-stat}
use smbprotocol.Os.Attributes.{Attributes, Attributed}
use smbprotocol.Os.Walk.{finished, walk_dirs, Found, Listing, walk, walk_found, visited}
use smbprotocol.Os.Directories.Laws.{is_above}
use smbprotocol.Shutil.Rmtree.{
  Child, Removals, rmtree, remove_entries, remove_entry, handle, raises,
}
use smbprotocol.Shutil.Rmtree.Laws.{KeptWithin, rmtree-confined}
use smbprotocol.Shutil.BasicInfo.{new_attributes, set_file_basic_info}

-- A symbolic link to a directory.
abbrev link_answers : StatAnswers
link_answers = record {
  file_attributes = 0x410;
  creation_time = 116444736000000000;
  last_access_time = 116444736000000001;
  last_write_time = 116444735999999999;
  change_time = 116444736000000000;
  volume_serial_number = 5;
  index_number = 6;
  number_of_links = 1;
  end_of_file = 0;
  reparse_tag = 0xA000000C;
}

abbrev target_answers : StatAnswers
target_answers = record link_answers { file_attributes = 0x10; reparse_tag = 0 }

abbrev linked : Stats
linked = record {
  World = Unit {0};
  stat = λ w path follow. (w, ok (stat_result (if follow then target_answers else link_answers)));
}

abbrev link_entry : DirEntry
link_entry = record {
  path = (108 ∷ []) ∷ [];
  file_attributes = 0x410;
  file_id = 6;
  kept_stat = none;
  kept_lstat = none;
}

link_entry-IsListed : IsListed linked tt link_entry (stat_result link_answers)
unfolding stat_result has_flag
link_entry-IsListed = record {
  fresh = (refl, refl);
  answers = refl;
  same_attributes = refl;
  tagged = λ e. cc;
  no_link = λ e. cc;
}

is_dir-stat_example :
    (is_dir linked true tt link_entry).2 ≡ tested s_isdir (ok (stat_result target_answers))
is_dir-stat_example =
    is_dir-stat linked tt link_entry (stat_result link_answers) link_entry-IsListed true

link_mode : (stat_result link_answers).st_mode ≡ 0xA000 + 0x1FF
unfolding stat_result mode_of has_flag
link_mode = refl

earlier_time : (stat_result link_answers).st_mtime_ns ≡ negsuc 99
unfolding stat_result nanoseconds
earlier_time = refl

-- The attributes of one file.
without : Bytes → Attributes → Attributes
without name [] = []
without name ((n, v) ∷ rest) =
    let left = without name rest in if chars_eq n name then left else (n, v) ∷ left

with_value : Bytes → Bytes → Attributes → Attributes
unfolding without
with_value name [] held = without name held
with_value name (x ∷ value) held = (name, x ∷ value) ∷ without name held

abbrev answer_of : Attributes → Result Attributes
answer_of [] = err (smb_os_error 0xC0000052)
answer_of (a ∷ rest) = ok (a ∷ rest)

abbrev one_file : Attributed
one_file = record {
  World = Attributes;
  query = λ w path follow. (w, answer_of w);
  set_info = λ w path follow name value. (with_value name value w, ok tt);
}

abbrev tagged_file : Attributes
tagged_file = (7 ∷ [], 1 ∷ []) ∷ []

-- A directory with a directory and two files, one below it.
abbrev a_file : List ℕ → Found
a_file name = record { name = name; is_dir = false; is_symlink = false }

abbrev entries_at : Location → Option (List Found)
entries_at [] =
    some (record { name = 100 ∷ []; is_dir = true; is_symlink = false } ∷ a_file (97 ∷ []) ∷ [])
entries_at (d ∷ []) = some (a_file (98 ∷ []) ∷ [])
entries_at (e ∷ d ∷ rest) = none

abbrev small_tree : Listing
small_tree = record { scandir = entries_at; is_link = λ p. some false }

top_down :
    walk small_tree false true 3 []
    ≡ finished (
        visited [] ((100 ∷ []) ∷ []) ((97 ∷ []) ∷ [])
        ∷ visited ((100 ∷ []) ∷ []) [] ((98 ∷ []) ∷ [])
        ∷ [])
unfolding walk walk_found walk_dirs
top_down = refl

-- A server that notes what is removed. There is a link beside a file in the directory `d`.
abbrev children : Location → List Child
children [] = []
children (d ∷ []) =
    record {
      name = 108 ∷ [];
      path = (108 ∷ []) ∷ d ∷ [];
      is_symlink = ok true;
      is_dir = ok true;
      has_directory_attribute = ok true;
    }
    ∷ record {
      name = 98 ∷ [];
      path = (98 ∷ []) ∷ d ∷ [];
      is_symlink = ok false;
      is_dir = ok false;
      has_directory_attribute = ok false;
    }
    ∷ []
children (e ∷ d ∷ rest) = []

children-named :
    (p : Location) → All (λ (e : Child). (name : List ℕ) × (e.path ≡ name ∷ p)) (children p)
children-named [] = tt
children-named (d ∷ []) = ((108 ∷ [], refl), ((98 ∷ [], refl), tt))
children-named (e ∷ d ∷ rest) = tt

abbrev noting : Removals
noting = record {
  World = List Location;
  islink = λ w p. (w, ok false);
  scandir = λ w p. (w, children p, none);
  rmdir = λ w p. (p ∷ w, ok tt);
  remove = λ w p. (p ∷ w, ok tt);
}

abbrev directory_d : Location
directory_d = (100 ∷ []) ∷ []

-- Everything that was removed stands below the directory.
abbrev WithinD : List Location → Type 0
WithinD removed = All (λ (p : Location). is_above directory_d p ≡ true) removed

noting-KeptWithin : KeptWithin noting directory_d WithinD
noting-KeptWithin = record {
  by_islink = λ w p h. h;
  by_scandir = λ w w' p i e h. h;
  one_component = λ w p. children-named p;
  by_rmdir = λ w p i h. (i, h);
  by_remove = λ w p i h. (i, h);
}

rmtree-confined_example : WithinD (rmtree noting raises 3 [] [] directory_d).0
rmtree-confined_example =
    rmtree-confined noting raises directory_d WithinD noting-KeptWithin 3 [] [] tt

link_not_entered :
    rmtree noting raises 3 [] [] directory_d
    ≡ (directory_d ∷ ((98 ∷ []) ∷ directory_d) ∷ ((108 ∷ []) ∷ directory_d) ∷ [], [], some (ok tt))
unfolding rmtree remove_entries remove_entry handle
link_not_entered = refl

read_only_set : new_attributes true 0x20 ≡ 0x21
unfolding new_attributes
read_only_set = refl

read_only_cleared : new_attributes false 0x1 ≡ 0x80
unfolding new_attributes
read_only_cleared = refl

nothing_to_set : set_file_basic_info (some true) none none 0x21 ≡ none
unfolding set_file_basic_info new_attributes
nothing_to_set = refl
