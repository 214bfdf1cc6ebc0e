-- ===== src/Os/DirEntry/Laws.antt =====
-- smbclient/_os.py, `SMBDirEntry`: its tests against `stat` on its path.
use smbprotocol.Prelude.{
  ℕ, ◌≡◌, refl, sym, ap, ◌∙◌, Bool, true, false, not, ◌&&◌, none, some, Result, ok, err, ◌==◌,
  if◌then◌else◌, Bool-cases, inl, inr,
}
use smbprotocol.Structure.{has_flag}
use smbprotocol.Exceptions.{enoent}
use smbprotocol.Os.{errno_of}
use smbprotocol.Os.Stat.{
  StatResult, s_isdir, s_isreg, mode_of, mode_of-kinds, file_attribute_directory,
  file_attribute_reparse_point, io_reparse_tag_symlink,
}
use smbprotocol.Os.DirEntry.{
  Stats, DirEntry, is_symlink, entry_lstat, entry_stat, EntryCall, then_with, checked, keep_stat,
  link_target_type_check, is_dir, is_file,
}

-- What a test of the mode makes of `stat`: a missing target fails it, another error is raised.
abbrev pub tested : (ℕ → Bool) → Result StatResult → Result Bool
tested check (ok s) = ok (check s.st_mode)
tested check (err e) = elim (errno_of e) [ some enoent ↦ ok false | _ ↦ err e ]

-- An entry that a directory has just listed, on a server that answers `stat` on the entry itself with the
-- listed attributes; the tag of a symbolic link comes with the attribute of a reparse point, and where
-- there is none, following links makes no difference.
pub record IsListed (server : Stats) (w : server.World) (entry : DirEntry) (s : StatResult)
    : Type 0 where
  pub fresh : (entry.kept_stat ≡ none) × (entry.kept_lstat ≡ none)
  pub answers : server.stat w entry.path false ≡ (w, ok s)
  pub same_attributes : s.st_mode ≡ mode_of entry.file_attributes s.st_reparse_tag
  pub tagged :
      has_flag entry.file_attributes file_attribute_reparse_point ≡ false
      → (s.st_reparse_tag == io_reparse_tag_symlink) ≡ false
  pub no_link :
      (s.st_reparse_tag == io_reparse_tag_symlink) ≡ false
      → (t : StatResult) × ((server.stat w entry.path true).1 ≡ ok t) × (t.st_mode ≡ s.st_mode)

module _ (server : Stats) (w : server.World) (entry : DirEntry) (s : StatResult)
    (listed : IsListed server w entry s) where
  open server use {World, stat}

  -- The entry once it has asked for its own status.
  abbrev asked : DirEntry
  asked = record entry { kept_lstat = some s }

  is_symlink_asks :
      has_flag entry.file_attributes file_attribute_reparse_point ≡ true
      → is_symlink server w entry ≡ (w, asked, ok (s.st_reparse_tag == io_reparse_tag_symlink))
  unfolding is_symlink entry_lstat
  is_symlink_asks r = rw r (rw (listed.fresh.1) (rw (listed.answers) refl))

  is_symlink_again :
      has_flag entry.file_attributes file_attribute_reparse_point ≡ true
      → is_symlink server w asked ≡ (w, asked, ok (s.st_reparse_tag == io_reparse_tag_symlink))
  unfolding is_symlink entry_lstat
  is_symlink_again r = rw r refl

  is_symlink_knows :
      has_flag entry.file_attributes file_attribute_reparse_point ≡ false
      → is_symlink server w entry ≡ (w, entry, ok false)
  unfolding is_symlink
  is_symlink_knows r = rw r refl

  checks_target :
      (check : ℕ → Bool)
      → has_flag entry.file_attributes file_attribute_reparse_point ≡ true
      → (s.st_reparse_tag == io_reparse_tag_symlink) ≡ true
      → (link_target_type_check server check w asked).2 ≡ tested check (stat w entry.path true).1
  unfolding link_target_type_check entry_stat is_symlink entry_lstat
  checks_target check r link =
      rw (listed.fresh.0) (rw r (rw link (of_result (stat w entry.path true))))
    where
      of_result :
          (answer : World × Result StatResult)
          → (checked server check
              (keep_stat server (record entry { kept_stat = none; kept_lstat = some s }) answer)).2
            ≡ tested check answer.1
      of_result (w', ok t) = refl
      of_result (w', err e) = refl

  -- The common part of `is_dir` and `is_file`.
  abbrev test : (ℕ → Bool) → (Bool → ℕ → Bool) → Bool → World → DirEntry → EntryCall server Bool
  test check own follow_symlinks w' e = then_with server (is_symlink server w' e) (λ w'' e' is_lnk.
      if follow_symlinks && is_lnk
      then link_target_type_check server check w'' e'
      else (w'', e', ok (own is_lnk e'.file_attributes)))

  module _ (check : ℕ → Bool) (own : Bool → ℕ → Bool)
      (kinds : check s.st_mode
        ≡ own (s.st_reparse_tag == io_reparse_tag_symlink) entry.file_attributes) where
    not_followed :
        (follow_symlinks link : Bool) (e : DirEntry)
        → is_symlink server w entry ≡ (w, e, ok link)
        → e.file_attributes ≡ entry.file_attributes
        → (s.st_reparse_tag == io_reparse_tag_symlink) ≡ link
        → (follow_symlinks && link) ≡ false
        → (test check own follow_symlinks w entry).2 ≡ ok (check s.st_mode)
    not_followed follow_symlinks link e found same is off =
        rw found (rw off (ap ok (rw (same, ← is) (sym kinds))))

    answers_itself :
        (follow_symlinks : Bool)
        → (follow_symlinks && (s.st_reparse_tag == io_reparse_tag_symlink)) ≡ false
        → tested check (stat w entry.path follow_symlinks).1 ≡ ok (check s.st_mode)
    answers_itself false off = rw (listed.answers) refl
    answers_itself true off = let t = listed.no_link off in rw (t.1) (ap (λ m. ok (check m)) t.2)

    test-stat :
        (follow_symlinks : Bool)
        → (test check own follow_symlinks w entry).2
          ≡ tested check (stat w entry.path follow_symlinks).1
    test-stat follow_symlinks =
        elim (Bool-cases (has_flag entry.file_attributes file_attribute_reparse_point)) [
          | inr plain ↦
              let link = listed.tagged plain in
              let off : (follow_symlinks && false) ≡ false = and_false follow_symlinks in
              not_followed follow_symlinks false entry (is_symlink_knows plain) refl link off
              ∙ sym (answers_itself follow_symlinks (rw link off))
          | inl reparse ↦
              elim (Bool-cases (follow_symlinks && (s.st_reparse_tag == io_reparse_tag_symlink))) [
                | inr off ↦
                    not_followed follow_symlinks (s.st_reparse_tag == io_reparse_tag_symlink) asked
                      (is_symlink_asks reparse) refl refl off
                    ∙ sym (answers_itself follow_symlinks off)
                | inl yes_both ↦ followed follow_symlinks reparse yes_both
              ]
        ]
      where
        and_false : (b : Bool) → (b && false) ≡ false
        and_false true = refl
        and_false false = refl

        followed :
            (follow : Bool)
            → has_flag entry.file_attributes file_attribute_reparse_point ≡ true
            → (follow && (s.st_reparse_tag == io_reparse_tag_symlink)) ≡ true
            → (test check own follow w entry).2 ≡ tested check (stat w entry.path follow).1
        followed true reparse link =
            rw (is_symlink_asks reparse) (rw link (checks_target check reparse link))
        followed false reparse link = cc

  -- On an entry that was just listed, `is_dir` is the test that `stat` on its path fulfils, links followed
  -- or not; a link whose target is missing is no directory, and another error is raised.
  pub is_dir-stat :
      (follow_symlinks : Bool)
      → (is_dir server follow_symlinks w entry).2
        ≡ tested s_isdir (stat w entry.path follow_symlinks).1
  unfolding is_dir
  is_dir-stat =
      test-stat s_isdir (λ link a. not link && has_flag a file_attribute_directory)
        (ap s_isdir listed.same_attributes
          ∙ (mode_of-kinds entry.file_attributes s.st_reparse_tag).1)

  -- The same of `is_file` and regular files.
  pub is_file-stat :
      (follow_symlinks : Bool)
      → (is_file server follow_symlinks w entry).2
        ≡ tested s_isreg (stat w entry.path follow_symlinks).1
  unfolding is_file
  is_file-stat =
      test-stat s_isreg (λ link a. not link && not (has_flag a file_attribute_directory))
        (ap s_isreg listed.same_attributes
          ∙ (mode_of-kinds entry.file_attributes s.st_reparse_tag).2)
