-- ===== src/Os/Runs/Copying.antt =====
-- smbclient/_os.py, `copyfile`, on a server with two files.
use smbprotocol.Prelude.{
  ℕ, ◌≡◌, refl, ap, List, [], ◌∷◌, ◌++◌, Option, none, some, ok, arith, if◌then◌else◌, length,
  replicate, take, Bool-cases, inl, inr,
}
use smbprotocol.Bytes.{Bytes, struct_unpack, from_le}
use smbprotocol.Structure.{calculated_value, parse_value, calculated_size, set_value, packed_size}
use smbprotocol.Structure.Walk.{unpack, unpack_fields, get_value, get_field, view_of, view}
use smbprotocol.Messages.Ioctl.{smb2_srv_request_resume_key, smb2_srv_copy_chunk_response}
use smbprotocol.Files.Modes.{Chars}
use smbprotocol.Files.RawIo.{as_bytes}
use smbprotocol.Dfs.{chars_eq}
use smbprotocol.Os.{is_remote_path}
use smbprotocol.Os.Copy.{
  CopyChunk, CopyServer, PathFunctions, chunks_written_of, resume_key_of, check_paths, host_of,
  split_backslash, copyfile, chunk_loop,
}
use smbprotocol.Os.Copy.Chunks.{apply_chunks}
use smbprotocol.Os.Copy.Laws.{CopiesFiles, copyfile-copies}

-- `\\h\s\a` and `\\h\s\b`
abbrev path_a : Chars
path_a = 92 ∷ 92 ∷ 104 ∷ 92 ∷ 115 ∷ 92 ∷ 97 ∷ []

abbrev path_b : Chars
path_b = 92 ∷ 92 ∷ 104 ∷ 92 ∷ 115 ∷ 92 ∷ 98 ∷ []

-- Paths that are normal, in lower case, with a drive of six characters.
abbrev plain_paths : PathFunctions
plain_paths = record { normpath = λ p. p; drive_of = λ p. take 5 p; lower = λ p. p }

record Files : Type 0 where
  source : Bytes
  target : Option Bytes

abbrev content_of : Files → Chars → Option Bytes
content_of f p =
    if chars_eq p path_b then f.target else if chars_eq p path_a then some f.source else none

abbrev target_of : Option Bytes → Bytes
target_of none = []
target_of (some b) = b

abbrev resume_answer : Bytes
resume_answer = replicate 24 7 ++ (0 ∷ 0 ∷ 0 ∷ 0 ∷ [])

abbrev written_answer : ℕ → Bytes
written_answer n = n ∷ replicate 11 0

-- The server carries out the chunks and says how many they were.
abbrev two_files : CopyServer
two_files = record {
  World = Files;
  Handle = Unit {0};
  open_read = λ f p. (f, ok (tt, length f.source));
  open_write = λ f p. (record f { target = some [] }, ok tt);
  request_resume_key = λ f h. (f, ok resume_answer);
  copychunk_write = λ f h key chunks. (
    record f { target = some (apply_chunks f.source chunks (target_of f.target)) },
    ok (written_answer (length chunks)),
  );
  close = λ f h. f;
}

written-answer : (n : ℕ) → chunks_written_of (written_answer n) ≡ ok n
unfolding chunks_written_of unpack unpack_fields smb2_srv_copy_chunk_response get_value get_field
    view_of view calculated_value parse_value calculated_size set_value packed_size struct_unpack
    from_le
written-answer n = ap ok (omega arith)

resume-answer : resume_key_of resume_answer ≡ ok (replicate 24 7)
unfolding resume_key_of unpack unpack_fields smb2_srv_request_resume_key get_value get_field view_of
    view calculated_value parse_value calculated_size set_value packed_size struct_unpack from_le
    as_bytes
resume-answer = refl

some-injective : {x y : Bytes} → some x ≡ some y → x ≡ y
some-injective e = cc

two_files-CopiesFiles :
    CopiesFiles two_files content_of path_a path_b
      (λ w. Unit {0})
      (λ w h p. Unit {0})
      (λ w k. Unit {0})
      (λ w w'. Unit {0})
two_files-CopiesFiles = record {
  keeps_write = λ w w' k c. tt;
  keeps_open = λ w w' h p k o. tt;
  keeps_key = λ w w' k e o. tt;
  opens_source = λ w e.
      (w, tt, ap (λ (b : Bytes). (w, ok (tt, length b))) (some-injective e), tt, tt, λ q. refl);
  gives_key = λ w h o. (w, resume_answer, replicate 24 7, refl, resume-answer, tt, tt, λ q. refl);
  empties_target = λ w c. (record w { target = some [] }, tt, refl, tt, tt, λ q. emptied w q);
  copies_chunks = λ w h key source target chunks o k s t few fits. (
    record w { target = some (apply_chunks w.source chunks (target_of w.target)) },
    written_answer (length chunks),
    refl,
    written-answer (length chunks),
    tt,
    λ q. copied w q chunks (some-injective s) t,
  );
  closes = λ w h q. refl;
}
  where
    emptied :
        (w : Files) (q : Chars)
        → content_of (record w { target = some [] }) q
          ≡ (if chars_eq q path_b then some [] else content_of w q)
    emptied w q = elim (Bool-cases (chars_eq q path_b)) [
      | inl same ↦ rw same refl
      | inr other ↦ rw other refl
    ]

    copied :
        (w : Files) (q : Chars) (chunks : List CopyChunk) {source target : Bytes}
        → w.source ≡ source
        → w.target ≡ some target
        → content_of
            (record w { target = some (apply_chunks w.source chunks (target_of w.target)) })
            q
          ≡ (if chars_eq q path_b then some (apply_chunks source chunks target) else content_of w q)
    copied w q chunks s t = elim (Bool-cases (chars_eq q path_b)) [
      | inl same ↦ rw same (rw (s, t) refl)
      | inr other ↦ rw other refl
    ]

abbrev start : Files
start = record { source = 1 ∷ 2 ∷ 3 ∷ []; target = none }

paths_checked : check_paths plain_paths path_a path_b ≡ ok tt
unfolding check_paths host_of split_backslash is_remote_path
paths_checked = refl

copyfile-copies_example :
    (w' : Files) × (copyfile plain_paths two_files start path_a path_b ≡ (w', ok tt))
    × ((q : Chars)
        → content_of w' q
          ≡ (if chars_eq q path_b then some (1 ∷ 2 ∷ 3 ∷ []) else content_of start q))
copyfile-copies_example =
    copyfile-copies plain_paths two_files path_a path_b content_of (λ w. Unit {0})
      (λ w h p. Unit {0}) (λ w k. Unit {0}) (λ w w'. Unit {0}) two_files-CopiesFiles start
      paths_checked refl refl tt

-- Chunks of at most three bytes, and batches of two chunks.
three_chunks :
    chunk_loop 8 3 8 0
    ≡ record { source_offset = 0; target_offset = 0; length = 3 }
      ∷ record { source_offset = 3; target_offset = 3; length = 3 }
      ∷ record { source_offset = 6; target_offset = 6; length = 2 }
      ∷ []
unfolding chunk_loop
three_chunks = refl
