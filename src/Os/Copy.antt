-- ===== src/Os/Copy.antt =====
-- smbclient/_os.py, `copyfile`: a copy that the server makes in chunks.
pub mod Chunks
pub mod Laws
use smbprotocol.Prelude.{
  ℕ, zero, suc, ◌+◌, ◌-◌, List, [], ◌∷◌, Bool, true, false, not, Option, none, some, Result, ok,
  err, ◌>>=◌, value_error, index_error, os_error, min, ltb, ◌==◌, if◌then◌else◌, length, take, drop,
  get_elem?,
}
use smbprotocol.Bytes.{Bytes}
use smbprotocol.Structure.Walk.{unpack, get_value}
use smbprotocol.Structure.Build.{as_int}
use smbprotocol.Messages.Ioctl.{smb2_srv_request_resume_key, smb2_srv_copy_chunk_response}
use smbprotocol.Files.Modes.{Chars}
use smbprotocol.Files.RawIo.{as_bytes}
use smbprotocol.Dfs.{chars_eq}
use smbprotocol.Os.{is_remote_path}

abbrev pub max_copy_chunk_size : ℕ
max_copy_chunk_size = 1048576

abbrev pub max_copy_chunk_count : ℕ
max_copy_chunk_count = 16

-- The fields of a `SMB2SrvCopyChunk` that are set.
pub record CopyChunk : Type 0 where
  pub source_offset : ℕ
  pub target_offset : ℕ
  pub length : ℕ

-- `while offset < end_of_file`
unfoldable pub chunk_loop : ℕ → ℕ → ℕ → ℕ → List CopyChunk
chunk_loop zero size end_of_file offset = []
chunk_loop (suc fuel) size end_of_file offset =
    let rest = chunk_loop fuel size end_of_file (offset + size) in
    if ltb offset end_of_file
    then record {
      source_offset = offset;
      target_offset = offset;
      length = min size (end_of_file - offset);
    }
      ∷ rest
    else []

-- `chunks[i : i + MAX_COPY_CHUNK_COUNT]` for each `i` of the range.
unfoldable pub batch_loop : ℕ → ℕ → List CopyChunk → List (List CopyChunk)
batch_loop zero count chunks = []
batch_loop (suc fuel) count [] = []
batch_loop (suc fuel) count (c ∷ chunks) =
    take count (c ∷ chunks) ∷ batch_loop fuel count (drop count (c ∷ chunks))

unfoldable pub batches : ℕ → List (List CopyChunk)
unfolding chunk_loop batch_loop
batches end_of_file =
    let chunks = chunk_loop end_of_file max_copy_chunk_size end_of_file 0 in
    batch_loop (length chunks) max_copy_chunk_count chunks

-- `text.split("\\")`
unfoldable pub split_backslash : Chars → List Chars
split_backslash [] = [] ∷ []
split_backslash (c ∷ cs) = elim (split_backslash cs) [
  | [] ↦ []
  | part ∷ parts ↦ if c == 92 then [] ∷ part ∷ parts else (c ∷ part) ∷ parts
]

-- `resume_response["resume_key"]` and `copychunk_response["chunks_written"]` of an answer.
unfoldable pub resume_key_of : Bytes → Result Bytes
unfolding unpack smb2_srv_request_resume_key get_value as_bytes
resume_key_of answer = do
  x ← unpack smb2_srv_request_resume_key answer
  v ← get_value x.0 "resume_key"
  as_bytes v

unfoldable pub chunks_written_of : Bytes → Result ℕ
unfolding unpack smb2_srv_copy_chunk_response get_value
chunks_written_of answer = do
  x ← unpack smb2_srv_copy_chunk_response answer
  v ← get_value x.0 "chunks_written"
  as_int v

-- The functions of ntpath and str that are called.
pub record PathFunctions : Type 0 where
  pub normpath : Chars → Chars
  pub drive_of : Chars → Chars
  pub lower : Chars → Chars

-- What `copyfile` asks of the server: files opened by path, for reading with their `end_of_file` and
-- for writing, the two control requests with the data of their answers, and closing.
pub record CopyServer : Type 1 where
  pub World : Type 0
  pub Handle : Type 0
  pub open_read : World → Chars → World × Result (Handle × ℕ)
  pub open_write : World → Chars → World × Result Handle
  pub request_resume_key : World → Handle → World × Result Bytes
  pub copychunk_write : World → Handle → Bytes → List CopyChunk → World × Result Bytes
  pub close : World → Handle → World

module _ (paths : PathFunctions) where
  open paths use {normpath, drive_of, lower}

  -- `ntpath.splitdrive(path)[0].split("\\")[2]`
  unfoldable pub host_of : Chars → Result Chars
  unfolding split_backslash
  host_of path = elim (get_elem? (split_backslash (drive_of path)) 2) [
    | none ↦ err index_error
    | some host ↦ ok host
  ]

  -- The checks of the two normalised paths.
  unfoldable pub check_paths : Chars → Chars → Result (Unit {0})
  unfolding is_remote_path host_of
  check_paths norm_src norm_dst =
      if not (is_remote_path norm_src)
      then err value_error
      else if not (is_remote_path norm_dst)
      then err value_error
      else host_of norm_src >>= λ src_host. host_of norm_dst >>= λ dst_host.
          if chars_eq (lower src_host) (lower dst_host) then ok tt else err value_error

  module _ (server : CopyServer) where
    open server use {
      World, Handle, open_read, open_write, request_resume_key, copychunk_write, close,
    }

    -- The end of a round: the number of chunks that were written, against the batch.
    unfoldable pub check_written : ℕ → Result Bytes → Result (Unit {0})
    unfolding chunks_written_of
    check_written count answer =
        answer >>= chunks_written_of >>= λ written. if written == count then ok tt else err os_error

    abbrev pub next_batch :
        (World → World × Result (Unit {0})) → World → Result (Unit {0}) → World × Result (Unit {0})
    next_batch next w (ok _) = next w
    next_batch next w (err e) = (w, err e)

    unfoldable pub copy_batches :
        Handle → Bytes → List (List CopyChunk) → World → World × Result (Unit {0})
    unfolding check_written
    copy_batches dst_fd resume_key [] w = (w, ok tt)
    copy_batches dst_fd resume_key (batch ∷ rest) w =
        let (w', answer) = copychunk_write w dst_fd resume_key batch in
        next_batch (copy_batches dst_fd resume_key rest) w' (check_written (length batch) answer)

    abbrev closed : Handle → World × Result (Unit {0}) → World × Result (Unit {0})
    closed fd (w, result) = (close w fd, result)

    -- `with open_file(norm_dst, ...) as dst_fd`
    unfoldable pub copy_into : Bytes → ℕ → World × Result Handle → World × Result (Unit {0})
    unfolding copy_batches batches
    copy_into resume_key end_of_file (w, err e) = (w, err e)
    copy_into resume_key end_of_file (w, ok dst_fd) =
        closed dst_fd (copy_batches dst_fd resume_key (batches end_of_file) w)

    unfoldable pub copy_with_key : Chars → ℕ → World × Result Bytes → World × Result (Unit {0})
    unfolding copy_into
    copy_with_key norm_dst end_of_file (w, err e) = (w, err e)
    copy_with_key norm_dst end_of_file (w, ok resume_key) =
        copy_into resume_key end_of_file (open_write w norm_dst)

    -- `with open_file(norm_src, ...) as src_fd`
    unfoldable pub copy_from : Chars → World × Result (Handle × ℕ) → World × Result (Unit {0})
    unfolding copy_with_key resume_key_of
    copy_from norm_dst (w, err e) = (w, err e)
    copy_from norm_dst (w, ok (src_fd, end_of_file)) =
        let (w', answer) = request_resume_key w src_fd in
        closed src_fd (copy_with_key norm_dst end_of_file (w', answer >>= resume_key_of))

    unfoldable pub after_check :
        Chars → Chars → World → Result (Unit {0}) → World × Result (Unit {0})
    unfolding copy_from
    after_check norm_src norm_dst w (err e) = (w, err e)
    after_check norm_src norm_dst w (ok _) = copy_from norm_dst (open_read w norm_src)

    unfoldable pub copyfile : World → Chars → Chars → World × Result (Unit {0})
    unfolding check_paths after_check
    copyfile w src dst =
        after_check (normpath src) (normpath dst) w (check_paths (normpath src) (normpath dst))
