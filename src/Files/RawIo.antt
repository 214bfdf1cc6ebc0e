-- ===== src/Files/RawIo.antt =====
-- smbclient/_io.py, `SMBRawIO`: the position in a file, and its reads and writes.
-- What is sent and received stands in an interface: the world that a request changes, with the connection
-- in it, and `connection.send` followed by `connection.receive` on that world.
pub mod Laws
pub mod Refine
use smbprotocol.Prelude.{
  ℕ, zero, suc, ◌+◌, ◌-◌, List, [], ◌∷◌, ◌++◌, Bool, true, false, not, ◌&&◌, ◌||◌, Option, none,
  some, Error, Result, ok, err, ◌>>=◌, smb_exception, type_error, smb_response_exception, min, max,
  leb, ◌==◌, if◌then◌else◌, length, take, drop, replicate,
}
use smbprotocol.Bytes.{Bytes}
use smbprotocol.Structure.{Value, bytes}
use smbprotocol.Structure.Walk.{unpack, get_value}
use smbprotocol.Structure.Build.{as_int}
use smbprotocol.Connection.{Connection, Message}
use smbprotocol.Connection.Credits.{max_payload_size}
use smbprotocol.Messages.ReadWrite.{smb2_read_response, smb2_write_response}
use smbprotocol.Messages.Reading.{read}
use smbprotocol.Messages.Writing.{write}
use smbprotocol.Files.Modes.{Chars, has_char, char_r, char_w, char_x, char_a, char_plus}
use smbprotocol.Files.Chunks.{chunk_size}

-- `FILE_TYPE` of the class.
pub data FileType : Type 0 where
  unknown dir file pipe : FileType

abbrev pub is_pipe : FileType → Bool
is_pipe pipe = true
is_pipe _ = false

-- The attributes of the file object; `file_id` and `end_of_file` are those of its `fd`.
pub record RawIo : Type 0 where
  pub file_type : FileType
  pub mode : Chars
  pub file_id : Bytes
  pub end_of_file : ℕ
  pub offset : ℕ
  pub flush : Bool

-- `readable` and `writable`
unfoldable pub readable : Chars → Bool
readable mode = has_char char_r mode || has_char char_plus mode

unfoldable pub writable : Chars → Bool
writable mode =
    has_char char_w mode || has_char char_x mode || has_char char_a mode || has_char char_plus mode

-- The `desired_access` of `__init__`, of disjoint bits.
unfoldable pub desired_access : Chars → ℕ
unfolding readable writable
desired_access mode =
    (if readable mode then 0x1 + 0x80 + 0x8 else 0)
    + (if writable mode then 0x2 + 0x100 + 0x10 else 0)

-- The end of `open`, after the file is created.
unfoldable pub after_open : RawIo → RawIo
after_open io =
    if has_char char_a io.mode && not (is_pipe io.file_type)
    then record io { offset = io.end_of_file }
    else io

-- `whence`, and a signed number of bytes.
pub data Whence : Type 0 where
  seek_set seek_cur seek_end : Whence

pub data Shift : Type 0 where
  ahead back : ℕ → Shift

abbrev pub start_of : Whence → RawIo → ℕ
start_of seek_set io = 0
start_of seek_cur io = io.offset
start_of seek_end io = io.end_of_file

-- `seek`; a position before the start of the file, which Python keeps, is `none`.
unfoldable pub seek : RawIo → Shift → Whence → Option (RawIo × ℕ)
seek io (ahead n) whence =
    let position = start_of whence io + n in some (record io { offset = position }, position)
seek io (back n) whence =
    let position = start_of whence io - n in
    if leb n (start_of whence io) then some (record io { offset = position }, position) else none

-- The end of `truncate`.
unfoldable pub truncated : RawIo → ℕ → RawIo
truncated io size = record io { end_of_file = size; flush = true }

unfoldable pub as_bytes : Value → Result Bytes
as_bytes (bytes b) = ok b
as_bytes _ = err type_error

-- `Open._read_response` and `Open._write_response`, on the data of the response.
unfoldable pub read_response : Bytes → Result Bytes
unfolding unpack smb2_read_response get_value as_bytes
read_response answer = do
  x ← unpack smb2_read_response answer
  v ← get_value x.0 "buffer"
  as_bytes v

unfoldable pub write_response : Bytes → Result ℕ
unfolding unpack smb2_write_response get_value
write_response answer = do
  x ← unpack smb2_write_response answer
  v ← get_value x.0 "count"
  as_int v

abbrev pub status_pipe_broken : ℕ
status_pipe_broken = 0xC000014B

-- `except PipeBroken: file_bytes = b""`
abbrev pub unless_broken : Result Bytes → Result Bytes
unless_broken (ok b) = ok b
unless_broken (err (smb_response_exception status)) =
    if status == status_pipe_broken then ok [] else err (smb_response_exception status)
unless_broken (err e) = err e

-- The world of the connection, the sizes that were negotiated, and a request that is sent, with the
-- credits that it asks for, and whose response is received: its data, or what is raised.
pub record Remote : Type 1 where
  pub World : Type 0
  pub connection : World → Connection
  pub max_read_size : ℕ
  pub max_write_size : ℕ
  pub exchange : World → Message → ℕ → World × Result Bytes

module _ (remote : Remote) where
  open remote use {World, connection, max_read_size, max_write_size, exchange}

  -- A call on the file: the world and the file afterwards, and what it returns or raises.
  abbrev pub IoCall : Type 0 → Type 0
  IoCall A = World × RawIo × Result A

  -- The request, if it was built, with what its response is read as.
  unfoldable pub send_request :
      {A : Type 0} → World → Result Message → ℕ → (Bytes → Result A) → World × Result A
  send_request w (err e) credit_request received = (w, err e)
  send_request w (ok m) credit_request received =
      let (w', answer) = exchange w m credit_request in (w', answer >>= received)

  -- The end of `readinto`: the buffer, and the number of bytes in it.
  unfoldable pub filled : RawIo → Bytes → World × Result Bytes → IoCall (Bytes × ℕ)
  filled io b (w, err e) = (w, io, err e)
  filled io b (w, ok file_bytes) = (
    w,
    if is_pipe io.file_type then io else record io { offset = io.offset + length file_bytes },
    ok (file_bytes ++ drop (length file_bytes) b, length file_bytes),
  )

  read_chunk : World → RawIo → Bytes → Option (ℕ × ℕ) → IoCall (Bytes × ℕ)
  unfolding send_request filled read read_response
  read_chunk w io b none = (w, io, err smb_exception)
  read_chunk w io b (some (n, credit_request)) =
      let built = read max_read_size (connection w).dialect io.file_id io.offset n 0 false in
      let (w', file_bytes) = send_request w built credit_request read_response in
      filled io b (w', unless_broken file_bytes)

  -- `readinto`
  unfoldable pub readinto : World → RawIo → Bytes → IoCall (Bytes × ℕ)
  unfolding read_chunk chunk_size
  readinto w io b =
      if leb io.end_of_file io.offset && not (is_pipe io.file_type)
      then (w, io, ok (b, 0))
      else read_chunk w io b (chunk_size (connection w) max_read_size (length b))

  -- `read_length` of `readall`
  unfoldable pub read_length : RawIo → ℕ
  read_length io = min (max (io.end_of_file - io.offset) max_payload_size) max_read_size

  -- The body of the loop of `readall` after its `readinto`, and the rounds that follow it.
  unfoldable pub next_round :
      (World → RawIo → Bytes → Option (IoCall Bytes))
      → Bytes
      → IoCall (Bytes × ℕ)
      → Option (IoCall Bytes)
  next_round again done (w, io, err e) = some (w, io, err e)
  next_round again done (w, io, ok (buffer, bytes_read)) = elim (bytes_read == 0) [
    | true ↦ some (w, io, ok done)
    | false ↦ again w io (done ++ take bytes_read buffer)
  ]

  -- `readall`; `none` where the fuel runs out.
  unfoldable pub readall : ℕ → World → RawIo → Bytes → Option (IoCall Bytes)
  unfolding readinto read_length next_round
  readall zero w io done = none
  readall (suc fuel) w io done =
      next_round (readall fuel) done (readinto w io (replicate (read_length io) 0))

  -- The end of `write`.
  unfoldable pub written : RawIo → World × Result ℕ → IoCall ℕ
  written io (w, err e) = (w, io, err e)
  written io (w, ok bytes_written) = (
    w,
    if is_pipe io.file_type then io else record io {
      offset = io.offset + bytes_written;
      end_of_file = max io.end_of_file (io.offset + bytes_written);
      flush = true;
    },
    ok bytes_written,
  )

  write_chunk : World → RawIo → Bytes → Option (ℕ × ℕ) → IoCall ℕ
  unfolding send_request written write write_response
  write_chunk w io b none = (w, io, err smb_exception)
  write_chunk w io b (some (n, credit_request)) =
      let built =
        write max_write_size (connection w).dialect io.file_id (take n b) io.offset false false in
      written io (send_request w built credit_request write_response)

  -- `write`
  unfoldable pub write_bytes : World → RawIo → Bytes → IoCall ℕ
  unfolding write_chunk chunk_size
  write_bytes w io b = write_chunk w io b (chunk_size (connection w) max_write_size (length b))
