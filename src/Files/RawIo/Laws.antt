-- ===== src/Files/RawIo/Laws.antt =====
-- smbclient/_io.py, `SMBRawIO`: what a file object relies on of the server, and its single reads and writes.
use smbprotocol.Prelude.{
  ℕ, zero, suc, ◌+◌, ◌-◌, ◌≤◌, ◌<◌, ◌≡◌, refl, sym, ap, ◌∙◌, subst, [], ◌∷◌, ◌++◌, true, false,
  some, ok, arith, max, leb, length, take, drop, replicate, length-append, drop-append_eq,
  length-take, length-drop, length-replicate,
}
use smbprotocol.Bytes.{Bytes}
use smbprotocol.Connection.{Message}
use smbprotocol.Messages.Reading.{read}
use smbprotocol.Messages.Writing.{write}
use smbprotocol.Files.Chunks.{chunk_size, credits_for}
use smbprotocol.Files.Chunks.Laws.{
  chunk_size-some, chunk-bounds, Reserves, reserve-read_chunk, reserve-write_chunk,
}
use smbprotocol.Files.RawIo
use smbprotocol.Files.RawIo.{
  Remote, RawIo, is_pipe, FileType, read_response, write_response, readinto, write_bytes,
  send_request, filled, written,
}

-- The content of a file after a write: a gap before the offset is filled with zeros.
abbrev pub overwrite : Bytes → ℕ → Bytes → Bytes
overwrite content offset b =
    take offset (content ++ replicate (offset - length content) 0)
    ++ (b ++ drop (offset + length b) content)

take-take : (i j : ℕ) (xs : Bytes) → i ≤ j → take i (take j xs) ≡ take i xs
take-take zero j xs h = refl
take-take (suc i) zero xs h = absurd (omega arith)
take-take (suc i) (suc j) [] h = refl
take-take (suc i) (suc j) (x ∷ xs) h = ap (◌∷◌ x) (take-take i j xs (omega arith))

pub length-overwrite :
    (old : Bytes) (offset : ℕ) (b : Bytes)
    → length (overwrite old offset b) ≡ max (length old) (offset + length b)
length-overwrite old offset b = omega (
  arith,
  length-append (take offset (old ++ replicate (offset - length old) 0))
      (b ++ drop (offset + length b) old),
  length-append b (drop (offset + length b) old),
  length-take offset (old ++ replicate (offset - length old) 0),
  length-append old (replicate (offset - length old) 0),
  length-replicate {A = ℕ} (offset - length old) 0,
  length-drop (offset + length b) old,
)

pub drop-overwrite :
    (old : Bytes) (offset : ℕ) (b : Bytes)
    → drop offset (overwrite old offset b) ≡ b ++ drop (offset + length b) old
drop-overwrite old offset b =
    drop-append_eq offset (take offset (old ++ replicate (offset - length old) 0)) _ (
      omega (
        arith,
        length-take offset (old ++ replicate (offset - length old) 0),
        length-append old (replicate (offset - length old) 0),
        length-replicate {A = ℕ} (offset - length old) 0,
      ))

-- A part of a chunk of the data, as a part of the data, and the size of the file with it.
overwrite_part :
    (old b : Bytes) (offset k n : ℕ) {new : Bytes}
    → k ≤ length (take n b)
    → new ≡ overwrite old offset (take k (take n b))
    → (new ≡ overwrite old offset (take k b)) × (max (length old) (offset + k) ≡ length new)
overwrite_part old b offset k n {new} h e =
    let same : new ≡ overwrite old offset (take k b) =
      e ∙ ap (overwrite old offset) (take-take k n b (omega (arith, length-take n b))) in
    (
      same,
      omega (
        arith,
        ap length same,
        length-overwrite old offset (take k b),
        length-take k b,
        length-take n b,
      ),
    )

-- What is documented of a server that holds a file: a read within the file returns some of the bytes
-- that it asks for, from its offset on, a write writes some of its bytes at its offset, and both leave the
-- connection a credit. `IsReady` says that the connection is open.
pub record Serves (remote : Remote) (content : remote.World → Bytes)
    (IsReady : remote.World → Type 0) : Type 0 where
  pub sized : (1 ≤ remote.max_read_size) × (1 ≤ remote.max_write_size)
  pub credited :
      (w : remote.World)
      → IsReady w
      → ((remote.connection w).supports_multi_credit ≡ true)
        × ((remote.connection w).sequence_low < (remote.connection w).sequence_high)
  pub answers_read :
      (w : remote.World) (file_id : Bytes) (offset n credit_request : ℕ) (m : Message)
      → IsReady w
      → read remote.max_read_size (remote.connection w).dialect file_id offset n 0 false ≡ ok m
      → Reserves (remote.connection w) n m
      → credits_for n ≤ credit_request
      → 1 ≤ n
      → offset < length (content w)
      → (w' : remote.World) × (k : ℕ) × (answer : Bytes) × (remote.exchange w m credit_request
          ≡ (w', ok answer))
        × (read_response answer ≡ ok (take k (drop offset (content w))))
        × (1 ≤ k)
        × (k ≤ n)
        × (offset + k ≤ length (content w))
        × IsReady w'
        × (content w' ≡ content w)
  pub answers_write :
      (w : remote.World) (file_id b : Bytes) (offset credit_request : ℕ) (m : Message)
      → IsReady w
      → write remote.max_write_size (remote.connection w).dialect file_id b offset false false
        ≡ ok m
      → Reserves (remote.connection w) (length b) m
      → credits_for (length b) ≤ credit_request
      → 1 ≤ length b
      → (w' : remote.World) × (k : ℕ) × (answer : Bytes) × (remote.exchange w m credit_request
          ≡ (w', ok answer))
        × (write_response answer ≡ ok k)
        × (1 ≤ k)
        × (k ≤ length b)
        × IsReady w'
        × (content w' ≡ overwrite (content w) offset (take k b))

module _ (remote : Remote) (content : remote.World → Bytes) (IsReady : remote.World → Type 0)
    (serves : Serves remote content IsReady) where
  open remote use {World, connection, max_read_size, max_write_size, exchange}

  readinto-answered :
      (w : World) (io : RawIo) (b : Bytes) {w' : World} {m : Message} {n r : ℕ}
      {answer found : Bytes}
      → (leb io.end_of_file io.offset ≡ false)
      → is_pipe io.file_type ≡ false
      → chunk_size (connection w) max_read_size (length b) ≡ some (n, r)
      → read max_read_size (connection w).dialect io.file_id io.offset n 0 false ≡ ok m
      → exchange w m r ≡ (w', ok answer)
      → read_response answer ≡ ok found
      → readinto remote w io b ≡ (
        w',
        record io { offset = io.offset + length found },
        ok (found ++ drop (length found) b, length found),
      )
  unfolding readinto RawIo.read_chunk send_request filled
  readinto-answered w io b before plain chunk built exchanged received =
      rw (readinto, before, chunk, built, exchanged, received, plain) refl

  leb_gt : (a b : ℕ) → b < a → leb a b ≡ false
  leb_gt a b h = ground arith

  -- What a read of a buffer of this length gives before the end of the file.
  abbrev pub GivesBytes : World → RawIo → Bytes → Type 0
  GivesBytes w io b =
      (w' : World) × (k : ℕ) × (readinto remote w io b ≡ (
        w',
        record io { offset = io.offset + k },
        ok (take k (drop io.offset (content w)) ++ drop k b, k),
      ))
      × (1 ≤ k)
      × (k ≤ length b)
      × (io.offset + k ≤ length (content w))
      × IsReady w'
      × (content w' ≡ content w)

  -- A read into a buffer before the end of the file is never refused for a want of credits or for the
  -- negotiated size: it fills a part of the buffer, one byte at least, with the bytes of the file from the
  -- offset on, leaves the rest of the buffer, and moves the offset behind them.
  pub readinto-GivesBytes :
      (w : World) (io : RawIo) (b : Bytes)
      → IsReady w
      → is_pipe io.file_type ≡ false
      → io.end_of_file ≡ length (content w)
      → io.offset < io.end_of_file
      → 1 ≤ length b
      → GivesBytes w io b
  readinto-GivesBytes w io b ready plain eof before room =
      let (multi, credit) = serves.credited w ready in
      let (n, r, chunk) = chunk_size-some (connection w) max_read_size (length b) (omega arith) in
      let (within, fits, charged, enough, some_) =
        chunk-bounds (connection w) max_read_size (length b) chunk credit in
      let (m, built, reserved) =
        reserve-read_chunk (connection w) max_read_size io.file_id io.offset (length b) multi credit
          chunk in
      let (w', k, answer, exchanged, received, pos, short, inside, ready', kept) =
        serves.answers_read w io.file_id io.offset n r m ready built reserved enough
          (some_ room serves.sized.0) (omega arith) in
      let counted : length (take k (drop io.offset (content w))) ≡ k =
        omega
          (arith, length-take k (drop io.offset (content w)), length-drop io.offset (content w)) in
      (
        w',
        k,
        subst
            (λ j. readinto remote w io b ≡ (
              w',
              record io { offset = io.offset + j },
              ok (take k (drop io.offset (content w)) ++ drop j b, j),
            ))
            counted
            (readinto-answered w io b (leb_gt io.end_of_file io.offset before) plain chunk built
              exchanged received),
        pos,
        omega arith,
        inside,
        ready',
        kept,
      )

  write_bytes-answered :
      (w : World) (io : RawIo) (b : Bytes) {w' : World} {m : Message} {n r k : ℕ} {answer : Bytes}
      → is_pipe io.file_type ≡ false
      → chunk_size (connection w) max_write_size (length b) ≡ some (n, r)
      → write max_write_size (connection w).dialect io.file_id (take n b) io.offset false false
        ≡ ok m
      → exchange w m r ≡ (w', ok answer)
      → write_response answer ≡ ok k
      → write_bytes remote w io b ≡ (
        w',
        record io {
          offset = io.offset + k;
          end_of_file = max io.end_of_file (io.offset + k);
          flush = true;
        },
        ok k,
      )
  unfolding write_bytes RawIo.write_chunk send_request written
  write_bytes-answered w io b plain chunk built exchanged received =
      rw (write_bytes, chunk, built, exchanged, received, plain) refl

  -- A write to an open file of data that is not empty writes a part of it, one byte at least, at the
  -- offset, moves the offset behind it, and keeps the size that the client knows the size of the file.
  pub write_bytes-overwrites :
      (w : World) (io : RawIo) (b : Bytes)
      → IsReady w
      → is_pipe io.file_type ≡ false
      → io.end_of_file ≡ length (content w)
      → 1 ≤ length b
      → (w' : World) × (k : ℕ) × (write_bytes remote w io b ≡ (
        w',
        record io {
          offset = io.offset + k;
          end_of_file = max io.end_of_file (io.offset + k);
          flush = true;
        },
        ok k,
      ))
        × (1 ≤ k)
        × (k ≤ length b)
        × IsReady w'
        × (content w' ≡ overwrite (content w) io.offset (take k b))
        × (max io.end_of_file (io.offset + k) ≡ length (content w'))
  write_bytes-overwrites w io b ready plain eof room =
      let (multi, credit) = serves.credited w ready in
      let (n, r, chunk) = chunk_size-some (connection w) max_write_size (length b) (omega arith) in
      let (within, fits, charged, enough, some_) =
        chunk-bounds (connection w) max_write_size (length b) chunk credit in
      let (m, built, reserved) =
        reserve-write_chunk (connection w) max_write_size io.file_id b io.offset multi credit
          chunk in
      let sized : length (take n b) ≡ n = omega (arith, length-take n b) in
      let pos : 1 ≤ n = some_ room serves.sized.1 in
      let (w', k, answer, exchanged, received, some_written, short, ready', wrote) =
        serves.answers_write w io.file_id (take n b) io.offset r m ready built
          (subst (λ j. Reserves (connection w) j m) (sym sized) reserved)
          (subst (λ j. credits_for j ≤ r) (sym sized) enough) (omega arith) in
      let (wrote', grown) = overwrite_part (content w) b io.offset k n short wrote in
      (
        w',
        k,
        write_bytes-answered w io b plain chunk built exchanged received,
        some_written,
        omega arith,
        ready',
        wrote',
        ap (λ e. max e (io.offset + k)) eof ∙ grown,
      )
