-- ===== src/Files/RawIo/Refine.antt =====
-- smbclient/_io.py, `SMBRawIO`: reading and writing against the content of the file.
use smbprotocol.Prelude.{
  ℕ, zero, suc, ◌+◌, ◌-◌, ◌≤◌, ◌<◌, ◌≡◌, refl, sym, ap, ap₂, ◌∙◌, subst, [], ◌∷◌, ◌++◌, true, false,
  Option, some, ok, arith, max, leb, length, take, drop, replicate, length-take, length-drop,
  length-replicate, le→leb, Bool-cases, inl, inr, append_assoc, append-nil, drop-length,
  take-append-drop, pos→not_zero, take-append_eq, leb→gt, leb→le,
}
use smbprotocol.Bytes.{Bytes}
use smbprotocol.Files.RawIo.{
  Remote, RawIo, is_pipe, seek, back, seek_cur, write_bytes, readinto, readall, read_length,
  next_round, IoCall,
}
use smbprotocol.Files.RawIo.Laws.{
  Serves, readinto-GivesBytes, write_bytes-overwrites, drop-overwrite, overwrite,
}

drop_nil : (i : ℕ) → drop {A = ℕ} i [] ≡ []
drop_nil zero = refl
drop_nil (suc i) = refl

drop-drop : (i j : ℕ) (xs : Bytes) → drop i (drop j xs) ≡ drop (j + i) xs
drop-drop i zero xs = ap (λ k. drop k xs) (omega arith)
drop-drop i (suc j) [] = drop_nil i ∙ sym (drop_nil (suc j + i))
drop-drop i (suc j) (x ∷ xs) = drop-drop i j xs ∙ ap (λ k. drop k (x ∷ xs)) step
  where
    step : suc (j + i) ≡ suc j + i
    step = omega arith

-- The pieces of a byte string that a read and the reads after it return.
read_pieces :
    (done content buffer : Bytes) (offset k : ℕ)
    → length (take k (drop offset content)) ≡ k
    → (done ++ take k (take k (drop offset content) ++ buffer)) ++ drop (offset + k) content
      ≡ done ++ drop offset content
read_pieces done content buffer offset k e =
    rw
      (
        take-append_eq k (take k (drop offset content)) buffer e,
        append_assoc,
        ← drop-drop k offset content,
        take-append-drop k (drop offset content),
      )
      refl

read_overwritten :
    (old b : Bytes) (offset k : ℕ) {new : Bytes}
    → k ≤ length b
    → new ≡ overwrite old offset (take k b)
    → drop offset new ≡ take k b ++ drop (offset + k) old
read_overwritten old b offset k h e =
    rw (e, drop-overwrite old offset (take k b))
      (ap (λ j. take k b ++ drop (offset + j) old) (omega (arith, length-take k b)))

module _ (remote : Remote) (content : remote.World → Bytes) (IsReady : remote.World → Type 0)
    (serves : Serves remote content IsReady) where
  open remote use {World, connection, max_read_size, max_write_size, exchange}

  -- A file that is open and whose size the client knows.
  abbrev pub IsOpen : World → RawIo → Type 0
  IsOpen w io = IsReady w × (is_pipe io.file_type ≡ false) × (io.end_of_file ≡ length (content w))

  -- What the loop ends with.
  abbrev ReadsOut : ℕ → World → RawIo → Bytes → Type 0
  ReadsOut fuel w io done =
      (w' : World) × (readall remote fuel w io done
        ≡ some (
          w',
          record io { offset = max io.offset io.end_of_file },
          ok (done ++ drop io.offset (content w)),
        ))
      × IsReady w'
      × (content w' ≡ content w)

  readinto_at_end :
      (w : World) (io : RawIo) (b : Bytes)
      → is_pipe io.file_type ≡ false
      → io.end_of_file ≤ io.offset
      → readinto remote w io b ≡ (w, io, ok (b, 0))
  unfolding readinto
  readinto_at_end w io b plain over = rw (le→leb io.end_of_file io.offset over, plain) refl

  readall_last :
      (fuel : ℕ) (w : World) (io : RawIo) (done : Bytes) {w' : World} {io' : RawIo} {buffer : Bytes}
      → readinto remote w io (replicate (read_length remote io) 0) ≡ (w', io', ok (buffer, 0))
      → readall remote (suc fuel) w io done ≡ some (w', io', ok done)
  unfolding readall next_round
  readall_last fuel w io done e = ap (next_round remote (readall remote fuel) done) e

  readall_more :
      (fuel : ℕ) (w : World) (io : RawIo) (done : Bytes) {w' : World} {io' : RawIo} {buffer : Bytes}
      {k : ℕ}
      → readinto remote w io (replicate (read_length remote io) 0) ≡ (w', io', ok (buffer, k))
      → 1 ≤ k
      → readall remote (suc fuel) w io done ≡ readall remote fuel w' io' (done ++ take k buffer)
  unfolding readall next_round
  readall_more fuel w io done {k = k} e pos =
      ap (next_round remote (readall remote fuel) done) e ∙ rw (next_round, pos→not_zero k pos) refl

  read_length-pos : (io : RawIo) → 1 ≤ length (replicate {A = ℕ} (read_length remote io) 0)
  unfolding read_length
  read_length-pos io =
      omega (arith, serves.sized.0, length-replicate {A = ℕ} (read_length remote io) 0)

  same_end :
      (w : World) (io : RawIo) {offset offset' : ℕ} {found found' : Bytes}
      → offset ≡ offset'
      → found ≡ found'
      → ◌≡◌ {A = Option (IoCall remote Bytes)}
          (some (w, record io { offset = offset }, ok found))
          (some (w, record io { offset = offset' }, ok found'))
  same_end w io o f = ap₂ (λ offset found. some (w, record io { offset = offset }, ok found)) o f

  at_end :
      (fuel : ℕ) (w : World) (io : RawIo) (done : Bytes)
      → IsOpen w io
      → io.end_of_file ≤ io.offset
      → ReadsOut (suc fuel) w io done
  at_end fuel w io done (ready, plain, eof) over = (
    w,
    readall_last fuel w io done (readinto_at_end w io _ plain over) ∙ same_end w io stays nothing,
    ready,
    refl,
  )
    where
      stays : io.offset ≡ max io.offset io.end_of_file
      stays = omega arith

      nothing : done ≡ done ++ drop io.offset (content w)
      nothing = rw (drop-length io.offset (content w) (omega arith), append-nil) refl

  further :
      (fuel : ℕ) (w : World) (io : RawIo) (done : Bytes)
      → IsOpen w io
      → io.offset < io.end_of_file
      → ((w' : World) (io' : RawIo) (done' : Bytes)
          → IsOpen w' io'
          → io.offset < io'.offset
          → io'.end_of_file ≡ io.end_of_file
          → ReadsOut fuel w' io' done')
      → ReadsOut (suc fuel) w io done
  further fuel w io done (ready, plain, eof) before again =
      let (w', k, ran, pos, short, inside, ready', kept) =
        readinto-GivesBytes remote content IsReady serves w io _ ready plain eof before
          (read_length-pos io) in
      let unread : Bytes = drop k (replicate (read_length remote io) 0) in
      let done' : Bytes = done ++ take k (take k (drop io.offset (content w)) ++ unread) in
      let ends : max (io.offset + k) io.end_of_file ≡ max io.offset io.end_of_file = omega arith in
      let (w'', rest, ready'', kept') =
        again w' (record io { offset = io.offset + k }) done'
          (ready', plain, eof ∙ ap length (sym kept)) (omega arith) refl in
      let counted : length (take k (drop io.offset (content w))) ≡ k =
        omega
          (arith, length-take k (drop io.offset (content w)), length-drop io.offset (content w)) in
      let joined : done' ++ drop (io.offset + k) (content w') ≡ done ++ drop io.offset (content w) =
        ap (λ c. done' ++ drop (io.offset + k) c) kept
        ∙ read_pieces done (content w) unread io.offset k counted in
      (
        w'',
        readall_more fuel w io done ran pos ∙ (rest ∙ same_end w'' io ends joined),
        ready'',
        kept' ∙ kept,
      )

  readall-ReadsOut :
      (fuel : ℕ) (w : World) (io : RawIo) (done : Bytes)
      → IsOpen w io
      → io.end_of_file - io.offset < fuel
      → ReadsOut fuel w io done
  readall-ReadsOut zero w io done open_ enough = absurd (omega arith)
  readall-ReadsOut (suc fuel) w io done open_ enough =
      elim (Bool-cases (leb io.end_of_file io.offset)) [
        | inl over ↦ at_end fuel w io done open_ (leb→le io.end_of_file io.offset over)
        | inr before ↦
            let h = leb→gt io.end_of_file io.offset before in
            further fuel w io done open_ h (λ w' io' done' open' later same.
              readall-ReadsOut fuel w' io' done' open' (omega arith))
      ]

  -- `readall` of an open file, with one round of fuel for each byte that is left and one more, returns the
  -- bytes of the file from the offset on, whatever the sizes in which the server answers, and leaves the
  -- offset at the end and the file as it was.
  pub readall-reads_rest :
      (fuel : ℕ) (w : World) (io : RawIo)
      → IsOpen w io
      → io.end_of_file - io.offset < fuel
      → (w' : World) × (readall remote fuel w io []
          ≡ some (
            w',
            record io { offset = max io.offset io.end_of_file },
            ok (drop io.offset (content w)),
          ))
        × IsReady w'
        × (content w' ≡ content w)
  readall-reads_rest fuel w io open_ enough = readall-ReadsOut fuel w io [] open_ enough

  seek_back :
      (io : RawIo) (k end_ : ℕ)
      → seek
          (record io { offset = io.offset + k; end_of_file = end_; flush = true })
          (back k)
          seek_cur
        ≡ some (record io { end_of_file = end_; flush = true }, io.offset)
  unfolding seek
  seek_back io k end_ =
      rw (le→leb k (io.offset + k) (omega arith)) (
        ap (λ o. some (record io { offset = o; end_of_file = end_; flush = true }, o))
          (omega arith))

  -- What was written is read back: after a write of data that is not empty, `seek` by what it returned,
  -- backwards from the current position, and `readall` give the part that was written and then what the
  -- file held behind it.
  pub write-seek-readall :
      (w : World) (io : RawIo) (b : Bytes)
      → IsOpen w io
      → 1 ≤ length b
      → (w₁ : World) × (io₁ : RawIo) × (k : ℕ) × (write_bytes remote w io b ≡ (w₁, io₁, ok k))
        × (1 ≤ k)
        × (k ≤ length b)
        × (io₂ : RawIo) × (seek io₁ (back k) seek_cur ≡ some (io₂, io.offset))
        × (w₂ : World) × (io₃ : RawIo) × (readall remote (suc io₂.end_of_file) w₁ io₂ []
            ≡ some (w₂, io₃, ok (take k b ++ drop (io.offset + k) (content w))))
        × (content w₂ ≡ overwrite (content w) io.offset (take k b))
  write-seek-readall w io b (ready, plain, eof) room =
      let (w₁, k, ran, pos, short, ready₁, wrote, eof₁) =
        write_bytes-overwrites remote content IsReady serves w io b ready plain eof room in
      let io₂ : RawIo = record io {
        end_of_file = max io.end_of_file (io.offset + k);
        flush = true;
      } in
      let (w₂, out, ready₂, kept) =
        readall-reads_rest (suc io₂.end_of_file) w₁ io₂ (ready₁, plain, eof₁) (omega arith) in
      let read_back : drop io.offset (content w₁) ≡ take k b ++ drop (io.offset + k) (content w) =
        read_overwritten (content w) b io.offset k short wrote in
      let io₃ : RawIo = record io₂ { offset = max io₂.offset io₂.end_of_file } in
      (
        w₁,
        _,
        k,
        ran,
        pos,
        short,
        io₂,
        seek_back io k io₂.end_of_file,
        w₂,
        io₃,
        subst (λ found. readall remote (suc io₂.end_of_file) w₁ io₂ [] ≡ some (w₂, io₃, ok found))
            read_back out,
        kept ∙ wrote,
      )
