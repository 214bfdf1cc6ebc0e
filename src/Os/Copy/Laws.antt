-- ===== src/Os/Copy/Laws.antt =====
-- smbclient/_os.py, `copyfile`: the target is the source afterwards.
use smbprotocol.Prelude.{
  ℕ, zero, suc, ◌≤◌, ◌≡◌, refl, sym, ap, ◌∙◌, List, [], ◌∷◌, false, Option, some, ok, arith,
  ==_refl, if◌then◌else◌, length, take, drop, All, Bool-cases, inl, inr, length-take, length-drop,
  take-append-drop,
}
use smbprotocol.Bytes.{Bytes}
use smbprotocol.Files.Modes.{Chars}
use smbprotocol.Dfs.{chars_eq}
use smbprotocol.Dfs.Hints.{chars_eq_refl, chars_eq_sound}
use smbprotocol.Os.Copy.{
  CopyChunk, CopyServer, PathFunctions, max_copy_chunk_size, max_copy_chunk_count, chunk_loop,
  batch_loop, batches, resume_key_of, chunks_written_of, check_written, copy_batches, copy_into,
  copy_with_key, copy_from, after_check, check_paths, copyfile,
}
use smbprotocol.Os.Copy.Chunks.{
  apply_chunks, Fits, apply_chunks-loop, chunk_loop-Fits, apply_chunks-append,
}

-- What is documented of a server with files, of a source and a target. The target may be written, a
-- handle is open on a path and a key is a resume key of the source, in a world; `Keeps` says that nothing
-- of it is lost.
pub record CopiesFiles (server : CopyServer) (content : server.World → Chars → Option Bytes)
    (src dst : Chars) (CanWrite : server.World → Type 0)
    (IsOpen : server.World → server.Handle → Chars → Type 0) (IsKey : server.World → Bytes → Type 0)
    (Keeps : server.World → server.World → Type 0) : Type 0 where
  pub keeps_write : (w w' : server.World) → Keeps w w' → CanWrite w → CanWrite w'
  pub keeps_open :
      (w w' : server.World) (h : server.Handle) (p : Chars)
      → Keeps w w'
      → IsOpen w h p
      → IsOpen w' h p
  pub keeps_key : (w w' : server.World) (k : Bytes) → Keeps w w' → IsKey w k → IsKey w' k
  pub opens_source :
      (w : server.World) {found : Bytes}
      → content w src ≡ some found
      → (w' : server.World) × (h : server.Handle) × (server.open_read w src
          ≡ (w', ok (h, length found)))
        × IsOpen w' h src
        × Keeps w w'
        × ((q : Chars) → content w' q ≡ content w q)
  pub gives_key :
      (w : server.World) (h : server.Handle)
      → IsOpen w h src
      → (w' : server.World) × (answer key : Bytes) × (server.request_resume_key w h
          ≡ (w', ok answer))
        × (resume_key_of answer ≡ ok key)
        × IsKey w' key
        × Keeps w w'
        × ((q : Chars) → content w' q ≡ content w q)
  pub empties_target :
      (w : server.World)
      → CanWrite w
      → (w' : server.World) × (h : server.Handle) × (server.open_write w dst ≡ (w', ok h))
        × IsOpen w' h dst
        × Keeps w w'
        × ((q : Chars) → content w' q ≡ (if chars_eq q dst then some [] else content w q))
  pub copies_chunks :
      (w : server.World) (h : server.Handle) (key source target : Bytes) (chunks : List CopyChunk)
      → IsOpen w h dst
      → IsKey w key
      → content w src ≡ some source
      → content w dst ≡ some target
      → length chunks ≤ max_copy_chunk_count
      → All (Fits max_copy_chunk_size (length source)) chunks
      → (w' : server.World) × (answer : Bytes) × (server.copychunk_write w h key chunks
          ≡ (w', ok answer))
        × (chunks_written_of answer ≡ ok (length chunks))
        × Keeps w w'
        × ((q : Chars)
            → content w' q
              ≡ (if chars_eq q dst then some (apply_chunks source chunks target) else content w q))
  pub closes :
      (w : server.World) (h : server.Handle) (q : Chars)
      → content (server.close w h) q ≡ content w q

All-take {ℓ κ} : {A : Type ℓ} (P : A → Type κ) (n : ℕ) (xs : List A) → All P xs → All P (take n xs)
All-take P zero xs h = tt
All-take P (suc n) [] h = tt
All-take P (suc n) (x ∷ xs) (p, h) = (p, All-take P n xs h)

All-drop {ℓ κ} : {A : Type ℓ} (P : A → Type κ) (n : ℕ) (xs : List A) → All P xs → All P (drop n xs)
All-drop P zero xs h = h
All-drop P (suc n) [] h = tt
All-drop P (suc n) (x ∷ xs) (p, h) = All-drop P n xs h

module _ (paths : PathFunctions) (server : CopyServer) (src dst : Chars)
    (content : server.World → Chars → Option Bytes) (CanWrite : server.World → Type 0)
    (IsOpen : server.World → server.Handle → Chars → Type 0) (IsKey : server.World → Bytes → Type 0)
    (Keeps : server.World → server.World → Type 0)
    (copies : CopiesFiles server content
      (paths.normpath src)
      (paths.normpath dst)
      CanWrite
      IsOpen
      IsKey
      Keeps) where
  open server use {World, Handle, open_read, open_write, request_resume_key, copychunk_write, close}
  open paths use {normpath}

  abbrev from : Chars
  from = normpath src

  abbrev to : Chars
  to = normpath dst

  batch_step :
      (h : Handle) (key : Bytes) (batch : List CopyChunk) (rest : List (List CopyChunk))
      (w w' : World) (answer : Bytes)
      → copychunk_write w h key batch ≡ (w', ok answer)
      → chunks_written_of answer ≡ ok (length batch)
      → copy_batches paths server h key (batch ∷ rest) w ≡ copy_batches paths server h key rest w'
  unfolding copy_batches check_written
  batch_step h key batch rest w w' answer asked all =
      rw asked (rw all (rw (==_refl (length batch)) refl))

  unchanged :
      (w : World) (dst q : Chars) {target : Bytes}
      → content w dst ≡ some target
      → content w q ≡ (if chars_eq q dst then some target else content w q)
  unchanged w dst q t = elim (Bool-cases (chars_eq q dst)) [
    | inl same ↦ rw same (rw (chars_eq_sound q dst same) t)
    | inr other ↦ rw other refl
  ]

  batches_copied :
      (fuel count : ℕ) (h : Handle) (key source target : Bytes) (chunks : List CopyChunk)
      (w : World)
      → 1 ≤ count
      → count ≤ max_copy_chunk_count
      → length chunks ≤ fuel
      → All (Fits max_copy_chunk_size (length source)) chunks
      → IsOpen w h to
      → IsKey w key
      → chars_eq from to ≡ false
      → content w from ≡ some source
      → content w to ≡ some target
      → (w' : World) × (copy_batches paths server h key (batch_loop fuel count chunks) w
          ≡ (w', ok tt))
        × ((q : Chars)
            → content w' q
              ≡ (if chars_eq q to then some (apply_chunks source chunks target) else content w q))
  unfolding batch_loop copy_batches
  batches_copied zero count h key source target [] w lo hi f fits o k differ s t =
      (w, refl, λ q. unchanged w to q t)
  batches_copied zero count h key source target (c ∷ chunks) w lo hi f fits o k differ s t =
      absurd (omega arith)
  batches_copied (suc fuel) count h key source target [] w lo hi f fits o k differ s t =
      (w, refl, λ q. unchanged w to q t)
  batches_copied (suc fuel) count h key source target (c ∷ chunks) w lo hi f fits o k differ s t =
      let batch = take count (c ∷ chunks) in
      let left = drop count (c ∷ chunks) in
      let a =
        copies.copies_chunks w h key source target batch o k s t
          (omega (arith, length-take count (c ∷ chunks))) (All-take _ count (c ∷ chunks) fits) in
      let rest =
        batches_copied fuel count h key source (apply_chunks source batch target) left a.0 lo hi
          (omega (arith, length-drop count (c ∷ chunks))) (All-drop _ count (c ∷ chunks) fits)
          (copies.keeps_open w a.0 h to a.4 o) (copies.keeps_key w a.0 key a.4 k) differ
          (a.5 from ∙ rw differ s) (a.5 to ∙ rw (chars_eq_refl to) refl) in
      (
        rest.0,
        batch_step h key batch (batch_loop fuel count left) w a.0 a.1 a.2 a.3 ∙ rest.1,
        λ q. rest.2 q ∙ joined q a.0 a.5,
      )
    where
      joined :
          (q : Chars) (w' : World)
          → ((r : Chars)
              → content w' r ≡ (
                  if chars_eq r to
                  then some (apply_chunks source (take count (c ∷ chunks)) target)
                  else content w r))
          → (if chars_eq q to
              then some (
                  apply_chunks source
                    (drop count (c ∷ chunks))
                    (apply_chunks source (take count (c ∷ chunks)) target))
              else content w' q)
            ≡ (if chars_eq q to
                then some (apply_chunks source (c ∷ chunks) target)
                else content w q)
      joined q w' now = elim (Bool-cases (chars_eq q to)) [
        | inl same ↦ rw same (
            ap some (
              sym (
                apply_chunks-append source (take count (c ∷ chunks)) (drop count (c ∷ chunks))
                  target)
              ∙ ap (λ (l : List CopyChunk). apply_chunks source l target)
                  (take-append-drop count (c ∷ chunks))))
        | inr other ↦ rw other (now q ∙ rw other refl)
      ]

  copyfile_runs :
      (w w₁ w₂ w₃ w₄ : World) (src_fd dst_fd : Handle) (end_of_file : ℕ) (answer key : Bytes)
      → check_paths paths from to ≡ ok tt
      → open_read w from ≡ (w₁, ok (src_fd, end_of_file))
      → request_resume_key w₁ src_fd ≡ (w₂, ok answer)
      → resume_key_of answer ≡ ok key
      → open_write w₂ to ≡ (w₃, ok dst_fd)
      → copy_batches paths server dst_fd key (batches end_of_file) w₃ ≡ (w₄, ok tt)
      → copyfile paths server w src dst ≡ (close (close w₄ dst_fd) src_fd, ok tt)
  unfolding copyfile after_check copy_from copy_with_key copy_into
  copyfile_runs w w₁ w₂ w₃ w₄ src_fd dst_fd end_of_file answer key c o r k t b =
      rw c (rw o (rw r (rw k (rw t (rw b refl)))))

  -- A file is copied to another path of the same host, that may be written, in as many chunks and batches
  -- as it takes: the call returns, the target has the content of the source afterwards, and the content of
  -- every other path is as it was.
  pub copyfile-copies :
      (w : World) {found : Bytes}
      → check_paths paths from to ≡ ok tt
      → chars_eq from to ≡ false
      → content w from ≡ some found
      → CanWrite w
      → (w' : World) × (copyfile paths server w src dst ≡ (w', ok tt))
        × ((q : Chars) → content w' q ≡ (if chars_eq q to then some found else content w q))
  unfolding batches
  copyfile-copies w {found} checked differ s may =
      let chunks = chunk_loop (length found) max_copy_chunk_size (length found) 0 in
      let a = copies.opens_source w s in
      let b = copies.gives_key a.0 a.1 a.3 in
      let t =
        copies.empties_target b.0
          (copies.keeps_write a.0 b.0 b.6 (copies.keeps_write w a.0 a.4 may)) in
      let d =
        batches_copied (length chunks) max_copy_chunk_count t.1 b.2 found [] chunks t.0
          (omega arith) (omega arith) (omega arith)
          (chunk_loop-Fits (length found) max_copy_chunk_size (length found) 0 (omega arith)) t.3
          (copies.keeps_key b.0 t.0 b.2 t.4 b.5) differ
          (t.5 from ∙ rw differ (b.7 from ∙ (a.5 from ∙ s)))
          (t.5 to ∙ rw (chars_eq_refl to) refl) in
      (
        close (close d.0 t.1) a.1,
        copyfile_runs w a.0 b.0 t.0 d.0 a.1 t.1 (length found) b.1 b.2 checked a.2 b.3 b.4 t.2 d.1,
        λ q.
            copies.closes (close d.0 t.1) a.1 q
            ∙ (copies.closes d.0 t.1 q ∙ (d.2 q ∙ whole q b.0 t.0 (λ r. b.7 r ∙ a.5 r) t.5)),
      )
    where
      whole :
          (q : Chars) (w₂ w₃ : World)
          → ((r : Chars) → content w₂ r ≡ content w r)
          → ((r : Chars) → content w₃ r ≡ (if chars_eq r to then some [] else content w₂ r))
          → (if chars_eq q to
              then some (
                  apply_chunks found
                    (chunk_loop (length found) max_copy_chunk_size (length found) 0)
                    [])
              else content w₃ q)
            ≡ (if chars_eq q to then some found else content w q)
      whole q w₂ w₃ before now = elim (Bool-cases (chars_eq q to)) [
        | inl same ↦ rw same (
            ap some (
              apply_chunks-loop (length found) max_copy_chunk_size 0 found (omega arith)
                (omega arith)))
        | inr other ↦ rw other (now q ∙ rw other (before q))
      ]
