-- ===== src/Os/Copy/Chunks.antt =====
-- smbclient/_os.py, `copyfile`: the chunks of a file, and the file that they make.
use smbprotocol.Prelude.{
  ℕ, zero, suc, ◌+◌, ◌-◌, ◌≤◌, ◌<◌, ◌≡◌, refl, sym, ap, ◌∙◌, List, [], ◌∷◌, ◌++◌, true, arith, min,
  ltb, length, take, drop, All, Bool-cases, inl, inr, ◌⊎◌, append-nil, length-take, drop-length,
  take-length, ltb→lt,
}
use native.Mathlib.Nat.{zero-add, suc-add}
use smbprotocol.Bytes.{Bytes}
use smbprotocol.Files.RawIo.Laws.{overwrite}
use smbprotocol.Os.Copy.{CopyChunk, chunk_loop}

-- A chunk of the source, written at its place in the target.
abbrev pub apply_chunk : Bytes → CopyChunk → Bytes → Bytes
apply_chunk source c target =
    overwrite target c.target_offset (take c.length (drop c.source_offset source))

abbrev pub apply_chunks : Bytes → List CopyChunk → Bytes → Bytes
apply_chunks source [] target = target
apply_chunks source (c ∷ chunks) target = apply_chunks source chunks (apply_chunk source c target)

-- What the protocol asks of a chunk: it is not empty nor too large, and it lies in the source.
abbrev pub Fits : ℕ → ℕ → CopyChunk → Type 0
Fits size end_of_file c =
    (1 ≤ c.length) × (c.length ≤ size) × (c.source_offset + c.length ≤ end_of_file)

take-add : (i j : ℕ) (xs : Bytes) → take i xs ++ take j (drop i xs) ≡ take (i + j) xs
take-add zero j xs = rw (zero-add) refl
take-add (suc i) zero [] = rw suc-add refl
take-add (suc i) (suc j) [] = rw suc-add refl
take-add (suc i) j (x ∷ xs) = rw (suc-add) (ap (◌∷◌ x) (take-add i j xs))

overwrite_end :
    (old b : Bytes) (offset : ℕ) → length old ≡ offset → overwrite old offset b ≡ old ++ b
overwrite_end old b offset e =
    let no_gap : offset - length old ≡ 0 = omega arith in
    let short : length old ≤ offset + length b = omega arith in
    rw (no_gap, append-nil, drop-length (offset + length b) old short, append-nil)
      (ap (λ (l : Bytes). l ++ b) (take-length offset old (omega arith)))

-- Past the end a longer part is the same.
take_past :
    (i j : ℕ) (xs : Bytes) → (i ≡ j) ⊎ ((length xs ≤ i) × (length xs ≤ j)) → take i xs ≡ take j xs
take_past i j xs (inl e) = ap (λ (n : ℕ). take n xs) e
take_past i j xs (inr (h, k)) = take-length i xs h ∙ sym (take-length j xs k)

-- The chunks from an offset on complete a target that has the source up to there.
pub apply_chunks-loop :
    (fuel size offset : ℕ) (source : Bytes)
    → 0 < size
    → length source ≤ fuel + offset
    → apply_chunks source (chunk_loop fuel size (length source) offset) (take offset source)
      ≡ source
unfolding chunk_loop
apply_chunks-loop zero size offset source h k = take-length offset source (omega arith)
apply_chunks-loop (suc fuel) size offset source h k =
    elim (Bool-cases (ltb offset (length source))) [
      | inr past ↦ rw past (take-length offset source (ground arith))
      | inl inside ↦ rw inside (
          ap
            (λ (t : Bytes).
              apply_chunks source (chunk_loop fuel size (length source) (offset + size)) t)
            (one_chunk inside)
          ∙ apply_chunks-loop fuel size (offset + size) source h (omega arith))
    ]
  where
    one_chunk :
        ltb offset (length source) ≡ true
        → overwrite
            (take offset source)
            offset
            (take (min size (length source - offset)) (drop offset source))
          ≡ take (offset + size) source
    one_chunk inside =
        overwrite_end (take offset source) _ offset
          (omega (arith, length-take offset source, ltb→lt offset (length source) inside))
        ∙ (take-add offset (min size (length source - offset)) source
            ∙ take_past (offset + min size (length source - offset)) (offset + size) source
                (reaches (ltb→lt offset (length source) inside)))
      where
        reaches :
            offset < length source
            → (offset + min size (length source - offset) ≡ offset + size)
              ⊎ ((length source ≤ offset + min size (length source - offset))
                  × (length source ≤ offset + size))
        reaches lt = elim (Bool-cases (ltb size (length source - offset))) [
          | inl whole ↦ inl (omega (arith, ltb→lt size (length source - offset) whole))
          | inr rest ↦ inr (ground arith, ground arith)
        ]

pub chunk_loop-Fits :
    (fuel size end_of_file offset : ℕ)
    → 0 < size
    → All (Fits size end_of_file) (chunk_loop fuel size end_of_file offset)
unfolding chunk_loop
chunk_loop-Fits zero size end_of_file offset h = tt
chunk_loop-Fits (suc fuel) size end_of_file offset h = elim (Bool-cases (ltb offset end_of_file)) [
  | inr past ↦ rw past tt
  | inl inside ↦
      let lt = ltb→lt offset end_of_file inside in
      rw inside (
        (omega arith, omega arith, omega arith),
        chunk_loop-Fits fuel size end_of_file (offset + size) h,
      )
]

pub apply_chunks-append :
    (source : Bytes) (cs ds : List CopyChunk) (target : Bytes)
    → apply_chunks source (cs ++ ds) target ≡ apply_chunks source ds (apply_chunks source cs target)
apply_chunks-append source [] ds target = refl
apply_chunks-append source (c ∷ cs) ds target =
    apply_chunks-append source cs ds (apply_chunk source c target)
