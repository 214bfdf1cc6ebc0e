-- ===== src/Files/Runs.antt =====
-- Runs of the file objects against a server that reads and writes one byte at a time: for each result,
-- an input where its conditions hold.
use smbprotocol.Prelude.{
  ℕ, zero, suc, ◌+◌, ◌≤◌, ◌<◌, ◌≡◌, refl, sym, ap, ap₂, ◌∙◌, subst, [], ◌∷◌, ◌++◌, Bool, true,
  false, none, some, Result, ok, err, type_error, value_error, arith, max, length, take, drop,
  get_elem?, All, ◌↔◌, ◌⊎◌,
}
use smbprotocol.Bytes.{Bytes, from_le, struct_unpack}
use smbprotocol.Structure.{
  Value, num, bytes, calculated_value, calculated_size, packed_size, set_value, parse_value,
}
use smbprotocol.Structure.Walk.{get_value, get_field, unpack, unpack_fields, view_of, view}
use smbprotocol.Header.{smb2_read}
use smbprotocol.Connection.{Connection, Message}
use smbprotocol.Connection.Send.{reserve}
use smbprotocol.Connection.Steps.{new_connection}
use smbprotocol.Messages.ReadWrite.{smb2_read_response, smb2_write_response}
use smbprotocol.Messages.Reading.{read, read-offset, read-fits, read-command}
use smbprotocol.Messages.Writing.{write, write-offset_buffer, write-fits, write-command}
use smbprotocol.Files.Chunks.{credits_for, chunk_size}
use smbprotocol.Files.Chunks.Laws.{Reserves, chunk-bounds, reserve-read_chunk}
use smbprotocol.Files.RawIo.{
  Remote, RawIo, read_response, write_response, as_bytes, file, readall, write_bytes, seek, back,
  seek_cur,
}
use smbprotocol.Files.RawIo.Laws.{
  Serves, overwrite, GivesBytes, readinto-GivesBytes, write_bytes-overwrites,
}
use smbprotocol.Files.RawIo.Refine.{readall-reads_rest, write-seek-readall}
use smbprotocol.Files.Modes.{char_r, char_plus, parse_mode}
use smbprotocol.Files.Modes.Laws.{IsModeChar, IsModifier, parse_mode-refuses}
use smbprotocol.Prelude.{◌==◌}

-- The connection and the file of the server.
abbrev TestWorld : Type 0
TestWorld = Connection × Bytes

abbrev after_request : Connection → Message → ℕ → Connection
after_request c m credit_request =
    let after = (reserve c none m).0 in
    record after { sequence_high = after.sequence_high + credit_request }

-- The response with this byte, and with the byte at the offset.
abbrev one_byte : ℕ → Bytes
one_byte x = 17 ∷ 0 ∷ 80 ∷ 0 ∷ 1 ∷ 0 ∷ 0 ∷ 0 ∷ 0 ∷ 0 ∷ 0 ∷ 0 ∷ 0 ∷ 0 ∷ 0 ∷ 0 ∷ x ∷ []

abbrev read_answer : Bytes → Result Value → Result Bytes
read_answer content (ok (num offset)) = elim (get_elem? content offset) [
  | some x ↦ ok (one_byte x)
  | none ↦ err type_error
]
read_answer content _ = err type_error

abbrev write_content : Bytes → Result Value → Result Value → Bytes
write_content content (ok (num offset)) (ok (bytes b)) = overwrite content offset (take 1 b)
write_content content _ _ = content

abbrev write_answer : Bytes
write_answer = 17 ∷ 0 ∷ 0 ∷ 0 ∷ 1 ∷ 0 ∷ 0 ∷ 0 ∷ 0 ∷ 0 ∷ 0 ∷ 0 ∷ 0 ∷ 0 ∷ 0 ∷ 0 ∷ []

abbrev test_respond : Bool → TestWorld → Message → ℕ → TestWorld × Result Bytes
test_respond true w m credit_request =
    ((after_request w.0 m credit_request, w.1), read_answer w.1 (get_value m.fields "offset"))
test_respond false w m credit_request = (
  (
    after_request w.0 m credit_request,
    write_content w.1 (get_value m.fields "offset") (get_value m.fields "buffer"),
  ),
  ok write_answer,
)

abbrev test_exchange : TestWorld → Message → ℕ → TestWorld × Result Bytes
test_exchange w m credit_request = test_respond (m.command == smb2_read) w m credit_request

abbrev test_remote : Remote
test_remote = record {
  World = TestWorld;
  connection = λ w. w.0;
  max_read_size = 65536;
  max_write_size = 65536;
  exchange = test_exchange;
}

abbrev HasCredits : TestWorld → Type 0
HasCredits w = (w.0.supports_multi_credit ≡ true) × (w.0.sequence_low < w.0.sequence_high)

byte_at :
    (content : Bytes) (offset : ℕ)
    → offset < length content
    → (x : ℕ) × (get_elem? content offset ≡ some x) × (take 1 (drop offset content) ≡ (x ∷ []))
byte_at [] offset h = absurd (omega arith)
byte_at (x ∷ content) zero h = (x, refl, refl)
byte_at (x ∷ content) (suc offset) h = byte_at content offset (omega arith)

answer_found :
    (content : Bytes) (offset x : ℕ)
    → get_elem? content offset ≡ some x
    → read_answer content (ok (num offset)) ≡ ok (one_byte x)
answer_found content offset x e = rw (read_answer, e) refl

byte_read : (x : ℕ) → read_response (one_byte x) ≡ ok (x ∷ [])
unfolding read_response unpack unpack_fields smb2_read_response get_value get_field view_of view
    calculated_value calculated_size packed_size set_value parse_value from_le struct_unpack
    as_bytes
byte_read x = refl

byte_written : write_response write_answer ≡ ok 1
unfolding write_response unpack unpack_fields smb2_write_response get_value get_field view_of view
    calculated_value calculated_size packed_size set_value parse_value from_le struct_unpack
byte_written = refl

-- The credits after a request that was granted what it asked for.
after_request-HasCredits :
    (c : Connection) (m : Message) (n credit_request : ℕ)
    → HasCredits (c, [])
    → Reserves c n m
    → credits_for n ≤ credit_request
    → HasCredits (after_request c m credit_request, [])
after_request-HasCredits c m n credit_request (multi, credit) e h =
    subst
      (λ (x : Connection × Result (ℕ × ℕ)).
        HasCredits (record x.0 { sequence_high = x.0.sequence_high + credit_request }, []))
      (sym e) (multi, omega arith)

test_remote-answers_read :
    (w : TestWorld) (file_id : Bytes) (offset n credit_request : ℕ) (m : Message)
    → HasCredits w
    → read 65536 w.0.dialect file_id offset n 0 false ≡ ok m
    → Reserves w.0 n m
    → credits_for n ≤ credit_request
    → 1 ≤ n
    → offset < length w.1
    → (w' : TestWorld) × (k : ℕ) × (answer : Bytes) × (test_exchange w m credit_request
        ≡ (w', ok answer))
      × (read_response answer ≡ ok (take k (drop offset w.1)))
      × (1 ≤ k)
      × (k ≤ n)
      × (offset + k ≤ length w.1)
      × HasCredits w'
      × (w'.1 ≡ w.1)
test_remote-answers_read w file_id offset n credit_request m ready built reserved enough pos
      inside =
    let (x, found, one) = byte_at w.1 offset inside in
    let fits = read-fits 65536 w.0.dialect file_id offset n 0 false built in
    (
      (after_request w.0 m credit_request, w.1),
      1,
      one_byte x,
      ap (λ command. test_respond (command == smb2_read) w m credit_request)
            (read-command 65536 w.0.dialect file_id offset n 0 fits built)
          ∙ ap (λ answer. ((after_request w.0 m credit_request, w.1), answer))
              (ap (read_answer w.1) (read-offset 65536 w.0.dialect file_id offset n 0 fits built)
                ∙ answer_found w.1 offset x found),
      byte_read x ∙ ap ok (sym one),
      omega arith,
      pos,
      omega arith,
      after_request-HasCredits w.0 m n credit_request ready reserved enough,
      refl,
    )

test_remote-answers_write :
    (w : TestWorld) (file_id b : Bytes) (offset credit_request : ℕ) (m : Message)
    → HasCredits w
    → write 65536 w.0.dialect file_id b offset false false ≡ ok m
    → Reserves w.0 (length b) m
    → credits_for (length b) ≤ credit_request
    → 1 ≤ length b
    → (w' : TestWorld) × (k : ℕ) × (answer : Bytes) × (test_exchange w m credit_request
        ≡ (w', ok answer))
      × (write_response answer ≡ ok k)
      × (1 ≤ k)
      × (k ≤ length b)
      × HasCredits w'
      × (w'.1 ≡ overwrite w.1 offset (take k b))
test_remote-answers_write w file_id b offset credit_request m ready built reserved enough pos =
    let fits = write-fits 65536 w.0.dialect file_id b offset false false built in
    let (at_offset, with_buffer) =
      write-offset_buffer 65536 w.0.dialect file_id b offset fits built in
    (
      (after_request w.0 m credit_request, overwrite w.1 offset (take 1 b)),
      1,
      write_answer,
      ap (λ command. test_respond (command == smb2_read) w m credit_request)
            (write-command 65536 w.0.dialect file_id b offset fits built)
          ∙ ap₂
              (λ at_ with_. (
                (after_request w.0 m credit_request, write_content w.1 at_ with_),
                ok write_answer,
              ))
              at_offset with_buffer,
      byte_written,
      omega arith,
      pos,
      after_request-HasCredits w.0 m (length b) credit_request ready reserved enough,
      refl,
    )

test_remote-Serves : Serves test_remote (λ w. w.1) HasCredits
test_remote-Serves = record {
  sized = (omega arith, omega arith);
  credited = λ w ready. ready;
  answers_read = test_remote-answers_read;
  answers_write = test_remote-answers_write;
}

abbrev test_world : TestWorld
test_world = (record new_connection { supports_multi_credit = true }, 5 ∷ 6 ∷ 7 ∷ [])

test_world-HasCredits : HasCredits test_world
test_world-HasCredits = (refl, omega arith)

abbrev test_io : RawIo
test_io = record {
  file_type = file;
  mode = char_r ∷ [];
  file_id = [];
  end_of_file = 3;
  offset = 1;
  flush = false;
}

readinto-GivesBytes_example :
    GivesBytes test_remote (λ w. w.1) HasCredits test_remote-Serves test_world test_io (0 ∷ 0 ∷ [])
readinto-GivesBytes_example =
    readinto-GivesBytes test_remote (λ w. w.1) HasCredits test_remote-Serves test_world test_io
      (0 ∷ 0 ∷ []) test_world-HasCredits refl refl (omega arith) (omega arith)

readall-reads_rest_example :
    (w' : TestWorld) × (readall test_remote 9 test_world test_io []
      ≡ some (w', record test_io { offset = 3 }, ok (6 ∷ 7 ∷ [])))
    × HasCredits w'
    × (w'.1 ≡ (5 ∷ 6 ∷ 7 ∷ []))
readall-reads_rest_example =
    readall-reads_rest test_remote (λ w. w.1) HasCredits test_remote-Serves 9 test_world test_io
      (test_world-HasCredits, refl, refl) (omega arith)

write_bytes-overwrites_example :
    (w' : TestWorld) × (k : ℕ) × (write_bytes test_remote test_world test_io (8 ∷ 9 ∷ [])
      ≡ (w', record test_io { offset = 1 + k; end_of_file = max 3 (1 + k); flush = true }, ok k))
    × (1 ≤ k)
    × (k ≤ 2)
    × HasCredits w'
    × (w'.1 ≡ overwrite (5 ∷ 6 ∷ 7 ∷ []) 1 (take k (8 ∷ 9 ∷ [])))
    × (max 3 (1 + k) ≡ length w'.1)
write_bytes-overwrites_example =
    write_bytes-overwrites test_remote (λ w. w.1) HasCredits test_remote-Serves test_world test_io
      (8 ∷ 9 ∷ []) test_world-HasCredits refl refl (omega arith)

write-seek-readall_example :
    (w₁ : TestWorld) × (io₁ : RawIo) × (k : ℕ) × (write_bytes test_remote test_world test_io
        (8 ∷ 9 ∷ [])
      ≡ (w₁, io₁, ok k))
    × (1 ≤ k)
    × (k ≤ 2)
    × (io₂ : RawIo) × (seek io₁ (back k) seek_cur ≡ some (io₂, 1))
    × (w₂ : TestWorld) × (io₃ : RawIo) × (readall test_remote (suc io₂.end_of_file) w₁ io₂ []
        ≡ some (w₂, io₃, ok (take k (8 ∷ 9 ∷ []) ++ drop (1 + k) (5 ∷ 6 ∷ 7 ∷ []))))
    × (w₂.1 ≡ overwrite (5 ∷ 6 ∷ 7 ∷ []) 1 (take k (8 ∷ 9 ∷ [])))
write-seek-readall_example =
    write-seek-readall test_remote (λ w. w.1) HasCredits test_remote-Serves test_world test_io
      (8 ∷ 9 ∷ []) (test_world-HasCredits, refl, refl) (omega arith)

chunk-bounds_example :
    (3 ≤ 3)
    × (3 ≤ 65536)
    × (0 + credits_for 3 ≤ 1)
    × (credits_for 3 ≤ 1)
    × (1 ≤ 3 → 1 ≤ 65536 → 1 ≤ 3)
unfolding chunk_size
chunk-bounds_example = chunk-bounds test_world.0 65536 3 refl (omega arith)

reserve-read_chunk_example :
    (m : Message) × (read 65536 0 [] 1 3 0 false ≡ ok m) × Reserves test_world.0 3 m
unfolding chunk_size
reserve-read_chunk_example =
    reserve-read_chunk test_world.0 65536 [] 1 3 {r = 1} refl (omega arith) refl

parse_mode-refuses_example :
    (parse_mode (char_plus ∷ []) [] ≡ err value_error)
    ↔ ((All IsModeChar (char_plus ∷ []) → ⊥) ⊎ All IsModifier (char_plus ∷ []))
parse_mode-refuses_example = parse_mode-refuses (char_plus ∷ [])
