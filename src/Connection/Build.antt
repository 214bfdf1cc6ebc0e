-- ===== src/Connection/Build.antt =====
-- smbprotocol/connection.py, `_send`: the header of one message.
use smbprotocol.Prelude.{
  arith, ok-injective, ap, sym, ◌∙◌, ◌≡◌, ◌<◌, ℕ, ◌+◌, ◌-◌, ◌%◌, Bool, true, false, not, ◌&&◌,
  Option, none, some, Result, ok, err, ◌>>=◌, value_error, type_error, ◌==◌, if◌then◌else◌,
  replicate, bit_or, String,
}
use smbprotocol.Bytes.{Bytes}
use smbprotocol.Structure.{num, bytes, Stored, concrete, Kind, flag_field, member}
use smbprotocol.Structure.Walk.{Structure, get_field, set_item, pack, len}
use smbprotocol.Header.{
  smb2_header_request, smb2_header_async, smb2_flags_async_command, smb2_flags_dfs_operations,
  smb2_flags_related_operations,
}
use smbprotocol.Connection.{Message}

-- `a or b` on an optional int.
unfoldable pub or_else : Option ℕ → ℕ → ℕ
or_else none d = d
or_else (some n) d = if n == 0 then d else n

with_flag : Kind → Stored → ℕ → Result ℕ
with_flag (flag_field flag_type strict) (concrete (num v)) flag =
    if not (member flag flag_type) && strict then err value_error else ok (bit_or v flag)
with_flag _ _ flag = err type_error

-- `s[key].set_flag(flag)`
unfoldable pub set_flag : Structure → String → ℕ → Result Structure
unfolding get_field with_flag set_item
set_flag s key flag = do
  f ← get_field s key
  v ← with_flag f.kind f.value flag
  set_item s key (num v)

unfoldable pub set_flag_if : Bool → Structure → ℕ → Result Structure
unfolding set_flag
set_flag_if true s flag = set_flag s "flags" flag
set_flag_if false s flag = ok s

-- The arguments of `_send` but the messages.
pub record SendArgs : Type 0 where
  pub session_id : Option ℕ
  pub tree_id : Option ℕ
  pub message_id : Option ℕ
  pub credit_request : Option ℕ
  pub related : Bool
  pub async_id : Option Bytes
  pub force_signature : Bool

-- The header before the numbers are set: with a tree id, or with an async id.
start_header : Option Bytes → Option ℕ → Result Structure
unfolding smb2_header_request smb2_header_async set_flag or_else
start_header none tree_id = set_item smb2_header_request "tree_id" (num (or_else tree_id 0))
start_header (some async_id) tree_id = do
  h ← set_flag smb2_header_async "flags" smb2_flags_async_command
  set_item h "async_id" (bytes async_id)

-- The ids of a related message that is not the first one.
relate : Bool → Structure → Result Structure
unfolding set_flag
relate true h = do
  h₁ ← set_item h "session_id" (bytes (replicate 8 0xff))
  h₂ ← set_item h₁ "tree_id" (bytes (replicate 4 0xff))
  set_flag h₂ "flags" smb2_flags_related_operations
relate false h = ok h

-- The header up to the signature.
unfoldable pub build_header : SendArgs → ℕ → ℕ → ℕ → Bool → Bool → Message → Result Structure
unfolding start_header relate set_flag_if or_else set_item pack
build_header args charge current_id next_command is_dfs follows m = do
  h₀ ← start_header args.async_id args.tree_id
  h₁ ← set_item h₀ "credit_charge" (num charge)
  h₂ ← set_item h₁ "command" (num m.command)
  h₃ ← set_item h₂ "credit_request" (num (or_else args.credit_request charge))
  h₄ ← set_item h₃ "message_id" (num current_id)
  h₅ ← set_item h₄ "session_id" (num (or_else args.session_id 0))
  payload ← pack m.fields
  h₆ ← set_item h₅ "data" (bytes payload)
  h₇ ← set_item h₆ "next_command" (num next_command)
  h₈ ← set_flag_if is_dfs h₇ smb2_flags_dfs_operations
  relate (follows && args.related) h₈

-- The zeros that take a message of `size` bytes to the next multiple of 8.
unfoldable pub padding_length : ℕ → ℕ
padding_length size = if size % 8 == 0 then 0 else 8 - size % 8

-- `next_command` and the padding: none for the last message of the packet.
unfoldable pub next_and_padding : Bool → Message → Result (ℕ × ℕ)
unfolding len padding_length
next_and_padding true m = ok (0, 0)
next_and_padding false m = do
  n ← len m.fields
  ok (64 + n + padding_length (64 + n), padding_length (64 + n))

padding_length_lem : (size : ℕ) → ((size + padding_length size) % 8 ≡ 0) × (padding_length size < 8)
unfolding padding_length
padding_length_lem size = (ground arith, ground arith)

-- In a compound, a message that is not the last one is padded with less than 8 bytes to a multiple of 8,
-- and `next_command` is the length of its header of 64 bytes, its fields and the padding.
pub next_and_padding-aligned :
    (m : Message) {size next padding : ℕ}
    → len m.fields ≡ ok size
    → next_and_padding false m ≡ ok (next, padding)
    → (next % 8 ≡ 0) × (padding < 8) × (next ≡ 64 + size + padding)
unfolding next_and_padding
next_and_padding-aligned m {size} {next} {padding} e h =
    let same : (64 + size + padding_length (64 + size), padding_length (64 + size))
        ≡ (next, padding) =
      ok-injective (rw e at h) in
    let sum : 64 + size + padding_length (64 + size) ≡ next = ap (λ (x : ℕ × ℕ). x.0) same in
    let pad : padding_length (64 + size) ≡ padding = ap (λ (x : ℕ × ℕ). x.1) same in
    let (aligned, small) = padding_length_lem (64 + size) in
    (rw sum at aligned, rw pad at small, sym sum ∙ ap (λ (p : ℕ). 64 + size + p) pad)
