-- ===== src/Files/Chunks.antt =====
-- smbclient/_io.py, `_chunk_size`: how much one read or write takes, and how many credits it asks for.
pub mod Laws
use smbprotocol.Prelude.{ℕ, ◌+◌, ◌-◌, ◌*◌, ◌/◌, Option, none, some, min, if◌then◌else◌, ltb}
use smbprotocol.Connection.{Connection}
use smbprotocol.Connection.Credits.{max_payload_size}

-- `(max(0, size - 1) // MAX_PAYLOAD_SIZE) + 1`
abbrev pub credits_for : ℕ → ℕ
credits_for size = (size - 1) / max_payload_size + 1

-- The credits of the window.
abbrev pub available_credits : Connection → ℕ
available_credits c = c.sequence_high - c.sequence_low

-- `_chunk_size`; `max_size` is `connection.max_read_size` or its kin. A window that is overdrawn gives
-- `none`: the size is negative there.
unfoldable pub chunk_size : Connection → ℕ → ℕ → Option (ℕ × ℕ)
chunk_size c max_size length =
    if ltb c.sequence_high c.sequence_low
    then none
    else let chunk = min length (min max_size (available_credits c * max_payload_size)) in
      let remaining_length = min (length - chunk) max_size in
      let consumed_credits = credits_for chunk in
      let desired_credits = credits_for remaining_length - available_credits c - consumed_credits in
      some (chunk, consumed_credits + desired_credits)
