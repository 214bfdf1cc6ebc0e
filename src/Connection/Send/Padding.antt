-- ===== src/Connection/Send/Padding.antt =====
-- smbprotocol/connection.py, `_send`: the padding of a message in a compound.
use smbprotocol.Prelude.{ℕ, ◌+◌, ◌≡◌, ◌++◌, length, replicate}
use smbprotocol.Bytes.{Bytes}
use smbprotocol.Structure.Walk.{Structure}
use smbprotocol.Connection.{Connection}
use smbprotocol.Connection.Send

-- A message of `size` bytes after its header, and the padding.
abbrev Padded : ℕ → ℕ → Bytes → Type 0
Padded size padding b = (d : Bytes) × (length d ≡ 64 + size) × (b ≡ d ++ replicate padding 0)
