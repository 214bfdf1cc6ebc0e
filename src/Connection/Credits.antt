-- ===== src/Connection/Credits.antt =====
-- smbprotocol/connection.py, `_calculate_credit_charge`.
use smbprotocol.Prelude.{
  ℕ, ◌+◌, ◌-◌, ◌*◌, ◌/◌, ◌≤◌, ◌≡◌, refl, sym, Bool, true, false, not, ◌||◌, Result, ok, err, ◌>>=◌,
  arith, max, ◌==◌, if◌then◌else◌, ok-injective, inl, inr, String, ◌↔◌, ◌⊎◌,
}
use smbprotocol.Structure.{packed_size}
use smbprotocol.Structure.Build.{as_int}
use smbprotocol.Structure.Walk.{Structure, get_field, get_value, view_of}
use smbprotocol.Header.{smb2_read, smb2_write, smb2_ioctl, smb2_query_directory, smb2_cancel}
use smbprotocol.Connection.{Message}

abbrev pub max_payload_size : ℕ
max_payload_size = 65536

-- `message[key].get_value()` as an int and `len(message[key])`.
int_value : Structure → String → Result ℕ
unfolding get_value
int_value s key = get_value s key >>= as_int

field_length : Structure → String → Result ℕ
unfolding get_field packed_size view_of
field_length s key = get_field s key >>= λ f. packed_size f (view_of s)

-- The `payload_size` of the branches on the command.
unfoldable pub payload_size : Message → Result ℕ
unfolding int_value field_length
payload_size m =
    if m.command == smb2_read
    then (do
      n ← int_value m.fields "length"
      k ← int_value m.fields "read_channel_info_length"
      ok (n + k))
    else if m.command == smb2_write
    then (do
      n ← int_value m.fields "length"
      k ← int_value m.fields "write_channel_info_length"
      ok (n + k))
    else if m.command == smb2_ioctl
    then (do
      n ← field_length m.fields "buffer"
      k ← int_value m.fields "max_output_response"
      ok (max n k))
    else if m.command == smb2_query_directory
    then (do
      n ← field_length m.fields "buffer"
      k ← int_value m.fields "output_buffer_length"
      ok (max n k))
    else ok 1

-- `_calculate_credit_charge`; `max(0, payload_size - 1)` is the truncated subtraction.
unfoldable pub calculate_credit_charge : Bool → Message → Result ℕ
calculate_credit_charge supports_multi_credit m =
    if not supports_multi_credit || m.command == smb2_cancel
    then ok 0
    else do payload ← payload_size m; ok ((payload - 1) / max_payload_size + 1)

-- On a connection with credits every message but a cancel is charged the least number of 64 KiB units,
-- one at least, that hold its payload.
pub calculate_credit_charge_least :
    (m : Message) {payload charge : ℕ}
    → (m.command == smb2_cancel) ≡ false
    → payload_size m ≡ ok payload
    → calculate_credit_charge true m ≡ ok charge
    → (1 ≤ charge)
      × (payload ≤ charge * max_payload_size)
      × ((units : ℕ) → 1 ≤ units → payload ≤ units * max_payload_size → charge ≤ units)
unfolding calculate_credit_charge
calculate_credit_charge_least m {payload} {charge} e p h =
    let c : (payload - 1) / max_payload_size + 1 ≡ charge = ok-injective (rw (e, p) at h) in
    (omega arith, omega arith, λ units h₁ h₂. omega arith)

-- A charge is 0 exactly if the message is a cancel or the connection has no credits.
pub calculate_credit_charge_free :
    (multi : Bool) (m : Message) {charge : ℕ}
    → calculate_credit_charge multi m ≡ ok charge
    → (charge ≡ 0) ↔ ((multi ≡ false) ⊎ ((m.command == smb2_cancel) ≡ true))
unfolding calculate_credit_charge
calculate_credit_charge_free multi m {charge} h =
    free (payload_size m) multi (m.command == smb2_cancel) h
  where
    free :
        (p : Result ℕ) (multi cancel : Bool)
        → (if not multi || cancel then ok 0 else (p >>= λ n. ok ((n - 1) / max_payload_size + 1)))
          ≡ ok charge
        → (charge ≡ 0) ↔ ((multi ≡ false) ⊎ (cancel ≡ true))
    free p false cancel h = (λ z. inl refl, λ d. sym (ok-injective h))
    free p true true h = (λ z. inr refl, λ d. sym (ok-injective h))
    free (ok n) true false h = (λ z. absurd (omega (arith, ok-injective h)), λ d. ground arith)
    free (err e) true false h = cc
