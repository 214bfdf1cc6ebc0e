-- ===== src/Connection/Send/Fits.antt =====
-- smbprotocol/connection.py, `_send`: a message that the credits of the connection pay for.
use smbprotocol.Prelude.{ℕ, ◌+◌, ◌≤◌, ◌≡◌, refl, false, none, ok, arith, ltb, ◌==◌, lt→ltb}
use smbprotocol.Header.{smb2_cancel}
use smbprotocol.Connection.{Connection, Message}
use smbprotocol.Connection.Credits.{calculate_credit_charge}
use smbprotocol.Connection.Build.{or_else}
use smbprotocol.Connection.Send
use smbprotocol.Connection.Send.{reserve}

fits-ltb : (high low charge : ℕ) → low + charge ≤ high → ltb high (low + charge) ≡ false
fits-ltb high low charge h = ground arith

pub reserve-fits :
    (c : Connection) (m : Message) (charge : ℕ)
    → calculate_credit_charge c.supports_multi_credit m ≡ ok charge
    → (m.command == smb2_cancel) ≡ false
    → 1 ≤ charge
    → c.sequence_low + charge ≤ c.sequence_high
    → reserve c none m
      ≡ (record c { sequence_low = c.sequence_low + charge }, ok (charge, c.sequence_low))
unfolding reserve Send.reserve_charged or_else
reserve-fits c m charge e other pos fits =
    rw (reserve, e, fits-ltb c.sequence_high c.sequence_low charge fits, other, lt→ltb 0 charge pos)
      refl
