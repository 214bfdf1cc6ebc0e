-- ===== src/Connection/Worker/Delivery.antt =====
-- smbprotocol/connection.py: how a response gets from the receiving thread to the caller of `receive`.
use smbprotocol.Prelude.{◌≡◌, refl, ok, err}
use smbprotocol.Bytes.{Bytes}
use smbprotocol.Structure.Walk.{Structure}
use smbprotocol.Connection.{Connection}
use smbprotocol.Connection.Send.{Call, ◌then_call◌}
use smbprotocol.Connection.Worker
use smbprotocol.Connection.Worker.{find_request}

then_call-eq_ok :
    {A B : Type 0} (m : Call A) (f : Connection → A → Call B) (c' : Connection) (y : B)
    → m then_call f ≡ (c', ok y)
    → (c₁ : Connection) × (x : A) × (m ≡ (c₁, ok x)) × (f c₁ x ≡ (c', ok y))
then_call-eq_ok (c₁, ok x) f c' y e = (c₁, x, refl, e)
then_call-eq_ok (c₁, err x) f c' y e = cc
