-- ===== src/Connection/Receive.antt =====
-- smbprotocol/connection.py, `receive`, from where the event of the request is set. A symbolic link on the
-- path is resolved by the code of `open` and of `exceptions`, which is left to the caller.
pub mod Laws
use smbprotocol.Prelude.{
  ℕ, List, [], ◌∷◌, ◌++◌, Bool, true, false, not, ◌&&◌, ◌||◌, Option, none, some, Error, Result, ok,
  err, ◌>>=◌, key_error, type_error, smb_response_exception, ◌==◌, if◌then◌else◌, Dict, lookup, put,
  remove, lookup-put, lookup-remove, ◌≡◌, refl, Bool-cases, inl, inr, ◌<◌, sym, ap, ◌∙◌,
}
use smbprotocol.Bytes.{Bytes}
use smbprotocol.Structure.Walk.{Structure}
use smbprotocol.Header.{status_success, status_pending, status_stopped_on_symlink}
use smbprotocol.Connection.{Connection, Message, Request}
use smbprotocol.Connection.Signature.{int_of}
use smbprotocol.Connection.Send.{Call, ◌then_call◌, check_worker_running}
use smbprotocol.Connection.Worker.{find_request}

-- What the wait for a response leads to: to wait again, with the request as it is then, to follow a link,
-- or the response.
pub data Received : Type 0 where
  waits : Request → Received
  resolves : Received
  returned : Structure → Received

-- `response["status"].get_value()`
status_of : Request → Result (Structure × ℕ)
unfolding int_of
status_of r = elim r.response [
  | none ↦ err type_error
  | some h ↦ do status ← int_of h "status"; ok (h, status)
]

-- The request leaves the table, and the status says whether the response is returned or raised.
finish : Connection → ℕ → Structure × ℕ → Call Received
finish c id (h, status) =
    let popped : Connection = record c {
      outstanding_requests = remove id c.outstanding_requests;
    } in
    if status == status_success || status == status_pending
    then (popped, ok (returned h))
    else (popped, err (smb_response_exception status))

-- The table after a change of the request object, which it holds unless the request was taken out.
abbrev pub with_request : ℕ → Request → Dict Request → Dict Request
with_request id r requests = elim (lookup id requests) [
  | none ↦ requests
  | some _ ↦ put id r requests
]

-- One round of the loop for the request object `r` with this message id, whose event is set. It may have
-- left the table.
unfoldable pub receive_woken : Connection → ℕ → Request → Bool → Bool → Call Received
unfolding check_worker_running status_of finish
receive_woken c id r wait resolve_symlinks = check_worker_running c then_call λ c₁ _.
    (c₁, status_of r) then_call λ c₃ x.
    if x.1 == status_pending && wait
    then (
      record c₃ {
        outstanding_requests =
            with_request id (record r { response_event = false }) c₃.outstanding_requests;
      },
      ok (waits (record r { response_event = false })),
    )
    else if x.1 == status_stopped_on_symlink && resolve_symlinks
    then (c₃, ok resolves)
    else finish c₃ id x
