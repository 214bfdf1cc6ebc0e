-- ===== src/Connection/Receive/Laws.antt =====
-- smbprotocol/connection.py, `receive`: what it returns.
use smbprotocol.Prelude.{
  ℕ, ◌≡◌, refl, Bool, true, false, Option, none, some, ok, lookup, put, remove, lookup-removed,
  Bool-cases, inl, inr, ◌==◌, ◌||◌, ◌&&◌, if◌then◌else◌,
}
use smbprotocol.Structure.Walk.{Structure}
use smbprotocol.Header.{status_success, status_pending, status_stopped_on_symlink}
use smbprotocol.Connection.{Connection, Request}
use smbprotocol.Connection.Signature.{int_of}
use smbprotocol.Connection.Send.{check_worker_running}
use smbprotocol.Connection.Sound.{
  IsSound, Post, Any, next, Post-state, Post-pure, remembered-IsSound,
}
use smbprotocol.Connection.Send.Window.{check_worker_running-IsSound}
use smbprotocol.Connection.Worker.{find_request}
use smbprotocol.Connection.Receive
use smbprotocol.Connection.Receive.{
  Received, waits, resolves, returned, with_request, receive_woken,
}

-- A connection on which sending and receiving go on.
abbrev pub IsRunning : Connection → Type 0
IsRunning c = (c.worker_exception ≡ none) × (c.transport_connected ≡ true)

check_worker_running_lem : (c : Connection) → IsRunning c → check_worker_running c ≡ (c, ok tt)
unfolding check_worker_running
check_worker_running_lem c (running, up) = simp (check_worker_running, running, up) refl

pub find_request_lem :
    (c : Connection) (id : ℕ) (r : Request)
    → lookup id c.outstanding_requests ≡ some r
    → find_request c id ≡ ok r
unfolding find_request
find_request_lem c id r e = rw (find_request, e) refl

status_of_lem :
    (r : Request) (h : Structure) (status : ℕ)
    → r.response ≡ some h
    → int_of h "status" ≡ ok status
    → Receive.status_of r ≡ ok (h, status)
unfolding Receive.status_of
status_of_lem r h status e s = rw (Receive.status_of, e, s) refl

-- A response of success is returned, and its request leaves the table.
pub receive_woken-success :
    (c : Connection) (id : ℕ) (r : Request) (h : Structure) (wait resolve_symlinks : Bool)
    → IsRunning c
    → r.response ≡ some h
    → int_of h "status" ≡ ok status_success
    → receive_woken c id r wait resolve_symlinks
      ≡ (record c { outstanding_requests = remove id c.outstanding_requests }, ok (returned h))
unfolding receive_woken Receive.finish
receive_woken-success c id r h wait resolve_symlinks running response success =
    rw (check_worker_running_lem c running, status_of_lem r h status_success response success) refl

finish-IsSound :
    (c : Connection) (id : ℕ) (x : Structure × ℕ)
    → IsSound c
    → Post IsSound (Any {A = Received}) (Receive.finish c id x)
unfolding Receive.finish
finish-IsSound c id (h, status) s =
    let popped : IsSound (record c { outstanding_requests = remove id c.outstanding_requests }) =
      record {
        within = s.within;
        below = λ i r e. s.below i r (lookup-removed id i c.outstanding_requests r e);
      } in
    elim (Bool-cases (status == status_success || status == status_pending)) [
      | inl fine ↦ simp fine (popped, tt)
      | inr bad ↦ simp bad popped
    ]

with_request-IsSound :
    (c : Connection) (id : ℕ) (r : Request)
    → IsSound c
    → IsSound (record c { outstanding_requests = with_request id r c.outstanding_requests })
with_request-IsSound c id r s = go (lookup id c.outstanding_requests) refl
  where
    go :
        (o : Option Request)
        → lookup id c.outstanding_requests ≡ o
        → IsSound (record c {
          outstanding_requests = elim o [
            | none ↦ c.outstanding_requests
            | some _ ↦ put id r c.outstanding_requests
          ];
        })
    go none e = record { within = s.within; below = s.below }
    go (some q) e = remembered-IsSound c id r s (s.below id q e)

chosen-IsSound :
    (c : Connection) (id : ℕ) (r : Request) (waiting resolving : Bool) (x : Structure × ℕ)
    → IsSound c
    → Post IsSound (Any {A = Received}) (
        if waiting
        then (
          record c {
            outstanding_requests =
                with_request id (record r { response_event = false }) c.outstanding_requests;
          },
          ok (waits (record r { response_event = false })),
        )
        else if resolving
        then (c, ok resolves)
        else Receive.finish c id x)
chosen-IsSound c id r true resolving x s = (with_request-IsSound c id _ s, tt)
chosen-IsSound c id r false true x s = (s, tt)
chosen-IsSound c id r false false x s = finish-IsSound c id x s

-- Taking a response keeps the invariant.
pub receive_woken-IsSound :
    (c : Connection) (id : ℕ) (r : Request) (wait resolve_symlinks : Bool)
    → IsSound c
    → IsSound (receive_woken c id r wait resolve_symlinks).0
unfolding receive_woken
receive_woken-IsSound c id r wait resolve_symlinks s = Post-state _ (
    next (Any {A = Unit {0}}) _ _ (check_worker_running-IsSound c s) λ c₁ u s₁ _.
      next (Any {A = Structure × ℕ}) _ _
        (Post-pure IsSound (Any {A = Structure × ℕ}) c₁ (Receive.status_of r) s₁ (λ x. tt))
        λ c₃ x s₃ h₃.
          chosen-IsSound c₃ id r (x.1 == status_pending && wait)
            (x.1 == status_stopped_on_symlink && resolve_symlinks) x s₃)
