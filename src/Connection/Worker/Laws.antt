-- ===== src/Connection/Worker/Laws.antt =====
-- smbprotocol/connection.py, `_process_message_thread`: that the loop over a packet ends, what it does to
-- the connection, and what the thread leaves when it stops.
use smbprotocol.Prelude.{
  ℕ, zero, suc, ◌<◌, ◌≡◌, ◌≢◌, refl, List, [], ◌∷◌, Bool, true, false, ◌&&◌, Option, none, some,
  key_error, Error, Result, ok, err, arith, ◌==◌, length, length-drop, take, drop, lookup,
  lookup-removed, Dict, inl, inr, Bool-cases,
}
use smbprotocol.Bytes.{Bytes, struct_unpack}
use smbprotocol.Header.{smb2_negotiate, smb2_session_setup, status_more_processing_required}
use smbprotocol.Connection.{Connection, Request}
use smbprotocol.Connection.Signature.{Crypto}
use smbprotocol.Connection.Encryption.{Aead}
use smbprotocol.Connection.Send.{Call, check_worker_running}
use smbprotocol.Connection.Sound.{
  IsSound, Post, Any, next, ended, Post-state, Post-pure, remembered-IsSound,
}
use smbprotocol.Connection.Worker
use smbprotocol.Connection.Worker.{
  granted, Fields, process_response, next_command_of, process_packet, receive_packet, set_events,
  stop_worker,
}

length-drop_shorter :
    {A : Type 0} (n : ℕ) (xs : List A)
    → (n == 0) ≡ false
    → 0 < length xs
    → length (drop n xs) < length xs
length-drop_shorter n xs h p = ground (arith, length-drop n xs)

-- A packet whose first response names a next one is not empty.
next_command_of-eq_ok : (b : Bytes) (n : ℕ) → next_command_of b ≡ ok n → 0 < length b
unfolding next_command_of struct_unpack
next_command_of-eq_ok [] n e = cc
next_command_of-eq_ok (x ∷ b) n e = omega arith

module _ (k : Crypto) (a : Aead) where
  -- The fuel that `receive_packet` gives is enough: every round but the last takes bytes off the packet.
  process_packet-total :
      (fuel : ℕ) (c : Connection) (is_encrypted : Bool) (b : Bytes)
      → length b < fuel
      → process_packet k a fuel c is_encrypted b ≢ none
  unfolding process_packet
  process_packet-total zero c is_encrypted b h = absurd (omega arith)
  process_packet-total (suc fuel) c is_encrypted b h =
      go (λ c' b' h'. process_packet-total fuel c' is_encrypted b' h') (next_command_of b) refl
    where
      Shorter : Type 0
      Shorter =
          (c' : Connection) (b' : Bytes)
          → length b' < fuel
          → process_packet k a fuel c' is_encrypted b' ≢ none

      rest :
          Shorter
          → (n : ℕ) (m : Call (Unit {0})) → next_command_of b ≡ ok n
          → (n == 0) ≡ false
          → (let (c', r) = m in
              elim r [
                | err e ↦ some (c', err e)
                | ok _ ↦ process_packet k a fuel c' is_encrypted (drop n b)
              ])
            ≢ none
      rest ih n (c', err x) e z = λ q. cc
      rest ih n (c', ok x) e z =
          ih c' (drop n b) (omega (arith, length-drop_shorter n b z (next_command_of-eq_ok b n e)))

      go :
          Shorter
          → (r : Result ℕ) → next_command_of b ≡ r
          → (elim r [
            | err e ↦ some (c, err e)
            | ok n ↦ elim (n == 0) [
              | true ↦ some (process_response k a c is_encrypted b)
              | false ↦
                  let (c', r) = process_response k a c is_encrypted (take n b) in
                  elim r [
                    | err e ↦ some (c', err e)
                    | ok _ ↦ process_packet k a fuel c' is_encrypted (drop n b)
                  ]
            ]
          ])
            ≢ none
      go ih (err x) e = λ q. cc
      go ih (ok n) e = elim (Bool-cases (n == 0)) [
        | inl z ↦ rw z (λ q. cc)
        | inr z ↦ rw z (rest ih n _ e z)
      ]

  -- Whatever bytes arrive, the fuel that `receive_packet` gives is enough: the loop over the responses
  -- of the packet ends.
  pub receive_packet-total : (c : Connection) (b : Bytes) → receive_packet k a c b ≢ none
  unfolding receive_packet Worker.processed
  receive_packet-total c b = go (Worker.opened k a c b)
    where
      go : (r : Result (Bool × Bytes)) → Worker.processed k a c r ≢ none
      go (err e) = λ q. cc
      go (ok (is_encrypted, d)) =
          process_packet-total (suc (length d)) c is_encrypted d (omega arith)

grant-IsSound : (c : Connection) (n : ℕ) → IsSound c → IsSound (Worker.grant c n)
unfolding Worker.grant
grant-IsSound c n s = record { within = λ multi. omega (arith, s.within multi); below = s.below }

-- Storing the preauth integrity values keeps the invariant and the window.
store_preauth-IsSound :
    (c : Connection) (command status id : ℕ) (b : Bytes)
    → IsSound c
    → IsSound (Worker.store_preauth c command status id b)
      × ((Worker.store_preauth c command status id b).sequence_low ≡ c.sequence_low)
unfolding Worker.store_preauth
store_preauth-IsSound c command status id b s = elim (Bool-cases (command == smb2_negotiate)) [
  | inl negotiate ↦ simp negotiate (record { within = s.within; below = s.below }, refl)
  | inr other ↦
      elim (Bool-cases
        (command == smb2_session_setup && status == status_more_processing_required)) [
          | inl setup ↦ simp (other, setup) (record { within = s.within; below = s.below }, refl)
          | inr neither ↦ simp (other, neither) (s, refl)
        ]
]

answer-IsSound :
    (c : Connection) (f : Fields) (request : Request) (b : Bytes)
    → IsSound c
    → f.message_id < c.sequence_low
    → IsSound (Worker.answer c f request b)
unfolding Worker.answer
answer-IsSound c f request b s h = remembered-IsSound c f.message_id _ s h

accept-IsSound :
    (c : Connection) (f : Fields) (request : Request) (b : Bytes)
    → IsSound c
    → f.message_id < c.sequence_low
    → IsSound (Worker.accept c f request b)
unfolding Worker.accept
accept-IsSound c f request b s h =
    let (stored, stays) =
      store_preauth-IsSound (Worker.grant c f.credit_response) f.command f.status f.message_id b
        (grant-IsSound c f.credit_response s) in
    answer-IsSound _ f request b stored (omega (arith, stays, h))

drop_echo-IsSound :
    (c : Connection) (id reserved : ℕ) → IsSound c → IsSound (Worker.drop_echo c id reserved)
unfolding Worker.drop_echo
drop_echo-IsSound c id reserved s = elim (Bool-cases (reserved == 1)) [
  | inl echo ↦ simp echo (record {
    within = s.within;
    below = λ i r e. s.below i r (lookup-removed id i c.outstanding_requests r e);
  })
  | inr other ↦ simp other s
]

find_request-IsSound :
    (c : Connection) (id : ℕ)
    → IsSound c
    → Post IsSound
        (λ (c' : Connection) (x : Request). id < c'.sequence_low)
        (c, Worker.find_request c id)
unfolding Worker.find_request
find_request-IsSound c id s = go (lookup id c.outstanding_requests) refl
  where
    go :
        (o : Option Request)
        → lookup id c.outstanding_requests ≡ o
        → Post IsSound
            (λ (c' : Connection) (x : Request). id < c'.sequence_low)
            (c, elim o [ none ↦ err key_error | some r ↦ ok r ])
    go none e = s
    go (some r) e = (s, s.below id r e)

-- The invariant, where the fuel was enough.
abbrev IfDone : Option (Call (Unit {0})) → Type 0
IfDone none = Unit {0}
IfDone (some m) = IsSound m.0

module _ (k : Crypto) (a : Aead) where
  process_response-IsSound :
      (c : Connection) (is_encrypted : Bool) (b : Bytes)
      → IsSound c
      → Post IsSound (Any {A = Unit {0}}) (process_response k a c is_encrypted b)
  unfolding process_response
  process_response-IsSound c is_encrypted b s =
      next (Any {A = Fields}) _ _ (Post-pure IsSound Any c (Worker.read_header b) s (λ x. tt))
        λ c₁ f s₁ _.
          next (λ (c' : Connection) (x : Request). f.message_id < c'.sequence_low) _ _
            (find_request-IsSound c₁ f.message_id s₁)
            λ c₂ request s₂ h.
              next (λ (c' : Connection) (x : Unit {0}). f.message_id < c'.sequence_low) _ _
                (Post-pure IsSound
                  (λ (c' : Connection) (x : Unit {0}). f.message_id < c'.sequence_low) c₂
                  (Worker.check_response k a c₂ is_encrypted f request) s₂ (λ x. h))
                λ c₃ u s₃ h₃.
                  next (Any {A = ℕ})
                    (Worker.accept c₃ f request b, Worker.int_of request.message "reserved")
                    (λ c₄ reserved. (Worker.drop_echo c₄ f.message_id reserved, ok tt))
                    (Post-pure IsSound (Any {A = ℕ}) (Worker.accept c₃ f request b)
                      (Worker.int_of request.message "reserved")
                      (accept-IsSound c₃ f request b s₃ h₃) (λ x. tt))
                    λ c₄ reserved s₄ _.
                      ended {A = Unit {0}} _ tt (drop_echo-IsSound c₄ f.message_id reserved s₄)

  process_packet-IsSound :
      (fuel : ℕ) (c : Connection) (is_encrypted : Bool) (b : Bytes)
      → IsSound c
      → IfDone (process_packet k a fuel c is_encrypted b)
  unfolding process_packet
  process_packet-IsSound zero c is_encrypted b s = tt
  process_packet-IsSound (suc fuel) c is_encrypted b s =
      go (λ c' b' s'. process_packet-IsSound fuel c' is_encrypted b' s') (next_command_of b)
    where
      Keeps : Type 0
      Keeps =
          (c' : Connection) (b' : Bytes)
          → IsSound c'
          → IfDone (process_packet k a fuel c' is_encrypted b')

      rest :
          Keeps
          → (n : ℕ) (m : Call (Unit {0})) → Post IsSound (Any {A = Unit {0}}) m
          → IfDone (
              let (c', r) = m in
              elim r [
                | err e ↦ some (c', err e)
                | ok _ ↦ process_packet k a fuel c' is_encrypted (drop n b)
              ])
      rest ih n (c', err x) s' = s'
      rest ih n (c', ok x) (s', _) = ih c' (drop n b) s'

      go :
          Keeps
          → (r : Result ℕ)
          → IfDone (elim r [
            | err e ↦ some (c, err e)
            | ok n ↦ elim (n == 0) [
              | true ↦ some (process_response k a c is_encrypted b)
              | false ↦
                  let (c', r) = process_response k a c is_encrypted (take n b) in
                  elim r [
                    | err e ↦ some (c', err e)
                    | ok _ ↦ process_packet k a fuel c' is_encrypted (drop n b)
                  ]
            ]
          ])
      go ih (err x) = s
      go ih (ok n) = elim (Bool-cases (n == 0)) [
        | inl z ↦ rw z (Post-state _ (process_response-IsSound c is_encrypted b s))
        | inr z ↦ rw z (rest ih n _ (process_response-IsSound c is_encrypted (take n b) s))
      ]

  -- From a connection whose outstanding message ids are below the window and whose window, with
  -- credits, is not overdrawn, the thread gets through a packet of any bytes and leaves such a
  -- connection, with an exception or without.
  pub receive_packet-IsSound :
      (c : Connection) (b : Bytes)
      → IsSound c
      → (m : Call (Unit {0})) × (receive_packet k a c b ≡ some m) × IsSound m.0
  unfolding receive_packet Worker.processed
  receive_packet-IsSound c b s = found (receive_packet k a c b) refl (done (Worker.opened k a c b))
    where
      done : (r : Result (Bool × Bytes)) → IfDone (Worker.processed k a c r)
      done (err e) = s
      done (ok (is_encrypted, d)) = process_packet-IsSound (suc (length d)) c is_encrypted d s

      found :
          (o : Option (Call (Unit {0})))
          → receive_packet k a c b ≡ o
          → IfDone o
          → (m : Call (Unit {0})) × (receive_packet k a c b ≡ some m) × IsSound m.0
      found none e d = absurd (receive_packet-total k a c b e)
      found (some m) e d = (m, e, d)

-- A request that the events were set for was outstanding, and its event is set.
set_events_lem :
    (d : Dict Request) (i : ℕ) (r : Request)
    → lookup i (set_events d) ≡ some r
    → (r.response_event ≡ true) × ((q : Request) × (lookup i d ≡ some q))
unfolding set_events lookup
set_events_lem [] i r e = cc
set_events_lem ((j, q) ∷ d) i r e = elim (Bool-cases (j == i)) [
  | inl same ↦
      let woken : some (record q { response_event = true }) ≡ some r = rw same at e in
      (woken_event q r woken, (q, rw same refl))
  | inr other ↦
      let (event, (old, was)) = set_events_lem d i r (rw other at e) in (event, (old, rw other was))
]
  where
    woken_event :
        (q r : Request)
        → some (record q { response_event = true }) ≡ some r
        → r.response_event ≡ true
    woken_event q r w = cc

-- A request as it was, with its event set.
abbrev pub with_event : Option Request → Option Request
with_event none = none
with_event (some r) = some (record r { response_event = true })

lookup-set_events : (d : Dict Request) (i : ℕ) → lookup i (set_events d) ≡ with_event (lookup i d)
unfolding set_events lookup
lookup-set_events [] i = refl
lookup-set_events ((j, q) ∷ d) i = elim (Bool-cases (j == i)) [
  | inl same ↦ rw same refl
  | inr other ↦ rw other (lookup-set_events d i)
]

-- When the receiving thread ends with an exception, every request that was outstanding still is, as it was
-- but with its event set, no other is, and the check of the worker raises that exception from then on.
pub stop_worker-raises :
    (c : Connection) (e : Error)
    → ((i : ℕ)
        → lookup i (stop_worker (c, err e)).outstanding_requests
          ≡ with_event (lookup i c.outstanding_requests))
      × (check_worker_running (stop_worker (c, err e)) ≡ (stop_worker (c, err e), err e))
unfolding stop_worker check_worker_running
stop_worker-raises c e = (λ i. lookup-set_events c.outstanding_requests i, refl)

pub stop_worker-IsSound : (m : Call (Unit {0})) → IsSound m.0 → IsSound (stop_worker m)
unfolding stop_worker
stop_worker-IsSound (c, ok x) s = record {
  within = s.within;
  below =
      λ i r f. let (q, was) = (set_events_lem c.outstanding_requests i r f).1 in s.below i q was;
}
stop_worker-IsSound (c, err e) s = record {
  within = s.within;
  below =
      λ i r f. let (q, was) = (set_events_lem c.outstanding_requests i r f).1 in s.below i q was;
}
