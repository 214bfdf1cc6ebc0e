-- ===== src/Connection/Runs.antt =====
-- Runs of the connection: for each result, a connection where its conditions hold.
use smbprotocol.Prelude.{
  ℕ, ◌-◌, ◌≡◌, ◌≢◌, refl, ap, [], ◌∷◌, ◌++◌, true, false, none, some, Bool-cases, ==_iff, ok, err,
  arith, length, take, replicate, length-append, take-append_eq, inl, inr, lookup, ◌==◌, os_error,
}
use smbprotocol.Bytes.{Bytes}
use smbprotocol.Structure.{num, bytes}
use smbprotocol.Structure.Walk.{Structure}
use smbprotocol.Structure.Build.{IntField}
use smbprotocol.Structure.RoundTrip.{fill}
use smbprotocol.Header.{smb2_header_response, smb_protocol_id}
use smbprotocol.Connection.Encryption.RoundTrip.{decrypt-encrypt}
use smbprotocol.Connection.{Connection, Session}
use smbprotocol.Connection.Signature.{Crypto}
use smbprotocol.Connection.Encryption.{encrypt, decrypt, cipher_of, nonce_length, Aead}
use smbprotocol.Connection.Build.{SendArgs}
use smbprotocol.Connection.Send.{Call, send, check_worker_running}
use smbprotocol.Connection.Sound.{IsSound}
use smbprotocol.Connection.Send.Window.{send-IsSound}
use smbprotocol.Connection.Worker.{Fields, receive_packet, stop_worker}
use smbprotocol.Connection.Worker.Laws.{
  receive_packet-total, receive_packet-IsSound, stop_worker-raises, with_event,
}
use smbprotocol.Connection.KeepAlive.{smb2_echo_message}
use smbprotocol.Connection.Steps.{new_connection, start, step, sends, Reachable-IsSound}

abbrev pub test_crypto : Crypto
test_crypto = record {
  gmac = λ key nonce b. replicate 16 0;
  cmac = λ key b. replicate 16 (length b);
  hmac = λ key b. replicate 32 (length b);
  length-gmac = λ key nonce b. refl;
  length-cmac = λ key b. refl;
  length-hmac = λ key b. refl;
}

abbrev test_seal : Bytes → Bytes
test_seal b = b ++ replicate 16 0

test_unseal : (b : Bytes) → some (take (length (test_seal b) - 16) (test_seal b)) ≡ some b
test_unseal b = ap some (
    take-append_eq (length (test_seal b) - 16) b (replicate 16 0)
      (omega (arith, length-append b (replicate 16 0))))

abbrev test_aead : Aead
test_aead = record {
  seal = λ cipher key nonce b associated. test_seal b;
  unseal = λ cipher key nonce b associated. some (take (length b - 16) b);
  unseal-seal = λ cipher key nonce b associated. test_unseal b;
  length-seal = λ cipher key nonce b associated. omega (arith, length-append b (replicate 16 0));
}

abbrev pub plain_args : SendArgs
plain_args = record {
  session_id = none;
  tree_id = none;
  message_id = none;
  credit_request = none;
  related = false;
  async_id = none;
  force_signature = false;
}

new_connection-IsSound : IsSound new_connection
new_connection-IsSound = Reachable-IsSound test_crypto test_aead new_connection start

Reachable-IsSound_example :
    IsSound (send test_crypto test_aead new_connection [] plain_args (smb2_echo_message ∷ [])).0
Reachable-IsSound_example =
    Reachable-IsSound test_crypto test_aead
      (send test_crypto test_aead new_connection [] plain_args (smb2_echo_message ∷ [])).0
      (step new_connection
        (send test_crypto test_aead new_connection [] plain_args (smb2_echo_message ∷ [])).0 start
        (sends new_connection [] plain_args (smb2_echo_message ∷ []) (inl refl, tt)))

send-IsSound_example :
    IsSound
      (send test_crypto test_aead new_connection [] plain_args
        (smb2_echo_message ∷ smb2_echo_message ∷ [])).0
send-IsSound_example =
    send-IsSound test_crypto test_aead new_connection [] plain_args
      (smb2_echo_message ∷ smb2_echo_message ∷ []) new_connection-IsSound (inl refl, (inl refl, tt))

abbrev sent_header : Structure
sent_header = IntField "command" 2 13 ∷ IntField "reserved" 2 0 ∷ []

-- A connection that waits for the response to the message 5.
abbrev waiting_connection : Connection
waiting_connection = record new_connection {
  sequence_low = 6;
  sequence_high = 8;
  outstanding_requests =
      (
        5,
        record {
          message = sent_header;
          session_id = none;
          async_id = none;
          response = none;
          response_event = false;
          related_ids = [];
        },
      )
      ∷ [];
}

other_none :
    {A : Type 0} (v : A) {r : A} (i : ℕ) → (5 == i) ≡ false → lookup i ((5, v) ∷ []) ≡ some r → ⊥
unfolding lookup
other_none v {r} i other e = let gone : none ≡ some r = rw other at e in cc

waiting_connection-IsSound : IsSound waiting_connection
waiting_connection-IsSound = record {
  within = λ e. cc;
  below = λ i r e. elim (Bool-cases (5 == i)) [
    | inl same ↦ omega (arith, (==_iff 5 i).0 same)
    | inr other ↦ absurd (other_none _ i other e)
  ];
}

-- The response to it.
abbrev response_bytes : Bytes
response_bytes =
    smb_protocol_id
    ++ (64 ∷ 0 ∷ 1 ∷ 0 ∷ 0 ∷ 0 ∷ 0 ∷ 0 ∷ 13 ∷ 0 ∷ 3 ∷ 0 ∷ 1 ∷ 0 ∷ 0 ∷ 0 ∷ [])
    ++ replicate 4 0
    ++ (5 ∷ replicate 7 0)
    ++ replicate 32 0
    ++ (4 ∷ 0 ∷ 0 ∷ 0 ∷ [])

receive_packet-total_example :
    receive_packet test_crypto test_aead waiting_connection response_bytes ≢ none
receive_packet-total_example =
    receive_packet-total test_crypto test_aead waiting_connection response_bytes

receive_packet-IsSound_example :
    (m : Call (Unit {0})) × (receive_packet test_crypto test_aead waiting_connection response_bytes
      ≡ some m)
    × IsSound m.0
receive_packet-IsSound_example =
    receive_packet-IsSound test_crypto test_aead waiting_connection response_bytes
      waiting_connection-IsSound

stop_worker-raises_example :
    ((i : ℕ)
      → lookup i (stop_worker (waiting_connection, err os_error)).outstanding_requests
        ≡ with_event (lookup i waiting_connection.outstanding_requests))
    × (check_worker_running (stop_worker (waiting_connection, err os_error))
        ≡ (stop_worker (waiting_connection, err os_error), err os_error))
stop_worker-raises_example = stop_worker-raises waiting_connection os_error

abbrev response_header : Structure
response_header = fill smb2_header_response (
    bytes smb_protocol_id
    ∷ num 64
    ∷ num 1
    ∷ num 0
    ∷ num 13
    ∷ num 3
    ∷ num 1
    ∷ num 0
    ∷ num 5
    ∷ num 0
    ∷ num 0
    ∷ num 0
    ∷ bytes (replicate 16 0)
    ∷ bytes (4 ∷ 0 ∷ 0 ∷ 0 ∷ [])
    ∷ [])

abbrev response_fields : Fields
response_fields = record {
  header = response_header;
  message_id = 5;
  session_id = 0;
  credit_response = 3;
  command = 13;
  status = 0;
  flags = 1;
}

abbrev answered_connection : Connection
answered_connection = record waiting_connection {
  sequence_high = 11;
  outstanding_requests =
      (
        5,
        record {
          message = sent_header;
          session_id = none;
          async_id = none;
          response = some response_header;
          response_event = true;
          related_ids = [];
        },
      )
      ∷ [];
}

-- A session, as the client and as its peer hold it.
abbrev client_session : Session
client_session = record {
  session_id = 7;
  signing_required = false;
  signing_key = [];
  encrypt_data = true;
  encryption_key = 1 ∷ [];
  decryption_key = 2 ∷ [];
  tree_connect_table = [];
}

abbrev peer_session : Session
peer_session = record client_session { encryption_key = 2 ∷ []; decryption_key = 1 ∷ [] }

abbrev peer_connection : Connection
peer_connection = record new_connection { session_table = (7, peer_session) ∷ [] }

decrypt-encrypt_example :
    (message : Structure) × (encrypt test_aead new_connection
        (replicate 11 9)
        client_session
        (5 ∷ 6 ∷ [])
      ≡ ok message)
    × (decrypt test_aead peer_connection message ≡ ok (5 ∷ 6 ∷ []))
unfolding lookup cipher_of nonce_length
decrypt-encrypt_example =
    decrypt-encrypt test_aead new_connection peer_connection (replicate 11 9) client_session
      peer_session (5 ∷ 6 ∷ []) refl (omega arith) (omega arith) refl refl refl
