-- ===== src/Connection/Steps.antt =====
-- smbprotocol/connection.py: the connection from `__init__` on, as a sequence of the calls of the threads
-- that send and receive and of the thread that reads the socket. Two calls do not run at once: the model
-- takes each as one step.
use smbprotocol.Prelude.{
  ℕ, ◌≡◌, sym, ◌∙◌, subst, ◌≤◌, List, [], Bool, true, false, Option, none, some, Result, Dict,
  lookup, All,
}
use smbprotocol.Bytes.{Bytes}
use smbprotocol.Connection.{Connection, Message, Session, Preauth, Request}
use smbprotocol.Connection.Signature.{Crypto}
use smbprotocol.Connection.Encryption.{Aead}
use smbprotocol.Connection.Build.{SendArgs}
use smbprotocol.Connection.Send.{Call, send}
use smbprotocol.Connection.Sound.{IsSound}
use smbprotocol.Connection.Send.Window.{Numbered, send-IsSound}
use smbprotocol.Connection.Worker.{receive_packet, stop_worker}
use smbprotocol.Connection.Worker.Laws.{receive_packet-IsSound, stop_worker-IsSound}
use smbprotocol.Connection.Receive.{receive_woken}
use smbprotocol.Connection.Receive.Laws.{receive_woken-IsSound}
use smbprotocol.Connection.KeepAlive.{keep_alive, keep_alive-IsSound}

-- `Connection.__init__`, with the transport that `connect` opens.
abbrev pub new_connection : Connection
new_connection = record {
  sequence_low = 0;
  sequence_high = 1;
  supports_multi_credit = false;
  dialect = 0;
  signing_algorithm_id = none;
  cipher_id = none;
  session_table = [];
  preauth_session_table = [];
  outstanding_requests = [];
  preauth_integrity_hash_value = [];
  worker_exception = none;
  transport_connected = true;
  sent = [];
}

-- What `connect` sets when it has the negotiate response.
unfoldable pub negotiated : Connection → Bool → ℕ → Option ℕ → Option ℕ → Connection
negotiated c multi dialect signing cipher = record c {
  supports_multi_credit = multi;
  dialect = dialect;
  signing_algorithm_id = signing;
  cipher_id = cipher;
}

-- What a `Session` writes into the connection while it connects and disconnects.
unfoldable pub set_sessions : Connection → Dict Session → Dict Preauth → Connection
set_sessions c sessions preauth = record c {
  session_table = sessions;
  preauth_session_table = preauth;
}

-- One call, with whatever the caller, the server and the random numbers bring.
pub data Step (k : Crypto) (a : Aead) : Connection → Connection → Type 0 where
  sends :
      (c : Connection) (nonce : Bytes) (args : SendArgs) (ms : List Message)
      → All (Numbered args) ms
      → Step k a c (send k a c nonce args ms).0
  receives :
      (c : Connection) (b : Bytes) (m : Call (Unit {0}))
      → receive_packet k a c b ≡ some m
      → Step k a c m.0
  stays_alive : (c : Connection) (urandom : ℕ → Bytes) → Step k a c (keep_alive k a urandom c).0
  stops : (c : Connection) (r : Result (Unit {0})) → Step k a c (stop_worker (c, r))
  takes :
      (c : Connection) (id : ℕ) (r : Request) (wait resolve_symlinks : Bool)
      → Step k a c (receive_woken c id r wait resolve_symlinks).0
  negotiates :
      (c : Connection) (multi : Bool) (dialect : ℕ) (signing cipher : Option ℕ)
      → c.sequence_low ≤ c.sequence_high
      → Step k a c (negotiated c multi dialect signing cipher)
  signs_in :
      (c : Connection) (sessions : Dict Session) (preauth : Dict Preauth)
      → Step k a c (set_sessions c sessions preauth)

-- The connections that calls lead to.
pub data Reachable (k : Crypto) (a : Aead) : Connection → Type 0 where
  start : Reachable k a new_connection
  step : (c c' : Connection) → Reachable k a c → Step k a c c' → Reachable k a c'

IsSound-same : (m m' : Call (Unit {0})) → some m ≡ some m' → IsSound m.0 → IsSound m'.0
IsSound-same m m' e s =
    let same : m ≡ m' = cc in subst (λ (x : Call (Unit {0})). IsSound x.0) same s

outstanding_none : (i : ℕ) (r : Request) → lookup i [] ≡ some r → ⊥
unfolding lookup
outstanding_none i r e = cc

module _ (k : Crypto) (a : Aead) where
  Step-IsSound : (c c' : Connection) → Step k a c c' → IsSound c → IsSound c'
  Step-IsSound _ _ (sends c nonce args ms n) s = send-IsSound k a c nonce args ms s n
  Step-IsSound _ _ (receives c b m e) s =
      let (m', e', s') = receive_packet-IsSound k a c b s in IsSound-same m' m (sym e' ∙ e) s'
  Step-IsSound _ _ (stays_alive c urandom) s = keep_alive-IsSound k a urandom c s
  Step-IsSound _ _ (stops c r) s = stop_worker-IsSound (c, r) s
  Step-IsSound _ _ (takes c id r wait resolve_symlinks) s =
      receive_woken-IsSound c id r wait resolve_symlinks s
  Step-IsSound _ _ (negotiates c multi dialect signing cipher h) s =
      unfold negotiated in record { within = λ _. h; below = s.below }
  Step-IsSound _ _ (signs_in c sessions preauth) s =
      unfold set_sessions in record { within = s.within; below = s.below }

  -- On every connection that a sequence of the calls of `Step` leads to, in any order and with any
  -- bytes from the server, the message ids of the outstanding requests are below the window, and on a
  -- connection with credits the window is not overdrawn. The messages that are sent are numbered by
  -- the window or are cancels, and a dialect is negotiated while the window is not overdrawn.
  pub Reachable-IsSound : (c : Connection) → Reachable k a c → IsSound c
  Reachable-IsSound _ start = record {
    within = λ e. cc;
    below = λ i r e. absurd (outstanding_none i r e);
  }
  Reachable-IsSound _ (step c c' r s) = Step-IsSound c c' s (Reachable-IsSound c r)
