-- ===== src/Connection.antt =====
-- smbprotocol/connection.py: the state of `Connection` and the objects that it holds.
-- A `Request` object is shared by the caller and the table of outstanding requests; it is named by the
-- message id of its header, and the table is the store. Sessions and trees are the records of what the
-- connection reads of them. The primitives of hmac and of the cryptography package are parameters.
pub mod Credits
pub mod Signature
pub mod Encryption
pub mod Build
pub mod Send
pub mod Sound
pub mod Worker
pub mod KeepAlive
pub mod Receive
pub mod Steps
pub mod Runs
use smbprotocol.Prelude.{ℕ, List, Bool, Option, none, some, Error, Dict, lookup}
use smbprotocol.Bytes.{Bytes}
use smbprotocol.Structure.Walk.{Structure}

-- A message: its `COMMAND` and its fields.
pub record Message : Type 0 where
  pub command : ℕ
  pub fields : Structure

pub record Tree : Type 0 where
  pub is_dfs_share : Bool
  pub encrypt_data : Bool

pub record Session : Type 0 where
  pub session_id : ℕ
  pub signing_required : Bool
  pub signing_key : Bytes
  pub encrypt_data : Bool
  pub encryption_key : Bytes
  pub decryption_key : Bytes
  pub tree_connect_table : Dict Tree

-- `Request`; `message` is the header that was sent and `response` the header that came back.
pub record Request : Type 0 where
  pub message : Structure
  pub session_id : Option ℕ
  pub async_id : Option Bytes
  pub response : Option Structure
  pub response_event : Bool
  pub related_ids : List ℕ

-- An entry of `preauth_session_table`: a session, by the messages of its `preauth_integrity_hash_value`,
-- or the packet that the receiving thread stored.
pub data Preauth : Type 0 where
  session_hash : List Bytes → Preauth
  packet : Bytes → Preauth

-- The fields of `Connection` that sending and receiving use. `sequence_window` is the two numbers, `sent`
-- is what has been handed to the transport and `worker_exception` is `_t_exc`.
pub record Connection : Type 0 where
  pub sequence_low : ℕ
  pub sequence_high : ℕ
  pub supports_multi_credit : Bool
  pub dialect : ℕ
  pub signing_algorithm_id : Option ℕ
  pub cipher_id : Option ℕ
  pub session_table : Dict Session
  pub preauth_session_table : Dict Preauth
  pub outstanding_requests : Dict Request
  pub preauth_integrity_hash_value : List Bytes
  pub worker_exception : Option Error
  pub transport_connected : Bool
  pub sent : List Bytes

-- `session_table.get(session_id, None)`
unfoldable pub find_session : Connection → Option ℕ → Option Session
find_session c none = none
find_session c (some sid) = lookup sid c.session_table
