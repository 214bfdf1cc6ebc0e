-- ===== src/Connection/Send.antt =====
-- smbprotocol/connection.py, `_send`. What was changed before an exception stays changed, so the
-- connection comes back beside the error.
pub mod Window
pub mod Fits
pub mod Padding
use smbprotocol.Prelude.{
  ℕ, ◌+◌, ◌<◌, List, [], ◌∷◌, ◌++◌, Bool, true, false, not, ◌&&◌, ◌||◌, Option, none, some, Error,
  Result, ok, err, ◌>>=◌, key_error, index_error, attribute_error, smb_exception,
  smb_connection_closed, ◌==◌, ltb, if◌then◌else◌, replicate, Dict, lookup, put,
}
use smbprotocol.Bytes.{Bytes}
use smbprotocol.Structure.{bytes}
use smbprotocol.Structure.Walk.{Structure, set_item, pack}
use smbprotocol.Header.{smb2_cancel, smb2_negotiate, smb2_session_setup, smb2_flags_signed}
use smbprotocol.Transport.{frame}
use smbprotocol.Connection.{
  Connection, Message, Session, Tree, Request, Preauth, session_hash, packet, find_session,
}
use smbprotocol.Connection.Credits.{calculate_credit_charge}
use smbprotocol.Connection.Signature.{Crypto, generate_signature, with_signature}
use smbprotocol.Connection.Encryption.{Aead, encrypt}
use smbprotocol.Connection.Build.{SendArgs, or_else, set_flag, build_header, next_and_padding}

-- A call on the connection: its state afterwards, and what it returns or raises.
abbrev pub Call : Type 0 → Type 0
Call A = Connection × Result A

-- The block under `sequence_lock`: the credit charge and the message id. The window moves unless the
-- credits do not suffice.
reserve_charged : Connection → ℕ → Option ℕ → Message → Call (ℕ × ℕ)
unfolding or_else
reserve_charged c charge message_id m =
    if ltb c.sequence_high (c.sequence_low + charge)
    then (c, err smb_exception)
    else if m.command == smb2_cancel
    then (c, ok (charge, or_else message_id c.sequence_low))
    else (
      record c { sequence_low = c.sequence_low + (if ltb 0 charge then charge else 1) },
      ok (charge, or_else message_id c.sequence_low),
    )

unfoldable pub reserve : Connection → Option ℕ → Message → Call (ℕ × ℕ)
unfolding reserve_charged calculate_credit_charge
reserve c message_id m = elim (calculate_credit_charge c.supports_multi_credit m) [
  | ok charge ↦ reserve_charged c charge message_id m
  | err e ↦ (c, err e)
]

not_empty : Bytes → Bool
not_empty [] = false
not_empty (b ∷ bs) = true

-- Whether the session asks for signatures and has a key.
signs : Option Session → Bool
unfolding not_empty
signs none = false
signs (some s) = s.signing_required && not_empty s.signing_key

key_of : Option Session → Result Bytes
key_of none = err attribute_error
key_of (some s) = ok s.signing_key

-- `outstanding_requests[message_id] = Request(...)`, or the request that a cancel is about.
remember : Connection → SendArgs → Message → ℕ → Structure → Call ℕ
remember c args m current_id header =
    if m.command == smb2_cancel
    then (
      c,
      elim (lookup current_id c.outstanding_requests) [
        | none ↦ err key_error
        | some r ↦ ok current_id
      ],
    )
    else (
      record c {
        outstanding_requests =
            put current_id
              (record {
                message = header;
                session_id = args.session_id;
                async_id = none;
                response = none;
                response_event = false;
                related_ids = [];
              })
              c.outstanding_requests;
      },
      ok current_id,
    )

append_hash : Option Preauth → Bytes → Result Preauth
append_hash (some (session_hash h)) b = ok (session_hash (h ++ (b ∷ [])))
append_hash (some (packet p)) b = err attribute_error
append_hash none b = err key_error

store_hash : Connection → ℕ → ℕ → Result Preauth → Call ℕ
store_hash c sid request (ok h) =
    (record c { preauth_session_table = put sid h c.preauth_session_table }, ok request)
store_hash c sid request (err e) = (c, err e)

-- `preauth_session_table[session_id].preauth_integrity_hash_value.append(b_header)`
preauth_session : Connection → Option ℕ → ℕ → Bytes → Call ℕ
unfolding append_hash store_hash
preauth_session c none request b_header = (c, err key_error)
preauth_session c (some sid) request b_header =
    store_hash c sid request (append_hash (lookup sid c.preauth_session_table) b_header)

-- The preauth integrity values of a negotiate or session setup message.
preauth : Connection → SendArgs → Message → ℕ → Bytes → Call ℕ
unfolding preauth_session
preauth c args m request b_header =
    if m.command == smb2_negotiate
    then (
      record c { preauth_integrity_hash_value = c.preauth_integrity_hash_value ++ (b_header ∷ []) },
      ok request,
    )
    else if m.command == smb2_session_setup
    then preauth_session c args.session_id request b_header
    else (c, ok request)

-- The next part of a call, on the state that the first one left.
infixl 5 ◌then_call◌
abbrev pub ◌then_call◌ : {A B : Type 0} → Call A → (Connection → A → Call B) → Call B
(c, ok x) then_call f = f c x
(c, err e) then_call f = (c, err e)

module _ (k : Crypto) where
  -- `header.pack() + padding`, signed where that is asked for, and the header as the request keeps it.
  unfoldable pub sign_and_pack :
      Connection
      → SendArgs
      → Option Session
      → ℕ
      → ℕ
      → Message
      → Structure
      → Result (Structure × Bytes)
  unfolding signs key_of set_flag set_item pack generate_signature
  sign_and_pack c args session current_id padding m header =
      let signed : Result (Structure × Bytes) = (do
        h ← set_flag header "flags" smb2_flags_signed
        b ← pack h
        key ← key_of session
        let b_header = b ++ replicate padding 0
        let signature = generate_signature k c b_header key current_id false m.command
        h' ← set_item h "signature" (bytes signature)
        ok (h', with_signature b_header signature)) in
      let plain : Result (Structure × Bytes) = (do
        b ← pack header
        ok (header, b ++ replicate padding 0)) in
      if args.force_signature || signs session then signed else plain

  -- The header and the bytes of a message, from its `next_command` and padding and from its credit
  -- charge and message id.
  make_packet :
      Connection
      → SendArgs
      → Option Session
      → Bool
      → Bool
      → ℕ × ℕ
      → ℕ × ℕ
      → Message
      → Result (Structure × Bytes)
  unfolding build_header sign_and_pack
  make_packet c args session is_dfs follows (next_command, padding) (charge, current_id) m =
      build_header args charge current_id next_command is_dfs follows m
      >>= sign_and_pack c args session current_id padding m

  -- One round of the loop over the messages: the message id of its request, and its bytes.
  unfoldable pub send_message :
      Connection → SendArgs → Option Session → Bool → Bool → Bool → Message → Call (ℕ × Bytes)
  unfolding next_and_padding reserve make_packet remember preauth
  send_message c args session is_dfs follows last m =
      (c, next_and_padding last m) then_call λ c₀ sizes.
      reserve c₀ args.message_id m then_call λ c₁ reserved.
      (c₁, make_packet c₁ args session is_dfs follows sizes reserved m) then_call λ c₂ made.
      remember c₂ args m reserved.1 made.0 then_call λ c₃ request.
      preauth c₃ args m request made.1 then_call λ c₄ request'. (c₄, ok (request', made.1))

  -- The loop: the bytes of all messages, and the message ids of their requests.
  unfoldable pub send_messages :
      Connection → SendArgs → Option Session → Bool → Bool → List Message → Call (Bytes × List ℕ)
  unfolding send_message
  send_messages c args session is_dfs follows [] = (c, ok ([], []))
  send_messages c args session is_dfs follows (m ∷ []) =
      send_message c args session is_dfs follows true m then_call λ c' made.
      (c', ok (made.1, made.0 ∷ []))
  send_messages c args session is_dfs follows (m ∷ n ∷ ms) =
      send_message c args session is_dfs follows false m then_call λ c' made.
      send_messages c' args session is_dfs true (n ∷ ms) then_call λ c'' rest.
      (c'', ok (made.1 ++ rest.0, made.0 ∷ rest.1))

-- `requests[0].related_ids = ...`
relate_first : Connection → Bool → List ℕ → Call (List ℕ)
relate_first c true [] = (c, err index_error)
relate_first c true (r ∷ rs) = elim (lookup r c.outstanding_requests) [
  | none ↦ (c, err key_error)
  | some q ↦ (
    record c {
      outstanding_requests = put r (record q { related_ids = rs }) c.outstanding_requests;
    },
    ok (r ∷ rs),
  )
]
relate_first c false rs = (c, ok rs)

-- `_check_worker_running`
unfoldable pub check_worker_running : Connection → Call (Unit {0})
check_worker_running c = elim c.worker_exception [
  | some e ↦ (record c { transport_connected = false }, err e)
  | none ↦ if c.transport_connected then (c, ok tt) else (c, err smb_connection_closed)
]

-- The session, and the tree where the session exists and the tree id is not 0.
find_tree : Option Session → Option ℕ → Result (Option Tree)
find_tree none tree_id = ok none
find_tree (some s) none = ok none
find_tree (some s) (some tid) =
    if tid == 0
    then ok none
    else elim (lookup tid s.tree_connect_table) [ none ↦ err smb_exception | some t ↦ ok (some t) ]

encrypts : Option Session → Option Tree → Bool
encrypts (some s) (some t) = s.encrypt_data || t.encrypt_data
encrypts (some s) none = s.encrypt_data
encrypts none t = false

is_dfs_of : Option Tree → Bool
is_dfs_of none = false
is_dfs_of (some t) = t.is_dfs_share

module _ (k : Crypto) (a : Aead) where
  encrypt_if : Connection → Bytes → Option Session → Option Tree → Bytes → Result Bytes
  unfolding encrypts encrypt pack
  encrypt_if c nonce none tree b = ok b
  encrypt_if c nonce (some s) tree b =
      if encrypts (some s) tree then (encrypt a c nonce s b >>= pack) else ok b

  -- `_send`, with the bytes that `os.urandom` would return for a nonce.
  unfoldable pub send : Connection → Bytes → SendArgs → List Message → Call (List ℕ)
  unfolding send_messages relate_first check_worker_running find_tree find_session encrypt_if
      is_dfs_of frame
  send c nonce args messages =
      let session = find_session c args.session_id in
      (c, find_tree session args.tree_id) then_call λ c₁ tree.
      send_messages k c₁ args session (is_dfs_of tree) false messages then_call λ c₂ made.
      relate_first c₂ args.related made.1 then_call λ c₃ requests.
      (c₃, encrypt_if c₃ nonce session tree made.0) then_call λ c₄ send_data.
      check_worker_running c₄ then_call λ c₅ _. (c₅, frame send_data) then_call λ c₆ b.
      (record c₆ { sent = c₆.sent ++ (b ∷ []) }, ok requests)
