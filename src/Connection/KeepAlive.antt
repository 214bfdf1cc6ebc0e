-- ===== src/Connection/KeepAlive.antt =====
-- smbprotocol/connection.py, `_process_message_thread`: the branch for ten minutes without a packet.
use smbprotocol.Prelude.{
  ℕ, List, [], ◌∷◌, Bool, true, false, ◌&&◌, Option, none, some, Result, ok, err, ◌>>=◌, key_error,
  index_error, smb_connection_closed, ◌==◌, if◌then◌else◌, Dict, lookup, put, ◌≡◌, refl, inl,
}
use smbprotocol.Bytes.{Bytes}
use smbprotocol.Structure.{num}
use smbprotocol.Structure.Walk.{Structure, set_item}
use smbprotocol.Structure.Build.{IntField}
use smbprotocol.Header.{smb2_echo}
use smbprotocol.Connection.{Connection, Message, Request}
use smbprotocol.Connection.Signature.{Crypto, int_of}
use smbprotocol.Connection.Encryption.{Aead}
use smbprotocol.Connection.Build.{SendArgs}
use smbprotocol.Connection.Send.{Call, ◌then_call◌, send}
use smbprotocol.Connection.Send.Window.{send-IsSound}
use smbprotocol.Connection.Sound.{
  IsSound, Post, Any, next, Post-state, Post-pure, Post-of_state, remembered-IsSound,
}

-- `SMB2Echo`
abbrev pub smb2_echo_message : Message
smb2_echo_message = record {
  command = smb2_echo;
  fields = IntField "structure_size" 2 4 ∷ IntField "reserved" 2 0 ∷ [];
}

-- An echo of this thread that has no response.
unanswered : Request → Result Bool
unfolding int_of
unanswered r = elim r.response [
  | some h ↦ ok false
  | none ↦ do
    command ← int_of r.message "command"
    reserved ← int_of r.message "reserved"
    ok (command == smb2_echo && reserved == 1)
]

any_unanswered : Dict Request → Result Bool
unfolding unanswered
any_unanswered [] = ok false
any_unanswered ((i, r) ∷ d) =
    let rest = any_unanswered d in unanswered r >>= λ found. if found then ok true else rest

abbrev echo_args : ℕ → SendArgs
echo_args sid = record {
  session_id = some sid;
  tree_id = none;
  message_id = none;
  credit_request = none;
  related = false;
  async_id = none;
  force_signature = false;
}

-- `req.message["reserved"] = 1`
mark_reserved : Connection → ℕ → Call (Unit {0})
unfolding set_item
mark_reserved c id = elim (lookup id c.outstanding_requests) [
  | none ↦ (c, err key_error)
  | some r ↦ elim (set_item r.message "reserved" (num 1)) [
    | err e ↦ (c, err e)
    | ok h ↦ (
      record c { outstanding_requests = put id (record r { message = h }) c.outstanding_requests },
      ok tt,
    )
  ]
]

-- `d.keys()`
keys : {V : Type 0} → Dict V → List ℕ
keys [] = []
keys ((i, v) ∷ d) = i ∷ keys d

first : List ℕ → Result ℕ
first [] = err index_error
first (x ∷ xs) = ok x

module _ (k : Crypto) (a : Aead) (urandom : ℕ → Bytes) where
  -- One echo for every session.
  send_echoes : List ℕ → Connection → Call (Unit {0})
  unfolding send first mark_reserved
  send_echoes [] c = (c, ok tt)
  send_echoes (sid ∷ sids) c =
      send k a c (urandom sid) (echo_args sid) (smb2_echo_message ∷ []) then_call λ c₁ requests.
      (c₁, first requests) then_call λ c₂ id.
      mark_reserved c₂ id then_call λ c₃ _. send_echoes sids c₃

  -- The `except TimeoutError` block.
  unfoldable pub keep_alive : Connection → Call (Unit {0})
  unfolding any_unanswered keys send_echoes
  keep_alive c = (c, any_unanswered c.outstanding_requests) then_call λ c₁ dead.
      if dead then (c₁, err smb_connection_closed) else send_echoes (keys c₁.session_table) c₁

mark_reserved-IsSound :
    (c : Connection) (id : ℕ) → IsSound c → Post IsSound (Any {A = Unit {0}}) (mark_reserved c id)
unfolding mark_reserved
mark_reserved-IsSound c id s = go (lookup id c.outstanding_requests) refl
  where
    marked :
        (r : Request)
        → lookup id c.outstanding_requests ≡ some r
        → (h : Result Structure)
        → Post IsSound (Any {A = Unit {0}}) (elim h [
          | err e ↦ (c, err e)
          | ok h ↦ (
            record c {
              outstanding_requests = put id (record r { message = h }) c.outstanding_requests;
            },
            ok tt,
          )
        ])
    marked r e (err x) = s
    marked r e (ok h) = (remembered-IsSound c id _ s (s.below id r e), tt)

    go :
        (o : Option Request)
        → lookup id c.outstanding_requests ≡ o
        → Post IsSound (Any {A = Unit {0}}) (elim o [
          | none ↦ (c, err key_error)
          | some r ↦ elim (set_item r.message "reserved" (num 1)) [
            | err e ↦ (c, err e)
            | ok h ↦ (
              record c {
                outstanding_requests = put id (record r { message = h }) c.outstanding_requests;
              },
              ok tt,
            )
          ]
        ])
    go none e = s
    go (some r) e = marked r e (set_item r.message "reserved" (num 1))

module _ (k : Crypto) (a : Aead) (urandom : ℕ → Bytes) where
  send_echoes-IsSound :
      (sids : List ℕ) (c : Connection)
      → IsSound c
      → Post IsSound (Any {A = Unit {0}}) (send_echoes k a urandom sids c)
  unfolding send_echoes
  send_echoes-IsSound [] c s = (s, tt)
  send_echoes-IsSound (sid ∷ sids) c s =
      next (Any {A = List ℕ}) _ _
        (Post-of_state _ (
          send-IsSound k a c (urandom sid) (echo_args sid) (smb2_echo_message ∷ []) s
            (inl refl, tt)))
        λ c₁ requests s₁ _.
          next (Any {A = ℕ}) _ _ (Post-pure IsSound Any c₁ (first requests) s₁ (λ x. tt))
            λ c₂ id s₂ _.
              next (Any {A = Unit {0}}) _ _ (mark_reserved-IsSound c₂ id s₂)
                λ c₃ u s₃ _. send_echoes-IsSound sids c₃ s₃

  -- From a connection whose outstanding message ids are below the window and whose window, with
  -- credits, is not overdrawn, the branch leads to such a connection however it ends.
  pub keep_alive-IsSound : (c : Connection) → IsSound c → IsSound (keep_alive k a urandom c).0
  unfolding keep_alive
  keep_alive-IsSound c s = Post-state _ (
      next (Any {A = Bool}) (c, any_unanswered c.outstanding_requests)
        (λ c₁ dead.
          if dead
          then (c₁, err smb_connection_closed)
          else send_echoes k a urandom (keys c₁.session_table) c₁)
        (Post-pure IsSound Any c (any_unanswered c.outstanding_requests) s (λ x. tt))
        λ c₁ dead s₁ _.
          elim dead
            as (λ dead. Post IsSound (Any {A = Unit {0}}) (
              if dead
              then (c₁, err smb_connection_closed)
              else send_echoes k a urandom (keys c₁.session_table) c₁)) [
                | true ↦ s₁
                | false ↦ send_echoes-IsSound (keys c₁.session_table) c₁ s₁
              ])
