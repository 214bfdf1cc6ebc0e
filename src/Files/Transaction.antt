-- ===== src/Files/Transaction.antt =====
-- smbclient/_io.py, `SMBFileTransaction.commit`: a compound of actions on a file.
pub mod Laws
pub mod Runs
use smbprotocol.Prelude.{
  ℕ, zero, suc, ◌-◌, List, [], ◌∷◌, ◌++◌, map, Bool, true, false, not, ◌&&◌, ◌||◌, Option, none,
  some, Error, Result, ok, err, ◌>>=◌, index_error, smb_response_exception, ◌==◌, if◌then◌else◌,
  length,
}
use smbprotocol.Header.{smb2_create}
use smbprotocol.Connection.{Message}

-- A message, and the function that receives its response.
pub record Action (Request Unpacked : Type 0) : Type 0 where
  pub message : Message
  pub unpack_func : Request → Result Unpacked

-- `isinstance(action[0], SMB2CreateRequest)`
abbrev pub is_create : {Request Unpacked : Type 0} → Action Request Unpacked → Bool
is_create a = a.message.command == smb2_create

-- `del items[idx]`
unfoldable pub delete_at {ℓ} : {A : Type ℓ} → List A → ℕ → List A
delete_at [] idx = []
delete_at (x ∷ xs) zero = xs
delete_at (x ∷ xs) (suc idx) = x ∷ delete_at xs idx

unfoldable pub delete_all {ℓ} : {A : Type ℓ} → List A → List ℕ → List A
unfolding delete_at
delete_all items [] = items
delete_all items (idx ∷ remove_index) = delete_all (delete_at items idx) remove_index

-- `STATUS_PATH_NOT_COVERED`, `STATUS_OBJECT_NAME_NOT_FOUND` and `STATUS_OBJECT_PATH_NOT_FOUND`
abbrev pub not_here : ℕ → Bool
not_here status = status == 0xC0000257 || status == 0xC0000034 || status == 0xC000003A

module _ (Request Unpacked : Type 0) where
  -- What `_resolve_dfs` comes to: no target of another share, the create action of the one that took over,
  -- or an exception of its own.
  pub data Resolved : Type 0 where
    no_target : Resolved
    target : Action Request Unpacked → Resolved
    refused : Error → Resolved

  -- What stands outside one commit: whether the file is closed, the actions that `raw.open` and
  -- `raw.close` add, what `send_compound` returns for the messages, and what the path resolves to where
  -- the name was not found.
  pub record Attempt : Type 0 where
    pub closed : Bool
    pub create_action : Action Request Unpacked
    pub close_action : Action Request Unpacked
    pub send_compound : List Message → List Request
    pub resolved : Resolved

  -- What the loop over the unpack functions leaves.
  pub record Collected : Type 0 where
    pub responses : List (Option Unpacked)
    pub failures : List ℕ
    pub try_again : Option (Action Request Unpacked)

  -- `results`, the SMBOSError of a status, or another exception.
  pub data Committed : Type 0 where
    results : List (Option Unpacked) → Committed
    smb_os_error : ℕ → Committed
    raised : Error → Committed

module _ {Request Unpacked : Type 0} where
  abbrev pub starts_with_create : List (Action Request Unpacked) → Bool
  starts_with_create [] = false
  starts_with_create (a ∷ actions) = is_create a

  -- Whether the commit opens and closes the file itself.
  abbrev pub adds : Attempt Request Unpacked → List (Action Request Unpacked) → Bool
  adds attempt actions = attempt.closed && not (starts_with_create actions)

  -- The actions that are sent, and `remove_index`.
  unfoldable pub planned :
      Bool
      → Attempt Request Unpacked
      → List (Action Request Unpacked)
      → List (Action Request Unpacked) × List ℕ
  planned true attempt actions = (
    (attempt.create_action ∷ actions) ++ (attempt.close_action ∷ []),
    suc (length actions) ∷ 0 ∷ [],
  )
  planned false attempt actions = (actions, [])

  abbrev pub plan :
      Attempt Request Unpacked
      → List (Action Request Unpacked)
      → List (Action Request Unpacked) × List ℕ
  plan attempt actions = planned (adds attempt actions) attempt actions

  abbrev received :
      Option Unpacked → Result (Collected Request Unpacked) → Result (Collected Request Unpacked)
  received res rest = rest >>= λ r. ok (record r { responses = res ∷ r.responses })

  abbrev failed : ℕ → Result (Collected Request Unpacked) → Result (Collected Request Unpacked)
  failed status rest =
      rest >>= λ r. ok (record r { responses = none ∷ r.responses; failures = status ∷ r.failures })

  abbrev retried :
      Action Request Unpacked
      → Result (Collected Request Unpacked)
      → Result (Collected Request Unpacked)
  retried create rest =
      rest >>= λ r. ok (record r { responses = none ∷ r.responses; try_again = some create })

  -- The handler of a name that was not found, for a create that is the first action.
  abbrev pub resolve_one :
      Resolved Request Unpacked
      → ℕ
      → Result (Collected Request Unpacked)
      → Result (Collected Request Unpacked)
  resolve_one no_target status rest = failed status rest
  resolve_one (target create) status rest = retried create rest
  resolve_one (refused (smb_response_exception other)) status rest = failed other rest
  resolve_one (refused e) status rest = err e

  -- One round of the loop. `resolved` is given for a create that is the first action.
  abbrev pub receive_one :
      Option (Resolved Request Unpacked)
      → Result Unpacked
      → Result (Collected Request Unpacked)
      → Result (Collected Request Unpacked)
  receive_one resolved (ok res) rest = received (some res) rest
  receive_one none (err (smb_response_exception status)) rest = failed status rest
  receive_one (some resolved) (err (smb_response_exception status)) rest =
      if not_here status then resolve_one resolved status rest else failed status rest
  receive_one resolved (err e) rest = err e

  unfoldable pub receive_all :
      Option (Resolved Request Unpacked)
      → List (Action Request Unpacked)
      → List Request
      → Result (Collected Request Unpacked)
  receive_all resolved [] requests = ok (record { responses = []; failures = []; try_again = none })
  receive_all resolved (a ∷ actions) [] = err index_error
  receive_all resolved (a ∷ actions) (request ∷ requests) =
      let rest = receive_all none actions requests in
      receive_one resolved (a.unpack_func request) rest

  abbrev replace_first :
      Action Request Unpacked → List (Action Request Unpacked) → List (Action Request Unpacked)
  replace_first create [] = []
  replace_first create (a ∷ actions) = create ∷ actions

  -- The end of `commit` for one attempt: the actions that are left, and `none` to try again.
  unfoldable pub conclude :
      List (Action Request Unpacked)
      → List ℕ
      → Result (Collected Request Unpacked)
      → List (Action Request Unpacked) × Option (Committed Request Unpacked)
  unfolding delete_all
  conclude actions remove_index (err e) = (actions, some (raised e))
  conclude actions remove_index (ok r) = elim r.try_again [
    | some create ↦ (delete_all (replace_first create actions) remove_index, none)
    | none ↦ (
      delete_all actions remove_index,
      some (elim r.failures [
        | [] ↦ results (delete_all r.responses remove_index)
        | status ∷ _ ↦ smb_os_error status
      ]),
    )
  ]

  unfoldable pub attempt_commit :
      Attempt Request Unpacked
      → List (Action Request Unpacked)
      → List (Action Request Unpacked) × Option (Committed Request Unpacked)
  unfolding planned receive_all conclude
  attempt_commit attempt actions =
      let (sent, remove_index) = plan attempt actions in
      let resolved = if starts_with_create sent then some attempt.resolved else none in
      let requests = attempt.send_compound (map (λ a. a.message) sent) in
      conclude sent remove_index (receive_all resolved sent requests)

  -- `self.commit()` where it is to try again.
  abbrev pub after_attempt :
      (List (Action Request Unpacked)
        → Option (List (Action Request Unpacked) × Committed Request Unpacked))
      → List (Action Request Unpacked) × Option (Committed Request Unpacked)
      → Option (List (Action Request Unpacked) × Committed Request Unpacked)
  after_attempt again (left, some committed) = some (left, committed)
  after_attempt again (left, none) = again left

  -- `commit`, with what stands outside each of its attempts; `none` where they run out.
  unfoldable pub commit :
      List (Attempt Request Unpacked)
      → List (Action Request Unpacked)
      → Option (List (Action Request Unpacked) × Committed Request Unpacked)
  unfolding attempt_commit
  commit [] actions = none
  commit (attempt ∷ attempts) actions =
      after_attempt (commit attempts) (attempt_commit attempt actions)
