-- ===== src/Files/Transaction/Laws.antt =====
-- smbclient/_io.py, `SMBFileTransaction.commit`: what a compound ends with, by the outcome of each action.
use smbprotocol.Prelude.{
  ℕ, zero, suc, ◌≡◌, refl, sym, subst, ap, ap₂, ◌∙◌, List, [], ◌∷◌, ◌++◌, map, Bool, true, false,
  Option, none, some, Result, ok, err, smb_response_exception, arith, if◌then◌else◌, length, take,
  drop, length-append, All,
}
use smbprotocol.Files.Transaction.{
  Action, is_create, delete_at, delete_all, not_here, Attempt, Collected, Committed, plan, planned,
  adds, receive_all, conclude, attempt_commit, commit, after_attempt, results, smb_os_error,
  starts_with_create, receive_one, Resolved, no_target, target,
}

delete-last {ℓ} :
    {A : Type ℓ} (xs : List A) (n : ℕ) → length xs ≡ suc n → delete_at xs n ≡ take n xs
unfolding delete_at
delete-last [] n e = absurd (omega arith)
delete-last (x ∷ []) zero e = refl
delete-last (x ∷ y ∷ xs) zero e = absurd (omega arith)
delete-last (x ∷ xs) (suc n) e = ap (◌∷◌ x) (delete-last xs n (omega arith))

-- The items between the first and the last one.
delete-ends {ℓ} :
    {A : Type ℓ} (x : A) (xs : List A) (n : ℕ)
    → length xs ≡ suc n
    → delete_all (x ∷ xs) (suc n ∷ 0 ∷ []) ≡ take n xs
unfolding delete_all delete_at
delete-ends x xs n e = delete-last xs n e

take-append_one {ℓ} : {A : Type ℓ} (xs : List A) (x : A) → take (length xs) (xs ++ (x ∷ [])) ≡ xs
take-append_one [] x = refl
take-append_one (y ∷ xs) x = ap (◌∷◌ y) (take-append_one xs x)

if_same {ℓ} : {A : Type ℓ} (b : Bool) (x : A) → (if b then x else x) ≡ x
if_same true x = refl
if_same false x = refl

module _ {Unpacked : Type 0} where
  -- A response that was unpacked, or a status that the server answered with.
  abbrev pub IsAnswer : Result Unpacked → Type 0
  IsAnswer (ok res) = Unit
  IsAnswer (err e) = (status : ℕ) × (e ≡ smb_response_exception status)

  abbrev pub value : Result Unpacked → Option Unpacked
  value (ok res) = some res
  value (err e) = none

  -- The statuses of the actions that failed, in the order of the actions.
  abbrev pub statuses : List (Result Unpacked) → List ℕ
  statuses [] = []
  statuses (err (smb_response_exception status) ∷ outs) = status ∷ statuses outs
  statuses (_ ∷ outs) = statuses outs

  -- The values of the actions that were asked for.
  abbrev pub asked : Bool → ℕ → List (Option Unpacked) → List (Option Unpacked)
  asked true n values = take n (drop 1 values)
  asked false n values = values

module _ {Request Unpacked : Type 0} where
  -- What the unpack functions give for the requests.
  abbrev pub outcomes : List (Action Request Unpacked) → List Request → List (Result Unpacked)
  outcomes [] requests = []
  outcomes (a ∷ actions) [] = []
  outcomes (a ∷ actions) (request ∷ requests) = a.unpack_func request ∷ outcomes actions requests

  -- The first failure as an SMBOSError, or the results.
  abbrev pub expected : List ℕ → List (Option Unpacked) → Committed Request Unpacked
  expected [] values = results values
  expected (status ∷ _) values = smb_os_error status

  receive_all-outcomes :
      (actions : List (Action Request Unpacked)) (requests : List Request)
      → length requests ≡ length actions
      → All IsAnswer (outcomes actions requests)
      → receive_all none actions requests
        ≡ ok (record {
          responses = map value (outcomes actions requests);
          failures = statuses (outcomes actions requests);
          try_again = none;
        })
  unfolding receive_all
  receive_all-outcomes [] requests e h = refl
  receive_all-outcomes (a ∷ actions) [] e h = absurd (omega arith)
  receive_all-outcomes (a ∷ actions) (request ∷ requests) e (answer, h) =
      one (a.unpack_func request) (receive_all-outcomes actions requests (omega arith) h) answer
    where
      one :
          (out : Result Unpacked) {rest : Result (Collected Request Unpacked)}
          → rest
            ≡ ok (record {
              responses = map value (outcomes actions requests);
              failures = statuses (outcomes actions requests);
              try_again = none;
            })
          → IsAnswer out
          → receive_one none out rest
            ≡ ok (record {
              responses = map value (out ∷ outcomes actions requests);
              failures = statuses (out ∷ outcomes actions requests);
              try_again = none;
            })
      one (ok res) {rest} same _ = rw same refl
      one (err e) {rest} same (status, is) = rw (is, same) refl

  abbrev pub sent :
      Attempt Request Unpacked → List (Action Request Unpacked) → List (Action Request Unpacked)
  sent attempt actions = (plan attempt actions).0

  abbrev pub requests_of : Attempt Request Unpacked → List (Action Request Unpacked) → List Request
  requests_of attempt actions = attempt.send_compound (map (λ a. a.message) (sent attempt actions))

  length-outcomes :
      (actions : List (Action Request Unpacked)) (requests : List Request)
      → length requests ≡ length actions
      → length (map value (outcomes actions requests)) ≡ length actions
  length-outcomes [] requests e = refl
  length-outcomes (a ∷ actions) [] e = absurd (omega arith)
  length-outcomes (a ∷ actions) (request ∷ requests) e =
      ap suc (length-outcomes actions requests (omega arith))

  conclude-expected :
      (actions : List (Action Request Unpacked)) (remove_index : List ℕ)
      (values : List (Option Unpacked)) (failures : List ℕ)
      → conclude actions remove_index
          (ok (record { responses = values; failures = failures; try_again = none }))
        ≡ (
          delete_all actions remove_index,
          some (expected failures (delete_all values remove_index)),
        )
  unfolding conclude
  conclude-expected actions remove_index values [] = refl
  conclude-expected actions remove_index values (status ∷ failures) = refl

  -- What is left of the planned actions, and of as many values.
  planned-keeps :
      (added : Bool) (attempt : Attempt Request Unpacked) (actions : List (Action Request Unpacked))
      (values : List (Option Unpacked))
      → length values ≡ length (planned added attempt actions).0
      → (delete_all (planned added attempt actions).0 (planned added attempt actions).1 ≡ actions)
        × (delete_all values (planned added attempt actions).1
            ≡ asked added (length actions) values)
  unfolding planned delete_all
  planned-keeps false attempt actions values e = (refl, refl)
  planned-keeps true attempt actions [] e = absurd (omega arith)
  planned-keeps true attempt actions (v ∷ values) e = (
    delete-ends attempt.create_action (actions ++ (attempt.close_action ∷ [])) (length actions)
          (omega (arith, length-append actions (attempt.close_action ∷ [])))
        ∙ take-append_one actions attempt.close_action,
    delete-ends v values (length actions)
        (omega (arith, length-append actions (attempt.close_action ∷ []))),
  )

  -- The actions that a commit is to send: those that were asked for, between a create and a close of its
  -- own if the file is closed and they do not start with a create.
  abbrev pub framed :
      Attempt Request Unpacked → List (Action Request Unpacked) → List (Action Request Unpacked)
  framed attempt actions =
      if adds attempt actions
      then attempt.create_action ∷ (actions ++ (attempt.close_action ∷ []))
      else actions

  sent-framed :
      (attempt : Attempt Request Unpacked) (actions : List (Action Request Unpacked))
      → sent attempt actions ≡ framed attempt actions
  unfolding planned
  sent-framed attempt actions = either (adds attempt actions)
    where
      either :
          (b : Bool)
          → (planned b attempt actions).0 ≡ (
              if b
              then attempt.create_action ∷ (actions ++ (attempt.close_action ∷ []))
              else actions)
      either true = refl
      either false = refl

  -- Where no target takes over, the first action is received as any other.
  receive_one-no_target :
      (out : Result Unpacked) (rest : Result (Collected Request Unpacked))
      → receive_one (some no_target) out rest ≡ receive_one none out rest
  receive_one-no_target (ok res) rest = refl
  receive_one-no_target (err (smb_response_exception status)) rest = if_same (not_here status) _
  receive_one-no_target (err e) rest = refl

  receive_all-no_target :
      (b : Bool) (resolved : Resolved Request Unpacked) (actions : List (Action Request Unpacked))
      (requests : List Request)
      → resolved ≡ no_target
      → receive_all (if b then some resolved else none) actions requests
        ≡ receive_all none actions requests
  unfolding receive_all
  receive_all-no_target false resolved actions requests e = refl
  receive_all-no_target true resolved [] requests e = refl
  receive_all-no_target true resolved (a ∷ actions) [] e = refl
  receive_all-no_target true resolved (a ∷ actions) (request ∷ requests) e =
      rw e (receive_one-no_target (a.unpack_func request) (receive_all none actions requests))

  commit-sent :
      (attempt : Attempt Request Unpacked) (attempts : List (Attempt Request Unpacked))
      (actions : List (Action Request Unpacked))
      → attempt.resolved ≡ no_target
      → length (requests_of attempt actions) ≡ length (sent attempt actions)
      → All IsAnswer (outcomes (sent attempt actions) (requests_of attempt actions))
      → let outs = outcomes (sent attempt actions) (requests_of attempt actions) in
        commit (attempt ∷ attempts) actions
        ≡ some (
          actions,
          expected (statuses outs) (asked (adds attempt actions) (length actions) (map value outs)),
        )
  unfolding commit attempt_commit
  commit-sent attempt attempts actions no_one one_each answers =
      let planned_ = sent attempt actions in
      let remove_index : List ℕ = (plan attempt actions).1 in
      let outs = outcomes planned_ (requests_of attempt actions) in
      let (kept, values) =
        planned-keeps (adds attempt actions) attempt actions (map value outs)
          (length-outcomes planned_ (requests_of attempt actions) one_each) in
      ap (after_attempt (commit attempts)) (
        ap (conclude planned_ remove_index) (
          receive_all-no_target (starts_with_create planned_) attempt.resolved planned_
            (requests_of attempt actions) no_one)
        ∙ (ap (conclude planned_ remove_index)
              (receive_all-outcomes planned_ (requests_of attempt actions) one_each answers)
            ∙ (conclude-expected planned_ remove_index (map value outs) (statuses outs)
                ∙ ap₂ (λ left v. (left, some (expected (statuses outs) v))) kept values)))

  -- Where no DFS target takes over, a commit sends the actions that were asked for, between a create and a
  -- close of its own if the file is closed and they do not start with a create. Where there is a request
  -- for each message, and each unpack function returns or raises the status of a response, the commit
  -- raises the first status that an action failed with, or returns what the actions that were asked for
  -- gave, in their order, and in both cases keeps these actions and no others.
  pub commit-expected :
      (attempt : Attempt Request Unpacked) (attempts : List (Attempt Request Unpacked))
      (actions : List (Action Request Unpacked)) (requests : List Request)
      → attempt.resolved ≡ no_target
      → attempt.send_compound (map (λ a. a.message) (framed attempt actions)) ≡ requests
      → length requests ≡ length (framed attempt actions)
      → All IsAnswer (outcomes (framed attempt actions) requests)
      → let outs = outcomes (framed attempt actions) requests in
        commit (attempt ∷ attempts) actions
        ≡ some (
          actions,
          expected (statuses outs) (asked (adds attempt actions) (length actions) (map value outs)),
        )
  commit-expected attempt attempts actions requests no_one found one_each answers =
      subst Spec (sent-framed attempt actions) at_sent requests found one_each answers
    where
      Spec : List (Action Request Unpacked) → Type 0
      Spec actions_ =
          (requests : List Request)
          → attempt.send_compound (map (λ a. a.message) actions_) ≡ requests
          → length requests ≡ length actions_
          → All IsAnswer (outcomes actions_ requests)
          → commit (attempt ∷ attempts) actions
            ≡ some (
              actions,
              expected (statuses (outcomes actions_ requests)) (
                  asked (adds attempt actions) (length actions)
                    (map value (outcomes actions_ requests))),
            )

      at_sent : Spec (sent attempt actions)
      at_sent requests found =
          subst
            (λ rs.
              length rs ≡ length (sent attempt actions)
              → All IsAnswer (outcomes (sent attempt actions) rs)
              → commit (attempt ∷ attempts) actions
                ≡ some (
                  actions,
                  expected (statuses (outcomes (sent attempt actions) rs)) (
                      asked (adds attempt actions) (length actions)
                        (map value (outcomes (sent attempt actions) rs))),
                ))
            found (commit-sent attempt attempts actions no_one)

  -- `attempt_commit`, with the test of the plan as a variable.
  abbrev commit_as :
      Bool
      → Attempt Request Unpacked
      → List (Action Request Unpacked)
      → List (Action Request Unpacked) × Option (Committed Request Unpacked)
  commit_as added attempt actions =
      let planned_ = planned added attempt actions in
      conclude planned_.0 planned_.1 (
        receive_all (if starts_with_create planned_.0 then some attempt.resolved else none)
          planned_.0 (attempt.send_compound (map (λ a. a.message) planned_.0)))

  receive_all-retried :
      (first create : Action Request Unpacked) (rest : List (Action Request Unpacked))
      (request : Request) (requests : List Request) (status : ℕ)
      → first.unpack_func request ≡ err (smb_response_exception status)
      → not_here status ≡ true
      → length requests ≡ length rest
      → All IsAnswer (outcomes rest requests)
      → receive_all (some (target create)) (first ∷ rest) (request ∷ requests)
        ≡ ok (record {
          responses = none ∷ map value (outcomes rest requests);
          failures = statuses (outcomes rest requests);
          try_again = some create;
        })
  unfolding receive_all
  receive_all-retried first create rest request requests status out missing one_each answers =
      ap₂ (receive_one (some (target create))) out
        (receive_all-outcomes rest requests one_each answers)
      ∙ rw missing refl

  conclude-retried :
      (attempt : Attempt Request Unpacked) (create : Action Request Unpacked)
      (actions : List (Action Request Unpacked)) (values : List (Option Unpacked))
      (failures : List ℕ)
      → conclude
          (planned true attempt actions).0
          (planned true attempt actions).1
          (ok (record { responses = values; failures = failures; try_again = some create }))
        ≡ (actions, none)
  unfolding conclude planned
  conclude-retried attempt create actions values failures =
      ap (λ left. (left, none))
        (delete-ends create (actions ++ (attempt.close_action ∷ [])) (length actions)
            (omega (arith, length-append actions (attempt.close_action ∷ [])))
          ∙ take-append_one actions attempt.close_action)

  -- A create of the commit's own that fails with a name that is not there, on a path that a DFS target
  -- resolves, is tried again with the actions that were asked for, whatever the others failed with.
  pub commit-retried :
      (attempt : Attempt Request Unpacked) (attempts : List (Attempt Request Unpacked))
      (actions : List (Action Request Unpacked)) (create : Action Request Unpacked)
      (request : Request) (requests : List Request) (status : ℕ)
      → adds attempt actions ≡ true
      → is_create attempt.create_action ≡ true
      → attempt.resolved ≡ target create
      → requests_of attempt actions ≡ (request ∷ requests)
      → attempt.create_action.unpack_func request ≡ err (smb_response_exception status)
      → not_here status ≡ true
      → length requests ≡ suc (length actions)
      → All IsAnswer (outcomes (actions ++ (attempt.close_action ∷ [])) requests)
      → commit (attempt ∷ attempts) actions ≡ commit attempts actions
  unfolding commit attempt_commit planned
  commit-retried attempt attempts actions create request requests status added first takes_over
        found out missing one_each answers =
      ap (after_attempt (commit attempts)) (
        ap (λ b. commit_as b attempt actions) added
        ∙ (ap₂
              (λ resolved answered.
                conclude planned_.0 planned_.1 (receive_all resolved planned_.0 answered))
              (offered (is_create attempt.create_action) first)
              (ap (λ b. attempt.send_compound (map (λ a. a.message) (planned b attempt actions).0))
                  (sym added)
                ∙ found)
            ∙ (ap (conclude planned_.0 planned_.1) (
                  receive_all-retried attempt.create_action create
                    (actions ++ (attempt.close_action ∷ [])) request requests status out missing
                    (omega (arith, length-append actions (attempt.close_action ∷ []))) answers)
                ∙ conclude-retried attempt create actions
                    (none ∷ map value (outcomes (actions ++ (attempt.close_action ∷ [])) requests))
                    (statuses (outcomes (actions ++ (attempt.close_action ∷ [])) requests)))))
    where
      planned_ : List (Action Request Unpacked) × List ℕ
      planned_ = planned true attempt actions

      offered :
          (b : Bool) → b ≡ true → (if b then some attempt.resolved else none) ≡ some (target create)
      offered b e = rw e (ap some takes_over)
