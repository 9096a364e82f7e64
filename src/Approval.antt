-- ===== src/Approval.antt =====
-- approval-service.js: authorising an operation (Respond answers an approval request).
-- The hash of an operation, the new identifiers and the clock are arguments.
pub mod Respond
pub mod Grants
pub mod Once
pub mod Backing
mod Examples
use agentdock_mcp_harness.Base.{
  ℕ, String, Bool, true, false, ◌&&◌, ◌||◌, Option, none, some, List, [], ◌∷◌, ◌++◌, if◌then◌else◌,
  same, find, remove_first, update_first, Result, ok, err, ◌>>=◌, ◌>>◌, guard, Code,
  task_not_active, approval_not_found, invalid_approval_decision, approval_already_resolved,
  policy_denied,
}
use agentdock_mcp_harness.Store.{Db}
use agentdock_mcp_harness.Task.{
  Task, is_active, Decision, allow_once, allow_task, deny, ask_user, ApprovalStatus, pending,
  awaiting_user, approved, denied, Approval, Grant, get, mutate,
}
use agentdock_mcp_harness.Policy.{Rule, Effect, allow, ask, PolicyDecision, evaluate}

-- `assertTaskActive` of this file: a cleaned Task has the same error.
abbrev pub assert_task_active : Task → Result (Unit {0})
assert_task_active task =
    if is_active task.status
    then (if task.workspace_cleaned then err task_not_active else ok tt)
    else err task_not_active

-- What the mutator of `authorize` returns: `required` says whether the request is new.
pub data Authorization : Type 0 where
  allowed : Grant → Authorization
  required : Approval → Bool → Authorization

abbrev pub is_allow_task : Decision → Bool
is_allow_task allow_task = true
is_allow_task _ = false

abbrev pub is_allow_once : Decision → Bool
is_allow_once allow_once = true
is_allow_once _ = false

abbrev pub is_open : ApprovalStatus → Bool
is_open pending = true
is_open awaiting_user = true
is_open _ = false

-- The tests of the three searches of `authorize`.
abbrev pub covers_task : String → Grant → Bool
covers_task scope grant = is_allow_task grant.kind && same grant.approval_scope scope

abbrev pub covers_once : String → String → Grant → Bool
covers_once scope fingerprint grant =
    is_allow_once grant.kind
    && same grant.fingerprint fingerprint
    && same grant.approval_scope scope

abbrev pub asks_for : String → String → Approval → Bool
asks_for rule_id fingerprint approval =
    same approval.fingerprint fingerprint
    && same approval.rule_id rule_id
    && is_open approval.status

module _ (task_id tool fingerprint : String) (policy : PolicyDecision) (new_id : String)
    (now : ℕ) where
  abbrev pub new_request : Approval
  new_request = record {
    approval_id = new_id;
    task_id = task_id;
    status = pending;
    rule_id = policy.rule_id;
    approval_scope = policy.approval_scope;
    tool = tool;
    fingerprint = fingerprint;
    created_at = now;
    updated_at = now;
    decision = none;
    resolved_at = none;
  }

  -- No grant covers the operation: an open request is found, or a new one is made.
  request_approval : Option Approval → Task → Task × Authorization
  request_approval (some existing) task = (task, required existing false)
  request_approval none task = (
    record task { approvals = task.approvals ++ new_request ∷ []; updated_at = now },
    required new_request true,
  )

  use_once : Option Grant → Task → Task × Authorization
  unfolding request_approval
  use_once (some grant) task =
      let rest =
        remove_first (covers_once policy.approval_scope fingerprint) task.approval_grants in
      (record task { approval_grants = rest; updated_at = now }, allowed grant)
  use_once none task =
      request_approval (find (asks_for policy.rule_id fingerprint) task.approvals) task

  use_task : Option Grant → Task → Task × Authorization
  unfolding use_once
  use_task (some grant) task = (task, allowed grant)
  use_task none task =
      use_once (find (covers_once policy.approval_scope fingerprint) task.approval_grants) task

  -- The mutator of `authorize`.
  unfoldable pub authorize_task : Task → Result (Task × Authorization)
  unfolding use_task
  authorize_task task = do
    assert_task_active task
    ok (use_task (find (covers_task policy.approval_scope) task.approval_grants) task)

-- What `appendAudit` is called with.
pub data ApprovalEvent : Type 0 where
  approval_requested : Approval → ApprovalEvent
  approval_responded : String → Decision → ApprovalStatus → Option Grant → ApprovalEvent

-- How `authorize` ends: it returns, with the grant that was used if there was one; it throws
-- APPROVAL_REQUIRED with the request; or it throws another error.
pub data Verdict : Type 0 where
  permitted : Option Grant → Verdict
  needs_approval : Approval → Verdict
  refused : Code → Verdict

abbrev verdict_of : Result (Task × Authorization) → Verdict × List ApprovalEvent
verdict_of (err c) = (refused c, [])
verdict_of (ok (_, allowed grant)) = (permitted (some grant), [])
verdict_of (ok (_, required request true)) =
    (needs_approval request, approval_requested request ∷ [])
verdict_of (ok (_, required request false)) = (needs_approval request, [])

abbrev conclude : Db Task × Result (Task × Authorization) → Db Task × Verdict × List ApprovalEvent
conclude (db, r) = (db, (verdict_of r).0, (verdict_of r).1)

authorize_by :
    Effect
    → PolicyDecision
    → String
    → String
    → String
    → String
    → ℕ
    → Db Task
    → Db Task × Verdict × List ApprovalEvent
authorize_by allow policy task_id tool fingerprint new_id now db = (db, permitted none, [])
authorize_by ask policy task_id tool fingerprint new_id now db =
    conclude (mutate task_id (authorize_task task_id tool fingerprint policy new_id now) now db)
authorize_by Effect.deny policy task_id tool fingerprint new_id now db =
    (db, refused policy_denied, [])

-- `authorize`; `fingerprint` is the hash of tool, shell, argv, cwd and env.
unfoldable pub authorize :
    List Rule
    → String
    → String
    → Option String
    → Option (List String)
    → String
    → String
    → ℕ
    → Db Task
    → Db Task × Verdict × List ApprovalEvent
unfolding authorize_by
authorize rules task_id tool shell argv fingerprint new_id now db =
    let policy = evaluate rules tool shell argv in
    authorize_by policy.effect policy task_id tool fingerprint new_id now db
