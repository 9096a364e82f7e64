-- ===== src/Approval/Respond.antt =====
-- approval-service.js: `get` and `respond`.
use agentdock_mcp_harness.Base.{
  ℕ, String, Bool, Option, none, some, List, [], ◌∷◌, ◌++◌, if◌then◌else◌, same, find, update_first,
  Result, ok, err, ◌>>=◌, ◌>>◌, guard, approval_not_found, invalid_approval_decision,
  approval_already_resolved,
}
use agentdock_mcp_harness.Store.{Db}
use agentdock_mcp_harness.Task.{
  Task, Decision, allow_once, allow_task, deny, ask_user, ApprovalStatus, awaiting_user, approved,
  denied, Approval, Grant, get, mutate,
}
use agentdock_mcp_harness.Approval.{ApprovalEvent, approval_responded, assert_task_active, is_open}

abbrev pub has_id : String → Approval → Bool
has_id approval_id approval = same approval.approval_id approval_id

found_approval : Option Approval → Result Approval
found_approval none = err approval_not_found
found_approval (some approval) = ok approval

-- `get`
unfoldable pub get_approval : String → String → Db Task → Result Approval
unfolding found_approval
get_approval task_id approval_id db = do
  task ← get task_id db
  found_approval (find (has_id approval_id) task.approvals)

-- `DECISIONS.has(decision)`
unfoldable pub decision_of_text : String → Option Decision
decision_of_text s =
    if same s "ALLOW_ONCE"
    then some allow_once
    else if same s "ALLOW_TASK"
    then some allow_task
    else if same s "DENY"
    then some deny
    else if same s "ASK_USER"
    then some ask_user
    else none

abbrev pub status_after : Decision → ApprovalStatus
status_after ask_user = awaiting_user
status_after deny = denied
status_after _ = approved

abbrev pub resolved_after : Decision → ℕ → Option ℕ
resolved_after ask_user now = none
resolved_after _ now = some now

-- The approval as the response leaves it.
abbrev pub answered : Decision → ℕ → Approval → Approval
answered decision now approval = record approval {
  decision = some decision;
  updated_at = now;
  status = status_after decision;
  resolved_at = resolved_after decision now;
}

module _ (task_id approval_id grant_id : String) (now : ℕ) where
  abbrev pub new_grant : Decision → Approval → Grant
  new_grant decision approval = record {
    grant_id = grant_id;
    task_id = task_id;
    approval_id = approval_id;
    kind = decision;
    approval_scope = approval.approval_scope;
    fingerprint = approval.fingerprint;
    created_at = now;
  }

  abbrev pub grant_after : Decision → Approval → Option Grant
  grant_after ask_user approval = none
  grant_after deny approval = none
  grant_after decision approval = some (new_grant decision approval)

  abbrev with_grant : Option Grant → List Grant → List Grant
  with_grant none grants = grants
  with_grant (some grant) grants = grants ++ grant ∷ []

  answer : Decision → Approval → Task → Task × (Approval × Option Grant)
  answer decision approval task =
      let grant = grant_after decision approval in
      (
        record task {
          approvals = update_first (has_id approval_id) (answered decision now) task.approvals;
          approval_grants = with_grant grant task.approval_grants;
          updated_at = now;
        },
        (answered decision now approval, grant),
      )

  -- The mutator of `respond`.
  unfoldable pub respond_task : Decision → Task → Result (Task × (Approval × Option Grant))
  unfolding found_approval answer
  respond_task decision task = do
    assert_task_active task
    approval ← found_approval (find (has_id approval_id) task.approvals)
    guard (is_open approval.status) approval_already_resolved
    ok (answer decision approval task)

abbrev responded :
    String
    → Decision
    → Db Task × Result (Task × (Approval × Option Grant))
    → Db Task × Result (Approval × Option Grant) × List ApprovalEvent
responded approval_id decision (db, err c) = (db, err c, [])
responded approval_id decision (db, ok (_, (approval, grant))) =
    (db, ok (approval, grant), approval_responded approval_id decision approval.status grant ∷ [])

respond_by :
    Option Decision
    → String
    → String
    → String
    → ℕ
    → Db Task
    → Db Task × Result (Approval × Option Grant) × List ApprovalEvent
respond_by none task_id approval_id grant_id now db = (db, err invalid_approval_decision, [])
respond_by (some decision) task_id approval_id grant_id now db =
    responded approval_id decision
      (mutate task_id (respond_task task_id approval_id grant_id now decision) now db)

-- `respond`
unfoldable pub respond :
    String
    → String
    → String
    → String
    → ℕ
    → Db Task
    → Db Task × Result (Approval × Option Grant) × List ApprovalEvent
unfolding respond_by
respond task_id approval_id decision grant_id now db =
    respond_by (decision_of_text decision) task_id approval_id grant_id now db
