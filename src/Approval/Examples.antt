-- ===== src/Approval/Examples.antt =====
-- A request and its answer in approval-service.js, on a Task that holds nothing yet.
use agentdock_mcp_harness.Base.{
  String, true, false, ◌≡◌, refl, ◌⊎◌, Option, none, some, List, [], ◌∷◌, ok, string_dec, trim,
}
use agentdock_mcp_harness.Store.{Db, safe_document_part, mutate_document}
use agentdock_mcp_harness.Task.{
  Task, Approval, pending, Grant, allow_once, allow_task, mutate, matches_id,
}
use agentdock_mcp_harness.Task.Finish.{create}
use agentdock_mcp_harness.Policy.{Rule, allow, ask, PolicyDecision, evaluate, rule_matches}
use agentdock_mcp_harness.Approval.{authorize, authorize_task, allowed}
use agentdock_mcp_harness.Approval.Respond.{respond_task, answered, new_grant}
use agentdock_mcp_harness.Approval.Grants.{StoredConsent, authorize_consent}
use agentdock_mcp_harness.Approval.Once.{allow_once_once, requires_approval}

abbrev task_id : String
task_id = "task_00000000-0000-4000-8000-000000000001"

abbrev policy : PolicyDecision
policy = record { rule_id = "git"; effect = ask; approval_scope = "git-all" }

abbrev rules : List Rule
rules =
    record {
      id = "git";
      effect = ask;
      tool = "*";
      approval_scope = "git-all";
      shell_regex = none;
      argv_prefix = some ("git" ∷ []);
    }
    ∷ []

abbrev request : Approval
request = record {
  approval_id = "approval_1";
  task_id = task_id;
  status = pending;
  rule_id = "git";
  approval_scope = "git-all";
  tool = "run";
  fingerprint = "f1";
  created_at = 1;
  updated_at = 1;
  decision = none;
  resolved_at = none;
}

abbrev asking : Task
asking = record (create task_id "/repo" "base" "/worktree" none 0) { approvals = request ∷ [] }

allow_once_once_example :
    (u : Task) × (v : Task) × (respond_task task_id "approval_1" "grant_1" 2 allow_once asking
      ≡ ok (
        u,
        (
          answered allow_once 2 request,
          some (new_grant task_id "approval_1" "grant_1" 2 allow_once request),
        ),
      ))
    × (authorize_task task_id "run" "f1" policy "approval_2" 3 u
        ≡ ok (v, allowed (new_grant task_id "approval_1" "grant_1" 2 allow_once request)))
    × (v.approval_grants ≡ asking.approval_grants)
    × (requires_approval (authorize_task task_id "run" "f1" policy "approval_2" 4 v) ≡ true)
unfolding create string_dec
allow_once_once_example =
    allow_once_once task_id "run" policy "approval_1" "grant_1" "approval_2" 2 3 4 asking request
      refl refl refl refl refl refl refl

abbrev grant : Grant
grant = new_grant task_id "approval_1" "grant_1" 2 allow_task request

abbrev holding : Task
holding = record asking { approval_grants = grant ∷ [] }

abbrev stored : Db Task
stored = record {
  rows = record { kind = "task"; id = task_id; value = holding; revision = 1; updated_at = 2 } ∷ [];
  saved = none;
  closed = false;
}

abbrev argv : Option (List String)
argv = some ("git" ∷ "push" ∷ [])

authorize_consent_example :
    let policy = evaluate rules "run" none argv in
    let (after, _, _) = authorize rules task_id "run" none argv "f1" "approval_2" 3 stored in
    ((policy.effect ≡ allow) × (some grant ≡ none) × (after ≡ stored))
    ⊎ ((policy.effect ≡ ask)
        × StoredConsent task_id "f1" stored policy.approval_scope (some grant) after)
unfolding authorize authorize_task evaluate rule_matches mutate mutate_document safe_document_part
    matches_id string_dec trim create
authorize_consent_example =
    authorize_consent rules task_id "run" none argv "f1" "approval_2" 3 stored (some grant) refl

abbrev empty_task : Task
empty_task = create task_id "/repo" "base" "/worktree" none 0

asks_first :
    requires_approval (authorize_task task_id "run" "f1" policy "approval_1" 1 empty_task) ≡ true
unfolding authorize_task create string_dec
asks_first = refl
