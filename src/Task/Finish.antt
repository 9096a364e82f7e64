-- ===== src/Task/Finish.antt =====
-- task-service.js: `create`, `recordCommit`, `finish` and `cancel`.
use agentdock_mcp_harness.Base.{
  ℕ, String, Bool, true, false, not, Option, none, some, List, [], ◌∷◌, ◌&&◌, if◌then◌else◌, any,
  same_option, is_some, trim, truthy, or_else, Result, ok, err, ◌>>=◌, ◌>>◌, guard, Code,
  task_process_start_pending, task_commit_required, task_commit_not_retained,
  task_no_change_has_commit, task_no_change_reason_required, task_completion_metadata_invalid,
  task_completion_evidence_failed, task_completion_evidence_required, task_not_active,
}
use agentdock_mcp_harness.Task.{
  Task, TaskStatus, active, completed, cancelled, Outcome, commit, no_change, other, EvidenceKind,
  Completion, Reservation, VerificationStatus, verified, not_required, task_retention_ref,
  assert_active_record,
}
use agentdock_mcp_harness.Task.Evidence.{evaluate_completion_evidence, is_fail}

-- `Boolean(value)` of a text that may be `null`.
abbrev pub truthy_option : Option String → Bool
truthy_option none = false
truthy_option (some s) = truthy s

abbrev no_pending : List Reservation → Bool
no_pending [] = true
no_pending (_ ∷ _) = false

-- `#assertNoPendingProcessStarts`
abbrev pub assert_no_pending_process_starts : Task → Result (Unit {0})
assert_no_pending_process_starts task =
    guard (no_pending task.pending_process_starts) task_process_start_pending

-- The mutator of `recordCommit`.
unfoldable pub record_commit : String → ℕ → Task → Result (Task × Unit {0})
record_commit commit_sha now task = do
  assert_active_record task
  ok (record task { latest_commit_sha = some commit_sha; updated_at = now }, tt)

module _ (final_commit_sha : Option String) (reason : Option String)
    (retention_ref : Option String) where
  -- The checks of `finish` on the outcome.
  check_outcome : Option Outcome → Task → Result (Unit {0})
  check_outcome (some commit) task = do
    guard
        (truthy_option final_commit_sha && not (same_option final_commit_sha (some task.base_head)))
        task_commit_required
    canonical ← task_retention_ref task.task_id
    guard (same_option retention_ref (some canonical)) task_commit_not_retained
  check_outcome (some no_change) task = do
    guard (same_option final_commit_sha (some task.base_head)) task_no_change_has_commit
    guard (truthy (trim (or_else reason ""))) task_no_change_reason_required
    guard (not (truthy_option retention_ref)) task_completion_metadata_invalid
  check_outcome (some (other _)) task = err task_completion_metadata_invalid
  check_outcome none task = ok tt

  abbrev missing_code : Completion → Code
  missing_code verification =
      if any (λ r. is_fail r.state) verification.results
      then task_completion_evidence_failed
      else task_completion_evidence_required

  completed_task : Option Outcome → ℕ → Completion → Task → Task
  completed_task outcome now verification task =
      let contracted = is_some task.completion_contract in
      record task {
        status = completed;
        final_commit_sha = final_commit_sha;
        outcome = outcome;
        outcome_reason = reason;
        retention_ref = retention_ref;
        verification_status = if contracted then verified else not_required;
        verification_evidence = if contracted then some verification else none;
        verified_at = if contracted then some now else none;
        finished_at = some now;
        updated_at = now;
        approval_grants = [];
      }

  -- The mutator of `finish`.
  unfoldable pub finish : Option Outcome → ℕ → Task → Result (Task × Unit {0})
  unfolding check_outcome completed_task
  finish outcome now task = do
    assert_active_record task
    assert_no_pending_process_starts task
    check_outcome outcome task
    let verification = evaluate_completion_evidence task final_commit_sha
    guard verification.satisfied (missing_code verification)
    ok (completed_task outcome now verification task, tt)

cancel_from : TaskStatus → ℕ → Task → Result (Task × Unit {0})
cancel_from cancelled now task = ok (task, tt)
cancel_from completed now task = do assert_no_pending_process_starts task; err task_not_active
cancel_from active now task = do
  assert_no_pending_process_starts task
  ok (
    record task {
      status = cancelled;
      cancelled_at = some now;
      updated_at = now;
      approval_grants = [];
    },
    tt,
  )

-- The mutator of `cancel`.
unfoldable pub cancel : ℕ → Task → Result (Task × Unit {0})
unfolding cancel_from
cancel now task = cancel_from task.status now task

-- The document that `create` stores; the identifier, the source repository and the worktree come
-- from the calls before it, the contract from `normalizeCompletionContract`.
unfoldable pub create : String → String → String → String → Option (List EvidenceKind) → ℕ → Task
create task_id source_repo base_head worktree_path contract now = record {
  task_id = task_id;
  status = active;
  source_repo = source_repo;
  base_head = base_head;
  worktree_path = worktree_path;
  process_ids = [];
  pending_process_starts = [];
  approvals = [];
  approval_grants = [];
  latest_commit_sha = none;
  final_commit_sha = none;
  outcome = none;
  outcome_reason = none;
  retention_ref = none;
  completion_contract = contract;
  completion_evidence = [];
  verification_status = VerificationStatus.pending;
  verification_evidence = none;
  verified_at = none;
  finished_at = none;
  cancelled_at = none;
  workspace_cleaned = false;
  gc_safety_ref = none;
  cleaned_at = none;
  created_at = now;
  updated_at = now;
}
