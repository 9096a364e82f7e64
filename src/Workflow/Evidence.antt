-- ===== src/Workflow/Evidence.antt =====
-- workflow-service.js: implementation evidence, review evidence and open decisions.
use Prim.Native.Char.{code}
use agentdock_mcp_harness.Base.{
  ℕ, zero, suc, String, Bool, true, false, not, ◌&&◌, ◌||◌, Option, none, some, List, [], ◌∷◌, map,
  leb, ◌==◌, if◌then◌else◌, same, keep, length, unique, trim, truthy, or_else, is_some, Result, ok,
  err, ◌>>=◌, ◌>>◌, guard, workflow_implementation_evidence_required, workflow_task_repo_mismatch,
  workflow_implementation_incomplete, workflow_implementation_not_verified,
  workflow_implementation_evidence_invalid, invalid_workflow_review_evidence,
  workflow_review_evidence_required, workflow_review_target_mismatch,
  workflow_review_blocking_findings, workflow_open_decisions,
}
use agentdock_mcp_harness.Task.{
  Task, TaskStatus, completed, Outcome, commit, no_change, VerificationStatus, verified,
}
use agentdock_mcp_harness.Task.Finish.{truthy_option}
use agentdock_mcp_harness.Workflow.{
  EvidenceUnit, ImplementationEvidence, ReviewAxis, ReviewEvidence, Workflow,
}

abbrev pub is_completed : TaskStatus → Bool
is_completed completed = true
is_completed _ = false

abbrev pub is_verified : VerificationStatus → Bool
is_verified verified = true
is_verified _ = false

-- The durable outcome of a Task, if it has one. Every Task of the model has a verification status, so the
-- `?? "LEGACY"` of the source is never taken.
unfoldable pub outcome_unit : Option Outcome → String → Task → Result EvidenceUnit
outcome_unit (some commit) task_id task =
    if truthy_option task.final_commit_sha && truthy_option task.retention_ref
    then ok (record {
      task_id = task_id;
      committed = true;
      final_commit_sha = task.final_commit_sha;
      retention_ref = task.retention_ref;
      outcome_reason = none;
      verification_status = task.verification_status;
    })
    else err workflow_implementation_evidence_invalid
outcome_unit (some no_change) task_id task =
    let reason = trim (or_else task.outcome_reason "") in
    if truthy reason
    then ok (record {
      task_id = task_id;
      committed = false;
      final_commit_sha = none;
      retention_ref = none;
      outcome_reason = some reason;
      verification_status = task.verification_status;
    })
    else err workflow_implementation_evidence_invalid
outcome_unit _ task_id task = err workflow_implementation_evidence_invalid

-- One round of the `map` in `#captureImplementationEvidence`, for the Task that was read.
unfoldable pub unit_of : String → String → Task → Result EvidenceUnit
unfolding outcome_unit
unit_of repo_path task_id task = do
  guard (same task.source_repo repo_path) workflow_task_repo_mismatch
  guard (is_completed task.status) workflow_implementation_incomplete
  guard (not (is_some task.completion_contract) || is_verified task.verification_status)
      workflow_implementation_not_verified
  outcome_unit task.outcome task_id task

-- What the service calls outside this file: `taskService.get`, the sort by `localeCompare`, and
-- the SHA-256 of the JSON of the units.
pub record Outside : Type 0 where
  pub get_task : String → Result Task
  pub sort_units : List EvidenceUnit → List EvidenceUnit
  pub fingerprint : List EvidenceUnit → String

module _ (outside : Outside) where
  unfoldable pub units_of : String → List String → Result (List EvidenceUnit)
  units_of repo_path [] = ok []
  units_of repo_path (task_id ∷ rest) = do
    task ← outside.get_task task_id
    unit ← unit_of repo_path task_id task
    units ← units_of repo_path rest
    ok (unit ∷ units)

  abbrev captured : ℕ → List EvidenceUnit → ImplementationEvidence
  captured now units =
      let sorted = outside.sort_units units in
      record { captured_at = now; fingerprint = outside.fingerprint sorted; units = sorted }

  -- `#captureImplementationEvidence`
  unfoldable pub capture_implementation_evidence : ℕ → Workflow → Result ImplementationEvidence
  unfolding units_of
  capture_implementation_evidence now workflow = do
    let task_ids = unique workflow.implementation_task_ids
    guard (leb 1 (length task_ids)) workflow_implementation_evidence_required
    units ← units_of workflow.repo_path task_ids
    ok (captured now units)

hex_char : ℕ → Bool
hex_char c = (leb b'0' c && leb c b'9') || (leb b'a' c && leb c b'f')

-- `/^[0-9a-f]{n}$/`
hex_chars : ℕ → String → Bool
hex_chars zero String.[] = true
hex_chars zero (String.◌∷◌ c s) = false
hex_chars (suc n) String.[] = false
hex_chars (suc n) (String.◌∷◌ c s) = hex_char (code c) && hex_chars n s

-- The review evidence of a call: each axis has its result text and its count, which is nothing
-- where it is no non-negative integer.
pub record ReviewInput : Type 0 where
  pub target_fingerprint : String
  pub standards : String × Option ℕ
  pub spec : String × Option ℕ
  pub note : String

-- `toUpperCase` is the argument `upper`.
module _ (upper : String → String) where
  axis_findings : Bool → Option ℕ → Result ReviewAxis
  axis_findings passed none = err invalid_workflow_review_evidence
  axis_findings passed (some findings) =
      ok (record { passed = passed; blocking_findings = findings })

  normalize_axis : String × Option ℕ → Result ReviewAxis
  unfolding axis_findings
  normalize_axis (text, findings) =
      let result = upper (trim text) in
      if same result "PASS"
      then axis_findings true findings
      else if same result "FAIL"
      then axis_findings false findings
      else err invalid_workflow_review_evidence

  -- `#normalizeReviewEvidence`
  unfoldable pub normalize_review_evidence : ReviewInput → ℕ → Result ReviewEvidence
  unfolding hex_char hex_chars normalize_axis
  normalize_review_evidence value now = do
    let target = trim value.target_fingerprint
    guard (hex_chars 64 target) invalid_workflow_review_evidence
    standards ← normalize_axis value.standards
    spec ← normalize_axis value.spec
    let note = trim value.note
    ok (record {
      target_fingerprint = target;
      standards = standards;
      spec = spec;
      note = if truthy note then some note else none;
      recorded_at = now;
    })

abbrev axis_passes : ReviewAxis → Bool
axis_passes axis = axis.passed && axis.blocking_findings == 0

review_of : Option ReviewEvidence → Result ReviewEvidence
review_of none = err workflow_review_evidence_required
review_of (some review) = ok review

-- `#assertReviewPassed`, with the implementation evidence that is there.
unfoldable pub assert_review_passed : ImplementationEvidence → Workflow → Result (Unit {0})
unfolding review_of
assert_review_passed implementation workflow = do
  review ← review_of workflow.review_evidence
  guard (same review.target_fingerprint implementation.fingerprint) workflow_review_target_mismatch
  guard (axis_passes review.standards && axis_passes review.spec) workflow_review_blocking_findings

abbrev pub no_decisions : List String → Bool
no_decisions [] = true
no_decisions (_ ∷ _) = false

-- `#assertNoOpenDecisions`
unfoldable pub assert_no_open_decisions : Workflow → Result (Unit {0})
assert_no_open_decisions workflow =
    guard (no_decisions (keep truthy (map trim workflow.open_decisions))) workflow_open_decisions
