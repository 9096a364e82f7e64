-- ===== src/Plan.antt =====
-- plan-service.js: a durable Plan, its steps and their states. Times are milliseconds.
pub mod Validate
pub mod Dependencies
pub mod Mutators
pub mod Driver
pub mod Requests
pub mod Start
mod Examples
pub mod Updates
pub mod System
use agentdock_mcp_harness.Base.{ℕ, ℤ, String, Bool, true, false, Option, none, some, List}
use agentdock_mcp_harness.Task.{EvidenceKind, EvidenceRecord, Outcome}

-- STEP_ACTIONS
pub data StepAction : Type 0 where
  command reasoning_barrier human_barrier git_commit task_finish : StepAction

-- What `validateStep` returns. `evidence` is the kind and the summary.
pub record StepSpec : Type 0 where
  pub step_id : String
  pub action : StepAction
  pub depends_on : List String
  pub idempotency_key : String
  pub argv : Option (List String)
  pub shell : Option String
  pub cwd : String
  pub timeout_ms : Option ℕ
  pub exit_codes : List ℤ
  pub evidence : Option (EvidenceKind × String)
  pub retry_safe : Bool
  pub max_attempts : ℕ
  pub message : Option String
  pub outcome : Option String
  pub reason : Option String
  pub prompt : Option String

pub data StepStatus : Type 0 where
  pending running waiting passed failed cancelled interrupted : StepStatus

-- The result of a step that no Run carries out.
pub data StepResult : Type 0 where
  continued : Option String → StepResult
  commit_made : String → StepResult
  task_finished : Option Outcome → Option String → StepResult

pub record Step : Type 0 where
  pub spec : StepSpec
  pub status : StepStatus
  pub run_id : Option String
  pub started_at : Option ℕ
  pub ended_at : Option ℕ
  pub exit_code : Option ℤ
  pub signal : Option String
  pub error : Option String
  pub attempts : ℕ
  pub recorded_evidence : Option EvidenceRecord
  pub result : Option StepResult
  pub operation_started_head : Option String

pub data PlanStatus : Type 0 where
  running awaiting_assistant awaiting_approval awaiting_user : PlanStatus
  ready_to_commit completed cancelled : PlanStatus

-- The codes of a blocker.
pub data BlockerCode : Type 0 where
  reasoning_required human_confirmation_required approval_required step_failed : BlockerCode
  action_failed dependency_blocked driver_error plan_cancelled : BlockerCode

pub record Blocker : Type 0 where
  pub code : BlockerCode
  pub step_id : Option String

pub record Plan : Type 0 where
  pub plan_id : String
  pub task_id : String
  pub request_fingerprint : String
  pub status : PlanStatus
  pub revision : ℕ
  pub owner_instance_id : String
  pub driver_id : Option String
  pub driver_lease_until : Option ℕ
  pub cancel_requested : Bool
  pub blocker : Option Blocker
  pub created_at : ℕ
  pub updated_at : ℕ
  pub completed_at : Option ℕ
  pub steps : List Step

-- PLAN_FINAL
abbrev pub is_final : PlanStatus → Bool
is_final ready_to_commit = true
is_final completed = true
is_final PlanStatus.cancelled = true
is_final _ = false

-- PLAN_TERMINAL: everything but RUNNING
abbrev pub is_stopped : PlanStatus → Bool
is_stopped PlanStatus.running = false
is_stopped _ = true

-- PLAN_OPEN
abbrev pub is_open : PlanStatus → Bool
is_open PlanStatus.running = true
is_open awaiting_assistant = true
is_open awaiting_approval = true
is_open awaiting_user = true
is_open _ = false

abbrev pub is_barrier : StepAction → Bool
is_barrier reasoning_barrier = true
is_barrier human_barrier = true
is_barrier _ = false

abbrev pub is_pending : StepStatus → Bool
is_pending pending = true
is_pending _ = false

abbrev pub is_running : StepStatus → Bool
is_running StepStatus.running = true
is_running _ = false

abbrev pub is_passed : StepStatus → Bool
is_passed passed = true
is_passed _ = false

abbrev pub is_waiting : StepStatus → Bool
is_waiting waiting = true
is_waiting _ = false
