-- ===== src/Plan/Mutators.antt =====
-- plan-service.js: the assignments that `#executeTaskAction`, `#drive` and the `catch` of `#ensureDriver` make to a
-- stored Plan at the time `now`; each ends as `#mutate` does.
use agentdock_mcp_harness.Base.{
  ℕ, zero, suc, ◌+◌, ℤ, String, Bool, true, false, ◌||◌, Option, none, some, List, [], ◌∷◌,
  if◌then◌else◌, or_else,
}
use agentdock_mcp_harness.Task.{EvidenceRecord}
use agentdock_mcp_harness.Process.{RunStatus}
use agentdock_mcp_harness.Plan.{
  StepAction, human_barrier, StepStatus, pending, running, waiting, passed, failed, cancelled,
  interrupted, StepResult, Step, PlanStatus, awaiting_assistant, awaiting_approval, awaiting_user,
  ready_to_commit, completed, Blocker, BlockerCode, reasoning_required, human_confirmation_required,
  approval_required, step_failed, action_failed, dependency_blocked, driver_error, plan_cancelled,
  Plan, is_running, is_waiting,
}

-- What `status` reports of a Run.
pub record Report : Type 0 where
  pub status : RunStatus
  pub exit_code : Option ℤ
  pub signal : Option String
  pub error : Option String
  pub ended_at : Option ℕ

module _ {A : Type 0} where
  -- The list in which `xs[i]` is assigned to; out of range it is the list.
  abbrev pub update_at : ℕ → (A → A) → List A → List A
  update_at i f [] = []
  update_at zero f (x ∷ xs) = f x ∷ xs
  update_at (suc i) f (x ∷ xs) = x ∷ update_at i f xs

  -- One item further.
  abbrev pub shift : Option (ℕ × A) → Option (ℕ × A)
  shift none = none
  shift (some (i, x)) = some (suc i, x)

  -- `xs.findIndex(p)`, nothing for -1, with the item.
  abbrev pub find_index : (A → Bool) → List A → Option (ℕ × A)
  find_index p [] = none
  find_index p (x ∷ xs) = if p x then some (0, x) else shift (find_index p xs)

abbrev pub is_running_plan : PlanStatus → Bool
is_running_plan PlanStatus.running = true
is_running_plan _ = false

-- `value ??= now`
abbrev set_once : ℕ → Option ℕ → Option ℕ
set_once now at = some (or_else at now)

abbrev pub blocked_at : BlockerCode → String → Option Blocker
blocked_at code id = some (record { code = code; step_id = some id })

abbrev pub blocked : BlockerCode → Option Blocker
blocked code = some (record { code = code; step_id = none })

module _ (now : ℕ) where
  -- The end of `#mutate`
  abbrev pub touch : Plan → Plan
  touch plan = record plan { revision = plan.revision + 1; updated_at = now }

  -- A Plan that stops with a status and a blocker.
  abbrev pub stop : PlanStatus → Option Blocker → Plan → Plan
  stop status blocker plan = record plan {
    status = status;
    blocker = blocker;
    completed_at = some now;
  }

  abbrev pub with_step : ℕ → (Step → Step) → Plan → Plan
  with_step i f plan = record plan { steps = update_at i f plan.steps }

  -- `["RUNNING", "WAITING"].includes(step.status)`: the first such step is cancelled.
  abbrev pub cancel_current : List Step → List Step
  cancel_current [] = []
  cancel_current (step ∷ steps) =
      if is_running step.status || is_waiting step.status
      then record step { status = cancelled; ended_at = some now } ∷ steps
      else step ∷ cancel_current steps

  -- The mutation for a requested cancellation.
  abbrev pub cancel_plan : Plan → Plan
  cancel_plan plan = touch (
      stop PlanStatus.cancelled (blocked plan_cancelled)
        (record plan { steps = cancel_current plan.steps }))

  abbrev pub block_plan : Plan → Plan
  block_plan plan = touch (stop awaiting_assistant (blocked dependency_blocked) plan)

  -- `task_completed`: whether the Task's status is COMPLETED.
  abbrev pub complete_plan : Bool → Plan → Plan
  complete_plan task_completed plan =
      touch (stop (if task_completed then completed else ready_to_commit) none plan)

  abbrev pub barrier_status : StepAction → PlanStatus
  barrier_status human_barrier = awaiting_user
  barrier_status _ = awaiting_assistant

  abbrev pub barrier_code : StepAction → BlockerCode
  barrier_code human_barrier = human_confirmation_required
  barrier_code _ = reasoning_required

  abbrev pub wait_step : Step → Step
  wait_step step = record step { status = waiting; started_at = set_once now step.started_at }

  abbrev pub reach_barrier : ℕ → Step → Plan → Plan
  reach_barrier i step plan = touch (
      stop (barrier_status step.spec.action)
        (blocked_at (barrier_code step.spec.action) step.spec.step_id) (with_step i wait_step plan))

  -- `by_user`: the approval request awaits the user.
  abbrev pub await_approval : Bool → Step → Plan → Plan
  await_approval by_user step plan = touch (
      stop (if by_user then awaiting_user else awaiting_approval)
        (blocked_at approval_required step.spec.step_id) plan)

  abbrev pub run_step : String → Step → Step
  run_step run_id step = record step {
    status = running;
    run_id = some run_id;
    started_at = set_once now step.started_at;
    attempts = step.attempts + 1;
  }

  abbrev pub begin_run : String → ℕ → String → Plan → Plan
  begin_run instance i run_id plan =
      touch (with_step i (run_step run_id) (record plan { owner_instance_id = instance }))

  abbrev pub pass_step : Report → Step → Step
  pass_step report step = record step {
    status = passed;
    ended_at = set_once now report.ended_at;
    exit_code = report.exit_code;
    signal = report.signal;
    error = none;
  }

  abbrev pub pass_run : ℕ → Report → Plan → Plan
  pass_run i report plan = touch (with_step i (pass_step report) plan)

  abbrev pub note_evidence : EvidenceRecord → Step → Step
  note_evidence evidence step = record step { recorded_evidence = some evidence }

  abbrev pub record_step_evidence : ℕ → EvidenceRecord → Plan → Plan
  record_step_evidence i evidence plan = touch (with_step i (note_evidence evidence) plan)

  abbrev pub reset_step : Report → Step → Step
  reset_step report step = record step {
    status = pending;
    run_id = none;
    started_at = none;
    ended_at = set_once now report.ended_at;
    exit_code = report.exit_code;
    error = report.error;
  }

  abbrev pub retry_run : ℕ → Report → Plan → Plan
  retry_run i report plan = touch (with_step i (reset_step report) plan)

  abbrev pub failed_status : RunStatus → StepStatus
  failed_status RunStatus.cancelled = cancelled
  failed_status RunStatus.interrupted = interrupted
  failed_status _ = failed

  abbrev pub fail_step : Report → Option EvidenceRecord → Step → Step
  fail_step report evidence step = record step {
    status = failed_status report.status;
    ended_at = set_once now report.ended_at;
    exit_code = report.exit_code;
    signal = report.signal;
    error = report.error;
    recorded_evidence = evidence;
  }

  abbrev pub fail_run : ℕ → Step → Report → Option EvidenceRecord → Plan → Plan
  fail_run i step report evidence plan = touch (
      stop awaiting_assistant (blocked_at step_failed step.spec.step_id)
        (with_step i (fail_step report evidence) plan))

  -- The three mutations of `#executeTaskAction`.
  abbrev pub begin_step : String → Step → Step
  begin_step head step = record step {
    status = running;
    started_at = set_once now step.started_at;
    attempts = step.attempts + 1;
    operation_started_head = some head;
  }

  abbrev pub begin_commit : ℕ → String → Plan → Plan
  begin_commit i head plan = touch (with_step i (begin_step head) plan)

  abbrev pub finish_step : Option StepResult → Step → Step
  finish_step result step = record step {
    status = passed;
    started_at = set_once now step.started_at;
    ended_at = some now;
    result = result;
    error = none;
  }

  abbrev pub pass_action : ℕ → Option StepResult → Plan → Plan
  pass_action i result plan = touch (with_step i (finish_step result) plan)

  abbrev pub break_step : String → Step → Step
  break_step message step = record step {
    status = failed;
    started_at = set_once now step.started_at;
    ended_at = some now;
    error = some message;
  }

  abbrev pub fail_action : ℕ → Step → String → Plan → Plan
  fail_action i step message plan = touch (
      stop awaiting_assistant (blocked_at action_failed step.spec.step_id)
        (with_step i (break_step message) plan))

  -- The `catch` of `#ensureDriver`
  abbrev pub stop_driver : Plan → Plan
  stop_driver plan =
      if is_running_plan plan.status
      then touch (stop awaiting_assistant (blocked driver_error) plan)
      else plan
