-- ===== src/Plan/System.antt =====
-- plan-service.js: one stored Plan, the driver of one service on it, and its user. A `Phase` is where the driver
-- awaits something, with the step that it read before; an event is what happens next, at a time.
pub mod Invariant
pub mod Shapes
pub mod Work
pub mod Choices
pub mod Turn
pub mod Asked
pub mod Preserves
pub mod Reached
pub mod Cancels
pub mod Revisions
pub mod Progress
use agentdock_mcp_harness.Base.{
  ℕ, ◌+◌, String, Bool, true, false, not, ◌&&◌, ltb, Option, none, some, List, if◌then◌else◌,
  includes_int, ℤ, ◌||◌, get_elem?, is_some, Result, ok, err,
}
use agentdock_mcp_harness.Task.{EvidenceRecord}
use agentdock_mcp_harness.Process.{RunStatus, is_live}
use agentdock_mcp_harness.Plan.{
  StepAction, command, git_commit, StepResult, Step, Plan, is_barrier, is_pending,
}
use agentdock_mcp_harness.Plan.Requests.{request_cancel, continue_plan}
use agentdock_mcp_harness.Plan.Mutators.{
  Report, cancel_plan, block_plan, complete_plan, reach_barrier, await_approval, begin_run,
  pass_run, record_step_evidence, retry_run, fail_run, begin_commit, pass_action, fail_action,
  stop_driver,
}
use agentdock_mcp_harness.Plan.Driver.{
  Choice, work, block, complete, choose, ensure_driver, renew_driver,
}

pub data Phase : Type 0 where
  -- no driver
  idle : Phase
  -- at the head of `while (true)`
  turning : Phase
  -- in `processes.start`
  starting : ℕ → Step → Phase
  -- at the head of `while (!terminal)`
  polling : ℕ → Step → Phase
  -- in `processes.status`
  asking : ℕ → Step → Phase
  -- with `terminal`
  settling : ℕ → Step → Report → Phase
  -- in `git.currentHead`, for the evidence of a step that passed
  recording : ℕ → Phase
  -- in the `try` block of `#executeTaskAction`
  acting : ℕ → Step → Phase

pub record System : Type 0 where
  pub plan : Plan
  pub phase : Phase

pub data Started : Type 0 where
  process : String → Started
  -- APPROVAL_REQUIRED, and whether the request awaits the user
  approval : Bool → Started
  -- another error
  refused : Started

pub data ActionResult : Type 0 where
  done : Option StepResult → ActionResult
  broken : String → ActionResult
  -- the step was stored as PASSED, and then `audit.append` threw
  unlogged : Option StepResult → String → ActionResult

pub data Event : Type 0 where
  on_ensure : ℕ → Event
  on_turn : ℕ → Bool → Event
  on_start : ℕ → Started → Event
  on_poll : ℕ → Event
  on_report : ℕ → Report → Event
  on_settle : ℕ → Option EvidenceRecord → Event
  on_evidence : ℕ → EvidenceRecord → Event
  on_begin : ℕ → String → Event
  on_act : ℕ → ActionResult → Event
  -- an error that `#drive` does not catch
  on_throw : ℕ → Event
  -- the service is gone
  on_crash : Event
  on_cancel : ℕ → Event
  on_continue : ℕ → String → Option String → Event

-- `timeoutMs && Date.now() - startedAtMs >= timeoutMs`; a limit that was validated is not 0.
abbrev pub is_past : ℕ → Option ℕ → Option ℕ → Bool
is_past now (some begun) (some limit) = not (ltb now (begun + limit))
is_past now _ _ = false

abbrev pub timed_out : ℕ → Step → Bool
timed_out now step = is_past now step.started_at step.spec.timeout_ms

abbrev pub is_exited : RunStatus → Bool
is_exited RunStatus.exited = true
is_exited _ = false

abbrev pub accepts : List ℤ → Option ℤ → Bool
accepts codes none = false
accepts codes (some code) = includes_int codes code

abbrev pub succeeded : Step → Report → Bool
succeeded step r = is_exited r.status && accepts step.spec.exit_codes r.exit_code

abbrev pub timeout_report : Report → Report
timeout_report r = record r {
  status = RunStatus.failed;
  error = some "Plan step exceeded timeout_ms.";
}

abbrev pub is_command : StepAction → Bool
is_command command = true
is_command _ = false

abbrev pub is_commit : StepAction → Bool
is_commit git_commit = true
is_commit _ = false

abbrev pub is_process_action : StepAction → Bool
is_process_action action = is_command action || is_barrier action

abbrev pub to : Phase → Plan → System
to phase plan = record { plan = plan; phase = phase }

-- A driver whose renewal failed returns.
abbrev pub if_owned : Phase → Plan × Bool → System
if_owned next (plan, owned) = if owned then to next plan else to idle plan

-- Evidence of a failure is recorded only for a step that asks for evidence.
abbrev pub noted : Step → Option EvidenceRecord → Option EvidenceRecord
noted step recorded = if is_some step.spec.evidence then recorded else none

module _ (me : String) (instance_id : String) where
  -- `#drive` with the step that it chose.
  abbrev pub take_up : ℕ → Plan → ℕ → Step → System
  take_up now plan i step =
      if not (is_process_action step.spec.action)
      then to (acting i step) plan
      else if not (is_pending step.status)
      then to (polling i step) plan
      else if is_barrier step.spec.action
      then to idle (reach_barrier now i step plan)
      else to (starting i step) plan

  abbrev pub follow : ℕ → Bool → Plan → Choice → System
  follow now task_completed plan (work i step) = take_up now plan i step
  follow now task_completed plan block = to idle (block_plan now plan)
  follow now task_completed plan complete = to idle (complete_plan now task_completed plan)

  abbrev pub proceed : ℕ → Bool → Plan → System
  proceed now task_completed plan =
      if plan.cancel_requested
      then to idle (cancel_plan now plan)
      else follow now task_completed plan (choose plan.steps)

  abbrev pub proceed_owned : ℕ → Bool → Plan × Bool → System
  proceed_owned now task_completed (plan, owned) =
      if owned then proceed now task_completed plan else to idle plan

  -- One turn of `while (true)` up to what it awaits first.
  abbrev pub do_turn : ℕ → Bool → Plan → System
  do_turn now task_completed plan = proceed_owned now task_completed (renew_driver now me plan)

  -- A mutation after which the driver holds the stored step.
  abbrev pub hold : (Step → Phase) → Option Step → Plan → System
  hold phase none plan = to idle plan
  hold phase (some step) plan = to (phase step) plan

  abbrev pub do_start : ℕ → ℕ → Step → Plan → Started → System
  do_start now i step plan (process run_id) =
      let running = begin_run now instance_id i run_id plan in
      hold (polling i) (get_elem? running.steps i) running
  do_start now i step plan (approval by_user) = to idle (await_approval now by_user step plan)
  do_start now i step plan refused = to idle (stop_driver now plan)

  -- The head of `while (!terminal)`
  abbrev pub do_poll : ℕ → ℕ → Step → Plan → System
  do_poll now i step plan =
      if plan.cancel_requested
      then to turning plan
      else if_owned (asking i step) (renew_driver now me plan)

  abbrev pub do_report : ℕ → ℕ → Step → Plan → Report → System
  do_report now i step plan r =
      if not (is_live r.status)
      then to (settling i step r) plan
      else if timed_out now step
      then to (settling i step (timeout_report r)) plan
      else to (polling i step) plan

  abbrev pub do_settle : ℕ → ℕ → Step → Report → Plan → Option EvidenceRecord → System
  do_settle now i step r plan recorded =
      if succeeded step r
      then to (if is_some step.spec.evidence then recording i else turning) (pass_run now i r plan)
      else if ltb step.attempts step.spec.max_attempts
      then to turning (retry_run now i r plan)
      else to idle (fail_run now i step r (noted step recorded) plan)

  abbrev pub do_begin : ℕ → ℕ → Step → Plan → String → System
  do_begin now i step plan head =
      if is_commit step.spec.action && is_pending step.status
      then (let begun = begin_commit now i head plan in
          hold (acting i) (get_elem? begun.steps i) begun)
      else to (acting i step) plan

  abbrev pub do_act : ℕ → ℕ → Step → Plan → ActionResult → System
  do_act now i step plan (done result) =
      if is_commit step.spec.action && is_pending step.status
      then to (acting i step) plan
      else to turning (pass_action now i result plan)
  do_act now i step plan (unlogged result message) =
      if is_commit step.spec.action && is_pending step.status
      then to (acting i step) plan
      else to idle (fail_action now i step message (pass_action now i result plan))
  do_act now i step plan (broken message) = to idle (fail_action now i step message plan)

  -- What an event does; one that is not what the driver awaits does nothing.
  abbrev pub driven : Event → Plan → Phase → System
  driven (on_turn now task_completed) plan turning = do_turn now task_completed plan
  driven (on_start now result) plan (starting i step) = do_start now i step plan result
  driven (on_poll now) plan (polling i step) = do_poll now i step plan
  driven (on_report now r) plan (asking i step) = do_report now i step plan r
  driven (on_settle now recorded) plan (settling i step r) = do_settle now i step r plan recorded
  driven (on_evidence now recorded) plan (recording i) =
      to turning (record_step_evidence now i recorded plan)
  driven (on_begin now head) plan (acting i step) = do_begin now i step plan head
  driven (on_act now result) plan (acting i step) = do_act now i step plan result
  driven _ plan phase = to phase plan

  abbrev pub ensured : ℕ → Plan → Phase → System
  ensured now plan idle = if_owned turning (ensure_driver now me plan)
  ensured now plan phase = to phase plan

  abbrev pub thrown_at : ℕ → Plan → Phase → System
  thrown_at now plan idle = to idle plan
  thrown_at now plan phase = to idle (stop_driver now plan)

  abbrev pub continued_to : Plan → Phase → Result Plan → System
  continued_to plan phase (ok next) = to phase next
  continued_to plan phase (err c) = to phase plan

  unfoldable pub step : Event → System → System
  step (on_ensure now) s = ensured now s.plan s.phase
  step (on_throw now) s = thrown_at now s.plan s.phase
  step on_crash s = to idle s.plan
  step (on_cancel now) s = to s.phase (request_cancel now s.plan)
  step (on_continue now id remark) s =
      continued_to s.plan s.phase (continue_plan now id remark s.plan)
  step event s = driven event s.plan s.phase

  -- The systems that some events lead to.
  pub data Reach (from : System) : System → Type 0 where
    at_start : Reach from from
    then_event : {s : System} → Reach from s → (event : Event) → Reach from (step event s)
