-- ===== src/Plan/Requests.antt =====
-- plan-service.js: what `cancel` and `continue` do to the stored Plan of the Task that they name.
use agentdock_mcp_harness.Base.{
  ℕ, String, Bool, true, false, Option, none, some, List, find, update_first, if◌then◌else◌, same,
  same_option, or_else, trim, truthy, Result, ok, err, ◌>>◌, guard, plan_not_waiting,
  plan_repair_required, plan_step_mismatch,
}
use agentdock_mcp_harness.Plan.{
  pending, passed, continued, Step, PlanStatus, awaiting_assistant, awaiting_approval,
  awaiting_user, Blocker, BlockerCode, reasoning_required, human_confirmation_required, Plan,
  is_final, is_barrier,
}
use agentdock_mcp_harness.Plan.Mutators.{is_running_plan, touch}

-- The mutator of `cancel`
abbrev pub ask_to_cancel : Plan → Plan
ask_to_cancel plan =
    if is_running_plan plan.status then record plan { cancel_requested = true } else record plan {
      cancel_requested = true;
      status = PlanStatus.running;
      driver_id = none;
      driver_lease_until = none;
    }

-- `cancel`, up to its signal to a Run
unfoldable pub request_cancel : ℕ → Plan → Plan
request_cancel now plan = if is_final plan.status then plan else touch now (ask_to_cancel plan)

abbrev is_barrier_code : BlockerCode → Bool
is_barrier_code reasoning_required = true
is_barrier_code human_confirmation_required = true
is_barrier_code _ = false

abbrev pub blocked_by_barrier : Option Blocker → Bool
blocked_by_barrier none = false
blocked_by_barrier (some blocker) = is_barrier_code blocker.code

-- The two guards of `continue` on the status.
abbrev pub check_waiting : PlanStatus → Option Blocker → Result (Unit {0})
check_waiting awaiting_approval blocker = ok tt
check_waiting awaiting_user blocker = ok tt
check_waiting awaiting_assistant blocker = guard (blocked_by_barrier blocker) plan_repair_required
check_waiting _ blocker = err plan_not_waiting

abbrev pub blocked_step : Option Blocker → Option String
blocked_step none = none
blocked_step (some blocker) = blocker.step_id

abbrev pub find_step : String → List Step → Option Step
find_step id steps = find (λ step. same step.spec.step_id id) steps

abbrev normal_note : Option String → Option String
normal_note remark = let text = trim (or_else remark "") in if truthy text then some text else none

-- What `continue` assigns to the step.
abbrev pub continue_step : ℕ → Option String → Step → Step
continue_step now remark step =
    if is_barrier step.spec.action
    then record step {
      status = passed;
      ended_at = some now;
      result = some (continued (normal_note remark));
    }
    else record step { status = pending }

abbrev pub resume : List Step → Plan → Plan
resume steps plan = record plan {
  steps = steps;
  status = PlanStatus.running;
  blocker = none;
  completed_at = none;
  driver_id = none;
  driver_lease_until = none;
}

-- The mutator of `continue`
abbrev pub continue_found : ℕ → String → Option String → Plan → Option Step → Result Plan
continue_found now id remark plan none = err plan_step_mismatch
continue_found now id remark plan (some _) =
    if same_option (blocked_step plan.blocker) (some id)
    then ok (
        touch now (
          resume
            (update_first (λ step. same step.spec.step_id id) (continue_step now remark) plan.steps)
            plan))
    else err plan_step_mismatch

-- `continue`
unfoldable pub continue_plan : ℕ → String → Option String → Plan → Result Plan
continue_plan now id remark plan = do
  check_waiting plan.status plan.blocker
  continue_found now id remark plan (find_step id plan.steps)
