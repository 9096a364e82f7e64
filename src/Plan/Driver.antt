-- ===== src/Plan/Driver.antt =====
-- plan-service.js: the choice of the next step in `#drive`, and the lease of `#ensureDriver` and `#renewDriver`.
pub mod Lease
use agentdock_mcp_harness.Plan.Mutators.{
  Report, await_approval, barrier_code, barrier_status, begin_commit, begin_run, begin_step,
  block_plan, blocked, blocked_at, break_step, cancel_current, cancel_plan, complete_plan,
  fail_action, fail_run, fail_step, failed_status, find_index, finish_step, is_running_plan,
  note_evidence, pass_action, pass_run, pass_step, reach_barrier, record_step_evidence, reset_step,
  retry_run, run_step, shift, stop, stop_driver, touch, update_at, wait_step, with_step,
}
use agentdock_mcp_harness.Base.{
  ℕ, zero, suc, ◌+◌, ℤ, String, Bool, true, false, not, ◌&&◌, ◌||◌, ltb, Option, none, some, List,
  [], ◌∷◌, find, all, if◌then◌else◌, same, same_option, or_else, truthy,
}
use agentdock_mcp_harness.Task.{EvidenceRecord}
use agentdock_mcp_harness.Process.{RunStatus}
use agentdock_mcp_harness.Plan.{
  StepAction, human_barrier, StepStatus, pending, running, waiting, passed, failed, cancelled,
  interrupted, StepResult, Step, PlanStatus, awaiting_assistant, awaiting_approval, awaiting_user,
  ready_to_commit, completed, Blocker, BlockerCode, reasoning_required, human_confirmation_required,
  approval_required, step_failed, action_failed, dependency_blocked, driver_error, plan_cancelled,
  Plan, is_pending, is_running, is_passed, is_waiting,
}

-- DRIVER_LEASE_MS
abbrev pub lease_ms : ℕ
lease_ms = 3000

-- `plan.steps.find((candidate) => candidate.step_id === dependency)?.status === "PASSED"`
abbrev pub found_passed : Option Step → Bool
found_passed none = false
found_passed (some step) = is_passed step.status

abbrev pub dependency_passed : List Step → String → Bool
dependency_passed steps id = found_passed (find (λ step. same step.spec.step_id id) steps)

abbrev pub dependencies_passed : List Step → Step → Bool
dependencies_passed steps step = all (dependency_passed steps) step.spec.depends_on

abbrev pub is_ready : List Step → Step → Bool
is_ready steps step = is_pending step.status && dependencies_passed steps step

-- What the loop of `#drive` does next with a Plan that is neither stopped nor to be cancelled.
pub data Choice : Type 0 where
  work : ℕ → Step → Choice
  block : Choice
  complete : Choice

abbrev pub finish_or_block : List Step → Choice
finish_or_block steps = elim (find (λ step. is_pending step.status) steps) [
  | none ↦ complete
  | some _ ↦ block
]

abbrev pub ready_choice : List Step → Option (ℕ × Step) → Choice
ready_choice steps none = finish_or_block steps
ready_choice steps (some (i, step)) = work i step

abbrev pub running_choice : List Step → Option (ℕ × Step) → Choice
running_choice steps none = ready_choice steps (find_index (is_ready steps) steps)
running_choice steps (some (i, step)) = work i step

unfoldable pub choose : List Step → Choice
choose steps = running_choice steps (find_index (λ step. is_running step.status) steps)

-- `!current.driver_id`
abbrev pub is_free : Option String → Bool
is_free none = true
is_free (some driver) = not (truthy driver)

-- `Number.isFinite(lease) && lease > now`
abbrev pub is_leased : ℕ → Option ℕ → Bool
is_leased now none = false
is_leased now (some lease) = ltb now lease

module _ (now : ℕ) where
  -- The mutator of `#ensureDriver`, and whether it claimed the Plan.
  abbrev pub may_claim : String → Plan → Bool
  may_claim me plan =
      is_running_plan plan.status
      && (is_free plan.driver_id
          || same_option plan.driver_id (some me)
          || not (is_leased now plan.driver_lease_until))

  abbrev pub lease_to : String → Plan → Plan
  lease_to me plan =
      touch now (record plan { driver_id = some me; driver_lease_until = some (now + lease_ms) })

  -- `#ensureDriver` up to its `#drive`: the first guards, and the mutation. A mutation that claims nothing counts too.
  unfoldable pub ensure_driver : String → Plan → Plan × Bool
  ensure_driver me plan =
      if not (is_running_plan plan.status)
      then (plan, false)
      else if not (is_free plan.driver_id)
          && not (same_option plan.driver_id (some me))
          && is_leased now plan.driver_lease_until
      then (plan, false)
      else if may_claim me plan
      then (lease_to me plan, true)
      else (touch now plan, false)

  -- `lease - now > DRIVER_LEASE_MS / 2`
  abbrev pub lease_is_fresh : Option ℕ → Bool
  lease_is_fresh none = false
  lease_is_fresh (some lease) = ltb (now + 1500) lease

  -- `#renewDriver`
  unfoldable pub renew_driver : String → Plan → Plan × Bool
  renew_driver me plan =
      if not (same_option plan.driver_id (some me)) || not (is_running_plan plan.status)
      then (plan, false)
      else if lease_is_fresh plan.driver_lease_until
      then (plan, true)
      else (lease_to me plan, true)
