-- ===== src/Plan/Start/Examples.antt =====
-- `start` of plan-service.js on two steps and a Task that is ACTIVE.
use agentdock_mcp_harness.Base.{
  ◌≤◌, String, false, ◌≡◌, refl, Option, none, some, List, [], ◌∷◌, ok, string_dec, trim, arith,
  count,
}
use agentdock_mcp_harness.Store.{Db}
use agentdock_mcp_harness.Task.{Task}
use agentdock_mcp_harness.Task.Finish.{create}
use agentdock_mcp_harness.Plan.{StepSpec, Plan}
use agentdock_mcp_harness.Plan.Validate.{
  StepInput, validate_steps, validate_step, validate_object, text_length, matches_step_id,
}
use agentdock_mcp_harness.Plan.Dependencies.{
  validate_dependencies, check_known, Marks, search_cycle, visit,
}
use agentdock_mcp_harness.Plan.Start.{new_plan, is_open_of, checked_steps, start}
use agentdock_mcp_harness.Plan.Start.Sound.{new_plan-IsSound}
use agentdock_mcp_harness.Plan.Start.Replays.{start-one_open}
use agentdock_mcp_harness.Plan.System.{idle, to}
use agentdock_mcp_harness.Plan.System.Invariant.{IsSound}
use agentdock_mcp_harness.Plan.System.Progress.{specs_of}
use agentdock_mcp_harness.Plan.Examples.{two_specs}

abbrev input_of : String → StepInput
input_of id = record {
  step_id = id;
  action = none;
  argv = some ("make" ∷ id ∷ []);
  shell = none;
  has_env = false;
  timeout_ms = none;
  depends_on = none;
  idempotency_key = none;
  exit_codes = none;
  max_attempts = none;
  retry_safe = false;
  message = "";
  evidence = none;
  outcome = none;
  reason = "";
  prompt = "";
  cwd = none;
}

abbrev inputs : List (Option StepInput)
inputs = some (input_of "build") ∷ some (input_of "test") ∷ []

abbrev same_text : String → String
same_text s = s

abbrev an_id : String → String → String
an_id task_id key = "plan_1"

abbrev a_print : List StepSpec → String
a_print specs = "f"

abbrev task_id : String
task_id = "task_00000000-0000-4000-8000-000000000001"

abbrev tasks : Db Task
tasks = record {
  rows =
      record {
        kind = "task";
        id = task_id;
        value = create task_id "/repo" "base" "/worktree" none 0;
        revision = 1;
        updated_at = 0;
      }
      ∷ [];
  saved = none;
  closed = false;
}

abbrev no_plans : Db Plan
no_plans = record { rows = []; saved = none; closed = false }

inputs_checked : checked_steps same_text an_id a_print "runtime_1" "key" inputs ≡ ok two_specs
unfolding checked_steps validate_steps validate_step validate_object trim text_length
    matches_step_id validate_dependencies check_known search_cycle visit string_dec
inputs_checked = refl

new_plan-IsSound_example :
    IsSound (to idle (new_plan "plan_1" task_id "f" "runtime_1" two_specs 5))
    × (marks : Marks) × (validate_dependencies
          (specs_of (new_plan "plan_1" task_id "f" "runtime_1" two_specs 5).steps)
        ≡ some (ok marks))
new_plan-IsSound_example =
    new_plan-IsSound same_text an_id a_print "runtime_1" "key" task_id "plan_1" "f" inputs two_specs
      5 inputs_checked

start-one_open_example :
    count
      (is_open_of task_id)
      (start same_text an_id a_print "runtime_1" "driver_1"
        (ok tt)
        tasks
        task_id
        "key"
        inputs
        5
        no_plans).0.rows
    ≤ 1
start-one_open_example =
    start-one_open same_text an_id a_print "runtime_1" "driver_1" (ok tt) tasks task_id "key"
      task_id inputs 5 no_plans (omega arith)
