-- ===== src/Plan/Examples.antt =====
-- A Plan of two steps in plan-service.js: `build`, and `test`, which depends on it.
use agentdock_mcp_harness.Base.{
  ℕ, pos, String, true, false, ◌≡◌, ◌≢◌, ◌↔◌, refl, none, some, List, [], ◌∷◌, Result, ok, err,
  string_dec, arith, inl, inr, invalid_plan_dependency, same_iff,
}
use mathlib.Core.Bool.{false≢true}
use agentdock_mcp_harness.Plan.{
  StepSpec, command, Step, passed, PlanStatus, completed, awaiting_user, is_final,
}
use agentdock_mcp_harness.Plan.Dependencies.{
  validate_dependencies, check_known, step_ids, Marks, search_cycle, visit,
}
use agentdock_mcp_harness.Plan.Dependencies.Enough.{validate_dependencies-ends}
use agentdock_mcp_harness.Plan.Dependencies.Ranked.{IsRanked, IsKnown, validate_dependencies_iff}
use agentdock_mcp_harness.Plan.Driver.{ensure_driver, lease_to, renew_driver, choose}
use agentdock_mcp_harness.Plan.Driver.Lease.{ensure_driver-excludes}
use agentdock_mcp_harness.Plan.Start.{new_step, new_plan}
use agentdock_mcp_harness.Plan.System.{
  System, idle, to, step, on_ensure, on_turn, on_cancel, Reach, at_start, then_event,
}
use agentdock_mcp_harness.Plan.System.Invariant.{AllPassed, IsSound, StatusHolds, PhaseHolds}
use agentdock_mcp_harness.Plan.System.Preserves.{events-IsSound}
use agentdock_mcp_harness.Plan.System.Reached.{
  StaysPassed, Reach-StaysPassed, Reach-AllPassed, step-is_final,
}
use agentdock_mcp_harness.Plan.System.Progress.{Goes, Reach-Goes}
use agentdock_mcp_harness.Plan.System.Revisions.{Advances, step-Advances}
use agentdock_mcp_harness.Plan.System.Cancels.{cancel-ends}

abbrev pub spec_of_step : String → List String → StepSpec
spec_of_step id depends_on = record {
  step_id = id;
  action = command;
  depends_on = depends_on;
  idempotency_key = id;
  argv = some ("make" ∷ id ∷ []);
  shell = none;
  cwd = ".";
  timeout_ms = none;
  exit_codes = pos 0 ∷ [];
  evidence = none;
  retry_safe = false;
  max_attempts = 1;
  message = none;
  outcome = none;
  reason = none;
  prompt = none;
}

abbrev pub two_specs : List StepSpec
two_specs = spec_of_step "build" [] ∷ spec_of_step "test" ("build" ∷ []) ∷ []

-- Steps that wait for each other.
abbrev circle : List StepSpec
circle = spec_of_step "build" ("test" ∷ []) ∷ spec_of_step "test" ("build" ∷ []) ∷ []

abbrev pub two_marks : Marks
two_marks = record { visiting = []; visited = "test" ∷ "build" ∷ [] }

two_specs_accepted : validate_dependencies two_specs ≡ some (ok two_marks)
unfolding validate_dependencies check_known search_cycle visit string_dec
two_specs_accepted = refl

circle_refused : validate_dependencies circle ≡ some (err invalid_plan_dependency)
unfolding validate_dependencies check_known search_cycle visit string_dec
circle_refused = refl

validate_dependencies-ends_example : (r : Result Marks) × (validate_dependencies circle ≡ some r)
validate_dependencies-ends_example = validate_dependencies-ends circle

validate_dependencies_iff_example :
    ((marks : Marks) × (validate_dependencies circle ≡ some (ok marks)))
    ↔ (IsKnown (step_ids circle) circle × (rank : String → ℕ) × IsRanked circle rank)
validate_dependencies_iff_example = validate_dependencies_iff circle

abbrev new : System
new = to idle (new_plan "plan_1" "task_1" "f" "runtime_1" two_specs 5)

new-IsSound : IsSound new
unfolding StatusHolds PhaseHolds string_dec
new-IsSound = record {
  distinct = (refl, (refl, tt));
  ordered = (refl, (refl, tt));
  attempts = ((omega arith, λ _. omega arith), ((omega arith, λ _. omega arith), tt));
  status = inr (refl, (refl, tt));
  phase = tt;
}

abbrev claimed : System
claimed = step "driver_1" "runtime_1" (on_ensure 10) new

abbrev turned : System
turned = step "driver_1" "runtime_1" (on_turn 20 false) claimed

turned-Reach : Reach "driver_1" "runtime_1" new turned
turned-Reach = then_event (then_event at_start (on_ensure 10)) (on_turn 20 false)

events-IsSound_example : IsSound turned
events-IsSound_example = events-IsSound "driver_1" "runtime_1" new-IsSound turned-Reach

Reach-Goes_example : Goes turned.plan.steps
unfolding step ensure_driver renew_driver choose string_dec
Reach-Goes_example =
    Reach-Goes "driver_1" "runtime_1" two_marks new-IsSound two_specs_accepted turned-Reach refl
      refl

abbrev build_run : Step
build_run = record (new_step (spec_of_step "build" [])) { status = passed; attempts = 1 }

-- The same Plan with its first step PASSED.
abbrev halfway : System
halfway = to idle (record (new_plan "plan_1" "task_1" "f" "runtime_1" two_specs 5) {
  steps = build_run ∷ new_step (spec_of_step "test" ("build" ∷ [])) ∷ [];
})

halfway-IsSound : IsSound halfway
unfolding StatusHolds PhaseHolds string_dec
halfway-IsSound = record {
  distinct = (refl, (refl, tt));
  ordered = (refl, (refl, tt));
  attempts = ((omega arith, λ never. cc), ((omega arith, λ _. omega arith), tt));
  status = inr (refl, (refl, tt));
  phase = tt;
}

halfway-Reach : Reach "driver_1" "runtime_1" halfway (
    step "driver_1" "runtime_1" (on_cancel 20) (step "driver_1" "runtime_1" (on_ensure 10) halfway))
halfway-Reach = then_event (then_event at_start (on_ensure 10)) (on_cancel 20)

Reach-StaysPassed_example :
    StaysPassed 0 build_run
      (step "driver_1" "runtime_1"
        (on_cancel 20)
        (step "driver_1" "runtime_1" (on_ensure 10) halfway)).plan.steps
Reach-StaysPassed_example =
    Reach-StaysPassed "driver_1" "runtime_1" 0 build_run halfway-IsSound halfway-Reach refl refl

abbrev all_done : System
all_done =
    to idle (record (new_plan "plan_1" "task_1" "f" "runtime_1" (spec_of_step "build" [] ∷ []) 5) {
      steps = build_run ∷ [];
    })

all_done-IsSound : IsSound all_done
unfolding StatusHolds PhaseHolds string_dec
all_done-IsSound = record {
  distinct = (refl, tt);
  ordered = (refl, tt);
  attempts = ((omega arith, λ never. cc), tt);
  status = inr (refl, tt);
  phase = tt;
}

-- The driver claims it, and its first turn completes it.
abbrev completed_plan : System
completed_plan =
    step "driver_1" "runtime_1" (on_turn 20 true)
      (step "driver_1" "runtime_1" (on_ensure 10) all_done)

completed-Reach : Reach "driver_1" "runtime_1" all_done completed_plan
completed-Reach = then_event (then_event at_start (on_ensure 10)) (on_turn 20 true)

completed_status : completed_plan.plan.status ≡ completed
unfolding step ensure_driver renew_driver choose string_dec
completed_status = refl

Reach-AllPassed_example : AllPassed completed_plan.plan.steps
Reach-AllPassed_example =
    Reach-AllPassed "driver_1" "runtime_1" all_done-IsSound completed-Reach (inl completed_status)

completed-is_final : is_final completed_plan.plan.status ≡ true
unfolding step ensure_driver renew_driver choose string_dec
completed-is_final = refl

step-is_final_example :
    (step "driver_1" "runtime_1" (on_cancel 30) completed_plan).plan ≡ completed_plan.plan
step-is_final_example =
    step-is_final "driver_1" "runtime_1" (on_cancel 30) completed_plan
      (events-IsSound "driver_1" "runtime_1" all_done-IsSound completed-Reach) completed-is_final

other_driver : ◌≢◌ {A = String} "driver_1" "driver_2"
unfolding string_dec
other_driver h = false≢true ((same_iff "driver_1" "driver_2").1 h)

ensure_driver-excludes_example :
    ensure_driver 20 "driver_2"
      (lease_to 10 "driver_1" (new_plan "plan_1" "task_1" "f" "runtime_1" two_specs 5))
    ≡ (lease_to 10 "driver_1" (new_plan "plan_1" "task_1" "f" "runtime_1" two_specs 5), false)
unfolding ensure_driver string_dec
ensure_driver-excludes_example =
    ensure_driver-excludes 10 20 "driver_1" "driver_2"
      (new_plan "plan_1" "task_1" "f" "runtime_1" two_specs 5)
      (lease_to 10 "driver_1" (new_plan "plan_1" "task_1" "f" "runtime_1" two_specs 5)) refl refl
      other_driver (omega arith)

step-Advances_example : Advances claimed.plan turned.plan
step-Advances_example = step-Advances "driver_1" "runtime_1" (on_turn 20 false) claimed

cancel-ends_example :
    (step "driver_1" "runtime_1" (on_turn 30 false) (
      step "driver_1" "runtime_1" (on_ensure 20) (
        step "driver_1" "runtime_1" (on_cancel 10) (
          to idle (record (new_plan "plan_1" "task_1" "f" "runtime_1" two_specs 5) {
            status = awaiting_user;
          }))))).plan.status
    ≡ PlanStatus.cancelled
cancel-ends_example =
    cancel-ends "driver_1" "runtime_1" 10 20 30 false
      (record (new_plan "plan_1" "task_1" "f" "runtime_1" two_specs 5) { status = awaiting_user })
      refl refl
