-- ===== src/Plan/Start.antt =====
-- plan-service.js: `start`. The digests of `planIdFor` and `planFingerprint` are the arguments `plan_id_for` and
-- `fingerprint`, `toUpperCase` is `upper`. The documents of Tasks and of Plans are two tables.
pub mod Sound
pub mod Claims
pub mod Replays
pub mod Again
mod Examples
use agentdock_mcp_harness.Base.{
  ℕ, zero, suc, String, Bool, true, false, not, ◌&&◌, ◌||◌, leb, ◌==◌, Option, none, some, List, [],
  ◌∷◌, map, find, length, unique, if◌then◌else◌, same, trim, truthy, Result, ok, err, ◌>>=◌, ◌>>◌,
  guard, invalid_idempotency_key, invalid_plan, idempotency_key_reused, plan_already_active,
  plan_not_found, same_option,
}
use agentdock_mcp_harness.Store.{Db, Row, load_document, mutate_document}
use agentdock_mcp_harness.Task.{Task, assert_active}
use agentdock_mcp_harness.Plan.{StepSpec, Step, StepStatus, pending, Plan, PlanStatus, is_open}
use agentdock_mcp_harness.Plan.Mutators.{is_running_plan}
use agentdock_mcp_harness.Plan.Driver.{is_free, is_leased, ensure_driver}
use agentdock_mcp_harness.Plan.Validate.{StepInput, validate_steps, text_length}
use agentdock_mcp_harness.Plan.Dependencies.{step_ids, validate_dependencies, Marks}

-- MAX_STEPS
abbrev pub max_steps : ℕ
max_steps = 32

-- A step of a new Plan.
abbrev pub new_step : StepSpec → Step
new_step spec = record {
  spec = spec;
  status = pending;
  run_id = none;
  started_at = none;
  ended_at = none;
  exit_code = none;
  signal = none;
  error = none;
  attempts = 0;
  recorded_evidence = none;
  result = none;
  operation_started_head = none;
}

abbrev pub new_plan : String → String → String → String → List StepSpec → ℕ → Plan
new_plan plan_id task_id fingerprint instance_id specs now = record {
  plan_id = plan_id;
  task_id = task_id;
  request_fingerprint = fingerprint;
  status = PlanStatus.running;
  revision = 1;
  owner_instance_id = instance_id;
  driver_id = none;
  driver_lease_until = none;
  cancel_requested = false;
  blocker = none;
  created_at = now;
  updated_at = now;
  completed_at = none;
  steps = map new_step specs;
}

-- A stored Plan of the Task that is not settled.
abbrev pub is_open_of : String → Row Plan → Bool
is_open_of task_id row =
    same row.kind "plan" && same row.value.task_id task_id && is_open row.value.status

-- The mutator of `start`, on the rows that it lists; `true` beside a Plan that was created.
unfoldable pub start_mutator : List (Row Plan) → Plan → Option Plan → Result (Plan × Bool)
start_mutator rows plan (some current) =
    if same current.task_id plan.task_id
      && same current.request_fingerprint plan.request_fingerprint
    then ok (current, false)
    else err idempotency_key_reused
start_mutator rows plan none = elim (find (is_open_of plan.task_id) rows) [
  | none ↦ ok (plan, true)
  | some _ ↦ err plan_already_active
]

-- `validateDependencies` as `start` uses it: without an end of the fuel.
abbrev pub check_dependencies : Option (Result Marks) → Result (Unit {0})
check_dependencies (some (ok _)) = ok tt
check_dependencies (some (err c)) = err c
check_dependencies none = err invalid_plan

-- A mutation whose value is not used.
abbrev pub without_value : Db Plan × Result (Plan × Bool) → Db Plan × Result (Unit {0})
without_value (db, ok _) = (db, ok tt)
without_value (db, err c) = (db, err c)

-- Another driver holds the Plan by its lease.
abbrev pub is_driven : ℕ → String → Plan → Bool
is_driven now me plan =
    not (is_free plan.driver_id)
    && not (same_option plan.driver_id (some me))
    && is_leased now plan.driver_lease_until

-- The mutator of `#ensureDriver`, on the Plan that is stored.
abbrev pub claim_mutator : ℕ → String → Option Plan → Result (Plan × Bool)
claim_mutator now me none = err plan_not_found
claim_mutator now me (some plan) = ok (ensure_driver now me plan)

-- `#ensureDriver` on what it read, in a service that has no driver on the Plan yet: its guards, and its mutation.
claim_loaded : ℕ → String → String → Db Plan → Result (Option Plan) → Db Plan × Result (Unit {0})
claim_loaded now me plan_id db (err c) = (db, err c)
claim_loaded now me plan_id db (ok none) = (db, err plan_not_found)
claim_loaded now me plan_id db (ok (some plan)) =
    if not (is_running_plan plan.status) || is_driven now me plan
    then (db, ok tt)
    else without_value (mutate_document "plan" plan_id (claim_mutator now me) now db)

unfoldable pub ensure_stored : ℕ → String → String → Db Plan → Db Plan × Result (Unit {0})
unfolding claim_loaded
ensure_stored now me plan_id db = claim_loaded now me plan_id db (load_document "plan" plan_id db)

-- What `start` returns once `#ensureDriver` has returned.
abbrev pub returning : Plan → Db Plan × Result (Unit {0}) → Db Plan × Result (Plan × Bool)
returning plan (db, ok _) = (db, ok (plan, true))
returning plan (db, err c) = (db, err c)

-- The block under `if (created)`.
unfoldable pub drive_created :
    String
    → String
    → Result (Unit {0})
    → ℕ
    → Db Plan × Result (Plan × Bool)
    → Db Plan × Result (Plan × Bool)
unfolding ensure_stored
drive_created me plan_id logged now (db, err c) = (db, err c)
drive_created me plan_id logged now (db, ok (plan, false)) = (db, ok (plan, false))
drive_created me plan_id (err c) now (db, ok (plan, true)) = (db, err c)
drive_created me plan_id (ok _) now (db, ok (plan, true)) =
    returning plan (ensure_stored now me plan_id db)

module _ (upper : String → String) (plan_id_for : String → String → String)
    (fingerprint : List StepSpec → String) (instance_id : String) where
  -- The checks of `start` before it stores anything.
  unfoldable pub checked_steps : String → List (Option StepInput) → Result (List StepSpec)
  checked_steps key steps = do
    guard (truthy (trim key)) invalid_idempotency_key
    guard (leb (text_length key) 256) invalid_idempotency_key
    guard (leb 1 (length steps) && leb (length steps) max_steps) invalid_plan
    specs ← validate_steps upper none steps
    guard (length (unique (step_ids specs)) == length (step_ids specs)) invalid_plan
    check_dependencies (validate_dependencies specs)
    ok specs

  unfoldable pub store_plan :
      String → String → ℕ → Db Plan → Result (List StepSpec) → Db Plan × Result (Plan × Bool)
  unfolding start_mutator
  store_plan task_id key now db (err c) = (db, err c)
  store_plan task_id key now db (ok specs) =
      let plan_id = plan_id_for task_id key in
      mutate_document "plan" plan_id
        (start_mutator db.rows (new_plan plan_id task_id (fingerprint specs) instance_id specs now))
        now db

  -- The checks of `start`, that of the Task first.
  abbrev pub accepted : Db Task → String → String → List (Option StepInput) → Result (List StepSpec)
  accepted tasks task_id key steps = do _ ← assert_active task_id tasks; checked_steps key steps

  -- `start` on a key that is a text and on an array of steps, up to the `#drive` of a driver that claimed the Plan;
  -- `logged` is what `audit.append` does.
  unfoldable pub start :
      String
      → Result (Unit {0})
      → Db Task
      → String
      → String
      → List (Option StepInput)
      → ℕ
      → Db Plan
      → Db Plan × Result (Plan × Bool)
  unfolding checked_steps store_plan drive_created
  start me logged tasks task_id key steps now db =
      drive_created me (plan_id_for task_id key) logged now
        (store_plan task_id key now db (accepted tasks task_id key steps))
