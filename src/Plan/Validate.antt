-- ===== src/Plan/Validate.antt =====
-- plan-service.js: `validateStep`. A field that may be absent is an option; a number of the input is
-- nothing where it is no natural number (of `exit_codes`: no integer).
pub mod Attempts
use Prim.Native.Char.{code}
use agentdock_mcp_harness.Base.{
  ℕ, ◌+◌, ℤ, pos, includes_int, String, Bool, true, false, not, ◌&&◌, ◌||◌, ◌==◌, leb, ltb, Option,
  none, some, List, [], ◌∷◌, map, keep, unique, or_else, if◌then◌else◌, same, trim, truthy, Result,
  ok, err, ◌>>=◌, ◌>>◌, guard, invalid_plan_step,
}
use agentdock_mcp_harness.Task.{EvidenceKind}
use agentdock_mcp_harness.Task.Evidence.{kind_of}
use agentdock_mcp_harness.Plan.{
  StepAction, command, reasoning_barrier, human_barrier, git_commit, task_finish, StepSpec,
  is_barrier,
}

pub record StepInput : Type 0 where
  pub step_id : String
  pub action : Option String
  pub argv : Option (List String)
  pub shell : Option String
  pub has_env : Bool
  pub timeout_ms : Option (Option ℕ)
  pub depends_on : Option (List String)
  pub idempotency_key : Option String
  pub exit_codes : Option (List (Option ℤ))
  pub max_attempts : Option (Option ℕ)
  pub retry_safe : Bool
  pub message : String
  pub evidence : Option (String × String)
  pub outcome : Option String
  pub reason : String
  pub prompt : String
  pub cwd : Option String

step_char : ℕ → Bool
step_char c =
    (leb b'A' c && leb c b'Z')
    || (leb b'a' c && leb c b'z')
    || (leb b'0' c && leb c b'9')
    || c == b'.'
    || c == b'_'
    || c == b'-'

step_chars : String → Bool
unfolding step_char
step_chars String.[] = true
step_chars (String.◌∷◌ c s) = step_char (code c) && step_chars s

-- `s.length`, in UTF-16 code units.
unfoldable pub text_length : String → ℕ
text_length String.[] = 0
text_length (String.◌∷◌ c s) = (if ltb (code c) 65536 then 1 else 2) + text_length s

-- `/^[A-Za-z0-9._-]{1,128}$/`
unfoldable pub matches_step_id : String → Bool
unfolding step_chars text_length
matches_step_id s = truthy s && step_chars s && leb (text_length s) 128

-- `STEP_ACTIONS.has(action)`
action_named : String → Option StepAction
action_named s =
    if same s "COMMAND"
    then some command
    else if same s "REASONING_BARRIER"
    then some reasoning_barrier
    else if same s "HUMAN_BARRIER"
    then some human_barrier
    else if same s "GIT_COMMIT"
    then some git_commit
    else if same s "TASK_FINISH"
    then some task_finish
    else none

pub required : {A : Type 0} → Option A → Result A
required none = err invalid_plan_step
required (some a) = ok a

abbrev is_command : StepAction → Bool
is_command command = true
is_command _ = false

abbrev is_commit : StepAction → Bool
is_commit git_commit = true
is_commit _ = false

abbrev is_finish : StepAction → Bool
is_finish task_finish = true
is_finish _ = false

-- Exactly one of argv and shell for a command, none for another action, and none empty.
check_mode : StepAction → Option (List String) → Option String → Result (Unit {0})
check_mode command (some []) none = err invalid_plan_step
check_mode command (some (_ ∷ _)) none = ok tt
check_mode command none (some s) = guard (truthy s) invalid_plan_step
check_mode command _ _ = err invalid_plan_step
check_mode _ none none = ok tt
check_mode _ _ _ = err invalid_plan_step

-- The test of `timeout_ms`.
check_timeout : Option (Option ℕ) → Result (Option ℕ)
check_timeout none = ok none
check_timeout (some none) = err invalid_plan_step
check_timeout (some (some ms)) =
    if leb 1000 ms && leb ms 1800000 then ok (some ms) else err invalid_plan_step

previous_dependency : Option String → List String
previous_dependency none = []
previous_dependency (some s) = if truthy s then s ∷ [] else []

dependencies_of : Option (List String) → Option String → List String
unfolding previous_dependency
dependencies_of none previous = previous_dependency previous
dependencies_of (some ids) previous = unique (keep truthy (map trim ids))

-- The values of `new Set(xs)` that are not in `seen`.
unique_ints_after : List ℤ → List ℤ → List ℤ
unique_ints_after seen [] = []
unique_ints_after seen (x ∷ xs) =
    let fresh = x ∷ unique_ints_after (x ∷ seen) xs in
    let rest = unique_ints_after seen xs in if includes_int seen x then rest else fresh

all_integers : List (Option ℤ) → Result (List ℤ)
all_integers [] = ok []
all_integers (none ∷ rest) = err invalid_plan_step
all_integers (some z ∷ rest) = do zs ← all_integers rest; ok (z ∷ zs)

check_exit_codes : Option (List (Option ℤ)) → Result (List ℤ)
unfolding all_integers unique_ints_after
check_exit_codes none = ok (pos 0 ∷ [])
check_exit_codes (some []) = err invalid_plan_step
check_exit_codes (some (z ∷ zs)) = do codes ← all_integers (z ∷ zs); ok (unique_ints_after [] codes)

pub check_attempts : Option (Option ℕ) → Bool → Result ℕ
check_attempts none safe = ok 1
check_attempts (some none) safe = err invalid_plan_step
check_attempts (some (some n)) safe =
    if leb 1 n && leb n 3 && (leb n 1 || safe) then ok n else err invalid_plan_step

-- `toUpperCase` is the argument `upper`.
module _ (upper : String → String) where
  check_evidence : Option (String × String) → Result (Option (EvidenceKind × String))
  unfolding required
  check_evidence none = ok none
  check_evidence (some (kind, summary)) = do
    known ← required (kind_of (upper (trim kind)))
    guard (truthy (trim summary)) invalid_plan_step
    ok (some (known, trim summary))

  abbrev text_or_null : String → Option String
  text_or_null s = if truthy (trim s) then some (trim s) else none

  -- The `return` of `validateStep`, with the values that the checks have normalized.
  spec_of :
      StepInput
      → String
      → StepAction
      → Option ℕ
      → List String
      → String
      → List ℤ
      → ℕ
      → Option (EvidenceKind × String)
      → StepSpec
  spec_of step id action timeout depends_on key codes attempts evidence = record {
    step_id = id;
    action = action;
    depends_on = depends_on;
    idempotency_key = key;
    argv = step.argv;
    shell = step.shell;
    cwd = or_else step.cwd ".";
    timeout_ms = timeout;
    exit_codes = codes;
    evidence = evidence;
    retry_safe = step.retry_safe;
    max_attempts = attempts;
    message = if is_commit action then some (trim step.message) else none;
    outcome = if is_finish action then step.outcome else none;
    reason = if is_finish action then text_or_null step.reason else none;
    prompt =
        if is_barrier action
        then some (
            if truthy (trim step.prompt)
            then trim step.prompt
            else "Explicit continuation is required.")
        else none;
  }

  abbrev is_no_change : Option String → Bool
  is_no_change none = false
  is_no_change (some s) = same s "NO_CHANGE"

  -- `validateStep` on an object; `previous` is the identifier of the step before it.
  unfoldable pub validate_object : Option String → StepInput → Result StepSpec
  unfolding matches_step_id action_named required check_mode check_timeout dependencies_of
      check_exit_codes check_attempts check_evidence spec_of
  validate_object previous step = do
    let id = trim step.step_id
    guard (matches_step_id id) invalid_plan_step
    action ← required (action_named (upper (trim (or_else step.action "COMMAND"))))
    check_mode action step.argv step.shell
    guard (not step.has_env) invalid_plan_step
    timeout ← check_timeout step.timeout_ms
    let key = trim (or_else step.idempotency_key id)
    guard (truthy key && leb (text_length key) 256) invalid_plan_step
    codes ← check_exit_codes step.exit_codes
    attempts ← check_attempts step.max_attempts step.retry_safe
    guard (not (is_commit action) || truthy (trim step.message)) invalid_plan_step
    evidence ← check_evidence step.evidence
    guard (not (is_finish action && is_no_change step.outcome) || truthy (trim step.reason))
        invalid_plan_step
    ok (
        spec_of step id action timeout (dependencies_of step.depends_on previous) key codes attempts
          evidence)

  -- `validateStep`; an item that is no object is nothing.
  unfoldable pub validate_step : Option String → Option StepInput → Result StepSpec
  validate_step previous none = err invalid_plan_step
  validate_step previous (some step) = validate_object previous step

  -- The loop of `start` over its steps.
  unfoldable pub validate_steps : Option String → List (Option StepInput) → Result (List StepSpec)
  validate_steps previous [] = ok []
  validate_steps previous (step ∷ rest) = do
    spec ← validate_step previous step
    specs ← validate_steps (some spec.step_id) rest
    ok (spec ∷ specs)
