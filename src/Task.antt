-- ===== src/Task.antt =====
-- task-service.js: a Task document, its identifiers, and the service's access to the stored Tasks.
-- Times are milliseconds; one call reads the clock once, as `now`. A field that an old document
-- may lack is read as the code's `??` default.
pub mod Evidence
pub mod Starts
pub mod Finish
pub mod Cleanup
pub mod Invariant
pub mod Preserves
pub mod Removal
pub mod Service
use Prim.Native.Char.{code}
use Prim.Native.String.{◌++◌ as ◌<>◌}
use agentdock_mcp_harness.Base.{
  ℕ, zero, suc, String, Bool, true, false, ◌&&◌, ◌||◌, Option, none, some, List, leb, ◌==◌,
  if◌then◌else◌, Result, ok, err, Code, ◌>>=◌, ◌>>◌, guard, invalid_task_id, task_not_found,
  task_not_active, task_workspace_cleaned,
}
use agentdock_mcp_harness.Store.{Db, load_document, mutate_document}

pub data TaskStatus : Type 0 where
  active completed cancelled : TaskStatus

-- Any other text than the two that the code knows is `other`.
pub data Outcome : Type 0 where
  commit no_change : Outcome
  other : String → Outcome

-- completion-evidence.js: COMPLETION_EVIDENCE_KINDS
pub data EvidenceKind : Type 0 where
  targeted_tests full_suite static_check diff_check migration_check provider_check : EvidenceKind
  review : EvidenceKind

pub data EvidenceStatus : Type 0 where
  pass fail : EvidenceStatus

pub record EvidenceRecord : Type 0 where
  pub evidence_id : String
  pub kind : EvidenceKind
  pub status : EvidenceStatus
  pub summary : String
  pub subject_sha : Option String
  pub run_id : Option String
  pub recorded_at : ℕ

-- The entry that `evaluateCompletionEvidence` makes for a required kind.
pub data EvidenceState : Type 0 where
  missing stale : EvidenceState
  known : EvidenceStatus → EvidenceState

pub record EvidenceResult : Type 0 where
  pub kind : EvidenceKind
  pub state : EvidenceState
  pub evidence : Option EvidenceRecord

pub record Completion : Type 0 where
  pub required : List EvidenceKind
  pub subject_sha : Option String
  pub satisfied : Bool
  pub results : List EvidenceResult

pub data VerificationStatus : Type 0 where
  pending verified not_required : VerificationStatus

-- A Run start that is being registered.
pub record Reservation : Type 0 where
  pub process_id : String
  pub owner_instance_id : Option String
  pub reserved_at : ℕ

-- approval-service.js: the decisions and the states of an approval request.
pub data Decision : Type 0 where
  allow_once allow_task deny ask_user : Decision

pub data ApprovalStatus : Type 0 where
  pending awaiting_user approved denied : ApprovalStatus

pub record Approval : Type 0 where
  pub approval_id : String
  pub task_id : String
  pub status : ApprovalStatus
  pub rule_id : String
  pub approval_scope : String
  pub tool : String
  pub fingerprint : String
  pub created_at : ℕ
  pub updated_at : ℕ
  pub decision : Option Decision
  pub resolved_at : Option ℕ

pub record Grant : Type 0 where
  pub grant_id : String
  pub task_id : String
  pub approval_id : String
  pub kind : Decision
  pub approval_scope : String
  pub fingerprint : String
  pub created_at : ℕ

pub record Task : Type 0 where
  pub task_id : String
  pub status : TaskStatus
  pub source_repo : String
  pub base_head : String
  pub worktree_path : String
  pub process_ids : List String
  pub pending_process_starts : List Reservation
  pub approvals : List Approval
  pub approval_grants : List Grant
  pub latest_commit_sha : Option String
  pub final_commit_sha : Option String
  pub outcome : Option Outcome
  pub outcome_reason : Option String
  pub retention_ref : Option String
  -- the required kinds of the completion contract
  pub completion_contract : Option (List EvidenceKind)
  pub completion_evidence : List EvidenceRecord
  pub verification_status : VerificationStatus
  pub verification_evidence : Option Completion
  pub verified_at : Option ℕ
  pub finished_at : Option ℕ
  pub cancelled_at : Option ℕ
  pub workspace_cleaned : Bool
  pub gc_safety_ref : Option String
  pub cleaned_at : Option ℕ
  pub created_at : ℕ
  pub updated_at : ℕ

id_char : ℕ → Bool
id_char c = (leb b'0' c && leb c b'9') || (leb b'a' c && leb c b'f') || c == b'-'

id_chars : ℕ → String → Bool
id_chars zero String.[] = true
id_chars zero (String.◌∷◌ c s) = false
id_chars (suc n) String.[] = false
id_chars (suc n) (String.◌∷◌ c s) = id_char (code c) && id_chars n s

-- `/^PREFIX[0-9a-f-]{36}$/`
unfoldable pub matches_id : String → String → Bool
unfolding id_char id_chars
matches_id String.[] s = id_chars 36 s
matches_id (String.◌∷◌ p prefix) String.[] = false
matches_id (String.◌∷◌ p prefix) (String.◌∷◌ c s) = code p == code c && matches_id prefix s

-- `#validateTaskId`
abbrev pub validate_task_id : String → Result String
validate_task_id task_id = if matches_id "task_" task_id then ok task_id else err invalid_task_id

-- git-service.js: `taskRetentionRef`
abbrev pub task_retention_ref : String → Result String
task_retention_ref task_id =
    if matches_id "task_" task_id
    then ok ("refs/agentdock/tasks/" <> task_id)
    else err invalid_task_id

-- `#assertExists`
abbrev pub assert_exists : Option Task → Result Task
assert_exists none = err task_not_found
assert_exists (some task) = ok task

abbrev pub is_active : TaskStatus → Bool
is_active active = true
is_active _ = false

-- `#assertActiveRecord`
abbrev pub assert_active_record : Task → Result (Unit {0})
assert_active_record task = do
  guard (is_active task.status) task_not_active
  if task.workspace_cleaned then err task_workspace_cleaned else ok tt

-- `get`
unfoldable pub get : String → Db Task → Result Task
get task_id db = do
  id ← validate_task_id task_id
  found ← load_document "task" id db
  assert_exists found

-- `assertActive`
unfoldable pub assert_active : String → Db Task → Result Task
unfolding get
assert_active task_id db = do task ← get task_id db; assert_active_record task; ok task

module _ {A : Type 0} where
  -- The mutator that `mutate` hands to the store.
  abbrev pub existing : (Task → Result (Task × A)) → Option Task → Result (Task × A)
  existing mutator current = do task ← assert_exists current; mutator task

  mutate_valid :
      Result String → (Task → Result (Task × A)) → ℕ → Db Task → Db Task × Result (Task × A)
  mutate_valid (ok task_id) mutator now db =
      mutate_document "task" task_id (existing mutator) now db
  mutate_valid (err c) mutator now db = (db, err c)

  -- `mutate`
  unfoldable pub mutate :
      String → (Task → Result (Task × A)) → ℕ → Db Task → Db Task × Result (Task × A)
  unfolding mutate_valid
  mutate task_id mutator now db = mutate_valid (validate_task_id task_id) mutator now db
