-- ===== src/Idempotency.antt =====
-- idempotency-service.js: the operation that an idempotency key claims, and its retention.
-- The SHA-256 of a key and of a request are arguments; times are milliseconds. The table holds
-- operations alone; a document may be `null`.
pub mod Retention
pub mod Prune
pub mod Replay
pub mod Claims
pub mod Table
mod Examples
use Prim.Native.Char.{code}
use agentdock_mcp_harness.Base.{
  ℕ, ◌+◌, String, Bool, true, false, not, ◌&&◌, Option, none, some, List, [], ◌∷◌, leb, ltb,
  if◌then◌else◌, same, length, keep, trim, truthy, or_else, Result, ok, err, Code, ◌>>=◌, ◌>>◌,
  guard, invalid_idempotency_key, idempotency_key_reused, idempotency_operation_not_found,
  idempotency_retention_full,
}
use agentdock_mcp_harness.Store.{
  Row, Db, mutate_document, load_document, delete_document, assert_open, safe_document_part,
}

-- TERMINAL_STATUSES, CLAIMED, and any other text.
pub data OperationStatus : Type 0 where
  claimed exited failed cancelled interrupted : OperationStatus
  other : String → OperationStatus

pub record Operation : Type 0 where
  pub operation_id : String
  pub task_id : String
  pub tool : String
  pub request_fingerprint : String
  pub run_id : String
  pub status : OperationStatus
  pub owner_instance_id : String
  pub created_at : ℕ
  pub updated_at : ℕ
  pub completed_at : Option ℕ

-- `TERMINAL_STATUSES.has(status)`
abbrev pub is_terminal : OperationStatus → Bool
is_terminal exited = true
is_terminal failed = true
is_terminal cancelled = true
is_terminal interrupted = true
is_terminal _ = false

-- `key.length`, in UTF-16 code units.
utf16_length : String → ℕ
utf16_length String.[] = 0
utf16_length (String.◌∷◌ c s) = (if ltb (code c) 65536 then 1 else 2) + utf16_length s

-- `normalizeKey`
unfoldable pub normalize_key : String → Result String
unfolding utf16_length
normalize_key key = do
  guard (truthy (trim key)) invalid_idempotency_key
  guard (leb (utf16_length key) 256) invalid_idempotency_key
  ok key

-- `assertCompatible`
abbrev pub assert_compatible : String → String → String → Operation → Result (Unit {0})
assert_compatible task_id tool fingerprint operation =
    guard
      (same operation.task_id task_id
        && same operation.tool tool
        && same operation.request_fingerprint fingerprint)
      idempotency_key_reused

-- The document that a mutator gets; there is none by default.
abbrev current_of : Option (Option Operation) → Option Operation
current_of stored = or_else stored none

module _ (task_id tool fingerprint : String) where
  abbrev pub new_operation : String → String → String → ℕ → Operation
  new_operation id run_id owner now = record {
    operation_id = id;
    task_id = task_id;
    tool = tool;
    request_fingerprint = fingerprint;
    run_id = run_id;
    status = claimed;
    owner_instance_id = owner;
    created_at = now;
    updated_at = now;
    completed_at = none;
  }

  -- The mutator of `claim`, with the variable `created` that it sets.
  unfoldable pub claim_operation :
      String → String → String → ℕ → Option Operation → Result (Option Operation × Bool)
  claim_operation id run_id owner now (some current) = do
    assert_compatible task_id tool fingerprint current
    ok (some current, false)
  claim_operation id run_id owner now none = ok (some (new_operation id run_id owner now), true)

  check_loaded : Option Operation → Result (Option Operation)
  check_loaded none = ok none
  check_loaded (some operation) = do
    assert_compatible task_id tool fingerprint operation
    ok (some operation)

  -- `lookup`; `operation_id` is the hash of the Task, the tool and the key.
  unfoldable pub lookup :
      (String → String → String → String)
      → String
      → Db (Option Operation)
      → Result (Option Operation)
  unfolding check_loaded
  lookup operation_id key db = do
    normalized ← normalize_key key
    loaded ← load_document "operation" (operation_id task_id tool normalized) db
    check_loaded (current_of loaded)

-- The mutator of `takeover`.
unfoldable pub takeover_operation :
    String → String → ℕ → Option Operation → Result (Option Operation × Unit {0})
takeover_operation run_id owner now none = err idempotency_operation_not_found
takeover_operation run_id owner now (some current) =
    if same current.run_id run_id
    then (if is_terminal current.status
        then ok (some current, tt)
        else ok (some (record current { owner_instance_id = owner; updated_at = now }), tt))
    else err idempotency_operation_not_found

-- The mutator of `mark`.
unfoldable pub mark_operation :
    String → OperationStatus → ℕ → Option Operation → Result (Option Operation × Unit {0})
mark_operation run_id status now none = ok (none, tt)
mark_operation run_id status now (some current) =
    if same current.run_id run_id
    then ok (
      some (record current {
        status = status;
        updated_at = now;
        completed_at =
            if is_terminal status
            then some (or_else current.completed_at now)
            else current.completed_at;
      }),
      tt,
    )
    else ok (some current, tt)

-- `takeover`
unfoldable pub takeover :
    String
    → String
    → String
    → ℕ
    → Db (Option Operation)
    → Db (Option Operation) × Result (Option Operation × Unit {0})
takeover operation_id run_id owner now db =
    mutate_document "operation" operation_id
      (λ stored. takeover_operation run_id owner now (current_of stored)) now db

-- `mark`, for an operation identifier that is not empty.
unfoldable pub mark :
    String
    → String
    → OperationStatus
    → ℕ
    → Db (Option Operation)
    → Db (Option Operation) × Result (Option Operation × Unit {0})
mark operation_id run_id status now db =
    mutate_document "operation" operation_id
      (λ stored. mark_operation run_id status now (current_of stored)) now db
