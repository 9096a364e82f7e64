-- ===== src/Task/Invariant.antt =====
-- task-service.js: predicates on a stored Task between two calls.
use agentdock_mcp_harness.Base.{
  String, true, false, ◌≡◌, ◌≢◌, refl, sym, ap, ◌∙◌, some, List, [], ◌∷◌, ◌++◌, if◌then◌else◌, any,
  or_else, includes, ◌||◌, is_some, arith, ok,
}
use agentdock_mcp_harness.Task.{
  Task, completed, commit, no_change, Reservation, is_active, verified, not_required,
  task_retention_ref,
}
use agentdock_mcp_harness.Task.Evidence.{evaluate_completion_evidence}
use agentdock_mcp_harness.Task.Starts.{reserves, without_start}
use agentdock_mcp_harness.Task.Finish.{truthy_option}

-- No text occurs twice.
abbrev pub Distinct : List String → Type 0
Distinct [] = Unit
Distinct (x ∷ xs) = (includes xs x ≡ false) × Distinct xs

abbrev pub start_ids : List Reservation → List String
start_ids [] = []
start_ids (entry ∷ entries) = entry.process_id ∷ start_ids entries

-- The Runs of a Task are distinct, and so are its Run starts under way.
pub record HasDistinctProcesses (task : Task) : Type 0 where
  pub processes : Distinct task.process_ids
  pub starts : Distinct (start_ids task.pending_process_starts)

-- A Task that is not ACTIVE has no Run start under way and no approval grant; only such a Task
-- can have lost its worktree.
pub record IsQuiet (task : Task) : Type 0 where
  pub no_starts : is_active task.status ≡ false → task.pending_process_starts ≡ []
  pub no_grants : is_active task.status ≡ false → task.approval_grants ≡ []
  pub cleaned : task.workspace_cleaned ≡ true → is_active task.status ≡ false

-- What a COMPLETED Task proves of its result.
pub record IsAccounted (task : Task) : Type 0 where
  pub retained :
      task.status ≡ completed
      → task.outcome ≡ some commit
      → (task_retention_ref task.task_id ≡ ok (or_else task.retention_ref ""))
        × (is_some task.retention_ref ≡ true)
        × (truthy_option task.final_commit_sha ≡ true)
        × (task.final_commit_sha ≢ some task.base_head)
  pub unchanged :
      task.status ≡ completed
      → task.outcome ≡ some no_change
      → (task.final_commit_sha ≡ some task.base_head) × (truthy_option task.retention_ref ≡ false)
  pub proven :
      task.status ≡ completed
      → (evaluate_completion_evidence task task.final_commit_sha).satisfied ≡ true
  pub verification :
      task.status ≡ completed
      → task.verification_status
        ≡ (if is_some task.completion_contract then verified else not_required)

includes-append :
    (xs ys : List String) (s : String) → includes (xs ++ ys) s ≡ (includes xs s || includes ys s)
includes-append [] ys s = refl
includes-append (x ∷ xs) ys s = ground (arith, includes-append xs ys s)

pub Distinct-append_one :
    (xs : List String) (s : String) → Distinct xs → includes xs s ≡ false → Distinct (xs ++ s ∷ [])
Distinct-append_one [] s d h = (refl, tt)
Distinct-append_one (x ∷ xs) s d h =
    (ground (arith, includes-append xs (s ∷ []) x), Distinct-append_one xs s d.1 (ground arith))

any-reserves :
    (process_id : String) (entries : List Reservation)
    → any (reserves process_id) entries ≡ includes (start_ids entries) process_id
any-reserves process_id [] = refl
any-reserves process_id (entry ∷ entries) = ground (arith, any-reserves process_id entries)

start_ids-append : (xs ys : List Reservation) → start_ids (xs ++ ys) ≡ start_ids xs ++ start_ids ys
start_ids-append [] ys = refl
start_ids-append (x ∷ xs) ys = ap (λ l. x.process_id ∷ l) (start_ids-append xs ys)

includes-without_start :
    (process_id s : String) (entries : List Reservation)
    → includes (start_ids entries) s ≡ false
    → includes (start_ids (without_start process_id entries)) s ≡ false
includes-without_start process_id s [] h = refl
includes-without_start process_id s (entry ∷ entries) h =
    ground (arith, includes-without_start process_id s entries)

pub Distinct-without_start :
    (process_id : String) (entries : List Reservation)
    → Distinct (start_ids entries)
    → Distinct (start_ids (without_start process_id entries))
Distinct-without_start process_id [] d = tt
Distinct-without_start process_id (entry ∷ entries) d = ground (
  arith,
  Distinct-without_start process_id entries d.1,
  includes-without_start process_id entry.process_id entries d.0,
)

pub Distinct-reserved :
    (entries : List Reservation) (entry : Reservation)
    → Distinct (start_ids entries)
    → any (reserves entry.process_id) entries ≡ false
    → Distinct (start_ids (entries ++ entry ∷ []))
Distinct-reserved entries entry d fresh = rw (start_ids-append entries (entry ∷ [])) (
    Distinct-append_one (start_ids entries) entry.process_id d
      (sym (any-reserves entry.process_id entries) ∙ fresh))
