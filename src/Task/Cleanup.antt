-- ===== src/Task/Cleanup.antt =====
-- task-service.js: `cleanup`. What Git and the file system answer is an argument; the awaits let
-- other calls run between the checks and the final mutation, so that one gets its own database.
use agentdock_mcp_harness.Base.{
  ℕ, String, Bool, true, false, not, Option, none, some, List, [], ◌∷◌, ◌&&◌, if◌then◌else◌, same,
  same_option, trim, truthy, or_else, Result, ok, err, ◌>>=◌, ◌>>◌, guard, task_commit_not_retained,
  task_completion_metadata_invalid, task_not_finalized, task_gc_worktree_dirty,
  task_gc_head_mismatch,
}
use agentdock_mcp_harness.Store.{Db}
use agentdock_mcp_harness.Task.{
  Task, TaskStatus, active, completed, cancelled, Outcome, commit, no_change, other,
  task_retention_ref, get, mutate,
}
use agentdock_mcp_harness.Task.Finish.{truthy_option, assert_no_pending_process_starts}

-- The answers of git-service.js and of the file system during one `cleanup`.
pub record Worktree : Type 0 where
  -- `assertRetainedTaskCommit`, at a ref and a commit
  pub assert_retained : String → String → Result (Unit {0})
  -- `assertGcWorktreePath`
  pub assert_gc_path : Result (Unit {0})
  -- `assertRegisteredWorktree`
  pub assert_registered : Result (Unit {0})
  -- `diff(...).changed_files`
  pub changed_files : List String
  -- `currentHead`
  pub head : String
  -- `retainGcSafetyCommit`, at a commit
  pub retain_gc_safety : String → Result String
  pub exists : Bool
  -- `removeWorktree`, at `force` and the expected head
  pub remove : Bool → Option String → Result (Unit {0})

abbrev pub is_finalized : TaskStatus → Bool
is_finalized active = false
is_finalized _ = true

-- The checks on the outcome of a completed Task.
check_metadata : Option Outcome → Task → Result (Unit {0})
check_metadata (some commit) task =
    guard
      (truthy_option task.final_commit_sha
        && not (same_option task.final_commit_sha (some task.base_head)))
      task_completion_metadata_invalid
check_metadata (some no_change) task =
    guard
      (same_option task.final_commit_sha (some task.base_head)
        && truthy (trim (or_else task.outcome_reason ""))
        && not (truthy_option task.retention_ref))
      task_completion_metadata_invalid
check_metadata (some (other _)) task = err task_completion_metadata_invalid
check_metadata none task =
    guard (truthy_option task.final_commit_sha) task_completion_metadata_invalid

-- `requiresRetention`
abbrev pub requires_retention : Option Outcome → Task → Bool
requires_retention (some commit) task = true
requires_retention (some _) task = false
requires_retention none task =
    truthy_option task.final_commit_sha
    && not (same_option task.final_commit_sha (some task.base_head))

module _ (git : Worktree) where
  -- The checks on the ref that keeps the commit.
  check_retention : Task → Result (Unit {0})
  check_retention task = do
    guard (truthy_option task.retention_ref && truthy_option task.final_commit_sha)
        task_commit_not_retained
    canonical ← task_retention_ref task.task_id
    guard (same_option task.retention_ref (some canonical)) task_commit_not_retained
    git.assert_retained canonical (or_else task.final_commit_sha "")

  check_completed : TaskStatus → Task → Result (Unit {0})
  unfolding check_metadata check_retention
  check_completed completed task = do
    check_metadata task.outcome task
    if requires_retention task.outcome task then check_retention task else ok tt
  check_completed _ task = ok tt

  abbrev pub expected_head : TaskStatus → Task → String
  expected_head cancelled task = task.base_head
  expected_head _ task = or_else task.final_commit_sha task.base_head

  abbrev nothing_changed : List String → Bool
  nothing_changed [] = true
  nothing_changed (_ ∷ _) = false

  -- The block under `if (requireClean)`: the safety ref, or `null`.
  check_clean : Bool → Task → Result (Option String)
  check_clean false task = ok none
  check_clean true task = do
    git.assert_gc_path
    git.assert_registered
    guard (nothing_changed git.changed_files) task_gc_worktree_dirty
    guard (same git.head (expected_head task.status task)) task_gc_head_mismatch
    safety_ref ← git.retain_gc_safety (expected_head task.status task)
    ok (some safety_ref)

  -- `removeWorktree`, if the worktree is still there.
  remove_worktree : Bool → Task → Result (Unit {0})
  remove_worktree require_clean task =
      if git.exists
      then git.remove (not require_clean)
          (if require_clean then some (expected_head task.status task) else none)
      else ok tt

  -- The checks of `cleanup`, for a Task that is not cleaned yet, and the safety ref that they end with.
  unfoldable pub check_cleanup : Bool → Task → Result (Option String)
  unfolding check_completed check_clean
  check_cleanup require_clean task = do
    guard (is_finalized task.status) task_not_finalized
    assert_no_pending_process_starts task
    check_completed task.status task
    check_clean require_clean task

  -- What follows the checks; the Boolean says whether `removeWorktree` was called.
  remove_checked : Bool → Task → Result (Option String) → Bool × Result (Option String)
  unfolding remove_worktree
  remove_checked require_clean task (ok safety_ref) =
      (git.exists, do remove_worktree require_clean task; ok safety_ref)
  remove_checked require_clean task (err c) = (false, err c)

  -- Everything that `cleanup` does before its final mutation, for a Task that is not cleaned yet.
  unfoldable pub prepare_cleanup : Bool → Task → Bool × Result (Option String)
  unfolding check_cleanup remove_checked
  prepare_cleanup require_clean task =
      remove_checked require_clean task (check_cleanup require_clean task)

cleaned_task : Option String → ℕ → Task → Task
cleaned_task safety_ref now task = record task {
  workspace_cleaned = true;
  gc_safety_ref = safety_ref;
  cleaned_at = some now;
  updated_at = now;
}

-- The mutator of `cleanup`.
unfoldable pub record_cleanup : Option String → ℕ → Task → Result (Task × Unit {0})
unfolding cleaned_task
record_cleanup safety_ref now task = if task.workspace_cleaned then ok (task, tt) else do
  guard (is_finalized task.status) task_not_finalized
  ok (cleaned_task safety_ref now task, tt)

record_prepared : Result (Option String) → String → ℕ → Db Task → Db Task × Result (Task × Unit {0})
record_prepared (ok safety_ref) task_id now db =
    mutate task_id (record_cleanup safety_ref now) now db
record_prepared (err c) task_id now db = (db, err c)

cleanup_loaded :
    Worktree → Bool → Result Task → String → ℕ → Db Task → Db Task × Result (Task × Unit {0})
unfolding record_prepared
cleanup_loaded git require_clean (ok task) task_id now db =
    if task.workspace_cleaned
    then (db, ok (task, tt))
    else record_prepared (prepare_cleanup git require_clean task).1 task_id now db
cleanup_loaded git require_clean (err c) task_id now db = (db, err c)

-- `cleanup`: `before` is the database at the first read, `db` that at the final mutation.
unfoldable pub cleanup :
    Worktree → String → Bool → ℕ → Db Task → Db Task → Db Task × Result (Task × Unit {0})
unfolding cleanup_loaded
cleanup git task_id require_clean now before db =
    cleanup_loaded git require_clean (get task_id before) task_id now db
