-- ===== src/Task/Removal.antt =====
-- task-service.js: what holds when `cleanup` calls `removeWorktree`.
use agentdock_mcp_harness.Base.{
  String, Bool, true, false, ◌≡◌, ◌≢◌, Option, none, some, [], arith, ok, Result-cases, inl, inr,
  refl,
}
use agentdock_mcp_harness.Task.{Task, completed, cancelled, commit, task_retention_ref, is_active}
use agentdock_mcp_harness.Task.Cleanup.{Worktree, check_cleanup, prepare_cleanup}

-- The final commit of a Task is kept: its canonical ref is recorded, and Git has confirmed that the ref holds it.
pub record IsKept (git : Worktree) (t : Task) : Type 0 where
  pub ref : String
  pub sha : String
  pub canonical : task_retention_ref t.task_id ≡ ok ref
  pub recorded : t.retention_ref ≡ some ref
  pub final : t.final_commit_sha ≡ some sha
  pub retained : git.assert_retained ref sha ≡ ok tt

-- The worktree may be removed, at the request of the user or automatically.
pub record IsRemovable (git : Worktree) (automatic : Bool) (t : Task) : Type 0 where
  pub finalized : is_active t.status ≡ false
  pub no_starts : t.pending_process_starts ≡ []
  -- a finished Task with a commit of its own; one of before the outcomes is told by its commit
  pub commit_kept : t.status ≡ completed → t.outcome ≡ some commit → IsKept git t
  pub legacy_kept :
      t.status ≡ completed → t.outcome ≡ none → t.final_commit_sha ≢ some t.base_head → IsKept git t
  pub unchanged : automatic ≡ true → git.changed_files ≡ []
  pub cancelled_head : automatic ≡ true → t.status ≡ cancelled → git.head ≡ t.base_head
  pub completed_head :
      automatic ≡ true
      → t.status ≡ completed
      → (sha : String) → t.final_commit_sha ≡ some sha
      → git.head ≡ sha
  pub safe : automatic ≡ true → (ref : String) × (git.retain_gc_safety git.head ≡ ok ref)

module _ (git : Worktree) (automatic : Bool) (t : Task) (safety_ref : Option String)
    (checked : check_cleanup git automatic t ≡ ok safety_ref) where
  checked-commit :
      (r f : Option String)
      → t.retention_ref ≡ r
      → t.final_commit_sha ≡ f
      → t.status ≡ completed
      → t.outcome ≡ some commit
      → IsKept git t
  unfolding check_cleanup
  checked-commit none f recorded final done is_commit = absurd (ground arith)
  checked-commit (some ref) none recorded final done is_commit = absurd (ground arith)
  checked-commit (some ref) (some sha) recorded final done is_commit = record {
    ref = ref;
    sha = sha;
    canonical = ground arith;
    recorded = recorded;
    final = final;
    retained = ground arith;
  }

  checked-legacy :
      (r f : Option String)
      → t.retention_ref ≡ r
      → t.final_commit_sha ≡ f
      → t.status ≡ completed
      → t.outcome ≡ none
      → f ≢ some t.base_head
      → IsKept git t
  unfolding check_cleanup
  checked-legacy r none recorded final done no_outcome moved = absurd (ground arith)
  checked-legacy none (some sha) recorded final done no_outcome moved = absurd (ground arith)
  checked-legacy (some ref) (some sha) recorded final done no_outcome moved = record {
    ref = ref;
    sha = sha;
    canonical = ground arith;
    recorded = recorded;
    final = final;
    retained = ground arith;
  }

  checked-safety : automatic ≡ true → (r : String) × (git.retain_gc_safety git.head ≡ ok r)
  unfolding check_cleanup
  checked-safety automatically = elim (Result-cases (git.retain_gc_safety git.head)) [
    | inl kept ↦ kept
    | inr (c, e) ↦ absurd (ground arith)
  ]

  check_cleanup-IsRemovable : IsRemovable git automatic t
  unfolding check_cleanup
  check_cleanup-IsRemovable = record {
    finalized = ground arith;
    no_starts = ground arith;
    commit_kept = checked-commit t.retention_ref t.final_commit_sha refl refl;
    legacy_kept = checked-legacy t.retention_ref t.final_commit_sha refl refl;
    unchanged = λ automatically. ground arith;
    cancelled_head = λ automatically is_cancelled. ground arith;
    completed_head = λ automatically done sha final. ground arith;
    safe = checked-safety;
  }

-- cleanup calls removeWorktree only for a Task that is finalized and has no Run start under way. The commit of a
-- COMPLETED Task is then kept: its canonical ref is recorded, and Git has confirmed that the ref holds the final
-- commit. Before an automatic removal no file of the worktree was changed, HEAD was the base of a CANCELLED Task and
-- the final commit of a COMPLETED one, and a safety ref of HEAD was made.
pub prepare_cleanup-IsRemovable :
    (git : Worktree) (automatic : Bool) (t : Task)
    → (prepare_cleanup git automatic t).0 ≡ true
    → IsRemovable git automatic t
unfolding prepare_cleanup
prepare_cleanup-IsRemovable git automatic t removes =
    elim (Result-cases (check_cleanup git automatic t)) [
      | inl (safety_ref, checked) ↦ check_cleanup-IsRemovable git automatic t safety_ref checked
      | inr (c, refused) ↦ absurd (ground arith)
    ]
