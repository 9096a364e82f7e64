-- ===== src/Lifecycle/Examples.antt =====
-- The life of a Task from task-service.js on concrete values, up to its removal.
use agentdock_mcp_harness.Base.{
  false, String, true, ◌≡◌, refl, Option, none, some, List, [], ◌∷◌, ok, err, All, or_else, ◌↔◌,
  string_dec, trim, task_completion_evidence_required,
}
use agentdock_mcp_harness.Task.{
  Task, completed, commit, EvidenceKind, diff_check, pass, EvidenceRecord, verified, matches_id,
}
use agentdock_mcp_harness.Task.Evidence.{record_evidence, evaluate_completion_evidence}
use agentdock_mcp_harness.Task.Evidence.Satisfied.{Proven, satisfied_iff}
use agentdock_mcp_harness.Task.Finish.{finish, create}
use agentdock_mcp_harness.Task.Cleanup.{Worktree, prepare_cleanup}
use agentdock_mcp_harness.Task.Removal.{IsRemovable, prepare_cleanup-IsRemovable}
use agentdock_mcp_harness.Task.Preserves.{IsSound}
use agentdock_mcp_harness.Approval.Backing.{IsBacked}
use agentdock_mcp_harness.Lifecycle.{
  Call, recorded, finished, Reach, here, next, Reach-IsSound, finalized_is_final, completed-Proven,
  SameResult,
}

abbrev task_id : String
task_id = "task_00000000-0000-4000-8000-000000000001"

abbrev canonical_ref : String
canonical_ref = "refs/agentdock/tasks/task_00000000-0000-4000-8000-000000000001"

abbrev contract : Option (List EvidenceKind)
contract = some (diff_check ∷ [])

abbrev started : Task
started = create task_id "/repo" "base" "/worktree" contract 0

abbrev clean_diff : EvidenceRecord
clean_diff = record {
  evidence_id = "evidence_1";
  kind = diff_check;
  status = pass;
  summary = "no stray change";
  subject_sha = some "head";
  run_id = none;
  recorded_at = 1;
}

abbrev proved : Task
proved = record started { completion_evidence = clean_diff ∷ []; updated_at = 1 }

abbrev finalized : Task
finalized = record proved {
  status = completed;
  final_commit_sha = some "head";
  outcome = some commit;
  outcome_reason = none;
  retention_ref = some canonical_ref;
  verification_status = verified;
  verification_evidence = some (evaluate_completion_evidence proved (some "head"));
  verified_at = some 2;
  finished_at = some 2;
  updated_at = 2;
  approval_grants = [];
}

proving : Call started proved
unfolding create record_evidence string_dec trim
proving =
    recorded (λ s. s) "DIFF_CHECK" pass "no stray change" (some "head") none "evidence_1" 1
      clean_diff refl

finishing : Call proved finalized
unfolding create finish evaluate_completion_evidence string_dec matches_id
finishing = finished (some "head") none (some canonical_ref) (some commit) 2 refl

life : Reach started finalized
life = next (next here proving) finishing

-- A Task without its evidence is not finished.
unproven :
    finish (some "head") none (some canonical_ref) (some commit) 2 started
    ≡ err task_completion_evidence_required
unfolding create finish evaluate_completion_evidence string_dec matches_id
unproven = refl

completed-Proven_example :
    All (Proven finalized.completion_evidence finalized.final_commit_sha) (diff_check ∷ [])
unfolding create
completed-Proven_example = completed-Proven task_id "/repo" "base" "/worktree" contract 0 life refl

Reach-IsSound_example : IsSound finalized × IsBacked finalized
Reach-IsSound_example = Reach-IsSound task_id "/repo" "base" "/worktree" contract 0 life

finalized_is_final_example : SameResult finalized finalized
unfolding create
finalized_is_final_example = finalized_is_final refl here

satisfied_iff_example :
    ((evaluate_completion_evidence proved (some "head")).satisfied ≡ true)
    ↔ All (Proven proved.completion_evidence (some "head")) (or_else proved.completion_contract [])
satisfied_iff_example = satisfied_iff proved (some "head")

-- A worktree with no change, at the final commit.
abbrev untouched : Worktree
untouched = record {
  assert_retained = λ ref sha. ok tt;
  assert_gc_path = ok tt;
  assert_registered = ok tt;
  changed_files = [];
  head = "head";
  retain_gc_safety = λ sha. ok "refs/agentdock/gc/1";
  exists = true;
  remove = λ force expected. ok tt;
}

-- The worktree is removed, and stays as it is where a file was changed.
removes : (prepare_cleanup untouched true finalized).0 ≡ true
unfolding create prepare_cleanup string_dec matches_id
removes = refl

leaves_changes :
    (prepare_cleanup (record untouched { changed_files = "a" ∷ [] }) true finalized).0 ≡ false
unfolding create prepare_cleanup string_dec matches_id
leaves_changes = refl

prepare_cleanup-IsRemovable_example : IsRemovable untouched true finalized
prepare_cleanup-IsRemovable_example = prepare_cleanup-IsRemovable untouched true finalized removes
