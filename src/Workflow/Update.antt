-- ===== src/Workflow/Update.antt =====
-- workflow-service.js: `update`.
use agentdock_mcp_harness.Base.{
  ℕ, String, Bool, true, false, not, ◌&&◌, ◌||◌, Option, none, some, List, [], ◌∷◌, map,
  if◌then◌else◌, same, keep, unique, is_some, trim, truthy, or_else, Result, ok, err, ◌>>=◌, ◌>>◌,
  guard, workflow_not_found, invalid_workflow_phase, workflow_complete, workflow_update_empty,
  workflow_task_repo_mismatch,
}
use agentdock_mcp_harness.Store.{Db, mutate_document}
use agentdock_mcp_harness.Workflow.{
  Phase, done, progress, Workflow, session_span_of, route_clarity_of, known_phase,
}
use agentdock_mcp_harness.Workflow.Evidence.{
  Outside, ReviewInput, normalize_review_evidence, no_decisions,
}
use agentdock_mcp_harness.Workflow.Advance.{push_history, history_entry, stored}

-- The arguments of `update` that may be left out.
pub record UpdateInput : Type 0 where
  pub session_span : Option String
  pub route_clarity : Option String
  pub open_decisions : Option (List String)
  pub artifacts : Option (List (String × String))
  pub implementation_task_ids : Option (List String)
  pub review_evidence : Option ReviewInput
  pub note : Option String

-- `[...new Set(values.map(trim).filter(Boolean))]`
abbrev pub clean_texts : List String → List String
clean_texts values = unique (keep truthy (map trim values))

-- `object[key] = value`
set_artifact : String → String → List (String × String) → List (String × String)
set_artifact key value [] = (key, value) ∷ []
set_artifact key value ((k, v) ∷ rest) =
    if same k key then (key, value) ∷ rest else (k, v) ∷ set_artifact key value rest

set_artifacts : List (String × String) → List (String × String) → List (String × String)
unfolding set_artifact
set_artifacts [] artifacts = artifacts
set_artifacts ((key, value) ∷ rest) artifacts =
    let clean_key = trim key in
    let clean_value = trim value in
    set_artifacts rest (
      if truthy clean_key && truthy clean_value
      then set_artifact clean_key clean_value artifacts
      else artifacts)

module _ (outside : Outside) where
  pub check_tasks : String → List String → Result (Unit {0})
  check_tasks repo_path [] = ok tt
  check_tasks repo_path (task_id ∷ rest) = do
    task ← outside.get_task task_id
    guard (same task.source_repo repo_path) workflow_task_repo_mismatch
    check_tasks repo_path rest

  unfoldable pub update_span : Option String → Workflow → Result Workflow
  update_span none w = ok w
  update_span (some s) w = do span ← session_span_of s; ok (record w { session_span = span })

  unfoldable pub update_clarity : Option String → Workflow → Result Workflow
  update_clarity none w = ok w
  update_clarity (some s) w = do
    clarity ← route_clarity_of s
    ok (record w { route_clarity = clarity })

  unfoldable pub update_decisions : Option (List String) → Workflow → Workflow
  update_decisions none w = w
  update_decisions (some decisions) w =
      let open_list = clean_texts decisions in
      record w {
        open_decisions = open_list;
        decisions_settled = if no_decisions open_list then w.decisions_settled else false;
      }

  unfoldable pub update_artifacts : Option (List (String × String)) → Workflow → Workflow
  unfolding set_artifacts
  update_artifacts none w = w
  update_artifacts (some entries) w = record w { artifacts = set_artifacts entries w.artifacts }

  unfoldable pub update_tasks : Option (List String) → Workflow → Result Workflow
  update_tasks none w = ok w
  update_tasks (some task_ids) w = do
    check_tasks w.repo_path (clean_texts task_ids)
    ok (record w {
      implementation_task_ids = clean_texts task_ids;
      implementation_evidence = none;
      review_evidence = none;
    })

  unfoldable pub update_review :
      (String → String) → ℕ → Option ReviewInput → Workflow → Result Workflow
  update_review upper now none w = ok w
  update_review upper now (some value) w = do
    evidence ← normalize_review_evidence upper value now
    ok (record w { review_evidence = some evidence })

  abbrev pub changes : UpdateInput → Bool
  changes input =
      is_some input.session_span
      || is_some input.route_clarity
      || is_some input.open_decisions
      || is_some input.artifacts
      || is_some input.implementation_task_ids
      || is_some input.review_evidence

  abbrev pub is_done : Phase → Bool
  is_done done = true
  is_done _ = false

  unfoldable pub log_progress : ℕ → String → Workflow → Workflow
  log_progress now note w = record w {
    last_event = progress;
    updated_at = now;
    history =
        push_history
          (history_entry now progress w.phase w.phase (if truthy note then some note else none))
          w.history;
  }

  -- The mutator of `update` on a stored workflow.
  unfoldable pub update_workflow : (String → String) → ℕ → UpdateInput → Workflow → Result Workflow
  unfolding check_tasks update_span update_clarity update_decisions update_artifacts update_tasks
      update_review log_progress
  update_workflow upper now input workflow = do
    let note = trim (or_else input.note "")
    guard (known_phase workflow.phase) invalid_workflow_phase
    guard (not (is_done workflow.phase)) workflow_complete
    spanned ← update_span input.session_span workflow
    cleared ← update_clarity input.route_clarity spanned
    let decided = update_decisions input.open_decisions cleared
    tasked ← update_tasks input.implementation_task_ids (update_artifacts input.artifacts decided)
    reviewed ← update_review upper now input.review_evidence tasked
    guard (changes input || truthy note) workflow_update_empty
    ok (log_progress now note reviewed)

  abbrev update_current : (String → String) → ℕ → UpdateInput → Option Workflow → Result Workflow
  update_current upper now input none = err workflow_not_found
  update_current upper now input (some w) = update_workflow upper now input w

  -- `update`, up to the `guide` that it returns.
  unfoldable pub update :
      (String → String)
      → ℕ
      → UpdateInput
      → String
      → Db Workflow
      → Db Workflow × Result (Workflow × Unit {0})
  update upper now input id db =
      mutate_document "workflow" id (λ current. stored (update_current upper now input current)) now
        db
