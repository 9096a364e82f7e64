-- ===== src/Workflow/Runs.antt =====
-- A workflow over any calls of `advance` and `update`, from the one that `start` builds.
use agentdock_mcp_harness.Base.{
  ℕ, String, Bool, ◌≡◌, arith, ok, not, ◌||◌, truthy, trim, or_else, >>=-eq-ok, ok-injective, guard,
  subst, invalid_workflow_phase, workflow_complete, workflow_update_empty, length, ◌≤◌,
}
use agentdock_mcp_harness.Workflow.{Event, SessionSpan, RouteClarity, Workflow, known_phase}
use agentdock_mcp_harness.Workflow.Evidence.{Outside}
use agentdock_mcp_harness.Workflow.Advance.{advance_workflow, AdvanceInput}
use agentdock_mcp_harness.Workflow.Start.{new_workflow, route_for_start}
use agentdock_mcp_harness.Workflow.Update.{
  update_workflow, UpdateInput, update_span, update_clarity, update_decisions, update_artifacts,
  update_tasks, update_review, log_progress, is_done, changes,
}
use agentdock_mcp_harness.Workflow.Steps.{length-push_history-le}
use agentdock_mcp_harness.Workflow.Gates.{IsWell}
use agentdock_mcp_harness.Workflow.Reach.{advance-IsWell}

-- `update` leaves the place of the workflow alone.
pub record Stays (w v : Workflow) : Type 0 where
  pub phase : v.phase ≡ w.phase
  pub return_phase : v.return_phase ≡ w.return_phase
  after_setup_phase : v.after_setup_phase ≡ w.after_setup_phase
  bounded : length v.history ≤ 200

module _ (outside : Outside) (upper : String → String) (now : ℕ) (input : UpdateInput)
    (w v : Workflow) where
  -- What the arguments of `update` leave alone.
  record Kept (r : Workflow) : Type 0 where
    phase : r.phase ≡ w.phase
    return_phase : r.return_phase ≡ w.return_phase
    after_setup_phase : r.after_setup_phase ≡ w.after_setup_phase

  span-Kept : (r : Workflow) → update_span outside input.session_span w ≡ ok r → Kept r
  unfolding update_span
  span-Kept r h = ground arith

  clarity-Kept :
      (r s : Workflow) → Kept r → update_clarity outside input.route_clarity r ≡ ok s → Kept s
  unfolding update_clarity
  clarity-Kept r s k h = ground arith

  decisions-Kept : (r : Workflow) → Kept r → Kept (update_decisions outside input.open_decisions r)
  unfolding update_decisions
  decisions-Kept r k = ground arith

  artifacts-Kept : (r : Workflow) → Kept r → Kept (update_artifacts outside input.artifacts r)
  unfolding update_artifacts
  artifacts-Kept r k = ground arith

  tasks-Kept :
      (r s : Workflow)
      → Kept r
      → update_tasks outside input.implementation_task_ids r ≡ ok s
      → Kept s
  unfolding update_tasks
  tasks-Kept r s k h = ground arith

  review-Kept :
      (r s : Workflow)
      → Kept r
      → update_review outside upper now input.review_evidence r ≡ ok s
      → Kept s
  unfolding update_review
  review-Kept r s k h = ground arith

  log_progress-Stays :
      (note : String) (r : Workflow) → Kept r → Stays w (log_progress outside now note r)
  unfolding log_progress
  log_progress-Stays note r k = record {
    phase = k.phase;
    return_phase = k.return_phase;
    after_setup_phase = k.after_setup_phase;
    bounded = length-push_history-le _ r.history;
  }

  pub update-Stays : update_workflow outside upper now input w ≡ ok v → Stays w v
  unfolding update_workflow
  update-Stays h =
      let note = trim (or_else input.note "") in
      let (_, _, h1) = >>=-eq-ok (guard (known_phase w.phase) invalid_workflow_phase) _ h in
      let (_, _, h2) = >>=-eq-ok (guard (not (is_done outside w.phase)) workflow_complete) _ h1 in
      let (spanned, spans, h3) = >>=-eq-ok (update_span outside input.session_span w) _ h2 in
      let (cleared, clears, h4) =
        >>=-eq-ok (update_clarity outside input.route_clarity spanned) _ h3 in
      let (tasked, tasks, h5) =
        >>=-eq-ok (update_tasks outside input.implementation_task_ids _) _ h4 in
      let (reviewed, reviews, h6) =
        >>=-eq-ok (update_review outside upper now input.review_evidence tasked) _ h5 in
      let (_, _, h7) =
        >>=-eq-ok (guard (changes outside input || truthy note) workflow_update_empty) _ h6 in
      let decided =
        decisions-Kept cleared (clarity-Kept spanned cleared (span-Kept spanned spans) clears) in
      let kept =
        review-Kept tasked reviewed (tasks-Kept _ tasked (artifacts-Kept _ decided) tasks)
          reviews in
      subst (λ (x : Workflow). Stays w x) (ok-injective h7) (log_progress-Stays note reviewed kept)

  update-IsWell : IsWell w → update_workflow outside upper now input w ≡ ok v → IsWell v
  update-IsWell well h =
      let s = update-Stays h in
      record {
        known = rw s.phase well.known;
        returns = rw s.return_phase well.returns;
        continues = rw s.after_setup_phase well.continues;
        bounded = s.bounded;
      }

new_workflow-IsWell :
    (repo_path goal : String) (settled configured : Bool) (now : ℕ) (span : SessionSpan)
    (clarity : RouteClarity)
    → IsWell (new_workflow repo_path goal settled configured now span clarity)
unfolding new_workflow route_for_start
new_workflow-IsWell repo_path goal settled configured now span clarity = ground arith

-- Any number of calls that returned.
pub data Run (outside : Outside) (w : Workflow) : Workflow → Type 0 where
  here : Run outside w w
  advanced :
      {u v : Workflow} (configured : Bool) (now : ℕ) (e : Event) (input : AdvanceInput)
      → Run outside w u
      → advance_workflow outside configured now e input u ≡ ok v
      → Run outside w v
  updated :
      {u v : Workflow} (upper : String → String) (now : ℕ) (input : UpdateInput)
      → Run outside w u
      → update_workflow outside upper now input u ≡ ok v
      → Run outside w v

-- After any calls on a workflow that `start` has built, its phase is a known one, the phases that
-- it stores to come back to are not BLOCKED or DONE, and its history has at most 200 entries.
pub Run-IsWell :
    (outside : Outside) (repo_path goal : String) (settled configured : Bool) (now : ℕ)
    (span : SessionSpan) (clarity : RouteClarity) {v : Workflow}
    → Run outside (new_workflow repo_path goal settled configured now span clarity) v
    → IsWell v
Run-IsWell outside repo_path goal settled configured now span clarity here =
    new_workflow-IsWell repo_path goal settled configured now span clarity
Run-IsWell outside repo_path goal settled configured now span clarity
      (advanced {u} {v} c t e input r h) =
    advance-IsWell outside c t e input u v
      (Run-IsWell outside repo_path goal settled configured now span clarity r) h
Run-IsWell outside repo_path goal settled configured now span clarity
      (updated {u} {v} upper t input r h) =
    update-IsWell outside upper t input u v
      (Run-IsWell outside repo_path goal settled configured now span clarity r) h
