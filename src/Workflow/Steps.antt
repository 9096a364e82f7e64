-- ===== src/Workflow/Steps.antt =====
-- workflow-service.js: `advance` in parts, around its transition.
use agentdock_mcp_harness.Base.{
  ℕ, Bool, true, ◌≡◌, List, [], ◌∷◌, ◌++◌, arith, ok, >>=-eq-ok, ok-injective, guard, guard-eq-ok,
  invalid_workflow_phase, length, ◌≤◌, length-take_last-le,
}
use agentdock_mcp_harness.Workflow.{Phase, Event, Workflow, HistoryEntry, known_phase}
use agentdock_mcp_harness.Workflow.Evidence.{Outside}
use agentdock_mcp_harness.Workflow.Advance.{
  transition, advance_workflow, AdvanceInput, push_history, log_event, set_span, set_clarity,
  set_decisions,
}

-- What the arguments of `advance` leave alone before the transition.
pub record Ready (w r : Workflow) : Type 0 where
  pub repo_path : r.repo_path ≡ w.repo_path
  pub phase : r.phase ≡ w.phase
  pub return_phase : r.return_phase ≡ w.return_phase
  pub after_setup_phase : r.after_setup_phase ≡ w.after_setup_phase
  pub implementation_task_ids : r.implementation_task_ids ≡ w.implementation_task_ids
  pub implementation_evidence : r.implementation_evidence ≡ w.implementation_evidence
  pub review_evidence : r.review_evidence ≡ w.review_evidence
  pub history : r.history ≡ w.history

-- What the log entry after the transition leaves alone.
pub record Logged (m v : Workflow) : Type 0 where
  pub phase : v.phase ≡ m.phase
  pub return_phase : v.return_phase ≡ m.return_phase
  pub after_setup_phase : v.after_setup_phase ≡ m.after_setup_phase
  pub open_decisions : v.open_decisions ≡ m.open_decisions
  pub decisions_settled : v.decisions_settled ≡ m.decisions_settled
  pub implementation_evidence : v.implementation_evidence ≡ m.implementation_evidence
  pub review_evidence : v.review_evidence ≡ m.review_evidence

pub length-push_history-le :
    (entry : HistoryEntry) (history : List HistoryEntry) → length (push_history entry history) ≤ 200
length-push_history-le entry history =
    ground (arith, length-take_last-le 200 (history ++ entry ∷ []))

module _ (outside : Outside) (configured : Bool) (now : ℕ) (e : Event) (input : AdvanceInput)
    (w v : Workflow) where
  pub record Step : Type 0 where
    pub ready : Workflow
    pub moved : Workflow
    pub known : known_phase w.phase ≡ true
    pub prepared : Ready w ready
    pub taken : transition outside configured now e ready.phase ready ≡ ok moved
    pub logged : Logged moved v
    pub bounded : length v.history ≤ 200

  set_span-Ready : (r : Workflow) → set_span input.session_span w ≡ ok r → Ready w r
  unfolding set_span
  set_span-Ready r h = ground arith

  set_clarity-Ready :
      (r s : Workflow) → Ready w r → set_clarity input.route_clarity r ≡ ok s → Ready w s
  unfolding set_clarity
  set_clarity-Ready r s p h = ground arith

  set_decisions-Ready : (r : Workflow) → Ready w r → Ready w (set_decisions input.open_decisions r)
  unfolding set_decisions
  set_decisions-Ready r p = ground arith

  log_event-Logged :
      (previous : Phase) (m : Workflow)
      → Logged m (log_event outside configured now e input previous m)
  unfolding log_event
  log_event-Logged previous m = ground arith

  log_event-bounded :
      (previous : Phase) (m : Workflow)
      → length (log_event outside configured now e input previous m).history ≤ 200
  unfolding log_event
  log_event-bounded previous m = length-push_history-le _ m.history

  pub advance-Step : advance_workflow outside configured now e input w ≡ ok v → Step
  unfolding advance_workflow
  advance-Step h =
      let (_, known, h1) = >>=-eq-ok (guard (known_phase w.phase) invalid_workflow_phase) _ h in
      let (spanned, spans, h2) = >>=-eq-ok (set_span input.session_span w) _ h1 in
      let (cleared, clears, h3) = >>=-eq-ok (set_clarity input.route_clarity spanned) _ h2 in
      let ready = set_decisions input.open_decisions cleared in
      let (moved, taken, h4) =
        >>=-eq-ok (transition outside configured now e ready.phase ready) _ h3 in
      let logs = ok-injective h4 in
      record {
        ready = ready;
        moved = moved;
        known = guard-eq-ok _ _ known;
        prepared =
            set_decisions-Ready cleared
              (set_clarity-Ready spanned cleared (set_span-Ready spanned spans) clears);
        taken = taken;
        logged = rw (← logs) (log_event-Logged ready.phase moved);
        bounded = rw (← logs) (log_event-bounded ready.phase moved);
      }
