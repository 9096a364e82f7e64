-- ===== src/Workflow/Reach.antt =====
-- workflow-service.js: one call of `advance` or `update` on a stored workflow.
use agentdock_mcp_harness.Base.{
  ℕ, String, Bool, true, ◌≡◌, refl, sym, ◌∙◌, ap, subst, ◌⊎◌, inl, inr, some, arith, ok, err, Code,
  workflow_complete, Result-cases,
}
use agentdock_mcp_harness.Workflow.{
  Phase, spec, tickets, implement, review, done, Event, review_passed, Workflow,
  ImplementationEvidence, ReviewEvidence, known_phase,
}
use agentdock_mcp_harness.Workflow.Evidence.{Outside}
use agentdock_mcp_harness.Workflow.Advance.{transition, advance_workflow, AdvanceInput}
use agentdock_mcp_harness.Workflow.Update.{update_workflow, UpdateInput}
use agentdock_mcp_harness.Workflow.Steps.{advance-Step}
use agentdock_mcp_harness.Workflow.Gates.{
  resumable_option, IsWell, EndsPlanning, NoneOpen, Approves, assert_review_passed-Approves,
  assert_no_open_decisions-NoneOpen, transition_planning, transition_done, transition_review,
  transition-IsWell, transition_from_done,
}

module _ (outside : Outside) (configured : Bool) (now : ℕ) (e : Event) (input : AdvanceInput)
    (w v : Workflow) where
  -- An event that ends a planning phase is accepted only with no open decision; it leaves the
  -- decisions settled and the workflow in SPEC, TICKETS or IMPLEMENT.
  pub planning_gate :
      EndsPlanning e
      → advance_workflow outside configured now e input w ≡ ok v
      → NoneOpen v.open_decisions
        × (v.decisions_settled ≡ true)
        × ((v.phase ≡ spec) ⊎ (v.phase ≡ tickets) ⊎ (v.phase ≡ implement))
  planning_gate ends h =
      let s = advance-Step outside configured now e input w v h in
      let (asserted, same_list, settled, phases) =
        transition_planning outside configured now s.ready s.moved e s.ready.phase ends s.taken in
      (
        rw (s.logged.open_decisions, same_list)
            (assert_no_open_decisions-NoneOpen s.ready asserted),
        s.logged.decisions_settled ∙ settled,
        rw s.logged.phase phases,
      )

  -- Every event keeps a stored workflow well formed.
  pub advance-IsWell :
      IsWell w → advance_workflow outside configured now e input w ≡ ok v → IsWell v
  advance-IsWell well h =
      let s = advance-Step outside configured now e input w v h in
      let (known, returns, continues) =
        transition-IsWell outside configured now s.ready s.moved e s.ready.phase
          (ap resumable_option s.prepared.return_phase ∙ well.returns)
          (ap resumable_option s.prepared.after_setup_phase ∙ well.continues) refl
          (ap known_phase s.prepared.phase ∙ s.known) s.taken in
      record {
        known = ap known_phase s.logged.phase ∙ known;
        returns = ap resumable_option s.logged.return_phase ∙ returns;
        continues = ap resumable_option s.logged.after_setup_phase ∙ continues;
        bounded = s.bounded;
      }

  done_event :
      IsWell w
      → advance_workflow outside configured now e input w ≡ ok v
      → v.phase ≡ done
      → (e ≡ review_passed) × (w.phase ≡ review)
  done_event well h d =
      let s = advance-Step outside configured now e input w v h in
      let (passed, at) =
        transition_done outside configured now s.ready s.moved e s.ready.phase
          (ap resumable_option s.prepared.return_phase ∙ well.returns)
          (ap resumable_option s.prepared.after_setup_phase ∙ well.continues) s.taken
          (sym s.logged.phase ∙ d) in
      (passed, sym s.prepared.phase ∙ at)

module _ (outside : Outside) (configured : Bool) (now : ℕ) (input : AdvanceInput)
    (w v : Workflow) where
  review_of_capture :
      (evidence : ImplementationEvidence)
      → advance_workflow outside configured now review_passed input w ≡ ok v
      → w.phase ≡ review
      → w.implementation_evidence ≡ some evidence
      → (r : ReviewEvidence) × (w.review_evidence ≡ some r) × Approves evidence r
  review_of_capture evidence h at e =
      let s = advance-Step outside configured now review_passed input w v h in
      let taken =
        subst
          (λ (phase : Phase).
            transition outside configured now review_passed phase s.ready ≡ ok s.moved)
          (s.prepared.phase ∙ at) s.taken in
      let (_, _, asserted) =
        transition_review outside configured now s.ready s.moved evidence taken
          (s.prepared.implementation_evidence ∙ e) in
      let (r, found, approves) = assert_review_passed-Approves evidence s.ready asserted in
      (r, sym s.prepared.review_evidence ∙ found, approves)

-- A workflow with a captured implementation becomes DONE only by `review_passed` in REVIEW, with a
-- review of exactly that capture in which both axes pass with no blocking finding.
pub done_gate :
    (outside : Outside) (configured : Bool) (now : ℕ) (e : Event) (input : AdvanceInput)
    (w v : Workflow) (evidence : ImplementationEvidence)
    → IsWell w
    → w.implementation_evidence ≡ some evidence
    → advance_workflow outside configured now e input w ≡ ok v
    → v.phase ≡ done
    → (e ≡ review_passed)
      × (w.phase ≡ review)
      × ((r : ReviewEvidence) × (w.review_evidence ≡ some r) × Approves evidence r)
done_gate outside configured now e input w v evidence well captured h d =
    let (passed, at) = done_event outside configured now e input w v well h d in
    (
      passed,
      at,
      review_of_capture outside configured now input w v evidence
          (subst (λ (x : Event). advance_workflow outside configured now x input w ≡ ok v) passed h)
          at captured,
    )

done_refuses :
    (outside : Outside) (configured : Bool) (now : ℕ) (e : Event) (input : AdvanceInput)
    (w v : Workflow)
    → w.phase ≡ done
    → advance_workflow outside configured now e input w ≡ ok v
    → ⊥
done_refuses outside configured now e input w v d h =
    let s = advance-Step outside configured now e input w v h in
    transition_from_done outside configured now s.ready s.moved e (
      subst (λ (phase : Phase). transition outside configured now e phase s.ready ≡ ok s.moved)
        (s.prepared.phase ∙ d) s.taken)

-- A completed workflow is immutable: every event and every update of it is refused.
pub done_is_final :
    (outside : Outside) (configured : Bool) (upper : String → String) (now : ℕ) (e : Event)
    (input : AdvanceInput) (changes : UpdateInput) (w : Workflow)
    → w.phase ≡ done
    → ((c : Code) × (advance_workflow outside configured now e input w ≡ err c))
      × (update_workflow outside upper now changes w ≡ err workflow_complete)
unfolding update_workflow
done_is_final outside configured upper now e input changes w d = (
  elim (Result-cases (advance_workflow outside configured now e input w)) [
    | inl (v, h) ↦ absurd (done_refuses outside configured now e input w v d h)
    | inr (c, h) ↦ (c, h)
  ],
  ground (arith, d),
)
