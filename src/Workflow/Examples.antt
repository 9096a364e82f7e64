-- ===== src/Workflow/Examples.antt =====
-- Workflows of workflow-service.js on concrete values.
use agentdock_mcp_harness.Base.{
  true, false, ◌≡◌, refl, ◌⊎◌, inl, none, some, List, [], ◌∷◌, map, unique, All, ok, err, Code,
  string_dec, trim, arith, workflow_complete, workflow_open_decisions,
}
use mathlib.Core.List.{Permᴰ}
use agentdock_mcp_harness.Task.{Task, completed, commit, VerificationStatus}
use agentdock_mcp_harness.Task.Finish.{create}
use agentdock_mcp_harness.Workflow.{
  Phase, grilling, wayfinding, implement, spec, tickets, review, done, prototype, Event,
  grilling_complete, review_passed, prototype_needed, prototype_complete, resume, single, multi,
  clear, foggy, Workflow, EvidenceUnit, ImplementationEvidence, ReviewEvidence, ReviewAxis,
}
use agentdock_mcp_harness.Workflow.Evidence.{
  Outside, unit_of, capture_implementation_evidence, assert_review_passed, assert_no_open_decisions,
}
use agentdock_mcp_harness.Workflow.Advance.{
  AdvanceInput, advance_workflow, transition, set_span, set_clarity, set_decisions, log_event,
}
use agentdock_mcp_harness.Workflow.Start.{new_workflow, route_for_start}
use agentdock_mcp_harness.Workflow.Update.{
  update_workflow, UpdateInput, log_progress, update_span, update_clarity, update_decisions,
  update_artifacts, update_tasks, update_review,
}
use agentdock_mcp_harness.Workflow.Gates.{IsWell, Approves, NoneOpen, grilling_ends}
use agentdock_mcp_harness.Workflow.Reach.{planning_gate, done_gate, done_is_final}
use agentdock_mcp_harness.Workflow.Detours.{
  no_update, updated, detour_returns, blocked_prototype_forgets,
}
use agentdock_mcp_harness.Workflow.Captures.{Backs, capture_backed}
use agentdock_mcp_harness.Workflow.Runs.{here, advanced, Run-IsWell}

-- The Task that the implementation is made in.
abbrev work : Task
work = record (create "task_1" "/repo" "base" "/worktree" none 0) {
  status = completed;
  outcome = some commit;
  final_commit_sha = some "head";
  retention_ref = some "refs/agentdock/tasks/task_1";
}

abbrev outside : Outside
outside = record {
  get_task = λ task_id. ok work;
  sort_units = λ units. units;
  fingerprint = λ units. "f";
}

abbrev nothing : AdvanceInput
nothing = record { session_span = none; route_clarity = none; open_decisions = none; note = none }

abbrev no_change : UpdateInput
no_change = record {
  session_span = none;
  route_clarity = none;
  open_decisions = none;
  artifacts = none;
  implementation_task_ids = none;
  review_evidence = none;
  note = none;
}

abbrev planned : Workflow
planned = new_workflow "/repo" "goal" false true 0 single clear

abbrev after_grilling : Workflow
after_grilling =
    log_event outside true 1 grilling_complete nothing grilling
      (record planned { decisions_settled = true; phase = implement })

grilled : advance_workflow outside true 1 grilling_complete nothing planned ≡ ok after_grilling
unfolding advance_workflow new_workflow route_for_start transition set_span set_clarity
    set_decisions log_event assert_no_open_decisions trim string_dec
grilled = refl

one_open :
    advance_workflow outside true 1 grilling_complete nothing
      (record planned { open_decisions = " which? " ∷ [] })
    ≡ err workflow_open_decisions
unfolding advance_workflow new_workflow route_for_start transition set_span set_clarity
    set_decisions log_event assert_no_open_decisions trim string_dec
one_open = refl

planning_gate_example :
    NoneOpen after_grilling.open_decisions
    × (after_grilling.decisions_settled ≡ true)
    × ((after_grilling.phase ≡ spec)
        ⊎ (after_grilling.phase ≡ tickets)
        ⊎ (after_grilling.phase ≡ implement))
planning_gate_example =
    planning_gate outside true 1 grilling_complete nothing planned after_grilling grilling_ends
      grilled

Run-IsWell_example : IsWell after_grilling
Run-IsWell_example =
    Run-IsWell outside "/repo" "goal" false true 0 single clear
      (advanced true 1 grilling_complete nothing here grilled)

abbrev unit : EvidenceUnit
unit = record {
  task_id = "task_1";
  committed = true;
  final_commit_sha = some "head";
  retention_ref = some "refs/agentdock/tasks/task_1";
  outcome_reason = none;
  verification_status = VerificationStatus.pending;
}

abbrev capture : ImplementationEvidence
capture = record { captured_at = 2; fingerprint = "f"; units = unit ∷ [] }

abbrev linked : Workflow
linked = record planned { phase = implement; implementation_task_ids = "task_1" ∷ [] }

captured : capture_implementation_evidence outside 2 linked ≡ ok capture
unfolding capture_implementation_evidence unit_of new_workflow create string_dec
captured = refl

-- The sort of this example leaves the units as they are.
reorders_nothing : (us : List EvidenceUnit) → Permᴰ us us
reorders_nothing [] = Permᴰ.nil
reorders_nothing (u ∷ us) = Permᴰ.cons refl (reorders_nothing us)

capture_backed_example :
    All (Backs outside "/repo") capture.units
    × Permᴰ (map (λ unit. unit.task_id) capture.units) (unique ("task_1" ∷ []))
    × (capture.fingerprint ≡ outside.fingerprint capture.units)
unfolding new_workflow
capture_backed_example = capture_backed outside reorders_nothing 2 linked capture captured

abbrev passing : ReviewAxis
passing = record { passed = true; blocking_findings = 0 }

abbrev verdict : ReviewEvidence
verdict = record {
  target_fingerprint = "f";
  standards = passing;
  spec = passing;
  note = none;
  recorded_at = 3;
}

abbrev reviewed : Workflow
reviewed = record linked {
  phase = review;
  implementation_evidence = some capture;
  review_evidence = some verdict;
}

abbrev finished : Workflow
finished = log_event outside true 4 review_passed nothing review (record reviewed { phase = done })

passes : advance_workflow outside true 4 review_passed nothing reviewed ≡ ok finished
unfolding advance_workflow new_workflow route_for_start transition set_span set_clarity
    set_decisions log_event assert_review_passed string_dec
passes = refl

reviewed-IsWell : IsWell reviewed
unfolding new_workflow route_for_start
reviewed-IsWell = ground arith

done_gate_example :
    (review_passed ≡ review_passed)
    × (review ≡ review)
    × ((r : ReviewEvidence) × (some verdict ≡ some r) × Approves capture r)
unfolding log_event
done_gate_example =
    done_gate outside true 4 review_passed nothing reviewed finished capture reviewed-IsWell refl
      passes refl

done_is_final_example :
    ((c : Code) × (advance_workflow outside true 5 resume nothing finished ≡ err c))
    × (update_workflow outside (λ s. s) 5 no_change finished ≡ err workflow_complete)
unfolding log_event
done_is_final_example = done_is_final outside true (λ s. s) 5 resume nothing no_change finished refl

-- A foggy goal of several sessions, whose prototype is blocked.
abbrev charting : Workflow
charting = new_workflow "/repo" "goal" false true 0 multi foggy

abbrev trying : Workflow
trying =
    log_event outside true 1 prototype_needed nothing wayfinding
      (record charting { return_phase = some wayfinding; phase = prototype })

abbrev stopped : Workflow
stopped =
    log_event outside true 2 Event.blocked nothing prototype
      (record trying { return_phase = some prototype; phase = Phase.blocked })

abbrev resumed : Workflow
resumed =
    log_event outside true 3 resume nothing Phase.blocked
      (record stopped { return_phase = none; phase = prototype })

abbrev back_home : Workflow
back_home =
    log_event outside true 4 prototype_complete nothing prototype
      (record resumed { return_phase = none; phase = grilling })

tries : advance_workflow outside true 1 prototype_needed nothing charting ≡ ok trying
unfolding advance_workflow new_workflow route_for_start transition set_span set_clarity
    set_decisions log_event
tries = refl

stops : advance_workflow outside true 2 Event.blocked nothing trying ≡ ok stopped
unfolding advance_workflow new_workflow route_for_start transition set_span set_clarity
    set_decisions log_event
stops = refl

resumes : advance_workflow outside true 3 resume nothing stopped ≡ ok resumed
unfolding advance_workflow new_workflow route_for_start transition set_span set_clarity
    set_decisions log_event
resumes = refl

comes_back : advance_workflow outside true 4 prototype_complete nothing resumed ≡ ok back_home
unfolding advance_workflow new_workflow route_for_start transition set_span set_clarity
    set_decisions log_event
comes_back = refl

-- What was stopped, with a note.
abbrev a_note : UpdateInput
a_note = record no_change { note = some "waiting" }

abbrev noted : Workflow
noted = log_progress outside 3 "waiting" stopped

notes : update_workflow outside (λ s. s) 3 a_note stopped ≡ ok noted
unfolding update_workflow update_span update_clarity update_decisions update_artifacts update_tasks
    update_review log_progress log_event new_workflow route_for_start trim
notes = refl

abbrev returned : Workflow
returned =
    log_event outside true 4 resume nothing Phase.blocked
      (record noted { return_phase = none; phase = prototype })

returns : advance_workflow outside true 4 resume nothing noted ≡ ok returned
unfolding advance_workflow new_workflow route_for_start transition set_span set_clarity
    set_decisions log_event log_progress
returns = refl

detour_returns_example : returned.phase ≡ trying.phase
detour_returns_example =
    detour_returns outside true Event.blocked resume 2 4 nothing nothing trying stopped noted
      returned (inl refl) stops (updated (λ s. s) 3 a_note no_update notes) returns

blocked_prototype_forgets_example : back_home.phase ≡ grilling
blocked_prototype_forgets_example =
    blocked_prototype_forgets outside true nothing 1 2 3 4 charting trying stopped resumed back_home
      tries stops resumes comes_back
