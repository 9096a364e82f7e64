-- ===== src/Workflow/Advance.antt =====
-- workflow-service.js: `advance`, one event on the stored workflow.
use agentdock_mcp_harness.Base.{
  ℕ, String, Bool, true, Option, none, some, List, [], ◌∷◌, ◌++◌, if◌then◌else◌, ltb, length,
  take_last, truthy, Result, ok, err, ◌>>=◌, ◌>>◌, guard, workflow_not_found,
  invalid_workflow_phase, invalid_workflow_event, workflow_setup_incomplete,
  workflow_session_span_required, invalid_workflow_transition,
}
use agentdock_mcp_harness.Store.{Db, mutate_document}
use agentdock_mcp_harness.Workflow.{
  Phase, setup, grilling, wayfinding, prototype, spec, tickets, implement, review, done, Event,
  setup_complete, grilling_complete, prototype_needed, prototype_complete, map_clear, spec_complete,
  tickets_complete, implementation_complete, review_passed, review_changes_requested, resume,
  SessionSpan, single, multi, clear, Mark, event, HistoryEntry, ImplementationEvidence, Workflow,
  session_span_of, route_clarity_of, event_of, known_phase, or_grilling,
}
use agentdock_mcp_harness.Workflow.Evidence.{
  Outside, capture_implementation_evidence, assert_review_passed, assert_no_open_decisions,
}

-- `phase` entered with the decisions settled.
abbrev settled : Phase → Workflow → Workflow
settled phase workflow = record workflow { decisions_settled = true; phase = phase }

-- Leaving `grilling` or `spec`: the phase is the first for several sessions, the second for one.
after_planning : Phase → Phase → SessionSpan → Workflow → Result Workflow
after_planning several one multi workflow = ok (settled several workflow)
after_planning several one single workflow = ok (settled one workflow)
after_planning several one SessionSpan.unknown workflow = err workflow_session_span_required

-- `workflow.phase = workflow.return_phase || "GRILLING"`
abbrev back : Workflow → Workflow
back workflow = record workflow { phase = or_grilling workflow.return_phase; return_phase = none }

-- `workflow.return_phase = previousPhase`, and another phase.
abbrev away : Phase → Workflow → Workflow
away phase workflow = record workflow { return_phase = some workflow.phase; phase = phase }

enter_review : Option ImplementationEvidence → Workflow → Workflow
enter_review evidence workflow = record workflow {
  implementation_evidence = evidence;
  review_evidence = none;
  phase = review;
}

pass_review : Option ImplementationEvidence → Workflow → Result Workflow
pass_review none workflow = ok (record workflow { phase = done })
pass_review (some evidence) workflow = do
  assert_review_passed evidence workflow
  ok (record workflow { phase = done })

module _ (outside : Outside) (configured : Bool) (now : ℕ) where
  finish_implementation : List String → Workflow → Result Workflow
  unfolding enter_review
  finish_implementation [] workflow = ok (enter_review workflow.implementation_evidence workflow)
  finish_implementation (_ ∷ _) workflow = do
    evidence ← capture_implementation_evidence outside now workflow
    ok (enter_review (some evidence) workflow)

  -- The `switch` of `advance`, at the event and the previous phase; the last clause is
  -- `#invalidTransition`.
  unfoldable pub transition : Event → Phase → Workflow → Result Workflow
  unfolding after_planning finish_implementation pass_review
  transition setup_complete setup w =
      if configured
      then ok (record w {
        setup_configured = true;
        phase = or_grilling w.after_setup_phase;
        after_setup_phase = none;
      })
      else err workflow_setup_incomplete
  transition prototype_needed grilling w = ok (away prototype w)
  transition prototype_needed wayfinding w = ok (away prototype w)
  transition prototype_complete prototype w = ok (back w)
  transition grilling_complete grilling w = do
    assert_no_open_decisions w
    after_planning spec implement w.session_span w
  transition map_clear wayfinding w = do
    assert_no_open_decisions w
    ok (record w { decisions_settled = true; route_clarity = clear; phase = spec })
  transition spec_complete spec w = do
    assert_no_open_decisions w
    after_planning tickets implement w.session_span w
  transition tickets_complete tickets w = ok (record w { phase = implement })
  transition implementation_complete implement w = finish_implementation w.implementation_task_ids w
  transition review_passed review w = pass_review w.implementation_evidence w
  transition review_changes_requested review w =
      ok (record w { implementation_evidence = none; review_evidence = none; phase = implement })
  transition Event.blocked done w = err invalid_workflow_transition
  transition Event.blocked Phase.blocked w = err invalid_workflow_transition
  transition Event.blocked _ w = ok (away Phase.blocked w)
  transition resume Phase.blocked w = ok (back w)
  transition _ _ w = err invalid_workflow_transition

-- `workflow.history.push(…)`, cut to the last 200 entries.
abbrev pub push_history : HistoryEntry → List HistoryEntry → List HistoryEntry
push_history entry history =
    let longer = history ++ entry ∷ [] in
    if ltb 200 (length longer) then take_last 200 longer else longer

abbrev pub history_entry : ℕ → Mark → Phase → Phase → Option String → HistoryEntry
history_entry now mark from phase note = record {
  at = now;
  mark = mark;
  from_phase = some from;
  phase = phase;
  note = note;
}

-- The arguments of `advance` that may be left out.
pub record AdvanceInput : Type 0 where
  pub session_span : Option String
  pub route_clarity : Option String
  pub open_decisions : Option (List String)
  pub note : Option String

unfoldable pub set_span : Option String → Workflow → Result Workflow
set_span none w = ok w
set_span (some s) w = do span ← session_span_of s; ok (record w { session_span = span })

unfoldable pub set_clarity : Option String → Workflow → Result Workflow
set_clarity none w = ok w
set_clarity (some s) w = do clarity ← route_clarity_of s; ok (record w { route_clarity = clarity })

unfoldable pub set_decisions : Option (List String) → Workflow → Workflow
set_decisions none w = w
set_decisions (some decisions) w = record w { open_decisions = decisions }

-- `note ? String(note) : null`
abbrev note_of : Option String → Option String
note_of none = none
note_of (some s) = if truthy s then some s else none

module _ (outside : Outside) (configured : Bool) (now : ℕ) (occurred : Event)
    (input : AdvanceInput) where
  unfoldable pub log_event : Phase → Workflow → Workflow
  log_event previous w = record w {
    last_event = event occurred;
    updated_at = now;
    history =
        push_history (history_entry now (event occurred) previous w.phase (note_of input.note))
          w.history;
  }

  -- The mutator of `advance` on a stored workflow.
  unfoldable pub advance_workflow : Workflow → Result Workflow
  advance_workflow workflow = do
    guard (known_phase workflow.phase) invalid_workflow_phase
    spanned ← set_span input.session_span workflow
    cleared ← set_clarity input.route_clarity spanned
    let ready = set_decisions input.open_decisions cleared
    moved ← transition outside configured now occurred ready.phase ready
    ok (log_event ready.phase moved)

-- The result of a mutator that captures nothing.
abbrev pub stored : Result Workflow → Result (Workflow × Unit {0})
stored r = do w ← r; ok (w, tt)

abbrev advance_current :
    Outside → Bool → ℕ → Event → AdvanceInput → Option Workflow → Result Workflow
advance_current outside configured now occurred input none = err workflow_not_found
advance_current outside configured now occurred input (some w) =
    advance_workflow outside configured now occurred input w

advance_by :
    Option Event
    → Outside
    → Bool
    → ℕ
    → AdvanceInput
    → String
    → Db Workflow
    → Db Workflow × Result (Workflow × Unit {0})
advance_by none outside configured now input id db = (db, err invalid_workflow_event)
advance_by (some occurred) outside configured now input id db =
    mutate_document "workflow" id
      (λ current. stored (advance_current outside configured now occurred input current)) now db

-- `advance`, up to the `guide` that it returns: `id` is the hash of the repository's real path,
-- `configured` the result of `#setupStatus`.
unfoldable pub advance :
    Outside
    → Bool
    → ℕ
    → String
    → AdvanceInput
    → String
    → Db Workflow
    → Db Workflow × Result (Workflow × Unit {0})
unfolding advance_by
advance outside configured now occurred input id db =
    advance_by (event_of occurred) outside configured now input id db
