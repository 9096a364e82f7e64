-- ===== src/Workflow/Start.antt =====
-- workflow-service.js: `start`.
use agentdock_mcp_harness.Base.{
  ℕ, String, Bool, true, false, not, ◌&&◌, Option, none, some, [], ◌∷◌, if◌then◌else◌, is_some,
  trim, truthy, Result, ok, err, ◌>>=◌, ◌>>◌, guard, workflow_session_span_required,
  invalid_workflow_goal, workflow_exists,
}
use agentdock_mcp_harness.Store.{Db, mutate_document}
use agentdock_mcp_harness.Workflow.{
  Phase, setup, grilling, wayfinding, spec, implement, SessionSpan, multi, RouteClarity, foggy,
  Route, main, wayfinder, start, HistoryEntry, Workflow, session_span_of, route_clarity_of,
}
use agentdock_mcp_harness.Workflow.Advance.{stored}

-- `#routeForStart`
unfoldable pub route_for_start : SessionSpan → RouteClarity → Bool → Phase × Route
route_for_start multi clarity true = (spec, main)
route_for_start _ clarity true = (implement, main)
route_for_start multi foggy false = (wayfinding, wayfinder)
route_for_start _ _ false = (grilling, main)

abbrev pub is_unknown : SessionSpan → Bool
is_unknown SessionSpan.unknown = true
is_unknown _ = false

module _ (repo_path goal : String) (settled configured : Bool) (now : ℕ) where
  -- The document that `start` builds.
  unfoldable pub new_workflow : SessionSpan → RouteClarity → Workflow
  unfolding route_for_start
  new_workflow span clarity =
      let (phase, route) = route_for_start span clarity settled in
      let initial = if configured then phase else setup in
      record {
        repo_path = repo_path;
        goal = trim goal;
        phase = initial;
        route = route;
        session_span = span;
        route_clarity = clarity;
        decisions_settled = settled;
        setup_configured = configured;
        after_setup_phase = if configured then none else some phase;
        open_decisions = [];
        return_phase = none;
        last_event = start;
        artifacts = [];
        implementation_task_ids = [];
        implementation_evidence = none;
        review_evidence = none;
        history = first_entry initial ∷ [];
        created_at = now;
        updated_at = now;
      }
    where
      first_entry : Phase → HistoryEntry
      first_entry phase = record {
        at = now;
        mark = start;
        from_phase = none;
        phase = phase;
        note = none;
      }

  -- The checks of `start` before it reaches the store.
  unfoldable pub prepare_start : String → String → Result Workflow
  prepare_start session_span route_clarity = do
    span ← session_span_of session_span
    clarity ← route_clarity_of route_clarity
    guard (not (settled && is_unknown span)) workflow_session_span_required
    guard (truthy (trim goal)) invalid_workflow_goal
    ok (new_workflow span clarity)

-- The mutator of `start`.
abbrev pub place : Bool → Workflow → Option Workflow → Result Workflow
place replace workflow current =
    if is_some current && not replace then err workflow_exists else ok workflow

start_prepared :
    Result Workflow → Bool → String → ℕ → Db Workflow → Db Workflow × Result (Workflow × Unit {0})
start_prepared (err c) replace id now db = (db, err c)
start_prepared (ok workflow) replace id now db =
    mutate_document "workflow" id (λ current. stored (place replace workflow current)) now db

-- `start`, up to the `guide` that it returns: `id` is the hash of the repository's real path,
-- `configured` the result of `#setupConfigured`.
unfoldable pub start_workflow :
    String
    → String
    → String
    → String
    → Bool
    → Bool
    → Bool
    → String
    → ℕ
    → Db Workflow
    → Db Workflow × Result (Workflow × Unit {0})
unfolding start_prepared
start_workflow repo_path goal session_span route_clarity settled replace configured id now db =
    start_prepared (prepare_start repo_path goal settled configured now session_span route_clarity)
      replace id now db
