-- ===== src/Workflow.antt =====
-- workflow-service.js: the guided-development workflow of a repository, its phases and events.
-- Times are milliseconds; a call reads the clock once, as `now`. A field that an old document may
-- lack is read as the code's `??` default.
pub mod Update
pub mod Evidence
pub mod Advance
pub mod Start
pub mod Steps
pub mod Gates
pub mod Reach
pub mod Detours
pub mod Runs
pub mod Captures
mod Examples
use agentdock_mcp_harness.Base.{
  ℕ, String, Bool, true, false, Option, none, some, List, if◌then◌else◌, same, Result, ok, err,
  Code, invalid_workflow_session_span, invalid_workflow_route_clarity, invalid_workflow_phase,
}
use agentdock_mcp_harness.Task.{VerificationStatus}

-- PHASES; `unknown` is any other text in a stored document.
pub data Phase : Type 0 where
  setup grilling wayfinding prototype spec tickets implement review blocked done : Phase
  unknown : String → Phase

-- EVENTS
pub data Event : Type 0 where
  setup_complete grilling_complete prototype_needed prototype_complete map_clear : Event
  spec_complete tickets_complete implementation_complete review_passed : Event
  review_changes_requested blocked resume : Event

pub data SessionSpan : Type 0 where
  single multi unknown : SessionSpan

pub data RouteClarity : Type 0 where
  clear foggy unknown : RouteClarity

pub data Route : Type 0 where
  main wayfinder : Route

-- What a history entry and `last_event` name.
pub data Mark : Type 0 where
  start progress : Mark
  event : Event → Mark

pub record HistoryEntry : Type 0 where
  pub at : ℕ
  pub mark : Mark
  pub from_phase : Option Phase
  pub phase : Phase
  pub note : Option String

-- A unit of the implementation evidence: `committed` is the outcome COMMIT.
pub record EvidenceUnit : Type 0 where
  pub task_id : String
  pub committed : Bool
  pub final_commit_sha : Option String
  pub retention_ref : Option String
  pub outcome_reason : Option String
  pub verification_status : VerificationStatus

pub record ImplementationEvidence : Type 0 where
  pub captured_at : ℕ
  pub fingerprint : String
  pub units : List EvidenceUnit

-- One axis of a review: `passed` is the result PASS.
pub record ReviewAxis : Type 0 where
  pub passed : Bool
  pub blocking_findings : ℕ

pub record ReviewEvidence : Type 0 where
  pub target_fingerprint : String
  pub standards : ReviewAxis
  pub spec : ReviewAxis
  pub note : Option String
  pub recorded_at : ℕ

pub record Workflow : Type 0 where
  pub repo_path : String
  pub goal : String
  pub phase : Phase
  pub route : Route
  pub session_span : SessionSpan
  pub route_clarity : RouteClarity
  pub decisions_settled : Bool
  pub setup_configured : Bool
  pub after_setup_phase : Option Phase
  pub open_decisions : List String
  pub return_phase : Option Phase
  pub last_event : Mark
  pub artifacts : List (String × String)
  pub implementation_task_ids : List String
  pub implementation_evidence : Option ImplementationEvidence
  pub review_evidence : Option ReviewEvidence
  pub history : List HistoryEntry
  pub created_at : ℕ
  pub updated_at : ℕ

-- `validateEnum` on session_span
unfoldable pub session_span_of : String → Result SessionSpan
session_span_of s =
    if same s "single"
    then ok single
    else if same s "multi"
    then ok multi
    else if same s "unknown"
    then ok SessionSpan.unknown
    else err invalid_workflow_session_span

-- `validateEnum` on route_clarity
unfoldable pub route_clarity_of : String → Result RouteClarity
route_clarity_of s =
    if same s "clear"
    then ok clear
    else if same s "foggy"
    then ok foggy
    else if same s "unknown"
    then ok RouteClarity.unknown
    else err invalid_workflow_route_clarity

-- `EVENTS.has(event)`
unfoldable pub event_of : String → Option Event
event_of s =
    if same s "setup_complete"
    then some setup_complete
    else if same s "grilling_complete"
    then some grilling_complete
    else if same s "prototype_needed"
    then some prototype_needed
    else if same s "prototype_complete"
    then some prototype_complete
    else if same s "map_clear"
    then some map_clear
    else if same s "spec_complete"
    then some spec_complete
    else if same s "tickets_complete"
    then some tickets_complete
    else if same s "implementation_complete"
    then some implementation_complete
    else if same s "review_passed"
    then some review_passed
    else if same s "review_changes_requested"
    then some review_changes_requested
    else if same s "blocked"
    then some Event.blocked
    else if same s "resume"
    then some resume
    else none

-- `PHASES.has(workflow.phase)`
abbrev pub known_phase : Phase → Bool
known_phase (unknown _) = false
known_phase _ = true

-- `phase || "GRILLING"`: `null` and the empty text are falsy.
abbrev pub or_grilling : Option Phase → Phase
or_grilling none = grilling
or_grilling (some (unknown String.[])) = grilling
or_grilling (some phase) = phase
