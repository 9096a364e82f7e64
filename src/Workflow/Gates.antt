-- ===== src/Workflow/Gates.antt =====
-- workflow-service.js: the events at which a workflow crosses a phase boundary.
use agentdock_mcp_harness.Base.{
  ℕ, String, Bool, true, false, ◌≡◌, refl, ◌⊎◌, inl, inr, Option, none, some, List, [], ◌∷◌, map,
  keep, truthy, trim, arith, ok, All, Bool-cases, Option-cases, length, ◌≤◌,
}
use agentdock_mcp_harness.Workflow.{
  Phase, setup, grilling, wayfinding, prototype, spec, tickets, implement, review, done, unknown,
  Event, setup_complete, grilling_complete, prototype_needed, prototype_complete, map_clear,
  spec_complete, review_passed, resume, Workflow, ImplementationEvidence, ReviewEvidence,
  known_phase, or_grilling,
}
use agentdock_mcp_harness.Workflow.Evidence.{
  Outside, assert_review_passed, assert_no_open_decisions,
}
use agentdock_mcp_harness.Workflow.Advance.{transition}

-- A phase that a workflow can come back to.
abbrev pub resumable : Phase → Bool
resumable done = false
resumable Phase.blocked = false
resumable (unknown _) = false
resumable _ = true

abbrev pub resumable_option : Option Phase → Bool
resumable_option none = true
resumable_option (some phase) = resumable phase

-- What holds of a stored workflow between two calls.
pub record IsWell (w : Workflow) : Type 0 where
  pub known : known_phase w.phase ≡ true
  pub returns : resumable_option w.return_phase ≡ true
  pub continues : resumable_option w.after_setup_phase ≡ true
  pub bounded : length w.history ≤ 200

-- The phases that are left by coming back to an earlier one.
abbrev detour : Phase → Bool
detour setup = true
detour prototype = true
detour Phase.blocked = true
detour _ = false

-- The events that end a planning phase.
pub data EndsPlanning : Event → Type 0 where
  grilling_ends : EndsPlanning grilling_complete
  map_ends : EndsPlanning map_clear
  spec_ends : EndsPlanning spec_complete

-- The review is of the captured implementation, and both axes passed with no blocking finding.
pub record Approves (evidence : ImplementationEvidence) (r : ReviewEvidence) : Type 0 where
  pub target : r.target_fingerprint ≡ evidence.fingerprint
  pub standards : (r.standards.passed ≡ true) × (r.standards.blocking_findings ≡ 0)
  pub spec : (r.spec.passed ≡ true) × (r.spec.blocking_findings ≡ 0)

pub assert_review_passed-Approves :
    (evidence : ImplementationEvidence) (w : Workflow)
    → assert_review_passed evidence w ≡ ok tt
    → (r : ReviewEvidence) × (w.review_evidence ≡ some r) × Approves evidence r
unfolding assert_review_passed
assert_review_passed-Approves evidence w h = elim (Option-cases w.review_evidence) [
  | inl gone ↦ absurd (ground arith)
  | inr (r, e) ↦ (r, e, ground arith)
]

-- No decision of the list is more than white space.
abbrev pub NoneOpen : List String → Type 0
NoneOpen = All (λ decision. truthy (trim decision) ≡ false)

keep-NoneOpen : (xs : List String) → keep truthy (map trim xs) ≡ [] → NoneOpen xs
keep-NoneOpen [] h = tt
keep-NoneOpen (x ∷ xs) h = elim (Bool-cases (truthy (trim x))) [
  | inl open_one ↦ absurd (ground arith)
  | inr blank ↦ (blank, keep-NoneOpen xs (ground arith))
]

pub assert_no_open_decisions-NoneOpen :
    (w : Workflow) → assert_no_open_decisions w ≡ ok tt → NoneOpen w.open_decisions
unfolding assert_no_open_decisions
assert_no_open_decisions-NoneOpen w h = keep-NoneOpen w.open_decisions (ground arith)

module _ (outside : Outside) (configured : Bool) (now : ℕ) (w v : Workflow) where
  pub transition_planning :
      (e : Event) (phase : Phase)
      → EndsPlanning e
      → transition outside configured now e phase w ≡ ok v
      → (assert_no_open_decisions w ≡ ok tt)
        × (v.open_decisions ≡ w.open_decisions)
        × (v.decisions_settled ≡ true)
        × ((v.phase ≡ spec) ⊎ (v.phase ≡ tickets) ⊎ (v.phase ≡ implement))
  unfolding transition
  transition_planning e grilling grilling_ends h = ground arith
  transition_planning e phase grilling_ends h = cc
  transition_planning e wayfinding map_ends h = ground arith
  transition_planning e phase map_ends h = cc
  transition_planning e spec spec_ends h = ground arith
  transition_planning e phase spec_ends h = cc

  -- Only `review_passed` enters DONE, unless the workflow goes back to a phase that it stored.
  pub transition_done :
      (e : Event) (phase : Phase)
      → resumable_option w.return_phase ≡ true
      → resumable_option w.after_setup_phase ≡ true
      → transition outside configured now e phase w ≡ ok v
      → v.phase ≡ done
      → (e ≡ review_passed) × (phase ≡ review)
  unfolding transition
  transition_done review_passed review a b h d = (refl, refl)
  transition_done setup_complete setup a b h d = absurd (ground arith)
  transition_done e phase a b h d = absurd (ground arith)

  pub transition_review :
      (evidence : ImplementationEvidence)
      → transition outside configured now review_passed review w ≡ ok v
      → w.implementation_evidence ≡ some evidence
      → (v.implementation_evidence ≡ w.implementation_evidence)
        × (v.review_evidence ≡ w.review_evidence)
        × (assert_review_passed evidence w ≡ ok tt)
  unfolding transition
  transition_review evidence h e = ground arith

  pub transition-IsWell :
      (e : Event) (phase : Phase)
      → resumable_option w.return_phase ≡ true
      → resumable_option w.after_setup_phase ≡ true
      → w.phase ≡ phase
      → known_phase phase ≡ true
      → transition outside configured now e phase w ≡ ok v
      → (known_phase v.phase ≡ true)
        × (resumable_option v.return_phase ≡ true)
        × (resumable_option v.after_setup_phase ≡ true)
  unfolding transition
  transition-IsWell setup_complete setup a b p k h = ground arith
  transition-IsWell e phase a b p k h = ground arith

  -- No event leaves DONE.
  pub transition_from_done : (e : Event) → transition outside configured now e done w ≡ ok v → ⊥
  unfolding transition
  transition_from_done e h = ground arith

  pub transition_block :
      transition outside configured now Event.blocked w.phase w ≡ ok v
      → (v.phase ≡ Phase.blocked) × (v.return_phase ≡ some w.phase)
  unfolding transition
  transition_block h = ground arith

  pub transition-resume :
      transition outside configured now resume Phase.blocked w ≡ ok v
      → (v.phase ≡ or_grilling w.return_phase) × (v.return_phase ≡ none)
  unfolding transition
  transition-resume h = ground arith

  pub transition_prototype_needed :
      known_phase w.phase ≡ true
      → transition outside configured now prototype_needed w.phase w ≡ ok v
      → (v.phase ≡ prototype) × (v.return_phase ≡ some w.phase)
  unfolding transition
  transition_prototype_needed k h = ground arith

  pub transition_prototype_complete :
      transition outside configured now prototype_complete prototype w ≡ ok v
      → v.phase ≡ or_grilling w.return_phase
  unfolding transition
  transition_prototype_complete h = ground arith

pub or_grilling_known : (p : Phase) → known_phase p ≡ true → or_grilling (some p) ≡ p
or_grilling_known p k = ground arith
