-- ===== src/Workflow/Captures.antt =====
-- workflow-service.js: what a captured implementation says of the linked Tasks.
use agentdock_mcp_harness.Base.{
  ℕ, String, true, false, none, some, ◌≡◌, refl, sym, Option, List, [], ◌∷◌, arith, ok, map, unique,
  same, same_iff, is_some, >>=-eq-ok, guard, ok-injective, All, leb, length, ap, subst,
  workflow_implementation_evidence_required,
}
use mathlib.Core.List.{Permᴰ}
use agentdock_mcp_harness.Task.{Task, completed, verified, Outcome}
use agentdock_mcp_harness.Workflow.{EvidenceUnit, ImplementationEvidence, Workflow}
use agentdock_mcp_harness.Workflow.Evidence.{
  Outside, unit_of, units_of, capture_implementation_evidence, outcome_unit,
}

-- The Task is a finished implementation in the repository, and the unit records its outcome.
pub record Backs (outside : Outside) (repo_path : String) (unit : EvidenceUnit) : Type 0 where
  pub task : Task
  pub found : outside.get_task unit.task_id ≡ ok task
  pub repository : task.source_repo ≡ repo_path
  pub finished : task.status ≡ completed
  pub checked : is_some task.completion_contract ≡ true → task.verification_status ≡ verified
  pub commit :
      unit.committed ≡ true
      → (task.outcome ≡ some Outcome.commit)
        × (unit.final_commit_sha ≡ task.final_commit_sha)
        × (unit.retention_ref ≡ task.retention_ref)
  pub unchanged :
      unit.committed ≡ false
      → (task.outcome ≡ some Outcome.no_change)
        × (unit.final_commit_sha ≡ none)
        × (is_some unit.outcome_reason ≡ true)
  pub verification : unit.verification_status ≡ task.verification_status

module _ (outside : Outside) (repo_path : String) where
  -- What the unit says of the outcome.
  SaysOutcome : Option Outcome → Task → EvidenceUnit → Type 0
  SaysOutcome outcome task unit =
      (unit.committed ≡ true
        → (outcome ≡ some Outcome.commit)
          × (unit.final_commit_sha ≡ task.final_commit_sha)
          × (unit.retention_ref ≡ task.retention_ref))
      × (unit.committed ≡ false
          → (outcome ≡ some Outcome.no_change)
            × (unit.final_commit_sha ≡ none)
            × (is_some unit.outcome_reason ≡ true))

  outcome_unit-SaysOutcome :
      (o : Option Outcome) (task_id : String) (task : Task) (unit : EvidenceUnit)
      → outcome_unit o task_id task ≡ ok unit
      → (unit.task_id ≡ task_id)
        × (unit.verification_status ≡ task.verification_status)
        × SaysOutcome o task unit
  unfolding outcome_unit SaysOutcome
  outcome_unit-SaysOutcome o task_id task unit h = ground arith

  checks :
      (task_id : String) (task : Task) (unit : EvidenceUnit)
      → unit_of repo_path task_id task ≡ ok unit
      → (same task.source_repo repo_path ≡ true)
        × (task.status ≡ completed)
        × (is_some task.completion_contract ≡ true → task.verification_status ≡ verified)
        × (outcome_unit task.outcome task_id task ≡ ok unit)
  unfolding unit_of
  checks task_id task unit h = ground arith

  unit_of-Backs :
      (task_id : String) (task : Task) (unit : EvidenceUnit)
      → outside.get_task task_id ≡ ok task
      → unit_of repo_path task_id task ≡ ok unit
      → Backs outside repo_path unit × (unit.task_id ≡ task_id)
  unfolding SaysOutcome
  unit_of-Backs task_id task unit g h =
      let (r, f, c, o) = checks task_id task unit h in
      let (name, status, says) = outcome_unit-SaysOutcome task.outcome task_id task unit o in
      (
        record {
          task = task;
          found = rw name g;
          repository = (same_iff task.source_repo repo_path).0 r;
          finished = f;
          checked = c;
          commit = says.0;
          unchanged = says.1;
          verification = status;
        },
        name,
      )

  units_of-Backs :
      (task_ids : List String) (units : List EvidenceUnit)
      → units_of outside repo_path task_ids ≡ ok units
      → All (Backs outside repo_path) units × (map (λ unit. unit.task_id) units ≡ task_ids)
  unfolding units_of
  units_of-Backs [] units h = ground arith
  units_of-Backs (task_id ∷ rest) units h =
      let (task, g, h1) = >>=-eq-ok (outside.get_task task_id) _ h in
      let (unit, u, h2) = >>=-eq-ok (unit_of repo_path task_id task) _ h1 in
      let (later, us, h3) = >>=-eq-ok (units_of outside repo_path rest) _ h2 in
      let (backs, names) = unit_of-Backs task_id task unit g u in
      let (all_back, all_names) = units_of-Backs rest later us in
      subst
        (λ (us : List EvidenceUnit).
          All (Backs outside repo_path) us × (map (λ unit. unit.task_id) us ≡ task_id ∷ rest))
        (ok-injective h3) ((backs, all_back), rw (names, all_names) refl)

All-Permᴰ :
    (P : EvidenceUnit → Type 0) {xs ys : List EvidenceUnit} → Permᴰ xs ys → All P ys → All P xs
All-Permᴰ P Permᴰ.nil h = tt
All-Permᴰ P (Permᴰ.cons same_unit rest) h = (subst P (sym same_unit) h.0, All-Permᴰ P rest h.1)
All-Permᴰ P (Permᴰ.swap first second) h =
    (subst P (sym first) h.1.0, (subst P (sym second) h.0, h.1.1))
All-Permᴰ P (Permᴰ.trans one two) h = All-Permᴰ P one (All-Permᴰ P two h)

Permᴰ-map_ids :
    {xs ys : List EvidenceUnit}
    → Permᴰ xs ys
    → Permᴰ
        (map (λ (unit : EvidenceUnit). unit.task_id) xs)
        (map (λ (unit : EvidenceUnit). unit.task_id) ys)
Permᴰ-map_ids Permᴰ.nil = Permᴰ.nil
Permᴰ-map_ids (Permᴰ.cons e rest) =
    Permᴰ.cons (ap (λ (unit : EvidenceUnit). unit.task_id) e) (Permᴰ-map_ids rest)
Permᴰ-map_ids (Permᴰ.swap first second) =
    Permᴰ.swap (ap (λ (unit : EvidenceUnit). unit.task_id) first)
      (ap (λ (unit : EvidenceUnit). unit.task_id) second)
Permᴰ-map_ids (Permᴰ.trans one two) = Permᴰ.trans (Permᴰ-map_ids one) (Permᴰ-map_ids two)

-- Where the sort of the code only reorders, a captured implementation has exactly one unit for each distinct linked
-- Task: the Task is COMPLETED, in the repository of the workflow, and VERIFIED if it has a completion contract, and
-- the unit tells its outcome and its verification status, and its final commit and retention ref for a COMMIT. The
-- fingerprint is taken of just these units.
pub capture_backed :
    (outside : Outside) (sorts : (us : List EvidenceUnit) → Permᴰ (outside.sort_units us) us)
    (now : ℕ) (w : Workflow) (evidence : ImplementationEvidence)
    → capture_implementation_evidence outside now w ≡ ok evidence
    → All (Backs outside w.repo_path) evidence.units
      × Permᴰ (map (λ unit. unit.task_id) evidence.units) (unique w.implementation_task_ids)
      × (evidence.fingerprint ≡ outside.fingerprint evidence.units)
unfolding capture_implementation_evidence
capture_backed outside sorts now w evidence h =
    let task_ids = unique w.implementation_task_ids in
    let (_, _, h1) =
      >>=-eq-ok (guard (leb 1 (length task_ids)) workflow_implementation_evidence_required) _ h in
    let (units, us, h2) = >>=-eq-ok (units_of outside w.repo_path task_ids) _ h1 in
    let (backs, names) = units_of-Backs outside w.repo_path task_ids units us in
    subst
      (λ (e : ImplementationEvidence).
        All (Backs outside w.repo_path) e.units
        × Permᴰ (map (λ unit. unit.task_id) e.units) task_ids
        × (e.fingerprint ≡ outside.fingerprint e.units))
      (ok-injective h2)
      (
        All-Permᴰ (Backs outside w.repo_path) (sorts units) backs,
        subst (Permᴰ (map (λ unit. unit.task_id) (outside.sort_units units))) names
            (Permᴰ-map_ids (sorts units)),
        refl,
      )
