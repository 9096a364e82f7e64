-- ===== src/Lifecycle.antt =====
-- The life of one stored Task: every mutation that task-service.js and approval-service.js make of
-- it, in any order, as a relation on Task documents. A mutation that throws stores nothing.
mod Examples
use agentdock_mcp_harness.Base.{
  ℕ, String, Bool, true, false, ◌≡◌, refl, sym, ◌∙◌, ◌⊎◌, inl, inr, Option, none, some, List, [],
  ◌∷◌, arith, Result, ok, or_else, All, if◌then◌else◌,
}
use agentdock_mcp_harness.Task.{
  Task, completed, Outcome, EvidenceKind, EvidenceStatus, EvidenceRecord, Decision, Approval, Grant,
  is_active,
}
use agentdock_mcp_harness.Task.Evidence.{record_evidence, evaluate_completion_evidence}
use agentdock_mcp_harness.Task.Evidence.Satisfied.{Proven, satisfied_iff}
use agentdock_mcp_harness.Task.Starts.{reserve, release, add}
use agentdock_mcp_harness.Task.Finish.{record_commit, finish, cancel, create}
use agentdock_mcp_harness.Task.Cleanup.{record_cleanup}
use agentdock_mcp_harness.Task.Preserves
use agentdock_mcp_harness.Task.Preserves.{IsSound}
use agentdock_mcp_harness.Policy.{PolicyDecision}
use agentdock_mcp_harness.Approval.{authorize_task, Authorization}
use agentdock_mcp_harness.Approval.Respond.{respond_task}
use agentdock_mcp_harness.Approval.Backing.{
  IsBacked, authorize_task-IsBacked, respond_task-IsBacked,
}

-- One mutation that returned.
pub data Call (t u : Task) : Type 0 where
  reserved :
      (process_id : String) (now : ℕ) (owner : Option String)
      → reserve process_id now owner t ≡ ok (u, tt)
      → Call t u
  released : (process_id : String) (now : ℕ) → release process_id now t ≡ ok (u, tt) → Call t u
  added :
      (process_id : String) (now : ℕ) (from_reservation : Bool)
      → add process_id now from_reservation t ≡ ok (u, tt)
      → Call t u
  committed : (sha : String) (now : ℕ) → record_commit sha now t ≡ ok (u, tt) → Call t u
  recorded :
      (upper : String → String) (kind : String) (status : EvidenceStatus) (summary : String)
      (subject run_id : Option String) (evidence_id : String) (now : ℕ) (r : EvidenceRecord)
      → record_evidence upper kind status summary subject run_id evidence_id now t ≡ ok (u, r)
      → Call t u
  finished :
      (sha reason ref : Option String) (outcome : Option Outcome) (now : ℕ)
      → finish sha reason ref outcome now t ≡ ok (u, tt)
      → Call t u
  cancelled : (now : ℕ) → cancel now t ≡ ok (u, tt) → Call t u
  cleaned : (ref : Option String) (now : ℕ) → record_cleanup ref now t ≡ ok (u, tt) → Call t u
  authorized :
      (task_id tool fingerprint : String) (policy : PolicyDecision) (new_id : String) (now : ℕ)
      (a : Authorization)
      → authorize_task task_id tool fingerprint policy new_id now t ≡ ok (u, a)
      → Call t u
  responded :
      (task_id approval_id grant_id : String) (now : ℕ) (decision : Decision)
      (a : Approval × Option Grant)
      → respond_task task_id approval_id grant_id now decision t ≡ ok (u, a)
      → Call t u

-- Any number of mutations.
pub data Reach (t : Task) : Task → Type 0 where
  here : Reach t t
  next : {u v : Task} → Reach t u → Call u v → Reach t v

module _ (t u : Task) where
  authorize_task-IsSound :
      (task_id tool fingerprint : String) (policy : PolicyDecision) (new_id : String) (now : ℕ)
      (a : Authorization)
      → authorize_task task_id tool fingerprint policy new_id now t ≡ ok (u, a)
      → IsSound t
      → IsSound u
  unfolding authorize_task evaluate_completion_evidence
  authorize_task-IsSound task_id tool fingerprint policy new_id now a h s = ground arith

  respond_task-IsSound :
      (task_id approval_id grant_id : String) (now : ℕ) (decision : Decision)
      (a : Approval × Option Grant)
      → respond_task task_id approval_id grant_id now decision t ≡ ok (u, a)
      → IsSound t
      → IsSound u
  unfolding respond_task evaluate_completion_evidence
  respond_task-IsSound task_id approval_id grant_id now decision a h s = ground arith

  pub Call-IsSound : Call t u → IsSound t → IsSound u
  Call-IsSound (reserved process_id now owner h) s =
      Preserves.reserve-IsSound t u process_id now owner h s
  Call-IsSound (released process_id now h) s = Preserves.release-IsSound t u process_id now h s
  Call-IsSound (added process_id now from_reservation h) s =
      Preserves.add-IsSound t u process_id now from_reservation h s
  Call-IsSound (committed sha now h) s = Preserves.record_commit-IsSound t u sha now h s
  Call-IsSound (recorded upper kind status summary subject run_id evidence_id now r h) s =
      Preserves.record_evidence-IsSound t u upper kind status summary subject run_id evidence_id now
        r h s
  Call-IsSound (finished sha reason ref outcome now h) s =
      Preserves.finish-IsSound t u sha reason ref outcome now h s
  Call-IsSound (cancelled now h) s = Preserves.cancel-IsSound t u now h s
  Call-IsSound (cleaned ref now h) s = Preserves.record_cleanup-IsSound t u ref now h s
  Call-IsSound (authorized task_id tool fingerprint policy new_id now a h) s =
      authorize_task-IsSound task_id tool fingerprint policy new_id now a h s
  Call-IsSound (responded task_id approval_id grant_id now decision a h) s =
      respond_task-IsSound task_id approval_id grant_id now decision a h s

  -- The approvals are the same, and so are the grants, or no grant is left.
  IsBacked-of :
      u.approvals ≡ t.approvals
      → (u.approval_grants ≡ t.approval_grants) ⊎ (u.approval_grants ≡ [])
      → IsBacked t
      → IsBacked u
  IsBacked-of p (inl g) b = record { grants = rw (g, p) b.grants }
  IsBacked-of p (inr g) b = record { grants = rw g tt }

  pub Call-IsBacked : Call t u → IsBacked t → IsBacked u
  unfolding reserve release add record_commit record_evidence finish cancel record_cleanup
  Call-IsBacked (reserved process_id now owner h) b = IsBacked-of (ground arith) (ground arith) b
  Call-IsBacked (released process_id now h) b = IsBacked-of (ground arith) (ground arith) b
  Call-IsBacked (added process_id now from_reservation h) b =
      IsBacked-of (ground arith) (ground arith) b
  Call-IsBacked (committed sha now h) b = IsBacked-of (ground arith) (ground arith) b
  Call-IsBacked (recorded upper kind status summary subject run_id evidence_id now r h) b =
      IsBacked-of (ground arith) (ground arith) b
  Call-IsBacked (finished sha reason ref outcome now h) b =
      IsBacked-of (ground arith) (ground arith) b
  Call-IsBacked (cancelled now h) b = IsBacked-of (ground arith) (ground arith) b
  Call-IsBacked (cleaned ref now h) b = IsBacked-of (ground arith) (ground arith) b
  Call-IsBacked (authorized task_id tool fingerprint policy new_id now a h) b =
      authorize_task-IsBacked task_id tool fingerprint policy new_id now t u a h b
  Call-IsBacked (responded task_id approval_id grant_id now decision a h) b =
      respond_task-IsBacked task_id approval_id grant_id now decision t u a h b

  -- What is fixed once a Task is finalized.
  pub record SameResult : Type 0 where
    pub status : u.status ≡ t.status
    pub final_commit_sha : u.final_commit_sha ≡ t.final_commit_sha
    pub outcome : u.outcome ≡ t.outcome
    pub retention_ref : u.retention_ref ≡ t.retention_ref
    pub verification_status : u.verification_status ≡ t.verification_status
    pub completion_evidence : u.completion_evidence ≡ t.completion_evidence
    pub process_ids : u.process_ids ≡ t.process_ids
    pub approvals : u.approvals ≡ t.approvals

  Call-SameResult : Call t u → is_active t.status ≡ false → SameResult
  unfolding reserve release add record_commit record_evidence finish cancel record_cleanup
      authorize_task respond_task
  Call-SameResult (reserved process_id now owner h) f = ground arith
  Call-SameResult (released process_id now h) f = ground arith
  Call-SameResult (added process_id now from_reservation h) f = ground arith
  Call-SameResult (committed sha now h) f = ground arith
  Call-SameResult (recorded upper kind status summary subject run_id evidence_id now r h) f =
      ground arith
  Call-SameResult (finished sha reason ref outcome now h) f = ground arith
  Call-SameResult (cancelled now h) f = ground arith
  Call-SameResult (cleaned ref now h) f = ground arith
  Call-SameResult (authorized task_id tool fingerprint policy new_id now a h) f = ground arith
  Call-SameResult (responded task_id approval_id grant_id now decision a h) f = ground arith

  Call-contract : Call t u → u.completion_contract ≡ t.completion_contract
  unfolding reserve release add record_commit record_evidence finish cancel record_cleanup
      authorize_task respond_task
  Call-contract (reserved process_id now owner h) = ground arith
  Call-contract (released process_id now h) = ground arith
  Call-contract (added process_id now from_reservation h) = ground arith
  Call-contract (committed sha now h) = ground arith
  Call-contract (recorded upper kind status summary subject run_id evidence_id now r h) =
      ground arith
  Call-contract (finished sha reason ref outcome now h) = ground arith
  Call-contract (cancelled now h) = ground arith
  Call-contract (cleaned ref now h) = ground arith
  Call-contract (authorized task_id tool fingerprint policy new_id now a h) = ground arith
  Call-contract (responded task_id approval_id grant_id now decision a h) = ground arith

Reach-contract : {t u : Task} → Reach t u → u.completion_contract ≡ t.completion_contract
Reach-contract here = refl
Reach-contract (next {u} {v} r c) = Call-contract u v c ∙ Reach-contract r

-- After any calls on a Task that `create` has made, its Runs are distinct and so are its Run starts; if it is not
-- ACTIVE it has no start under way and no grant; its result is accounted for; and every grant that
-- it holds goes back to one of its approved requests, of the same kind, scope and operation.
pub Reach-IsSound :
    (task_id source_repo base_head worktree_path : String) (contract : Option (List EvidenceKind))
    (now : ℕ) {u : Task}
    → Reach (create task_id source_repo base_head worktree_path contract now) u
    → IsSound u × IsBacked u
unfolding create
Reach-IsSound task_id source_repo base_head worktree_path contract now here =
    (ground arith, record { grants = tt })
Reach-IsSound task_id source_repo base_head worktree_path contract now (next {u} {v} r c) =
    let (s, b) = Reach-IsSound task_id source_repo base_head worktree_path contract now r in
    (Call-IsSound u v c s, Call-IsBacked u v c b)

-- Once a Task is COMPLETED or CANCELLED no call changes its status, its result, its evidence, its
-- Runs or its approval requests.
pub finalized_is_final : {t u : Task} → is_active t.status ≡ false → Reach t u → SameResult t u
finalized_is_final f here = ground arith
finalized_is_final {t} f (next {u} {v} r c) =
    let s = finalized_is_final f r in
    let later = Call-SameResult u v c (rw s.status f) in ground arith

-- A Task that has become COMPLETED, whatever calls led there and followed, holds for each kind that
-- the contract of its creation requires a last record of that kind, with status PASS and recorded
-- for the final commit of the Task.
pub completed-Proven :
    (task_id source_repo base_head worktree_path : String) (contract : Option (List EvidenceKind))
    (now : ℕ) {u : Task}
    → Reach (create task_id source_repo base_head worktree_path contract now) u
    → u.status ≡ completed
    → All (Proven u.completion_evidence u.final_commit_sha) (or_else contract [])
completed-Proven task_id source_repo base_head worktree_path contract now {u} r done =
    let (s, _) = Reach-IsSound task_id source_repo base_head worktree_path contract now r in
    let kept : u.completion_contract ≡ contract = unfold create in Reach-contract r in
    rw kept at ((satisfied_iff u u.final_commit_sha).0 (s.accounted.proven done))
