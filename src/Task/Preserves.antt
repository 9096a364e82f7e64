-- ===== src/Task/Preserves.antt =====
-- task-service.js: the calls that change a stored Task, and the predicates of Task/Invariant.
use agentdock_mcp_harness.Base.{ℕ, String, Bool, ◌≡◌, Option, some, arith, ok, same_option_iff}
use agentdock_mcp_harness.Task.{Task, Outcome, commit, EvidenceStatus, EvidenceRecord}
use agentdock_mcp_harness.Task.Evidence.{evaluate_completion_evidence, record_evidence}
use agentdock_mcp_harness.Task.Starts.{new_reservation, reserve, release, add}
use agentdock_mcp_harness.Task.Finish.{record_commit, finish, cancel}
use agentdock_mcp_harness.Task.Cleanup.{record_cleanup}
use agentdock_mcp_harness.Task.Invariant.{
  HasDistinctProcesses, IsQuiet, IsAccounted, Distinct-append_one, Distinct-reserved,
  Distinct-without_start,
}

-- The three parts together.
pub record IsSound (task : Task) : Type 0 where
  pub ids : HasDistinctProcesses task
  pub quiet : IsQuiet task
  pub accounted : IsAccounted task

module _ (t u : Task) where
  pub reserve-IsSound :
      (process_id : String) (now : ℕ) (owner : Option String)
      → reserve process_id now owner t ≡ ok (u, tt)
      → IsSound t
      → IsSound u
  unfolding reserve evaluate_completion_evidence
  reserve-IsSound process_id now owner h s = record {
    ids = record {
      processes = ground (arith, s.ids.processes);
      starts = ground (
        arith,
        Distinct-reserved t.pending_process_starts (new_reservation process_id now owner)
            s.ids.starts,
      );
    };
    quiet = ground (arith, s.quiet);
    accounted = ground (arith, s.accounted);
  }

  pub release-IsSound :
      (process_id : String) (now : ℕ)
      → release process_id now t ≡ ok (u, tt)
      → IsSound t
      → IsSound u
  unfolding release evaluate_completion_evidence
  release-IsSound process_id now h s =
      ground (arith, Distinct-without_start process_id t.pending_process_starts s.ids.starts)

  pub add-IsSound :
      (process_id : String) (now : ℕ) (reserved : Bool)
      → add process_id now reserved t ≡ ok (u, tt)
      → IsSound t
      → IsSound u
  unfolding add evaluate_completion_evidence
  add-IsSound process_id now reserved h s = ground (
    arith,
    Distinct-without_start process_id t.pending_process_starts s.ids.starts,
    Distinct-append_one t.process_ids process_id s.ids.processes,
  )

  pub record_commit-IsSound :
      (sha : String) (now : ℕ) → record_commit sha now t ≡ ok (u, tt) → IsSound t → IsSound u
  unfolding record_commit evaluate_completion_evidence
  record_commit-IsSound sha now h s = ground arith

  pub cancel-IsSound : (now : ℕ) → cancel now t ≡ ok (u, tt) → IsSound t → IsSound u
  unfolding cancel evaluate_completion_evidence
  cancel-IsSound now h s = ground arith

  pub record_cleanup-IsSound :
      (ref : Option String) (now : ℕ)
      → record_cleanup ref now t ≡ ok (u, tt)
      → IsSound t
      → IsSound u
  unfolding record_cleanup evaluate_completion_evidence
  record_cleanup-IsSound ref now h s = ground arith

  pub finish-IsSound :
      (sha reason ref : Option String) (outcome : Option Outcome) (now : ℕ)
      → finish sha reason ref outcome now t ≡ ok (u, tt)
      → IsSound t
      → IsSound u
  unfolding finish evaluate_completion_evidence
  finish-IsSound sha reason ref (some commit) now h s =
      ground (arith, same_option_iff sha (some t.base_head))
  finish-IsSound sha reason ref outcome now h s =
      ground (arith, same_option_iff sha (some t.base_head))

  pub record_evidence-IsSound :
      (upper : String → String) (kind : String) (status : EvidenceStatus) (summary : String)
      (subject run_id : Option String) (evidence_id : String) (now : ℕ) (r : EvidenceRecord)
      → record_evidence upper kind status summary subject run_id evidence_id now t ≡ ok (u, r)
      → IsSound t
      → IsSound u
  unfolding record_evidence evaluate_completion_evidence
  record_evidence-IsSound upper kind status summary subject run_id evidence_id now r h s =
      ground arith
