-- ===== src/Task/Evidence/Satisfied.antt =====
-- completion-evidence.js: the kinds that a completion contract requires.
use mathlib.Core.Bool.{false≢true}
use agentdock_mcp_harness.Base.{
  same_option_iff, String, true, ◌≡◌, refl, Option, some, List, [], ◌∷◌, map, arith, all, All,
  or_else, ◌↔◌, Bool-cases, Option-cases, inl, inr,
}
use agentdock_mcp_harness.Task.{EvidenceKind, EvidenceRecord, pass, Task}
use agentdock_mcp_harness.Task.Evidence.{
  latest, evaluate_kind, evidence_state, is_pass, evaluate_completion_evidence,
}
use agentdock_mcp_harness.Task.Evidence.Newest.{Newest, latest-Newest, Newest-latest}

-- The newest record of the kind is a PASS for the subject.
pub record Proven (records : List EvidenceRecord) (subject : Option String) (kind : EvidenceKind)
    : Type 0 where
  pub proof : EvidenceRecord
  pub newest : Newest kind records proof
  pub passes : proof.status ≡ pass
  pub on_subject : proof.subject_sha ≡ subject

module _ (records : List EvidenceRecord) (subject : Option String) where
  kind_sound :
      (kind : EvidenceKind)
      → is_pass (evaluate_kind records subject kind).state ≡ true
      → Proven records subject kind
  kind_sound kind h = elim (Option-cases (latest kind records)) [
    | inl gone ↦ absurd (false≢true (rw gone at h))
    | inr (r, found) ↦
        let known_pass : is_pass (evidence_state subject (some r)) ≡ true = rw found at h in
        record {
          proof = r;
          newest = latest-Newest kind records r found;
          passes = ground (arith, same_option_iff r.subject_sha subject);
          on_subject = ground (arith, same_option_iff r.subject_sha subject);
        }
  ]

  kind_complete :
      (kind : EvidenceKind)
      → Proven records subject kind
      → is_pass (evaluate_kind records subject kind).state ≡ true
  kind_complete kind p =
      rw (Newest-latest kind records p.proof p.newest)
        (rw ((same_option_iff _ _).1 p.on_subject, p.passes) refl)

  all_sound :
      (kinds : List EvidenceKind)
      → all (λ r. is_pass r.state) (map (evaluate_kind records subject) kinds) ≡ true
      → All (Proven records subject) kinds
  all_sound [] h = tt
  all_sound (kind ∷ kinds) h =
      elim (Bool-cases (is_pass (evaluate_kind records subject kind).state)) [
        | inl passed ↦ (kind_sound kind passed, all_sound kinds (rw passed at h))
        | inr failed ↦ absurd (false≢true (rw failed at h))
      ]

  all_complete :
      (kinds : List EvidenceKind)
      → All (Proven records subject) kinds
      → all (λ r. is_pass r.state) (map (evaluate_kind records subject) kinds) ≡ true
  all_complete [] h = refl
  all_complete (kind ∷ kinds) h = rw (kind_complete kind h.0, all_complete kinds h.1) refl

-- A contract is satisfied at a subject exactly when, for each required kind, the last record of
-- that kind has status PASS and was recorded for that subject.
pub satisfied_iff :
    (task : Task) (subject : Option String)
    → ((evaluate_completion_evidence task subject).satisfied ≡ true)
      ↔ All (Proven task.completion_evidence subject) (or_else task.completion_contract [])
unfolding evaluate_completion_evidence
satisfied_iff task subject = (
  all_sound task.completion_evidence subject (or_else task.completion_contract []),
  all_complete task.completion_evidence subject (or_else task.completion_contract []),
)
