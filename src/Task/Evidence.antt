-- ===== src/Task/Evidence.antt =====
-- completion-evidence.js: the evidence that a Task's completion contract requires.
pub mod Newest
pub mod Satisfied
use agentdock_mcp_harness.Base.{
  ℕ, String, Bool, true, false, Option, none, some, List, [], ◌∷◌, ◌++◌, map, reverse,
  if◌then◌else◌, find, all, trim, same_option, or_else, ◌>>=◌, ◌>>◌, Result, ok, err, Code, same,
  unique, length, leb, invalid_completion_contract, invalid_completion_evidence_kind,
}
use agentdock_mcp_harness.Task.{
  EvidenceKind, targeted_tests, full_suite, static_check, diff_check, migration_check,
  provider_check, review, EvidenceStatus, pass, fail, EvidenceRecord, EvidenceState, missing, stale,
  known, EvidenceResult, Completion, Task, assert_active_record,
}

-- `===` on evidence kinds.
abbrev pub same_kind : EvidenceKind → EvidenceKind → Bool
same_kind targeted_tests targeted_tests = true
same_kind full_suite full_suite = true
same_kind static_check static_check = true
same_kind diff_check diff_check = true
same_kind migration_check migration_check = true
same_kind provider_check provider_check = true
same_kind review review = true
same_kind _ _ = false

-- `[...records].reverse().find((record) => record.kind === kind)`
abbrev pub latest : EvidenceKind → List EvidenceRecord → Option EvidenceRecord
latest kind records = find (λ record'. same_kind record'.kind kind) (reverse records)

-- The state of a required kind at a subject.
abbrev pub evidence_state : Option String → Option EvidenceRecord → EvidenceState
evidence_state subject none = missing
evidence_state subject (some r) =
    if same_option r.subject_sha subject then known r.status else stale

abbrev pub is_pass : EvidenceState → Bool
is_pass (known pass) = true
is_pass _ = false

abbrev pub is_fail : EvidenceState → Bool
is_fail (known fail) = true
is_fail _ = false

-- The entry of a required kind.
abbrev pub evaluate_kind : List EvidenceRecord → Option String → EvidenceKind → EvidenceResult
evaluate_kind records subject kind =
    let newest = latest kind records in
    record { kind = kind; state = evidence_state subject newest; evidence = newest }

-- `evaluateCompletionEvidence`
unfoldable pub evaluate_completion_evidence : Task → Option String → Completion
evaluate_completion_evidence task subject =
    let required = or_else task.completion_contract [] in
    let results = map (evaluate_kind task.completion_evidence subject) required in
    record {
      required = required;
      subject_sha = subject;
      satisfied = all (λ r. is_pass r.state) results;
      results = results;
    }

-- The kind that a normalized text names.
abbrev pub kind_of : String → Option EvidenceKind
kind_of s =
    if same s "TARGETED_TESTS"
    then some targeted_tests
    else if same s "FULL_SUITE"
    then some full_suite
    else if same s "STATIC_CHECK"
    then some static_check
    else if same s "DIFF_CHECK"
    then some diff_check
    else if same s "MIGRATION_CHECK"
    then some migration_check
    else if same s "PROVIDER_CHECK"
    then some provider_check
    else if same s "REVIEW"
    then some review
    else none

abbrev kind_or : Code → String → Result EvidenceKind
kind_or c s = elim (kind_of s) [ none ↦ err c | some kind ↦ ok kind ]

-- `for (const kind of required) if (!ALLOWED_KINDS.has(kind)) throw …`
pub kinds_of : List String → Result (List EvidenceKind)
kinds_of [] = ok []
kinds_of (s ∷ rest) = do
  kind ← kind_or invalid_completion_contract s
  kinds ← kinds_of rest
  ok (kind ∷ kinds)

-- `toUpperCase` is the argument `upper`.
module _ (upper : String → String) where
  normalize_required : List String → Result (Option (List EvidenceKind))
  unfolding kinds_of
  normalize_required required = do
    kinds ← kinds_of (unique (map (λ kind. upper (trim kind)) required))
    if leb 1 (length kinds) then ok (some kinds) else err invalid_completion_contract

  -- `normalizeCompletionContract`; the argument is the contract's `required`.
  unfoldable pub normalize_completion_contract :
      Option (List String) → Result (Option (List EvidenceKind))
  unfolding normalize_required
  normalize_completion_contract none = ok none
  normalize_completion_contract (some required) = normalize_required required

  -- `assertEvidenceKind`
  unfoldable pub assert_evidence_kind : String → Result EvidenceKind
  assert_evidence_kind kind = kind_or invalid_completion_evidence_kind (upper (trim kind))

  -- The record that `recordEvidence` builds from a known kind.
  new_evidence :
      EvidenceStatus
      → String
      → Option String
      → Option String
      → String
      → ℕ
      → EvidenceKind
      → EvidenceRecord
  new_evidence status summary subject run_id evidence_id now kind = record {
    evidence_id = evidence_id;
    kind = kind;
    status = status;
    summary = trim summary;
    subject_sha = subject;
    run_id = run_id;
    recorded_at = now;
  }

  -- The mutator of `recordEvidence`; `evidence_id` is the new random identifier.
  unfoldable pub record_evidence :
      String
      → EvidenceStatus
      → String
      → Option String
      → Option String
      → String
      → ℕ
      → Task
      → Result (Task × EvidenceRecord)
  unfolding assert_evidence_kind new_evidence
  record_evidence kind status summary subject run_id evidence_id now task = do
    assert_active_record task
    known_kind ← assert_evidence_kind kind
    let r = new_evidence status summary subject run_id evidence_id now known_kind
    ok (
      record task { completion_evidence = task.completion_evidence ++ r ∷ []; updated_at = now },
      r,
    )
