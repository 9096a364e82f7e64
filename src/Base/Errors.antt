-- ===== src/Base/Errors.antt =====
-- errors.js: `AgentDockError` by its code; a step that may throw returns a `Result`.
use mathlib.Core.Path.{◌≡◌, refl}
use mathlib.Core.Logic.{◌⊎◌, inl, inr}
use mathlib.Core.Bool.{Bool, true, false}

-- The codes that the modelled services throw. `type_error` is a `TypeError`.
pub data Code : Type 0 where
  type_error : Code
  invalid_state_mutation invalid_state_document_key state_store_closed : Code
  transaction_open : Code
  task_not_found invalid_task_id task_not_active task_workspace_cleaned : Code
  task_process_start_pending process_start_reservation_missing : Code
  invalid_process_id invalid_runtime_instance_id : Code
  task_commit_required task_commit_not_retained task_no_change_has_commit : Code
  task_no_change_reason_required task_completion_metadata_invalid : Code
  task_completion_evidence_failed task_completion_evidence_required task_not_finalized : Code
  task_gc_worktree_dirty task_gc_head_mismatch : Code
  invalid_completion_contract invalid_completion_evidence_kind : Code
  workflow_not_found workflow_exists invalid_workflow_phase invalid_workflow_event : Code
  invalid_workflow_session_span invalid_workflow_route_clarity invalid_workflow_goal : Code
  workflow_session_span_required workflow_complete workflow_update_empty : Code
  workflow_task_repo_mismatch workflow_implementation_evidence_required : Code
  workflow_implementation_incomplete workflow_implementation_not_verified : Code
  workflow_implementation_evidence_invalid invalid_workflow_review_evidence : Code
  workflow_review_evidence_required workflow_review_target_mismatch : Code
  workflow_review_blocking_findings workflow_open_decisions : Code
  workflow_setup_incomplete invalid_workflow_transition : Code
  invalid_policy_config policy_denied approval_required approval_not_found : Code
  invalid_approval_decision approval_already_resolved : Code
  invalid_idempotency_key idempotency_key_reused idempotency_operation_not_found : Code
  idempotency_retention_full : Code
  process_not_found process_task_mismatch process_not_owned invalid_process_mode : Code
  invalid_output_page_size invalid_output_page_chunks invalid_output_cursor : Code
  invalid_plan invalid_plan_step invalid_plan_dependency invalid_plan_id plan_not_found : Code
  plan_already_active plan_task_mismatch plan_not_waiting plan_repair_required : Code
  plan_step_mismatch : Code

pub data Result {ℓ} (A : Type ℓ) : Type ℓ where
  ok : A → Result A
  err : Code → Result A

-- `if (!holds) throw new AgentDockError(code)`
abbrev pub guard : Bool → Code → Result (Unit {0})
guard holds code = elim holds [ true ↦ ok tt | false ↦ err code ]

pub guard-eq-ok :
    (holds : Bool) (code : Code) {a : Unit {0}} → guard holds code ≡ ok a → holds ≡ true
guard-eq-ok true code h = refl
guard-eq-ok false code h = cc

module _ {ℓ κ} {A : Type ℓ} {B : Type κ} where
  infixl 5 ◌>>=◌
  abbrev pub ◌>>=◌ : Result A → (A → Result B) → Result B
  r >>= continue = elim r [ ok a ↦ continue a | err code ↦ err code ]

  -- Both steps of a sequence that succeeded did.
  pub >>=-eq-ok :
      (r : Result A) (continue : A → Result B) {b : B}
      → (r >>= continue) ≡ ok b
      → (a : A) × (r ≡ ok a) × (continue a ≡ ok b)
  >>=-eq-ok (err code) continue h = cc
  >>=-eq-ok (ok a) continue h = (a, refl, h)

module _ {ℓ} {A : Type ℓ} where
  infixl 5 ◌>>◌
  abbrev pub ◌>>◌ : Result (Unit {0}) → Result A → Result A
  check >> continue = check >>= λ _. continue

  pub Result-cases : (r : Result A) → ((a : A) × (r ≡ ok a)) ⊎ ((code : Code) × (r ≡ err code))
  Result-cases (ok a) = inl (a, refl)
  Result-cases (err code) = inr (code, refl)

  pub ok-injective : {a b : A} → ok a ≡ ok b → a ≡ b
  ok-injective h = cc
