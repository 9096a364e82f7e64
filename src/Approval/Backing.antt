-- ===== src/Approval/Backing.antt =====
-- approval-service.js: the approved request that a grant goes back to.
use agentdock_mcp_harness.Base.{
  ℕ, String, Bool, true, false, ◌≡◌, Option, some, List, [], ◌∷◌, ◌++◌, ◌&&◌, arith, find, any,
  update_first, remove_first, All, All-append, Bool-cases, Option-cases, inl, inr, ◌⊎◌, ok, same,
}
use agentdock_mcp_harness.Task.{
  Task, Grant, Approval, ApprovalStatus, approved, Decision, allow_once, allow_task,
}
use agentdock_mcp_harness.Policy.{PolicyDecision}
use agentdock_mcp_harness.Approval.{
  authorize_task, covers_once, Authorization, is_open, new_request,
}
use agentdock_mcp_harness.Approval.Respond.{respond_task, has_id, answered, new_grant}

abbrev is_approved : ApprovalStatus → Bool
is_approved approved = true
is_approved _ = false

abbrev decided : Option Decision → Decision → Bool
decided (some allow_once) allow_once = true
decided (some allow_task) allow_task = true
decided _ _ = false

-- The request was approved by a decision of the grant's kind, for its scope and its operation.
abbrev pub backs : Grant → Approval → Bool
backs grant approval =
    is_approved approval.status
    && decided approval.decision grant.kind
    && same approval.approval_id grant.approval_id
    && same approval.approval_scope grant.approval_scope
    && same approval.fingerprint grant.fingerprint

pub record IsBacked (task : Task) : Type 0 where
  pub grants : All (λ grant. any (backs grant) task.approvals ≡ true) task.approval_grants

module _ {ℓ} {A : Type ℓ} (q : A → Bool) where
  any-append : (xs ys : List A) → any q xs ≡ true → any q (xs ++ ys) ≡ true
  any-append [] ys h = cc
  any-append (x ∷ xs) ys h = ground (arith, any-append xs ys)

  any-update_first :
      (p : A → Bool) (f : A → A) (xs : List A) (x : A)
      → find p xs ≡ some x
      → q x ≡ false
      → any q xs ≡ true
      → any q (update_first p f xs) ≡ true
  any-update_first p f [] x h e a = cc
  any-update_first p f (y ∷ xs) x h e a = ground (arith, any-update_first p f xs x)

  find-holds : (xs : List A) (x : A) → find q xs ≡ some x → q x ≡ true
  find-holds [] x h = cc
  find-holds (y ∷ xs) x h = ground (arith, find-holds xs x)

  any-update_first_new :
      (p : A → Bool) (f : A → A) (xs : List A) (x : A)
      → find p xs ≡ some x
      → q (f x) ≡ true
      → any q (update_first p f xs) ≡ true
  any-update_first_new p f [] x h e = cc
  any-update_first_new p f (y ∷ xs) x h e = ground (arith, any-update_first_new p f xs x)

module _ {ℓ} {A : Type ℓ} where
  All-weaken : (P Q : A → Type 0) (xs : List A) → ((x : A) → P x → Q x) → All P xs → All Q xs
  All-weaken P Q [] f h = tt
  All-weaken P Q (x ∷ xs) f h = (f x h.0, All-weaken P Q xs f h.1)

  All-remove_first :
      (P : A → Type 0) (p : A → Bool) (xs : List A) → All P xs → All P (remove_first p xs)
  All-remove_first P p [] h = tt
  All-remove_first P p (x ∷ xs) h = elim (Bool-cases (p x)) [
    | inl hit ↦ rw hit h.1
    | inr miss ↦ rw miss (h.0, All-remove_first P p xs h.1)
  ]

abbrev Backed : List Approval → Grant → Type 0
Backed approvals grant = any (backs grant) approvals ≡ true

module _ (task_id tool fingerprint : String) (policy : PolicyDecision) (new_id : String) (now : ℕ)
    (t u : Task) (a : Authorization) where
  abbrev once_test : Grant → Bool
  once_test = covers_once policy.approval_scope fingerprint

  authorize_task_cases :
      authorize_task task_id tool fingerprint policy new_id now t ≡ ok (u, a)
      → ((u.approval_grants ≡ t.approval_grants) × (u.approvals ≡ t.approvals))
        ⊎ ((u.approval_grants ≡ remove_first once_test t.approval_grants)
            × (u.approvals ≡ t.approvals))
        ⊎ ((u.approval_grants ≡ t.approval_grants)
            × (u.approvals
                ≡ t.approvals ++ new_request task_id tool fingerprint policy new_id now ∷ []))
  unfolding authorize_task
  authorize_task_cases h = ground arith

  pub authorize_task-IsBacked :
      authorize_task task_id tool fingerprint policy new_id now t ≡ ok (u, a)
      → IsBacked t
      → IsBacked u
  authorize_task-IsBacked h b =
      let request = new_request task_id tool fingerprint policy new_id now in
      elim (authorize_task_cases h) [
        | inl (g, p) ↦ record { grants = rw (g, p) b.grants }
        | inr (inl (g, p)) ↦ record {
          grants =
              rw (g, p)
                (All-remove_first (Backed t.approvals) once_test t.approval_grants b.grants);
        }
        | inr (inr (g, p)) ↦ record {
          grants =
              rw (g, p)
                (All-weaken (Backed t.approvals) (Backed (t.approvals ++ request ∷ []))
                  t.approval_grants (λ grant. any-append (backs grant) t.approvals (request ∷ []))
                  b.grants);
        }
      ]

module _ (task_id approval_id grant_id : String) (now : ℕ) (decision : Decision) (t u : Task)
    (a : Approval × Option Grant) where
  abbrev answered_list : List Approval
  answered_list = update_first (has_id approval_id) (answered decision now) t.approvals

  respond_task_cases :
      respond_task task_id approval_id grant_id now decision t ≡ ok (u, a)
      → (request : Approval) → find (has_id approval_id) t.approvals ≡ some request
      → (is_open request.status ≡ true)
        × (u.approvals ≡ answered_list)
        × ((u.approval_grants ≡ t.approval_grants)
            ⊎ ((u.approval_grants
                  ≡ t.approval_grants
                    ++ new_grant task_id approval_id grant_id now decision request ∷ [])
                × (backs
                      (new_grant task_id approval_id grant_id now decision request)
                      (answered decision now request)
                    ≡ true)))
  unfolding respond_task
  respond_task_cases h request found =
      ground (arith, find-holds (has_id approval_id) t.approvals request found)

  open_backs :
      (request : Approval)
      → is_open request.status ≡ true
      → (grant : Grant) → backs grant request ≡ false
  open_backs request h grant = ground arith

  still-Backed :
      (request : Approval)
      → find (has_id approval_id) t.approvals ≡ some request
      → is_open request.status ≡ true
      → (grant : Grant) → Backed t.approvals grant
      → Backed answered_list grant
  still-Backed request found unanswered grant =
      any-update_first (backs grant) (has_id approval_id) (answered decision now) t.approvals
        request found (open_backs request unanswered grant)

  respond_found :
      respond_task task_id approval_id grant_id now decision t ≡ ok (u, a)
      → (request : Approval) × (find (has_id approval_id) t.approvals ≡ some request)
  unfolding respond_task
  respond_found h = elim (Option-cases (find (has_id approval_id) t.approvals)) [
    | inl gone ↦ absurd (ground arith)
    | inr found ↦ found
  ]

  pub respond_task-IsBacked :
      respond_task task_id approval_id grant_id now decision t ≡ ok (u, a) → IsBacked t → IsBacked u
  respond_task-IsBacked h b =
      let (request, found) = respond_found h in
      let (unanswered, p, grants) = respond_task_cases h request found in
      let kept =
        All-weaken (Backed t.approvals) (Backed answered_list) t.approval_grants
          (still-Backed request found unanswered) b.grants in
      elim grants [
        | inl g ↦ record { grants = rw (g, p) kept }
        | inr (g, backed) ↦
            let grant = new_grant task_id approval_id grant_id now decision request in
            record {
              grants =
                  rw (g, p)
                    (All-append (Backed answered_list) t.approval_grants (grant ∷ []) kept (
                      any-update_first_new (backs grant) (has_id approval_id)
                          (answered decision now) t.approvals request found backed,
                      tt,
                    ));
            }
      ]
