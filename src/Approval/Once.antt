-- ===== src/Approval/Once.antt =====
-- approval-service.js: a request, the answer ALLOW_ONCE, and the authorisations after it.
use agentdock_mcp_harness.Base.{
  ℕ, String, Bool, true, false, ◌≡◌, refl, none, some, List, [], ◌∷◌, ◌++◌, arith, find,
  update_first, remove_first, Result, ok,
}
use agentdock_mcp_harness.Task.{Task, Grant, Approval, active, allow_once}
use agentdock_mcp_harness.Policy.{PolicyDecision}
use agentdock_mcp_harness.Approval.{
  authorize_task, covers_task, covers_once, allowed, required, Authorization, is_open,
}
use agentdock_mcp_harness.Approval.Respond.{respond_task, has_id, answered, new_grant}

-- The mutator of `authorize` found no grant, so `authorize` throws APPROVAL_REQUIRED.
abbrev pub requires_approval : Result (Task × Authorization) → Bool
requires_approval (ok (_, required _ _)) = true
requires_approval _ = false

module _ {A : Type 0} (p : A → Bool) where
  find-append_one :
      (xs : List A) (x : A) → find p xs ≡ none → p x ≡ true → find p (xs ++ x ∷ []) ≡ some x
  find-append_one [] x h e = rw e
  find-append_one (y ∷ xs) x h e = ground (arith, find-append_one xs x)

  find-append_miss :
      (xs : List A) (x : A) → find p xs ≡ none → p x ≡ false → find p (xs ++ x ∷ []) ≡ none
  find-append_miss [] x h e = rw e
  find-append_miss (y ∷ xs) x h e = ground (arith, find-append_miss xs x)

  remove_first-append_one :
      (xs : List A) (x : A) → find p xs ≡ none → p x ≡ true → remove_first p (xs ++ x ∷ []) ≡ xs
  remove_first-append_one [] x h e = rw e
  remove_first-append_one (y ∷ xs) x h e = ground (arith, remove_first-append_one xs x)

module _ (task_id tool : String) (policy : PolicyDecision) (approval_id grant_id new_id : String)
    (now later last : ℕ) (t : Task) (request : Approval) (is_active : t.status ≡ active)
    (here : t.workspace_cleaned ≡ false)
    (asked : find (has_id approval_id) t.approvals ≡ some request)
    (unanswered : is_open request.status ≡ true)
    (in_scope : request.approval_scope ≡ policy.approval_scope)
    (no_task_grant : find (covers_task policy.approval_scope) t.approval_grants ≡ none)
    (no_once_grant : find (covers_once policy.approval_scope request.fingerprint) t.approval_grants
      ≡ none) where
  abbrev granted : Grant
  granted = new_grant task_id approval_id grant_id now allow_once request

  abbrev answered_task : Task
  answered_task = record t {
    approvals = update_first (has_id approval_id) (answered allow_once now) t.approvals;
    approval_grants = t.approval_grants ++ granted ∷ [];
    updated_at = now;
  }

  abbrev used_task : Task
  used_task = record answered_task { approval_grants = t.approval_grants; updated_at = later }

  respond_once :
      respond_task task_id approval_id grant_id now allow_once t
      ≡ ok (answered_task, (answered allow_once now request, some granted))
  unfolding respond_task
  respond_once = ground arith

  authorize_once :
      authorize_task task_id tool request.fingerprint policy new_id later answered_task
      ≡ ok (used_task, allowed granted)
  unfolding authorize_task
  authorize_once =
      let once = covers_once policy.approval_scope request.fingerprint in
      ground (
        arith,
        find-append_miss (covers_task policy.approval_scope) t.approval_grants granted,
        find-append_one once t.approval_grants granted,
        remove_first-append_one once t.approval_grants granted,
      )

  asks_again :
      requires_approval
        (authorize_task task_id tool request.fingerprint policy new_id last used_task)
      ≡ true
  unfolding authorize_task
  asks_again = ground arith

  -- Where no grant covers it yet, the answer ALLOW_ONCE to the request for an operation lets that
  -- operation through once: the next authorisation takes the new grant and leaves the grants as
  -- they were before the answer, and the one after that requires an approval again.
  pub allow_once_once :
      (u : Task) × (v : Task) × (respond_task task_id approval_id grant_id now allow_once t
        ≡ ok (u, (answered allow_once now request, some granted)))
      × (authorize_task task_id tool request.fingerprint policy new_id later u
          ≡ ok (v, allowed granted))
      × (v.approval_grants ≡ t.approval_grants)
      × (requires_approval (authorize_task task_id tool request.fingerprint policy new_id last v)
          ≡ true)
  allow_once_once = (answered_task, used_task, respond_once, authorize_once, refl, asks_again)
