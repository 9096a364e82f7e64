-- ===== src/Approval/Grants.antt =====
-- approval-service.js: the grants of a Task before and after an authorisation.
use agentdock_mcp_harness.Base.{
  ℕ, String, Bool, true, false, ◌≡◌, refl, ap, ◌∙◌, ◌⊎◌, inl, inr, Option, none, some, List, [],
  ◌∷◌, ◌++◌, arith, find, remove_first, Bool-cases, Option-cases, Result, ok, err,
}
use agentdock_mcp_harness.Store.{Db}
use agentdock_mcp_harness.Task.{Task, Grant, active, get, mutate}
use agentdock_mcp_harness.Task.Service.{mutate-get}
use agentdock_mcp_harness.Policy.{Rule, Effect, allow, ask, deny, PolicyDecision, evaluate}
use agentdock_mcp_harness.Approval.{
  authorize_task, authorize, authorize_by, verdict_of, use_once, covers_task, covers_once, allowed,
  required, Authorization, permitted,
}

module _ {A : Type 0} (p : A → Bool) where
  -- What `findIndex` finds is what `splice` takes out.
  pub find-remove_first :
      (xs : List A) (x : A)
      → find p xs ≡ some x
      → (before : List A) × (after : List A) × (xs ≡ before ++ x ∷ after)
        × (remove_first p xs ≡ before ++ after)
        × (p x ≡ true)
  find-remove_first [] x h = cc
  find-remove_first (y ∷ xs) x h = elim (Bool-cases (p y)) [
    | inl hit ↦ ([], xs, ground arith, rw hit, ground arith)
    | inr miss ↦
        let (before, after, at, gone, e) = find-remove_first xs x (ground arith) in
        (y ∷ before, after, ap (λ l. y ∷ l) at, rw miss (ap (λ l. y ∷ l) gone), e)
  ]

-- A grant of the Task covers the operation: for the whole Task, and it stays; or once, and it is gone.
pub data Consented (scope fingerprint : String) (t u : Task) (g : Grant) : Type 0 where
  for_task :
      (before after : List Grant)
      → t.approval_grants ≡ before ++ g ∷ after
      → covers_task scope g ≡ true
      → u ≡ t
      → Consented scope fingerprint t u g
  for_once :
      (before after : List Grant)
      → t.approval_grants ≡ before ++ g ∷ after
      → covers_once scope fingerprint g ≡ true
      → u.approval_grants ≡ before ++ after
      → u.approvals ≡ t.approvals
      → Consented scope fingerprint t u g

module _ (task_id tool fingerprint : String) (policy : PolicyDecision) (new_id : String) (now : ℕ)
    (t u : Task) where
  use_once-Consented :
      (g : Grant)
      → use_once task_id tool fingerprint policy new_id now
          (find (covers_once policy.approval_scope fingerprint) t.approval_grants)
          t
        ≡ (u, allowed g)
      → Consented policy.approval_scope fingerprint t u g
  unfolding use_once
  use_once-Consented g h =
      let p = covers_once policy.approval_scope fingerprint in
      elim (Option-cases (find p t.approval_grants)) [
        | inl gone ↦ absurd (ground arith)
        | inr (g', found) ↦
            let (before, after, at, gone, covered) =
              find-remove_first p t.approval_grants g' found in
            let same_grant : g' ≡ g = ground arith in
            for_once before after (at ∙ ap (λ x. before ++ x ∷ after) same_grant)
              (rw (← same_grant) covered) (ground (arith, gone)) (ground arith)
      ]

  -- An ACTIVE Task authorises an operation only by a grant that it holds: an ALLOW_TASK grant of
  -- the rule's scope, and then nothing changes; or an ALLOW_ONCE grant of the scope and of exactly
  -- this operation, which is taken out of the grants, the others kept in their order.
  pub authorize_task-Consented :
      (g : Grant)
      → authorize_task task_id tool fingerprint policy new_id now t ≡ ok (u, allowed g)
      → (t.status ≡ active)
        × (t.workspace_cleaned ≡ false)
        × Consented policy.approval_scope fingerprint t u g
  unfolding authorize_task
  authorize_task-Consented g h = (
    ground arith,
    ground arith,
    elim (Option-cases (find (covers_task policy.approval_scope) t.approval_grants)) [
      | inl gone ↦ use_once-Consented g (ground arith)
      | inr (g', found) ↦
          let (before, after, at, _, covered) =
            find-remove_first (covers_task policy.approval_scope) t.approval_grants g' found in
          let same_grant : g' ≡ g = ground arith in
          for_task before after (at ∙ ap (λ x. before ++ x ∷ after) same_grant)
            (rw (← same_grant) covered) (ground arith)
    ],
  )

permitted-eq :
    (r : Result (Task × Authorization)) (g : Option Grant)
    → (verdict_of r).0 ≡ permitted g
    → (u : Task) × (grant : Grant) × (r ≡ ok (u, allowed grant)) × (g ≡ some grant)
permitted-eq (err c) g h = cc
permitted-eq (ok (u, allowed grant)) g h = (u, grant, refl, ground arith)
permitted-eq (ok (u, required request true)) g h = cc
permitted-eq (ok (u, required request false)) g h = cc

module _ (task_id fingerprint : String) (db : Db Task) where
  -- The stored Task has a grant that covers the operation, and is left as `Consented` says.
  pub record StoredConsent (scope : String) (g : Option Grant) (after : Db Task) : Type 0 where
    pub before_task : Task
    pub after_task : Task
    pub grant : Grant
    pub used : g ≡ some grant
    pub read_before : get task_id db ≡ ok before_task
    pub read_after : get task_id after ≡ ok after_task
    pub is_active : (before_task.status ≡ active) × (before_task.workspace_cleaned ≡ false)
    pub consented : Consented scope fingerprint before_task after_task grant

module _ (task_id tool fingerprint new_id : String) (now : ℕ) (db : Db Task)
    (policy : PolicyDecision) (g : Option Grant) where
  consent_by :
      (effect : Effect)
      → let (after, verdict, _) =
          authorize_by effect policy task_id tool fingerprint new_id now db in
        verdict ≡ permitted g
        → ((effect ≡ allow) × (g ≡ none) × (after ≡ db))
          ⊎ ((effect ≡ ask) × StoredConsent task_id fingerprint db policy.approval_scope g after)
  unfolding authorize_by
  consent_by allow h = inl (refl, ground arith, refl)
  consent_by deny h = cc
  consent_by ask h =
      let m = authorize_task task_id tool fingerprint policy new_id now in
      let (u, grant, returned, used) = permitted-eq (mutate task_id m now db).1 g h in
      let (t, before, made, after) = mutate-get task_id m now db returned in
      let (is_active, here, consented) =
        authorize_task-Consented task_id tool fingerprint policy new_id now t u grant made in
      inr (
        refl,
        record {
          before_task = t;
          after_task = u;
          grant = grant;
          used = used;
          read_before = before;
          read_after = after;
          is_active = (is_active, here);
          consented = consented;
        },
      )

-- `authorize` returns only with consent: either the first matching rule allows the operation, no
-- grant is used and nothing is stored; or the rule asks, and the stored Task is ACTIVE and holds a
-- grant for it. Where a rule denies, it never returns.
pub authorize_consent :
    (rules : List Rule) (task_id tool : String) (shell : Option String)
    (argv : Option (List String)) (fingerprint new_id : String) (now : ℕ) (db : Db Task)
    (g : Option Grant)
    → let policy = evaluate rules tool shell argv in
      let (after, verdict, _) = authorize rules task_id tool shell argv fingerprint new_id now db in
      verdict ≡ permitted g
      → ((policy.effect ≡ allow) × (g ≡ none) × (after ≡ db))
        ⊎ ((policy.effect ≡ ask)
            × StoredConsent task_id fingerprint db policy.approval_scope g after)
unfolding authorize
authorize_consent rules task_id tool shell argv fingerprint new_id now db g h =
    let policy = evaluate rules tool shell argv in
    consent_by task_id tool fingerprint new_id now db policy g policy.effect h
