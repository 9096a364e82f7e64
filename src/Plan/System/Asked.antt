-- ===== src/Plan/System/Asked.antt =====
-- plan-service.js: `cancel` and `continue` keep the predicates on the Plan and its driver.
use agentdock_mcp_harness.Base.{
  ℕ, String, Bool, true, false, Option, none, some, List, All, arith, update_first, same, ◌≡◌, refl,
  subst, sym, inl, inr, ◌⊎◌, Bool-cases, same_option, same_option_iff, guard-eq-ok, ok, >>=-eq-ok,
}
use agentdock_mcp_harness.Task.Invariant.{Distinct}
use agentdock_mcp_harness.Plan.{
  Step, PlanStatus, Plan, Blocker, awaiting_assistant, awaiting_approval, awaiting_user,
  ready_to_commit, completed, is_barrier, is_pending, is_waiting, is_final,
}
use agentdock_mcp_harness.Plan.Mutators.{update_at, is_running_plan, touch}
use agentdock_mcp_harness.Plan.Requests.{
  request_cancel, continue_plan, continue_found, continue_step, check_waiting, blocked_by_barrier,
  blocked_step, find_step, resume,
}
use agentdock_mcp_harness.Plan.Updates.{
  Move, Moves-update_at, All-update_at, All-get_elem?, update_first-at, ids_of,
}
use agentdock_mcp_harness.Plan.System.{
  Phase, idle, turning, starting, polling, asking, settling, recording, acting, to,
}
use agentdock_mcp_harness.Plan.System.Invariant.{
  is_calm, HasAttempts, IsResumable, StatusHolds, PhaseHolds, Kept, going-StatusHolds,
}
use agentdock_mcp_harness.Plan.System.Turn.{Kept-same}

pub is_running_plan-eq-true :
    (status : PlanStatus) → is_running_plan status ≡ true → status ≡ PlanStatus.running
is_running_plan-eq-true status h = ground arith

pub PhaseHolds-status :
    (phase : Phase) (status : PlanStatus) (steps : List Step)
    → PhaseHolds phase status steps
    → (phase ≡ idle) ⊎ (status ≡ PlanStatus.running)
unfolding PhaseHolds
PhaseHolds-status idle status steps h = inl refl
PhaseHolds-status turning status steps h = inr h
PhaseHolds-status (starting i x) status steps h = inr h.0.runs
PhaseHolds-status (polling i x) status steps h = inr h.0.runs
PhaseHolds-status (asking i x) status steps h = inr h.0.runs
PhaseHolds-status (settling i x r) status steps h = inr h.0.runs
PhaseHolds-status (recording i) status steps h = inr h.0
PhaseHolds-status (acting i x) status steps h = inr h.0.runs

PhaseHolds-running :
    (phase : Phase) (status : PlanStatus) (steps : List Step)
    → PhaseHolds phase status steps
    → PhaseHolds phase PlanStatus.running steps
unfolding PhaseHolds
PhaseHolds-running phase status steps h = elim (PhaseHolds-status phase status steps h) [
  | inl off ↦ subst (λ p. PhaseHolds p PlanStatus.running steps) (sym off) tt
  | inr runs ↦ subst (λ st. PhaseHolds phase st steps) runs h
]

pub request_cancel-cases :
    (now : ℕ) (plan : Plan)
    → (request_cancel now plan ≡ plan)
      ⊎ ((plan.status ≡ PlanStatus.running)
          × (request_cancel now plan ≡ touch now (record plan { cancel_requested = true })))
      ⊎ (request_cancel now plan
          ≡ touch now (record plan {
            cancel_requested = true;
            status = PlanStatus.running;
            driver_id = none;
            driver_lease_until = none;
          }))
unfolding request_cancel
request_cancel-cases now plan = elim (Bool-cases (is_final plan.status)) [
  | inl final ↦ inl (rw final refl)
  | inr not_final ↦ elim (Bool-cases (is_running_plan plan.status)) [
    | inl on ↦ inr (inl (is_running_plan-eq-true plan.status on, rw (not_final, on) refl))
    | inr off ↦ inr (inr (rw (not_final, off) refl))
  ]
]

module _ (me : String) (instance_id : String) where
  pub request_cancel-Kept :
      (now : ℕ) (plan : Plan) (phase : Phase)
      → All HasAttempts plan.steps
      → StatusHolds plan.status plan.blocker plan.cancel_requested plan.steps
      → PhaseHolds phase plan.status plan.steps
      → Kept plan.steps (to phase (request_cancel now plan))
  unfolding StatusHolds
  request_cancel-Kept now plan phase attempts holds h = elim (request_cancel-cases now plan) [
    | inl unchanged ↦
        subst Asked (sym unchanged) (Kept-same me instance_id plan phase attempts holds h)
    | inr (inl (runs, flagged)) ↦ subst Asked (sym flagged) (
        Kept-same me instance_id (touch now (record plan { cancel_requested = true })) phase
          attempts (going-StatusHolds plan.steps plan.blocker true runs (inl refl)) h)
    | inr (inr restarted) ↦ subst Asked (sym restarted) (
        Kept-same me instance_id
          (touch now (record plan {
            cancel_requested = true;
            status = PlanStatus.running;
            driver_id = none;
            driver_lease_until = none;
          }))
          phase attempts (inl refl) (PhaseHolds-running phase plan.status plan.steps h))
  ]
    where
      Asked : Plan → Type 0
      Asked next = Kept plan.steps (to phase next)

-- The guards of `continue` let only a Plan pass that waits for its continuation.
check_waiting-IsResumable :
    (status : PlanStatus) (blocker : Option Blocker) (cancel_requested : Bool) (steps : List Step)
    → check_waiting status blocker ≡ ok tt
    → StatusHolds status blocker cancel_requested steps
    → IsResumable blocker steps
unfolding StatusHolds
check_waiting-IsResumable PlanStatus.running blocker asked steps h holds = cc
check_waiting-IsResumable awaiting_assistant blocker asked steps h holds =
    holds (guard-eq-ok (blocked_by_barrier blocker) _ h)
check_waiting-IsResumable awaiting_approval blocker asked steps h holds = holds
check_waiting-IsResumable awaiting_user blocker asked steps h holds = holds
check_waiting-IsResumable ready_to_commit blocker asked steps h holds = cc
check_waiting-IsResumable completed blocker asked steps h holds = cc
check_waiting-IsResumable PlanStatus.cancelled blocker asked steps h holds = cc

Move-continue_step :
    (steps : List Step) (now : ℕ) (remark : Option String) (x : Step)
    → ((is_barrier x.spec.action ≡ true) × (is_waiting x.status ≡ true))
      ⊎ ((is_barrier x.spec.action ≡ false) × (is_pending x.status ≡ true))
    → HasAttempts x
    → Move steps x (continue_step now remark x)
      × HasAttempts (continue_step now remark x)
      × (is_calm (continue_step now remark x).status ≡ true)
Move-continue_step steps now remark x (inl (barrier, waits)) within = rw barrier (
  record { spec = refl; keeps_passed = λ _. refl; waits = inr (inl (ground (arith, waits))) },
  (within.0, λ never. cc),
  refl,
)
Move-continue_step steps now remark x (inr (other, waits)) within = rw other (
  record { spec = refl; keeps_passed = ground (arith, waits); waits = inl refl },
  (within.0, λ _. within.1 waits),
  refl,
)

pub continue_plan-cases :
    (now : ℕ) (id : String) (remark : Option String) (plan next : Plan)
    → continue_plan now id remark plan ≡ ok next
    → (check_waiting plan.status plan.blocker ≡ ok tt)
      × (blocked_step plan.blocker ≡ some id)
      × (next
          ≡ touch now (
              resume
                (update_first (λ s. same s.spec.step_id id) (continue_step now remark) plan.steps)
                plan))
unfolding continue_plan
continue_plan-cases now id remark plan next h =
    let passed = >>=-eq-ok (check_waiting plan.status plan.blocker) _ h in
    let rest = found (find_step id plan.steps) passed.2 in (passed.1, rest.0, rest.1)
  where
    found :
        (o : Option Step)
        → continue_found now id remark plan o ≡ ok next
        → (blocked_step plan.blocker ≡ some id)
          × (next
              ≡ touch now (
                  resume
                    (update_first
                      (λ s. same s.spec.step_id id)
                      (continue_step now remark)
                      plan.steps)
                    plan))
    found none e = cc
    found (some x) e = elim (Bool-cases (same_option (blocked_step plan.blocker) (some id))) [
      | inl names ↦ ((same_option_iff _ _).0 names, cc (rw names at e))
      | inr other ↦ cc (rw other at e)
    ]

module _ (me : String) (instance_id : String) where
  pub continue_plan-Kept :
      (now : ℕ) (id : String) (remark : Option String) (plan next : Plan) (phase : Phase)
      → Distinct (ids_of plan.steps)
      → All HasAttempts plan.steps
      → StatusHolds plan.status plan.blocker plan.cancel_requested plan.steps
      → PhaseHolds phase plan.status plan.steps
      → continue_plan now id remark plan ≡ ok next
      → Kept plan.steps (to phase next)
  unfolding StatusHolds PhaseHolds
  continue_plan-Kept now id remark plan next phase distinct attempts holds h continues =
      let parts = continue_plan-cases now id remark plan next continues in
      let blocked =
        check_waiting-IsResumable plan.status plan.blocker plan.cancel_requested plan.steps parts.0
          holds in
      subst (λ q. Kept plan.steps (to phase q)) (sym parts.2)
        (subst (λ ys. Kept plan.steps (to phase (touch now (resume ys plan))))
          (sym (same_update blocked parts.1))
          (resumed blocked (elim (PhaseHolds-status phase plan.status plan.steps h) [
            | inl off ↦ off
            | inr runs ↦ cc (rw runs at parts.0)
          ])))
    where
      same_update :
          (blocked : IsResumable plan.blocker plan.steps)
          → blocked_step plan.blocker ≡ some id
          → update_first (λ s. same s.spec.step_id id) (continue_step now remark) plan.steps
            ≡ update_at blocked.index (continue_step now remark) plan.steps
      same_update blocked names =
          let same_id : blocked.blocked.spec.step_id ≡ id = cc (names, blocked.names) in
          subst
            (λ v.
              update_first (λ s. same s.spec.step_id v) (continue_step now remark) plan.steps
              ≡ update_at blocked.index (continue_step now remark) plan.steps)
            same_id
            (update_first-at blocked.index (continue_step now remark) plan.steps distinct
              blocked.here)

      resumed :
          (blocked : IsResumable plan.blocker plan.steps)
          → phase ≡ idle
          → Kept plan.steps (
              to phase (
                touch now
                  (resume (update_at blocked.index (continue_step now remark) plan.steps) plan)))
      resumed blocked off =
          let within = All-get_elem? HasAttempts blocked.index plan.steps blocked.here attempts in
          let move = Move-continue_step plan.steps now remark blocked.blocked blocked.kind within in
          record {
            moves =
                Moves-update_at plan.steps blocked.index (continue_step now remark) plan.steps
                  blocked.here move.0;
            attempts =
                All-update_at HasAttempts blocked.index (continue_step now remark) plan.steps
                  blocked.here move.1 attempts;
            status = inr (blocked.rest (continue_step now remark) move.2);
            phase =
                subst
                  (λ p.
                    PhaseHolds p PlanStatus.running
                      (update_at blocked.index (continue_step now remark) plan.steps))
                  (sym off) tt;
          }
