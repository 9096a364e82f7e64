-- ===== src/Plan/System/Cancels.antt =====
-- plan-service.js: a cancellation of a Plan that waits, up to its end.
use agentdock_mcp_harness.Base.{
  ℕ, ◌+◌, String, Bool, true, false, ltb, none, same_refl, ◌≡◌, refl, sym, subst, Bool-cases, inl,
  inr,
}
use agentdock_mcp_harness.Plan.{Plan, PlanStatus, is_final}
use agentdock_mcp_harness.Plan.Mutators.{touch, is_running_plan}
use agentdock_mcp_harness.Plan.Driver.{ensure_driver, renew_driver, lease_to}
use agentdock_mcp_harness.Plan.Requests.{request_cancel}
use agentdock_mcp_harness.Plan.System.{idle, to, step, on_cancel, on_ensure, on_turn, do_turn}

-- What `cancel` makes of a Plan that no driver works on.
abbrev restarted : ℕ → Plan → Plan
restarted now plan = touch now (record plan {
  cancel_requested = true;
  status = PlanStatus.running;
  driver_id = none;
  driver_lease_until = none;
})

request_cancel-waiting :
    (now : ℕ) (plan : Plan)
    → is_final plan.status ≡ false
    → is_running_plan plan.status ≡ false
    → request_cancel now plan ≡ restarted now plan
unfolding request_cancel
request_cancel-waiting now plan not_final not_running = rw (not_final, not_running) refl

module _ (me : String) (instance_id : String) where
  turn-cancels :
      (asked claimed turned : ℕ) (task_completed : Bool) (plan : Plan)
      → (do_turn me instance_id turned task_completed
          (lease_to claimed me (restarted asked plan))).plan.status
        ≡ PlanStatus.cancelled
  unfolding renew_driver
  turn-cancels asked claimed turned task_completed plan =
      elim (Bool-cases (ltb (turned + 1500) (claimed + 3000))) [
        | inl fresh ↦ rw (same_refl me, fresh) refl
        | inr stale ↦ rw (same_refl me, stale) refl
      ]

  -- A Plan that waits for its assistant, its user or an approval, and that no driver works on, is CANCELLED after a
  -- `cancel`, the claim of any driver and one turn of its loop, at any times.
  pub cancel-ends :
      (asked claimed turned : ℕ) (task_completed : Bool) (plan : Plan)
      → is_final plan.status ≡ false
      → is_running_plan plan.status ≡ false
      → (step me instance_id (on_turn turned task_completed) (
          step me instance_id
            (on_ensure claimed)
            (step me instance_id (on_cancel asked) (to idle plan)))).plan.status
        ≡ PlanStatus.cancelled
  unfolding step ensure_driver
  cancel-ends asked claimed turned task_completed plan not_final not_running =
      subst
        (λ (q : Plan).
          (step me instance_id (on_turn turned task_completed)
            (step me instance_id (on_ensure claimed) (to idle q))).plan.status
          ≡ PlanStatus.cancelled)
        (sym (request_cancel-waiting asked plan not_final not_running))
        (turn-cancels asked claimed turned task_completed plan)
