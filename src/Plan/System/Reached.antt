-- ===== src/Plan/System/Reached.antt =====
-- plan-service.js: what holds of a Plan after any events.
use agentdock_mcp_harness.Base.{
  ℕ, zero, suc, String, true, false, Option, some, List, [], ◌∷◌, get_elem?, arith, ◌≡◌, refl,
  subst, sym, ◌∙◌, inl, inr, ◌⊎◌, err, plan_not_waiting,
}
use agentdock_mcp_harness.Plan.{
  Blocker, Step, Plan, PlanStatus, ready_to_commit, completed, is_passed, is_final,
}
use agentdock_mcp_harness.Plan.Mutators.{is_running_plan}
use agentdock_mcp_harness.Plan.Driver.{ensure_driver}
use agentdock_mcp_harness.Plan.Requests.{request_cancel, continue_plan, check_waiting}
use agentdock_mcp_harness.Plan.Updates.{Move, Moves}
use agentdock_mcp_harness.Plan.System.{
  idle, turning, System, step, Event, on_ensure, on_throw, on_crash, on_cancel, on_continue, Reach,
  at_start, then_event, ensured, thrown_at, driven, continued_to, if_owned,
}
use agentdock_mcp_harness.Plan.System.Invariant.{AllPassed, StatusHolds, IsSound}
use agentdock_mcp_harness.Plan.System.Asked.{PhaseHolds-status}
use agentdock_mcp_harness.Plan.System.Preserves.{step-Moves, events-IsSound}

-- The step at an index has the specification that it had, and is PASSED.
abbrev pub StaysPassed : ℕ → Step → List Step → Type 0
StaysPassed i x steps =
    (y : Step) × (get_elem? steps i ≡ some y) × (is_passed y.status ≡ true) × (y.spec ≡ x.spec)

Moves-StaysPassed :
    (steps xs ys : List Step)
    → Moves steps xs ys
    → (i : ℕ) (x : Step) → get_elem? xs i ≡ some x
    → is_passed x.status ≡ true
    → StaysPassed i x ys
unfolding Moves
Moves-StaysPassed steps [] ys m i x here done = cc
Moves-StaysPassed steps (z ∷ xs) [] m i x here done = elim m [ ]
Moves-StaysPassed steps (z ∷ xs) (y ∷ ys) m zero x here done =
    let same_step : z ≡ x = cc here in
    let moved = subst (λ v. Move steps v y) same_step m.0 in
    (y, refl, moved.keeps_passed done, moved.spec)
Moves-StaysPassed steps (z ∷ xs) (y ∷ ys) m (suc i) x here done =
    Moves-StaysPassed steps xs ys m.1 i x here done

request_cancel-final :
    (now : ℕ) (plan : Plan) → is_final plan.status ≡ true → request_cancel now plan ≡ plan
unfolding request_cancel
request_cancel-final now plan final = rw final refl

check_waiting-final :
    (status : PlanStatus) (blocker : Option Blocker)
    → is_final status ≡ true
    → check_waiting status blocker ≡ err plan_not_waiting
check_waiting-final status blocker final = ground arith

continue_plan-final :
    (now : ℕ) (id : String) (remark : Option String) (plan : Plan)
    → is_final plan.status ≡ true
    → continue_plan now id remark plan ≡ err plan_not_waiting
unfolding continue_plan
continue_plan-final now id remark plan final =
    rw (check_waiting-final plan.status plan.blocker final) refl

ensure_driver-final :
    (me : String) (now : ℕ) (plan : Plan)
    → is_final plan.status ≡ true
    → ensure_driver now me plan ≡ (plan, false)
unfolding ensure_driver
ensure_driver-final me now plan final =
    let not_running : is_running_plan plan.status ≡ false = ground arith in rw not_running refl

module _ (me : String) (instance_id : String) where
  -- A step that is PASSED in a sound Plan between two events stays PASSED, with its specification, whatever events
  -- follow. A task action that is stored as PASSED and whose `audit.append` then throws is FAILED when that event ends.
  pub Reach-StaysPassed :
      {from s : System} (i : ℕ) (x : Step)
      → IsSound from
      → Reach me instance_id from s
      → get_elem? from.plan.steps i ≡ some x
      → is_passed x.status ≡ true
      → StaysPassed i x s.plan.steps
  Reach-StaysPassed i x sound at_start here done = (x, here, done, refl)
  Reach-StaysPassed i x sound (then_event {s} reach event) here done =
      let (y, there, still, same_spec) = Reach-StaysPassed i x sound reach here done in
      let moves = step-Moves me instance_id event s (events-IsSound me instance_id sound reach) in
      let (z, later, last, spec) =
        Moves-StaysPassed s.plan.steps s.plan.steps _ moves i y there still in
      (z, later, last, spec ∙ same_spec)

  StatusHolds-AllPassed :
      (s : System)
      → IsSound s
      → (s.plan.status ≡ completed) ⊎ (s.plan.status ≡ ready_to_commit)
      → AllPassed s.plan.steps
  unfolding StatusHolds
  StatusHolds-AllPassed s sound (inl h) =
      subst (λ st. StatusHolds st s.plan.blocker s.plan.cancel_requested s.plan.steps) h
        sound.status
  StatusHolds-AllPassed s sound (inr h) =
      subst (λ st. StatusHolds st s.plan.blocker s.plan.cancel_requested s.plan.steps) h
        sound.status

  -- A Plan that events lead to from a sound one is COMPLETED or READY_TO_COMMIT only when all its steps are PASSED.
  pub Reach-AllPassed :
      {from s : System}
      → IsSound from
      → Reach me instance_id from s
      → (s.plan.status ≡ completed) ⊎ (s.plan.status ≡ ready_to_commit)
      → AllPassed s.plan.steps
  Reach-AllPassed {s = s} sound reach h =
      StatusHolds-AllPassed s (events-IsSound me instance_id sound reach) h

  final-idle : (s : System) → IsSound s → is_final s.plan.status ≡ true → s.phase ≡ idle
  final-idle s sound final =
      elim (PhaseHolds-status s.phase s.plan.status s.plan.steps sound.phase) [
        | inl off ↦ off
        | inr runs ↦ cc (rw runs at final)
      ]

  -- No event changes a sound Plan that is READY_TO_COMMIT, COMPLETED or CANCELLED.
  pub step-is_final :
      (event : Event) (s : System)
      → IsSound s
      → is_final s.plan.status ≡ true
      → (step me instance_id event s).plan ≡ s.plan
  unfolding step
  step-is_final event s sound final = settled event (final-idle s sound final)
    where
      settled : (e : Event) → s.phase ≡ idle → (step me instance_id e s).plan ≡ s.plan
      settled (on_cancel now) off = request_cancel-final now s.plan final
      settled (on_continue now id remark) off =
          subst (λ r. (continued_to me instance_id s.plan s.phase r).plan ≡ s.plan)
            (sym (continue_plan-final now id remark s.plan final)) refl
      settled on_crash off = refl
      settled (on_ensure now) off =
          subst (λ p. (ensured me instance_id now s.plan p).plan ≡ s.plan) (sym off)
            (subst (λ r. (if_owned turning r).plan ≡ s.plan)
              (sym (ensure_driver-final me now s.plan final)) refl)
      settled (on_throw now) off =
          subst (λ p. (thrown_at me instance_id now s.plan p).plan ≡ s.plan) (sym off) refl
      settled e off = subst (λ p. (driven me instance_id e s.plan p).plan ≡ s.plan) (sym off) refl
