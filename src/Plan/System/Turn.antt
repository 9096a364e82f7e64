-- ===== src/Plan/System/Turn.antt =====
-- plan-service.js: a turn of the loop of `#drive` keeps the predicates on the Plan.
use agentdock_mcp_harness.Base.{
  ℕ, zero, suc, String, Bool, true, false, not, ◌||◌, some, List, [], ◌∷◌, All, get_elem?, arith,
  ◌≡◌, refl, subst, sym, inl, inr, ◌⊎◌, Bool-cases, if◌then◌else◌, same_option,
}
use agentdock_mcp_harness.Plan.{
  StepAction, command, reasoning_barrier, human_barrier, git_commit, task_finish, Step, PlanStatus,
  Plan, BlockerCode, is_barrier, is_pending,
}
use agentdock_mcp_harness.Plan.Mutators.{
  update_at, wait_step, reach_barrier, barrier_status, barrier_code, blocked_at, block_plan,
  complete_plan, cancel_plan, is_running_plan,
}
use agentdock_mcp_harness.Plan.Driver.{
  dependencies_passed, Choice, work, block, complete, choose, renew_driver, lease_to,
  lease_is_fresh,
}
use agentdock_mcp_harness.Plan.Updates.{Moves-refl, All-get_elem?, get_elem?-update_at}
use agentdock_mcp_harness.Plan.System.{
  Phase, idle, turning, starting, polling, asking, acting, to, take_up, follow, proceed,
  proceed_owned, do_turn, do_poll, is_process_action, if_owned,
}
use agentdock_mcp_harness.Plan.System.Invariant.{
  is_calm, IsCalm, AllPassed, HasAttempts, IsResumable, StatusHolds, AtWork, PhaseHolds, Kept,
  StatusHolds-running,
}
use agentdock_mcp_harness.Plan.System.Shapes.{Move-ready, Kept-still, Kept-stopped, Kept-given_up}
use agentdock_mcp_harness.Plan.System.Choices.{
  IsActive, Chosen, choose-Chosen, IsCalm-AllPassed, Moves-cancel_current,
  HasAttempts-cancel_current,
}

-- An assignment that is followed by another one to the same step.
All-update_twice :
    (P : Step → Type 0) (i : ℕ) (f g : Step → Step) (xs : List Step) {x : Step}
    → get_elem? xs i ≡ some x
    → P (f (g x))
    → All P xs
    → All P (update_at i f (update_at i g xs))
All-update_twice P i f g [] here new old = old
All-update_twice P zero f g (x ∷ xs) here new old = (subst (λ y. P (f (g y))) (cc here) new, old.1)
All-update_twice P (suc i) f g (x ∷ xs) here new old =
    (old.0, All-update_twice P i f g xs here new old.1)

barrier-StatusHolds :
    (now : ℕ) (action : StepAction) (id : String) (cancel_requested : Bool) (steps : List Step)
    → is_barrier action ≡ true
    → ((code : BlockerCode) → IsResumable (blocked_at code id) steps)
    → StatusHolds
        (barrier_status now action)
        (blocked_at (barrier_code now action) id)
        cancel_requested
        steps
unfolding StatusHolds
barrier-StatusHolds now human_barrier id cancel_requested steps h resumable = resumable _
barrier-StatusHolds now reasoning_barrier id cancel_requested steps h resumable = λ _. resumable _
barrier-StatusHolds now command id cancel_requested steps h resumable = cc
barrier-StatusHolds now git_commit id cancel_requested steps h resumable = cc
barrier-StatusHolds now task_finish id cancel_requested steps h resumable = cc

module _ (me : String) (instance_id : String) where
  reach_barrier-Kept :
      (now i : ℕ) (step : Step) (plan : Plan)
      → All HasAttempts plan.steps
      → AtWork i step plan.status plan.steps
      → is_pending step.status ≡ true
      → dependencies_passed plan.steps step ≡ true
      → is_barrier step.spec.action ≡ true
      → Kept plan.steps (to idle (reach_barrier now i step plan))
  reach_barrier-Kept now i step plan attempts at waits ready barrier =
      Kept-given_up plan i step at attempts (reach_barrier now i step plan) (wait_step now) refl
        (Move-ready plan.steps step (wait_step now step) refl waits ready)
        ((All-get_elem? HasAttempts i plan.steps at.here attempts).0, λ never. cc)
        (barrier-StatusHolds now step.spec.action step.spec.step_id plan.cancel_requested
          (update_at i (wait_step now) plan.steps) barrier
          (λ code. record {
            index = i;
            blocked = wait_step now step;
            here = get_elem?-update_at i (wait_step now) plan.steps at.here;
            names = refl;
            kind = inl (barrier, refl);
            rest = λ f calm.
                All-update_twice (λ s. is_calm s.status ≡ true) i f (wait_step now) plan.steps
                  at.here calm at.calm;
          }))

  take_up-Kept :
      (now i : ℕ) (step : Step) (plan : Plan)
      → All HasAttempts plan.steps
      → AtWork i step plan.status plan.steps
      → IsActive plan.steps step
      → Kept plan.steps (take_up me instance_id now plan i step)
  unfolding PhaseHolds
  take_up-Kept now i step plan attempts at active =
      elim (Bool-cases (is_process_action step.spec.action)) [
        | inr other ↦ rw other (Kept-still plan i step at attempts (acting i step) (at, active))
        | inl process ↦ elim active [
          | inl runs ↦
              let not_pending : is_pending step.status ≡ false = ground (arith, runs) in
              rw (process, not_pending)
                (Kept-still plan i step at attempts (polling i step) (at, runs))
          | inr (waits, ready) ↦ elim (Bool-cases (is_barrier step.spec.action)) [
            | inl barrier ↦
                rw (process, waits, barrier)
                  (reach_barrier-Kept now i step plan attempts at waits ready barrier)
            | inr not_barrier ↦
                rw (process, waits, not_barrier)
                  (Kept-still plan i step at attempts (starting i step)
                    (at, waits, ready, not_barrier))
          ]
        ]
      ]

  complete-Kept :
      (now : ℕ) (task_completed : Bool) (plan : Plan)
      → All HasAttempts plan.steps
      → AllPassed plan.steps
      → Kept plan.steps (to idle (complete_plan now task_completed plan))
  unfolding StatusHolds
  complete-Kept now true plan attempts all_passed =
      Kept-stopped me instance_id plan (complete_plan now true plan) attempts refl all_passed
  complete-Kept now false plan attempts all_passed =
      Kept-stopped me instance_id plan (complete_plan now false plan) attempts refl all_passed

  follow-Kept :
      (now : ℕ) (task_completed : Bool) (plan : Plan) (choice : Choice)
      → All HasAttempts plan.steps
      → plan.status ≡ PlanStatus.running
      → IsCalm plan.steps
      → Chosen plan.steps choice
      → Kept plan.steps (follow me instance_id now task_completed plan choice)
  unfolding Chosen StatusHolds
  follow-Kept now task_completed plan (work i x) attempts runs calm h =
      take_up-Kept now i x plan attempts (record { runs = runs; here = h.0; calm = calm }) h.1
  follow-Kept now task_completed plan block attempts runs calm h =
      Kept-stopped me instance_id plan (block_plan now plan) attempts refl (λ never. cc)
  follow-Kept now task_completed plan complete attempts runs calm h =
      complete-Kept now task_completed plan attempts (IsCalm-AllPassed plan.steps calm h.0 h.1)

  cancel-Kept :
      (now : ℕ) (plan : Plan)
      → All HasAttempts plan.steps
      → Kept plan.steps (to idle (cancel_plan now plan))
  unfolding StatusHolds PhaseHolds
  cancel-Kept now plan attempts = record {
    moves = Moves-cancel_current plan.steps now plan.steps;
    attempts = HasAttempts-cancel_current now plan.steps attempts;
    status = tt;
    phase = tt;
  }

  proceed-Kept :
      (now : ℕ) (task_completed : Bool) (plan : Plan)
      → All HasAttempts plan.steps
      → plan.status ≡ PlanStatus.running
      → (plan.cancel_requested ≡ true) ⊎ IsCalm plan.steps
      → Kept plan.steps (proceed me instance_id now task_completed plan)
  proceed-Kept now task_completed plan attempts runs going =
      elim (Bool-cases plan.cancel_requested) [
        | inl asked ↦ subst Branch (sym asked) (cancel-Kept now plan attempts)
        | inr not_asked ↦ subst Branch (sym not_asked) (
            follow-Kept now task_completed plan (choose plan.steps) attempts runs
              (calm_of not_asked going) (choose-Chosen plan.steps))
      ]
    where
      Branch : Bool → Type 0
      Branch asked = Kept plan.steps (
          if asked
          then to idle (cancel_plan now plan)
          else follow me instance_id now task_completed plan (choose plan.steps))

      calm_of :
          plan.cancel_requested ≡ false
          → (plan.cancel_requested ≡ true) ⊎ IsCalm plan.steps
          → IsCalm plan.steps
      calm_of not_asked (inl asked) = cc
      calm_of not_asked (inr calm) = calm

  pub Kept-same :
      (plan : Plan) (phase : Phase)
      → All HasAttempts plan.steps
      → StatusHolds plan.status plan.blocker plan.cancel_requested plan.steps
      → PhaseHolds phase plan.status plan.steps
      → Kept plan.steps (to phase plan)
  Kept-same plan phase attempts holds at = record {
    moves = Moves-refl plan.steps plan.steps;
    attempts = attempts;
    status = holds;
    phase = at;
  }

  -- A renewal fails, or it leaves the Plan as it is, or it sets the lease.
  pub renew_driver-cases :
      (now : ℕ) (plan : Plan)
      → (renew_driver now me plan ≡ (plan, false))
        ⊎ (renew_driver now me plan ≡ (plan, true))
        ⊎ (renew_driver now me plan ≡ (lease_to now me plan, true))
  unfolding renew_driver
  renew_driver-cases now plan =
      elim (Bool-cases
        (not (same_option plan.driver_id (some me)) || not (is_running_plan plan.status))) [
          | inl lost ↦ inl (rw lost refl)
          | inr owned ↦ elim (Bool-cases (lease_is_fresh now plan.driver_lease_until)) [
            | inl fresh ↦ inr (inl (rw (owned, fresh) refl))
            | inr stale ↦ inr (inr (rw (owned, stale) refl))
          ]
        ]

  pub do_turn-Kept :
      (now : ℕ) (task_completed : Bool) (plan : Plan)
      → All HasAttempts plan.steps
      → StatusHolds plan.status plan.blocker plan.cancel_requested plan.steps
      → PhaseHolds turning plan.status plan.steps
      → Kept plan.steps (do_turn me instance_id now task_completed plan)
  unfolding PhaseHolds
  do_turn-Kept now task_completed plan attempts holds runs =
      let going = StatusHolds-running plan.steps plan.blocker plan.cancel_requested runs holds in
      elim (renew_driver-cases now plan) [
        | inl lost ↦ subst Turned (sym lost) (Kept-same plan idle attempts holds tt)
        | inr (inl fresh) ↦
            subst Turned (sym fresh) (proceed-Kept now task_completed plan attempts runs going)
        | inr (inr renewed) ↦
            subst Turned (sym renewed)
              (proceed-Kept now task_completed (lease_to now me plan) attempts runs going)
      ]
    where
      Turned : Plan × Bool → Type 0
      Turned r = Kept plan.steps (proceed_owned me instance_id now task_completed r)

  pub do_poll-Kept :
      (now i : ℕ) (step : Step) (plan : Plan)
      → All HasAttempts plan.steps
      → StatusHolds plan.status plan.blocker plan.cancel_requested plan.steps
      → PhaseHolds (polling i step) plan.status plan.steps
      → Kept plan.steps (do_poll me instance_id now i step plan)
  unfolding PhaseHolds
  do_poll-Kept now i step plan attempts holds h = elim (Bool-cases plan.cancel_requested) [
    | inl asked ↦ subst Branch (sym asked) (Kept-same plan turning attempts holds h.0.runs)
    | inr not_asked ↦ subst Branch (sym not_asked) (polled (renew_driver-cases now plan))
  ]
    where
      Branch : Bool → Type 0
      Branch asked =
          Kept plan.steps
            (if asked then to turning plan else if_owned (asking i step) (renew_driver now me plan))

      Polled : Plan × Bool → Type 0
      Polled r = Kept plan.steps (if_owned (asking i step) r)

      polled :
          (renew_driver now me plan ≡ (plan, false))
            ⊎ (renew_driver now me plan ≡ (plan, true))
            ⊎ (renew_driver now me plan ≡ (lease_to now me plan, true))
          → Kept plan.steps (if_owned (asking i step) (renew_driver now me plan))
      polled (inl lost) = subst Polled (sym lost) (Kept-same plan idle attempts holds tt)
      polled (inr (inl fresh)) =
          subst Polled (sym fresh) (Kept-same plan (asking i step) attempts holds h)
      polled (inr (inr renewed)) =
          subst Polled (sym renewed)
            (Kept-same (lease_to now me plan) (asking i step) attempts holds h)
