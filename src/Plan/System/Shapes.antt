-- ===== src/Plan/System/Shapes.antt =====
-- plan-service.js: the shapes of the driver's mutations, and the predicates on the Plan that they keep.
use agentdock_mcp_harness.Base.{
  ℕ, String, true, false, some, List, All, get_elem?, arith, ◌≡◌, refl, subst, sym, ap, inl, inr,
  if◌then◌else◌,
}
use agentdock_mcp_harness.Process.{RunStatus}
use agentdock_mcp_harness.Plan.{
  Step, PlanStatus, Plan, is_barrier, is_pending, is_running, awaiting_assistant, driver_error,
  approval_required,
}
use agentdock_mcp_harness.Plan.Mutators.{
  update_at, touch, stop, stop_driver, blocked, blocked_at, is_running_plan, failed_status,
}
use agentdock_mcp_harness.Plan.Driver.{dependencies_passed}
use agentdock_mcp_harness.Plan.Updates.{
  Move, Moves, Moves-refl, Moves-update_at, All-update_at, get_elem?-update_at,
}
use agentdock_mcp_harness.Plan.System.{Phase, idle, to}
use agentdock_mcp_harness.Plan.System.Invariant.{
  is_calm, IsCalm, HasAttempts, IsResumable, StatusHolds, AtWork, PhaseHolds, Kept,
  running-StatusHolds,
}

-- A step that leaves RUNNING or PENDING for another status.
pub Move-running :
    (steps : List Step) (before after : Step)
    → after.spec ≡ before.spec
    → is_running before.status ≡ true
    → Move steps before after
Move-running steps before after same_spec runs = record {
  spec = same_spec;
  keeps_passed = ground (arith, runs);
  waits = inr (inl (ground (arith, runs)));
}

pub Move-ready :
    (steps : List Step) (before after : Step)
    → after.spec ≡ before.spec
    → is_pending before.status ≡ true
    → dependencies_passed steps before ≡ true
    → Move steps before after
Move-ready steps before after same_spec waits ready = record {
  spec = same_spec;
  keeps_passed = ground (arith, waits);
  waits = inr (inr ready);
}

pub failed_status-is_pending :
    (status : RunStatus) (now : ℕ) → is_pending (failed_status now status) ≡ false
failed_status-is_pending status now = ground arith

-- A Plan that keeps its status while one of its steps is assigned to.
module _ (plan : Plan) (i : ℕ) (x : Step) (at : AtWork i x plan.status plan.steps)
    (attempts : All HasAttempts plan.steps) where
  pub Kept-going :
      (next : Plan) (phase : Phase) (f : Step → Step)
      → next.steps ≡ update_at i f plan.steps
      → next.status ≡ plan.status
      → Move plan.steps x (f x)
      → HasAttempts (f x)
      → is_calm (f x).status ≡ true
      → PhaseHolds phase next.status next.steps
      → Kept plan.steps (to phase next)
  Kept-going next phase f same_steps same_status move within calm holds = record {
    moves =
        subst (Moves plan.steps plan.steps) (sym same_steps)
          (Moves-update_at plan.steps i f plan.steps at.here move);
    attempts =
        subst (All HasAttempts) (sym same_steps)
          (All-update_at HasAttempts i f plan.steps at.here within attempts);
    status =
        running-StatusHolds next.steps next.blocker next.cancel_requested
          (cc (same_status, at.runs))
          (subst IsCalm (sym same_steps) (
            All-update_at (λ step. is_calm step.status ≡ true) i f plan.steps at.here calm
              at.calm));
    phase = holds;
  }

  pub AtWork-after :
      (next : Plan) (f : Step → Step)
      → next.steps ≡ update_at i f plan.steps
      → next.status ≡ plan.status
      → is_calm (f x).status ≡ true
      → AtWork i (f x) next.status next.steps
  AtWork-after next f same_steps same_status calm = record {
    runs = cc (same_status, at.runs);
    here =
        subst (λ v. get_elem? v i ≡ some (f x)) (sym same_steps)
          (get_elem?-update_at i f plan.steps at.here);
    calm =
        subst IsCalm (sym same_steps)
          (All-update_at (λ step. is_calm step.status ≡ true) i f plan.steps at.here calm at.calm);
  }

  -- A Plan that stops while one of its steps is assigned to.
  pub Kept-given_up :
      (next : Plan) (f : Step → Step)
      → next.steps ≡ update_at i f plan.steps
      → Move plan.steps x (f x)
      → HasAttempts (f x)
      → StatusHolds next.status next.blocker next.cancel_requested next.steps
      → Kept plan.steps (to idle next)
  unfolding PhaseHolds
  Kept-given_up next f same_steps move within holds = record {
    moves =
        subst (Moves plan.steps plan.steps) (sym same_steps)
          (Moves-update_at plan.steps i f plan.steps at.here move);
    attempts =
        subst (All HasAttempts) (sym same_steps)
          (All-update_at HasAttempts i f plan.steps at.here within attempts);
    status = holds;
    phase = tt;
  }

  -- A Plan that keeps its steps while another phase begins.
  pub Kept-still :
      (phase : Phase) → PhaseHolds phase plan.status plan.steps → Kept plan.steps (to phase plan)
  Kept-still phase holds = record {
    moves = Moves-refl plan.steps plan.steps;
    attempts = attempts;
    status = running-StatusHolds plan.steps plan.blocker plan.cancel_requested at.runs at.calm;
    phase = holds;
  }

module _ (me : String) (instance_id : String) where
  -- A Plan that stops and keeps its steps.
  pub Kept-stopped :
      (plan next : Plan)
      → All HasAttempts plan.steps
      → next.steps ≡ plan.steps
      → StatusHolds next.status next.blocker next.cancel_requested next.steps
      → Kept plan.steps (to idle next)
  unfolding PhaseHolds
  Kept-stopped plan next attempts same_steps holds = record {
    moves = subst (Moves plan.steps plan.steps) (sym same_steps) (Moves-refl plan.steps plan.steps);
    attempts = subst (All HasAttempts) (sym same_steps) attempts;
    status = holds;
    phase = tt;
  }

  pub stop_driver-Kept :
      (now : ℕ) (plan : Plan)
      → All HasAttempts plan.steps
      → plan.status ≡ PlanStatus.running
      → Kept plan.steps (to idle (stop_driver now plan))
  unfolding StatusHolds
  stop_driver-Kept now plan attempts runs =
      let is_on : is_running_plan plan.status ≡ true = ap is_running_plan runs in
      subst
        (λ b. Kept plan.steps (
          to idle (
            if b
            then touch now (stop now awaiting_assistant (blocked driver_error) plan)
            else plan)))
        (sym is_on)
        (Kept-stopped plan (touch now (stop now awaiting_assistant (blocked driver_error) plan))
          attempts refl (λ never. cc))

  pub AtWork-IsResumable :
      (i : ℕ) (step : Step) (plan : Plan)
      → AtWork i step plan.status plan.steps
      → is_pending step.status ≡ true
      → is_barrier step.spec.action ≡ false
      → IsResumable (blocked_at approval_required step.spec.step_id) plan.steps
  AtWork-IsResumable i step plan at waits not_barrier = record {
    index = i;
    blocked = step;
    here = at.here;
    names = refl;
    kind = inr (not_barrier, waits);
    rest =
        λ f calm. All-update_at (λ s. is_calm s.status ≡ true) i f plan.steps at.here calm at.calm;
  }
