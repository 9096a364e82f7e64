-- ===== src/Plan/System/Invariant.antt =====
-- plan-service.js: predicates on a stored Plan with its driver between two events.
use agentdock_mcp_harness.Base.{
  ℕ, ◌≤◌, ◌<◌, Bool, true, false, Option, some, List, All, get_elem?, ◌≡◌, subst, sym, inr, ◌⊎◌,
}
use agentdock_mcp_harness.Task.Invariant.{Distinct}
use agentdock_mcp_harness.Plan.{
  Step, StepStatus, pending, passed, PlanStatus, awaiting_assistant, awaiting_approval,
  awaiting_user, Blocker, is_barrier, is_pending, is_running, is_passed, is_waiting,
}
use agentdock_mcp_harness.Plan.Mutators.{update_at}
use agentdock_mcp_harness.Plan.Driver.{dependencies_passed}
use agentdock_mcp_harness.Plan.Requests.{blocked_by_barrier, blocked_step}
use agentdock_mcp_harness.Plan.Updates.{IsOrdered, Moves, Moves-IsOrdered, Moves-ids, ids_of}
use agentdock_mcp_harness.Plan.System.{
  Phase, idle, turning, starting, polling, asking, settling, recording, acting, System,
}

-- PENDING, RUNNING and PASSED: no step has failed, waits or was given up.
abbrev pub is_calm : StepStatus → Bool
is_calm pending = true
is_calm StepStatus.running = true
is_calm passed = true
is_calm _ = false

abbrev pub IsCalm : List Step → Type 0
IsCalm steps = All (λ step. is_calm step.status ≡ true) steps

abbrev pub AllPassed : List Step → Type 0
AllPassed steps = All (λ step. is_passed step.status ≡ true) steps

-- A PENDING step has an attempt left.
abbrev pub HasAttempts : Step → Type 0
HasAttempts step =
    (step.attempts ≤ step.spec.max_attempts)
    × (is_pending step.status ≡ true → step.attempts < step.spec.max_attempts)

-- The step that a continuation is for: a barrier that waits, or a command that was not approved yet.
pub record IsResumable (blocker : Option Blocker) (steps : List Step) : Type 0 where
  pub index : ℕ
  pub blocked : Step
  pub here : get_elem? steps index ≡ some blocked
  pub names : blocked_step blocker ≡ some blocked.spec.step_id
  pub kind :
      ((is_barrier blocked.spec.action ≡ true) × (is_waiting blocked.status ≡ true))
      ⊎ ((is_barrier blocked.spec.action ≡ false) × (is_pending blocked.status ≡ true))
  pub rest :
      (f : Step → Step) → is_calm (f blocked).status ≡ true → IsCalm (update_at index f steps)

unfoldable pub StatusHolds : PlanStatus → Option Blocker → Bool → List Step → Type 0
StatusHolds PlanStatus.running blocker cancel_requested steps =
    (cancel_requested ≡ true) ⊎ IsCalm steps
StatusHolds awaiting_assistant blocker cancel_requested steps =
    blocked_by_barrier blocker ≡ true → IsResumable blocker steps
StatusHolds awaiting_approval blocker cancel_requested steps = IsResumable blocker steps
StatusHolds awaiting_user blocker cancel_requested steps = IsResumable blocker steps
StatusHolds PlanStatus.cancelled blocker cancel_requested steps = Unit
StatusHolds _ blocker cancel_requested steps = AllPassed steps

-- A driver at work on the step `i`, which is as it was read.
pub record AtWork (i : ℕ) (step : Step) (status : PlanStatus) (steps : List Step) : Type 0 where
  pub runs : status ≡ PlanStatus.running
  pub here : get_elem? steps i ≡ some step
  pub calm : IsCalm steps

unfoldable pub PhaseHolds : Phase → PlanStatus → List Step → Type 0
PhaseHolds idle status steps = Unit
PhaseHolds turning status steps = status ≡ PlanStatus.running
PhaseHolds (starting i step) status steps =
    AtWork i step status steps
    × (is_pending step.status ≡ true)
    × (dependencies_passed steps step ≡ true)
    × (is_barrier step.spec.action ≡ false)
PhaseHolds (polling i step) status steps =
    AtWork i step status steps × (is_running step.status ≡ true)
PhaseHolds (asking i step) status steps =
    AtWork i step status steps × (is_running step.status ≡ true)
PhaseHolds (settling i step report) status steps =
    AtWork i step status steps × (is_running step.status ≡ true)
PhaseHolds (recording i) status steps =
    (status ≡ PlanStatus.running) × (step : Step) × (get_elem? steps i ≡ some step)
PhaseHolds (acting i step) status steps =
    AtWork i step status steps
    × ((is_running step.status ≡ true)
        ⊎ ((is_pending step.status ≡ true) × (dependencies_passed steps step ≡ true)))

-- The identifiers are distinct, the dependencies of a step that has left PENDING are PASSED, the attempts are within
-- their bound, and the status of the Plan and what its driver awaits agree with the steps.
pub record IsSound (s : System) : Type 0 where
  pub distinct : Distinct (ids_of s.plan.steps)
  pub ordered : IsOrdered s.plan.steps
  pub attempts : All HasAttempts s.plan.steps
  pub status : StatusHolds s.plan.status s.plan.blocker s.plan.cancel_requested s.plan.steps
  pub phase : PhaseHolds s.phase s.plan.status s.plan.steps

-- What an event has to show of the system that it leads to.
pub record Kept (steps : List Step) (s : System) : Type 0 where
  pub moves : Moves steps steps s.plan.steps
  pub attempts : All HasAttempts s.plan.steps
  pub status : StatusHolds s.plan.status s.plan.blocker s.plan.cancel_requested s.plan.steps
  pub phase : PhaseHolds s.phase s.plan.status s.plan.steps

pub Kept-IsSound :
    (before after : System) → IsSound before → Kept before.plan.steps after → IsSound after
Kept-IsSound before after sound kept = record {
  distinct =
      subst Distinct
        (sym (Moves-ids before.plan.steps before.plan.steps after.plan.steps kept.moves))
        sound.distinct;
  ordered = Moves-IsOrdered before.plan.steps after.plan.steps kept.moves sound.ordered;
  attempts = kept.attempts;
  status = kept.status;
  phase = kept.phase;
}

pub going-StatusHolds :
    {status : PlanStatus} (steps : List Step) (blocker : Option Blocker) (cancel_requested : Bool)
    → status ≡ PlanStatus.running
    → (cancel_requested ≡ true) ⊎ IsCalm steps
    → StatusHolds status blocker cancel_requested steps
unfolding StatusHolds
going-StatusHolds steps blocker cancel_requested runs h =
    subst (λ st. StatusHolds st blocker cancel_requested steps) (sym runs) h

pub running-StatusHolds :
    {status : PlanStatus} (steps : List Step) (blocker : Option Blocker) (cancel_requested : Bool)
    → status ≡ PlanStatus.running
    → IsCalm steps
    → StatusHolds status blocker cancel_requested steps
running-StatusHolds steps blocker cancel_requested runs calm =
    going-StatusHolds steps blocker cancel_requested runs (inr calm)

-- A RUNNING Plan that is not to be cancelled is calm.
pub StatusHolds-running :
    {status : PlanStatus} (steps : List Step) (blocker : Option Blocker) (cancel_requested : Bool)
    → status ≡ PlanStatus.running
    → StatusHolds status blocker cancel_requested steps
    → (cancel_requested ≡ true) ⊎ IsCalm steps
unfolding StatusHolds
StatusHolds-running steps blocker cancel_requested runs h =
    subst (λ st. StatusHolds st blocker cancel_requested steps) runs h
