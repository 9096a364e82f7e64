-- ===== src/Plan/System/Preserves.antt =====
-- plan-service.js: every event keeps the predicates on the Plan and its driver.
use agentdock_mcp_harness.Base.{
  ℕ, String, Bool, true, false, not, ◌&&◌, ◌||◌, Option, some, All, ◌≡◌, refl, subst, sym, inl, inr,
  ◌⊎◌, Bool-cases, same_option, Result, ok, err,
}
use agentdock_mcp_harness.Task.Invariant.{Distinct}
use agentdock_mcp_harness.Plan.{PlanStatus, Plan}
use agentdock_mcp_harness.Plan.Mutators.{is_running_plan, touch}
use agentdock_mcp_harness.Plan.Driver.{ensure_driver, lease_to, is_free, is_leased}
use agentdock_mcp_harness.Plan.Requests.{continue_plan}
use agentdock_mcp_harness.Plan.Updates.{Moves, ids_of}
use agentdock_mcp_harness.Plan.System.{
  Phase, idle, turning, starting, polling, asking, settling, recording, acting, System, step, Event,
  on_ensure, on_turn, on_start, on_poll, on_report, on_settle, on_evidence, on_begin, on_act,
  on_throw, on_crash, on_cancel, on_continue, driven, ensured, thrown_at, continued_to, if_owned,
  Reach, at_start, then_event,
}
use agentdock_mcp_harness.Plan.System.Invariant.{
  HasAttempts, StatusHolds, PhaseHolds, Kept, Kept-IsSound, IsSound,
}
use agentdock_mcp_harness.Plan.System.Shapes.{stop_driver-Kept}
use agentdock_mcp_harness.Plan.System.Work.{
  do_start-Kept, do_report-Kept, do_settle-Kept, do_evidence-Kept, do_begin-Kept, do_act-Kept,
}
use agentdock_mcp_harness.Plan.System.Asked.{
  is_running_plan-eq-true, request_cancel-Kept, continue_plan-Kept,
}
use agentdock_mcp_harness.Plan.System.Turn.{Kept-same, do_turn-Kept, do_poll-Kept}

module _ (me : String) (instance_id : String) where
  driven-Kept :
      (event : Event) (plan : Plan) (phase : Phase)
      → All HasAttempts plan.steps
      → StatusHolds plan.status plan.blocker plan.cancel_requested plan.steps
      → PhaseHolds phase plan.status plan.steps
      → Kept plan.steps (driven me instance_id event plan phase)
  driven-Kept (on_turn now c) plan turning attempts holds h =
      do_turn-Kept me instance_id now c plan attempts holds h
  driven-Kept (on_start now r) plan (starting i x) attempts holds h =
      do_start-Kept me instance_id now i x plan r attempts h
  driven-Kept (on_poll now) plan (polling i x) attempts holds h =
      do_poll-Kept me instance_id now i x plan attempts holds h
  driven-Kept (on_report now r) plan (asking i x) attempts holds h =
      do_report-Kept me instance_id now i x plan r attempts h
  driven-Kept (on_settle now e) plan (settling i x r) attempts holds h =
      do_settle-Kept me instance_id now i x r plan e attempts h
  driven-Kept (on_evidence now e) plan (recording i) attempts holds h =
      do_evidence-Kept me instance_id now i e plan attempts holds h
  driven-Kept (on_begin now head) plan (acting i x) attempts holds h =
      do_begin-Kept me instance_id now i x plan head attempts h
  driven-Kept (on_act now r) plan (acting i x) attempts holds h =
      do_act-Kept me instance_id now i x plan r attempts h
  driven-Kept _ plan phase attempts holds h = Kept-same me instance_id plan phase attempts holds h

  -- A claim fails with or without a new revision, or sets the lease of a RUNNING Plan.
  pub ensure_driver-cases :
      (now : ℕ) (plan : Plan)
      → (ensure_driver now me plan ≡ (plan, false))
        ⊎ (ensure_driver now me plan ≡ (touch now plan, false))
        ⊎ ((ensure_driver now me plan ≡ (lease_to now me plan, true))
            × (plan.status ≡ PlanStatus.running))
  unfolding ensure_driver
  ensure_driver-cases now plan = elim (Bool-cases (is_running_plan plan.status)) [
    | inr off ↦ inl (rw off refl)
    | inl on ↦
        elim (Bool-cases (
          not (is_free plan.driver_id)
          && not (same_option plan.driver_id (some me))
          && is_leased now plan.driver_lease_until)) [
            | inl leased ↦ inl (rw (on, leased) refl)
            | inr unleased ↦
                elim (Bool-cases (
                  is_free plan.driver_id
                  || same_option plan.driver_id (some me)
                  || not (is_leased now plan.driver_lease_until))) [
                    | inl claims ↦ inr (
                        inr
                          (rw (on, unleased, claims) refl, is_running_plan-eq-true plan.status on))
                    | inr not_mine ↦ inr (inl (rw (on, unleased, not_mine) refl))
                  ]
          ]
  ]

  ensured-Kept :
      (now : ℕ) (plan : Plan) (phase : Phase)
      → All HasAttempts plan.steps
      → StatusHolds plan.status plan.blocker plan.cancel_requested plan.steps
      → PhaseHolds phase plan.status plan.steps
      → Kept plan.steps (ensured me instance_id now plan phase)
  unfolding PhaseHolds
  ensured-Kept now plan idle attempts holds h = elim (ensure_driver-cases now plan) [
    | inl none_claimed ↦
        subst Claimed (sym none_claimed) (Kept-same me instance_id plan idle attempts holds tt)
    | inr (inl touched) ↦
        subst Claimed (sym touched)
          (Kept-same me instance_id (touch now plan) idle attempts holds tt)
    | inr (inr (claimed, runs)) ↦
        subst Claimed (sym claimed)
          (Kept-same me instance_id (lease_to now me plan) turning attempts holds runs)
  ]
    where
      Claimed : Plan × Bool → Type 0
      Claimed r = Kept plan.steps (if_owned turning r)
  ensured-Kept now plan phase attempts holds h =
      Kept-same me instance_id plan phase attempts holds h

  thrown_at-Kept :
      (now : ℕ) (plan : Plan) (phase : Phase)
      → All HasAttempts plan.steps
      → StatusHolds plan.status plan.blocker plan.cancel_requested plan.steps
      → PhaseHolds phase plan.status plan.steps
      → Kept plan.steps (thrown_at me instance_id now plan phase)
  unfolding PhaseHolds
  thrown_at-Kept now plan idle attempts holds h =
      Kept-same me instance_id plan idle attempts holds h
  thrown_at-Kept now plan turning attempts holds h =
      stop_driver-Kept me instance_id now plan attempts h
  thrown_at-Kept now plan (recording i) attempts holds h =
      stop_driver-Kept me instance_id now plan attempts h.0
  thrown_at-Kept now plan (starting i x) attempts holds h =
      stop_driver-Kept me instance_id now plan attempts h.0.runs
  thrown_at-Kept now plan (polling i x) attempts holds h =
      stop_driver-Kept me instance_id now plan attempts h.0.runs
  thrown_at-Kept now plan (asking i x) attempts holds h =
      stop_driver-Kept me instance_id now plan attempts h.0.runs
  thrown_at-Kept now plan (settling i x r) attempts holds h =
      stop_driver-Kept me instance_id now plan attempts h.0.runs
  thrown_at-Kept now plan (acting i x) attempts holds h =
      stop_driver-Kept me instance_id now plan attempts h.0.runs

  continued_to-Kept :
      (now : ℕ) (id : String) (remark : Option String) (plan : Plan) (phase : Phase)
      (r : Result Plan)
      → continue_plan now id remark plan ≡ r
      → Distinct (ids_of plan.steps)
      → All HasAttempts plan.steps
      → StatusHolds plan.status plan.blocker plan.cancel_requested plan.steps
      → PhaseHolds phase plan.status plan.steps
      → Kept plan.steps (continued_to me instance_id plan phase r)
  continued_to-Kept now id remark plan phase (ok following) e distinct attempts holds h =
      continue_plan-Kept me instance_id now id remark plan following phase distinct attempts holds h
        e
  continued_to-Kept now id remark plan phase (err c) e distinct attempts holds h =
      Kept-same me instance_id plan phase attempts holds h

  step-Kept :
      (event : Event) (s : System) → IsSound s → Kept s.plan.steps (step me instance_id event s)
  unfolding step PhaseHolds
  step-Kept (on_ensure now) s sound =
      ensured-Kept now s.plan s.phase sound.attempts sound.status sound.phase
  step-Kept (on_throw now) s sound =
      thrown_at-Kept now s.plan s.phase sound.attempts sound.status sound.phase
  step-Kept on_crash s sound = Kept-same me instance_id s.plan idle sound.attempts sound.status tt
  step-Kept (on_cancel now) s sound =
      request_cancel-Kept me instance_id now s.plan s.phase sound.attempts sound.status sound.phase
  step-Kept (on_continue now id remark) s sound =
      continued_to-Kept now id remark s.plan s.phase (continue_plan now id remark s.plan) refl
        sound.distinct sound.attempts sound.status sound.phase
  step-Kept event s sound = driven-Kept event s.plan s.phase sound.attempts sound.status sound.phase

  -- Every event, whether the driver's, the user's or a crash, keeps a sound Plan sound.
  pub step-IsSound :
      (event : Event) (s : System) → IsSound s → IsSound (step me instance_id event s)
  step-IsSound event s sound =
      Kept-IsSound s (step me instance_id event s) sound (step-Kept event s sound)

  -- In one event a step of a sound Plan keeps its specification, stays PASSED once it is, and leaves PENDING only
  -- when every step it depends on is PASSED.
  pub step-Moves :
      (event : Event) (s : System)
      → IsSound s
      → Moves s.plan.steps s.plan.steps (step me instance_id event s).plan.steps
  step-Moves event s sound = (step-Kept event s sound).moves

  -- Every system that events lead to from a sound one is sound.
  pub events-IsSound : {from s : System} → IsSound from → Reach me instance_id from s → IsSound s
  events-IsSound sound at_start = sound
  events-IsSound sound (then_event {s} reach event) =
      step-IsSound event s (events-IsSound sound reach)
