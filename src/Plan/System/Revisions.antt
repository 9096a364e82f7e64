-- ===== src/Plan/System/Revisions.antt =====
-- plan-service.js: the revision of a Plan, which `wait` compares.
use agentdock_mcp_harness.Base.{
  ℕ, ◌<◌, String, Bool, true, false, ◌&&◌, ltb, Option, none, some, if◌then◌else◌, arith, ◌≡◌, refl,
  sym, subst, Bool-cases, inl, inr, ◌⊎◌, Result, ok, err,
}
use agentdock_mcp_harness.Task.{EvidenceRecord}
use agentdock_mcp_harness.Process.{is_live}
use agentdock_mcp_harness.Plan.{Plan, Step, is_pending, is_barrier}
use agentdock_mcp_harness.Plan.Mutators.{
  is_running_plan, Report, begin_run, begin_commit, stop_driver, cancel_plan,
}
use agentdock_mcp_harness.Plan.Driver.{
  renew_driver, lease_to, Choice, work, block, complete, choose,
}
use agentdock_mcp_harness.Plan.Requests.{request_cancel, continue_plan}
use agentdock_mcp_harness.Plan.System.{
  System, Phase, idle, turning, starting, polling, asking, settling, recording, acting, to, step,
  Event, on_ensure, on_turn, on_start, on_poll, on_report, on_settle, on_evidence, on_begin, on_act,
  on_throw, on_crash, on_cancel, on_continue, do_turn, do_poll, do_report, do_settle, driven,
  ensured, thrown_at, continued_to, if_owned, hold, proceed, proceed_owned, follow, take_up,
  is_process_action, timed_out, succeeded, is_commit, process, approval, refused, done, broken,
  unlogged,
}
use agentdock_mcp_harness.Plan.System.Turn.{renew_driver-cases}
use agentdock_mcp_harness.Plan.System.Preserves.{ensure_driver-cases}
use agentdock_mcp_harness.Plan.System.Asked.{request_cancel-cases, continue_plan-cases}

-- The Plan is as it was, or it has a later revision.
abbrev pub Advances : Plan → Plan → Type 0
Advances before after = (after ≡ before) ⊎ (before.revision < after.revision)

module _ (me : String) (instance_id : String) where
  hold-Advances :
      (plan : Plan) (phase : Step → Phase) (o : Option Step) (after : Plan)
      → plan.revision < after.revision
      → Advances plan (hold me instance_id phase o after).plan
  hold-Advances plan phase none after h = inr h
  hold-Advances plan phase (some x) after h = inr h

  stop_driver-Advances : (now : ℕ) (plan : Plan) → Advances plan (stop_driver now plan)
  stop_driver-Advances now plan = elim (Bool-cases (is_running_plan plan.status)) [
    | inl on ↦ rw on (inr (omega arith))
    | inr off ↦ rw off (inl refl)
  ]

  take_up-Advances :
      (now i : ℕ) (x : Step) (plan : Plan)
      → Advances plan (take_up me instance_id now plan i x).plan
  take_up-Advances now i x plan = elim (Bool-cases (is_process_action x.spec.action)) [
    | inr other ↦ rw other (inl refl)
    | inl for_driver ↦ elim (Bool-cases (is_pending x.status)) [
      | inr begun ↦ rw (for_driver, begun) (inl refl)
      | inl waits ↦ elim (Bool-cases (is_barrier x.spec.action)) [
        | inl barrier ↦ rw (for_driver, waits, barrier) (inr (omega arith))
        | inr command ↦ rw (for_driver, waits, command) (inl refl)
      ]
    ]
  ]

  follow-Advances :
      (now : ℕ) (task_completed : Bool) (plan : Plan) (choice : Choice)
      → Advances plan (follow me instance_id now task_completed plan choice).plan
  follow-Advances now task_completed plan (work i x) = take_up-Advances now i x plan
  follow-Advances now task_completed plan block = inr (omega arith)
  follow-Advances now task_completed plan complete = inr (omega arith)

  proceed-Advances :
      (now : ℕ) (task_completed : Bool) (plan : Plan)
      → Advances plan (proceed me instance_id now task_completed plan).plan
  proceed-Advances now task_completed plan = by_flag plan.cancel_requested
    where
      by_flag :
          (asked : Bool)
          → Advances plan
              (if asked
                then to idle (cancel_plan now plan)
                else follow me instance_id now task_completed plan (choose plan.steps)).plan
      by_flag true = inr (omega arith)
      by_flag false = follow-Advances now task_completed plan (choose plan.steps)

  -- A mutation, and then what follows it.
  Advances-after :
      (before between after : Plan)
      → before.revision < between.revision
      → Advances between after
      → Advances before after
  Advances-after before between after h (inl e) =
      inr (subst (λ (q : Plan). before.revision < q.revision) (sym e) h)
  Advances-after before between after h (inr further) = inr (omega (arith, h, further))

  do_turn-Advances :
      (now : ℕ) (task_completed : Bool) (plan : Plan)
      → Advances plan (do_turn me instance_id now task_completed plan).plan
  do_turn-Advances now task_completed plan = elim (renew_driver-cases me instance_id now plan) [
    | inl lost ↦ subst Turned (sym lost) (inl refl)
    | inr (inl fresh) ↦ subst Turned (sym fresh) (proceed-Advances now task_completed plan)
    | inr (inr renewed) ↦ subst Turned (sym renewed) (
        Advances-after plan (lease_to now me plan) _ (omega arith)
          (proceed-Advances now task_completed (lease_to now me plan)))
  ]
    where
      Turned : Plan × Bool → Type 0
      Turned r = Advances plan (proceed_owned me instance_id now task_completed r).plan

  do_poll-Advances :
      (now i : ℕ) (x : Step) (plan : Plan)
      → Advances plan (do_poll me instance_id now i x plan).plan
  do_poll-Advances now i x plan = by_flag plan.cancel_requested
    where
      Polled : Plan × Bool → Type 0
      Polled r = Advances plan (if_owned (asking i x) r).plan

      by_flag :
          (asked : Bool)
          → Advances plan
              (if asked
                then to turning plan
                else if_owned (asking i x) (renew_driver now me plan)).plan
      by_flag true = inl refl
      by_flag false = elim (renew_driver-cases me instance_id now plan) [
        | inl lost ↦ subst Polled (sym lost) (inl refl)
        | inr (inl fresh) ↦ subst Polled (sym fresh) (inl refl)
        | inr (inr renewed) ↦ subst Polled (sym renewed) (inr (omega arith))
      ]

  do_report-Advances :
      (now i : ℕ) (x : Step) (plan : Plan) (r : Report)
      → Advances plan (do_report me instance_id now i x plan r).plan
  do_report-Advances now i x plan r = elim (Bool-cases (is_live r.status)) [
    | inr over ↦ rw over (inl refl)
    | inl live ↦ elim (Bool-cases (timed_out now x)) [
      | inl late ↦ rw (live, late) (inl refl)
      | inr early ↦ rw (live, early) (inl refl)
    ]
  ]

  do_settle-Advances :
      (now i : ℕ) (x : Step) (r : Report) (plan : Plan) (recorded : Option EvidenceRecord)
      → Advances plan (do_settle me instance_id now i x r plan recorded).plan
  do_settle-Advances now i x r plan recorded = elim (Bool-cases (succeeded x r)) [
    | inl success ↦ rw success (inr (omega arith))
    | inr failure ↦ elim (Bool-cases (ltb x.attempts x.spec.max_attempts)) [
      | inl again ↦ rw (failure, again) (inr (omega arith))
      | inr no_more ↦ rw (failure, no_more) (inr (omega arith))
    ]
  ]

  do_action-Advances :
      (event : Event) (i : ℕ) (x : Step) (plan : Plan)
      → Advances plan (driven me instance_id event plan (acting i x)).plan
  do_action-Advances (on_begin now head) i x plan =
      elim (Bool-cases (is_commit x.spec.action && is_pending x.status)) [
        | inl begins ↦
            rw begins (hold-Advances plan (acting i) _ (begin_commit now i head plan) (omega arith))
        | inr skip ↦ rw skip (inl refl)
      ]
  do_action-Advances (on_act now (done result)) i x plan =
      elim (Bool-cases (is_commit x.spec.action && is_pending x.status)) [
        | inl early ↦ rw early (inl refl)
        | inr begun ↦ rw begun (inr (omega arith))
      ]
  do_action-Advances (on_act now (unlogged result message)) i x plan =
      elim (Bool-cases (is_commit x.spec.action && is_pending x.status)) [
        | inl early ↦ rw early (inl refl)
        | inr begun ↦ rw begun (inr (omega arith))
      ]
  do_action-Advances (on_act now (broken message)) i x plan = inr (omega arith)
  do_action-Advances event i x plan = inl refl

  driven-Advances :
      (event : Event) (plan : Plan) (phase : Phase)
      → Advances plan (driven me instance_id event plan phase).plan
  driven-Advances (on_turn now c) plan turning = do_turn-Advances now c plan
  driven-Advances (on_start now (process run_id)) plan (starting i x) =
      hold-Advances plan (polling i) _ (begin_run now instance_id i run_id plan) (omega arith)
  driven-Advances (on_start now (approval by_user)) plan (starting i x) = inr (omega arith)
  driven-Advances (on_start now refused) plan (starting i x) = stop_driver-Advances now plan
  driven-Advances (on_poll now) plan (polling i x) = do_poll-Advances now i x plan
  driven-Advances (on_report now r) plan (asking i x) = do_report-Advances now i x plan r
  driven-Advances (on_settle now e) plan (settling i x r) = do_settle-Advances now i x r plan e
  driven-Advances (on_evidence now e) plan (recording i) = inr (omega arith)
  driven-Advances event plan (acting i x) = do_action-Advances event i x plan
  driven-Advances event plan phase = inl refl

  ensured-Advances :
      (now : ℕ) (plan : Plan) (phase : Phase)
      → Advances plan (ensured me instance_id now plan phase).plan
  ensured-Advances now plan idle = elim (ensure_driver-cases me instance_id now plan) [
    | inl unchanged ↦ subst Claimed (sym unchanged) (inl refl)
    | inr (inl touched) ↦ subst Claimed (sym touched) (inr (omega arith))
    | inr (inr (claimed, runs)) ↦ subst Claimed (sym claimed) (inr (omega arith))
  ]
    where
      Claimed : Plan × Bool → Type 0
      Claimed r = Advances plan (if_owned turning r).plan
  ensured-Advances now plan phase = inl refl

  thrown_at-Advances :
      (now : ℕ) (plan : Plan) (phase : Phase)
      → Advances plan (thrown_at me instance_id now plan phase).plan
  thrown_at-Advances now plan idle = inl refl
  thrown_at-Advances now plan phase = stop_driver-Advances now plan

  request_cancel-Advances : (now : ℕ) (plan : Plan) → Advances plan (request_cancel now plan)
  request_cancel-Advances now plan = elim (request_cancel-cases now plan) [
    | inl unchanged ↦ inl unchanged
    | inr (inl (runs, flagged)) ↦ subst (Advances plan) (sym flagged) (inr (omega arith))
    | inr (inr restarted) ↦ subst (Advances plan) (sym restarted) (inr (omega arith))
  ]

  continued_to-Advances :
      (now : ℕ) (id : String) (remark : Option String) (plan : Plan) (phase : Phase)
      (r : Result Plan)
      → continue_plan now id remark plan ≡ r
      → Advances plan (continued_to me instance_id plan phase r).plan
  continued_to-Advances now id remark plan phase (err c) e = inl refl
  continued_to-Advances now id remark plan phase (ok following) e =
      subst (Advances plan) (sym (continue_plan-cases now id remark plan following e).2)
        (inr (omega arith))

  -- An event that changes a Plan in any way raises its revision, so a reader that waits for a later revision than it
  -- has seen misses no change.
  pub step-Advances :
      (event : Event) (s : System) → Advances s.plan (step me instance_id event s).plan
  unfolding step
  step-Advances (on_ensure now) s = ensured-Advances now s.plan s.phase
  step-Advances (on_throw now) s = thrown_at-Advances now s.plan s.phase
  step-Advances on_crash s = inl refl
  step-Advances (on_cancel now) s = request_cancel-Advances now s.plan
  step-Advances (on_continue now id remark) s =
      continued_to-Advances now id remark s.plan s.phase (continue_plan now id remark s.plan) refl
  step-Advances event s = driven-Advances event s.plan s.phase
