-- ===== src/Plan/System/Work.antt =====
-- plan-service.js: what the driver does with a step keeps the predicates on the Plan.
use agentdock_mcp_harness.Base.{
  ℕ, zero, suc, List, [], ◌∷◌, ap, ltb, String, true, false, ◌&&◌, Option, All, get_elem?, arith,
  ◌≡◌, refl, subst, sym, inl, inr, ◌⊎◌, Bool-cases, if◌then◌else◌, is_some,
}
use agentdock_mcp_harness.Task.{EvidenceRecord}
use agentdock_mcp_harness.Process.{is_live}
use agentdock_mcp_harness.Plan.{Step, Plan, is_pending, is_running}
use agentdock_mcp_harness.Plan.Mutators.{
  update_at, Report, run_step, pass_step, reset_step, fail_step, note_evidence, begin_step,
  finish_step, break_step, begin_run, begin_commit, await_approval, pass_run, retry_run, fail_run,
  record_step_evidence, pass_action, fail_action,
}
use agentdock_mcp_harness.Plan.Driver.{dependencies_passed}
use agentdock_mcp_harness.Plan.Updates.{
  Move, Move-refl, Moves-update_at, All-update_at, All-get_elem?, get_elem?-update_at,
}
use agentdock_mcp_harness.Plan.System.{
  idle, turning, starting, polling, asking, settling, recording, acting, Started, process, approval,
  refused, ActionResult, done, broken, unlogged, noted, do_start, do_report, do_settle, do_begin,
  do_act, succeeded, hold, to, timed_out, timeout_report, is_commit,
}
use agentdock_mcp_harness.Plan.System.Invariant.{
  is_calm, IsCalm, HasAttempts, StatusHolds, PhaseHolds, Kept, going-StatusHolds,
  StatusHolds-running,
}
use agentdock_mcp_harness.Plan.System.Shapes.{
  AtWork-IsResumable, Kept-given_up, Kept-going, Kept-still, Kept-stopped, Move-ready, Move-running,
  AtWork-after, failed_status-is_pending, stop_driver-Kept,
}

module _ (me : String) (instance_id : String) where
  pub do_start-Kept :
      (now i : ℕ) (step : Step) (plan : Plan) (result : Started)
      → All HasAttempts plan.steps
      → PhaseHolds (starting i step) plan.status plan.steps
      → Kept plan.steps (do_start me instance_id now i step plan result)
  unfolding PhaseHolds StatusHolds
  do_start-Kept now i step plan (process run_id) attempts h =
      let next = begin_run now instance_id i run_id plan in
      let after = AtWork-after plan i step h.0 attempts next (run_step now run_id) refl refl refl in
      let within = All-get_elem? HasAttempts i plan.steps h.0.here attempts in
      subst (λ found. Kept plan.steps (hold me instance_id (polling i) found next)) (sym after.here)
        (Kept-going plan i step h.0 attempts next (polling i (run_step now run_id step))
          (run_step now run_id) refl refl
          (Move-ready plan.steps step (run_step now run_id step) refl h.1 h.2)
          (omega (arith, within.1 h.1), λ never. cc) refl (after, refl))
  do_start-Kept now i step plan (approval true) attempts h =
      Kept-stopped me instance_id plan (await_approval now true step plan) attempts refl
        (AtWork-IsResumable me instance_id i step plan h.0 h.1 h.3)
  do_start-Kept now i step plan (approval false) attempts h =
      Kept-stopped me instance_id plan (await_approval now false step plan) attempts refl
        (AtWork-IsResumable me instance_id i step plan h.0 h.1 h.3)
  do_start-Kept now i step plan refused attempts h =
      stop_driver-Kept me instance_id now plan attempts h.0.runs

  pub do_report-Kept :
      (now i : ℕ) (step : Step) (plan : Plan) (r : Report)
      → All HasAttempts plan.steps
      → PhaseHolds (asking i step) plan.status plan.steps
      → Kept plan.steps (do_report me instance_id now i step plan r)
  unfolding PhaseHolds
  do_report-Kept now i step plan r attempts h = elim (Bool-cases (is_live r.status)) [
    | inr over ↦ rw over (Kept-still plan i step h.0 attempts (settling i step r) h)
    | inl live ↦ elim (Bool-cases (timed_out now step)) [
      | inl late ↦
          rw (live, late)
            (Kept-still plan i step h.0 attempts (settling i step (timeout_report r)) h)
      | inr early ↦ rw (live, early) (Kept-still plan i step h.0 attempts (polling i step) h)
    ]
  ]

  pub do_settle-Kept :
      (now i : ℕ) (step : Step) (r : Report) (plan : Plan) (recorded : Option EvidenceRecord)
      → All HasAttempts plan.steps
      → PhaseHolds (settling i step r) plan.status plan.steps
      → Kept plan.steps (do_settle me instance_id now i step r plan recorded)
  unfolding PhaseHolds StatusHolds
  do_settle-Kept now i step r plan recorded attempts h =
      let within = All-get_elem? HasAttempts i plan.steps h.0.here attempts in
      elim (Bool-cases (succeeded step r)) [
        | inl success ↦ rw success (passing (Bool-cases (is_some step.spec.evidence)))
        | inr failure ↦ elim (Bool-cases (ltb step.attempts step.spec.max_attempts)) [
          | inl again ↦
              rw (failure, again)
                (Kept-going plan i step h.0 attempts (retry_run now i r plan) turning
                  (reset_step now r) refl refl
                  (Move-running plan.steps step (reset_step now r step) refl h.1)
                  (within.0, λ _. ground (arith, again)) refl h.0.runs)
          | inr no_more ↦ rw (failure, no_more) (failing within)
        ]
      ]
    where
      pass_within : HasAttempts step → HasAttempts (pass_step now r step)
      pass_within within = (within.0, λ never. cc)

      passing :
          (is_some step.spec.evidence ≡ true) ⊎ (is_some step.spec.evidence ≡ false)
          → Kept plan.steps (
              to
                (if is_some step.spec.evidence then recording i else turning)
                (pass_run now i r plan))
      passing (inl recorded_too) = rw recorded_too (
          Kept-going plan i step h.0 attempts (pass_run now i r plan) (recording i)
            (pass_step now r) refl refl
            (Move-running plan.steps step (pass_step now r step) refl h.1)
            (pass_within (All-get_elem? HasAttempts i plan.steps h.0.here attempts)) refl
            (
              h.0.runs,
              pass_step now r step,
              get_elem?-update_at i (pass_step now r) plan.steps h.0.here,
            ))
      passing (inr not_recorded) = rw not_recorded (
          Kept-going plan i step h.0 attempts (pass_run now i r plan) turning (pass_step now r) refl
            refl (Move-running plan.steps step (pass_step now r step) refl h.1)
            (pass_within (All-get_elem? HasAttempts i plan.steps h.0.here attempts)) refl h.0.runs)

      failing :
          HasAttempts step
          → Kept plan.steps (to idle (fail_run now i step r (noted step recorded) plan))
      failing within =
          Kept-given_up plan i step h.0 attempts (fail_run now i step r (noted step recorded) plan)
            (fail_step now r (noted step recorded)) refl
            (Move-running plan.steps step (fail_step now r (noted step recorded) step) refl h.1)
            (within.0, λ never. cc (never, failed_status-is_pending r.status now)) (λ never. cc)

  pub do_evidence-Kept :
      (now i : ℕ) (recorded : EvidenceRecord) (plan : Plan)
      → All HasAttempts plan.steps
      → StatusHolds plan.status plan.blocker plan.cancel_requested plan.steps
      → PhaseHolds (recording i) plan.status plan.steps
      → Kept plan.steps (to turning (record_step_evidence now i recorded plan))
  unfolding PhaseHolds
  do_evidence-Kept now i recorded plan attempts holds h = record {
    moves =
        Moves-update_at plan.steps i (note_evidence now recorded) plan.steps h.2 (same_move h.1);
    attempts =
        All-update_at HasAttempts i (note_evidence now recorded) plan.steps h.2
          (All-get_elem? HasAttempts i plan.steps h.2 attempts) attempts;
    status =
        going-StatusHolds (update_at i (note_evidence now recorded) plan.steps) plan.blocker
          plan.cancel_requested h.0
          (still_calm
            (StatusHolds-running plan.steps plan.blocker plan.cancel_requested h.0 holds));
    phase = h.0;
  }
    where
      still_calm :
          (plan.cancel_requested ≡ true) ⊎ IsCalm plan.steps
          → (plan.cancel_requested ≡ true)
            ⊎ IsCalm (update_at i (note_evidence now recorded) plan.steps)
      still_calm (inl asked) = inl asked
      still_calm (inr calm) = inr (
          All-update_at (λ s. is_calm s.status ≡ true) i (note_evidence now recorded) plan.steps h.2
            (All-get_elem? (λ s. is_calm s.status ≡ true) i plan.steps h.2 calm) calm)

      same_move : (step : Step) → Move plan.steps step (note_evidence now recorded step)
      same_move step = record {
        spec = refl;
        keeps_passed = λ p. p;
        waits = (Move-refl plan.steps step).waits;
      }

  pub do_begin-Kept :
      (now i : ℕ) (step : Step) (plan : Plan) (head : String)
      → All HasAttempts plan.steps
      → PhaseHolds (acting i step) plan.status plan.steps
      → Kept plan.steps (do_begin me instance_id now i step plan head)
  unfolding PhaseHolds
  do_begin-Kept now i step plan head attempts h =
      elim (Bool-cases (is_commit step.spec.action && is_pending step.status)) [
        | inr skip ↦ rw skip (Kept-still plan i step h.0 attempts (acting i step) h)
        | inl begins ↦ rw begins (beginning (ground (arith, begins)) h.1)
      ]
    where
      beginning :
          is_pending step.status ≡ true
          → (is_running step.status ≡ true)
            ⊎ ((is_pending step.status ≡ true) × (dependencies_passed plan.steps step ≡ true))
          → Kept plan.steps (
              hold me instance_id
                (acting i)
                (get_elem? (begin_commit now i head plan).steps i)
                (begin_commit now i head plan))
      beginning waits (inl runs) = ground (arith, waits, runs)
      beginning waits (inr ready) =
          let next = begin_commit now i head plan in
          let after =
            AtWork-after plan i step h.0 attempts next (begin_step now head) refl refl refl in
          let within = All-get_elem? HasAttempts i plan.steps h.0.here attempts in
          subst (λ found. Kept plan.steps (hold me instance_id (acting i) found next))
            (sym after.here)
            (Kept-going plan i step h.0 attempts next (acting i (begin_step now head step))
              (begin_step now head) refl refl
              (Move-ready plan.steps step (begin_step now head step) refl waits ready.1)
              (omega (arith, within.1 waits), λ never. cc) refl (after, inl refl))

  Move-acting :
      (plan : Plan) (i : ℕ) (before after : Step)
      → PhaseHolds (acting i before) plan.status plan.steps
      → after.spec ≡ before.spec
      → Move plan.steps before after
  unfolding PhaseHolds
  Move-acting plan i before after h same_spec = elim h.1 [
    | inl runs ↦ Move-running plan.steps before after same_spec runs
    | inr (waits, ready) ↦ Move-ready plan.steps before after same_spec waits ready
  ]

  update_at-twice :
      (i : ℕ) (f g : Step → Step) (steps : List Step)
      → update_at i g (update_at i f steps) ≡ update_at i (λ s. g (f s)) steps
  update_at-twice i f g [] = refl
  update_at-twice zero f g (x ∷ xs) = refl
  update_at-twice (suc i) f g (x ∷ xs) = ap (λ v. x ∷ v) (update_at-twice i f g xs)

  pub do_act-Kept :
      (now i : ℕ) (step : Step) (plan : Plan) (result : ActionResult)
      → All HasAttempts plan.steps
      → PhaseHolds (acting i step) plan.status plan.steps
      → Kept plan.steps (do_act me instance_id now i step plan result)
  unfolding PhaseHolds StatusHolds
  do_act-Kept now i step plan (done result) attempts h =
      elim (Bool-cases (is_commit step.spec.action && is_pending step.status)) [
        | inl early ↦ rw early (Kept-still plan i step h.0 attempts (acting i step) h)
        | inr begun ↦ rw begun (
            Kept-going plan i step h.0 attempts (pass_action now i result plan) turning
              (finish_step now result) refl refl
              (Move-acting plan i step (finish_step now result step) h refl)
              ((All-get_elem? HasAttempts i plan.steps h.0.here attempts).0, λ never. cc) refl
              h.0.runs)
      ]
  do_act-Kept now i step plan (unlogged result message) attempts h =
      elim (Bool-cases (is_commit step.spec.action && is_pending step.status)) [
        | inl early ↦ rw early (Kept-still plan i step h.0 attempts (acting i step) h)
        | inr begun ↦ rw begun (
            Kept-given_up plan i step h.0 attempts
              (fail_action now i step message (pass_action now i result plan))
              (λ s. break_step now message (finish_step now result s))
              (update_at-twice i (finish_step now result) (break_step now message) plan.steps)
              (Move-acting plan i step (break_step now message (finish_step now result step)) h
                refl)
              ((All-get_elem? HasAttempts i plan.steps h.0.here attempts).0, λ never. cc)
              (λ never. cc))
      ]
  do_act-Kept now i step plan (broken message) attempts h =
      Kept-given_up plan i step h.0 attempts (fail_action now i step message plan)
        (break_step now message) refl (Move-acting plan i step (break_step now message step) h refl)
        ((All-get_elem? HasAttempts i plan.steps h.0.here attempts).0, λ never. cc) (λ never. cc)
