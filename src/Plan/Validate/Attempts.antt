-- ===== src/Plan/Validate/Attempts.antt =====
-- plan-service.js: the bound on the attempts of a step that `validateStep` returns.
use agentdock_mcp_harness.Base.{
  ℕ, ◌≤◌, String, Bool, not, ◌&&◌, ◌||◌, leb, Option, none, some, List, [], ◌∷◌, All, arith, ◌≡◌,
  ok, >>=-eq-ok, trim, truthy, or_else, subst, ap, ok-injective, guard, invalid_plan_step,
}
use agentdock_mcp_harness.Plan.{StepSpec}
use agentdock_mcp_harness.Plan.Validate.{
  StepInput, check_attempts, required, validate_object, validate_step, validate_steps,
  matches_step_id, text_length, action_named, check_mode, check_timeout, check_exit_codes,
  check_evidence, is_commit, is_finish, is_no_change, spec_of,
}

check_attempts-bounds :
    (o : Option (Option ℕ)) (safe : Bool) {n : ℕ} → check_attempts o safe ≡ ok n → (1 ≤ n) × (n ≤ 3)
unfolding check_attempts
check_attempts-bounds none safe h = ground arith
check_attempts-bounds (some none) safe h = cc
check_attempts-bounds (some (some k)) safe h = ground arith

module _ (upper : String → String) where
  validate_object-bounds :
      (previous : Option String) (step : StepInput) {spec : StepSpec}
      → validate_object upper previous step ≡ ok spec
      → (1 ≤ spec.max_attempts) × (spec.max_attempts ≤ 3)
  unfolding validate_object spec_of
  validate_object-bounds previous step {spec} h =
      let id = trim step.step_id in
      let a = >>=-eq-ok (guard (matches_step_id id) invalid_plan_step) _ h in
      let b =
        >>=-eq-ok (required (action_named (upper (trim (or_else step.action "COMMAND"))))) _ a.2 in
      let c = >>=-eq-ok (check_mode b.0 step.argv step.shell) _ b.2 in
      let d = >>=-eq-ok (guard (not step.has_env) invalid_plan_step) _ c.2 in
      let e = >>=-eq-ok (check_timeout step.timeout_ms) _ d.2 in
      let key = trim (or_else step.idempotency_key id) in
      let f = >>=-eq-ok (guard (truthy key && leb (text_length key) 256) invalid_plan_step) _ e.2 in
      let g = >>=-eq-ok (check_exit_codes step.exit_codes) _ f.2 in
      let i = >>=-eq-ok (check_attempts step.max_attempts step.retry_safe) _ g.2 in
      let j =
        >>=-eq-ok (guard (not (is_commit b.0) || truthy (trim step.message)) invalid_plan_step) _
          i.2 in
      let k = >>=-eq-ok (check_evidence upper step.evidence) _ j.2 in
      let l =
        >>=-eq-ok
          (guard
            (not (is_finish b.0 && is_no_change upper step.outcome) || truthy (trim step.reason))
            invalid_plan_step)
          _ k.2 in
      let same_attempts : i.0 ≡ spec.max_attempts =
        ap (λ (s : StepSpec). s.max_attempts) (ok-injective l.2) in
      subst (λ n. (1 ≤ n) × (n ≤ 3)) same_attempts
        (check_attempts-bounds step.max_attempts step.retry_safe i.1)

  -- Steps that `start` accepts are tried at least once and at most three times.
  pub validate_steps-bounds :
      (previous : Option String) (steps : List (Option StepInput)) (specs : List StepSpec)
      → validate_steps upper previous steps ≡ ok specs
      → All (λ spec. (1 ≤ spec.max_attempts) × (spec.max_attempts ≤ 3)) specs
  unfolding validate_steps validate_step
  validate_steps-bounds previous [] [] h = tt
  validate_steps-bounds previous [] (spec ∷ specs) h = cc
  validate_steps-bounds previous (none ∷ rest) specs h = cc
  validate_steps-bounds previous (some step ∷ rest) specs h =
      let a = >>=-eq-ok (validate_object upper previous step) _ h in
      let b = >>=-eq-ok (validate_steps upper (some a.0.step_id) rest) _ a.2 in
      subst (All (λ spec. (1 ≤ spec.max_attempts) × (spec.max_attempts ≤ 3))) (ok-injective b.2) (
        validate_object-bounds previous step a.1,
        validate_steps-bounds (some a.0.step_id) rest b.0 b.1,
      )
