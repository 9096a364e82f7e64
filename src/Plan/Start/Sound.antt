-- ===== src/Plan/Start/Sound.antt =====
-- plan-service.js: the Plan that `start` stores.
use agentdock_mcp_harness.Base.{
  ℕ, ◌≤◌, String, false, ◌&&◌, leb, ◌==◌, Option, none, some, List, [], ◌∷◌, All, map, length,
  unique, unique_after, includes, arith, ◌≡◌, refl, subst, sym, inr, Result, ok, err, >>=-eq-ok,
  guard, guard-eq-ok, trim, truthy, invalid_plan, invalid_idempotency_key, same,
}
use agentdock_mcp_harness.Task.Invariant.{Distinct}
use agentdock_mcp_harness.Plan.{StepSpec, Step}
use agentdock_mcp_harness.Plan.Validate.{StepInput, validate_steps, text_length}
use agentdock_mcp_harness.Plan.Validate.Attempts.{validate_steps-bounds}
use agentdock_mcp_harness.Plan.Dependencies.{step_ids, validate_dependencies, Marks}
use agentdock_mcp_harness.Plan.Start.{
  new_step, new_plan, checked_steps, check_dependencies, max_steps,
}
use agentdock_mcp_harness.Plan.Updates.{ids_of}
use agentdock_mcp_harness.Plan.System.{idle, to}
use agentdock_mcp_harness.Plan.System.Invariant.{
  IsCalm, HasAttempts, IsSound, StatusHolds, PhaseHolds,
}
use agentdock_mcp_harness.Plan.System.Progress.{specs_of}

length-unique_after-le : (seen xs : List String) → length (unique_after seen xs) ≤ length xs
length-unique_after-le seen [] = omega arith
length-unique_after-le seen (x ∷ xs) =
    ground (arith, length-unique_after-le (x ∷ seen) xs, length-unique_after-le seen xs)

-- As many values as the list has items: no item was seen, and none occurs twice.
unique_after-Distinct :
    (seen xs : List String)
    → length (unique_after seen xs) ≡ length xs
    → Distinct xs × All (λ x. includes seen x ≡ false) xs
unique_after-Distinct seen [] h = (tt, tt)
unique_after-Distinct seen (x ∷ xs) h =
    let fresh : includes seen x ≡ false = ground (arith, length-unique_after-le seen xs) in
    let rest = unique_after-Distinct (x ∷ seen) xs (ground (arith, fresh, h)) in
    ((unseen x xs (each x seen xs rest.1), rest.0), (fresh, others x seen xs rest.1))
  where
    each :
        (x : String) (seen xs : List String)
        → All (λ y. includes (x ∷ seen) y ≡ false) xs
        → All (λ y. same x y ≡ false) xs
    each x seen [] all_new = tt
    each x seen (y ∷ xs) all_new = (ground (arith, all_new.0), each x seen xs all_new.1)

    others :
        (x : String) (seen xs : List String)
        → All (λ y. includes (x ∷ seen) y ≡ false) xs
        → All (λ y. includes seen y ≡ false) xs
    others x seen [] all_new = tt
    others x seen (y ∷ xs) all_new = (ground (arith, all_new.0), others x seen xs all_new.1)

    unseen :
        (x : String) (xs : List String) → All (λ y. same x y ≡ false) xs → includes xs x ≡ false
    unseen x [] differ = refl
    unseen x (y ∷ xs) differ = ground (arith, differ.0, unseen x xs differ.1)

ids_of-new_step : (specs : List StepSpec) → ids_of (map new_step specs) ≡ step_ids specs
ids_of-new_step [] = refl
ids_of-new_step (spec ∷ specs) = cc (ids_of-new_step specs)

specs_of-new_step : (specs : List StepSpec) → specs_of (map new_step specs) ≡ specs
specs_of-new_step [] = refl
specs_of-new_step (spec ∷ specs) = cc (specs_of-new_step specs)

new_step-HasAttempts :
    (specs : List StepSpec)
    → All (λ spec. (1 ≤ spec.max_attempts) × (spec.max_attempts ≤ 3)) specs
    → All HasAttempts (map new_step specs)
new_step-HasAttempts [] bounds = tt
new_step-HasAttempts (spec ∷ specs) bounds = (
  (omega (arith, bounds.0.0), λ _. omega (arith, bounds.0.0)),
  new_step-HasAttempts specs bounds.1,
)

new_step-IsCalm : (specs : List StepSpec) → IsCalm (map new_step specs)
new_step-IsCalm [] = tt
new_step-IsCalm (spec ∷ specs) = (refl, new_step-IsCalm specs)

new_step-All :
    (P : Step → Type 0) (specs : List StepSpec)
    → ((spec : StepSpec) → P (new_step spec))
    → All P (map new_step specs)
new_step-All P [] each = tt
new_step-All P (spec ∷ specs) each = (each spec, new_step-All P specs each)

check_dependencies-eq-ok :
    (o : Option (Result Marks))
    → check_dependencies o ≡ ok tt
    → (marks : Marks) × (o ≡ some (ok marks))
check_dependencies-eq-ok none h = cc
check_dependencies-eq-ok (some (ok marks)) h = (marks, refl)
check_dependencies-eq-ok (some (err c)) h = cc

module _ (upper : String → String) (plan_id_for : String → String → String)
    (fingerprint : List StepSpec → String) (instance_id : String) where
  -- What the checks of `start` went through.
  checked_steps-eq-ok :
      (key : String) (steps : List (Option StepInput)) (specs : List StepSpec)
      → checked_steps upper plan_id_for fingerprint instance_id key steps ≡ ok specs
      → (validate_steps upper none steps ≡ ok specs)
        × (length (unique (step_ids specs)) ≡ length (step_ids specs))
        × (marks : Marks) × (validate_dependencies specs ≡ some (ok marks))
  unfolding checked_steps
  checked_steps-eq-ok key steps specs h =
      let a = >>=-eq-ok (guard (truthy (trim key)) invalid_idempotency_key) _ h in
      let b = >>=-eq-ok (guard (leb (text_length key) 256) invalid_idempotency_key) _ a.2 in
      let c =
        >>=-eq-ok (guard (leb 1 (length steps) && leb (length steps) max_steps) invalid_plan) _
          b.2 in
      let d = >>=-eq-ok (validate_steps upper none steps) _ c.2 in
      let e =
        >>=-eq-ok (guard (length (unique (step_ids d.0)) == length (step_ids d.0)) invalid_plan) _
          d.2 in
      let f = >>=-eq-ok (check_dependencies (validate_dependencies d.0)) _ e.2 in
      let same_specs : d.0 ≡ specs = cc f.2 in
      let count =
        guard-eq-ok (length (unique (step_ids d.0)) == length (step_ids d.0)) invalid_plan e.1 in
      let checked = check_dependencies-eq-ok (validate_dependencies d.0) f.1 in
      subst
        (λ (v : List StepSpec).
          (validate_steps upper none steps ≡ ok v)
          × (length (unique (step_ids v)) ≡ length (step_ids v))
          × (marks : Marks) × (validate_dependencies v ≡ some (ok marks)))
        same_specs (d.1, ground (arith, count), checked.0, checked.1)

  -- The Plan that `start` stores for steps that it accepts is sound, before any driver claims it, and its
  -- dependencies pass the check.
  pub new_plan-IsSound :
      (key task_id plan_id print : String) (steps : List (Option StepInput)) (specs : List StepSpec)
      (now : ℕ)
      → checked_steps upper plan_id_for fingerprint instance_id key steps ≡ ok specs
      → IsSound (to idle (new_plan plan_id task_id print instance_id specs now))
        × (marks : Marks) × (validate_dependencies
              (specs_of (new_plan plan_id task_id print instance_id specs now).steps)
            ≡ some (ok marks))
  unfolding StatusHolds PhaseHolds
  new_plan-IsSound key task_id plan_id print steps specs now h =
      let (valid, count, marks, accepted) = checked_steps-eq-ok key steps specs h in
      (
        record {
          distinct =
              subst Distinct (sym (ids_of-new_step specs))
                (unique_after-Distinct [] (step_ids specs) count).0;
          ordered = new_step-All _ specs (λ spec. refl);
          attempts =
              new_step-HasAttempts specs (validate_steps-bounds upper none steps specs valid);
          status = inr (new_step-IsCalm specs);
          phase = tt;
        },
        marks,
        subst (λ v. validate_dependencies v ≡ some (ok marks)) (sym (specs_of-new_step specs))
            accepted,
      )
