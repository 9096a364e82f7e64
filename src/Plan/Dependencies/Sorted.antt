-- ===== src/Plan/Dependencies/Sorted.antt =====
-- plan-service.js: the order in which `validateDependencies` visits the steps of a Plan.
use agentdock_mcp_harness.Base.{
  ℕ, zero, suc, String, true, Option, none, some, List, [], ◌∷◌, includes, All, length, same_refl,
  ok, Bool-cases, arith, ◌≡◌, refl, subst, inl, inr, Result-cases,
}
use agentdock_mcp_harness.Plan.{StepSpec}
use agentdock_mcp_harness.Plan.Dependencies.{
  Marks, Search, found, thrown, exhausted, and_then, visit, visit_all, visit_dependencies,
  search_cycle, enter, leave, step_ids, dependencies, validate_dependencies, check_known, outcome,
  no_marks,
}

-- Each identifier is a step's, and the step's dependencies stand behind it.
unfoldable pub Sorted : List StepSpec → List String → Type 0
Sorted steps [] = Unit
Sorted steps (id ∷ rest) =
    ((ids : List String) × (dependencies steps id ≡ some ids)
      × All (λ d. includes rest d ≡ true) ids)
    × Sorted steps rest

-- The search came back with the marks it had, and those of `ids`.
unfoldable Visits : List StepSpec → List String → Marks → Search → Type 0
Visits steps ids marks (found after) =
    Sorted steps after.visited
    × ((x : String) → includes marks.visited x ≡ true → includes after.visited x ≡ true)
    × All (λ id. includes after.visited id ≡ true) ids
Visits steps ids marks _ = Unit

module _ (steps : List StepSpec) where
  visit_all-Visits :
      (visit_one : String → Marks → Search)
      → ((id : String) (marks : Marks)
          → Sorted steps marks.visited
          → Visits steps (id ∷ []) marks (visit_one id marks))
      → (ids : List String) (marks : Marks) → Sorted steps marks.visited
      → Visits steps ids marks (visit_all steps visit_one ids marks)
  unfolding Visits
  visit_all-Visits visit_one each [] marks sorted = (sorted, λ x h. h, tt)
  visit_all-Visits visit_one each (id ∷ ids) marks sorted =
      rest (visit_one id marks) (each id marks sorted) (visit_all-Visits visit_one each ids)
    where
      later :
          (before after : Marks) (s : Search)
          → Visits steps (id ∷ []) before (found after)
          → Visits steps ids after s
          → Visits steps (id ∷ ids) before s
      later before after (found last) h k =
          (k.0, (λ x member. k.1 x (h.1 x member)), (k.1 id h.2.0, k.2))
      later before after (thrown c) h k = tt
      later before after exhausted h k = tt

      rest :
          (s : Search)
          → Visits steps (id ∷ []) marks s
          → ((at : Marks)
              → Sorted steps at.visited
              → Visits steps ids at (visit_all steps visit_one ids at))
          → Visits steps (id ∷ ids) marks (and_then s (visit_all steps visit_one ids))
      rest (found after) h next =
          later marks after (visit_all steps visit_one ids after) h (next after h.0)
      rest (thrown c) h next = tt
      rest exhausted h next = tt

  visit_dependencies-Visits :
      (visit_one : String → Marks → Search)
      → ((id : String) (marks : Marks)
          → Sorted steps marks.visited
          → Visits steps (id ∷ []) marks (visit_one id marks))
      → (id : String) (marks : Marks) (deps : Option (List String)) → dependencies steps id ≡ deps
      → Sorted steps marks.visited
      → Visits steps (id ∷ []) marks (
          and_then
            (visit_dependencies steps visit_one deps (enter id marks))
            (λ after. found (leave id after)))
  unfolding Visits Sorted
  visit_dependencies-Visits visit_one each id marks none known sorted = tt
  visit_dependencies-Visits visit_one each id marks (some ids) known sorted =
      close (visit_all steps visit_one ids (enter id marks))
        (visit_all-Visits visit_one each ids (enter id marks) sorted)
    where
      close :
          (s : Search)
          → Visits steps ids (enter id marks) s
          → Visits steps (id ∷ []) marks (and_then s (λ after. found (leave id after)))
      close (found after) h = (
        ((ids, known, h.2), h.0),
        (λ x member. ground (arith, h.1 x member)),
        (ground (arith, same_refl id), tt),
      )
      close (thrown c) h = tt
      close exhausted h = tt

  visit-Visits :
      (fuel : ℕ) (id : String) (marks : Marks)
      → Sorted steps marks.visited
      → Visits steps (id ∷ []) marks (visit steps fuel id marks)
  unfolding visit Visits
  visit-Visits zero id marks sorted = tt
  visit-Visits (suc fuel) id marks sorted = elim (Bool-cases (includes marks.visiting id)) [
    | inl here ↦ rw (here, Visits) tt
    | inr absent ↦ elim (Bool-cases (includes marks.visited id)) [
      | inl done ↦ rw (absent, done, Visits) (sorted, (λ x h. h), (done, tt))
      | inr fresh ↦
          rw (absent, fresh, Visits)
            (visit_dependencies-Visits (visit steps fuel) (visit-Visits fuel) id marks
              (dependencies steps id) refl sorted)
    ]
  ]

  search_cycle-Visits : Visits steps (step_ids steps) (no_marks steps) (search_cycle steps)
  unfolding search_cycle Sorted
  search_cycle-Visits =
      visit_all-Visits (visit steps (suc (length steps))) (visit-Visits (suc (length steps)))
        (step_ids steps) (no_marks steps) tt

outcome-found : (s : Search) {marks : Marks} → outcome s ≡ some (ok marks) → s ≡ found marks
outcome-found (found after) h = cc
outcome-found (thrown c) h = cc
outcome-found exhausted h = cc

-- What the check went through when it accepted the steps.
pub validate_dependencies-eq-ok :
    (steps : List StepSpec) {marks : Marks}
    → validate_dependencies steps ≡ some (ok marks)
    → (check_known (step_ids steps) steps ≡ ok tt) × (search_cycle steps ≡ found marks)
unfolding validate_dependencies
validate_dependencies-eq-ok steps h = elim (Result-cases (check_known (step_ids steps) steps)) [
  | inl (t, known) ↦
      (known, outcome-found (search_cycle steps) (rw (known, validate_dependencies) at h))
  | inr (c, unknown) ↦ cc (rw (unknown, validate_dependencies) at h)
]

-- Dependencies that the check accepts can be carried out in order: the steps that it visited, the last one first,
-- are all the steps, and each of them has its dependencies behind it.
pub validate_dependencies-Sorted :
    (steps : List StepSpec) (marks : Marks)
    → validate_dependencies steps ≡ some (ok marks)
    → Sorted steps marks.visited × All (λ id. includes marks.visited id ≡ true) (step_ids steps)
unfolding Visits
validate_dependencies-Sorted steps marks h =
    let seen =
      subst (Visits steps (step_ids steps) (no_marks steps)) (validate_dependencies-eq-ok steps h).1
        (search_cycle-Visits steps) in
    (seen.0, seen.2)
