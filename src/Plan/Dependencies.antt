-- ===== src/Plan/Dependencies.antt =====
-- plan-service.js: `validateDependencies`, the depth-first search for a cycle.
pub mod Enough
pub mod Sorted
pub mod Ranked
use agentdock_mcp_harness.Base.{
  ℕ, zero, suc, String, Bool, true, false, not, ◌&&◌, ◌||◌, Option, none, some, List, [], ◌∷◌, map,
  find, all, includes, length, if◌then◌else◌, same, Result, ok, err, ◌>>=◌, ◌>>◌, guard, Code,
  invalid_plan_dependency, type_error,
}
use agentdock_mcp_harness.Plan.{StepSpec}

abbrev pub step_ids : List StepSpec → List String
step_ids steps = map (λ step. step.step_id) steps

-- The first loop: each dependency is a step, and another one.
abbrev pub dependency_ok : List String → String → String → Bool
dependency_ok ids id dependency = includes ids dependency && not (same dependency id)

unfoldable pub check_known : List String → List StepSpec → Result (Unit {0})
check_known ids [] = ok tt
check_known ids (step ∷ steps) = do
  guard (all (dependency_ok ids step.step_id) step.depends_on) invalid_plan_dependency
  check_known ids steps

-- The sets of the search; `visited` is in the order of insertion, the last one first.
pub record Marks : Type 0 where
  pub visiting : List String
  pub visited : List String

-- `set.delete(id)`
abbrev pub without : String → List String → List String
without id [] = []
without id (x ∷ xs) = if same x id then xs else x ∷ without id xs

abbrev pub enter : String → Marks → Marks
enter id marks = record marks { visiting = id ∷ marks.visiting }

abbrev pub leave : String → Marks → Marks
leave id marks = record marks { visiting = without id marks.visiting; visited = id ∷ marks.visited }

abbrev pub deps_of : Option StepSpec → Option (List String)
deps_of none = none
deps_of (some step) = some step.depends_on

-- The dependencies of the step that has the identifier.
abbrev pub dependencies : List StepSpec → String → Option (List String)
dependencies steps id = deps_of (find (λ step. same step.step_id id) steps)

-- What a search ends with; `exhausted` is an end of the fuel that the code has no part in.
pub data Search : Type 0 where
  found : Marks → Search
  thrown : Code → Search
  exhausted : Search

abbrev pub and_then : Search → (Marks → Search) → Search
and_then (found marks) continue = continue marks
and_then (thrown c) continue = thrown c
and_then exhausted continue = exhausted

module _ (steps : List StepSpec) where
  -- `for (const dependency of step.depends_on) visit(dependency)`
  abbrev pub visit_all : (String → Marks → Search) → List String → Marks → Search
  visit_all visit [] marks = found marks
  visit_all visit (id ∷ ids) marks = and_then (visit id marks) (visit_all visit ids)

  -- `step.depends_on` of a step that is not there is a TypeError.
  abbrev pub visit_dependencies : (String → Marks → Search) → Option (List String) → Marks → Search
  visit_dependencies visit none marks = thrown type_error
  visit_dependencies visit (some ids) marks = visit_all visit ids marks

  -- `visit`
  unfoldable pub visit : ℕ → String → Marks → Search
  visit zero id marks = exhausted
  visit (suc fuel) id marks = elim (includes marks.visiting id) [
    | true ↦ thrown invalid_plan_dependency
    | false ↦ elim (includes marks.visited id) [
      | true ↦ found marks
      | false ↦
          and_then (visit_dependencies (visit fuel) (dependencies steps id) (enter id marks))
            (λ after. found (leave id after))
    ]
  ]

  abbrev pub no_marks : Marks
  no_marks = record { visiting = []; visited = [] }

  -- `for (const step of steps) visit(step.step_id)`, with fuel for one level more than there are steps.
  unfoldable pub search_cycle : Search
  search_cycle = visit_all (visit (suc (length steps))) (step_ids steps) no_marks

abbrev pub outcome : Search → Option (Result Marks)
outcome (found marks) = some (ok marks)
outcome (thrown c) = some (err c)
outcome exhausted = none

-- `validateDependencies`: nothing would be an end of the fuel.
unfoldable pub validate_dependencies : List StepSpec → Option (Result Marks)
validate_dependencies steps = elim (check_known (step_ids steps) steps) [
  | ok _ ↦ outcome (search_cycle steps)
  | err c ↦ some (err c)
]
