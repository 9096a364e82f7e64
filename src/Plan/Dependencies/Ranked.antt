-- ===== src/Plan/Dependencies/Ranked.antt =====
-- plan-service.js: the Plans that `validateDependencies` accepts.
use agentdock_mcp_harness.Base.{
  ℕ, zero, suc, ◌≤◌, ◌<◌, String, true, none, some, List, [], ◌∷◌, includes, All, all, length,
  string_dec, same, ok, Bool-cases, arith, ◌≡◌, ◌≢◌, ◌↔◌, refl, subst, sym, ap, same_refl, inl, inr,
  if◌then◌else◌, guard, >>=-eq-ok, guard-eq-ok, invalid_plan_dependency,
}
use agentdock_mcp_harness.Plan.{StepSpec}
use agentdock_mcp_harness.Plan.Dependencies.{
  Marks, Search, found, thrown, exhausted, search_cycle, step_ids, dependency_ok, dependencies,
  validate_dependencies, check_known,
}
use agentdock_mcp_harness.Plan.Dependencies.Enough.{
  dependencies-some, Returns, search_cycle-Returns,
}
use agentdock_mcp_harness.Plan.Dependencies.Sorted.{
  Sorted, validate_dependencies-Sorted, validate_dependencies-eq-ok,
}

-- A rank that falls from each step to its dependencies: no step waits for itself.
unfoldable pub IsRanked : List StepSpec → (String → ℕ) → Type 0
IsRanked steps rank =
    (id d : String) (ids : List String)
    → dependencies steps id ≡ some ids
    → includes ids d ≡ true
    → rank d < rank id

-- How many identifiers stand behind the last occurrence, that one included.
height : List String → String → ℕ
height [] x = zero
height (y ∷ ys) x =
    if includes ys x then height ys x else if same y x then suc (length ys) else zero

height-le : (xs : List String) (x : String) → height xs x ≤ length xs
unfolding height
height-le [] x = omega arith
height-le (y ∷ ys) x = ground (arith, height-le ys x)

pub All-includes :
    (P : String → Type 0) (ids : List String)
    → All P ids
    → (d : String) → includes ids d ≡ true
    → P d
All-includes P [] h d member = cc
All-includes P (x ∷ rest) h d member = elim (string_dec x d) [
  | yes e ↦ subst P e h.0
  | no differ ↦ All-includes P rest h.1 d (grind (arith, differ))
]

-- The dependencies of the first step of a sorted list are behind it.
Sorted-front :
    (steps : List StepSpec) (x : String) (xs : List String)
    → Sorted steps (x ∷ xs)
    → (d : String) (ids : List String) → dependencies steps x ≡ some ids
    → includes ids d ≡ true
    → includes xs d ≡ true
unfolding Sorted
Sorted-front steps x xs sorted d ids known dep =
    All-includes (λ y. includes xs y ≡ true) sorted.0.0 sorted.0.2 d
      (subst (λ v. includes v d ≡ true) (cc (known, sorted.0.1)) dep)

-- In a sorted list the heights are a rank.
Sorted-height :
    (steps : List StepSpec) (xs : List String)
    → Sorted steps xs
    → (id d : String) (ids : List String) → includes xs id ≡ true
    → dependencies steps id ≡ some ids
    → includes ids d ≡ true
    → (includes xs d ≡ true) × (height xs d < height xs id)
unfolding Sorted height
Sorted-height steps [] sorted id d ids member known dep = cc
Sorted-height steps (x ∷ xs) sorted id d ids member known dep = elim (Bool-cases (includes xs id)) [
  | inl behind ↦
      let deeper = Sorted-height steps xs sorted.1 id d ids behind known dep in
      ground (arith, deeper)
  | inr front ↦
      let here : x ≡ id = ground arith in
      let dep_behind =
        Sorted-front steps x xs sorted d ids
          (subst (λ y. dependencies steps y ≡ some ids) (sym here) known) dep in
      ground (arith, dep_behind, height-le xs d)
]

validate_dependencies-IsRanked :
    (steps : List StepSpec) (marks : Marks)
    → validate_dependencies steps ≡ some (ok marks)
    → IsRanked steps (height marks.visited)
unfolding IsRanked
validate_dependencies-IsRanked steps marks h id d ids known dep =
    let seen = validate_dependencies-Sorted steps marks h in
    let member =
      All-includes (λ y. includes marks.visited y ≡ true) (step_ids steps) seen.1 id
        (dependencies-some steps id known) in
    (Sorted-height steps marks.visited seen.0 id d ids member known dep).1

-- The dependencies of a step that passed the first loop are steps.
all-dependency_ok :
    (ids : List String) (id : String) (deps : List String)
    → all (dependency_ok ids id) deps ≡ true
    → (d : String) → includes deps d ≡ true
    → includes ids d ≡ true
all-dependency_ok ids id [] h d member = cc
all-dependency_ok ids id (x ∷ deps) h d member = elim (string_dec x d) [
  | yes e ↦ subst (λ y. includes ids y ≡ true) e (ground (arith, h))
  | no differ ↦ all-dependency_ok ids id deps (ground (arith, h)) d (grind (arith, differ))
]

check_known-eq-ok :
    (ids : List String) (steps : List StepSpec)
    → check_known ids steps ≡ ok tt
    → (id d : String) (deps : List String) → dependencies steps id ≡ some deps
    → includes deps d ≡ true
    → includes ids d ≡ true
unfolding check_known
check_known-eq-ok ids [] h id d deps known member = cc
check_known-eq-ok ids (step ∷ steps) h id d deps known member =
    let passed =
      >>=-eq-ok
        (guard (all (dependency_ok ids step.step_id) step.depends_on) invalid_plan_dependency) _
        h in
    let holds = guard-eq-ok (all (dependency_ok ids step.step_id) step.depends_on) _ passed.1 in
    elim (string_dec step.step_id id) [
      | yes e ↦ all-dependency_ok ids step.step_id step.depends_on holds d (
          let same_deps : step.depends_on ≡ deps = grind (arith, e, known) in
          subst (λ v. includes v d ≡ true) (sym same_deps) member)
      | no differ ↦
          check_known-eq-ok ids steps passed.2 id d deps (grind (arith, differ, known)) member
    ]

-- What is being visited has a higher rank.
IsBelow : (String → ℕ) → String → List String → Type 0
IsBelow rank id visiting = All (λ v. rank id < rank v) visiting

IsBelow-includes :
    (rank : String → ℕ) (id : String) (visiting : List String)
    → IsBelow rank id visiting
    → includes visiting id ≡ true
    → ⊥
unfolding IsBelow
IsBelow-includes rank id [] below h = cc
IsBelow-includes rank id (v ∷ visiting) below h = elim (string_dec v id) [
  | yes e ↦ let same_rank = ap rank e in omega (arith, below.0)
  | no differ ↦ IsBelow-includes rank id visiting below.1 (grind (arith, differ))
]

IsBelow-lt :
    (rank : String → ℕ) (id d : String) (visiting : List String)
    → rank d < rank id
    → IsBelow rank id visiting
    → IsBelow rank d visiting
unfolding IsBelow
IsBelow-lt rank id d [] lower below = tt
IsBelow-lt rank id d (v ∷ visiting) lower below =
    (omega (arith, lower, below.0), IsBelow-lt rank id d visiting lower below.1)

dependencies-includes :
    (steps : List StepSpec) (id : String)
    → includes (step_ids steps) id ≡ true
    → dependencies steps id ≡ none
    → ⊥
dependencies-includes [] id member missing = cc
dependencies-includes (step ∷ steps) id member missing = elim (string_dec step.step_id id) [
  | yes e ↦ grind (arith, e)
  | no differ ↦ dependencies-includes steps id (grind (arith, differ)) (grind (arith, differ))
]

found_marks : (s : Search) → Returns ⊥ [] s → (marks : Marks) × (s ≡ found marks)
unfolding Returns
found_marks (found marks) h = (marks, refl)
found_marks (thrown c) h = elim h [ ]
found_marks exhausted h = elim h [ ]

IsRanked-found :
    (steps : List StepSpec) (rank : String → ℕ)
    → check_known (step_ids steps) steps ≡ ok tt
    → IsRanked steps rank
    → (marks : Marks) × (search_cycle steps ≡ found marks)
unfolding IsRanked IsBelow
IsRanked-found steps rank known ranked = found_marks (search_cycle steps) (
    search_cycle-Returns steps ⊥
      (λ id visiting. (includes (step_ids steps) id ≡ true) × IsBelow rank id visiting)
      (λ id visiting safe. IsBelow-includes rank id visiting safe.1)
      (λ id visiting safe. dependencies-includes steps id safe.0)
      (λ id d visiting ids safe deps member. (
        check_known-eq-ok (step_ids steps) steps known id d ids deps member,
        (
          ranked id d ids deps member,
          IsBelow-lt rank id d visiting (ranked id d ids deps member) safe.1,
        ),
      ))
      (λ id member. (member, tt)))

-- Every dependency is a step of the list, and another one.
unfoldable pub IsKnown : List String → List StepSpec → Type 0
IsKnown ids steps =
    All
      (λ (step : StepSpec). All (λ d. (includes ids d ≡ true) × (d ≢ step.step_id)) step.depends_on)
      steps

dependency_ok_iff :
    (ids : List String) (id : String) (deps : List String)
    → (all (dependency_ok ids id) deps ≡ true) ↔ All (λ d. (includes ids d ≡ true) × (d ≢ id)) deps
dependency_ok_iff ids id [] = ((λ _. tt), (λ _. refl))
dependency_ok_iff ids id (d ∷ deps) =
    let rest = dependency_ok_iff ids id deps in
    (
      (λ h. ((ground (arith, h), ground (arith, h, same_refl id)), rest.0 (ground (arith, h)))),
      (λ h. ground (arith, h.0.0, h.0.1, rest.1 h.1)),
    )

check_known_iff :
    (ids : List String) (steps : List StepSpec)
    → (check_known ids steps ≡ ok tt) ↔ IsKnown ids steps
unfolding check_known IsKnown
check_known_iff ids [] = ((λ _. tt), (λ _. refl))
check_known_iff ids (step ∷ steps) =
    let here = dependency_ok_iff ids step.step_id step.depends_on in
    let rest = check_known_iff ids steps in
    (
      (λ h.
          let a =
            >>=-eq-ok
              (guard (all (dependency_ok ids step.step_id) step.depends_on) invalid_plan_dependency)
              _ h in
          (
            here.0 (guard-eq-ok (all (dependency_ok ids step.step_id) step.depends_on) _ a.1),
            rest.0 a.2,
          )),
      (λ h. rw (here.1 h.0) (rest.1 h.1)),
    )

-- The dependency check accepts exactly the lists of steps in which every dependency is another step of the list
-- and no step waits for itself through its dependencies: some rank falls from each step to what it depends on.
pub validate_dependencies_iff :
    (steps : List StepSpec)
    → ((marks : Marks) × (validate_dependencies steps ≡ some (ok marks)))
      ↔ (IsKnown (step_ids steps) steps × (rank : String → ℕ) × IsRanked steps rank)
unfolding validate_dependencies
validate_dependencies_iff steps = (
  (λ accepted. (
    (check_known_iff (step_ids steps) steps).0 (validate_dependencies-eq-ok steps accepted.1).0,
    height accepted.0.visited,
    validate_dependencies-IsRanked steps accepted.0 accepted.1,
  )),
  (λ ordered.
      let known = (check_known_iff (step_ids steps) steps).1 ordered.0 in
      let ends = IsRanked-found steps ordered.1 known ordered.2 in
      (ends.0, rw (known, ends.1, validate_dependencies) refl)),
)
